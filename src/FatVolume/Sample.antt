-- ===== src/FatVolume/Sample.antt =====
-- A small FAT32 disk for the tests: a table in sector 1, a directory with the file `FOO.TXT` in
-- sector 2 and the contents of the file in sector 3. The state of the device is the sector that it
-- is positioned at.
use ras_pi_k.Base.{
  ℕ, ◌+◌, ◌≡◌, ◌≢◌, refl, none, some, List, [], ◌∷◌, pos, ◌==◌, if◌then◌else◌, get_or,
}
use ras_pi_k.Strings.{CString}
use ras_pi_k.Store.{null}
use ras_pi_k.Store.Blocks.{tabulate}
use ras_pi_k.Kernel.{vfiles, Kernel, finished}
use ras_pi_k.Mbr.{Buffer}
use ras_pi_k.FatNames.{FatDir}
use ras_pi_k.FatVolume.{Volume, FatObjects, Disk}
use ras_pi_k.FatVolume.Device.{Serves}

abbrev pub card : CString
card = b'c' ∷ []

abbrev pub volume : Volume
volume = record {
  devpath = card;
  seclen = 512;
  cluslen = 1;
  nbfats = 1;
  fatbits = 32;
  fatlen = 1;
  firstfat = 1;
  root = 2;
}

-- the entry of a file `FOO.TXT` of 1000 bytes in cluster 3
abbrev pub foo_txt : List ℕ
foo_txt =
    b'F' ∷ b'O' ∷ b'O' ∷ b' ' ∷ b' ' ∷ b' ' ∷ b' ' ∷ b' ' ∷ b'T' ∷ b'X' ∷ b'T' ∷ 0x20 ∷ 0 ∷ 0 ∷ 0
    ∷ 0 ∷ 0 ∷ 0 ∷ 0 ∷ 0 ∷ 0 ∷ 0 ∷ 0 ∷ 0 ∷ 0 ∷ 0 ∷ 3 ∷ 0 ∷ 232 ∷ 3 ∷ 0 ∷ 0 ∷ []

-- the entries of clusters 0 to 4: clusters 2 and 3 end their chains, and cluster 6 follows cluster
-- 4
abbrev pub table : List ℕ
table =
    0 ∷ 0 ∷ 0 ∷ 0 ∷ 0 ∷ 0 ∷ 0 ∷ 0 ∷ 255 ∷ 255 ∷ 255 ∷ 15 ∷ 255 ∷ 255 ∷ 255 ∷ 15 ∷ 6 ∷ 0 ∷ 0 ∷ 0 ∷ []

abbrev pub image : ℕ → Buffer
image sector i =
    if sector == 1 then get_or table i 0 else if sector == 2 then get_or foo_txt i 0 else i + 65

abbrev pub disk : Disk ℕ
disk = record {
  open_disk = λ path flags k. finished (pos 0) k;
  seek_disk =
      λ fd sector k. finished (pos sector) (record k { store = record k.store { hw = sector } });
  read_disk = λ fd len k. finished (pos len, tabulate len (image k.store.hw)) k;
  close_disk = λ fd k. finished (pos 0) k;
}

abbrev pub Ready : Kernel ℕ FatObjects → Type 0
Ready k = (i : ℕ) → (k.store.pool i).address ≢ null

abbrev pub Open : Kernel ℕ FatObjects → ℕ → Type 0
Open k fd = Ready k

abbrev pub At : Kernel ℕ FatObjects → ℕ → ℕ → Type 0
At k fd sector = (k.store.hw ≡ sector) × Ready k

pub serves : Serves disk card image 4096 Ready Open At
serves = record {
  opens = λ k ready. (0, k, refl, ready, refl);
  seeks = λ k fd sector ready h.
      (record k { store = record k.store { hw = sector } }, refl, (refl, ready), refl);
  reads = λ k fd sector len at small whole. (k, rw at.0 refl, at.1, refl);
  closes = λ k fd ready. (pos 0, k, refl, ready, refl);
  allocates = λ k ready. (ready 0, λ i. ready (i + 1));
  allocates_at = λ k fd sector at. (at.1 0, (at.0, λ i. at.1 (i + 1)));
}

-- the file `FOO.TXT`, as an entry of the directory
abbrev pub foo : FatDir
foo = record {
  name = λ j. get_or foo_txt j 0;
  ext = λ j. get_or foo_txt (8 + j) 0;
  attrs = 0x20;
  clhigh = 0;
  cllow = 3;
  size = 1000;
}

-- a kernel with the volume at the address 16 and the file at the address 32
abbrev pub kernel : Kernel ℕ FatObjects
kernel = record {
  store = record {
    hw = 0;
    pool = λ i. record { address = 64 + i; junk = λ _. 7 };
    vfile = λ _. none;
    vffs = λ _. none;
    device = λ _. none;
    devfs = λ _. none;
    driver = λ _. none;
  };
  fat = record {
    volume = λ p. if p == 16 then some volume else none;
    file = λ p. if p == 32 then some (record { info = 16; dir = foo }) else none;
  };
  list = λ _. record { name = []; type = vfiles; fs = null };
  nbmountpoints = 0;
  fd_table = λ _. record { type = vfiles; mode = 0; addr = null; offset = 0 };
}
