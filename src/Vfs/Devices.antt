-- ===== src/Vfs/Devices.antt =====
-- The path of a device of src/fs/devfs.c, as `getnode` of src/fs/vfs.c finds it.
use ras_pi_k.Base.{
  ℕ, zero, suc, ◌+◌, ◌/◌, ◌%◌, ◌^◌, ◌<◌, ◌≤◌, ◌≡◌, ◌≢◌, refl, ap, true, false, some, ◌∷◌, ◌++◌,
  arith, ◌==◌, ==_iff, pos, Bool-cases, inl, inr,
}
use native.Mathlib.Decide.{ℕ_discrete}
use ras_pi_k.Strings.{CString, text, strcmp}
use ras_pi_k.Strings.Compare.{strcmp-eq-zero_iff}
use ras_pi_k.Store.{Ptr, null, Answer, Device, Devfs, Driver}
use ras_pi_k.Store.Blocks.{tabulate}
use ras_pi_k.Devfs.Slots.{IsFirst, get_node_devfs-first}
use ras_pi_k.Kernel.{MPoint, devices, Fd, Kernel, Fat32, finished}
use ras_pi_k.Paths.{slash}
use ras_pi_k.Paths.Split.{IsName, parse_path-split}
use ras_pi_k.Vfs.{Node, o_rdwr, getnode_devfs, getnode_from, getnode}
use ras_pi_k.Vffs.{has_flag}
use ras_pi_k.Mbr.{Buffer}

-- `point` is the first mount point of the name, and it has devices.
pub record IsDevices (list : ℕ → MPoint) (n : ℕ) (dir : CString) (point : ℕ) : Type 0 where
  pub inside : point < n
  pub named : text dir ≡ text (list point).name
  pub type : (list point).type ≡ devices
  pub others : (j : ℕ) → j < point → text dir ≢ text (list j).name

-- A length that a driver of blocks can read: some sectors of 512 bytes, in an `int`.
abbrev pub IsSectors : ℕ → Type 0
IsSectors len = (0 < len) × (len % 512 ≡ 0) × (len < 2 ^ 31)

-- `n` sectors from a sector on lie among the blocks of a device, and the number of the first fits
-- an `int`.
abbrev pub Inside : ℕ → ℕ → ℕ → Type 0
Inside blocks sector n = (sector < 2 ^ 31) × (sector + n ≤ blocks)

-- Reads of whole sectors among its blocks by the driver return the bytes of the image from the
-- sector at the offset on.
abbrev pub Serving : {Hw : Type 0} → (ℕ → Buffer) → ℕ → (Hw → Type 0) → Driver Hw → Device → Type 0
Serving {Hw} image blocks Fit driver device =
    (offset len : ℕ) (hw : Hw)
    → Fit hw
    → Inside blocks offset (len / 512)
    → IsSectors len
    → (to : ℕ) × (hw' : Hw) × (driver.read device offset len hw
        ≡ (pos len, to, tabulate len (image offset), hw'))
      × Fit hw'

-- The device `file` of the file system that is mounted at `dir` has a driver that serves the image
-- of so many blocks while the hardware is `Fit`.
pub record HasDevice {Hw Fat : Type 0} (image : ℕ → Buffer) (blocks : ℕ) (Fit : Hw → Type 0)
    (dir file : CString) (k : Kernel Hw Fat) : Type 0 where
  pub point : ℕ
  pub mounted : IsDevices k.list k.nbmountpoints dir point
  pub fs : Devfs
  pub stored : k.store.devfs (k.list point).fs ≡ some fs
  pub slot : ℕ
  pub first : IsFirst k.store fs.list fs.nbdevices (text file) slot
  pub ne_null : fs.list slot ≢ null
  pub driver : Driver Hw
  pub driven : k.store.driver first.device.driver ≡ some driver
  pub serves : Serving image blocks Fit driver first.device

-- the kernel with other answers of `kmalloc` to come, another state of the hardware and other file
-- descriptors
abbrev pub moved : {Hw Fat : Type 0} → Kernel Hw Fat → (ℕ → Answer) → Hw → (ℕ → Fd) → Kernel Hw Fat
moved k pool hw table = record k {
  store = record k.store { pool = pool; hw = hw };
  fd_table = table;
}

abbrev pub HasDevice-moved :
    {Hw Fat : Type 0} {image : ℕ → Buffer} {blocks : ℕ} {Fit : Hw → Type 0} {dir file : CString}
    {k : Kernel Hw Fat} (pool : ℕ → Answer) (hw : Hw) (table : ℕ → Fd)
    → HasDevice image blocks Fit dir file k
    → HasDevice image blocks Fit dir file (moved k pool hw table)
HasDevice-moved pool hw table h = record {
  point = h.point;
  mounted = h.mounted;
  fs = h.fs;
  stored = h.stored;
  slot = h.slot;
  first = record {
    device = h.first.device;
    inside = h.first.inside;
    held = h.first.held;
    named = h.first.named;
    others = h.first.others;
  };
  ne_null = h.ne_null;
  driver = h.driver;
  driven = h.driven;
  serves = h.serves;
}

module _ {Hw Fat : Type 0} (f : Fat32 Hw Fat) (dir file : CString) (mode : ℕ) where
  -- The loop over the mount points goes to the first one of the name.
  getnode_from-first :
      (n i point : ℕ) (k : Kernel Hw Fat)
      → i ≤ point
      → point < i + n
      → text dir ≡ text (k.list point).name
      → (k.list point).type ≡ devices
      → ((j : ℕ) → j < point → text dir ≢ text (k.list j).name)
      → getnode_from f n i dir file mode k ≡ getnode_devfs (k.list point).fs file mode k
  unfolding getnode_from
  getnode_from-first zero i point k lo hi named type others = absurd (omega arith)
  getnode_from-first (suc n) i point k lo hi named type others = elim (ℕ_discrete i point) [
    | yes e ↦
        let same : (strcmp dir (k.list i).name == 0) ≡ true =
          (==_iff _ 0).1 ((strcmp-eq-zero_iff dir (k.list i).name).1 (rw e named)) in
        let is_devices : (k.list i).type ≡ devices = rw e type in
        rw (same, is_devices) (ap (λ j. getnode_devfs (k.list j).fs file mode k) e)
    | no ne ↦
        let differs = others i (omega arith) in
        let other : (strcmp dir (k.list i).name == 0) ≡ false =
          elim (Bool-cases (strcmp dir (k.list i).name == 0)) [
            | inl e ↦
                absurd (differs ((strcmp-eq-zero_iff dir (k.list i).name).0 ((==_iff _ 0).0 e)))
            | inr e ↦ e
          ] in
        rw other
          (getnode_from-first n (i + 1) point k (omega arith) (omega arith) named type others)
  ]

module _ {Hw Fat : Type 0} (f : Fat32 Hw Fat) (dir file : CString) (mode : ℕ) where
  -- the kernel after `parse_path`
  abbrev pub parsed : Kernel Hw Fat → Kernel Hw Fat
  parsed k = record k { store = record k.store { pool = λ i. k.store.pool (i + 1 + 1 + 1) } }

  -- the device as a node
  abbrev pub node_of : Ptr → Node
  node_of p = record { node = p; type = devices; offset = 0 }

  -- `getnode` of a device's path finds it, where it is not opened for writing.
  pub getnode-device :
      {image : ℕ → Buffer} {blocks : ℕ} {Fit : Hw → Type 0} (k : Kernel Hw Fat)
      (h : HasDevice image blocks Fit dir file k)
      → IsName dir
      → ((i : ℕ) → (k.store.pool i).address ≢ null)
      → has_flag mode o_rdwr ≡ false
      → getnode f (slash ∷ dir ++ slash ∷ file) mode k
        ≡ finished (some (node_of (h.fs.list h.slot))) (parsed k)
  unfolding getnode getnode_devfs
  getnode-device k h name memory reading =
      let split = parse_path-split k.store (memory 0) (memory 1) dir file name (memory 2) in
      let inside = h.mounted.inside in
      let k' = parsed k in
      let h' = HasDevice-moved k'.store.pool k'.store.hw k'.fd_table h in
      let first =
        getnode_from-first f dir (text file) mode k.nbmountpoints 0 h.point k' (omega arith)
          (omega arith) h.mounted.named h.mounted.type h.mounted.others in
      let found =
        get_node_devfs-first {s = k'.store} (k.list h.point).fs h'.stored (text file) h'.first in
      let live = h.ne_null in
      let there : (h.fs.list h.slot == null) ≡ false = ground arith in
      rw (split, first, found, there, h'.first.held, reading) refl
