-- ===== src/Mounts/Insmod.antt =====
-- `insmod` of src/fs/vfs.c at a mount point with devices.
use ras_pi_k.Base.{
  ℕ, zero, suc, ◌+◌, ◌-◌, ◌<◌, ◌≤◌, ◌≡◌, ◌≢◌, refl, sym, true, false, none, some, ◌∷◌, ◌++◌, arith,
  ◌==◌, ==_iff, Bool-cases, inl, inr, is_neg,
}
use native.Mathlib.Decide.{ℕ_discrete}
use ras_pi_k.Strings.{CString, text, strcmp}
use ras_pi_k.Strings.Compare.{strcmp-eq-zero_iff}
use ras_pi_k.Store.{Ptr, null, Device, Devfs, Driver, update}
use ras_pi_k.Devfs.{nbmax_device, new_device}
use ras_pi_k.Devfs.Add.{add_device-append}
use ras_pi_k.Kernel.{MPoint, Kernel, finished}
use ras_pi_k.Mbr.{Buffer}
use ras_pi_k.Paths.{slash}
use ras_pi_k.Paths.Split.{IsName, parse_path-split}
use ras_pi_k.Vfs.Devices.{IsDevices, HasDevice, Serving}
use ras_pi_k.Mounts.{find_mpoint, insmod_at, insmod}

find_mpoint-from :
    (n i point : ℕ) (list : ℕ → MPoint) (dir : CString)
    → i ≤ point
    → point < i + n
    → text dir ≡ text (list point).name
    → ((j : ℕ) → j < point → text dir ≢ text (list j).name)
    → find_mpoint n i list dir ≡ some point
unfolding find_mpoint
find_mpoint-from zero i point list dir lo hi named others = absurd (omega arith)
find_mpoint-from (suc n) i point list dir lo hi named others = elim (ℕ_discrete i point) [
  | yes e ↦
      let here : text (list i).name ≡ text dir = rw e (sym named) in
      let same : (strcmp (list i).name dir == 0) ≡ true =
        (==_iff _ 0).1 ((strcmp-eq-zero_iff (list i).name dir).1 here) in
      rw (same, e) refl
  | no ne ↦
      let differs = others i (omega arith) in
      let other : (strcmp (list i).name dir == 0) ≡ false =
        elim (Bool-cases (strcmp (list i).name dir == 0)) [
          | inl e ↦
              absurd (differs (sym ((strcmp-eq-zero_iff (list i).name dir).0 ((==_iff _ 0).0 e))))
          | inr e ↦ e
        ] in
      rw other (find_mpoint-from n (i + 1) point list dir (omega arith) (omega arith) named others)
]

-- There is room for a device of a name, and none has it yet.
pub record HasRoom {Hw Fat : Type 0} (dir file : CString) (k : Kernel Hw Fat) : Type 0 where
  pub point : ℕ
  pub mounted : IsDevices k.list k.nbmountpoints dir point
  pub fs : Devfs
  pub stored : k.store.devfs (k.list point).fs ≡ some fs
  pub room : fs.nbdevices < nbmax_device - 1
  pub others :
      (j : ℕ)
      → j < fs.nbdevices
      → (dev : Device) × (k.store.device (fs.list j) ≡ some dev)
        × (text dev.name ≢ text (text file))

module _ {Hw Fat : Type 0} (dir file : CString) (addr drv : ℕ) (driver : Driver Hw)
    (k : Kernel Hw Fat) (name : IsName dir) (room : HasRoom dir file k)
    (memory : (i : ℕ) → (k.store.pool i).address ≢ null)
    (alive : k.store.driver drv ≡ some driver) where
  -- the device that is made
  abbrev pub made : Device
  made = new_device (text file) addr drv

  -- the address of the device
  abbrev pub place : Ptr
  place = (k.store.pool 3).address

  -- the file system with the device
  abbrev grown : Devfs
  grown = record room.fs {
    list = update room.fs.list room.fs.nbdevices place;
    nbdevices = room.fs.nbdevices + 1;
  }

  -- the kernel with the device
  abbrev pub with_device : Kernel Hw Fat
  with_device = record k {
    store = record k.store {
      hw = (driver.init made k.store.hw).1;
      pool = λ i. k.store.pool (i + 1 + 1 + 1 + 1);
      device = update k.store.device place (some made);
      devfs = update k.store.devfs (k.list room.point).fs (some grown);
    };
  }

  -- `insmod` returns what the driver's `init` does, where that is not negative.
  pub insmod-with_device :
      is_neg (driver.init made k.store.hw).0 ≡ false
      → insmod (slash ∷ dir ++ slash ∷ file) addr drv k
        ≡ finished (driver.init made k.store.hw).0 with_device
  unfolding insmod insmod_at
  insmod-with_device started =
      let split = parse_path-split k.store (memory 0) (memory 1) dir file name (memory 2) in
      let inside = room.mounted.inside in
      let found =
        find_mpoint-from k.nbmountpoints 0 room.point k.list dir (omega arith) (omega arith)
          room.mounted.named room.mounted.others in
      let k₁ = record k.store { pool = λ i. k.store.pool (i + 1 + 1 + 1) } in
      let added =
        add_device-append k₁ (k.list room.point).fs (text file) addr drv room.stored alive
          (memory 3) room.room started in
      rw (split, found, room.mounted.type, added) refl

  -- The device is then the one that its path names.
  pub with_device-HasDevice :
      {image : ℕ → Buffer} {blocks : ℕ} {Fit : Hw → Type 0}
      → k.store.device place ≡ none
      → Serving image blocks Fit driver made
      → HasDevice image blocks Fit dir file with_device
  with_device-HasDevice fresh serves = record {
    point = room.point;
    mounted = room.mounted;
    fs = grown;
    stored = ground arith;
    slot = room.fs.nbdevices;
    first = record {
      device = made;
      inside = omega arith;
      held = ground arith;
      named = refl;
      others = λ j lt.
          (let (dev, held, differs) = room.others j lt in
            let apart : room.fs.list j ≢ place = λ e. cc in (dev, ground arith, differs));
    };
    ne_null = let live = memory 3 in ground arith;
    driver = driver;
    driven = alive;
    serves = serves;
  }
