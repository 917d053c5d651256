-- ===== src/Devfs/Slots.antt =====
-- What the loops over the array of src/fs/devfs.c find.
use ras_pi_k.Base.{
  ℕ, zero, suc, ◌+◌, ◌-◌, ◌<◌, ◌≤◌, ◌≡◌, ◌≢◌, ap, true, false, none, some, arith, ◌==◌, ltb, leb,
  ◌&&◌, if◌then◌else◌, ==_iff, pos, Bool-cases, inl, inr,
}
use native.Mathlib.Decide.{ℕ_discrete}
use ras_pi_k.Strings.{CString, text, strcmp}
use ras_pi_k.Strings.Compare.{strcmp-eq-zero_iff}
use ras_pi_k.Store.{Ptr, Device, Devfs, Driver, Store, ok, update}
use ras_pi_k.Devfs.{find_device, get_node_devfs, remove_device, shift_devices}

-- `k` is the first index below `n` whose device has the name.
pub record IsFirst {Hw : Type 0} (s : Store Hw) (list : ℕ → Ptr) (n : ℕ) (name : CString) (k : ℕ)
    : Type 0 where
  pub device : Device
  pub inside : k < n
  pub held : s.device (list k) ≡ some device
  pub named : text device.name ≡ text name
  pub others :
      (j : ℕ)
      → j < k
      → (dev : Device) × (s.device (list j) ≡ some dev) × (text dev.name ≢ text name)

module _ {Hw : Type 0} (s : Store Hw) (list : ℕ → Ptr) (name : CString) where
  find_device-from :
      (n i k : ℕ) (dev : Device)
      → i ≤ k
      → k < i + n
      → s.device (list k) ≡ some dev
      → text dev.name ≡ text name
      → ((j : ℕ)
          → i ≤ j
          → j < k
          → (dv : Device) × (s.device (list j) ≡ some dv) × (text dv.name ≢ text name))
      → find_device n i list name s ≡ ok (some k) s
  unfolding find_device
  find_device-from zero i k dev lo hi held named others = absurd (omega arith)
  find_device-from (suc n) i k dev lo hi held named others = elim (ℕ_discrete i k) [
    | yes e ↦
        let here : s.device (list i) ≡ some dev = rw e held in
        let same : (strcmp dev.name name == 0) ≡ true =
          (==_iff _ 0).1 ((strcmp-eq-zero_iff dev.name name).1 named) in
        rw (here, same) (ap (λ j. ok (some j) s) e)
    | no ne ↦
        let (dv, there, differs) = others i (omega arith) (omega arith) in
        let other : (strcmp dv.name name == 0) ≡ false = differ dv differs in
        rw (there, other)
          (find_device-from n (i + 1) k dev (omega arith) (omega arith) held named
            (λ j a b. others j (omega arith) b))
  ]
    where
      differ : (dv : Device) → text dv.name ≢ text name → (strcmp dv.name name == 0) ≡ false
      differ dv ne = elim (Bool-cases (strcmp dv.name name == 0)) [
        | inl e ↦ absurd (ne ((strcmp-eq-zero_iff dv.name name).0 ((==_iff _ 0).0 e)))
        | inr e ↦ e
      ]

  -- The loop returns the first index of the name, and changes nothing.
  pub find_device-first :
      (n k : ℕ) → IsFirst s list n name k → find_device n 0 list name s ≡ ok (some k) s
  find_device-first n k f =
      find_device-from n 0 k f.device (omega arith) (ground (arith, f.inside)) f.held f.named
        (λ j a b. f.others j b)

-- What the shift leaves at each index.
pub shift_devices-at :
    (n i : ℕ) (list : ℕ → Ptr) (j : ℕ)
    → shift_devices n i list j ≡ (if leb i j && ltb j (i + n) then list (j + 1) else list j)
unfolding shift_devices
shift_devices-at zero i list j = ground arith
shift_devices-at (suc n) i list j =
    ground (arith, shift_devices-at n (i + 1) (update list i (list (i + 1))) j)

module _ {Hw : Type 0} {s : Store Hw} (v : Ptr) {fs : Devfs} (stored : s.devfs v ≡ some fs)
    (name : CString) {k : ℕ} (f : IsFirst s fs.list fs.nbdevices name k) where
  -- `get_node_devfs` returns the first device of the name.
  pub get_node_devfs-first : get_node_devfs v name s ≡ ok (fs.list k) s
  unfolding get_node_devfs
  get_node_devfs-first = rw (stored, find_device-first s fs.list name fs.nbdevices k f)

  -- `remove_device` of a name frees its first device and the driver, and closes the gap below the
  -- new count. The slot at the new count is not cleared: it keeps the last device's address.
  pub remove_device-shift :
      {driver : Driver Hw}
      → s.driver f.device.driver ≡ some driver
      → (fs' : Devfs) × (remove_device v name s
          ≡ ok (pos 0) (record s {
            driver = update s.driver f.device.driver none;
            device = update s.device (fs.list k) none;
            devfs = update s.devfs v (some fs');
          }))
        × (fs'.nbdevices + 1 ≡ fs.nbdevices)
        × ((j : ℕ) → j < k → fs'.list j ≡ fs.list j)
        × ((j : ℕ) → k ≤ j → j < fs'.nbdevices → fs'.list j ≡ fs.list (j + 1))
        × (fs'.list fs'.nbdevices ≡ fs.list fs'.nbdevices)
  unfolding remove_device
  remove_device-shift alive = (
    record fs {
      list = shift_devices (fs.nbdevices - 1 - k) k fs.list;
      nbdevices = fs.nbdevices - 1;
    },
    rw (stored, find_device-first s fs.list name fs.nbdevices k f, f.held, alive, f.held),
    ground (arith, f.inside),
    λ j lt. ground (arith, shift_devices-at (fs.nbdevices - 1 - k) k fs.list j),
    λ j le lt. ground (arith, f.inside, shift_devices-at (fs.nbdevices - 1 - k) k fs.list j),
    ground (arith, f.inside, shift_devices-at (fs.nbdevices - 1 - k) k fs.list (fs.nbdevices - 1)),
  )
