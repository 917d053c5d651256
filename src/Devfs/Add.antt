-- ===== src/Devfs/Add.antt =====
-- `add_device` of src/fs/devfs.c.
use ras_pi_k.Base.{
  ℕ, ◌+◌, ◌-◌, ◌<◌, ◌≤◌, ◌≡◌, ◌≢◌, ◌⊎◌, refl, Option, true, false, none, some, arith, ◌==◌, leb,
  if◌then◌else◌, inl, inr, Bool-cases, ℤ, failed, is_neg,
}
use ras_pi_k.Strings.{CString}
use ras_pi_k.Store.{Ptr, null, Device, Devfs, Driver, Store, ok, update}
use ras_pi_k.Devfs.{nbmax_device, new_device, add_device, reject_device}

reject_device_lem :
    {Hw : Type 0} (s : Store Hw) (drv p : Ptr) (ret : ℤ) {driver : Driver Hw} {dev : Device}
    → s.driver drv ≡ some driver
    → s.device p ≡ some dev
    → reject_device drv p ret s
      ≡ ok ret (record s { driver = update s.driver drv none; device = update s.device p none })
unfolding reject_device
reject_device_lem s drv p ret alive held = rw (alive, held)

update_self : {A : Type 0} (f : ℕ → Option A) (p : Ptr) (a : A) → update f p (some a) p ≡ some a
update_self f p a = ground arith

module _ {Hw : Type 0} (s : Store Hw) (v : Ptr) (name : CString) (addr drv : ℕ) {fs : Devfs}
    {driver : Driver Hw} (stored : s.devfs v ≡ some fs) (alive : s.driver drv ≡ some driver)
    (memory : (s.pool 0).address ≢ null) where
  -- A device whose driver starts stands behind the others, at the address that `kmalloc` gave;
  -- `add_device` returns what the driver's `init` returns.
  pub add_device-append :
      fs.nbdevices < nbmax_device - 1
      → is_neg (driver.init (new_device name addr drv) s.hw).0 ≡ false
      → add_device v name addr drv s
        ≡ ok (driver.init (new_device name addr drv) s.hw).0 (record s {
          hw = (driver.init (new_device name addr drv) s.hw).1;
          pool = λ i. s.pool (i + 1);
          device = update s.device (s.pool 0).address (some (new_device name addr drv));
          devfs = update s.devfs v (
              some (record fs {
                list = update fs.list fs.nbdevices (s.pool 0).address;
                nbdevices = fs.nbdevices + 1;
              }));
        })
  unfolding add_device
  add_device-append room started =
      let got : ((s.pool 0).address == null) ≡ false = ground arith in
      let fits : leb (nbmax_device - 1) fs.nbdevices ≡ false = ground arith in
      rw (got, stored, fits, alive, started)

  -- With memory for the device, and a driver that is there: in a full file system, and where the
  -- driver does not start, `add_device` returns a negative number and frees the driver and the
  -- device. The other devices and drivers, all lists and the files in memory stay as they were; the
  -- hardware is as the driver's `init` leaves it, or as it was where the file system is full.
  pub add_device_rejected :
      (nbmax_device - 1 ≤ fs.nbdevices)
        ⊎ (is_neg (driver.init (new_device name addr drv) s.hw).0 ≡ true)
      → (ret : ℤ) × (s' : Store Hw) × (add_device v name addr drv s ≡ ok ret s')
        × (is_neg ret ≡ true)
        × (s'.driver drv ≡ none)
        × (s'.device (s.pool 0).address ≡ none)
        × ((q : Ptr) → q ≢ (s.pool 0).address → s'.device q ≡ s.device q)
        × ((q : Ptr) → q ≢ drv → s'.driver q ≡ s.driver q)
        × (s'.devfs ≡ s.devfs)
        × (s'.vfile ≡ s.vfile)
        × (s'.vffs ≡ s.vffs)
        × (s'.hw ≡ (
            if leb (nbmax_device - 1) fs.nbdevices
            then s.hw
            else (driver.init (new_device name addr drv) s.hw).1))
  unfolding add_device
  add_device_rejected reason =
      let p = (s.pool 0).address in
      let dev = new_device name addr drv in
      let got : (p == null) ≡ false = ground arith in
      let here = update_self s.device p dev in
      let s₁ : Store Hw = record s {
        pool = λ i. s.pool (i + 1);
        device = update s.device p (some dev);
      } in
      elim (Bool-cases (leb (nbmax_device - 1) fs.nbdevices)) [
        | inl full ↦ (
          failed,
          record s₁ { driver = update s.driver drv none; device = update s₁.device p none },
          rw (got, stored, full) (reject_device_lem s₁ drv p failed alive here),
          refl,
          ground arith,
          ground arith,
          ground arith,
          ground arith,
          refl,
          refl,
          refl,
          rw full refl,
        )
        | inr room ↦
            let s₂ : Store Hw = record s₁ { hw = (driver.init dev s.hw).1 } in
            let stopped : is_neg (driver.init dev s.hw).0 ≡ true = stops room reason in
            (
              (driver.init dev s.hw).0,
              record s₂ { driver = update s.driver drv none; device = update s₂.device p none },
              rw (got, stored, room, alive, stopped)
                  (reject_device_lem s₂ drv p (driver.init dev s.hw).0 alive here),
              stopped,
              ground arith,
              ground arith,
              ground arith,
              ground arith,
              refl,
              refl,
              refl,
              rw room refl,
            )
      ]
    where
      stops :
          leb (nbmax_device - 1) fs.nbdevices ≡ false
          → (nbmax_device - 1 ≤ fs.nbdevices)
            ⊎ (is_neg (driver.init (new_device name addr drv) s.hw).0 ≡ true)
          → is_neg (driver.init (new_device name addr drv) s.hw).0 ≡ true
      stops room (inl full) = ground arith
      stops room (inr stopped) = stopped
