-- ===== src/Devfs/Tests.antt =====
-- A device file system with one device, and the theorems about src/fs/devfs.c at it.
use ras_pi_k.Base.{
  ℕ, ◌+◌, ◌<◌, ◌≤◌, ◌≡◌, ◌≢◌, refl, none, some, true, [], ◌∷◌, arith, ◌==◌, if◌then◌else◌, inr, ℤ,
  pos, failed, is_neg,
}
use ras_pi_k.Strings.{CString}
use ras_pi_k.Store.{Ptr, null, Device, Devfs, Driver, Store, ok, fault, update}
use ras_pi_k.Devfs.{
  new_device, add_device, remove_device, remove_devfs, init_noop, read_noop, write_noop, ioctl_noop,
}
use ras_pi_k.Devfs.Slots.{IsFirst, remove_device-shift}
use ras_pi_k.Devfs.Add.{add_device_rejected}
use ras_pi_k.Devfs.Stale.{remove_device-remove_devfs}

abbrev tty : CString
tty = b't' ∷ b't' ∷ b'y' ∷ []

abbrev uart : CString
uart = b'u' ∷ b'a' ∷ b'r' ∷ b't' ∷ []

abbrev noop : Driver (Unit {0})
noop = record { init = init_noop; read = read_noop; write = write_noop; ioctl = ioctl_noop }

-- the driver of a device that is not there
abbrev broken : Driver (Unit {0})
broken = record noop { init = λ dev hw. (failed, hw) }

abbrev device : Device
device = new_device tty 0 24

abbrev dev : Devfs
dev = record { list = λ i. if i == 0 then 8 else null; nbdevices = 1 }

abbrev store : Store (Unit {0})
store = record {
  hw = tt;
  pool = λ i. record { address = 64 + i; junk = λ _. 7 };
  vfile = λ _. none;
  vffs = λ _. none;
  device = λ p. if p == 8 then some device else none;
  devfs = λ p. if p == 16 then some dev else none;
  driver = λ p. if p == 24 then some noop else if p == 32 then some broken else none;
}

abbrev first : IsFirst store dev.list 1 tty 0
first = record {
  device = device;
  inside = omega arith;
  held = refl;
  named = refl;
  others = λ j h. absurd (omega arith);
}

add_device_rejected_example :
    (ret : ℤ) × (s' : Store (Unit {0})) × (add_device 16 uart 5 32 store ≡ ok ret s')
    × (is_neg ret ≡ true)
    × (s'.driver 32 ≡ none)
    × (s'.device 64 ≡ none)
    × ((q : Ptr) → q ≢ 64 → s'.device q ≡ store.device q)
    × ((q : Ptr) → q ≢ 32 → s'.driver q ≡ store.driver q)
    × (s'.devfs ≡ store.devfs)
    × (s'.vfile ≡ store.vfile)
    × (s'.vffs ≡ store.vffs)
    × (s'.hw ≡ tt)
add_device_rejected_example =
    add_device_rejected store 16 uart 5 32 refl refl (omega arith) (inr refl)

remove_device-shift_example :
    (fs' : Devfs) × (remove_device 16 tty store
      ≡ ok (pos 0) (record store {
        driver = update store.driver 24 none;
        device = update store.device 8 none;
        devfs = update store.devfs 16 (some fs');
      }))
    × (fs'.nbdevices + 1 ≡ 1)
    × ((j : ℕ) → j < 0 → fs'.list j ≡ dev.list j)
    × ((j : ℕ) → 0 ≤ j → j < fs'.nbdevices → fs'.list j ≡ dev.list (j + 1))
    × (fs'.list fs'.nbdevices ≡ dev.list fs'.nbdevices)
remove_device-shift_example = remove_device-shift 16 refl tty first {driver = noop} refl

remove_device-remove_devfs_example :
    (s' : Store (Unit {0})) × (remove_device 16 tty store ≡ ok (pos 0) s')
    × (remove_devfs 16 s' ≡ fault)
remove_device-remove_devfs_example =
    remove_device-remove_devfs 16 store dev tty 0 noop refl (omega arith) held first refl
  where
    held : (i : ℕ) → i < 1 → dev.list i ≢ null
    held i h = ground arith
