-- ===== src/Devfs.antt =====
-- The device file system: src/fs/devfs.c and include/fs/devfs.h. A driver's functions are those of
-- its `s_driver`, over the state of the hardware.
pub mod Slots
pub mod Add
pub mod Stale
mod Tests
use ras_pi_k.Base.{
  ℕ, zero, suc, ◌+◌, ◌-◌, Option, none, some, List, [], ◌∷◌, ℤ, pos, failed, is_neg, ◌==◌, leb,
  if◌then◌else◌,
}
use ras_pi_k.Strings.{CString, strcmp}
use ras_pi_k.Store.{
  Ptr, null, Device, Devfs, Driver, Store, M, ok, pure, ◌>>=◌, ◌>>◌, kmalloc, update, load_device,
  store_device, load_devfs, store_devfs, load_driver, free_device, free_devfs, free_driver,
}

abbrev pub nbmax_device : ℕ
nbmax_device = 4096

-- `for (int j = i; j < devfs->nbdevices; j++) list[j] = list[j + 1];`, with `n` rounds left
pub shift_devices : ℕ → ℕ → (ℕ → Ptr) → ℕ → Ptr
shift_devices zero j list = list
shift_devices (suc n) j list = shift_devices n (j + 1) (update list j (list (j + 1)))

-- the device that `add_device` fills in
abbrev pub new_device : CString → ℕ → Ptr → Device
new_device name addr driver = record {
  name = name;
  addr = addr;
  driver = driver;
  perm = 0xff;
  lock = 0;
}

module _ {Hw : Type 0} where
  -- the functions that do nothing, for a driver that lacks one
  pub init_noop : Device → Hw → ℤ × Hw
  init_noop dev hw = (pos 0, hw)

  pub read_noop : Device → ℕ → ℕ → Hw → ℤ × ℕ × List ℕ × Hw
  read_noop dev offset len hw = (failed, offset, [], hw)

  pub write_noop : Device → ℕ → List ℕ → Hw → ℤ × ℕ × Hw
  write_noop dev offset buf hw = (failed, offset, hw)

  pub ioctl_noop : Device → ℤ → ℤ → Hw → ℤ × Hw
  ioctl_noop dev cmd args hw = (failed, hw)

  -- `device->driver->init (device)`
  pub init_device : Device → M Hw ℤ
  init_device dev = do
    driver ← load_driver dev.driver
    λ s. let (ret, hw) = driver.init dev s.hw in ok ret (record s { hw = hw })

  -- `kfree (driver); kfree (device); return …;`
  pub reject_device : Ptr → Ptr → ℤ → M Hw ℤ
  reject_device driver device ret = do free_driver driver; free_device device; pure ret

  pub add_device : Ptr → CString → ℕ → Ptr → M Hw ℤ
  unfolding init_device reject_device
  add_device devfs name addr driver = do
    a ← kmalloc
    if a.address == null then pure failed else do
      store_device a.address (new_device name addr driver)
      fs ← load_devfs devfs
      if leb (nbmax_device - 1) fs.nbdevices then reject_device driver a.address failed else do
        ret ← init_device (new_device name addr driver)
        if is_neg ret then reject_device driver a.address ret else do
          store_devfs devfs (record fs {
            list = update fs.list fs.nbdevices a.address;
            nbdevices = fs.nbdevices + 1;
          })
          pure ret

  -- the index of the first device of a name, from index `i` on with `n` devices left
  pub find_device : ℕ → ℕ → (ℕ → Ptr) → CString → M Hw (Option ℕ)
  find_device zero i list name = pure none
  find_device (suc n) i list name = do
    d ← load_device (list i)
    if strcmp d.name name == 0 then pure (some i) else find_device n (i + 1) list name

  pub remove_device : Ptr → CString → M Hw ℤ
  unfolding find_device shift_devices
  remove_device devfs name = do
    fs ← load_devfs devfs
    found ← find_device fs.nbdevices 0 fs.list name
    elim found [
      | none ↦ pure failed
      | some i ↦ do
        d ← load_device (fs.list i)
        free_driver d.driver
        free_device (fs.list i)
        store_devfs devfs (record fs {
          list = shift_devices (fs.nbdevices - 1 - i) i fs.list;
          nbdevices = fs.nbdevices - 1;
        })
        pure (pos 0)
    ]

  pub get_node_devfs : Ptr → CString → M Hw Ptr
  unfolding find_device
  get_node_devfs devfs name = do
    fs ← load_devfs devfs
    found ← find_device fs.nbdevices 0 fs.list name
    pure (elim found [ none ↦ null | some i ↦ fs.list i ])

  pub chmod_device : Ptr → CString → ℕ → M Hw ℤ
  unfolding find_device
  chmod_device devfs name perm = do
    fs ← load_devfs devfs
    found ← find_device fs.nbdevices 0 fs.list name
    elim found [
      | none ↦ pure failed
      | some i ↦ do
        d ← load_device (fs.list i)
        store_device (fs.list i) (record d { perm = perm })
        pure (pos 0)
    ]

  -- the names of the `n` devices from index `i` on
  pub device_names : ℕ → ℕ → (ℕ → Ptr) → M Hw (List CString)
  device_names zero i list = pure []
  device_names (suc n) i list = do
    d ← load_device (list i)
    rest ← device_names n (i + 1) list
    pure (d.name ∷ rest)

  pub readdir_devfs : Ptr → M Hw (Option (List CString))
  unfolding device_names
  readdir_devfs devfs = do
    fs ← load_devfs devfs
    a ← kmalloc
    if a.address == null
        then pure none
        else do names ← device_names fs.nbdevices 0 fs.list; pure (some names)

  pub create_devfs : M Hw Ptr
  create_devfs = do
    a ← kmalloc
    if a.address == null
        then pure null
        else do store_devfs a.address (record { list = λ _. null; nbdevices = 0 }); pure a.address

  -- the body of the loop of `remove_devfs`
  pub free_slot : Ptr → M Hw (Unit {0})
  free_slot p =
      if p == null then pure tt else (do d ← load_device p; free_driver d.driver; free_device p)

  -- `for (int i = 0; i < NBMAX_DEVICE; i++)`, with `n` rounds left
  pub free_devices : ℕ → ℕ → (ℕ → Ptr) → M Hw (Unit {0})
  unfolding free_slot
  free_devices zero i list = pure tt
  free_devices (suc n) i list = do free_slot (list i); free_devices n (i + 1) list

  pub remove_devfs : Ptr → M Hw (Unit {0})
  remove_devfs devfs = do
    fs ← load_devfs devfs
    free_devices nbmax_device 0 fs.list
    free_devfs devfs
