-- ===== src/FatVolume/Tests.antt =====
-- The theorems about the volume of src/fs/fat32.c at a small disk.
use ras_pi_k.Base.{ℕ, ◌≡◌, refl, none, some, [], ◌∷◌, ◌++◌, pos, negsuc, arith, ◌==◌, if◌then◌else◌}
use ras_pi_k.Strings.{CString, strlen, text}
use ras_pi_k.Store.{Ptr, Device, Devfs, Driver}
use ras_pi_k.Store.Blocks.{tabulate}
use ras_pi_k.Devfs.{new_device}
use ras_pi_k.Paths.{slash}
use ras_pi_k.Paths.Split.{IsName}
use ras_pi_k.Vfs.DeviceFds.{IsReady}
use ras_pi_k.Kernel.{devices, Kernel, Fat32, finished, return}
use ras_pi_k.FatNames.Directory.{lookup_dir}
use ras_pi_k.FatVolume.{Volume, FatObjects, Disk, vfs_disk, get_node_fat32}
use ras_pi_k.FatVolume.Device.{next_of}
use ras_pi_k.FatVolume.Walk.{directory, Opened, get_node_fat32-lookup_dir}
use ras_pi_k.FatVolume.Mounted.{get_node_fat32-mounted}
use ras_pi_k.FatVolume.Sample.{volume, image, disk, kernel, serves}

abbrev foo_name : CString
foo_name = b'f' ∷ b'o' ∷ b'o' ∷ b'.' ∷ b't' ∷ b'x' ∷ b't' ∷ []

get_node_fat32-lookup_dir_example :
    (a : Ptr) × (k' : Kernel ℕ FatObjects) × (get_node_fat32 disk 16 foo_name kernel
      ≡ finished a k')
    × Opened 16 (lookup_dir (directory volume image 2 []) foo_name) a kernel k'
unfolding next_of strlen
get_node_fat32-lookup_dir_example =
    get_node_fat32-lookup_dir volume foo_name serves (omega arith)
      (omega arith, omega arith, omega arith) 16 [] kernel refl (λ i. omega arith)
      ((omega arith, omega arith), (omega arith, omega arith), refl) (omega arith)

-- a device that fails every read
abbrev broken : Disk ℕ
broken = record disk { read_disk = λ fd len k. finished (negsuc 0, []) k }

-- `/dev/sdcard`, with a driver that reads the bytes of the image
abbrev dev : CString
dev = b'd' ∷ b'e' ∷ b'v' ∷ []

abbrev sdcard : CString
sdcard = b's' ∷ b'd' ∷ b'c' ∷ b'a' ∷ b'r' ∷ b'd' ∷ []

abbrev reader : Driver ℕ
reader = record {
  init = λ d hw. (pos 0, hw);
  read = λ d offset len hw. (pos len, offset, tabulate len (image offset), hw);
  write = λ d offset buf hw. (pos 0, offset, hw);
  ioctl = λ d cmd args hw. (pos 0, hw);
}

abbrev card_device : Device
card_device = new_device sdcard 0 40

abbrev devices_of : Devfs
devices_of = record { list = λ _. 24; nbdevices = 1 }

abbrev booted : Kernel ℕ FatObjects
booted = record kernel {
  store = record kernel.store {
    device = λ p. if p == 24 then some card_device else none;
    devfs = λ p. if p == 8 then some devices_of else none;
    driver = λ p. if p == 40 then some reader else none;
  };
  fat = record kernel.fat {
    volume = λ p.
        if p == 16 then some (record volume { devpath = slash ∷ dev ++ slash ∷ sdcard }) else none;
  };
  list = λ _. record { name = dev; type = devices; fs = 8 };
  nbmountpoints = 1;
}

abbrev mounted_volume : Volume
mounted_volume = record volume { devpath = slash ∷ dev ++ slash ∷ sdcard }

abbrev AnyState : ℕ → Type 0
AnyState hw = Unit {0}

ready : IsReady image 4096 AnyState dev sdcard booted
unfolding text
ready = record {
  has = record {
    point = 0;
    mounted = record {
      inside = omega arith;
      named = refl;
      type = refl;
      others = λ j h. absurd (omega arith);
    };
    fs = devices_of;
    stored = refl;
    slot = 0;
    first = record {
      device = card_device;
      inside = omega arith;
      held = refl;
      named = refl;
      others = λ j h. absurd (omega arith);
    };
    ne_null = omega arith;
    driver = reader;
    driven = refl;
    serves = λ offset len hw fit small whole. (offset, hw, refl, tt);
  };
  memory = λ i. omega arith;
  fit = tt;
  fd = 0;
  lowest = record { inside = omega arith; free = refl; below = λ j h. absurd (omega arith) };
}

dev-IsName : IsName dev
unfolding IsName
dev-IsName = (omega arith, omega arith, (omega arith, omega arith, (omega arith, omega arith, tt)))

-- the FAT32 disks under the volume's device: there are none
abbrev no_disks : Fat32 ℕ FatObjects
no_disks = record {
  get_node_fat32 = λ fs name. return 0;
  file_size = λ p. return 0;
  read_fat32file = λ p offset len. return (pos 0, offset, []);
  readdir_fat32 = λ fs. return none;
  create_fat32 = λ path. return 0;
  remove_fat32 = λ fs. return tt;
}

get_node_fat32-mounted_example :
    (a : Ptr) × (k' : Kernel ℕ FatObjects) × (get_node_fat32 (vfs_disk no_disks) 16 foo_name booted
      ≡ finished a k')
    × Opened 16 (lookup_dir (directory mounted_volume image 2 []) foo_name) a booted k'
unfolding next_of strlen
get_node_fat32-mounted_example =
    get_node_fat32-mounted no_disks image 4096 AnyState dev sdcard dev-IsName mounted_volume
      foo_name 16 [] booted refl (omega arith) (omega arith, omega arith, omega arith) refl ready
      ((omega arith, omega arith), (omega arith, omega arith), refl) (omega arith)
