-- ===== src/Mounts/Tests.antt =====
-- Two file systems in memory, and the theorems about the mount points of src/fs/vfs.c at them.
use ras_pi_k.Base.{ℕ, ◌+◌, ◌<◌, ◌≡◌, refl, none, some, [], ◌∷◌, arith, ◌==◌, if◌then◌else◌, pos}
use ras_pi_k.Strings.{CString, strcmp, strlen}
use ras_pi_k.Store.{Ptr, null, Vffs, Store, ok, update}
use ras_pi_k.Vffs.{remove_vffs}
use ras_pi_k.Vffs.Free.{remove_vffs-empty}
use ras_pi_k.Kernel.{vfiles, MPoint, Kernel, Fat32, finished, return}
use ras_pi_k.Paths.{skip_slash}
use ras_pi_k.Mounts.{find_mpoint, mount, unmount}
use ras_pi_k.Mounts.Table.{IsPacked, mpoint}
use ras_pi_k.Mounts.Stale.{unmount-IsPacked, unmount-mount}

abbrev tmp : CString
tmp = b't' ∷ b'm' ∷ b'p' ∷ []

abbrev user : CString
user = b'u' ∷ b's' ∷ b'r' ∷ []

abbrev empty : Vffs
empty = record { list = λ i. null; nbfiles = 0 }

abbrev store : Store (Unit {0})
store = record {
  hw = tt;
  pool = λ i. record { address = 64 + i; junk = λ _. 7 };
  vfile = λ _. none;
  vffs = λ p. if p == 16 then some empty else if p == 24 then some empty else none;
  device = λ _. none;
  devfs = λ _. none;
  driver = λ _. none;
}

abbrev no_disk : Fat32 (Unit {0}) (Unit {0})
no_disk = record {
  get_node_fat32 = λ fs name. return null;
  file_size = λ p. return 0;
  read_fat32file = λ p offset len. return (pos 0, offset, []);
  readdir_fat32 = λ fs. return none;
  create_fat32 = λ path. return null;
  remove_fat32 = λ fs. return tt;
}

abbrev mounts : ℕ → MPoint
mounts i =
    if i == 0
    then mpoint vfiles tmp 16
    else if i == 1
    then mpoint vfiles user 24
    else mpoint vfiles [] null

abbrev kernel : Kernel (Unit {0}) (Unit {0})
kernel = record {
  store = store;
  fat = tt;
  list = mounts;
  nbmountpoints = 2;
  fd_table = λ i. record { type = vfiles; mode = 0; addr = null; offset = 0 };
}

packed : IsPacked mounts 2
packed = record { used = λ j h. ground arith; free = λ j h. ground arith }

-- the store without the file system at an address
abbrev freed : Ptr → Store (Unit {0})
freed p = record store { vffs = update store.vffs p none }

removed_tmp : remove_vffs 16 store ≡ ok tt (freed 16)
removed_tmp = remove_vffs-empty 16 store empty refl (λ j. refl)

removed_user : remove_vffs 24 store ≡ ok tt (freed 24)
removed_user = remove_vffs-empty 24 store empty refl (λ j. refl)

found_tmp : find_mpoint 2 0 mounts (skip_slash (b'/' ∷ tmp)) ≡ some 0
unfolding find_mpoint skip_slash strcmp strlen
found_tmp = refl

found_user : find_mpoint 2 0 mounts (skip_slash (b'/' ∷ user)) ≡ some 1
unfolding find_mpoint skip_slash strcmp strlen
found_user = refl

unmount-IsPacked_example :
    (k' : Kernel (Unit {0}) (Unit {0})) × (unmount no_disk (b'/' ∷ user) kernel
      ≡ finished (pos 0) k')
    × IsPacked k'.list k'.nbmountpoints
    × (k'.nbmountpoints + 1 ≡ 2)
    × ((j : ℕ) → j < 1 → (k'.list j).fs ≡ (mounts j).fs)
unmount-IsPacked_example =
    unmount-IsPacked no_disk kernel (b'/' ∷ user) found_user refl removed_user packed refl

unmount-mount_example :
    (k₁ : Kernel (Unit {0}) (Unit {0})) × (k₂ : Kernel (Unit {0}) (Unit {0})) × (unmount no_disk
        (b'/' ∷ tmp)
        kernel
      ≡ finished (pos 0) k₁)
    × (mount no_disk [] tmp vfiles k₁ ≡ finished (pos 2) k₂)
    × (k₂.list 2 ≡ mpoint vfiles tmp 64)
    × (k₂.nbmountpoints ≡ 2)
unmount-mount_example =
    unmount-mount no_disk kernel (b'/' ∷ tmp) found_tmp refl removed_tmp [] tmp packed (omega arith)
      (omega arith) (omega arith)
