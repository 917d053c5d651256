-- ===== src/Mounts.antt =====
-- The mount points and the operations on paths: `mount`, `unmount`, `readdir`, `remove`, `chmod`,
-- `insmod`, `print_vfs` and `init_vfs` of src/fs/vfs.c.
pub mod Table
pub mod Insmod
pub mod Stale
mod Tests
use ras_pi_k.Base.{
  ℕ, zero, suc, ◌+◌, ◌-◌, Bool, true, false, not, Option, none, some, List, [], ◌∷◌, ◌++◌, ℤ, pos,
  failed, is_neg, ◌==◌, ltb, leb, ◌||◌, if◌then◌else◌,
}
use ras_pi_k.Strings.{CString, strcmp}
use ras_pi_k.Store.{Ptr, null, M, update, kmalloc}
use ras_pi_k.Vffs.{create_vffs, remove_vffs, remove_vfile, chmod_vfile, readdir_vffs}
use ras_pi_k.Devfs.{
  create_devfs, remove_devfs, remove_device, chmod_device, readdir_devfs, add_device,
}
use ras_pi_k.Kernel.{
  FsType, devices, vfiles, fat32, unknown, MPoint, Kernel, KRun, K, Fat32, finished, crashed,
  return, ◌>>=◌, ◌>>◌, trap, lift, get_kernel, set_mounts,
}
use ras_pi_k.Paths.{skip_slash, parse_path}

abbrev pub nbmax_mountingpoint : ℕ
nbmax_mountingpoint = 4096

-- The first index of a mount point without a file system, from index `i` on with `n` left.
unfoldable pub free_mpoint : ℕ → ℕ → (ℕ → MPoint) → Option ℕ
free_mpoint zero i list = none
free_mpoint (suc n) i list =
    let rest = free_mpoint n (i + 1) list in if (list i).fs == null then some i else rest

-- The first index of a mount point of a name, from index `i` on with `n` left.
unfoldable pub find_mpoint : ℕ → ℕ → (ℕ → MPoint) → CString → Option ℕ
find_mpoint zero i list name = none
find_mpoint (suc n) i list name =
    let rest = find_mpoint n (i + 1) list name in
    if strcmp (list i).name name == 0 then some i else rest

-- `for (int j = i; j < vfsroot.nbmountpoints; j++) list[j] = list[j + 1];`, with `n` rounds left
unfoldable pub shift_mounts : ℕ → ℕ → (ℕ → MPoint) → ℕ → MPoint
shift_mounts zero j list = list
shift_mounts (suc n) j list = shift_mounts n (j + 1) (update list j (list (j + 1)))

-- the names of `n` mount points from index `i` on
unfoldable pub mount_names : ℕ → ℕ → (ℕ → MPoint) → List CString
mount_names zero i list = []
mount_names (suc n) i list = (list i).name ∷ mount_names n (i + 1) list

module _ {Hw Fat : Type 0} where
  -- the entry of a new file system at a free index
  pub enter : Option ℕ → FsType → K Hw Fat Ptr → CString → K Hw Fat ℤ
  enter none type create path = return failed
  enter (some i) type create path = do
    fs ← create
    if fs == null then return failed else do
      k ← get_kernel
      set_mounts (update k.list i (record { name = skip_slash path; type = type; fs = fs }))
          (k.nbmountpoints + 1)
      return (pos i)

  -- `add_vffs`, `add_devfs` and `add_fat32`, which differ in the type and in what creates the file
  -- system
  pub add_fs : FsType → K Hw Fat Ptr → CString → K Hw Fat ℤ
  unfolding enter
  add_fs type create path = do
    k ← get_kernel
    enter (free_mpoint nbmax_mountingpoint 0 k.list) type create path

  pub remove : CString → K Hw Fat ℤ
  unfolding find_mpoint
  remove path = do
    parsed ← lift (parse_path path)
    elim parsed [
      | none ↦ return failed
      | some (dir, file) ↦ do
        k ← get_kernel
        elim (find_mpoint k.nbmountpoints 0 k.list dir) [
          | none ↦ return failed
          | some i ↦ elim (k.list i).type [
            | vfiles ↦ lift (remove_vfile (k.list i).fs file)
            | devices ↦ lift (remove_device (k.list i).fs file)
            | fat32 ↦ return failed
            | unknown t ↦ return failed
          ]
        ]
    ]

  pub chmod : CString → ℕ → K Hw Fat ℤ
  unfolding find_mpoint
  chmod path mode = do
    parsed ← lift (parse_path path)
    elim parsed [
      | none ↦ return failed
      | some (dir, file) ↦ do
        k ← get_kernel
        elim (find_mpoint k.nbmountpoints 0 k.list dir) [
          | none ↦ return failed
          | some i ↦ elim (k.list i).type [
            | vfiles ↦ lift (chmod_vfile (k.list i).fs file mode)
            | devices ↦ lift (chmod_device (k.list i).fs file mode)
            | fat32 ↦ return failed
            | unknown t ↦ return failed
          ]
        ]
    ]

  -- the part of `insmod` for the mount point of an index
  pub insmod_at : Option ℕ → CString → ℕ → Ptr → K Hw Fat ℤ
  insmod_at none file addr driver = return failed
  insmod_at (some i) file addr driver = do
    k ← get_kernel
    elim (k.list i).type [
      | vfiles ↦ return failed
      | devices ↦ lift (add_device (k.list i).fs file addr driver)
      | fat32 ↦ return failed
      | unknown t ↦ return failed
    ]

  pub insmod : CString → ℕ → Ptr → K Hw Fat ℤ
  unfolding insmod_at
  insmod path addr driver = do
    parsed ← lift (parse_path path)
    elim parsed [
      | none ↦ return failed
      | some (dir, file) ↦ do
        k ← get_kernel
        insmod_at (find_mpoint k.nbmountpoints 0 k.list dir) file addr driver
    ]

module _ {Hw Fat : Type 0} (f : Fat32 Hw Fat) where
  pub mount : CString → CString → FsType → K Hw Fat ℤ
  unfolding add_fs
  mount devpath mountpath vfiles = add_fs vfiles (lift create_vffs) mountpath
  mount devpath mountpath devices = add_fs devices (lift create_devfs) mountpath
  mount devpath mountpath fat32 = add_fs fat32 (f.create_fat32 devpath) mountpath
  mount devpath mountpath (unknown t) = return failed

  -- the removal of the file system of a mount point
  pub remove_fs : MPoint → Option (K Hw Fat (Unit {0}))
  remove_fs m = elim m.type [
    | vfiles ↦ some (lift (remove_vffs m.fs))
    | devices ↦ some (lift (remove_devfs m.fs))
    | fat32 ↦ some (f.remove_fat32 m.fs)
    | unknown t ↦ none
  ]

  -- the removal of the mount point of an index, with that of its file system
  pub unmount_with : ℕ → Option (K Hw Fat (Unit {0})) → K Hw Fat ℤ
  unfolding shift_mounts
  unmount_with i none = return failed
  unmount_with i (some free_fs) = do
    free_fs
    k ← get_kernel
    set_mounts
        (shift_mounts (k.nbmountpoints - 1 - i) i
          (update k.list i (record (k.list i) { fs = null })))
        (k.nbmountpoints - 1)
    return (pos 0)

  pub unmount_at : Option ℕ → K Hw Fat ℤ
  unfolding unmount_with remove_fs
  unmount_at none = return failed
  unmount_at (some i) = do k ← get_kernel; unmount_with i (remove_fs (k.list i))

  pub unmount : CString → K Hw Fat ℤ
  unfolding find_mpoint unmount_at
  unmount path = do
    k ← get_kernel
    unmount_at (find_mpoint k.nbmountpoints 0 k.list (skip_slash path))

  -- the loop of `readdir` from index `i` on with `n` left: a mount point of no known type is passed
  pub readdir_from : ℕ → ℕ → CString → K Hw Fat (Option (List CString))
  readdir_from zero i name = return none
  readdir_from (suc n) i name = do
    k ← get_kernel
    if not (strcmp name (k.list i).name == 0)
        then readdir_from n (i + 1) name
        else elim (k.list i).type [
          | vfiles ↦ lift (readdir_vffs (k.list i).fs)
          | devices ↦ lift (readdir_devfs (k.list i).fs)
          | fat32 ↦ f.readdir_fat32 (k.list i).fs
          | unknown t ↦ readdir_from n (i + 1) name
        ]

  -- The list of the mount points is written without a test of what `kmalloc` returns.
  pub readdir : CString → K Hw Fat (Option (List CString))
  unfolding readdir_from mount_names
  readdir path =
      if (strcmp path [] == 0) || (strcmp path (b'/' ∷ []) == 0)
      then (do
        a ← lift kmalloc
        k ← get_kernel
        if a.address == null then trap else return (some (mount_names k.nbmountpoints 0 k.list)))
      else (do k ← get_kernel; readdir_from k.nbmountpoints 0 (skip_slash path))

  -- whether both file systems are there
  pub init_vfs : K Hw Fat Bool
  unfolding mount
  init_vfs = do
    k ← get_kernel
    set_mounts k.list 0
    tmp ← mount [] (b't' ∷ b'm' ∷ b'p' ∷ []) vfiles
    if is_neg tmp
        then return false
        else do dev ← mount [] (b'd' ∷ b'e' ∷ b'v' ∷ []) devices; return (not (is_neg dev))
