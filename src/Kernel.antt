-- ===== src/Kernel.antt =====
-- The state of the virtual file system (include/fs/vfs.h): the mount points of `vfsroot`, the
-- `fd_table` of the current process, and the store of the objects of the file systems; and the
-- monad of the code that works on them.
--
-- src/fs/fat32.c stands behind the record `Fat32` of its functions, over a state of its own: it
-- calls the virtual file system, which calls it.
use ras_pi_k.Base.{ℕ, Option, List, ℤ}
use ras_pi_k.Strings.{CString}
use ras_pi_k.Store.{Ptr, Store, Run, M, ok, fault, update}

-- `e_fstype`; any other value of the C type is `unknown`.
pub data FsType : Type 0 where
  devices : FsType
  vfiles : FsType
  fat32 : FsType
  unknown : ℕ → FsType

-- `s_mpoint`
pub record MPoint : Type 0 where
  pub name : CString
  pub type : FsType
  pub fs : Ptr

-- `s_fd`. The address is that of an `s_vfile`, an `s_device` or an `s_fatfile`, after the type.
pub record Fd : Type 0 where
  pub type : FsType
  pub mode : ℕ
  pub addr : Ptr
  pub offset : ℕ

-- `Fat` is the state behind `Fat32`.
pub record Kernel (Hw : Type 0) (Fat : Type 0) : Type 0 where
  pub store : Store Hw
  pub fat : Fat
  pub list : ℕ → MPoint
  pub nbmountpoints : ℕ
  pub fd_table : ℕ → Fd

-- A run ends, goes through a bad pointer, or needs more rounds than a loop is given.
pub data KRun (Hw : Type 0) (Fat : Type 0) (A : Type 0) : Type 0 where
  finished : A → Kernel Hw Fat → KRun Hw Fat A
  crashed : KRun Hw Fat A
  endless : KRun Hw Fat A

abbrev pub K : Type 0 → Type 0 → Type 0 → Type 0
K Hw Fat A = Kernel Hw Fat → KRun Hw Fat A

-- The functions of include/fs/fat32.h that the virtual file system calls, by their names.
-- `file_size` is `file->dir->size`; a read returns its result, the new offset and the buffer.
pub record Fat32 (Hw : Type 0) (Fat : Type 0) : Type 0 where
  pub get_node_fat32 : Ptr → CString → K Hw Fat Ptr
  pub file_size : Ptr → K Hw Fat ℕ
  pub read_fat32file : Ptr → ℕ → ℕ → K Hw Fat (ℤ × ℕ × List ℕ)
  pub readdir_fat32 : Ptr → K Hw Fat (Option (List CString))
  pub create_fat32 : CString → K Hw Fat Ptr
  pub remove_fat32 : Ptr → K Hw Fat (Unit {0})

module _ {Hw Fat : Type 0} where
  abbrev pub return : {A : Type 0} → A → K Hw Fat A
  return a k = finished a k

  abbrev pub continue : {A B : Type 0} → KRun Hw Fat A → (A → K Hw Fat B) → KRun Hw Fat B
  continue (finished a k) next = next a k
  continue crashed next = crashed
  continue endless next = endless

  infixl 5 ◌>>=◌ ◌>>◌
  abbrev pub ◌>>=◌ : {A B : Type 0} → K Hw Fat A → (A → K Hw Fat B) → K Hw Fat B
  ◌>>=◌ m next k = continue (m k) next

  abbrev pub ◌>>◌ : {B : Type 0} → K Hw Fat (Unit {0}) → K Hw Fat B → K Hw Fat B
  m >> next = m >>= λ _. next

  abbrev pub stuck : {A : Type 0} → K Hw Fat A
  stuck k = endless

  abbrev pub trap : {A : Type 0} → K Hw Fat A
  trap k = crashed

  -- the result of a run on the store, in the kernel `k`
  abbrev pub resume : {A : Type 0} → Kernel Hw Fat → Run Hw A → KRun Hw Fat A
  resume k (ok a s) = finished a (record k { store = s })
  resume k fault = crashed

  -- an operation of a file system, on the store
  abbrev pub lift : {A : Type 0} → M Hw A → K Hw Fat A
  lift m k = resume k (m k.store)

  abbrev pub get_kernel : K Hw Fat (Kernel Hw Fat)
  get_kernel k = finished k k

  abbrev pub set_fd : ℕ → Fd → K Hw Fat (Unit {0})
  set_fd i fd k = finished tt (record k { fd_table = update k.fd_table i fd })

  abbrev pub set_mounts : (ℕ → MPoint) → ℕ → K Hw Fat (Unit {0})
  set_mounts list n k = finished tt (record k { list = list; nbmountpoints = n })
