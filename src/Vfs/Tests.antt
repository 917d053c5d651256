-- ===== src/Vfs/Tests.antt =====
-- A kernel with a file in memory and a FAT32 file, and the theorems about the file descriptors of
-- src/fs/vfs.c at it.
use mathlib.Core.List
use mathlib.Core.Option
use ras_pi_k.Base.{
  ℕ, ◌+◌, ◌≡◌, ◌≢◌, refl, ap, ◌∙◌, none, some, [], ◌∷◌, ◌++◌, arith, ◌==◌, if◌then◌else◌, pos,
}
use ras_pi_k.Strings.{CString, strcmp, strlen, text}
use ras_pi_k.Store.{Ptr, null, VFile, Vffs, Store, ok, update}
use ras_pi_k.Vffs.{get_node_vffs}
use ras_pi_k.Vffs.Bytes.{HasNoEof}
use ras_pi_k.Vffs.Entries.{Entries, find_entry_self}
use ras_pi_k.Vffs.Lookup.{Dir, get_node_vffs-find_entry}
use ras_pi_k.Vffs.Contents.{Holds}
use ras_pi_k.Kernel.{vfiles, fat32, Fd, Kernel, Fat32, finished, return}
use ras_pi_k.Paths.{slash, skip_slash, parse_path}
use ras_pi_k.Vfs.{
  Node, fd_of, o_rdwr, o_rdonly, getnode, getnode_from, getnode_fat32, getnode_vffs, open_file,
}
use ras_pi_k.Vfs.Fds.{IsLowest, open_file-lowest}
use ras_pi_k.Vfs.Rounds.{write_seek_read, file_fd, write_seek_read_lem}
use ras_pi_k.Vfs.Truncate.{getnode_vffs-truncates}

abbrev log : CString
log = b'l' ∷ b'o' ∷ b'g' ∷ []

abbrev sd : CString
sd = b's' ∷ b'd' ∷ []

-- 3 bytes of text, in a block of 8
abbrev file : VFile
file = record {
  name = log;
  size = 3;
  content = some (1 ∷ 2 ∷ 3 ∷ 0xff ∷ 0 ∷ 0 ∷ 0 ∷ 0 ∷ []);
  perm = 0xff;
  lock = 0;
}

abbrev root : Vffs
root = record { list = λ i. if i == 0 then 8 else null; nbfiles = 1 }

abbrev store : Store (Unit {0})
store = record {
  hw = tt;
  pool = λ i. record { address = 64 + i; junk = λ _. 7 };
  vfile = λ p. if p == 8 then some file else none;
  vffs = λ p. if p == 16 then some root else none;
  device = λ _. none;
  devfs = λ _. none;
  driver = λ _. none;
}

-- a disk with one file of 3 bytes, at the address 40
abbrev disk : Fat32 (Unit {0}) (Unit {0})
disk = record {
  get_node_fat32 = λ fs name. return 40;
  file_size = λ p. return 3;
  read_fat32file = λ p offset len. return (pos 0, offset, []);
  readdir_fat32 = λ fs. return none;
  create_fat32 = λ path. return 48;
  remove_fat32 = λ fs. return tt;
}

abbrev closed : Fd
closed = record { type = vfiles; mode = 0; addr = null; offset = 0 }

-- The disk is mounted at `sd`, and the file descriptor 0 is open on the file in memory.
abbrev kernel : Kernel (Unit {0}) (Unit {0})
kernel = record {
  store = store;
  fat = tt;
  list = λ i. record { name = sd; type = fat32; fs = 48 };
  nbmountpoints = 1;
  fd_table = λ i. if i == 0 then file_fd 8 o_rdwr 2 else closed;
}

abbrev entries : Entries
entries = (log, 8) ∷ []

dir : Dir store 16 entries
unfolding text List.lookup
dir = record {
  fs = root;
  stored = refl;
  count = refl;
  bounded = omega arith;
  slots = (refl, record { file = file; stored = refl; named = refl; ne_null = omega arith }, tt);
  unused = λ i h. ground arith;
  distinct = (tt, tt);
  unique = (refl, tt);
}

holds : Holds store 8 0xff (1 ∷ 2 ∷ 3 ∷ [])
holds = record {
  file = file;
  block = 1 ∷ 2 ∷ 3 ∷ 0xff ∷ 0 ∷ 0 ∷ 0 ∷ 0 ∷ [];
  stored = refl;
  is_file = record { holds = refl; fits = omega arith };
  is_text = refl;
  is_perm = refl;
  unlocked = refl;
}

abbrev opened : Node
opened = record { node = 40; type = fat32; offset = 0 }

abbrev after : Kernel (Unit {0}) (Unit {0})
after = record kernel {
  store = record store { pool = λ i. record { address = 64 + (i + 1 + 1 + 1); junk = λ _. 7 } };
}

found : getnode disk (slash ∷ sd ++ slash ∷ log) o_rdonly kernel ≡ finished (some opened) after
unfolding getnode getnode_from getnode_fat32 parse_path skip_slash strcmp strlen text
found = refl

lowest : IsLowest after.fd_table 1
lowest = record { inside = omega arith; free = refl; below = λ j h. ground arith }

open_file-lowest_example :
    open_file disk (slash ∷ sd ++ slash ∷ log) o_rdonly kernel
    ≡ finished (pos 1) (record after { fd_table = update after.fd_table 1 (fd_of opened o_rdonly) })
open_file-lowest_example =
    open_file-lowest disk kernel (slash ∷ sd ++ slash ∷ log) o_rdonly found 1 lowest

plain : HasNoEof (4 ∷ 5 ∷ [])
plain = ground arith

write_seek_read_lem_example :
    (k' : Kernel (Unit {0}) (Unit {0})) × (write_seek_read disk (pos 0) (4 ∷ 5 ∷ []) 2 kernel
      ≡ finished (pos 2, pos 2, pos 2, 4 ∷ 5 ∷ 0 ∷ []) k')
    × (k'.fd_table 0 ≡ file_fd 8 o_rdwr 4)
    × ((j : ℕ) → j ≢ 0 → k'.fd_table j ≡ kernel.fd_table j)
write_seek_read_lem_example =
    write_seek_read_lem disk kernel 0 (4 ∷ 5 ∷ []) (omega arith) refl (omega arith) refl holds refl
      refl (omega arith) (omega arith) (omega arith) plain

log_found : get_node_vffs 16 log store ≡ ok 8 store
unfolding text
log_found =
    get_node_vffs-find_entry store 16 log entries dir
    ∙ ap (λ e. ok (Option.get_or e null) store) (find_entry_self log 8 [])

getnode_vffs-truncates_example :
    (k' : Kernel (Unit {0}) (Unit {0})) × (getnode_vffs 16 log o_rdonly kernel
      ≡ finished (some (record { node = 8; type = vfiles; offset = 0 })) k')
    × Holds k'.store 8 0xff []
    × ((q : Ptr) → q ≢ 8 → k'.store.vfile q ≡ kernel.store.vfile q)
getnode_vffs-truncates_example =
    getnode_vffs-truncates kernel o_rdonly 16 log log_found (omega arith) holds refl refl
      (omega arith)
