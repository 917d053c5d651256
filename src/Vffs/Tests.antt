-- ===== src/Vffs/Tests.antt =====
-- A file system with one file, and the theorems about src/fs/vffs.c at it.
use mathlib.Core.List
use ras_pi_k.Base.{◌+◌, ◌≡◌, ◌≢◌, refl, none, some, [], ◌∷◌, arith, ◌==◌, if◌then◌else◌, pos}
use ras_pi_k.Strings.{CString, text}
use ras_pi_k.Store.{Ptr, null, VFile, Vffs, Store, ok, fault}
use ras_pi_k.Vffs.{create_vfile, remove_vfile, read_vfile, write_vfile}
use ras_pi_k.Vffs.Bytes.{until_eof}
use ras_pi_k.Vffs.Contents.{Holds, SameButFile, read_vfile-until_eof, write_vfile-Holds}
use ras_pi_k.Vffs.Exhausted.{write_vfile_exhausted}
use ras_pi_k.Vffs.Entries.{Entries, find_entry, find_entry_self, find_entry_ne, erase_entry}
use ras_pi_k.Vffs.Lookup.{Dir}
use ras_pi_k.Vffs.Files.{create_vfile-Dir}
use ras_pi_k.Vffs.Remove.{remove_vfile-erase_entry}

abbrev log : CString
log = b'l' ∷ b'o' ∷ b'g' ∷ []

abbrev note : CString
note = b'n' ∷ b'o' ∷ b't' ∷ b'e' ∷ []

-- 3 bytes of text, in a block of 8
abbrev file : VFile
file = record {
  name = log;
  size = 3;
  content = some (1 ∷ 2 ∷ 3 ∷ 0xff ∷ 0 ∷ 0 ∷ 0 ∷ 0 ∷ []);
  perm = 0xff;
  lock = 0;
}

abbrev root : Vffs
root = record { list = λ i. if i == 0 then 8 else null; nbfiles = 1 }

abbrev store : Store (Unit {0})
store = record {
  hw = tt;
  pool = λ i. record { address = 64 + i; junk = λ _. 7 };
  vfile = λ p. if p == 8 then some file else none;
  vffs = λ p. if p == 16 then some root else none;
  device = λ _. none;
  devfs = λ _. none;
  driver = λ _. none;
}

abbrev entries : Entries
entries = (log, 8) ∷ []

dir : Dir store 16 entries
unfolding text List.lookup
dir = record {
  fs = root;
  stored = refl;
  count = refl;
  bounded = omega arith;
  slots = (refl, record { file = file; stored = refl; named = refl; ne_null = omega arith }, tt);
  unused = λ i h. ground arith;
  distinct = (tt, tt);
  unique = (refl, tt);
}

holds : Holds store 8 0xff (1 ∷ 2 ∷ 3 ∷ [])
holds = record {
  file = file;
  block = 1 ∷ 2 ∷ 3 ∷ 0xff ∷ 0 ∷ 0 ∷ 0 ∷ 0 ∷ [];
  stored = refl;
  is_file = record { holds = refl; fits = omega arith };
  is_text = refl;
  is_perm = refl;
  unlocked = refl;
}

log_found : find_entry (text log) entries ≡ some 8
unfolding text
log_found = find_entry_self log 8 []

note_missing : find_entry (text note) entries ≡ none
unfolding text List.lookup
note_missing = find_entry_ne note log 8 [] (ground arith)

-- the next answer of `kmalloc`
abbrev first : Ptr
first = 64

read_vfile-until_eof_example : read_vfile 8 1 5 store ≡ ok (pos 2, 3, 2 ∷ 3 ∷ 0 ∷ []) store
unfolding until_eof
read_vfile-until_eof_example = read_vfile-until_eof 1 5 holds refl

write_vfile-Holds_example :
    (s' : Store (Unit {0})) × (write_vfile 8 2 (4 ∷ 5 ∷ []) store ≡ ok (pos 2, 4) s')
    × Holds s' 8 0xff (1 ∷ 2 ∷ 4 ∷ 5 ∷ [])
    × SameButFile 8 store s'
write_vfile-Holds_example =
    write_vfile-Holds 2 (4 ∷ 5 ∷ []) holds refl (omega arith) (omega arith) (omega arith)

abbrev read_only : Store (Unit {0})
read_only = record store {
  vfile = λ p. if p == 8 then some (record file { perm = 0x0f }) else none;
}

-- the file in a store without memory
abbrev exhausted : Store (Unit {0})
exhausted = record store { pool = λ i. record { address = null; junk = λ _. 7 } }

abbrev exhausted-Holds : Holds exhausted 8 0xff (1 ∷ 2 ∷ 3 ∷ [])
exhausted-Holds = record {
  file = file;
  block = 1 ∷ 2 ∷ 3 ∷ 0xff ∷ 0 ∷ 0 ∷ 0 ∷ 0 ∷ [];
  stored = refl;
  is_file = record { holds = refl; fits = omega arith };
  is_text = refl;
  is_perm = refl;
  unlocked = refl;
}

write_vfile_exhausted_example : write_vfile 8 3 (4 ∷ 5 ∷ []) exhausted ≡ fault
write_vfile_exhausted_example =
    write_vfile_exhausted 3 (4 ∷ 5 ∷ []) exhausted-Holds refl (omega arith) (omega arith)
      (omega arith) refl

create_vfile-Dir_example :
    (s' : Store (Unit {0})) × (create_vfile 16 note store ≡ ok (pos 0) s')
    × Dir s' 16 ((log, 8) ∷ ((text note, first) ∷ []))
    × Holds s' first 0xff []
create_vfile-Dir_example =
    create_vfile-Dir dir note note_missing (omega arith) (omega arith) refl (omega arith)

remove_vfile-erase_entry_example :
    (s' : Store (Unit {0})) × (remove_vfile 16 log store ≡ ok (pos 0) s')
    × Dir s' 16 (erase_entry (text log) entries)
    × (find_entry (text log) (erase_entry (text log) entries) ≡ none)
    × (s'.vfile 8 ≡ none)
    × ((q : Ptr) → q ≢ 8 → s'.vfile q ≡ store.vfile q)
remove_vfile-erase_entry_example = remove_vfile-erase_entry dir log 8 log_found
