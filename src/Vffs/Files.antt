-- ===== src/Vffs/Files.antt =====
-- The operations of src/fs/vffs.c that change the directory.

use ras_pi_k.Base.{
  ℕ, ◌+◌, ◌<◌, ◌≡◌, ◌≢◌, ◌⊎◌, refl, true, false, none, some, List, [], ◌∷◌, ◌++◌, arith, length,
  length-append, Bool-cases, inl, inr, ◌==◌, leb, set, pos, failed, length-set,
}
use ras_pi_k.Strings.{CString, text}
use ras_pi_k.Store.{Ptr, null, VFile, Vffs, Store, ok, update}
use ras_pi_k.Store.Blocks.{fresh_block, length-fresh_block}
use ras_pi_k.Vffs.{eof, nbmax_file, new_file, create_vfile}
use ras_pi_k.Vffs.Contents.{Holds}
use ras_pi_k.Vffs.Entries.{
  Entries, find_entry, Avoids, Slots, Slots-move, Slots-append, Slots-frame, Avoids-of_none,
  IsDistinct-append, IsUnique-append,
}
use ras_pi_k.Vffs.Lookup.{Dir, find_vfile_present, find_vfile_absent}

module _ {Hw : Type 0} {s : Store Hw} {v : Ptr} {es : Entries} (d : Dir s v es)
    (name : CString) where
  -- `create_vfile` in a directory that is not full and has no such name, with memory for the file,
  -- where no file stands, and for its first block, adds an empty file that may be read and written,
  -- behind the others.
  pub create_vfile-Dir :
      find_entry (text name) es ≡ none
      → length es < nbmax_file
      → (s.pool 0).address ≢ null
      → s.vfile (s.pool 0).address ≡ none
      → (s.pool 1).address ≢ null
      → (s' : Store Hw) × (create_vfile v name s ≡ ok (pos 0) s')
        × Dir s' v (es ++ ((text name, (s.pool 0).address) ∷ []))
        × Holds s' (s.pool 0).address 0xff []
  unfolding create_vfile
  create_vfile-Dir missing room memory fresh memory' = (
    s',
    rw (d.stored, not_full, find_vfile_absent s v name es d missing, got, got'),
    record {
      fs = fs';
      stored = ground arith;
      count = omega (arith, d.count, length-append es ((text name, p) ∷ []));
      bounded = omega (arith, length-append es ((text name, p) ∷ []));
      slots = slots;
      unused = λ i h. ground (arith, d.unused i, length-append es ((text name, p) ∷ []));
      distinct = IsDistinct-append (text name) p es avoids d.distinct;
      unique = IsUnique-append (text name) p es missing d.unique;
    },
    record {
      file = file;
      block = block;
      stored = ground arith;
      is_file = record {
        holds = refl;
        fits = omega (
          arith,
          length-set (fresh_block 1 (s.pool 1).junk) 0 eof,
          length-fresh_block 1 (s.pool 1).junk,
        );
      };
      is_text = refl;
      is_perm = refl;
      unlocked = refl;
    },
  )
    where
      p : Ptr
      p = (s.pool 0).address

      fs' : Vffs
      fs' = record d.fs { list = update d.fs.list d.fs.nbfiles p; nbfiles = d.fs.nbfiles + 1 }

      block : List ℕ
      block = set (fresh_block 1 (s.pool 1).junk) 0 eof

      file : VFile
      file = record (new_file name) { content = some block }

      s' : Store Hw
      s' = record s {
        pool = λ i. s.pool (i + 1 + 1);
        vfile = update (update s.vfile p (some (new_file name))) p (some file);
        vffs = update s.vffs v (some fs');
      }

      not_full : leb nbmax_file d.fs.nbfiles ≡ false
      not_full = ground (arith, d.count)

      got : (p == null) ≡ false
      got = ground arith

      got' : ((s.pool (0 + 1)).address == null) ≡ false
      got' = ground arith

      avoids : Avoids p es
      avoids = Avoids-of_none s.vfile d.fs.list 0 p es d.slots fresh

      kept : (q : Ptr) → q ≢ p → s'.vfile q ≡ s.vfile q
      kept q ne = ground arith

      slots : Slots s'.vfile fs'.list 0 (es ++ ((text name, p) ∷ []))
      slots =
          Slots-append s'.vfile fs'.list 0 (length es) es ((text name, p) ∷ []) (omega arith)
            (Slots-move s'.vfile d.fs.list fs'.list 0 0 es
              (Slots-frame s.vfile s'.vfile d.fs.list 0 p es d.slots avoids kept)
              (λ k lt. ground (arith, d.count)))
            (
              ground (arith, d.count),
              record { file = file; stored = ground arith; named = refl; ne_null = memory },
              tt,
            )

  -- In a full directory, and where the name is taken, `create_vfile` fails and changes nothing.
  pub create_vfile_refused :
      (p : Ptr)
      → (length es ≡ nbmax_file) ⊎ (find_entry (text name) es ≡ some p)
      → create_vfile v name s ≡ ok failed s
  unfolding create_vfile
  create_vfile_refused p (inl full) =
      let at : leb nbmax_file d.fs.nbfiles ≡ true = ground (arith, d.count) in rw (d.stored, at)
  create_vfile_refused p (inr taken) =
      let (front, back, e, _, _, _, _) = find_vfile_present s v name es p d taken in
      elim (Bool-cases (leb nbmax_file d.fs.nbfiles)) [
        | inl full ↦ rw (d.stored, full)
        | inr room ↦ rw (d.stored, room, e)
      ]
