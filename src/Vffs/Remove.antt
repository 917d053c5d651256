-- ===== src/Vffs/Remove.antt =====
-- `remove_vfile` and `chmod_vfile` of src/fs/vffs.c.
use mathlib.Core.Path.{subst}
use ras_pi_k.Base.{
  ℕ, zero, suc, ◌+◌, ◌-◌, ◌≤◌, ◌≡◌, ◌≢◌, sym, ap, ◌∙◌, none, some, ◌∷◌, ◌++◌, arith, length,
  length-append, ltb, leb, ◌&&◌, if◌then◌else◌, pos, failed,
}
use ras_pi_k.Strings.{CString, text}
use ras_pi_k.Store.{Ptr, null, VFile, Vffs, Store, ok, update}
use ras_pi_k.Vffs.{find_vfile, remove_vfile, chmod_vfile, shift_down}
use ras_pi_k.Vffs.Entries.{
  Entries, find_entry, erase_entry, erase_entry_split, Avoids, IsDistinct, IsUnique, IsNamed, Slots,
  Slots-move, Slots-append, Slots-split, Slots-frame, Avoids-append, IsDistinct-erase,
  IsUnique-erase,
}
use ras_pi_k.Vffs.Lookup.{Dir, find_vfile_present, find_vfile_absent}

-- What the shift leaves at each index.
pub shift_down-at :
    (n i : ℕ) (list : ℕ → Ptr) (j : ℕ)
    → shift_down n i list j ≡ (if leb i j && ltb j (i + n) then list (j + 1) else list j)
unfolding shift_down
shift_down-at zero i list j = ground arith
shift_down-at (suc n) i list j =
    ground (arith, shift_down-at n (i + 1) (update list i (list (i + 1))) j)

back_index : (k j : ℕ) → k + j + 1 ≡ suc k + j
back_index k j = omega arith

module _ {Hw : Type 0} {s : Store Hw} {v : Ptr} {es : Entries} (d : Dir s v es)
    (name : CString) where
  -- Removing the entry between `front` and `back`.
  remove_split :
      (p : Ptr) (front back : Entries)
      → find_vfile d.fs.nbfiles 0 d.fs.list name s ≡ ok (some (length front)) s
      → es ≡ front ++ ((text name, p) ∷ back)
      → d.fs.list (length front) ≡ p
      → IsNamed s.vfile p (text name)
      → (s' : Store Hw) × (remove_vfile v name s ≡ ok (pos 0) s')
        × Dir s' v (front ++ back)
        × (s'.vfile p ≡ none)
        × ((q : Ptr) → q ≢ p → s'.vfile q ≡ s.vfile q)
  unfolding remove_vfile
  remove_split p front back e split at named = (
    s',
    rw (d.stored, e, at, named.stored),
    record {
      fs = fs';
      stored = ground arith;
      count = omega (arith, size);
      bounded = omega (arith, size, d.bounded);
      slots = slots;
      unused = λ i h. unused i h;
      distinct = (IsDistinct-erase (text name) p front back (subst IsDistinct split d.distinct)).0;
      unique = (IsUnique-erase (text name) p front back (subst IsUnique split d.unique)).0;
    },
    ground arith,
    kept,
  )
    where
      k : ℕ
      k = length front

      fs' : Vffs
      fs' = record d.fs {
        list = update (shift_down (d.fs.nbfiles - 1 - k) k d.fs.list) (d.fs.nbfiles - 1) null;
        nbfiles = d.fs.nbfiles - 1;
      }

      s' : Store Hw
      s' = record s { vfile = update s.vfile p none; vffs = update s.vffs v (some fs') }

      size :
          (length (front ++ back) ≡ k + length back)
          × (d.fs.nbfiles ≡ k + length back + 1)
          × (length es ≡ d.fs.nbfiles)
      size = (
        length-append front back,
        omega (arith, d.count, ap length split, length-append front ((text name, p) ∷ back)),
        sym d.count,
      )

      at_index :
          (j : ℕ)
          → shift_down (d.fs.nbfiles - 1 - k) k d.fs.list j ≡ (
              if leb k j && ltb j (k + (d.fs.nbfiles - 1 - k))
              then d.fs.list (j + 1)
              else d.fs.list j)
      at_index j = shift_down-at (d.fs.nbfiles - 1 - k) k d.fs.list j

      kept : (q : Ptr) → q ≢ p → s'.vfile q ≡ s.vfile q
      kept q ne = ground arith

      avoids : Avoids p (front ++ back)
      avoids = (IsDistinct-erase (text name) p front back (subst IsDistinct split d.distinct)).1

      slots : Slots s'.vfile fs'.list 0 (front ++ back)
      slots =
          let (f, b) =
            Slots-split s.vfile d.fs.list 0 k front ((text name, p) ∷ back) (omega arith)
              (subst (λ xs. Slots s.vfile d.fs.list 0 xs) split d.slots) in
          let (af, ab) = (Avoids-append p front back).0 avoids in
          Slots-append s'.vfile fs'.list 0 k front back (omega arith)
            (Slots-move s'.vfile d.fs.list fs'.list 0 0 front
              (Slots-frame s.vfile s'.vfile d.fs.list 0 p front f af kept)
              (λ j lt. ground (arith, size, at_index (0 + j))))
            (Slots-move s'.vfile d.fs.list fs'.list (suc k) k back
              (Slots-frame s.vfile s'.vfile d.fs.list (suc k) p back b.2 ab kept)
              (λ j lt. ground (arith, size, at_index (k + j), back_index k j)))

      unused : (i : ℕ) → length (front ++ back) ≤ i → fs'.list i ≡ null
      unused i h = ground (arith, size, at_index i, d.unused i, d.unused (i + 1))

  -- `remove_vfile` of a name of the directory takes its entry out, keeps the order of the others,
  -- and frees its file and no other; then the name is gone.
  pub remove_vfile-erase_entry :
      (p : Ptr)
      → find_entry (text name) es ≡ some p
      → (s' : Store Hw) × (remove_vfile v name s ≡ ok (pos 0) s')
        × Dir s' v (erase_entry (text name) es)
        × (find_entry (text name) (erase_entry (text name) es) ≡ none)
        × (s'.vfile p ≡ none)
        × ((q : Ptr) → q ≢ p → s'.vfile q ≡ s.vfile q)
  remove_vfile-erase_entry p found =
      let (front, back, e, split, first, at, named) = find_vfile_present s v name es p d found in
      let (s', run, dir, freed, kept) = remove_split p front back e split at named in
      let left : erase_entry (text name) es ≡ front ++ back =
        ap (erase_entry (text name)) split ∙ erase_entry_split (text name) front p back first in
      (
        s',
        run,
        subst (λ xs. Dir s' v xs) (sym left) dir,
        ap (find_entry (text name)) left
            ∙ (IsUnique-erase (text name) p front back (subst IsUnique split d.unique)).1,
        freed,
        kept,
      )

  -- For a name that is not there `remove_vfile` and `chmod_vfile` fail and change nothing.
  pub remove_vfile_missing :
      (perm : ℕ)
      → find_entry (text name) es ≡ none
      → (remove_vfile v name s ≡ ok failed s) × (chmod_vfile v name perm s ≡ ok failed s)
  unfolding remove_vfile chmod_vfile
  remove_vfile_missing perm missing =
      let e = find_vfile_absent s v name es d missing in (rw (d.stored, e), rw (d.stored, e))

  -- `chmod_vfile` sets the permissions of the file of that name, and changes nothing else.
  pub chmod_vfile-update :
      (perm : ℕ) (p : Ptr)
      → find_entry (text name) es ≡ some p
      → (f : VFile) × (s.vfile p ≡ some f)
        × (chmod_vfile v name perm s
            ≡ ok (pos 0) (record s { vfile = update s.vfile p (some (record f { perm = perm })) }))
  unfolding chmod_vfile
  chmod_vfile-update perm p found =
      let (front, back, e, split, first, at, named) = find_vfile_present s v name es p d found in
      (named.file, named.stored, rw (d.stored, e, at, named.stored))
