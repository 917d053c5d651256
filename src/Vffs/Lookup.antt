-- ===== src/Vffs/Lookup.antt =====
-- What the loops over the array of src/fs/vffs.c find, in terms of the directory.
use mathlib.Core.List
use mathlib.Core.Option
use mathlib.Core.Path.{subst, ap₂}
use ras_pi_k.Base.{
  ℕ, suc, ◌+◌, ◌≤◌, ◌≡◌, ◌≢◌, refl, sym, ap, ◌∙◌, Option, true, false, none, some, List, [], ◌∷◌,
  ◌++◌, arith, length, Bool-cases, inl, inr, ◌==◌, ==_iff, map,
}
use ras_pi_k.Strings.{CString, text, strcmp}
use ras_pi_k.Strings.Compare.{strcmp-eq-zero_iff}
use ras_pi_k.Store.{Ptr, null, VFile, Vffs, Store, ok}
use ras_pi_k.Vffs.{nbmax_file, find_vfile, names_from, readdir_vffs, get_node_vffs}
use ras_pi_k.Vffs.Entries.{
  Entries, find_entry, find_entry_ne, find_entry_self, find_entry-append, find_entry_split,
  some_ne_none, IsDistinct, IsUnique, IsNamed, Slots, Slots-split,
}

-- The `s_vffs` at `v` holds the files of the directory, in their order.
pub record Dir {Hw : Type 0} (s : Store Hw) (v : Ptr) (es : Entries) : Type 0 where
  pub fs : Vffs
  pub stored : s.vffs v ≡ some fs
  pub count : fs.nbfiles ≡ length es
  pub bounded : length es ≤ nbmax_file
  pub slots : Slots s.vfile fs.list 0 es
  pub unused : (i : ℕ) → length es ≤ i → fs.list i ≡ null
  pub distinct : IsDistinct es
  pub unique : IsUnique es

-- What the loop that starts at index `i` returns, given the entries from there on: no index if
-- there is no such name, and else the index of the first entry of that name.
abbrev pub Found : CString → ℕ → Entries → Option ℕ → Type 0
Found name i es none = find_entry name es ≡ none
Found name i es (some k) =
    (front : Entries) × (p : Ptr) × (back : Entries) × (k ≡ i + length front)
    × (es ≡ front ++ ((name, p) ∷ back))
    × (find_entry name front ≡ none)

same_name :
    (f : VFile) (n name : CString)
    → text f.name ≡ n
    → (strcmp f.name name == 0) ≡ true
    → n ≡ text name
same_name f n name e h = sym e ∙ (strcmp-eq-zero_iff f.name name).0 ((==_iff _ 0).0 h)

other_name :
    (f : VFile) (n name : CString)
    → text f.name ≡ n
    → (strcmp f.name name == 0) ≡ false
    → n ≢ text name
other_name f n name e h same = ground (arith, (strcmp-eq-zero_iff f.name name).1 (e ∙ same))

Found-skip :
    (name n : CString) (p : Ptr) (i : ℕ) (es : Entries) (o : Option ℕ)
    → n ≢ name
    → Found name (suc i) es o
    → Found name i ((n, p) ∷ es) o
Found-skip name n p i es none ne h = find_entry_ne name n p es ne ∙ h
Found-skip name n p i es (some k) ne (front, q, back, e, split, h) = (
  (n, p) ∷ front,
  q,
  back,
  omega arith,
  ap (◌∷◌ (n, p)) split,
  find_entry_ne name n p front ne ∙ h,
)

module _ {Hw : Type 0} (s : Store Hw) where
  -- The loop reads the files, and changes nothing.
  pub find_vfile-Found :
      (list : ℕ → Ptr) (name : CString) (i : ℕ) (es : Entries)
      → Slots s.vfile list i es
      → (o : Option ℕ) × (find_vfile (length es) i list name s ≡ ok o s) × Found (text name) i es o
  unfolding find_vfile
  find_vfile-Found list name i [] h = (none, refl, unfold List.lookup in refl)
  find_vfile-Found list name i ((n, p) ∷ es) h =
      elim (Bool-cases (strcmp h.1.file.name name == 0)) [
        | inl same ↦ (
          some i,
          rw (h.0, h.1.stored, same),
          (
            [],
            p,
            es,
            omega arith,
            ap (λ m. (m, p) ∷ es) (same_name h.1.file n name h.1.named same),
            unfold List.lookup in refl,
          ),
        )
        | inr other ↦
            let (o, e, f) = find_vfile-Found list name (suc i) es h.2 in
            let next : i + 1 ≡ suc i = omega arith in
            (
              o,
              rw (h.0, h.1.stored, other, next, e),
              Found-skip (text name) n p i es o (other_name h.1.file n name h.1.named other) f,
            )
      ]

  -- The array at the index found holds the entry's file.
  pub Slots-at :
      (list : ℕ → Ptr) (i k : ℕ) (front : Entries) (n : CString) (p : Ptr) (back : Entries)
      → Slots s.vfile list i (front ++ ((n, p) ∷ back))
      → k ≡ i + length front
      → (list k ≡ p) × IsNamed s.vfile p n
  Slots-at list i k front n p back h e =
      let (_, at) = Slots-split s.vfile list i k front ((n, p) ∷ back) e h in (at.0, at.1)

  -- The index that the loop finds for a name of the directory, and the entry there.
  pub find_vfile_present :
      (v : Ptr) (name : CString) (es : Entries) (p : Ptr) (d : Dir s v es)
      → find_entry (text name) es ≡ some p
      → (front : Entries) × (back : Entries) × (find_vfile d.fs.nbfiles 0 d.fs.list name s
          ≡ ok (some (length front)) s)
        × (es ≡ front ++ ((text name, p) ∷ back))
        × (find_entry (text name) front ≡ none)
        × (d.fs.list (length front) ≡ p)
        × IsNamed s.vfile p (text name)
  find_vfile_present v name es p d found =
      let (o, e, f) = find_vfile-Found d.fs.list name 0 es d.slots in go o e f
    where
      Result : Type 0
      Result =
          (front : Entries) × (back : Entries) × (find_vfile d.fs.nbfiles 0 d.fs.list name s
            ≡ ok (some (length front)) s)
          × (es ≡ front ++ ((text name, p) ∷ back))
          × (find_entry (text name) front ≡ none)
          × (d.fs.list (length front) ≡ p)
          × IsNamed s.vfile p (text name)

      go :
          (o : Option ℕ)
          → find_vfile (length es) 0 d.fs.list name s ≡ ok o s
          → Found (text name) 0 es o
          → Result
      go none e f = absurd (some_ne_none p (sym found ∙ f))
      go (some k) e (front, q, back, at, split, h) =
          let both : ◌≡◌ {A = Option Ptr} (some q) (some p) =
            sym (ap (find_entry (text name)) split ∙ find_entry_split (text name) front q back h)
            ∙ found in
          let here : q ≡ p = cc in
          let index : k ≡ length front = omega arith in
          let slots = subst (λ xs. Slots s.vfile d.fs.list 0 xs) split d.slots in
          let (held, named) =
            Slots-at d.fs.list 0 (length front) front (text name) q back slots (omega arith) in
          (
            front,
            back,
            rw d.count (e ∙ ap (λ j. ok (some j) s) index),
            split ∙ ap (λ r. front ++ ((text name, r) ∷ back)) here,
            h,
            held ∙ here,
            subst (λ r. IsNamed s.vfile r (text name)) here named,
          )

  pub find_vfile_absent :
      (v : Ptr) (name : CString) (es : Entries) (d : Dir s v es)
      → find_entry (text name) es ≡ none
      → find_vfile d.fs.nbfiles 0 d.fs.list name s ≡ ok none s
  find_vfile_absent v name es d missing =
      let (o, e, f) = find_vfile-Found d.fs.list name 0 es d.slots in go o e f
    where
      go :
          (o : Option ℕ)
          → find_vfile (length es) 0 d.fs.list name s ≡ ok o s
          → Found (text name) 0 es o
          → find_vfile d.fs.nbfiles 0 d.fs.list name s ≡ ok none s
      go none e f = rw d.count e
      go (some k) e (front, q, back, at, split, h) = absurd (
          some_ne_none q (
            sym (ap (find_entry (text name)) split ∙ find_entry_split (text name) front q back h)
            ∙ missing))

  -- `get_node_vffs` returns the file that the directory has under the name, or else `NULL`.
  pub get_node_vffs-find_entry :
      (v : Ptr) (name : CString) (es : Entries)
      → Dir s v es
      → get_node_vffs v name s ≡ ok (Option.get_or (find_entry (text name) es) null) s
  unfolding get_node_vffs
  get_node_vffs-find_entry v name es d =
      let (o, e, f) = find_vfile-Found d.fs.list name 0 es d.slots in
      rw (d.stored, d.count, e) (ap (λ p. ok p s) (node o f))
    where
      node :
          (o : Option ℕ)
          → Found (text name) 0 es o
          → (elim o [ none ↦ null | some i ↦ d.fs.list i ])
            ≡ Option.get_or (find_entry (text name) es) null
      node none f = rw f
      node (some k) (front, p, back, at, split, h) =
          let slots = subst (λ xs. Slots s.vfile d.fs.list 0 xs) split d.slots in
          let found : find_entry (text name) es ≡ some p =
            ap (find_entry (text name)) split
            ∙ find_entry-append (text name) front ((text name, p) ∷ back) h
            ∙ find_entry_self (text name) p back in
          rw found (Slots-at d.fs.list 0 k front (text name) p back slots at).0

  names_from-names :
      (list : ℕ → Ptr) (i : ℕ) (es : Entries)
      → Slots s.vfile list i es
      → (names : List CString) × (names_from (length es) i list s ≡ ok names s)
        × (map text names ≡ map (λ e. e.0) es)
  unfolding names_from
  names_from-names list i [] h = ([], refl, refl)
  names_from-names list i ((n, p) ∷ es) h =
      let (names, e, same) = names_from-names list (suc i) es h.2 in
      let next : i + 1 ≡ suc i = omega arith in
      (h.1.file.name ∷ names, rw (h.0, h.1.stored, next, e), ap₂ ◌∷◌ h.1.named same)

module _ {Hw : Type 0} (s : Store Hw) where
  -- `readdir_vffs` returns the names of the directory, in its order; only memory may be used up.
  pub readdir_vffs-names :
      (v : Ptr) (es : Entries)
      → Dir s v es
      → (s.pool 0).address ≢ null
      → (names : List CString) × (readdir_vffs v s
          ≡ ok (some names) (record s { pool = λ i. s.pool (i + 1) }))
        × (map text names ≡ map (λ e. e.0) es)
  unfolding readdir_vffs
  readdir_vffs-names v es d memory =
      let s' : Store Hw = record s { pool = λ i. s.pool (i + 1) } in
      let (names, e, same) = names_from-names s' d.fs.list 0 es d.slots in
      let got : ((s.pool 0).address == null) ≡ false = ground arith in
      (names, rw (d.stored, got, d.count, e), same)
