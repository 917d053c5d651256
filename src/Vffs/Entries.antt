-- ===== src/Vffs/Entries.antt =====
-- The directory that the array of a file system stands for: the names and files in their order.
use mathlib.Core.List
use mathlib.Core.Logic.{if_pos, if_neg, ite}
use ras_pi_k.Base.{
  ℕ, suc, ◌+◌, ◌<◌, ◌≡◌, ◌≢◌, refl, sym, ap, ◌∙◌, Option, none, some, List, [], ◌∷◌, ◌++◌, arith,
  length, ◌↔◌,
}
use mathlib.Core.Path.{subst, subst₂}
use native.Mathlib.Nat.{add-zero, suc-add, add-suc}
use native.Mathlib.Decide.{ℕ_discrete}
use ras_pi_k.Strings.{CString, text}
use ras_pi_k.Store.{Ptr, null, VFile}

pub some_ne_none : (p : Ptr) → some p ≢ none
some_ne_none p e = cc

pub CString-discrete : Discrete CString
CString-discrete = hlevel ℕ_discrete

abbrev pub Entries : Type 0
Entries = List (CString × Ptr)

-- the file of a name: the first entry with it
abbrev pub find_entry : CString → Entries → Option Ptr
find_entry name es = List.lookup CString-discrete name es

pub find_entry_ne :
    (name n : CString) (p : Ptr) (es : Entries)
    → n ≢ name
    → find_entry name ((n, p) ∷ es) ≡ find_entry name es
unfolding List.lookup
find_entry_ne name n p es ne = rw (if_neg (CString-discrete name n) (λ e. ne (sym e)))

pub find_entry_self :
    (name : CString) (p : Ptr) (es : Entries) → find_entry name ((name, p) ∷ es) ≡ some p
unfolding List.lookup
find_entry_self name p es = rw (if_pos (CString-discrete name name) refl)

-- A name is found in the first part, or else in the second.
pub find_entry-append :
    (name : CString) (xs ys : Entries)
    → find_entry name xs ≡ none
    → find_entry name (xs ++ ys) ≡ find_entry name ys
find_entry-append name [] ys h = refl
find_entry-append name ((n, p) ∷ xs) ys h = elim (CString-discrete n name) [
  | yes e ↦ absurd (
      some_ne_none p
        (sym (find_entry_self name p xs) ∙ ap (λ m. find_entry name ((m, p) ∷ xs)) (sym e) ∙ h))
  | no ne ↦
      find_entry_ne name n p (xs ++ ys) ne
      ∙ find_entry-append name xs ys (sym (find_entry_ne name n p xs ne) ∙ h)
]

-- no entry is the file `p`
abbrev pub Avoids : Ptr → Entries → Type 0
Avoids p [] = Unit {0}
Avoids p ((n, q) ∷ es) = (q ≢ p) × Avoids p es

abbrev pub IsDistinct : Entries → Type 0
IsDistinct [] = Unit {0}
IsDistinct ((n, p) ∷ es) = Avoids p es × IsDistinct es

-- no two entries have one name
abbrev pub IsUnique : Entries → Type 0
IsUnique [] = Unit {0}
IsUnique ((n, p) ∷ es) = (find_entry n es ≡ none) × IsUnique es

-- The file at `p` is there, with this name.
pub record IsNamed (files : Ptr → Option VFile) (p : Ptr) (n : CString) : Type 0 where
  pub file : VFile
  pub stored : files p ≡ some file
  pub named : text file.name ≡ n
  pub ne_null : p ≢ null

module _ (files : Ptr → Option VFile) where
  -- The array holds the files of the entries from index `i` on.
  abbrev pub Slots : (ℕ → Ptr) → ℕ → Entries → Type 0
  Slots list i [] = Unit {0}
  Slots list i ((n, p) ∷ es) = (list i ≡ p) × IsNamed files p n × Slots list (suc i) es

  pub Slots-move :
      (list list' : ℕ → Ptr) (a b : ℕ) (es : Entries)
      → Slots list a es
      → ((k : ℕ) → k < length es → list' (b + k) ≡ list (a + k))
      → Slots list' b es
  Slots-move list list' a b [] h same = tt
  Slots-move list list' a b ((n, p) ∷ es) h same =
      let first : list' b ≡ list a =
        subst₂ (λ x y. list' x ≡ list y) (add-zero b) (add-zero a) (same 0 (omega arith)) in
      (first ∙ h.0, h.1, Slots-move list list' (suc a) (suc b) es h.2 λ k lt. next k lt)
    where
      next : (k : ℕ) → k < length es → list' (suc b + k) ≡ list (suc a + k)
      next k lt =
          rw (suc-add b k, suc-add a k, ← add-suc b k, ← add-suc a k) (same (suc k) (omega arith))

  pub Slots-append :
      (list : ℕ → Ptr) (i j : ℕ) (front back : Entries)
      → j ≡ i + length front
      → Slots list i front
      → Slots list j back
      → Slots list i (front ++ back)
  Slots-append list i j [] back e h k =
      let e' : j ≡ i = omega arith in subst (λ x. Slots list x back) e' k
  Slots-append list i j ((n, p) ∷ front) back e h k =
      (h.0, h.1, Slots-append list (suc i) j front back (omega arith) h.2 k)

  pub Slots-split :
      (list : ℕ → Ptr) (i j : ℕ) (front back : Entries)
      → j ≡ i + length front
      → Slots list i (front ++ back)
      → Slots list i front × Slots list j back
  Slots-split list i j [] back e h =
      let e' : i ≡ j = omega arith in (tt, subst (λ x. Slots list x back) e' h)
  Slots-split list i j ((n, p) ∷ front) back e h =
      let (f, b) = Slots-split list (suc i) j front back (omega arith) h.2 in ((h.0, h.1, f), b)

-- The entries survive any change that spares their files.
pub Slots-frame :
    (files files' : Ptr → Option VFile) (list : ℕ → Ptr) (i : ℕ) (p : Ptr) (es : Entries)
    → Slots files list i es
    → Avoids p es
    → ((q : Ptr) → q ≢ p → files' q ≡ files q)
    → Slots files' list i es
Slots-frame files files' list i p [] h avoids same = tt
Slots-frame files files' list i p ((n, q) ∷ es) h avoids same = (
  h.0,
  record {
    file = h.1.file;
    stored = same q avoids.0 ∙ h.1.stored;
    named = h.1.named;
    ne_null = h.1.ne_null;
  },
  Slots-frame files files' list (suc i) p es h.2 avoids.1 same,
)

-- A file that is not there is no entry.
pub Avoids-of_none :
    (files : Ptr → Option VFile) (list : ℕ → Ptr) (i : ℕ) (p : Ptr) (es : Entries)
    → Slots files list i es
    → files p ≡ none
    → Avoids p es
Avoids-of_none files list i p [] h e = tt
Avoids-of_none files list i p ((n, q) ∷ es) h e =
    (λ same. ground (arith, h.1.stored), Avoids-of_none files list (suc i) p es h.2 e)

pub Avoids-append : (p : Ptr) (xs ys : Entries) → Avoids p (xs ++ ys) ↔ (Avoids p xs × Avoids p ys)
Avoids-append p [] ys = (λ h. (tt, h), λ h. h.1)
Avoids-append p ((n, q) ∷ xs) ys = (
  λ h. let (a, b) = (Avoids-append p xs ys).0 h.1 in ((h.0, a), b),
  λ h. (h.0.0, (Avoids-append p xs ys).1 (h.0.1, h.1)),
)

pub find_entry_split :
    (name : CString) (front : Entries) (p : Ptr) (back : Entries)
    → find_entry name front ≡ none
    → find_entry name (front ++ ((name, p) ∷ back)) ≡ some p
find_entry_split name front p back h =
    find_entry-append name front ((name, p) ∷ back) h ∙ find_entry_self name p back

-- the directory without the first entry of a name
unfoldable pub erase_entry : CString → Entries → Entries
erase_entry name [] = []
erase_entry name ((n, p) ∷ es) = ite (CString-discrete n name) es ((n, p) ∷ erase_entry name es)

-- The entries of a name: the first one is not in `front`.
ne_of_find_none :
    (name n : CString) (p : Ptr) (es : Entries) → find_entry name ((n, p) ∷ es) ≡ none → n ≢ name
ne_of_find_none name n p es h e =
    some_ne_none p
      (sym (find_entry_self name p es) ∙ ap (λ m. find_entry name ((m, p) ∷ es)) (sym e) ∙ h)

pub erase_entry_split :
    (name : CString) (front : Entries) (p : Ptr) (back : Entries)
    → find_entry name front ≡ none
    → erase_entry name (front ++ ((name, p) ∷ back)) ≡ front ++ back
unfolding erase_entry
erase_entry_split name [] p back h = rw (if_pos (CString-discrete name name) refl)
erase_entry_split name ((n, q) ∷ front) p back h =
    let ne = ne_of_find_none name n q front h in
    rw (
      if_neg (CString-discrete n name) ne,
      erase_entry_split name front p back (sym (find_entry_ne name n q front ne) ∙ h),
    )

pub IsUnique-append :
    (name : CString) (p : Ptr) (es : Entries)
    → find_entry name es ≡ none
    → IsUnique es
    → IsUnique (es ++ ((name, p) ∷ []))
unfolding List.lookup
IsUnique-append name p [] h u = (refl, tt)
IsUnique-append name p ((n, q) ∷ es) h u =
    let ne = ne_of_find_none name n q es h in
    (
      find_entry-append n es ((name, p) ∷ []) u.0 ∙ find_entry_ne n name p [] (λ e. ne (sym e)),
      IsUnique-append name p es (sym (find_entry_ne name n q es ne) ∙ h) u.1,
    )

pub IsDistinct-append :
    (name : CString) (p : Ptr) (es : Entries)
    → Avoids p es
    → IsDistinct es
    → IsDistinct (es ++ ((name, p) ∷ []))
IsDistinct-append name p [] a d = (tt, tt)
IsDistinct-append name p ((n, q) ∷ es) a d = (
  (Avoids-append q es ((name, p) ∷ [])).1 (d.0, (λ e. a.0 (sym e), tt)),
  IsDistinct-append name p es a.1 d.1,
)

-- Without an entry the directory still has distinct files, none of which is that entry's.
pub IsDistinct-erase :
    (n : CString) (p : Ptr) (front back : Entries)
    → IsDistinct (front ++ ((n, p) ∷ back))
    → IsDistinct (front ++ back) × Avoids p (front ++ back)
IsDistinct-erase n p [] back d = (d.1, d.0)
IsDistinct-erase n p ((m, q) ∷ front) back d =
    let (a, b) = (Avoids-append q front ((n, p) ∷ back)).0 d.0 in
    let (rest, avoids) = IsDistinct-erase n p front back d.1 in
    (((Avoids-append q front back).1 (a, b.1), rest), (λ e. b.0 (sym e), avoids))

find_entry_skip :
    (name n : CString) (p : Ptr) (front back : Entries)
    → find_entry name (front ++ ((n, p) ∷ back)) ≡ none
    → find_entry name (front ++ back) ≡ none
find_entry_skip name n p [] back h =
    sym (find_entry_ne name n p back (ne_of_find_none name n p back h)) ∙ h
find_entry_skip name n p ((m, q) ∷ front) back h =
    let ne = ne_of_find_none name m q (front ++ ((n, p) ∷ back)) h in
    find_entry_ne name m q (front ++ back) ne
    ∙ find_entry_skip name n p front back
        (sym (find_entry_ne name m q (front ++ ((n, p) ∷ back)) ne) ∙ h)

find_entry_member :
    (n : CString) (p : Ptr) (front back : Entries) → find_entry n (front ++ ((n, p) ∷ back)) ≢ none
find_entry_member n p [] back h = ne_of_find_none n n p back h refl
find_entry_member n p ((m, q) ∷ front) back h =
    let ne = ne_of_find_none n m q (front ++ ((n, p) ∷ back)) h in
    find_entry_member n p front back (sym (find_entry_ne n m q (front ++ ((n, p) ∷ back)) ne) ∙ h)

-- Without an entry the names are still unique, and its name is gone.
pub IsUnique-erase :
    (n : CString) (p : Ptr) (front back : Entries)
    → IsUnique (front ++ ((n, p) ∷ back))
    → IsUnique (front ++ back) × (find_entry n (front ++ back) ≡ none)
IsUnique-erase n p [] back u = (u.1, u.0)
IsUnique-erase n p ((m, q) ∷ front) back u =
    let (rest, gone) = IsUnique-erase n p front back u.1 in
    let ne : m ≢ n = λ e. absurd (missing e) in
    ((find_entry_skip m n p front back u.0, rest), find_entry_ne n m q (front ++ back) ne ∙ gone)
  where
    missing : m ≡ n → ⊥
    missing e =
        find_entry_member n p front back
          (subst (λ x. find_entry x (front ++ ((n, p) ∷ back)) ≡ none) e u.0)
