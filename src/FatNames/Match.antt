-- ===== src/FatNames/Match.antt =====
-- Which names `check_filename` of src/fs/fat32.c takes for that of an entry.
use ras_pi_k.Base.{
  ℕ, zero, suc, ◌+◌, ◌≡◌, ◌≢◌, refl, ap, ◌∙◌, true, false, not, ◌&&◌, some, List, [], ◌∷◌, ◌++◌,
  arith, ◌==◌, length, drop, length-append, Bool-cases, inl, inr,
}
use mathlib.Core.List.{append_assoc}
use ras_pi_k.Strings.{CString, strlen, char_at}
use ras_pi_k.FatNames.{
  FatDir, space, upper, name_from, file_name, check_name, check_ext, check_filename,
}

-- a name without a terminator inside
abbrev pub IsPlain : CString → Type 0
IsPlain [] = Unit {0}
IsPlain (c ∷ s) = (c ≢ 0) × IsPlain s

-- the two lists are equal but for the case of the first one's letters
abbrev pub Uppers : CString → List ℕ → Type 0
Uppers [] [] = Unit {0}
Uppers [] (d ∷ ds) = ◌≡◌ {A = ℕ} 0 1
Uppers (c ∷ cs) [] = ◌≡◌ {A = ℕ} 0 1
Uppers (c ∷ cs) (d ∷ ds) = (upper c ≡ d) × Uppers cs ds

strlen-plain : (s : CString) → IsPlain s → strlen s ≡ length s
unfolding strlen
strlen-plain [] h = refl
strlen-plain (c ∷ s) (ne, h) =
    let here : (c == 0) ≡ false = ground arith in rw here (ap suc (strlen-plain s h))

drop-cons :
    (i : ℕ) (s : CString) (c : ℕ) (rest : CString)
    → drop i s ≡ c ∷ rest
    → (char_at s i ≡ c) × (drop (i + 1) s ≡ rest)
drop-cons zero [] c rest e = cc
drop-cons zero (x ∷ s) c rest e = (cc, cc)
drop-cons (suc i) [] c rest e = cc
drop-cons (suc i) (x ∷ s) c rest e =
    let (at, after) = drop-cons i s c rest e in
    let next : suc i + 1 ≡ suc (i + 1) = omega arith in (at, rw next after)

-- The first loop accepts a name that goes on with the entry's, whatever stands behind.
check_name-prefix :
    (n i : ℕ) (file : ℕ → ℕ) (name stem back : CString)
    → drop i name ≡ stem ++ back
    → Uppers stem (name_from n i file)
    → check_name n i file name ≡ true
unfolding check_name name_from
check_name-prefix zero i file name stem back e u = refl
check_name-prefix (suc n) i file name [] back e u =
    elim (Bool-cases (not (file i == 0) && not (file i == space))) [
      | inr over ↦ rw over refl
      | inl part ↦ absurd (let u' = rw part at u in omega arith)
    ]
check_name-prefix (suc n) i file name (c ∷ stem) back e u =
    elim (Bool-cases (not (file i == 0) && not (file i == space))) [
      | inr over ↦ rw over refl
      | inl part ↦
          let (at, after) = drop-cons i name c (stem ++ back) e in
          let (same, u') = rw part at u in
          let here : (file i == upper (char_at name i)) ≡ true = rw (at, same) (ground arith) in
          rw (part, here) (check_name-prefix n (i + 1) file name stem back after u')
    ]

char_at-append :
    (front : CString) (j : ℕ) (back : CString)
    → char_at (front ++ back) (length front + j) ≡ char_at back j
char_at-append [] j back = let e : 0 + j ≡ j = omega arith in rw e refl
char_at-append (c ∷ front) j back =
    let e : suc (length front) + j ≡ suc (length front + j) = omega arith in
    rw e (char_at-append front j back)

-- The second loop accepts a name that ends with the entry's extension.
check_ext-suffix :
    (file : ℕ → ℕ) (front : CString) (x y z : ℕ)
    → (upper x ≡ file 0) × (upper y ≡ file 1) × (upper z ≡ file 2)
    → check_ext 3 (length front + 3) file (front ++ (x ∷ y ∷ z ∷ [])) ≡ some true
unfolding check_ext
check_ext-suffix file front x y z (a, b, c) =
    let back : CString = x ∷ y ∷ z ∷ [] in
    let rounds : length front + 3 ≡ suc (suc (suc (length front))) = omega arith in
    let two : length front + 2 ≡ suc (suc (length front)) = omega arith in
    let one : length front + 1 ≡ suc (length front) = omega arith in
    let zeroth : length front + 0 ≡ length front = omega arith in
    let at₂ = char_at-append front 2 back in
    let at₁ = char_at-append front 1 back in
    let at₀ = char_at-append front 0 back in
    rw (rounds, rw two at at₂, rw one at at₁, rw zeroth at at₀, a, b, c) (ground arith)

IsPlain-append : (s t : CString) → IsPlain s → IsPlain t → IsPlain (s ++ t)
IsPlain-append [] t h k = k
IsPlain-append (c ∷ s) t (ne, h) k = (ne, IsPlain-append s t h k)

-- `check_filename` takes any name that begins with the bytes of the entry's name and ends with its
-- extension, whatever stands between them, in either case of the letters.
pub check_filename-accepts :
    (d : FatDir) (stem middle : CString) (x y z : ℕ)
    → Uppers stem (name_from 8 0 d.name)
    → (upper x ≡ d.ext 0) × (upper y ≡ d.ext 1) × (upper z ≡ d.ext 2)
    → IsPlain ((stem ++ middle) ++ (x ∷ y ∷ z ∷ []))
    → check_filename d ((stem ++ middle) ++ (x ∷ y ∷ z ∷ [])) ≡ some true
unfolding check_filename
check_filename-accepts d stem middle x y z u ext plain =
    let back : CString = x ∷ y ∷ z ∷ [] in
    let name : CString = (stem ++ middle) ++ back in
    let begins =
      check_name-prefix 8 0 d.name name stem (middle ++ back) (append_assoc stem middle back) u in
    let size : strlen name ≡ length (stem ++ middle) + 3 =
      strlen-plain name plain ∙ length-append (stem ++ middle) back in
    rw (begins, size) (check_ext-suffix d.ext (stem ++ middle) x y z ext)

-- no letter of the bytes is a small one
abbrev pub IsUpper : List ℕ → Type 0
IsUpper [] = Unit {0}
IsUpper (c ∷ s) = (upper c ≡ c) × IsUpper s

Uppers-self : (s : List ℕ) → IsUpper s → Uppers s s
Uppers-self [] h = tt
Uppers-self (c ∷ s) (e, h) = (e, Uppers-self s h)

name_from-IsPlain : (n j : ℕ) (name : ℕ → ℕ) → IsPlain (name_from n j name)
unfolding name_from
name_from-IsPlain zero j name = tt
name_from-IsPlain (suc n) j name = elim (Bool-cases (not (name j == 0) && not (name j == space))) [
  | inl part ↦ rw part (ground arith, name_from-IsPlain n (j + 1) name)
  | inr over ↦ rw over tt
]

-- The name that `readdir_fat32` gives to an entry is taken for the entry's, if it has no small
-- letter and its extension has no terminator.
pub check_filename-file_name :
    (d : FatDir)
    → IsUpper (name_from 8 0 d.name)
    → IsUpper (d.ext 0 ∷ d.ext 1 ∷ d.ext 2 ∷ [])
    → IsPlain (d.ext 0 ∷ d.ext 1 ∷ d.ext 2 ∷ [])
    → check_filename d (file_name d) ≡ some true
unfolding file_name
check_filename-file_name d stem (a, (b, (c, _))) plain =
    let name = name_from 8 0 d.name in
    let ext : CString = d.ext 0 ∷ d.ext 1 ∷ d.ext 2 ∷ [] in
    let dot : CString = b'.' ∷ [] in
    let whole : (name ++ dot) ++ ext ≡ name ++ (dot ++ ext) = append_assoc name dot ext in
    let is_plain : IsPlain ((name ++ dot) ++ ext) =
      IsPlain-append (name ++ dot) ext
        (IsPlain-append name dot (name_from-IsPlain 8 0 d.name) (omega arith, tt)) plain in
    rw whole at (
      check_filename-accepts d name dot (d.ext 0) (d.ext 1) (d.ext 2) (Uppers-self name stem)
        (a, b, c) is_plain)
