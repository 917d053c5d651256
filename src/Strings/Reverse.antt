-- ===== src/Strings/Reverse.antt =====
-- `swap` and `reverse` of src/utils.c.
use mathlib.Core.List.{append_assoc, append-nil, reverse-append, reverse-cons}
use mathlib.Core.Path.{subst}
use ras_pi_k.Base.{
  ℕ, zero, suc, ◌+◌, ◌-◌, ◌≤◌, ◌≡◌, refl, sym, ap, ◌∙◌, List, [], ◌∷◌, ◌++◌, reverse, arith, length,
  length-append, set-append, get_or-append, set, get_or, lt→ltb, le→ltb,
}
use ras_pi_k.Strings.{CString, strlen, swap, reverse_from, reverse_str}
use ras_pi_k.Strings.Compare.{strlen-length, IsText}

snoc-cases {ℓ} :
    {A : Type ℓ} (x : A) (xs : List A) → (m : List A) × (y : A) × (x ∷ xs ≡ m ++ (y ∷ []))
snoc-cases x [] = ([], x, refl)
snoc-cases x (y ∷ ys) = let (m, z, e) = snoc-cases y ys in (x ∷ m, z, ap (◌∷◌ x) e)

-- `swap` exchanges the two ends of what lies between `front` and `back`.
swap_ends :
    (front m back : List ℕ) (x y a b : ℕ)
    → length front ≡ a
    → a + length m + 1 ≡ b
    → swap a b (front ++ (x ∷ (m ++ (y ∷ back)))) ≡ front ++ (y ∷ (m ++ (x ∷ back)))
unfolding swap
swap_ends front m back x y a b e k = rw (
  get_or-append front a x 0 (m ++ (y ∷ back)) e,
  at_end x y,
  set-append front a x y (m ++ (y ∷ back)) e,
  set_end,
)
  where
    size : (z : ℕ) → length (front ++ (z ∷ m)) ≡ b
    size z = omega (arith, length-append front (z ∷ m))

    at_end : (z w : ℕ) → get_or (front ++ (z ∷ (m ++ (w ∷ back)))) b 0 ≡ w
    at_end z w =
        rw (← append_assoc front (z ∷ m) (w ∷ back))
          (get_or-append (front ++ (z ∷ m)) b w 0 back (size z))

    set_end : set (front ++ (y ∷ (m ++ (y ∷ back)))) b x ≡ front ++ (y ∷ (m ++ (x ∷ back)))
    set_end =
        rw
          (
            ← append_assoc front (y ∷ m) (y ∷ back),
            set-append (front ++ (y ∷ m)) b y x back (size y),
          )
          (append_assoc front (y ∷ m) (x ∷ back))

-- One round of the loop, given what the rounds after it do.
reverse_round :
    (n a b : ℕ) (front m back : List ℕ) (x z : ℕ)
    → length front ≡ a
    → a + length m + 1 ≡ b
    → ((front' back' : List ℕ)
        → length front' ≡ a + 1
        → reverse_from n (a + 1) (b - 1) (front' ++ (m ++ back')) ≡ front' ++ (reverse m ++ back'))
    → reverse_from (suc n) a b (front ++ (x ∷ (m ++ (z ∷ back))))
      ≡ front ++ (z ∷ (reverse m ++ (x ∷ back)))
unfolding reverse_from
reverse_round n a b front m back x z e k ih =
    rw
      (
        lt→ltb a b (omega arith),
        swap_ends front m back x z a b e k,
        ← append_assoc front (z ∷ []) (m ++ (x ∷ back)),
        ih (front ++ (z ∷ [])) (x ∷ back) (omega (arith, length-append front (z ∷ []))),
      )
      (append_assoc front (z ∷ []) (reverse m ++ (x ∷ back)))

reverse_ends :
    (m back : List ℕ) (x z : ℕ)
    → reverse (x ∷ (m ++ (z ∷ []))) ++ back ≡ z ∷ (reverse m ++ (x ∷ back))
reverse_ends m back x z = simp (reverse-cons, reverse-append, append_assoc)

-- The loop turns round what lies between its two indices.
reverse_from-append :
    (n a b : ℕ) (front mid back : List ℕ)
    → length mid ≤ n
    → length front ≡ a
    → a + length mid - 1 ≡ b
    → reverse_from n a b (front ++ (mid ++ back)) ≡ front ++ (reverse mid ++ back)
unfolding reverse_from
reverse_from-append zero a b front [] back h e k = refl
reverse_from-append zero a b front (x ∷ mid) back h e k = absurd (omega arith)
reverse_from-append (suc n) a b front [] back h e k = rw (le→ltb a b (omega arith))
reverse_from-append (suc n) a b front (x ∷ []) back h e k = rw (le→ltb a b (omega arith))
reverse_from-append (suc n) a b front (x ∷ y ∷ mid) back h e k =
    let (m, z, s) = snoc-cases y mid in
    let size : length (y ∷ mid) ≡ length m + 1 = ap length s ∙ length-append m (z ∷ []) in
    subst
      (λ w.
        reverse_from (suc n) a b (front ++ ((x ∷ w) ++ back)) ≡ front ++ (reverse (x ∷ w) ++ back))
      (sym s)
      (rw (append_assoc m (z ∷ []) back, reverse_ends m back x z)
        (reverse_round n a b front m back x z e (omega arith) (λ front' back' e'.
          reverse_from-append n (a + 1) (b - 1) front' m back' (omega arith) e' (omega arith))))

-- `reverse` turns the bytes of a string round in place.
pub reverse_str_lem : (s : CString) → IsText s → reverse_str s ≡ reverse s
unfolding reverse_str
reverse_str_lem s t =
    let size : strlen s ≡ length s = strlen-length s ∙ ap length t in
    let whole =
      reverse_from-append (strlen s) 0 (strlen s - 1) [] s [] (omega arith) refl (omega arith) in
    simp append-nil at whole
