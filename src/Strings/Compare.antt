-- ===== src/Strings/Compare.antt =====
-- `strlen` and `strcmp` of src/utils.c.
use ras_pi_k.Base.{ℕ, zero, suc, ◌+◌, ◌≡◌, refl, ◌↔◌, [], ◌∷◌, arith, length}
use ras_pi_k.Strings.{CString, strlen, text, compare_from, strcmp}

-- `strlen` counts the bytes before the terminator
pub strlen-length : (s : CString) → strlen s ≡ length (text s)
unfolding strlen text
strlen-length [] = refl
strlen-length (c ∷ s) = ground (arith, strlen-length s)

-- The loop from index `i` looks at the strings from there on.
compare_from_shift :
    (n i : ℕ) (c d : ℕ) (s t : CString)
    → compare_from n (suc i) (c ∷ s) (d ∷ t) ≡ compare_from n i s t
unfolding compare_from
compare_from_shift zero i c d s t = refl
compare_from_shift (suc n) i c d s t = ground (arith, compare_from_shift n (i + 1) c d s t)

compare_from-eq-zero :
    (s t : CString) → strlen s ≡ strlen t → compare_from (strlen s) 0 s t ≡ 0 → text s ≡ text t
unfolding strlen text compare_from
compare_from-eq-zero [] [] e h = refl
compare_from-eq-zero [] (d ∷ t) e h = ground arith
compare_from-eq-zero (c ∷ s) [] e h = ground arith
compare_from-eq-zero (c ∷ s) (d ∷ t) e h =
    ground (arith, compare_from-eq-zero s t, compare_from_shift (strlen s) 0 c d s t)

compare_from-text : (s t : CString) → text s ≡ text t → compare_from (strlen s) 0 s t ≡ 0
unfolding strlen text compare_from
compare_from-text [] t e = refl
compare_from-text (c ∷ s) [] e = ground arith
compare_from-text (c ∷ s) (d ∷ t) e =
    ground (arith, compare_from-text s t, compare_from_shift (strlen s) 0 c d s t)

-- `strcmp` returns 0 exactly when the two strings have the same bytes before their terminators.
pub strcmp-eq-zero_iff : (s t : CString) → (strcmp s t ≡ 0) ↔ (text s ≡ text t)
unfolding strcmp
strcmp-eq-zero_iff s t = (
  λ h. ground (arith, compare_from-eq-zero s t),
  λ e. ground (arith, compare_from-text s t, strlen-length s, strlen-length t),
)

-- A string of the kernel's own: no byte 0 in it.
abbrev pub IsText : CString → Type 0
IsText s = text s ≡ s

pub strcmp_refl : (s : CString) → strcmp s s ≡ 0
strcmp_refl s = (strcmp-eq-zero_iff s s).1 refl
