-- ===== src/Strings/Concat.antt =====
-- `strcat` of src/utils.c.
use mathlib.Core.List.{append_assoc}
use ras_pi_k.Base.{
  ℕ, ◌+◌, ◌≤◌, ◌≡◌, refl, sym, List, [], ◌∷◌, ◌++◌, arith, length, drop, inl, inr, false,
  length-append, length-drop, set-append, set_last, Bool-cases, ◌==◌,
}
use ras_pi_k.Strings.{CString, strlen, text, copy_text, strcat}
use ras_pi_k.Strings.Compare.{strlen-length}

-- One round of the copy.
copy_char :
    (c : ℕ) (s : CString) (i : ℕ) (front ret : List ℕ)
    → length front ≡ i
    → (c == 0) ≡ false
    → strlen (c ∷ s) ≤ length ret
    → ((front' ret' : List ℕ)
        → length front' ≡ i + 1
        → strlen s ≤ length ret'
        → copy_text s (i + 1) (front' ++ ret') ≡ front' ++ (text s ++ drop (strlen s) ret'))
    → copy_text (c ∷ s) i (front ++ ret) ≡ front ++ (text (c ∷ s) ++ drop (strlen (c ∷ s)) ret)
unfolding copy_text strlen text
copy_char c s i front [] e more h ih = absurd (ground arith)
copy_char c s i front (r ∷ ret) e more h ih = rw (
  more,
  set-append front i r c ret e,
  ← append_assoc front (c ∷ []) ret,
  ih (front ++ (c ∷ [])) ret (omega (arith, length-append front (c ∷ []))) (ground arith),
  append_assoc front (c ∷ []) (text s ++ drop (strlen s) ret),
)

-- The copy from index `i` replaces the bytes from there on, as far as the string goes.
copy_text-append :
    (s : CString) (i : ℕ) (front ret : List ℕ)
    → length front ≡ i
    → strlen s ≤ length ret
    → copy_text s i (front ++ ret) ≡ front ++ (text s ++ drop (strlen s) ret)
unfolding copy_text strlen text
copy_text-append [] i front ret e h = refl
copy_text-append (c ∷ s) i front ret e h = elim (Bool-cases (c == 0)) [
  | inl stop ↦ rw stop
  | inr more ↦ copy_char c s i front ret e more h (copy_text-append s (i + 1))
]

-- In a block of `strlen(str1) + strlen(str2) + 1` bytes, whatever it holds, `strcat` writes the
-- bytes of the two strings and the terminator, and nothing outside of it.
pub strcat-append :
    (ret : List ℕ) (s t : CString)
    → length ret ≡ strlen s + strlen t + 1
    → strcat ret s t ≡ text s ++ (text t ++ (0 ∷ []))
unfolding strcat
strcat-append ret s t e = rw (
  copy_text-append s 0 [] ret refl (omega arith),
  copy_text-append t (strlen s) (text s) (drop (strlen s) ret) (sym (strlen-length s))
      (omega (arith, length-drop (strlen s) ret)),
  ← append_assoc (text s) (text t) (drop (strlen t) (drop (strlen s) ret)),
  set_last (text s ++ text t) (strlen s + strlen t) 0 (drop (strlen t) (drop (strlen s) ret))
      (omega (arith, length-append (text s) (text t), strlen-length s, strlen-length t))
      (omega (arith, length-drop (strlen s) ret, length-drop (strlen t) (drop (strlen s) ret))),
  append_assoc (text s) (text t) (0 ∷ []),
)
