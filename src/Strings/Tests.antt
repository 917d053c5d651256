-- ===== src/Strings/Tests.antt =====
-- Runs of the functions of src/utils.c, and the theorems about them at concrete strings.
use ras_pi_k.Base.{◌≡◌, refl, ◌↔◌, some, [], ◌∷◌, arith, pos, negsuc}
use ras_pi_k.Strings.{
  CString, strlen, text, compare_from, strcmp, reverse_str, numlen, digits_from, digit_char,
  Printed, itoa,
}
use ras_pi_k.Strings.Compare.{strcmp-eq-zero_iff}
use ras_pi_k.Strings.Itoa.{itoa-read_int, read_int}

abbrev dev : CString
dev = b'd' ∷ b'e' ∷ b'v' ∷ []

abbrev tmp : CString
tmp = b't' ∷ b'm' ∷ b'p' ∷ []

strcmp_runs : (strcmp dev dev ≡ 0) × (strcmp dev tmp ≡ 1)
unfolding strcmp strlen compare_from
strcmp_runs = (refl, refl)

reverse_str_runs : reverse_str dev ≡ b'v' ∷ b'e' ∷ b'd' ∷ []
unfolding reverse_str strlen
reverse_str_runs = refl

itoa_runs :
    (itoa (negsuc 41) 10 ≡ some (record { size = 3; chars = b'-' ∷ b'4' ∷ b'2' ∷ [] }))
    × (itoa (pos 255) 16 ≡ some (record { size = 4; chars = b'f' ∷ b'f' ∷ [] }))
unfolding itoa numlen digits_from digit_char reverse_str strlen
itoa_runs = (refl, refl)

strcmp-eq-zero_iff_example : (strcmp dev tmp ≡ 0) ↔ (text dev ≡ text tmp)
strcmp-eq-zero_iff_example = strcmp-eq-zero_iff dev tmp

itoa-read_int_example :
    (p : Printed) × (itoa (negsuc 41) 10 ≡ some p) × (read_int p.chars ≡ negsuc 41)
itoa-read_int_example = itoa-read_int (negsuc 41) (omega arith)
