-- ===== src/Strings.antt =====
-- The strings of src/utils.c. A `const char *` is the list of the bytes that stand from the pointer
-- on; the end of the list is the byte 0 that ends the string, and so is a 0 inside it. A buffer
-- that a function writes is the list of its bytes, and a write outside of it shows in the model as
-- a list that is too short.
pub mod Compare
pub mod Concat
pub mod Reverse
pub mod Itoa
pub mod Hex
mod Tests
use ras_pi_k.Base.{
  ℕ, zero, suc, ◌+◌, ◌-◌, ◌/◌, ◌%◌, ◌^◌, Bool, true, false, not, ◌&&◌, Option, none, some, List, [],
  ◌∷◌, ◌++◌, ◌==◌, ltb, leb, if◌then◌else◌, get_or, set, length, ℤ, pos, negsuc,
}

abbrev pub CString : Type 0
CString = List ℕ

unfoldable pub strlen : CString → ℕ
strlen [] = 0
strlen (c ∷ s) = if c == 0 then 0 else suc (strlen s)

-- `str[i]`, where the end of the list is the terminator
abbrev pub char_at : CString → ℕ → ℕ
char_at s i = get_or s i 0

-- the bytes before the terminator
unfoldable pub text : CString → CString
text [] = []
text (c ∷ s) = if c == 0 then [] else c ∷ text s

-- the loop of `strcmp`, from index `i` with `n` rounds left
compare_from : ℕ → ℕ → CString → CString → ℕ
compare_from zero i s t = 0
compare_from (suc n) i s t =
    let rest = compare_from n (i + 1) s t in if not (char_at s i == char_at t i) then 1 else rest

-- 0 for equal strings, and 1 otherwise
unfoldable pub strcmp : CString → CString → ℕ
unfolding strlen compare_from
strcmp s t = if not (strlen s == strlen t) then 1 else compare_from (strlen s) 0 s t

-- `for (int j = 0; str[j]; i++, j++) ret[i] = str[j];`, with `str` from `j` on
copy_text : CString → ℕ → List ℕ → List ℕ
copy_text [] i ret = ret
copy_text (c ∷ s) i ret = if c == 0 then ret else copy_text s (i + 1) (set ret i c)

-- `ret` is the block of `strlen(str1) + strlen(str2) + 1` bytes that `kmalloc` gives
pub strcat : List ℕ → CString → CString → List ℕ
unfolding copy_text strlen
strcat ret s t = set (copy_text t (strlen s) (copy_text s 0 ret)) (strlen s + strlen t) 0

pub swap : ℕ → ℕ → CString → CString
swap a b s = let c = char_at s a in set (set s a (char_at s b)) b c

-- the loop of `reverse`, with at most `n` rounds
reverse_from : ℕ → ℕ → ℕ → CString → CString
unfolding swap
reverse_from zero start end s = s
reverse_from (suc n) start end s =
    let rest = reverse_from n (start + 1) (end - 1) (swap start end s) in
    if ltb start end then rest else s

-- `strlen(str) - 1` is -1 for the empty string, where the loop makes no round: so does 0 here.
-- The distance of the two indices falls in each round, so the length is enough fuel.
pub reverse_str : CString → CString
unfolding reverse_from
reverse_str s = reverse_from (strlen s) 0 (strlen s - 1) s

-- the number of decimal digits, with fuel: `val` itself is enough. The sign does not matter, since
-- `/` on `int` rounds to zero.
numlen_from : ℕ → ℕ → ℕ
numlen_from zero val = 0
numlen_from (suc n) val = let rest = numlen_from n (val / 10) in if val == 0 then 0 else suc rest

abbrev pub magnitude : ℤ → ℕ
magnitude (pos n) = n
magnitude (negsuc n) = suc n

pub numlen : ℤ → ℕ
unfolding numlen_from
numlen val = numlen_from (magnitude val) (magnitude val)

-- `(rem > 9) ? (rem - 10) + 'a' : rem + '0'`. `%` on `int` takes the sign of `val`, so `rem` is
-- `- r` where `val` is still negative.
pub digit_char : Bool → ℕ → ℕ
digit_char negative r =
    if negative then (256 + b'0' - r) % 256 else if ltb 9 r then r - 10 + b'a' else r + b'0'

-- the digits, lowest first, of the number with this sign and magnitude; `none` when the fuel is out
digits_from : ℕ → Bool → ℕ → ℕ → Option (List ℕ)
digits_from zero negative base m = none
digits_from (suc n) negative base m =
    let rest = digits_from n negative base (m / base) in
    if m == 0
    then some []
    else elim rest [ none ↦ none | some ds ↦ some (digit_char negative (m % base) ∷ ds) ]

-- The string that `itoa` returns, and the size of the block that it asks `kmalloc` for: the string
-- and its terminator take `length text + 1` bytes.
pub record Printed : Type 0 where
  pub size : ℕ
  pub chars : List ℕ

abbrev negative : ℤ → Bool
negative (pos n) = false
negative (negsuc n) = true

pub itoa : ℤ → ℕ → Option Printed
itoa val base =
    let size : ℕ = numlen val + 1 in
    let neg : Bool = negative val && (base == 10) in
    let m : ℕ = magnitude val in
    if m == 0
    then some (record { size = size; chars = b'0' ∷ [] })
    else elim (digits_from (suc m) (negative val && not neg) base m) [
      | none ↦ none
      | some ds ↦
          some (record { size = size; chars = reverse_str (if neg then ds ++ (b'-' ∷ []) else ds) })
    ]

-- `d < 10 ? '0' + d : 'a' + d - 10`
pub hex_char : ℕ → ℕ
hex_char d = if ltb d 10 then b'0' + d else b'a' + d - 10

-- `for (int i = 9; i >= 2; i--)`, with `n` rounds left: `i` is `n + 1`. `val & 0xF` is `val % 16`.
hex_from : ℕ → ℕ → List ℕ → List ℕ
hex_from zero val buf = buf
hex_from (suc n) val buf = hex_from n (val / 16) (set buf (suc n + 1) (hex_char (val % 16)))

-- `for (int i = 0; i < 10; i++) buf[i] = hex[i];`, with `hex` from `i` on
copy_bytes : List ℕ → ℕ → List ℕ → List ℕ
copy_bytes [] i buf = buf
copy_bytes (c ∷ cs) i buf = copy_bytes cs (i + 1) (set buf i c)

abbrev hex_zero : CString
hex_zero = b'0' ∷ b'x' ∷ b'0' ∷ b'0' ∷ b'0' ∷ b'0' ∷ b'0' ∷ b'0' ∷ b'0' ∷ b'0' ∷ []

pub uint32_to_hex : ℕ → List ℕ → List ℕ
unfolding copy_bytes hex_from hex_char
uint32_to_hex val buf = hex_from 8 val (set (copy_bytes hex_zero 0 buf) 10 0)
