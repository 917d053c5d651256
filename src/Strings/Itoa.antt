-- ===== src/Strings/Itoa.antt =====
-- `numlen` and `itoa` of src/utils.c.
use mathlib.Core.List.{reverse-cons, reverse-append}
use native.Mathlib.Nat.{mod-lt, div-add-mod, div-lt_self}
use ras_pi_k.Base.{
  ℕ, zero, suc, ◌+◌, ◌-◌, ◌*◌, ◌/◌, ◌%◌, ◌^◌, ◌<◌, ◌≤◌, ◌≡◌, refl, ap, Bool, false, some, List, [],
  ◌∷◌, ◌++◌, reverse, arith, ltb, leb, if◌then◌else◌, length, length-append, suc-==-zero, ◌==◌, ℤ,
  pos, negsuc, sub_ℕ, Option-cases, inl, inr,
}
use ras_pi_k.Strings.{text, magnitude, numlen, numlen_from, digit_char, digits_from, itoa, Printed}
use ras_pi_k.Strings.Compare.{IsText}
use ras_pi_k.Strings.Reverse.{reverse_str_lem}

-- what a digit stands for, in a base up to 36
unfoldable pub digit_value : ℕ → ℕ
digit_value c = if leb b'a' c then c + 10 - b'a' else c - b'0'

-- the number that a string of digits stands for, after those read into `acc`
unfoldable pub read_number : ℕ → ℕ → List ℕ → ℕ
read_number base acc [] = acc
read_number base acc (c ∷ cs) = read_number base (base * acc + digit_value c) cs

-- a decimal number with an optional sign
unfoldable pub read_int : List ℕ → ℤ
unfolding read_number digit_value
read_int [] = pos 0
read_int (c ∷ cs) =
    if c == b'-' then sub_ℕ 0 (read_number 10 0 cs) else pos (read_number 10 0 (c ∷ cs))

digit_value-digit_char : (r : ℕ) → r < 36 → digit_value (digit_char false r) ≡ r
unfolding digit_value digit_char
digit_value-digit_char r h = ground arith

digit_char-le : (r : ℕ) → b'0' ≤ digit_char false r
unfolding digit_char
digit_char-le r = ground arith

-- all characters are `0` or above, so none is a terminator or a sign
abbrev AllDigits : List ℕ → Type 0
AllDigits [] = Unit
AllDigits (c ∷ cs) = (b'0' ≤ c) × AllDigits cs

AllDigits-append : (xs ys : List ℕ) → AllDigits xs → AllDigits ys → AllDigits (xs ++ ys)
AllDigits-append [] ys h k = k
AllDigits-append (x ∷ xs) ys h k = (h.0, AllDigits-append xs ys h.1 k)

AllDigits-reverse : (xs : List ℕ) → AllDigits xs → AllDigits (reverse xs)
AllDigits-reverse [] h = h
AllDigits-reverse (x ∷ xs) h =
    rw reverse-cons (AllDigits-append (reverse xs) (x ∷ []) (AllDigits-reverse xs h.1) (h.0, tt))

AllDigits-IsText : (xs : List ℕ) → AllDigits xs → IsText xs
unfolding text
AllDigits-IsText [] h = refl
AllDigits-IsText (x ∷ xs) h = ground (arith, AllDigits-IsText xs)

signed-IsText : (ds : List ℕ) → AllDigits ds → IsText (ds ++ (b'-' ∷ []))
unfolding text
signed-IsText [] h = refl
signed-IsText (d ∷ ds) h = ground (arith, signed-IsText ds)

-- what the loop has written when it stops, lowest digit first
record Digits (base m : ℕ) (ds : List ℕ) : Type 0 where
  digits : AllDigits ds
  value : read_number base 0 (reverse ds) ≡ m

read_number-append :
    (base acc : ℕ) (xs ys : List ℕ)
    → read_number base acc (xs ++ ys) ≡ read_number base (read_number base acc xs) ys
unfolding read_number
read_number-append base acc [] ys = refl
read_number-append base acc (x ∷ xs) ys = read_number-append base (base * acc + digit_value x) xs ys

read_number_digit :
    (base q r m : ℕ) (ds : List ℕ)
    → r < 36
    → read_number base 0 (reverse ds) ≡ q
    → base * q + r ≡ m
    → read_number base 0 (reverse (digit_char false r ∷ ds)) ≡ m
unfolding read_number
read_number_digit base q r m ds h v e =
    rw
      (
        reverse-cons,
        read_number-append base 0 (reverse ds) (digit_char false r ∷ []),
        v,
        digit_value-digit_char r h,
      )
      e

-- With a base from 2 to 36 and more fuel than the number the loop ends, and writes its digits.
digits_from-Digits :
    (n base m : ℕ)
    → 2 ≤ base
    → base ≤ 36
    → m < n
    → (ds : List ℕ) × (digits_from n false base m ≡ some ds) × Digits base m ds
unfolding digits_from
digits_from-Digits zero base m lo hi h = absurd (omega arith)
digits_from-Digits (suc n) base zero lo hi h =
    ([], refl, record { digits = tt; value = unfold read_number in refl })
digits_from-Digits (suc n) base (suc m) lo hi h =
    let (ds, e, d) =
      digits_from-Digits n base (suc m / base) lo hi
        (omega (arith, div-lt_self {n = suc m} {k = base} (omega arith) (omega arith))) in
    let low : suc m % base < base = mod-lt (suc m) (omega arith) in
    (
      digit_char false (suc m % base) ∷ ds,
      rw e (ground arith),
      record {
        digits = (digit_char-le (suc m % base), d.digits);
        value =
            read_number_digit base (suc m / base) (suc m % base) (suc m) ds (omega arith) d.value
              (div-add-mod (suc m) base);
      },
    )

-- `numlen` counts the decimal digits.
numlen_from-length :
    (k n m : ℕ) (neg : Bool) {ds : List ℕ}
    → m ≤ k
    → digits_from n neg 10 m ≡ some ds
    → numlen_from k m ≡ length ds
unfolding numlen_from digits_from
numlen_from-length k zero m neg h e = absurd (ground arith)
numlen_from-length zero (suc n) m neg {ds} h e = ground arith
numlen_from-length (suc k) (suc n) m neg {ds} h e =
    elim (Option-cases (digits_from n neg 10 (m / 10))) [
      | inl stop ↦ ground arith
      | inr (rest, more) ↦ ground (arith, numlen_from-length k n (m / 10) neg {ds = rest})
    ]

length-reverse : (xs : List ℕ) → length (reverse xs) ≡ length xs
length-reverse [] = refl
length-reverse (x ∷ xs) =
    rw reverse-cons (omega (arith, length-append (reverse xs) (x ∷ []), length-reverse xs))

size_digits :
    (m : ℕ) {ds : List ℕ}
    → digits_from (suc m) false 10 m ≡ some ds
    → length (reverse ds) ≡ numlen_from m m
size_digits m {ds} e =
    omega (arith, numlen_from-length m (suc m) m false {ds = ds} (omega arith) e, length-reverse ds)

abbrev pub is_positive : ℤ → Bool
is_positive (pos n) = ltb 0 n
is_positive (negsuc n) = false

-- What `itoa` returns for a positive number.
itoa-pos :
    (m base : ℕ)
    → 2 ≤ base
    → base ≤ 36
    → (ds : List ℕ) × (itoa (pos (suc m)) base
        ≡ some (record { size = numlen (pos (suc m)) + 1; chars = reverse ds }))
      × Digits base (suc m) ds
      × (digits_from (suc (suc m)) false base (suc m) ≡ some ds)
unfolding itoa
itoa-pos m base lo hi =
    let (ds, e, d) = digits_from-Digits (suc (suc m)) base (suc m) lo hi (omega arith) in
    (ds, rw (suc-==-zero m, e, reverse_str_lem ds (AllDigits-IsText ds d.digits)), d, e)

-- What `itoa` returns for a negative number in base 10.
itoa-negsuc :
    (m : ℕ)
    → (ds : List ℕ) × (itoa (negsuc m) 10
        ≡ some (record { size = numlen (negsuc m) + 1; chars = b'-' ∷ reverse ds }))
      × Digits 10 (suc m) ds
      × (digits_from (suc (suc m)) false 10 (suc m) ≡ some ds)
unfolding itoa
itoa-negsuc m =
    let (ds, e, d) =
      digits_from-Digits (suc (suc m)) 10 (suc m) (omega arith) (omega arith) (omega arith) in
    (
      ds,
      rw (
        suc-==-zero m,
        e,
        reverse_str_lem (ds ++ (b'-' ∷ [])) (signed-IsText ds d.digits),
        reverse-append ds (b'-' ∷ []),
      ),
      d,
      e,
    )

-- `itoa` in a base from 2 to 36 prints digits that read back to the positive number.
pub itoa-read_number :
    (m base : ℕ)
    → 2 ≤ base
    → base ≤ 36
    → 0 < m
    → m < 2 ^ 31
    → (p : Printed) × (itoa (pos m) base ≡ some p) × (read_number base 0 p.chars ≡ m)
itoa-read_number zero base lo hi h k = absurd (omega arith)
itoa-read_number (suc m) base lo hi h k =
    let (ds, e, d, _) = itoa-pos m base lo hi in (_, e, d.value)

read_int_digits :
    (ds : List ℕ) (m : ℕ) → AllDigits ds → read_number 10 0 ds ≡ m → read_int ds ≡ pos m
unfolding read_int
read_int_digits [] m h e = ap pos e
read_int_digits (c ∷ ds) m h e = ground arith

-- `itoa` prints in base 10 so that the number is read back, for every `int` but the least.
pub itoa-read_int :
    (val : ℤ)
    → magnitude val < 2 ^ 31
    → (p : Printed) × (itoa val 10 ≡ some p) × (read_int p.chars ≡ val)
itoa-read_int (pos zero) h =
    (record { size = 1; chars = b'0' ∷ [] }, unfold itoa numlen in refl, unfold read_int in refl)
itoa-read_int (pos (suc m)) h =
    let (ds, e, d, _) = itoa-pos m 10 (omega arith) (omega arith) in
    (_, e, read_int_digits (reverse ds) (suc m) (AllDigits-reverse ds d.digits) d.value)
itoa-read_int (negsuc m) h =
    let (ds, e, d, _) = itoa-negsuc m in (_, e, unfold read_int in rw d.value (ground arith))

-- The string and its terminator fill the block that `itoa` asks for exactly if the number is
-- positive; for 0 and for a negative number they take one byte more.
pub itoa_overflow :
    (val : ℤ)
    → magnitude val < 2 ^ 31
    → (p : Printed) × (itoa val 10 ≡ some p)
      × (length p.chars + 1 ≡ p.size + (if is_positive val then 0 else 1))
unfolding numlen
itoa_overflow (pos zero) h =
    (record { size = 1; chars = b'0' ∷ [] }, unfold itoa numlen in refl, refl)
itoa_overflow (pos (suc m)) h =
    let (ds, e, d, f) = itoa-pos m 10 (omega arith) (omega arith) in
    (_, e, ground (arith, size_digits (suc m) f))
itoa_overflow (negsuc m) h =
    let (ds, e, d, f) = itoa-negsuc m in (_, e, ground (arith, size_digits (suc m) f))
