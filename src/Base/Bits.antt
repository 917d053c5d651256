-- ===== src/Base/Bits.antt =====
-- `&` with a mask and `|` of fields that do not overlap, on numbers of any width.
use Prim.Native.Nat.{
  ℕ, zero, suc, ◌+◌, ◌*◌, ◌/◌, ◌%◌, ◌^◌, ◌≤◌, ◌<◌, min, max, digits, bit_and, bit_or,
  bit_and-bitwise, bit_or-bitwise,
}
use mathlib.Core.Path.{◌≡◌, refl, ap}
use native.Mathlib.Omega.{arith}
use native.Mathlib.Nat.{pow-suc, le_refl}

-- a count of digits that is large enough does not matter
digits_enough :
    (z : ℕ → ℕ) (f : ℕ → ℕ → ℕ) (more some a b : ℕ)
    → a ≤ some
    → some ≤ more
    → digits z f more a b ≡ digits z f some a b
digits_enough z f zero zero a b few le = refl
digits_enough z f (suc more) zero zero b few le = refl
digits_enough z f (suc more) zero (suc a) b few le = absurd (omega arith)
digits_enough z f zero (suc some) a b few le = absurd (omega arith)
digits_enough z f (suc more) (suc some) zero b few le = refl
digits_enough z f (suc more) (suc some) (suc a) b few le =
    rw (digits_enough z f more some (suc a / 2) (b / 2) (omega arith) (omega arith))

bit_and-halves : (a b : ℕ) → bit_and a b ≡ bit_and (a / 2) (b / 2) * 2 + min (a % 2) (b % 2)
bit_and-halves zero b = simp bit_and-bitwise (omega arith)
bit_and-halves (suc a) b =
    let half = suc a / 2 in
    let same = digits_enough (λ _. 0) min a half half (b / 2) (le_refl _) (omega arith) in
    simp bit_and-bitwise (omega (arith, same))

bit_or-halves : (a b : ℕ) → bit_or a b ≡ bit_or (a / 2) (b / 2) * 2 + max (a % 2) (b % 2)
bit_or-halves zero b = simp bit_or-bitwise (omega arith)
bit_or-halves (suc a) b =
    let half = suc a / 2 in
    let same = digits_enough (λ y. y) max a half half (b / 2) (le_refl _) (omega arith) in
    simp bit_or-bitwise (omega (arith, same))

bit_and-zero : (a n : ℕ) → a ≤ n → bit_and a 0 ≡ 0
bit_and-zero zero n le = refl
bit_and-zero (suc a) zero le = absurd (omega arith)
bit_and-zero (suc a) (suc n) le =
    omega (arith, bit_and-halves (suc a) 0, bit_and-zero (suc a / 2) n (omega arith))

bit_or-zero : (a n : ℕ) → a ≤ n → bit_or a 0 ≡ a
bit_or-zero zero n le = refl
bit_or-zero (suc a) zero le = absurd (omega arith)
bit_or-zero (suc a) (suc n) le =
    omega (arith, bit_or-halves (suc a) 0, bit_or-zero (suc a / 2) n (omega arith))

-- the number of `k` ones
abbrev ones : ℕ → ℕ
ones zero = 0
ones (suc k) = ones k * 2 + 1

double : (q k : ℕ) → q * 2 ^ suc k ≡ q * 2 ^ k * 2
double q k = omega (arith, ap (λ (w : ℕ). q * w) (pow-suc 2 k))

-- the lowest `k` bits of a number in two parts
bit_and-ones : (k high low : ℕ) → low < 2 ^ k → bit_and (high * 2 ^ k + low) (ones k) ≡ low
bit_and-ones zero high low fits = rw (bit_and-zero (high * 1 + low) _ (le_refl _)) (omega arith)
bit_and-ones (suc k) high low fits = ground (
  arith,
  bit_and-halves (high * 2 ^ suc k + low) (ones (suc k)),
  double high k,
  pow-suc 2 k,
  bit_and-ones k high (low / 2) (omega arith),
)

-- the bits above the lowest `k`
bit_and-above :
    (k high low mask : ℕ)
    → low < 2 ^ k
    → bit_and (high * 2 ^ k + low) (mask * 2 ^ k) ≡ bit_and high mask * 2 ^ k
bit_and-above zero high low mask fits = ground arith
bit_and-above (suc k) high low mask fits = ground (
  arith,
  bit_and-halves (high * 2 ^ suc k + low) (mask * 2 ^ suc k),
  double high k,
  double mask k,
  double (bit_and high mask) k,
  pow-suc 2 k,
  bit_and-above k high (low / 2) mask (omega arith),
)

-- `(high << k) | low` is a sum, where `low` has `k` bits
bit_or-sum : (k high low : ℕ) → low < 2 ^ k → bit_or (high * 2 ^ k) low ≡ high * 2 ^ k + low
bit_or-sum zero high low fits = ground (arith, bit_or-zero high high (le_refl _))
bit_or-sum (suc k) high low fits = ground (
  arith,
  bit_or-halves (high * 2 ^ suc k) low,
  double high k,
  pow-suc 2 k,
  bit_or-sum k high (low / 2) (omega arith),
)

bit_or-above : (k high mid : ℕ) → bit_or (high * 2 ^ k) (mid * 2 ^ k) ≡ bit_or high mid * 2 ^ k
bit_or-above zero high mid = ground arith
bit_or-above (suc k) high mid = ground (
  arith,
  bit_or-halves (high * 2 ^ suc k) (mid * 2 ^ suc k),
  double high k,
  double mid k,
  double (bit_or high mid) k,
  bit_or-above k high mid,
)

-- `a & 0xff` is the lowest byte
pub bit_and-byte : (a : ℕ) → bit_and a 255 ≡ a % 256
bit_and-byte a =
    let e : a / 256 * 2 ^ 8 + a % 256 ≡ a = omega arith in
    rw e at (bit_and-ones 8 (a / 256) (a % 256) (omega arith))

-- `a & (mask << 8)` is the mask on the bits above the lowest byte
pub bit_and-shift : (a mask : ℕ) → bit_and a (mask * 256) ≡ bit_and (a / 256) mask * 256
bit_and-shift a mask =
    let e : a / 256 * 2 ^ 8 + a % 256 ≡ a = omega arith in
    rw e at (bit_and-above 8 (a / 256) (a % 256) mask (omega arith))

-- `(r << 16) | (g << 8) | b` is a sum, where `g` and `b` are bytes
pub bit_or-bytes :
    (r g b : ℕ)
    → g < 256
    → b < 256
    → bit_or (bit_or (r * 65536) (g * 256)) b ≡ r * 65536 + g * 256 + b
bit_or-bytes r g b hg hb =
    let e : r * 256 * 2 ^ 8 ≡ r * 65536 = omega arith in
    let high = rw e at (bit_or-above 8 (r * 256) g) in
    rw (high, bit_or-sum 8 r g hg, bit_or-sum 8 (r * 256 + g) b hb) (omega arith)
