-- ===== src/Strings/Hex.antt =====
-- `uint32_to_hex` of src/utils.c.
use ras_pi_k.Base.{
  ℕ, zero, suc, ◌+◌, ◌-◌, ◌*◌, ◌/◌, ◌%◌, ◌^◌, ◌<◌, ◌≡◌, refl, ap, ◌∙◌, List, [], ◌∷◌, ◌++◌, arith,
  leb, if◌then◌else◌, length,
}
use native.Mathlib.Nat.{pow-suc}
use ras_pi_k.Strings.{hex_char, uint32_to_hex}

-- what a hexadecimal digit stands for
unfoldable pub hex_value : ℕ → ℕ
hex_value c = if leb b'a' c then c + 10 - b'a' else c - b'0'

-- the number that a string of hexadecimal digits stands for, after those read into `acc`
unfoldable pub read_hex : ℕ → List ℕ → ℕ
read_hex acc [] = acc
read_hex acc (c ∷ cs) = read_hex (16 * acc + hex_value c) cs

hex_value-hex_char : (d : ℕ) → d < 16 → hex_value (hex_char d) ≡ d
unfolding hex_value hex_char
hex_value-hex_char d h = ground arith

-- the character of the lowest four bits
abbrev nibble : ℕ → ℕ
nibble v = hex_char (v % 16)

read_hex-nibble :
    (acc v : ℕ) (cs : List ℕ) → read_hex acc (nibble v ∷ cs) ≡ read_hex (16 * acc + v % 16) cs
unfolding read_hex
read_hex-nibble acc v cs = rw (hex_value-hex_char (v % 16) (omega arith))

abbrev nibbles : ℕ → ℕ → List ℕ → List ℕ
nibbles zero v cs = cs
nibbles (suc n) v cs = nibbles n (v / 16) (nibble v ∷ cs)

read_hex-nibbles :
    (n v : ℕ) (cs : List ℕ) → v < 16 ^ n → read_hex 0 (nibbles n v cs) ≡ read_hex v cs
read_hex-nibbles zero v cs h = ap (λ k. read_hex k cs) (omega arith)
read_hex-nibbles (suc n) v cs h =
    read_hex-nibbles n (v / 16) (nibble v ∷ cs) (omega (arith, pow-suc 16 n))
    ∙ read_hex-nibble (v / 16) v cs
    ∙ ap (λ k. read_hex k cs) (omega arith)

-- In a buffer of 11 bytes, whatever it holds, `uint32_to_hex` writes `0x`, eight digits that read
-- back to the value, and the terminator.
pub uint32_to_hex-read :
    (val : ℕ) (buf : List ℕ)
    → val < 2 ^ 32
    → length buf ≡ 11
    → (digits : List ℕ) × (uint32_to_hex val buf ≡ b'0' ∷ (b'x' ∷ (digits ++ (0 ∷ []))))
      × (length digits ≡ 8)
      × (read_hex 0 digits ≡ val)
unfolding uint32_to_hex
uint32_to_hex-read val (b0 ∷ b1 ∷ b2 ∷ b3 ∷ b4 ∷ b5 ∷ b6 ∷ b7 ∷ b8 ∷ b9 ∷ b10 ∷ []) h e =
    (nibbles 8 val [], refl, refl, read_hex-nibbles 8 val [] h ∙ unfold read_hex in refl)
uint32_to_hex-read val buf h e = absurd (omega arith)
