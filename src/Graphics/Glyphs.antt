-- ===== src/Graphics/Glyphs.antt =====
-- What `draw_char` of src/graphics.c copies of the table `fonts`.
use ras_pi_k.Base.{
  ℕ, zero, suc, ◌+◌, ◌-◌, ◌*◌, ◌/◌, ◌%◌, ◌^◌, ◌<◌, ◌≤◌, ◌≡◌, refl, true, false, none, some, List,
  [], ◌∷◌, arith, ltb, Bool-cases, inl, inr, get_or, length,
}
use ras_pi_k.Klog.{font_size}
use ras_pi_k.Graphics.{copy_glyph}
use ras_pi_k.Graphics.Font.{fonts_size, fonts, font_byte}

-- the byte of an index inside the table
abbrev pub table_byte : ℕ → ℕ
table_byte i = get_or fonts (i / 16) 0 / 256 ^ (15 - i % 16) % 256

-- the `n` bytes of a character from line `i` on
pub glyph : ℕ → ℕ → ℕ → List ℕ
glyph zero i c = []
glyph (suc n) i c = table_byte (c * font_size + i) ∷ glyph n (i + 1) c

font_byte-inside : (i : ℕ) → i < fonts_size → font_byte i ≡ some (table_byte i)
unfolding font_byte
font_byte-inside i h = let inside : ltb i fonts_size ≡ true = ground arith in rw inside refl

font_byte_outside : (i : ℕ) → fonts_size ≤ i → font_byte i ≡ none
unfolding font_byte
font_byte_outside i h = let outside : ltb i fonts_size ≡ false = ground arith in rw outside refl

pub copy_glyph-glyph :
    (n i c : ℕ) → c * font_size + i + n ≤ fonts_size → copy_glyph n i c ≡ some (glyph n i c)
unfolding copy_glyph glyph
copy_glyph-glyph zero i c h = refl
copy_glyph-glyph (suc n) i c h =
    rw
      (
        font_byte-inside (c * font_size + i) (omega arith),
        copy_glyph-glyph n (i + 1) c (omega arith),
      )
      refl

pub length-glyph : (n i c : ℕ) → length (glyph n i c) ≡ n
unfolding glyph
length-glyph zero i c = refl
length-glyph (suc n) i c = rw (length-glyph n (i + 1) c) refl

pub glyph-at :
    (n i c j : ℕ) → j < n → get_or (glyph n i c) j 0 ≡ table_byte (c * font_size + (i + j))
unfolding glyph
glyph-at zero i c j h = absurd (omega arith)
glyph-at (suc n) i c zero h =
    let e : c * font_size + (i + 0) ≡ c * font_size + i = omega arith in rw e refl
glyph-at (suc n) i c (suc j) h =
    let e : c * font_size + (i + suc j) ≡ c * font_size + (i + 1 + j) = omega arith in
    rw e (glyph-at n (i + 1) c j (omega arith))

copy_glyph_outside :
    (n i c : ℕ) → 0 < n → fonts_size < c * font_size + i + n → copy_glyph n i c ≡ none
unfolding copy_glyph
copy_glyph_outside zero i c some_left h = absurd (omega arith)
copy_glyph_outside (suc n) i c some_left h =
    elim (Bool-cases (ltb (c * font_size + i) fonts_size)) [
      | inl inside ↦
          let lt : c * font_size + i < fonts_size = ground arith in
          let rest = copy_glyph_outside n (i + 1) c (omega arith) (omega arith) in
          rw (font_byte-inside (c * font_size + i) lt, rest) refl
      | inr outside ↦ rw (font_byte_outside (c * font_size + i) (ground arith)) refl
    ]

-- The table has the bitmaps of the bytes below 128, and of no other.
pub copy_glyph_high : (c : ℕ) → 128 ≤ c → copy_glyph font_size 0 c ≡ none
copy_glyph_high c h = copy_glyph_outside font_size 0 c (omega arith) (omega arith)
