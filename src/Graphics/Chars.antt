-- ===== src/Graphics/Chars.antt =====
-- What the functions of src/graphics.c that draw and clear a character leave on the screen, as
-- `get_pixel` reads it.
use ras_pi_k.Base.{
  ℕ, zero, suc, ◌+◌, ◌-◌, ◌*◌, ◌%◌, ◌^◌, ◌<◌, ◌≤◌, ◌≡◌, refl, ◌∙◌, Bool, true, false, none, some,
  List, [], ◌∷◌, arith, ◌==◌, ◌&&◌, ltb, leb, if◌then◌else◌, Bool-cases, inl, inr, not, bit_and,
  get_or, length,
}
use native.Mathlib.Decide.{ℕ_discrete}
use ras_pi_k.Vffs.{u32}
use ras_pi_k.Klog.{screen_width, screen_height, font_size, char_size}
use ras_pi_k.Graphics.{
  Memory, Framebuffer, background, put_pixel, get_pixel, draw_row, draw_rows, clear_row, clear_rows,
  clear_char, draw_char,
}
use ras_pi_k.Graphics.Glyphs.{
  table_byte, glyph, copy_glyph-glyph, length-glyph, glyph-at, copy_glyph_high,
}
use ras_pi_k.Graphics.Pixels.{IsScreen, get_pixel-put_pixel}

-- whether a pixel lies in the `n` columns from `x` on, or the `n` lines from `y` on
abbrev pub within : ℕ → ℕ → ℕ → Bool
within x n p = leb x p && ltb p (x + n)

-- whether a pixel lies in the place of a character
abbrev pub in_place : ℕ → ℕ → ℕ → ℕ → Bool
in_place x y px py = within x char_size px && within y font_size py

-- the bit `j` of a line of a bitmap
abbrev pub bit_set : ℕ → ℕ → Bool
bit_set bits j = not (bit_and bits (2 ^ j) == 0)

-- the bit of a pixel in the bitmap of a byte
abbrev pub glyph_bit : ℕ → ℕ → ℕ → Bool
glyph_bit c i j = bit_set (table_byte (c * font_size + j)) i

-- A byte from 128 on has no bitmap in the table: `draw_char` reads past its end.
pub draw_char_outside :
    (qemu : Bool) (fb : Framebuffer) (x y c color : ℕ) (m : Memory)
    → 128 ≤ c
    → draw_char qemu fb x y c color m ≡ none
unfolding draw_char
draw_char_outside qemu fb x y c color m h = rw (copy_glyph_high c h) refl

module _ (qemu : Bool) (fb : Framebuffer) (screen : IsScreen fb) (px py : ℕ)
    (hx : px < screen_width) (hy : py < screen_height) where
  abbrev shown : Memory → ℕ
  shown m = get_pixel qemu fb px py m

  clear_row-pixel :
      (n j x y : ℕ) (m : Memory)
      → x + j + n ≤ screen_width
      → y < screen_height
      → shown (clear_row qemu fb n j x y m)
        ≡ (if (py == y) && within (x + j) n px then background else shown m)
  unfolding clear_row
  clear_row-pixel zero j x y m h low = ground arith
  clear_row-pixel (suc n) j x y m h low =
      let e : u32 (x + j) ≡ x + j = omega arith in
      let m' = put_pixel qemu fb (x + j) y background m in
      let put =
        get_pixel-put_pixel qemu fb screen (x + j) y px py background m (omega arith) low hx hy in
      rw e (clear_row-pixel n (j + 1) x y m' (omega arith) low ∙ rw put (ground arith))

  clear_rows-pixel :
      (n i x y : ℕ) (m : Memory)
      → x + char_size ≤ screen_width
      → y + i + n ≤ screen_height
      → shown (clear_rows qemu fb n i x y m)
        ≡ (if within x char_size px && within (y + i) n py then background else shown m)
  unfolding clear_rows
  clear_rows-pixel zero i x y m h low = ground arith
  clear_rows-pixel (suc n) i x y m h low =
      let e : u32 (y + i) ≡ y + i = omega arith in
      let m' = clear_row qemu fb char_size 0 x (y + i) m in
      let row = clear_row-pixel char_size 0 x (y + i) m (omega arith) (omega arith) in
      rw e (clear_rows-pixel n (i + 1) x y m' h (omega arith) ∙ rw row (ground arith))

  -- `clear_char` paints the place of a character, and nothing else.
  pub clear_char-pixel :
      (x y : ℕ) (m : Memory)
      → x + char_size ≤ screen_width
      → y + font_size ≤ screen_height
      → shown (clear_char qemu fb x y m) ≡ (if in_place x y px py then background else shown m)
  unfolding clear_char
  clear_char-pixel x y m h low = clear_rows-pixel font_size 0 x y m h (omega arith) ∙ ground arith

  draw_row-pixel :
      (n j x y bits color : ℕ) (m : Memory)
      → x + j + n ≤ screen_width
      → y < screen_height
      → shown (draw_row qemu fb n j x y bits color m) ≡ (
          if (py == y) && (within (x + j) n px && bit_set bits (px - x))
          then color % 2 ^ 24
          else shown m)
  unfolding draw_row
  draw_row-pixel zero j x y bits color m h low = ground arith
  draw_row-pixel (suc n) j x y bits color m h low =
      let e : u32 (x + j) ≡ x + j = omega arith in
      let next = draw_row-pixel n (j + 1) x y bits color in
      elim (Bool-cases (bit_set bits j)) [
        | inl set ↦
            let m' = put_pixel qemu fb (x + j) y color m in
            let put =
              get_pixel-put_pixel qemu fb screen (x + j) y px py color m (omega arith) low hx hy in
            let column : (px ≡ x + j) → bit_set bits (px - x) ≡ true = here x j bits set in
            rw (e, set) (next m' (omega arith) low ∙ rw put (ground arith))
        | inr clear ↦
            let column : (px ≡ x + j) → bit_set bits (px - x) ≡ false = here x j bits clear in
            rw clear (next m (omega arith) low ∙ ground arith)
      ]
    where
      here : (x j bits : ℕ) {b : Bool} → bit_set bits j ≡ b → px ≡ x + j → bit_set bits (px - x) ≡ b
      here x j bits at e = let i : px - x ≡ j = omega arith in rw i at

  draw_rows-pixel :
      (character : List ℕ) (i x y color : ℕ) (m : Memory)
      → x + char_size ≤ screen_width
      → y + i + length character ≤ screen_height
      → shown (draw_rows qemu fb character i x y color m) ≡ (
          if (within x char_size px && within (y + i) (length character) py)
            && bit_set (get_or character (py - (y + i)) 0) (px - x)
          then color % 2 ^ 24
          else shown m)
  unfolding draw_rows
  draw_rows-pixel [] i x y color m h low = ground arith
  draw_rows-pixel (bits ∷ character) i x y color m h low =
      let e : u32 (y + i) ≡ y + i = omega arith in
      let m' = draw_row qemu fb char_size 0 x (y + i) bits color m in
      let row = draw_row-pixel char_size 0 x (y + i) bits color m (omega arith) (omega arith) in
      let line : (py ≡ y + i) → get_or (bits ∷ character) (py - (y + i)) 0 ≡ bits =
        λ at. (let k : py - (y + i) ≡ 0 = omega arith in rw k refl) in
      let below : y + i < py
          → get_or (bits ∷ character) (py - (y + i)) 0 ≡ get_or character (py - (y + (i + 1))) 0 =
        λ lt. (let k : py - (y + i) ≡ suc (py - (y + (i + 1))) = omega arith in rw k refl) in
      rw e (
        draw_rows-pixel character (i + 1) x y color m' h (omega arith)
        ∙ rw row (one_line x y i bits color character m line below))
    where
      one_line :
          (x y i bits color : ℕ) (character : List ℕ) (m : Memory)
          → (py ≡ y + i → get_or (bits ∷ character) (py - (y + i)) 0 ≡ bits)
          → (y + i < py
              → get_or (bits ∷ character) (py - (y + i)) 0
                ≡ get_or character (py - (y + (i + 1))) 0)
          → (if within x char_size px
                && within (y + (i + 1)) (length character) py
                && bit_set (get_or character (py - (y + (i + 1))) 0) (px - x)
              then color % 2 ^ 24
              else if (py == y + i) && (within (x + 0) char_size px && bit_set bits (px - x))
              then color % 2 ^ 24
              else shown m)
            ≡ (if within x char_size px
                  && within (y + i) (suc (length character)) py
                  && bit_set (get_or (bits ∷ character) (py - (y + i)) 0) (px - x)
                then color % 2 ^ 24
                else shown m)
      one_line x y i bits color character m line below = elim (ℕ_discrete py (y + i)) [
        | yes e ↦ rw (line e) (ground arith)
        | no ne ↦ elim (Bool-cases (ltb (y + i) py)) [
          | inl lt ↦ rw (below (ground arith)) (ground arith)
          | inr ge ↦ ground arith
        ]
      ]

  -- `draw_char` of a byte below 128: the pixels of the place that are set in the byte's bitmap in
  -- the table get the colour, and all others stay.
  pub draw_char-pixel :
      (x y c color : ℕ) (m : Memory)
      → c < 128
      → x + char_size ≤ screen_width
      → y + font_size ≤ screen_height
      → (m' : Memory) × (draw_char qemu fb x y c color m ≡ some m')
        × (shown m' ≡ (
            if in_place x y px py && glyph_bit c (px - x) (py - y)
            then color % 2 ^ 24
            else shown m))
  unfolding draw_char
  draw_char-pixel x y c color m small h low =
      let character = glyph font_size 0 c in
      let len = length-glyph font_size 0 c in
      let drawn = draw_rows-pixel character 0 x y color m h (omega (arith, len)) in
      let bits : within y font_size py ≡ true
          → get_or character (py - (y + 0)) 0 ≡ table_byte (c * font_size + (py - y)) =
        λ line.
          (let e : py - (y + 0) ≡ py - y = omega arith in
            let e' : 0 + (py - y) ≡ py - y = omega arith in
            rw e (rw e' at (glyph-at font_size 0 c (py - y) (ground arith)))) in
      (
        draw_rows qemu fb character 0 x y color m,
        rw (copy_glyph-glyph font_size 0 c (omega arith)) refl,
        drawn
            ∙ rw len (
                one_place x y color (glyph_bit c (px - x) (py - y)) _ m
                  (λ line. rw (bits line) refl)),
      )
    where
      one_place :
          (x y color : ℕ) (bit bit' : Bool) (m : Memory)
          → (within y font_size py ≡ true → bit' ≡ bit)
          → (if within x char_size px && within (y + 0) font_size py && bit'
              then color % 2 ^ 24
              else shown m)
            ≡ (if in_place x y px py && bit then color % 2 ^ 24 else shown m)
      one_place x y color bit bit' m same = ground arith
