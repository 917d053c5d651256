-- ===== src/Graphics.antt =====
-- The frame buffer of src/graphics.c: `put_pixel`, `get_pixel`, `draw_char`, `clear_char` and
-- `copy_char`, on a memory of bytes. `qemu` says whether the kernel is built with `QEMU`, which
-- changes the order of the colours.
pub mod Font
pub mod Pixels
pub mod Glyphs
pub mod Chars
pub mod Copy
pub mod Run
pub mod Column
pub mod Scroll
pub mod Init
mod Tests
use ras_pi_k.Base.{
  ℕ, zero, suc, ◌+◌, ◌-◌, ◌*◌, ◌/◌, ◌%◌, ◌^◌, Bool, true, false, not, Option, none, some, List, [],
  ◌∷◌, ◌==◌, if◌then◌else◌, bit_and, bit_or,
}
use ras_pi_k.Store.{Ptr, update}
use ras_pi_k.Vffs.{u32}
use ras_pi_k.Klog.{screen_width, screen_height, font_size, char_size, black}
use mathlib.Core.Option
use Font.{font_byte}

abbrev pub Memory : Type 0
Memory = Ptr → ℕ

abbrev pub screen_depth : ℕ
screen_depth = 24

abbrev pub arm_bus_addr : ℕ
arm_bus_addr = 0x40000000

abbrev pub background : ℕ
background = black

-- `s_color`
pub record Color : Type 0 where
  pub r : ℕ
  pub g : ℕ
  pub b : ℕ

-- `s_fb`
pub record Framebuffer : Type 0 where
  pub width : ℕ
  pub height : ℕ
  pub v_width : ℕ
  pub v_height : ℕ
  pub pitch : ℕ
  pub depth : ℕ
  pub x_off : ℕ
  pub y_off : ℕ
  pub ptr : ℕ
  pub size : ℕ

-- a number as an `uint8_t`
abbrev pub u8 : ℕ → ℕ
u8 n = n % 256

unfoldable pub hex_to_rgb : ℕ → Color
hex_to_rgb color = record {
  r = u8 (bit_and color 0xff0000 / 2 ^ 16);
  g = u8 (bit_and color 0x00ff00 / 2 ^ 8);
  b = u8 (bit_and color 0x0000ff);
}

unfoldable pub rgb_to_hex : Color → ℕ
rgb_to_hex c = bit_or (bit_or (c.r * 2 ^ 16) (c.g * 2 ^ 8)) c.b

abbrev pub and_byte : Option ℕ → Option (List ℕ) → Option (List ℕ)
and_byte none bytes = none
and_byte (some byte) none = none
and_byte (some byte) (some bytes) = some (byte ∷ bytes)

-- `for (int i = 0; i < FONT_SIZE; i++) character[i] = fonts[(c * FONT_SIZE) + i];`, from `i` on
-- with `n` left
unfoldable pub copy_glyph : ℕ → ℕ → ℕ → Option (List ℕ)
copy_glyph zero i c = some []
copy_glyph (suc n) i c =
    let rest = copy_glyph n (i + 1) c in and_byte (font_byte (c * font_size + i)) rest

module _ (qemu : Bool) (fb : Framebuffer) where
  -- `framebuffer->ptr + offset + i`, of the pixel at `x` and `y`
  abbrev pub pixel_byte : ℕ → ℕ → ℕ → Ptr
  pixel_byte x y i = u32 (fb.ptr + u32 (y * fb.pitch + x * 3) + i)

  unfoldable pub put_pixel : ℕ → ℕ → ℕ → Memory → Memory
  unfolding hex_to_rgb
  put_pixel x y color m =
      let rgb = hex_to_rgb color in
      let m₁ = update m (pixel_byte x y 0) (if qemu then rgb.r else rgb.b) in
      let m₂ = update m₁ (pixel_byte x y 1) rgb.g in
      update m₂ (pixel_byte x y 2) (if qemu then rgb.b else rgb.r)

  unfoldable pub get_pixel : ℕ → ℕ → Memory → ℕ
  unfolding rgb_to_hex
  get_pixel x y m = rgb_to_hex (record {
    r = u8 (m (pixel_byte x y (if qemu then 0 else 2)));
    g = u8 (m (pixel_byte x y 1));
    b = u8 (m (pixel_byte x y (if qemu then 2 else 0)));
  })

  -- the inner loop of `draw_char`, from bit `j` on with `n` left
  unfoldable pub draw_row : ℕ → ℕ → ℕ → ℕ → ℕ → ℕ → Memory → Memory
  draw_row zero j x y bits color m = m
  draw_row (suc n) j x y bits color m =
      draw_row n (j + 1) x y bits color
        (if not (bit_and bits (2 ^ j) == 0) then put_pixel (u32 (x + j)) y color m else m)

  -- the outer loop, for the lines of the bitmap from `i` on
  unfoldable pub draw_rows : List ℕ → ℕ → ℕ → ℕ → ℕ → Memory → Memory
  draw_rows [] i x y color m = m
  draw_rows (bits ∷ character) i x y color m =
      draw_rows character (i + 1) x y color (draw_row char_size 0 x (u32 (y + i)) bits color m)

  -- none where a byte is read that is not of the table
  unfoldable pub draw_char : ℕ → ℕ → ℕ → ℕ → Memory → Option Memory
  draw_char x y c color m =
      Option.map (λ character. draw_rows character 0 x y color m) (copy_glyph font_size 0 c)

  -- the inner and the outer loop of `clear_char`, with `n` rounds left
  unfoldable pub clear_row : ℕ → ℕ → ℕ → ℕ → Memory → Memory
  clear_row zero j x y m = m
  clear_row (suc n) j x y m = clear_row n (j + 1) x y (put_pixel (u32 (x + j)) y background m)

  unfoldable pub clear_rows : ℕ → ℕ → ℕ → ℕ → Memory → Memory
  clear_rows zero i x y m = m
  clear_rows (suc n) i x y m = clear_rows n (i + 1) x y (clear_row char_size 0 x (u32 (y + i)) m)

  unfoldable pub clear_char : ℕ → ℕ → Memory → Memory
  clear_char x y m = clear_rows font_size 0 x y m

  -- the inner and the outer loop of `copy_char`, with `n` rounds left
  unfoldable pub copy_row : ℕ → ℕ → ℕ → ℕ → ℕ → ℕ → Memory → Memory
  copy_row zero j x₁ y₁ x₂ y₂ m = m
  copy_row (suc n) j x₁ y₁ x₂ y₂ m =
      copy_row n (j + 1) x₁ y₁ x₂ y₂ (put_pixel (u32 (x₂ + j)) y₂ (get_pixel (u32 (x₁ + j)) y₁ m) m)

  unfoldable pub copy_rows : ℕ → ℕ → ℕ → ℕ → ℕ → ℕ → Memory → Memory
  copy_rows zero i x₁ y₁ x₂ y₂ m = m
  copy_rows (suc n) i x₁ y₁ x₂ y₂ m =
      copy_rows n (i + 1) x₁ y₁ x₂ y₂ (copy_row char_size 0 x₁ (u32 (y₁ + i)) x₂ (u32 (y₂ + i)) m)

  unfoldable pub copy_char : ℕ → ℕ → ℕ → ℕ → Memory → Memory
  copy_char x₁ y₁ x₂ y₂ m = copy_rows font_size 0 x₁ y₁ x₂ y₂ m
