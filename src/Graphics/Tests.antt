-- ===== src/Graphics/Tests.antt =====
-- The theorems about the frame buffer of src/graphics.c at a screen whose lines follow one another.
use ras_pi_k.Base.{
  ℕ, ◌+◌, ◌-◌, ◌*◌, ◌%◌, ◌^◌, ◌<◌, ◌≡◌, refl, false, none, some, arith, ◌&&◌, if◌then◌else◌,
}
use ras_pi_k.Klog.{
  nbcol, nblin, margin_size, screen_width, screen_height, font_size, char_size, white, Console,
  scroll,
}
use ras_pi_k.Graphics.{Memory, Framebuffer, background, screen_depth, get_pixel, draw_char}
use ras_pi_k.Graphics.Pixels.{IsScreen}
use ras_pi_k.Graphics.Chars.{within, in_place, glyph_bit, draw_char-pixel, draw_char_outside}
use ras_pi_k.Graphics.Run.{run_calls}
use ras_pi_k.Graphics.Scroll.{scroll-up}

abbrev fb : Framebuffer
fb = record {
  width = screen_width;
  height = screen_height;
  v_width = screen_width;
  v_height = screen_height;
  pitch = 2400;
  depth = screen_depth;
  x_off = 0;
  y_off = 0;
  ptr = 0x1c100000;
  size = 1440000;
}

screen : IsScreen fb
screen = record { lines = omega arith; fits = omega arith }

abbrev memory : Memory
memory a = a % 251

abbrev console : Console
console = record { x = 0; y = 35; margin = margin_size }

draw_char-pixel_example :
    (m' : Memory) × (draw_char false fb 10 10 65 white memory ≡ some m')
    × (get_pixel false fb 14 13 m' ≡ (
        if in_place 10 10 14 13 && glyph_bit 65 4 3
        then white % 2 ^ 24
        else get_pixel false fb 14 13 memory))
draw_char-pixel_example =
    draw_char-pixel false fb screen 14 13 (omega arith) (omega arith) 10 10 65 white memory
      (omega arith) (omega arith) (omega arith)

draw_char_outside_example : draw_char false fb 10 10 200 white memory ≡ none
draw_char_outside_example = draw_char_outside false fb 10 10 200 white memory (omega arith)

scroll-up_example :
    (m' : Memory) × (run_calls false fb (scroll console) memory ≡ some m')
    × ((px py : ℕ)
        → px < screen_width
        → py < screen_height
        → get_pixel false fb px py m' ≡ (
            if within margin_size (nbcol * char_size) px
            then if within margin_size ((nblin - 1) * font_size) py
              then get_pixel false fb px (py + font_size) memory
              else if within (margin_size + (nblin - 1) * font_size) font_size py
              then background
              else get_pixel false fb px py memory
            else get_pixel false fb px py memory))
scroll-up_example = scroll-up false fb screen console refl memory (omega arith)
