-- ===== src/Graphics/Copy.antt =====
-- What `copy_char` of src/graphics.c leaves on the screen.
use ras_pi_k.Base.{
  ℕ, zero, suc, ◌+◌, ◌-◌, ◌%◌, ◌^◌, ◌<◌, ◌≤◌, ◌≡◌, ◌≢◌, ◌∙◌, Bool, true, arith, ◌==◌, ◌&&◌,
  if◌then◌else◌,
}
use native.Mathlib.Decide.{ℕ_discrete}
use ras_pi_k.Vffs.{u32}
use ras_pi_k.Klog.{screen_width, screen_height, font_size, char_size}
use ras_pi_k.Graphics.{Memory, Framebuffer, put_pixel, get_pixel, copy_row, copy_rows, copy_char}
use ras_pi_k.Graphics.Pixels.{IsScreen, get_pixel-put_pixel, get_pixel-lt}
use ras_pi_k.Graphics.Chars.{within, in_place}

module _ (qemu : Bool) (fb : Framebuffer) (screen : IsScreen fb) (px py : ℕ)
    (hx : px < screen_width) (hy : py < screen_height) where
  abbrev shown : Memory → ℕ
  shown m = get_pixel qemu fb px py m

  copy_row-pixel :
      (n j x₁ y₁ x₂ y₂ : ℕ) (m : Memory)
      → x₁ + j + n ≤ screen_width
      → x₂ + j + n ≤ screen_width
      → y₁ < screen_height
      → y₂ < screen_height
      → y₁ ≢ y₂
      → shown (copy_row qemu fb n j x₁ y₁ x₂ y₂ m) ≡ (
          if (py == y₂) && within (x₂ + j) n px
          then get_pixel qemu fb (x₁ + (px - x₂)) y₁ m
          else shown m)
  unfolding copy_row
  copy_row-pixel zero j x₁ y₁ x₂ y₂ m h h' low low' ne = ground arith
  copy_row-pixel (suc n) j x₁ y₁ x₂ y₂ m h h' low low' ne =
      let e₁ : u32 (x₁ + j) ≡ x₁ + j = omega arith in
      let e₂ : u32 (x₂ + j) ≡ x₂ + j = omega arith in
      let color = get_pixel qemu fb (x₁ + j) y₁ m in
      let m' = put_pixel qemu fb (x₂ + j) y₂ color m in
      let put =
        get_pixel-put_pixel qemu fb screen (x₂ + j) y₂ px py color m (omega arith) low' hx hy in
      let source : within (x₂ + j) (suc n) px ≡ true
          → get_pixel qemu fb (x₁ + (px - x₂)) y₁ m' ≡ get_pixel qemu fb (x₁ + (px - x₂)) y₁ m =
        λ at.
          (let lt : px < x₂ + j + suc n = ground arith in
            let still =
              get_pixel-put_pixel qemu fb screen (x₂ + j) y₂ (x₁ + (px - x₂)) y₁ color m
                (omega arith) low' (ground arith) low in
            still ∙ ground arith) in
      rw (e₁, e₂)
        (copy_row-pixel n (j + 1) x₁ y₁ x₂ y₂ m' (omega arith) (omega arith) low low' ne
          ∙ rw put
              (one_column x₁ y₁ x₂ y₂ n j m m' source (get_pixel-lt qemu fb screen (x₁ + j) y₁ m)))
    where
      one_column :
          (x₁ y₁ x₂ y₂ n j : ℕ) (m m' : Memory)
          → (within (x₂ + j) (suc n) px ≡ true
              → get_pixel qemu fb (x₁ + (px - x₂)) y₁ m' ≡ get_pixel qemu fb (x₁ + (px - x₂)) y₁ m)
          → get_pixel qemu fb (x₁ + j) y₁ m < 2 ^ 24
          → (if (py == y₂) && within (x₂ + (j + 1)) n px
              then get_pixel qemu fb (x₁ + (px - x₂)) y₁ m'
              else if (px == x₂ + j) && (py == y₂)
              then get_pixel qemu fb (x₁ + j) y₁ m % 2 ^ 24
              else shown m)
            ≡ (if (py == y₂) && within (x₂ + j) (suc n) px
                then get_pixel qemu fb (x₁ + (px - x₂)) y₁ m
                else shown m)
      one_column x₁ y₁ x₂ y₂ n j m m' source small = elim (ℕ_discrete px (x₂ + j)) [
        | yes e ↦ let k : px - x₂ ≡ j = omega arith in rw k (ground arith)
        | no ne ↦ ground arith
      ]

module _ (qemu : Bool) (fb : Framebuffer) (screen : IsScreen fb) (px py : ℕ)
    (hx : px < screen_width) (hy : py < screen_height) where
  copy_rows-pixel :
      (n i x₁ y₁ x₂ y₂ : ℕ) (m : Memory)
      → x₁ + char_size ≤ screen_width
      → x₂ + char_size ≤ screen_width
      → y₁ + i + n ≤ screen_height
      → y₂ + i + n ≤ y₁
      → get_pixel qemu fb px py (copy_rows qemu fb n i x₁ y₁ x₂ y₂ m) ≡ (
          if within x₂ char_size px && within (y₂ + i) n py
          then get_pixel qemu fb (x₁ + (px - x₂)) (y₁ + (py - y₂)) m
          else get_pixel qemu fb px py m)
  unfolding copy_rows
  copy_rows-pixel zero i x₁ y₁ x₂ y₂ m h h' low up = ground arith
  copy_rows-pixel (suc n) i x₁ y₁ x₂ y₂ m h h' low up =
      let e₁ : u32 (y₁ + i) ≡ y₁ + i = omega arith in
      let e₂ : u32 (y₂ + i) ≡ y₂ + i = omega arith in
      let m' = copy_row qemu fb char_size 0 x₁ (y₁ + i) x₂ (y₂ + i) m in
      let at = copy_row-pixel qemu fb screen in
      let row =
        at px py hx hy char_size 0 x₁ (y₁ + i) x₂ (y₂ + i) m (omega arith) (omega arith)
          (omega arith) (omega arith) (λ e. omega arith) in
      let source : within x₂ char_size px ≡ true
          → within (y₂ + i) (suc n) py ≡ true
          → get_pixel qemu fb (x₁ + (px - x₂)) (y₁ + (py - y₂)) m'
            ≡ get_pixel qemu fb (x₁ + (px - x₂)) (y₁ + (py - y₂)) m =
        λ column line.
          at (x₁ + (px - x₂)) (y₁ + (py - y₂)) (ground arith) (ground arith) char_size 0 x₁ (y₁ + i)
            x₂ (y₂ + i) m (omega arith) (omega arith) (omega arith) (omega arith) (λ e. omega arith)
          ∙ ground arith in
      rw (e₁, e₂)
        (copy_rows-pixel n (i + 1) x₁ y₁ x₂ y₂ m' h h' (omega arith) (omega arith)
          ∙ rw row (one_line n i x₁ y₁ x₂ y₂ m m' source))
    where
      one_line :
          (n i x₁ y₁ x₂ y₂ : ℕ) (m m' : Memory)
          → (within x₂ char_size px ≡ true
              → within (y₂ + i) (suc n) py ≡ true
              → get_pixel qemu fb (x₁ + (px - x₂)) (y₁ + (py - y₂)) m'
                ≡ get_pixel qemu fb (x₁ + (px - x₂)) (y₁ + (py - y₂)) m)
          → (if within x₂ char_size px && within (y₂ + (i + 1)) n py
              then get_pixel qemu fb (x₁ + (px - x₂)) (y₁ + (py - y₂)) m'
              else if (py == y₂ + i) && within (x₂ + 0) char_size px
              then get_pixel qemu fb (x₁ + (px - x₂)) (y₁ + i) m
              else get_pixel qemu fb px py m)
            ≡ (if within x₂ char_size px && within (y₂ + i) (suc n) py
                then get_pixel qemu fb (x₁ + (px - x₂)) (y₁ + (py - y₂)) m
                else get_pixel qemu fb px py m)
      one_line n i x₁ y₁ x₂ y₂ m m' source = elim (ℕ_discrete py (y₂ + i)) [
        | yes e ↦ let k : py - y₂ ≡ i = omega arith in rw k (ground arith)
        | no ne ↦ ground arith
      ]

  -- `copy_char` of a place to one above it: the pixels there become those of the place, and all
  -- others stay.
  pub copy_char-pixel :
      (x₁ y₁ x₂ y₂ : ℕ) (m : Memory)
      → x₁ + char_size ≤ screen_width
      → x₂ + char_size ≤ screen_width
      → y₁ + font_size ≤ screen_height
      → y₂ + font_size ≤ y₁
      → get_pixel qemu fb px py (copy_char qemu fb x₁ y₁ x₂ y₂ m) ≡ (
          if in_place x₂ y₂ px py
          then get_pixel qemu fb (x₁ + (px - x₂)) (y₁ + (py - y₂)) m
          else get_pixel qemu fb px py m)
  unfolding copy_char
  copy_char-pixel x₁ y₁ x₂ y₂ m h h' low up =
      copy_rows-pixel font_size 0 x₁ y₁ x₂ y₂ m h h' (omega arith) (omega arith) ∙ ground arith
