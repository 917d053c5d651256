-- ===== src/Graphics/Pixels.antt =====
-- What `get_pixel` of src/graphics.c reads after the functions that draw.
use ras_pi_k.Base.{
  ℕ, ◌+◌, ◌*◌, ◌/◌, ◌%◌, ◌^◌, ◌<◌, ◌≤◌, ◌≡◌, ◌≢◌, refl, ◌∙◌, Bool, arith, ◌==◌, ◌&&◌, if◌then◌else◌,
  Bool-cases, inl, inr, bit_and-byte, bit_and-shift, bit_or-bytes,
}
use ras_pi_k.Store.{Ptr, update}
use ras_pi_k.Klog.{screen_width, screen_height}
use ras_pi_k.Graphics.{
  Memory, Color, Framebuffer, u8, hex_to_rgb, rgb_to_hex, pixel_byte, put_pixel, get_pixel,
}

-- The pixels of the screen have three bytes each in the memory that an address can name.
pub record IsScreen (fb : Framebuffer) : Type 0 where
  pub lines : screen_width * 3 ≤ fb.pitch
  pub fits : fb.ptr + screen_height * fb.pitch ≤ 2 ^ 32

-- The colours of a number of 24 bits make the number.
pub hex_to_rgb-bytes :
    (color : ℕ)
    → ((hex_to_rgb color).r ≡ color / 65536 % 256)
      × ((hex_to_rgb color).g ≡ color / 256 % 256)
      × ((hex_to_rgb color).b ≡ color % 256)
unfolding hex_to_rgb
hex_to_rgb-bytes color =
    let high = bit_and-shift color 65280 in
    let red = bit_and-shift (color / 256) 255 in
    let green = bit_and-shift color 255 in
    (
      ground (arith, high, red, bit_and-byte (color / 256 / 256)),
      ground (arith, green, bit_and-byte (color / 256)),
      ground (arith, bit_and-byte color),
    )

pub rgb_to_hex-sum :
    (c : Color) → c.g < 256 → c.b < 256 → rgb_to_hex c ≡ c.r * 65536 + c.g * 256 + c.b
unfolding rgb_to_hex
rgb_to_hex-sum c g b = bit_or-bytes c.r c.g c.b g b

-- what three stores leave at their places
stored :
    (m : Memory) (p₀ p₁ p₂ v₀ v₁ v₂ : ℕ)
    → p₀ ≢ p₁
    → p₀ ≢ p₂
    → p₁ ≢ p₂
    → let m' = update (update (update m p₀ v₀) p₁ v₁) p₂ v₂ in
      (m' p₀ ≡ v₀) × (m' p₁ ≡ v₁) × (m' p₂ ≡ v₂)
stored m p₀ p₁ p₂ v₀ v₁ v₂ n₀₁ n₀₂ n₁₂ = (ground arith, ground arith, ground arith)

module _ (qemu : Bool) (fb : Framebuffer) (screen : IsScreen fb) where
  -- lines below one another
  lines_apart : (y y' : ℕ) → y < y' → y * fb.pitch + fb.pitch ≤ y' * fb.pitch
  lines_apart y y' lt = grind arith

  pixel_byte-sum :
      (x y i : ℕ)
      → x < screen_width
      → y < screen_height
      → i < 3
      → (pixel_byte qemu fb x y i ≡ fb.ptr + y * fb.pitch + x * 3 + i)
        × (y * fb.pitch + x * 3 + i < screen_height * fb.pitch)
  pixel_byte-sum x y i hx hy hi =
      let apart = lines_apart y screen_height hy in
      let lines = screen.lines in let fits = screen.fits in ground arith

  pixel_byte-distinct :
      (x y i x' y' i' : ℕ)
      → x < screen_width
      → y < screen_height
      → i < 3
      → x' < screen_width
      → y' < screen_height
      → i' < 3
      → pixel_byte qemu fb x y i ≡ pixel_byte qemu fb x' y' i'
      → (x ≡ x') × (y ≡ y') × (i ≡ i')
  pixel_byte-distinct x y i x' y' i' hx hy hi hx' hy' hi' e =
      let lines = screen.lines in
      let (here, _) = pixel_byte-sum x y i hx hy hi in
      let (there, _) = pixel_byte-sum x' y' i' hx' hy' hi' in
      let below = lines_apart y y' in let above = lines_apart y' y in ground arith

  bytes_apart :
      (x y i j : ℕ)
      → x < screen_width
      → y < screen_height
      → i < j
      → j < 3
      → pixel_byte qemu fb x y i ≢ pixel_byte qemu fb x y j
  bytes_apart x y i j hx hy lt hj e =
      let same = pixel_byte-distinct x y i x y j hx hy (omega arith) hx hy hj e in
      absurd (ground arith)

  -- the pixel of three bytes
  get_pixel-bytes :
      (x y r g b : ℕ) (m : Memory)
      → m (pixel_byte qemu fb x y (if qemu then 0 else 2)) ≡ r % 256
      → m (pixel_byte qemu fb x y 1) ≡ g % 256
      → m (pixel_byte qemu fb x y (if qemu then 2 else 0)) ≡ b % 256
      → get_pixel qemu fb x y m ≡ r % 256 * 65536 + g % 256 * 256 + b % 256
  unfolding get_pixel
  get_pixel-bytes x y r g b m er eg eb =
      let color : Color = record { r = r % 256 % 256; g = g % 256 % 256; b = b % 256 % 256 } in
      rw (er, eg, eb) (omega (arith, rgb_to_hex-sum color (omega arith) (omega arith)))

  -- A pixel has 24 bits.
  pub get_pixel-lt : (x y : ℕ) (m : Memory) → get_pixel qemu fb x y m < 2 ^ 24
  unfolding get_pixel
  get_pixel-lt x y m =
      let color : Color = record {
        r = u8 (m (pixel_byte qemu fb x y (if qemu then 0 else 2)));
        g = u8 (m (pixel_byte qemu fb x y 1));
        b = u8 (m (pixel_byte qemu fb x y (if qemu then 2 else 0)));
      } in
      omega (arith, rgb_to_hex-sum color (omega arith) (omega arith))

  -- `get_pixel` reads the three bytes of its pixel.
  get_pixel-agree :
      (x y : ℕ) (m m' : Memory)
      → ((i : ℕ) → i < 3 → m (pixel_byte qemu fb x y i) ≡ m' (pixel_byte qemu fb x y i))
      → get_pixel qemu fb x y m ≡ get_pixel qemu fb x y m'
  unfolding get_pixel
  get_pixel-agree x y m m' same = elim (Bool-cases qemu) [
    | inl e ↦ rw (e, same 0 (omega arith), same 1 (omega arith), same 2 (omega arith)) refl
    | inr e ↦ rw (e, same 0 (omega arith), same 1 (omega arith), same 2 (omega arith)) refl
  ]

  -- the bytes of a pixel after `put_pixel`
  put_pixel-here :
      (x y color : ℕ) (m : Memory)
      → x < screen_width
      → y < screen_height
      → get_pixel qemu fb x y (put_pixel qemu fb x y color m) ≡ color % 2 ^ 24
  unfolding put_pixel
  put_pixel-here x y color m hx hy =
      let at = pixel_byte qemu fb x y in
      let rgb = hex_to_rgb color in
      let (r, g, b) = hex_to_rgb-bytes color in
      let (s₀, s₁, s₂) =
        stored m (at 0) (at 1) (at 2) (if qemu then rgb.r else rgb.b) rgb.g
          (if qemu then rgb.b else rgb.r) (bytes_apart x y 0 1 hx hy (omega arith) (omega arith))
          (bytes_apart x y 0 2 hx hy (omega arith) (omega arith))
          (bytes_apart x y 1 2 hx hy (omega arith) (omega arith)) in
      let m' = put_pixel qemu fb x y color m in
      let pixel = get_pixel-bytes x y (color / 65536) (color / 256) color m' in
      elim (Bool-cases qemu) [
        | inl e ↦ pixel (rw e (rw e at s₀ ∙ r)) (s₁ ∙ g) (rw e (rw e at s₂ ∙ b)) ∙ omega arith
        | inr e ↦ pixel (rw e (rw e at s₂ ∙ r)) (s₁ ∙ g) (rw e (rw e at s₀ ∙ b)) ∙ omega arith
      ]

  put_pixel-elsewhere :
      (x y color : ℕ) (m : Memory) (q : Ptr)
      → ((i : ℕ) → i < 3 → q ≢ pixel_byte qemu fb x y i)
      → put_pixel qemu fb x y color m q ≡ m q
  unfolding put_pixel
  put_pixel-elsewhere x y color m q off =
      let n₀ = off 0 (omega arith) in
      let n₁ = off 1 (omega arith) in let n₂ = off 2 (omega arith) in ground arith

  -- `get_pixel` after `put_pixel`: the pixel has the colour's 24 bits, and the others stay.
  pub get_pixel-put_pixel :
      (x y x' y' color : ℕ) (m : Memory)
      → x < screen_width
      → y < screen_height
      → x' < screen_width
      → y' < screen_height
      → get_pixel qemu fb x' y' (put_pixel qemu fb x y color m)
        ≡ (if (x' == x) && (y' == y) then color % 2 ^ 24 else get_pixel qemu fb x' y' m)
  get_pixel-put_pixel x y x' y' color m hx hy hx' hy' = elim (Bool-cases ((x' == x) && (y' == y))) [
    | inl same ↦
        let e : x' ≡ x = ground arith in
        let e' : y' ≡ y = ground arith in rw (same, e, e') (put_pixel-here x y color m hx hy)
    | inr other ↦ rw other (
        get_pixel-agree x' y' (put_pixel qemu fb x y color m) m (λ i h.
          put_pixel-elsewhere x y color m (pixel_byte qemu fb x' y' i) (λ j hj e.
            let same = pixel_byte-distinct x' y' i x y j hx' hy' h hx hy hj e in
            absurd (ground arith))))
  ]
