-- ===== src/Graphics/Column.antt =====
-- A column of `scroll` of src/klog.c on the screen: each place goes one line up, the last is
-- cleared.
use ras_pi_k.Base.{
  ℕ, zero, suc, ◌+◌, ◌-◌, ◌*◌, ◌<◌, ◌≤◌, ◌≡◌, refl, ◌∙◌, Bool, true, false, some, arith, ◌&&◌, ltb,
  if◌then◌else◌,
}
use ras_pi_k.Klog.{
  nbcol, nblin, margin_size, screen_width, screen_height, font_size, char_size, Console, left_of,
  top_of, scroll_column,
}
use ras_pi_k.Graphics.{Memory, Framebuffer, get_pixel, clear_char, copy_char}
use ras_pi_k.Graphics.Pixels.{IsScreen}
use ras_pi_k.Graphics.Chars.{within, clear_char-pixel}
use ras_pi_k.Graphics.Copy.{copy_char-pixel}
use ras_pi_k.Graphics.Run.{run_calls}

-- a place that is cleared, and one that is filled
two_places :
    (column line above : Bool) (source source' old : ℕ)
    → (column ≡ true → above ≡ true → source ≡ source')
    → (if column && line then 0 else if column && above then source else old)
      ≡ (if column then if line then 0 else if above then source' else old else old)
two_places true true above source source' old same = refl
two_places true false true source source' old same = same refl refl
two_places true false false source source' old same = refl
two_places false line above source source' old same = refl

-- a place above `n` others that went up; the first one is at `t`
one_more :
    (column : Bool) (n t py above above' old : ℕ)
    → (within (t + 16) (n * 16) py ≡ true → above' ≡ above)
    → let first =
        if column
        then if within (t + 16) 16 py then 0 else if within t 16 py then above else old
        else old in
      (if column
        then if within (t + 16) (n * 16) py
          then above'
          else if ltb 0 n && within (t + 16 + n * 16) 16 py
          then 0
          else first
        else first)
      ≡ (if column
          then if within t (suc n * 16) py
            then above
            else if ltb 0 (suc n) && within (t + 16 + n * 16) 16 py
            then 0
            else old
          else old)
one_more false n t py above above' old same = refl
one_more true zero t py above above' old same = ground arith
one_more true (suc n) t py above above' old same = ground arith

module _ (qemu : Bool) (fb : Framebuffer) (screen : IsScreen fb) (c : Console)
    (at_margin : c.margin ≡ margin_size) where
  -- the pixel of the screen
  abbrev pub shown : ℕ → ℕ → Memory → ℕ
  shown px py m = get_pixel qemu fb px py m

  -- what a run leaves at each pixel of the screen
  abbrev pub Leaves : Memory → (ℕ → ℕ → ℕ) → Type 0
  Leaves m' pixel =
      (px py : ℕ) → px < screen_width → py < screen_height → shown px py m' ≡ pixel px py

  -- a place is copied one line up and cleared
  abbrev lift_place : ℕ → ℕ → Memory → Memory
  lift_place i j m =
      clear_char qemu fb (left_of c i) (top_of c j)
        (copy_char qemu fb (left_of c i) (top_of c j) (left_of c i) (top_of c (j - 1)) m)

  lift_place-Leaves :
      (i j : ℕ) (m : Memory)
      → i < nbcol
      → 0 < j
      → j < nblin
      → Leaves (lift_place i j m) (λ px py.
        if within (left_of c i) char_size px
        then if within (top_of c j) font_size py
          then 0
          else if within (top_of c (j - 1)) font_size py
          then shown px (py + font_size) m
          else shown px py m
        else shown px py m)
  lift_place-Leaves i j m hi hj hj' px py hx hy =
      let x = left_of c i in
      let y = top_of c j in
      let y' = top_of c (j - 1) in
      let up : y' + font_size ≡ y = omega (arith, at_margin) in
      let right : x + char_size ≤ screen_width = omega (arith, at_margin) in
      let low : y + font_size ≤ screen_height = omega (arith, at_margin) in
      let m' = copy_char qemu fb x y x y' m in
      let copied =
        copy_char-pixel qemu fb screen px py hx hy x y x y' m right right low (omega arith) in
      let source : within x char_size px ≡ true
          → within y' font_size py ≡ true
          → shown (x + (px - x)) (y + (py - y')) m ≡ shown px (py + font_size) m =
        λ column line.
          (let ex : x + (px - x) ≡ px = ground arith in
            let ey : y + (py - y') ≡ py + font_size = ground arith in rw (ex, ey) refl) in
      clear_char-pixel qemu fb screen px py hx hy x y m' right low
      ∙ rw copied (
          two_places (within x char_size px) (within y font_size py) (within y' font_size py) _ _ _
            source)

  -- a column after `n` places from line `j` on went up
  abbrev pub risen : ℕ → ℕ → ℕ → Memory → ℕ → ℕ → ℕ
  risen i j n m px py =
      if within (left_of c i) char_size px
      then if within (top_of c (j - 1)) (n * font_size) py
        then shown px (py + font_size) m
        else if ltb 0 n && within (top_of c (j - 1 + n)) font_size py
        then 0
        else shown px py m
      else shown px py m

  pub scroll_column-Leaves :
      (n i j : ℕ) (m : Memory)
      → i < nbcol
      → 0 < j
      → j + n ≤ nblin
      → (m' : Memory) × (run_calls qemu fb (scroll_column n c i j) m ≡ some m')
        × Leaves m' (risen i j n m)
  unfolding scroll_column run_calls
  scroll_column-Leaves zero i j m hi hj hj' = (m, refl, λ px py hx hy. ground arith)
  scroll_column-Leaves (suc n) i j m hi hj hj' =
      let (m', e, leaves) =
        scroll_column-Leaves n i (j + 1) (lift_place i j m) hi (omega arith) (omega arith) in
      let lifted = lift_place-Leaves i j m hi hj (omega arith) in
      let t = top_of c (j - 1) in
      let e₀ : top_of c (j + 1 - 1) ≡ t + 16 = omega arith in
      let e₁ : top_of c j ≡ t + 16 = omega arith in
      let e₂ : top_of c (j + 1 - 1 + n) ≡ t + 16 + n * 16 = omega arith in
      let e₃ : top_of c (j - 1 + suc n) ≡ t + 16 + n * 16 = omega arith in
      let same : (px py : ℕ)
          → px < screen_width
          → within (t + 16) (n * 16) py ≡ true
          → shown px (py + font_size) (lift_place i j m) ≡ shown px (py + font_size) m =
        λ px py hx line.
          (lifted px (py + font_size) hx (ground (arith, at_margin)) ∙ ground arith) in
      (
        m',
        e,
        λ px py hx hy.
            let column = within (left_of c i) char_size px in
            let here : shown px py (lift_place i j m) ≡ (
                if column
                then if within (t + 16) font_size py
                  then 0
                  else if within t font_size py
                  then shown px (py + font_size) m
                  else shown px py m
                else shown px py m) =
              lifted px py hx hy ∙ rw e₁ refl in
            leaves px py hx hy
            ∙ rw (here, e₀, e₂, e₃)
                (one_more (within (left_of c i) char_size px) n t py _ _ _ (same px py hx)),
      )
