-- ===== src/Graphics/Scroll.antt =====
-- What `scroll` of src/klog.c leaves on the screen.
use ras_pi_k.Base.{
  ℕ, zero, suc, ◌+◌, ◌-◌, ◌*◌, ◌<◌, ◌≤◌, ◌≡◌, refl, ◌∙◌, Bool, true, false, some, arith, ◌&&◌, ltb,
  if◌then◌else◌, Bool-cases, inl, inr,
}
use ras_pi_k.Klog.{
  nbcol, nblin, margin_size, screen_width, screen_height, font_size, char_size, Console, left_of,
  top_of, clear_first, scroll_column, scroll_columns, scroll,
}
use ras_pi_k.Graphics.{Memory, Framebuffer, background, get_pixel, clear_char}
use ras_pi_k.Graphics.Pixels.{IsScreen}
use ras_pi_k.Graphics.Chars.{within, in_place, clear_char-pixel}
use ras_pi_k.Graphics.Run.{run_calls, run_calls_none, run_calls-both}
use ras_pi_k.Graphics.Column.{Leaves, risen, scroll_column-Leaves}

module _ (qemu : Bool) (fb : Framebuffer) (screen : IsScreen fb) (c : Console)
    (at_margin : c.margin ≡ margin_size) where
  abbrev pixel : ℕ → ℕ → Memory → ℕ
  pixel px py m = get_pixel qemu fb px py m

  -- a line of pixels of the console after all of its places went up
  abbrev up_a_line : Memory → ℕ → ℕ → ℕ
  up_a_line m px py =
      if within c.margin ((nblin - 1) * font_size) py
      then pixel px (py + font_size) m
      else if within (c.margin + (nblin - 1) * font_size) font_size py
      then background
      else pixel px py m

  scroll_columns-Leaves :
      (n i : ℕ) (m : Memory)
      → i + n ≤ nbcol
      → (m' : Memory) × (run_calls qemu fb (scroll_columns n c i) m ≡ some m')
        × ((px py : ℕ)
            → px < screen_width
            → py < screen_height
            → pixel px py m' ≡ (
                if within (left_of c i) (n * char_size) px
                then up_a_line m px py
                else pixel px py m))
  unfolding scroll_columns
  scroll_columns-Leaves zero i m h = (m, run_calls_none qemu fb m, λ px py hx hy. ground arith)
  scroll_columns-Leaves (suc n) i m h =
      let (m₁, e₁, column) =
        scroll_column-Leaves qemu fb screen c at_margin (nblin - 1) i 1 m (omega arith)
          (omega arith) (omega arith) in
      let (m₂, e₂, columns) = scroll_columns-Leaves n (i + 1) m₁ (omega arith) in
      (
        m₂,
        run_calls-both qemu fb (scroll_column (nblin - 1) c i 1) (scroll_columns n c (i + 1)) m e₁
            e₂,
        λ px py hx hy.
            columns px py hx hy
            ∙ more_columns n i m m₁ px py (here m m₁ i column px py hx hy)
                (λ column' line. below m m₁ i column px py hx column' line),
      )
    where
      here :
          (m m₁ : Memory) (i : ℕ)
          → Leaves qemu fb screen c at_margin m₁
              (risen qemu fb screen c at_margin i 1 (nblin - 1) m)
          → (px py : ℕ) → px < screen_width
          → py < screen_height
          → pixel px py m₁
            ≡ (if within (left_of c i) char_size px then up_a_line m px py else pixel px py m)
      here m m₁ i column px py hx hy =
          let e₀ : top_of c 0 ≡ c.margin = omega arith in
          let e₁ : top_of c (nblin - 1) ≡ c.margin + (nblin - 1) * font_size = omega arith in
          column px py hx hy ∙ rw (e₀, e₁) refl

      below :
          (m m₁ : Memory) (i : ℕ)
          → Leaves qemu fb screen c at_margin m₁
              (risen qemu fb screen c at_margin i 1 (nblin - 1) m)
          → (px py : ℕ) → px < screen_width
          → within (left_of c i) char_size px ≡ false
          → within c.margin ((nblin - 1) * font_size) py ≡ true
          → pixel px (py + font_size) m₁ ≡ pixel px (py + font_size) m
      below m m₁ i column px py hx outside line =
          here m m₁ i column px (py + font_size) hx (ground (arith, at_margin)) ∙ rw outside refl

      more_columns :
          (n i : ℕ) (m m₁ : Memory) (px py : ℕ)
          → pixel px py m₁
            ≡ (if within (left_of c i) char_size px then up_a_line m px py else pixel px py m)
          → (within (left_of c i) char_size px ≡ false
              → within c.margin ((nblin - 1) * font_size) py ≡ true
              → pixel px (py + font_size) m₁ ≡ pixel px (py + font_size) m)
          → (if within (left_of c (i + 1)) (n * char_size) px
              then up_a_line m₁ px py
              else pixel px py m₁)
            ≡ (if within (left_of c i) (suc n * char_size) px
                then up_a_line m px py
                else pixel px py m)
      more_columns n i m m₁ px py at down = elim (Bool-cases (within (left_of c i) char_size px)) [
        | inl inside ↦
            let later : within (left_of c (i + 1)) (n * char_size) px ≡ false = ground arith in
            let all : within (left_of c i) (suc n * char_size) px ≡ true = ground arith in
            rw (later, all) (at ∙ rw inside refl)
        | inr outside ↦
            let same : pixel px py m₁ ≡ pixel px py m = at ∙ rw outside refl in
            let rest : within (left_of c i) (suc n * char_size) px
                ≡ within (left_of c (i + 1)) (n * char_size) px =
              ground arith in
            rw (rest, same)
              (elim (Bool-cases (within c.margin ((nblin - 1) * font_size) py)) [
                | inl line ↦ rw (down outside line) refl
                | inr other ↦ rw other refl
              ])
      ]

  clear_first-Leaves :
      (n : ℕ) (m : Memory)
      → c.x < nbcol
      → (m' : Memory) × (run_calls qemu fb (clear_first n c) m ≡ some m')
        × ((px py : ℕ)
            → px < screen_width
            → py < screen_height
            → pixel px py m' ≡ (
                if ltb 0 n && in_place (left_of c c.x) c.margin px py
                then background
                else pixel px py m))
  unfolding clear_first run_calls
  clear_first-Leaves zero m h = (m, refl, λ px py hx hy. refl)
  clear_first-Leaves (suc n) m h =
      let x = left_of c c.x in
      let (m', e, leaves) = clear_first-Leaves n (clear_char qemu fb x c.margin m) h in
      (
        m',
        e,
        λ px py hx hy.
            let first =
              clear_char-pixel qemu fb screen px py hx hy x c.margin m (omega (arith, at_margin))
                (omega (arith, at_margin)) in
            leaves px py hx hy ∙ rw first (ground arith),
      )

  -- `scroll`, carried out on the frame buffer with the cursor inside a line: every line of the
  -- console shows what the next one showed, the last one is empty, and the margin stays.
  pub scroll-up :
      (m : Memory)
      → c.x < nbcol
      → (m' : Memory) × (run_calls qemu fb (scroll c) m ≡ some m')
        × ((px py : ℕ)
            → px < screen_width
            → py < screen_height
            → pixel px py m' ≡ (
                if within margin_size (nbcol * char_size) px
                then if within margin_size ((nblin - 1) * font_size) py
                  then pixel px (py + font_size) m
                  else if within (margin_size + (nblin - 1) * font_size) font_size py
                  then background
                  else pixel px py m
                else pixel px py m))
  unfolding scroll
  scroll-up m h =
      let (m₁, e₁, first) = clear_first-Leaves nbcol m h in
      let (m₂, e₂, columns) = scroll_columns-Leaves nbcol 0 m₁ (omega arith) in
      (
        m₂,
        run_calls-both qemu fb (clear_first nbcol c) (scroll_columns nbcol c 0) m e₁ e₂,
        λ px py hx hy.
            columns px py hx hy
            ∙ whole m m₁ px py (first px py hx hy)
                (λ line. first px (py + font_size) hx (ground (arith, at_margin))),
      )
    where
      whole :
          (m m₁ : Memory) (px py : ℕ)
          → pixel px py m₁
            ≡ (if in_place (left_of c c.x) c.margin px py then background else pixel px py m)
          → (within margin_size ((nblin - 1) * font_size) py ≡ true
              → pixel px (py + font_size) m₁ ≡ (
                  if in_place (left_of c c.x) c.margin px (py + font_size)
                  then background
                  else pixel px (py + font_size) m))
          → (if within (left_of c 0) (nbcol * char_size) px
              then up_a_line m₁ px py
              else pixel px py m₁)
            ≡ (if within margin_size (nbcol * char_size) px
                then if within margin_size ((nblin - 1) * font_size) py
                  then pixel px (py + font_size) m
                  else if within (margin_size + (nblin - 1) * font_size) font_size py
                  then background
                  else pixel px py m
                else pixel px py m)
      whole m m₁ px py at down =
          let room = h in
          let e : left_of c 0 ≡ margin_size = omega (arith, at_margin) in
          let outside : within margin_size (nbcol * char_size) px ≡ false
              → in_place (left_of c c.x) c.margin px py ≡ false =
            λ column. ground (arith, at_margin) in
          let lower : within margin_size ((nblin - 1) * font_size) py ≡ true
              → in_place (left_of c c.x) c.margin px (py + font_size) ≡ false =
            λ line. ground (arith, at_margin) in
          let beside : within margin_size ((nblin - 1) * font_size) py ≡ false
              → in_place (left_of c c.x) c.margin px py ≡ false =
            λ line. ground (arith, at_margin) in
          let old : in_place (left_of c c.x) c.margin px py ≡ false
              → pixel px py m₁ ≡ pixel px py m =
            λ off. (at ∙ rw off refl) in
          rw (e, at_margin)
            (elim (Bool-cases (within margin_size (nbcol * char_size) px)) [
              | inr out ↦ rw out (old (outside out))
              | inl column ↦ elim (Bool-cases (within margin_size ((nblin - 1) * font_size) py)) [
                | inl line ↦ rw (column, line) (down line ∙ rw (lower line) refl)
                | inr other ↦
                    elim (Bool-cases
                      (within (margin_size + (nblin - 1) * font_size) font_size py)) [
                        | inl last ↦ rw (column, other, last) refl
                        | inr off ↦ rw (column, other, off) (old (beside other))
                      ]
              ]
            ])
