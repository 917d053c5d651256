-- ===== src/Klog/Screen.antt =====
-- What src/klog.c draws stays on the screen.
use ras_pi_k.Base.{
  ℕ, zero, suc, ◌+◌, ◌-◌, ◌<◌, ◌≤◌, ◌≡◌, List, [], ◌∷◌, ◌++◌, arith, ◌==◌, ltb, leb, Bool-cases,
  inl, inr,
}
use ras_pi_k.Klog.{
  nbcol, nblin, margin_size, screen_width, screen_height, font_size, char_size, Console, Call,
  putchar_uart, put_pixel, draw_char, clear_char, copy_char, left_of, top_of, clear_first,
  scroll_column, scroll_columns, scroll, new_line, wrap_line, put_byte, echo, klog_write,
}

-- The cursor is on the console, or behind the end of a line.
abbrev pub IsOnConsole : Console → Type 0
IsOnConsole c = (c.x ≤ nbcol) × (c.y < nblin) × (c.margin ≡ margin_size)

-- the place of a character lies on the screen
abbrev pub Fits : ℕ → ℕ → Type 0
Fits x y = (x + char_size ≤ screen_width) × (y + font_size ≤ screen_height)

-- All of a call's pixels are on the screen.
abbrev pub OnScreen : Call → Type 0
OnScreen (putchar_uart byte) = Unit {0}
OnScreen (put_pixel x y color) = (x < screen_width) × (y < screen_height)
OnScreen (draw_char x y c color) = Fits x y
OnScreen (clear_char x y) = Fits x y
OnScreen (copy_char x₁ y₁ x₂ y₂) = Fits x₁ y₁ × Fits x₂ y₂

abbrev pub AllOnScreen : List Call → Type 0
AllOnScreen [] = Unit {0}
AllOnScreen (e ∷ es) = OnScreen e × AllOnScreen es

AllOnScreen-append : (es fs : List Call) → AllOnScreen es → AllOnScreen fs → AllOnScreen (es ++ fs)
AllOnScreen-append [] fs here there = there
AllOnScreen-append (e ∷ es) fs (h, here) there = (h, AllOnScreen-append es fs here there)

module _ (c : Console) (at_margin : c.margin ≡ margin_size) where
  clear_first-AllOnScreen : (n : ℕ) → c.x < nbcol → AllOnScreen (clear_first n c)
  unfolding clear_first
  clear_first-AllOnScreen zero h = tt
  clear_first-AllOnScreen (suc n) h =
      ((omega (arith, at_margin), omega (arith, at_margin)), clear_first-AllOnScreen n h)

  scroll_column-AllOnScreen :
      (n i j : ℕ) → i < nbcol → 0 < j → j + n ≤ nblin → AllOnScreen (scroll_column n c i j)
  unfolding scroll_column
  scroll_column-AllOnScreen zero i j h low high = tt
  scroll_column-AllOnScreen (suc n) i j h low high = (
    (
      (omega (arith, at_margin), omega (arith, at_margin)),
      (omega (arith, at_margin), omega (arith, at_margin)),
    ),
    (
      (omega (arith, at_margin), omega (arith, at_margin)),
      scroll_column-AllOnScreen n i (j + 1) h (omega arith) (omega arith),
    ),
  )

  scroll_columns-AllOnScreen : (n i : ℕ) → i + n ≤ nbcol → AllOnScreen (scroll_columns n c i)
  unfolding scroll_columns
  scroll_columns-AllOnScreen zero i h = tt
  scroll_columns-AllOnScreen (suc n) i h =
      AllOnScreen-append (scroll_column (nblin - 1) c i 1) (scroll_columns n c (i + 1))
        (scroll_column-AllOnScreen (nblin - 1) i 1 (omega arith) (omega arith) (omega arith))
        (scroll_columns-AllOnScreen n (i + 1) (omega arith))

  scroll-AllOnScreen : c.x < nbcol → AllOnScreen (scroll c)
  unfolding scroll
  scroll-AllOnScreen h =
      AllOnScreen-append (clear_first nbcol c) (scroll_columns nbcol c 0)
        (clear_first-AllOnScreen nbcol h) (scroll_columns-AllOnScreen nbcol 0 (omega arith))

-- a step that keeps the cursor on the console and draws on the screen
abbrev pub Keeps : Console × List Call → Type 0
Keeps r = IsOnConsole r.0 × AllOnScreen r.1

new_line-Keeps : (c : Console) → IsOnConsole c → Keeps (new_line c)
unfolding new_line
new_line-Keeps c (h, low, at) = elim (Bool-cases (c.y == nblin - 1)) [
  | inl last ↦
      rw last ((omega arith, low, at), scroll-AllOnScreen (record c { x = 0 }) at (omega arith))
  | inr more ↦ rw more ((omega arith, ground arith, at), tt)
]

wrap_line-Keeps : (c : Console) → IsOnConsole c → Keeps (wrap_line c) × ((wrap_line c).0.x < nbcol)
unfolding wrap_line new_line
wrap_line-Keeps c (h, low, at) = elim (Bool-cases (leb nbcol c.x)) [
  | inl full ↦
      let x : (new_line c).0.x ≡ 0 = ground arith in
      rw full (new_line-Keeps c (h, low, at), omega (arith, x))
  | inr room ↦ rw room (((h, low, at), tt), ground arith)
]

put_byte-Keeps :
    (c : Console) (byte color : ℕ) → IsOnConsole c → c.x < nbcol → Keeps (put_byte c byte color)
unfolding put_byte
put_byte-Keeps c byte color (h, low, at) room =
    let on_screen : Fits (left_of c c.x) (top_of c c.y) = (omega (arith, at), omega (arith, at)) in
    elim (Bool-cases (byte == 10)) [
      | inl line ↦ rw line (new_line-Keeps c (h, low, at))
      | inr e₁ ↦ elim (Bool-cases (byte == 9)) [
        | inl tab ↦ elim (Bool-cases (ltb (c.x + 4) nbcol)) [
          | inl fits ↦ rw (e₁, tab, fits) ((ground arith, low, at), tt)
          | inr over ↦ rw (e₁, tab, over) ((h, low, at), tt)
        ]
        | inr e₂ ↦ elim (Bool-cases (byte == 8)) [
          | inl back ↦ elim (Bool-cases (ltb 0 c.x)) [
            | inl some_left ↦
                rw (e₁, e₂, back, some_left)
                  ((omega arith, low, at), ((omega (arith, at), omega (arith, at)), tt))
            | inr first ↦ rw (e₁, e₂, back, first) ((h, low, at), tt)
          ]
          | inr e₃ ↦ rw (e₁, e₂, e₃) ((omega arith, low, at), (on_screen, tt))
        ]
      ]
    ]

echo-AllOnScreen : (byte : ℕ) → AllOnScreen (echo byte)
echo-AllOnScreen byte = elim (Bool-cases (byte == 10)) [
  | inl line ↦ rw line (tt, (tt, tt))
  | inr other ↦ rw other (tt, tt)
]

-- Whatever is written to the log, the cursor stays on the console and all that is drawn on the
-- screen.
pub klog_write-Keeps :
    (str : List ℕ) (color : ℕ) (c : Console) → IsOnConsole c → Keeps (klog_write str color c)
unfolding klog_write
klog_write-Keeps [] color c on = (on, tt)
klog_write-Keeps (byte ∷ str) color c on =
    let ((on₁, wrapped), room) = wrap_line-Keeps c on in
    let (on₂, drawn) = put_byte-Keeps (wrap_line c).0 byte color on₁ room in
    let (on₃, rest) = klog_write-Keeps str color (put_byte (wrap_line c).0 byte color).0 on₂ in
    (
      on₃,
      AllOnScreen-append (echo byte) _ (echo-AllOnScreen byte)
          (AllOnScreen-append _ _ wrapped (AllOnScreen-append _ _ drawn rest)),
    )
