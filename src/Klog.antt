-- ===== src/Klog.antt =====
-- The screen log of src/klog.c: the cursor of the console, and the calls that it makes to the
-- drawing functions of src/graphics.c and to the serial port, in their order.
pub mod Screen
mod Tests
use ras_pi_k.Base.{
  ℕ, zero, suc, ◌+◌, ◌-◌, ◌*◌, Bool, true, false, List, [], ◌∷◌, ◌++◌, ◌==◌, ltb, leb,
  if◌then◌else◌, length,
}
use ras_pi_k.Strings.{CString}
use ras_pi_k.Vffs.{u32}

abbrev pub nbcol : ℕ
nbcol = 97

abbrev pub nblin : ℕ
nblin = 36

abbrev pub margin_size : ℕ
margin_size = 10

abbrev pub screen_width : ℕ
screen_width = 800

abbrev pub screen_height : ℕ
screen_height = 600

abbrev pub font_size : ℕ
font_size = 16

abbrev pub char_size : ℕ
char_size = 8

abbrev pub white : ℕ
white = 0xffffff

-- `s_console`
pub record Console : Type 0 where
  pub x : ℕ
  pub y : ℕ
  pub margin : ℕ

-- a call of `putchar_uart`, `put_pixel`, `draw_char`, `clear_char` or `copy_char`
pub data Call : Type 0 where
  putchar_uart : ℕ → Call
  put_pixel : ℕ → ℕ → ℕ → Call
  draw_char : ℕ → ℕ → ℕ → ℕ → Call
  clear_char : ℕ → ℕ → Call
  copy_char : ℕ → ℕ → ℕ → ℕ → Call

-- the left and the upper edge of a place of the console
abbrev pub left_of : Console → ℕ → ℕ
left_of c i = i * char_size + c.margin

abbrev pub top_of : Console → ℕ → ℕ
top_of c j = j * font_size + c.margin

-- the first loop of `scroll`, with `n` rounds left
unfoldable pub clear_first : ℕ → Console → List Call
clear_first zero c = []
clear_first (suc n) c = clear_char (left_of c c.x) c.margin ∷ clear_first n c

-- a column of `scroll`, from line `j` on with `n` lines left
unfoldable pub scroll_column : ℕ → Console → ℕ → ℕ → List Call
scroll_column zero c i j = []
scroll_column (suc n) c i j =
    copy_char (left_of c i) (top_of c j) (left_of c i) (top_of c (j - 1))
    ∷ clear_char (left_of c i) (top_of c j)
    ∷ scroll_column n c i (j + 1)

-- the columns from `i` on, with `n` left
unfoldable pub scroll_columns : ℕ → Console → ℕ → List Call
unfolding scroll_column
scroll_columns zero c i = []
scroll_columns (suc n) c i = scroll_column (nblin - 1) c i 1 ++ scroll_columns n c (i + 1)

unfoldable pub scroll : Console → List Call
scroll c = clear_first nbcol c ++ scroll_columns nbcol c 0

-- the cursor goes to the start of the next line
pub new_line : Console → Console × List Call
new_line c =
    let c' = record c { x = 0 } in
    if c.y == nblin - 1 then (c', scroll c') else (record c' { y = c.y + 1 }, [])

-- `if (console.x >= NBCOL)`
pub wrap_line : Console → Console × List Call
wrap_line c = if leb nbcol c.x then new_line c else (c, [])

-- the `switch` of `klog_write` on a byte
pub put_byte : Console → ℕ → ℕ → Console × List Call
put_byte c byte color =
    if byte == 10
    then new_line c
    else if byte == 9
    then (if ltb (c.x + 4) nbcol then (record c { x = c.x + 4 }, []) else (c, []))
    else if byte == 8
    then if ltb 0 c.x
      then (record c { x = c.x - 1 }, clear_char (left_of c (c.x - 1)) (top_of c c.y) ∷ [])
      else (c, [])
    else (record c { x = c.x + 1 }, draw_char (left_of c c.x) (top_of c c.y) byte color ∷ [])

-- `if (str[i] == '\n') putchar_uart('\r'); putchar_uart(str[i]);`
abbrev pub echo : ℕ → List Call
echo byte = if byte == 10 then putchar_uart 13 ∷ putchar_uart byte ∷ [] else putchar_uart byte ∷ []

-- the first `len` bytes of `str`, which has as many
pub klog_write : List ℕ → ℕ → Console → Console × List Call
unfolding wrap_line put_byte
klog_write [] color c = (c, [])
klog_write (byte ∷ str) color c =
    let (c₁, wrapped) = wrap_line c in
    let (c₂, drawn) = put_byte c₁ byte color in
    let (c₃, rest) = klog_write str color c₂ in (c₃, echo byte ++ (wrapped ++ (drawn ++ rest)))

abbrev pub green : ℕ
green = 0x00ff00

abbrev pub red : ℕ
red = 0xff0000

abbrev pub black : ℕ
black = 0x000000

-- a step behind another one
abbrev pub and_then :
    (Console → Console × List Call)
    → (Console → Console × List Call)
    → Console
    → Console × List Call
and_then f g c = let (c₁, before) = f c in let (c₂, after) = g c₁ in (c₂, before ++ after)

pub klog_color : CString → ℕ → Console → Console × List Call
unfolding klog_write
klog_color str color = klog_write str color

pub klog : CString → Console → Console × List Call
unfolding klog_write
klog str = klog_write str white

pub klog_tag : CString → ℕ → CString → Console → Console × List Call
unfolding klog klog_color
klog_tag tag color msg = and_then (klog (b'[' ∷ [])) (
    and_then (klog_color tag color)
      (and_then (klog (b']' ∷ b' ' ∷ [])) (and_then (klog msg) (klog (10 ∷ [])))))

pub klog_ok : CString → Console → Console × List Call
unfolding klog_tag
klog_ok msg = klog_tag (b'O' ∷ b'K' ∷ []) green msg

pub klog_ko : CString → Console → Console × List Call
unfolding klog_tag
klog_ko msg = klog_tag (b'K' ∷ b'O' ∷ []) red msg

-- the inner and the outer loop of `clear_klog`, with `n` rounds left
pub clear_column : ℕ → ℕ → ℕ → List Call
clear_column zero i j = []
clear_column (suc n) i j = put_pixel i j black ∷ clear_column n i (j + 1)

pub clear_columns : ℕ → ℕ → List Call
unfolding clear_column
clear_columns zero i = []
clear_columns (suc n) i = clear_column screen_height i 0 ++ clear_columns n (i + 1)

pub clear_klog : Console → Console × List Call
clear_klog c = (record c { x = 0; y = 0 }, clear_columns screen_width 0)

pub init_klog : Console → Console × List Call
init_klog c =
    and_then clear_klog
      (klog_ok (
        b'K' ∷ b'l' ∷ b'o' ∷ b'g' ∷ b's' ∷ b' ' ∷ b'i' ∷ b'n' ∷ b'i' ∷ b't' ∷ b'i' ∷ b'a' ∷ b'l'
        ∷ b'i' ∷ b'z' ∷ b'e' ∷ b'd' ∷ []))
      (record { x = 0; y = 0; margin = margin_size })
