-- ===== src/Graphics/Run.antt =====
-- The calls that src/klog.c makes to src/graphics.c, carried out on the frame buffer.
use ras_pi_k.Base.{◌≡◌, refl, ◌∙◌, Bool, Option, none, some, List, [], ◌∷◌, ◌++◌}
use ras_pi_k.Klog.{Call}
use ras_pi_k.Graphics.{Memory, Framebuffer, put_pixel, draw_char, clear_char, copy_char}

module _ (qemu : Bool) (fb : Framebuffer) where
  -- a call; a byte that goes to the serial port leaves the frame buffer as it is
  abbrev pub run_call : Call → Memory → Option Memory
  run_call (Call.putchar_uart byte) m = some m
  run_call (Call.put_pixel x y color) m = some (put_pixel qemu fb x y color m)
  run_call (Call.draw_char x y c color) m = draw_char qemu fb x y c color m
  run_call (Call.clear_char x y) m = some (clear_char qemu fb x y m)
  run_call (Call.copy_char x₁ y₁ x₂ y₂) m = some (copy_char qemu fb x₁ y₁ x₂ y₂ m)

  abbrev pub then_run : Option Memory → (Memory → Option Memory) → Option Memory
  then_run none next = none
  then_run (some m) next = next m

  unfoldable pub run_calls : List Call → Memory → Option Memory
  run_calls [] m = some m
  run_calls (e ∷ es) m = then_run (run_call e m) (run_calls es)

  pub run_calls-append :
      (es fs : List Call) (m : Memory)
      → run_calls (es ++ fs) m ≡ then_run (run_calls es m) (run_calls fs)
  unfolding run_calls
  run_calls-append [] fs m = refl
  run_calls-append (e ∷ es) fs m = further (run_call e m) (λ m'. run_calls-append es fs m')
    where
      further :
          (o : Option Memory)
          → ((m' : Memory) → run_calls (es ++ fs) m' ≡ then_run (run_calls es m') (run_calls fs))
          → then_run o (run_calls (es ++ fs)) ≡ then_run (then_run o (run_calls es)) (run_calls fs)
      further none more = refl
      further (some m') more = more m'

  pub run_calls_none : (m : Memory) → run_calls [] m ≡ some m
  unfolding run_calls
  run_calls_none m = refl

  pub run_calls-both :
      (es fs : List Call) (m : Memory) {m₁ m₂ : Memory}
      → run_calls es m ≡ some m₁
      → run_calls fs m₁ ≡ some m₂
      → run_calls (es ++ fs) m ≡ some m₂
  run_calls-both es fs m first rest = run_calls-append es fs m ∙ rw first rest
