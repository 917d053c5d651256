-- ===== src/Graphics/Init.antt =====
-- The start of the frame buffer: `init_graphics` and `init_framebuffer` of src/graphics.c. The
-- structure that the graphics processor fills in stands in the memory at `FRAME_BUFFER`.
use ras_pi_k.Base.{ℕ, zero, suc, ◌+◌, ◌-◌, ◌==◌, ltb, ◌||◌, if◌then◌else◌, ℤ, pos}
use ras_pi_k.Klog.{screen_width, screen_height}
use ras_pi_k.Mmio.{Bus, W, give, ◌>>=◌, ◌>>◌, spent, get, put}
use ras_pi_k.Mmio.Mailbox.{write_mailbox, read_mailbox}
use ras_pi_k.Graphics.{screen_depth, arm_bus_addr}

-- the address of `s_fb`
abbrev pub frame_buffer : ℕ
frame_buffer = 0x2000

module _ {Hw : Type 0} (bus : Bus Hw) (n : ℕ) where
  -- `do response = read_mailbox (1); while (response != 0);` with `rounds` left
  pub await_response : ℕ → W Hw (Unit {0})
  await_response zero = spent
  await_response (suc rounds) = do
    response ← read_mailbox bus n 1
    if response == 0 then give tt else await_response rounds

  pub init_framebuffer : ℕ → W Hw ℤ
  unfolding await_response
  init_framebuffer rounds = do
    write_mailbox bus n 1 (frame_buffer + arm_bus_addr)
    await_response rounds
    ptr ← get bus (frame_buffer + 32)
    pitch ← get bus (frame_buffer + 16)
    if (ptr == 0) || (pitch == 0) then give (pos 0) else do
      put bus (frame_buffer + 32) (if ltb arm_bus_addr ptr then ptr - arm_bus_addr else ptr)
      give (pos 1)

  pub init_graphics : ℕ → W Hw ℤ
  unfolding init_framebuffer
  init_graphics rounds = do
    put bus frame_buffer screen_width
    put bus (frame_buffer + 4) screen_height
    width ← get bus frame_buffer
    put bus (frame_buffer + 8) width
    height ← get bus (frame_buffer + 4)
    put bus (frame_buffer + 12) height
    put bus (frame_buffer + 16) 0
    put bus (frame_buffer + 20) screen_depth
    put bus (frame_buffer + 24) 0
    put bus (frame_buffer + 28) 0
    put bus (frame_buffer + 32) 0
    put bus (frame_buffer + 36) 0
    init_framebuffer rounds
