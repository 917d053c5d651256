-- ===== src/Mmio/Uart.antt =====
-- The serial port: `init_uart`, `putchar_uart`, `getchar_uart`, `write_uart` and `read_uart` of
-- src/driver/uart.c. `n` is the number of rounds that each wait is given.
use mathlib.Core.List.{append_assoc, append-nil}
use ras_pi_k.Base.{
  ℕ, zero, suc, ◌+◌, ◌^◌, ◌%◌, ◌<◌, ◌≤◌, ◌≡◌, refl, sym, ap, true, not, ◌||◌, some, List, [], ◌∷◌,
  ◌++◌, arith, ◌==◌, if◌then◌else◌, ℤ, pos, failed, length,
}
use ras_pi_k.Store.{Device}
use ras_pi_k.Vffs.{perm_write, has_flag}
use ras_pi_k.Mmio.{Bus, W, give, ◌>>=◌, ◌>>◌, get, put, wait_clear, Clears, wait_clear-idle}
use ras_pi_k.Mmio.Timers.{usleep}

abbrev pub dr_uart : ℕ
dr_uart = 0x20201000

abbrev pub fr_uart : ℕ
fr_uart = 0x20201018

abbrev pub write_ok : ℕ
write_ok = 2 ^ 5

abbrev pub read_ok : ℕ
read_ok = 2 ^ 4

abbrev pub delay : ℕ
delay = 150

module _ {Hw : Type 0} (bus : Bus Hw) (n : ℕ) where
  pub init_uart : W Hw ℤ
  unfolding usleep
  init_uart = do
    put bus 0x20201030 0
    put bus 0x20200094 0
    usleep bus n delay
    put bus 0x20200098 (2 ^ 14 + 2 ^ 15)
    usleep bus n delay
    put bus 0x20200098 0
    put bus 0x20201044 0x7ff
    put bus 0x20201024 1
    put bus 0x20201028 40
    put bus 0x2020102c (2 ^ 4 + 2 ^ 5 + 2 ^ 6)
    put bus 0x20201038 (2 ^ 1 + 2 ^ 4 + 2 ^ 5 + 2 ^ 6 + 2 ^ 7 + 2 ^ 8 + 2 ^ 9 + 2 ^ 10)
    put bus 0x20201030 (2 ^ 0 + 2 ^ 8 + 2 ^ 9)
    give (pos 0)

  pub putchar_uart : ℕ → W Hw (Unit {0})
  putchar_uart byte = do wait_clear bus n fr_uart write_ok; put bus dr_uart byte

  pub getchar_uart : W Hw ℕ
  getchar_uart = do wait_clear bus n fr_uart read_ok; value ← get bus dr_uart; give (value % 256)

  -- `for (i = 0; i < size; i++) putchar_uart (…);`
  pub putchars_uart : List ℕ → W Hw (Unit {0})
  unfolding putchar_uart
  putchars_uart [] = give tt
  putchars_uart (byte ∷ str) = do putchar_uart byte; putchars_uart str

  -- the result, and the device with its lock
  pub write_uart : Device → List ℕ → W Hw (ℤ × Device)
  write_uart dev str =
      if not (has_flag dev.perm perm_write) || not (dev.lock == 0)
      then give (failed, dev)
      else (do putchars_uart str; give (pos (length str), record dev { lock = 0 }))

  -- `for (i = 0; i < size; i++) str[i] = getchar_uart ();` with `size` rounds left
  pub getchars_uart : ℕ → W Hw (List ℕ)
  unfolding getchar_uart
  getchars_uart zero = give []
  getchars_uart (suc size) = do byte ← getchar_uart; str ← getchars_uart size; give (byte ∷ str)

  pub read_uart : ℕ → W Hw (ℤ × List ℕ)
  unfolding getchars_uart
  read_uart size = do str ← getchars_uart size; give (pos size, str)

-- What the driver relies on of the port: `Line hw sent k` says that `sent` was sent, and that the
-- port takes the next byte after `k` reads more of its flags; after a byte these are `limit` at
-- most.
pub record IsPort {Hw : Type 0} (bus : Bus Hw) (limit : ℕ) (Line : Hw → List ℕ → ℕ → Type 0)
    : Type 0 where
  pub clears : (sent : List ℕ) → Clears bus fr_uart write_ok (λ hw k. Line hw sent k)
  pub sends :
      (hw : Hw) (sent : List ℕ) (byte : ℕ)
      → Line hw sent 0
      → (k : ℕ) × (k ≤ limit) × Line (bus.write_mmio dr_uart byte hw) (sent ++ (byte ∷ [])) k

module _ {Hw : Type 0} (bus : Bus Hw) (n limit : ℕ) {Line : Hw → List ℕ → ℕ → Type 0}
    (port : IsPort bus limit Line) (enough : limit < n) where
  putchars_uart-sends :
      (str : List ℕ) (hw : Hw) (sent : List ℕ) (k : ℕ)
      → Line hw sent k
      → k ≤ limit
      → (hw' : Hw) × (k' : ℕ) × (putchars_uart bus n str hw ≡ some (tt, hw'))
        × Line hw' (sent ++ str) k'
        × (k' ≤ limit)
  unfolding putchars_uart putchar_uart
  putchars_uart-sends [] hw sent k line h = (hw, k, refl, rw (append-nil sent) line, h)
  putchars_uart-sends (byte ∷ str) hw sent k line h =
      let (hw₁, e₁, line₁) = wait_clear-idle bus (port.clears sent) n k hw line (omega arith) in
      let (k₂, h₂, line₂) = port.sends hw₁ sent byte line₁ in
      let (hw₃, k₃, e₃, line₃, h₃) =
        putchars_uart-sends str (bus.write_mmio dr_uart byte hw₁) (sent ++ (byte ∷ [])) k₂ line₂
          h₂ in
      (hw₃, k₃, rw e₁ e₃, rw (append_assoc sent (byte ∷ []) str) at line₃, h₃)

  -- On a port that takes each byte within a limit of reads, `write_uart` to a device that may be
  -- written to and is not locked comes to an end, in one round more than the limit for each byte:
  -- it sends the bytes in their order behind those that were sent, returns their number, and leaves
  -- the device unlocked.
  pub write_uart-sends :
      (dev : Device) (str : List ℕ) (hw : Hw) (sent : List ℕ) (k : ℕ)
      → has_flag dev.perm perm_write ≡ true
      → dev.lock ≡ 0
      → Line hw sent k
      → k ≤ limit
      → (hw' : Hw) × (k' : ℕ) × (write_uart bus n dev str hw ≡ some ((pos (length str), dev), hw'))
        × Line hw' (sent ++ str) k'
  unfolding write_uart
  write_uart-sends dev str hw sent k perm unlocked line h =
      let free : (dev.lock == 0) ≡ true = rw unlocked refl in
      let (hw', k', e, line', h') = putchars_uart-sends str hw sent k line h in
      (
        hw',
        k',
        rw (perm, free, e)
            (ap (λ l. some ((pos (length str), record dev { lock = l }), hw')) (sym unlocked)),
        line',
      )
