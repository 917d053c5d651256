-- ===== src/Mmio.antt =====
-- The registers of the machine: include/mmio.h, over the state of the hardware, and the loops that
-- wait for one of them. A register is read and written with 32 bits.
pub mod Timers
pub mod Mailbox
pub mod Uart
mod Tests
use ras_pi_k.Base.{
  ℕ, zero, suc, ◌+◌, ◌<◌, ◌≡◌, ◌≢◌, refl, Bool, true, false, not, Option, none, some, arith, ◌==◌,
  if◌then◌else◌, bit_and,
}

-- `read_mmio`, `write_mmio` and `sync_mem`
pub record Bus (Hw : Type 0) : Type 0 where
  pub read_mmio : ℕ → Hw → ℕ × Hw
  pub write_mmio : ℕ → ℕ → Hw → Hw
  pub sync_mem : Hw → Hw

-- a run that ends with a result, or needs more rounds than its loops are given
abbrev pub W : Type 0 → Type 0 → Type 0
W Hw A = Hw → Option (A × Hw)

module _ {Hw : Type 0} where
  abbrev pub give : {A : Type 0} → A → W Hw A
  give a hw = some (a, hw)

  abbrev pub resume_with : {A B : Type 0} → Option (A × Hw) → (A → W Hw B) → Option (B × Hw)
  resume_with none next = none
  resume_with (some (a, hw)) next = next a hw

  infixl 5 ◌>>=◌ ◌>>◌
  abbrev pub ◌>>=◌ : {A B : Type 0} → W Hw A → (A → W Hw B) → W Hw B
  ◌>>=◌ m next hw = resume_with (m hw) next

  abbrev pub ◌>>◌ : {B : Type 0} → W Hw (Unit {0}) → W Hw B → W Hw B
  m >> next = m >>= λ _. next

  -- no rounds are left
  abbrev pub spent : {A : Type 0} → W Hw A
  spent hw = none

module _ {Hw : Type 0} (bus : Bus Hw) where
  abbrev pub get : ℕ → W Hw ℕ
  get reg hw = some (bus.read_mmio reg hw)

  abbrev pub put : ℕ → ℕ → W Hw (Unit {0})
  put reg value hw = some (tt, bus.write_mmio reg value hw)

  abbrev pub sync : W Hw (Unit {0})
  sync hw = some (tt, bus.sync_mem hw)

  -- `while (read_mmio (reg) & mask);` with `n` rounds left
  pub wait_clear : ℕ → ℕ → ℕ → W Hw (Unit {0})
  wait_clear zero reg mask = spent
  wait_clear (suc n) reg mask = do
    value ← get reg
    if not (bit_and value mask == 0) then wait_clear n reg mask else give tt

-- A state in which a register has a bit of the mask for `k` reads more, and then none. The reads
-- change nothing else.
pub record Clears {Hw : Type 0} (bus : Bus Hw) (reg mask : ℕ) (Busy : Hw → ℕ → Type 0)
    : Type 0 where
  pub busy :
      (hw : Hw) (k : ℕ)
      → Busy hw (suc k)
      → (value : ℕ) × (hw' : Hw) × (bus.read_mmio reg hw ≡ (value, hw'))
        × (bit_and value mask ≢ 0)
        × Busy hw' k
  pub idle :
      (hw : Hw)
      → Busy hw 0
      → (value : ℕ) × (hw' : Hw) × (bus.read_mmio reg hw ≡ (value, hw'))
        × (bit_and value mask ≡ 0)
        × Busy hw' 0

module _ {Hw : Type 0} (bus : Bus Hw) {reg mask : ℕ} {Busy : Hw → ℕ → Type 0}
    (clears : Clears bus reg mask Busy) where
  -- The loop ends after the last read that has a bit of the mask.
  pub wait_clear-idle :
      (n k : ℕ) (hw : Hw)
      → Busy hw k
      → k < n
      → (hw' : Hw) × (wait_clear bus n reg mask hw ≡ some (tt, hw')) × Busy hw' 0
  unfolding wait_clear
  wait_clear-idle zero k hw b h = absurd (omega arith)
  wait_clear-idle (suc n) zero hw b h =
      let (value, hw', e, off, b') = clears.idle hw b in
      let left : not (bit_and value mask == 0) ≡ false = ground arith in
      (hw', rw (e, left) refl, b')
  wait_clear-idle (suc n) (suc k) hw b h =
      let (value, hw₁, e, on, b₁) = clears.busy hw k b in
      let again : not (bit_and value mask == 0) ≡ true = ground arith in
      let (hw', e', b') = wait_clear-idle n k hw₁ b₁ (omega arith) in (hw', rw (e, again) e', b')
