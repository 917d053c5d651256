-- ===== src/Mem/Units.antt =====
-- How many units `kmalloc` of src/mem.c takes for a number of bytes.
use ras_pi_k.Base.{ℕ, ◌+◌, ◌-◌, ◌*◌, ◌^◌, ◌<◌, ◌≤◌, ◌≡◌, arith}
use ras_pi_k.Mem.{real_units}

-- Behind the header there is room for the bytes, and less than 8 bytes are lost, if the size does
-- not overflow.
pub real_units-bounds :
    (size : ℕ)
    → size + 7 < 2 ^ 32
    → (size ≤ 8 * (real_units size - 1)) × (8 * (real_units size - 1) < size + 8)
unfolding real_units
real_units-bounds size small = (omega arith, omega arith)

-- For the largest sizes the block has a header and no room behind it.
pub real_units-overflow : (size : ℕ) → size < 2 ^ 32 → 2 ^ 32 ≤ size + 7 → real_units size ≡ 1
unfolding real_units
real_units-overflow size word large = omega arith
