-- ===== src/Store/Blocks.antt =====
-- The block of bytes behind a file's `data`: what `kmalloc` and `krealloc` of src/mem.c do to it.
use ras_pi_k.Base.{
  ℕ, zero, suc, ◌+◌, ◌*◌, ◌/◌, ◌≡◌, refl, ap, List, [], ◌∷◌, ◌++◌, arith, length, take, drop, min,
  length-take, length-drop, length-append, take-append,
}

-- the bytes that a block for `n` bytes has: `sizeof (u_header)` is 8
abbrev pub block_bytes : ℕ → ℕ
block_bytes n = (n + 7) / 8 * 8

unfoldable pub tabulate : ℕ → (ℕ → ℕ) → List ℕ
tabulate zero f = []
tabulate (suc n) f = f 0 ∷ tabulate n (λ i. f (i + 1))

-- the block that `kmalloc (n)` returns, with the bytes that lie there
unfoldable pub fresh_block : ℕ → (ℕ → ℕ) → List ℕ
unfolding tabulate
fresh_block n junk = tabulate (block_bytes n) junk

-- the block after `krealloc` has copied what fits of the old one
unfoldable pub moved_block : List ℕ → ℕ → (ℕ → ℕ) → List ℕ
unfolding fresh_block
moved_block old n junk =
    take (min n (length old)) old ++ drop (min n (length old)) (fresh_block n junk)

length-tabulate : (n : ℕ) (f : ℕ → ℕ) → length (tabulate n f) ≡ n
unfolding tabulate
length-tabulate zero f = refl
length-tabulate (suc n) f = ap suc (length-tabulate n (λ i. f (i + 1)))

pub length-fresh_block : (n : ℕ) (junk : ℕ → ℕ) → length (fresh_block n junk) ≡ block_bytes n
unfolding fresh_block
length-fresh_block n junk = length-tabulate (block_bytes n) junk

pub length-moved_block :
    (old : List ℕ) (n : ℕ) (junk : ℕ → ℕ) → length (moved_block old n junk) ≡ block_bytes n
unfolding moved_block
length-moved_block old n junk =
    let k = min n (length old) in
    omega (
      arith,
      length-append (take k old) (drop k (fresh_block n junk)),
      length-take k old,
      length-drop k (fresh_block n junk),
      length-fresh_block n junk,
    )

pub take-moved_block :
    (old : List ℕ) (n : ℕ) (junk : ℕ → ℕ)
    → take (min n (length old)) (moved_block old n junk) ≡ take (min n (length old)) old
unfolding moved_block
take-moved_block old n junk =
    let k = min n (length old) in
    take-append k (take k old) (drop k (fresh_block n junk)) (omega (arith, length-take k old))
