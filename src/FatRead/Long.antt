-- ===== src/FatRead/Long.antt =====
-- What `read_longfile` of src/fs/fat32.c reads along a chain of clusters.
use ras_pi_k.Base.{
  ℕ, zero, suc, ◌+◌, ◌-◌, ◌*◌, ◌/◌, ◌%◌, ◌^◌, ◌<◌, ◌≤◌, ◌≡◌, ◌≢◌, refl, sym, ◌∙◌, some, true, false,
  ◌&&◌, arith, ◌==◌, ltb, leb, if◌then◌else◌, min, Bool-cases, inl, inr,
}
use ras_pi_k.Store.{null}
use ras_pi_k.Store.Blocks.{tabulate}
use ras_pi_k.Kernel.{Kernel, finished}
use ras_pi_k.Mbr.{Buffer, overlay}
use ras_pi_k.Vfs.Devices.{Inside}
use ras_pi_k.FatVolume.{blk_size, Volume, FatObjects, Disk}
use ras_pi_k.FatVolume.Device.{Serves, blk_size-IsSectors, allocated, overlay-tabulate}
use ras_pi_k.FatRead.{Progress, take_block, put_block, next_sector, long_round, long_cluster}
use ras_pi_k.FatRead.Offset.{copy_block-at}

-- The first `n` bytes of `want` stand in the buffer, and the others are as they were.
pub record Have (want junk : Buffer) (size n : ℕ) (p : Progress) : Type 0 where
  pub base : p.base ≢ null
  pub total : p.total ≡ n
  pub left : p.left ≡ size - n
  pub bytes : (i : ℕ) → p.buf i ≡ (if ltb i n then want i else junk i)

-- `s` sectors from `sector` on hold the bytes of `want` from `n` on
abbrev pub Agree : (ℕ → Buffer) → Buffer → ℕ → ℕ → ℕ → ℕ → Type 0
Agree image want size n sector s =
    (j : ℕ)
    → j < s * blk_size
    → n + j < size
    → want (n + j) ≡ image (sector + j / blk_size) (j % blk_size)

module _ (image : ℕ → Buffer) (want junk : Buffer) (size : ℕ) (word : size < 2 ^ 32) where
  take_block-Have :
      (n : ℕ) (p : Progress) (before : Buffer)
      → n < size
      → Have want junk size n p
      → Agree image want size n p.sector 1
      → Have want junk size
          (min (n + blk_size) size)
          (take_block p (overlay (tabulate blk_size (image p.sector)) before))
  unfolding take_block
  take_block-Have n p before more h agree =
      let count = if ltb blk_size p.left then blk_size else p.left in
      let buff = overlay (tabulate blk_size (image p.sector)) before in
      let total = h.total in
      let left = h.left in
      let sum : n + count ≡ min (n + blk_size) size = ground arith in
      let here : (i : ℕ) → n ≤ i → i < min (n + blk_size) size → buff (i - n) ≡ want i = λ i lo hi.
        (let e : n + (i - n) ≡ i = omega arith in
          let e₀ : p.sector + (i - n) / blk_size ≡ p.sector = omega arith in
          let e₁ : (i - n) % blk_size ≡ i - n = omega arith in
          let held = rw (e, e₀, e₁) at (agree (i - n) (omega arith) (omega arith)) in
          overlay-tabulate blk_size (image p.sector) (i - n) (before (i - n)) (omega arith)
          ∙ sym held) in
      record {
        base = h.base;
        total = ground arith;
        left = ground arith;
        bytes = λ i.
            copy_block-at count 0 p.total buff p.buf i
            ∙ rw total (joined i n count p.buf buff more sum (here i) (h.bytes i));
      }
    where
      joined :
          (i n count : ℕ) (old buff : Buffer)
          → n < size
          → n + count ≡ min (n + blk_size) size
          → (n ≤ i → i < min (n + blk_size) size → buff (i - n) ≡ want i)
          → old i ≡ (if ltb i n then want i else junk i)
          → (if leb (n + 0) i && ltb i (n + 0 + count) then buff (i - n) else old i)
            ≡ (if ltb i (min (n + blk_size) size) then want i else junk i)
      joined i n count old buff more sum here at =
          let copied = leb (n + 0) i && ltb i (n + 0 + count) in
          elim (Bool-cases (ltb i n)) [
            | inl before' ↦
                let outside : copied ≡ false = ground arith in
                let still : ltb i (min (n + blk_size) size) ≡ true = ground arith in
                rw (outside, still) (at ∙ rw before' refl)
            | inr behind ↦ elim (Bool-cases (ltb i (min (n + blk_size) size))) [
              | inl new ↦
                  let inside : copied ≡ true = ground arith in
                  rw (inside, new) (here (ground arith) (ground arith))
              | inr past ↦
                  let outside : copied ≡ false = ground arith in
                  rw (outside, past) (at ∙ rw behind refl)
            ]
          ]

module _ {Hw : Type 0} {disk : Disk Hw} {image : ℕ → Buffer} {blocks : ℕ}
    {Ready : Kernel Hw FatObjects → Type 0} {Open : Kernel Hw FatObjects → ℕ → Type 0}
    {At : Kernel Hw FatObjects → ℕ → ℕ → Type 0} (v : Volume)
    (serves : Serves disk v.devpath image blocks Ready Open At) (want junk : Buffer) (size : ℕ)
    (word : size < 2 ^ 32) where
  long_round-image :
      (p : Progress) (k : Kernel Hw FatObjects)
      → Ready k
      → Inside blocks p.sector 1
      → p.base ≢ null
      → (before : Buffer) × (k' : Kernel Hw FatObjects) × (long_round disk v p k
          ≡ finished (some (take_block p (overlay (tabulate blk_size (image p.sector)) before))) k')
        × Ready k'
  unfolding long_round put_block
  long_round-image p k ready small base =
      let (fd, k₁, e₁, is_open, _) = serves.opens k ready in
      let (k₂, e₂, at, _) = serves.seeks k₁ fd p.sector is_open small.0 in
      let (live, at₃) = serves.allocates_at k₂ fd p.sector at in
      let got : ((k₂.store.pool 0).address == null) ≡ false = ground arith in
      let (k₄, e₄, still, _) =
        serves.reads (allocated k₂) fd p.sector blk_size at₃ small blk_size-IsSectors in
      let (ret, k₅, e₅, ready₅, _) = serves.closes k₄ fd still in
      let there : (p.base == null) ≡ false = ground arith in
      ((k₂.store.pool 0).junk, k₅, rw (e₁, e₂, got, e₄, e₅, there) refl, ready₅)

  take_block-sector : (p : Progress) (buff : Buffer) → (take_block p buff).sector ≡ p.sector
  unfolding take_block
  take_block-sector p buff = refl

  next_sector-Have :
      (n : ℕ) (p : Progress) → Have want junk size n p → Have want junk size n (next_sector p)
  next_sector-Have n p h = record { base = h.base; total = h.total; left = h.left; bytes = h.bytes }

  later :
      (n s sector : ℕ)
      → Agree image want size n sector (suc s)
      → Agree image want size (n + blk_size) (sector + 1) s
  later n s sector agree j lt inside =
      let e₀ : n + (j + blk_size) ≡ n + blk_size + j = omega arith in
      let e₁ : sector + (j + blk_size) / blk_size ≡ sector + 1 + j / blk_size = omega arith in
      let e₂ : (j + blk_size) % blk_size ≡ j % blk_size = omega arith in
      rw (e₀, e₁, e₂) at (agree (j + blk_size) (omega arith) (omega arith))

  first :
      (n s sector : ℕ) → Agree image want size n sector (suc s) → Agree image want size n sector 1
  first n s sector agree j lt inside = agree j (omega arith) inside

  pub long_cluster-Have :
      (s n : ℕ) (p : Progress) (k : Kernel Hw FatObjects)
      → Ready k
      → n < size
      → Inside blocks (p.sector + s) 0
      → Have want junk size n p
      → Agree image want size n p.sector s
      → (p' : Progress) × (k' : Kernel Hw FatObjects) × (long_cluster disk s v p k
          ≡ finished (some p') k')
        × Ready k'
        × Have want junk size (min (n + s * blk_size) size) p'
        × (n + s * blk_size < size → p'.sector ≡ p.sector + s)
  unfolding long_cluster
  long_cluster-Have zero n p k ready more small h agree =
      let e : min (n + 0 * blk_size) size ≡ n = ground arith in
      (p, k, refl, ready, rw e h, λ _. omega arith)
  long_cluster-Have (suc s) n p k ready more small h agree =
      let (before, k₁, e₁, ready₁) = long_round-image p k ready (omega arith) h.base in
      let p₁ = take_block p (overlay (tabulate blk_size (image p.sector)) before) in
      let h₁ : Have want junk size (min (n + blk_size) size) p₁ =
        take_block-Have image want junk size word n p before more h (first n s p.sector agree) in
      let left = h₁.left in
      elim (Bool-cases (p₁.left == 0)) [
        | inl all ↦
            let e : min (n + suc s * blk_size) size ≡ min (n + blk_size) size = ground arith in
            (p₁, k₁, rw (e₁, all) refl, ready₁, rw e h₁, λ lt. absurd (ground arith))
        | inr rest ↦
            let e : min (n + blk_size) size ≡ n + blk_size = ground arith in
            let p₂ = next_sector p₁ in
            let h₂ = next_sector-Have (n + blk_size) p₁ (rw e at h₁) in
            let same = take_block-sector p (overlay (tabulate blk_size (image p.sector)) before) in
            let to : p₂.sector ≡ p.sector + 1 = omega arith in
            let agree₂ : Agree image want size (n + blk_size) p₂.sector s =
              rw to (later n s p.sector agree) in
            let (p', k', e', ready', h', at) =
              long_cluster-Have s (n + blk_size) p₂ k₁ ready₁ (ground arith) (omega arith) h₂
                agree₂ in
            let e₂ : n + suc s * blk_size ≡ n + blk_size + s * blk_size = omega arith in
            (p', k', rw (e₁, rest) e', ready', rw e₂ h', λ lt. rw (at (omega arith)) (omega arith))
      ]
