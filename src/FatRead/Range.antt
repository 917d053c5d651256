-- ===== src/FatRead/Range.antt =====
-- The sectors of a cluster, and how `read_longfile` of src/fs/fat32.c counts clusters.
use native.Mathlib.Nat.{div-eq_of_lt-le, le-div_iff_mul-le, div-add-mod}
use ras_pi_k.Base.{
  ℕ, ◌+◌, ◌-◌, ◌*◌, ◌/◌, ◌%◌, ◌^◌, ◌<◌, ◌≤◌, ◌≡◌, ◌∙◌, arith, ◌==◌, ltb, if◌then◌else◌, Bool-cases,
  inl, inr,
}
use ras_pi_k.Vffs.{u32}
use ras_pi_k.Vfs.Devices.{Inside}
use ras_pi_k.FatVolume.{Volume, cluster_sector}
use ras_pi_k.FatVolume.Device.{fat_sector}
use ras_pi_k.FatRead.{Progress}

-- The number of a cluster is a word from 2 on; its sectors have numbers of 31 bits and lie among
-- the blocks of the device, and so does the sector of its entry in the table.
pub record InRange (v : Volume) (blocks c : ℕ) : Type 0 where
  pub some_sectors : 0 < v.cluslen
  pub from : 2 ≤ c
  pub to : v.root + (c - 2) * v.cluslen + v.cluslen < 2 ^ 31
  pub held : v.root + (c - 2) * v.cluslen + v.cluslen ≤ blocks
  pub word : c < 2 ^ 32
  pub entry : Inside blocks (fat_sector v c) 1

-- the clusters that have `n` sectors are more than the whole ones before the last
pub rounds_enough :
    (l len n : ℕ) → 0 < len → l * len < n → l < n / len + (if n % len == 0 then 0 else 1)
rounds_enough l len n some_sectors fewer =
    let below : l ≤ n / len = (le-div_iff_mul-le some_sectors).1 (omega arith) in
    let whole = div-add-mod n len in
    elim (Bool-cases (n % len == 0)) [
      | inl none_left ↦ elim (Bool-cases (ltb l (n / len))) [
        | inl less ↦ rw none_left (ground arith)
        | inr same ↦
            let e : l ≡ n / len = ground arith in
            let r : n % len ≡ 0 = ground arith in
            let over : n / len * len < n = rw e at fewer in absurd (omega arith)
      ]
      | inr some_left ↦ rw some_left (omega arith)
    ]

module _ (v : Volume) (blocks : ℕ) where
  pub in_range :
      (c : ℕ) (p : Progress)
      → InRange v blocks c
      → p.sector ≡ cluster_sector v c
      → Inside blocks (p.sector + v.cluslen) 0
  unfolding cluster_sector
  in_range c p range at =
      let from = range.from in
      let to = range.to in
      let held = range.held in
      let word' = range.word in
      let m : (c + 2 ^ 32 - 2) % 2 ^ 32 ≡ c - 2 = omega arith in
      let here : p.sector ≡ v.root + (c - 2) * v.cluslen = at ∙ rw m (omega arith) in omega arith

  -- the cluster that the loop computes from the sector behind it is the one it has read
  pub last_sector-cluster :
      (c s : ℕ)
      → InRange v blocks c
      → s ≡ cluster_sector v c + v.cluslen
      → u32 (u32 (u32 (s + 2 ^ 32 - 1) + 2 ^ 32 - v.root) / v.cluslen + 2) ≡ c
  unfolding cluster_sector
  last_sector-cluster c s range at =
      let x = (c - 2) * v.cluslen in
      let some_sectors = range.some_sectors in
      let from = range.from in
      let to = range.to in
      let held = range.held in
      let word' = range.word in
      let m : (c + 2 ^ 32 - 2) % 2 ^ 32 ≡ c - 2 = omega arith in
      let here : s ≡ v.root + x + v.cluslen = at ∙ rw m (omega arith) in
      let inner : u32 (u32 (s + 2 ^ 32 - 1) + 2 ^ 32 - v.root) ≡ x + v.cluslen - 1 = omega arith in
      let over : x + v.cluslen - 1 < (c - 2 + 1) * v.cluslen = omega arith in
      let q : (x + v.cluslen - 1) / v.cluslen ≡ c - 2 =
        div-eq_of_lt-le v.cluslen (omega arith) over in
      rw (inner, q) (omega arith)
