-- ===== src/FatRead/Chain.antt =====
-- What `read_longfile` and `read_fat32file` of src/fs/fat32.c read along a chain of clusters.

use ras_pi_k.Base.{
  ℕ, zero, suc, ◌+◌, ◌-◌, ◌*◌, ◌^◌, ◌<◌, ◌≤◌, ◌≡◌, refl, ap, ◌∙◌, some, true, false, List, [], ◌∷◌,
  ◌++◌, pos, arith, ◌==◌, ltb, leb, min, length,
}
use ras_pi_k.Store.{Ptr}
use ras_pi_k.Store.Blocks.{tabulate}
use ras_pi_k.Vffs.{u32}
use ras_pi_k.Kernel.{Kernel, finished}
use ras_pi_k.Mbr.{Buffer}
use ras_pi_k.FatVolume.{blk_size, Volume, FatFile, FatObjects, Disk, cluster_sector}
use ras_pi_k.FatVolume.Device.{Serves, allocated, next_of, next_cluster-next_of}
use ras_pi_k.FatRead.{sectors_for, read_fat32file, Progress, long_clusters, read_longfile}
use ras_pi_k.FatRead.Offset.{tabulate-ext}
use ras_pi_k.FatRead.Range.{InRange, in_range, last_sector-cluster, rounds_enough}
use ras_pi_k.FatRead.Long.{Have, Agree, long_cluster-Have}

-- The bytes of `want` from `n` on, up to `size`, lie in the cluster `c` and in those that follow it
-- in the table.
unfoldable pub Lies : Volume → (ℕ → Buffer) → ℕ → Buffer → ℕ → ℕ → List ℕ → ℕ → Type 0
Lies v image blocks want size c [] n =
    InRange v blocks c
    × Agree image want size n (cluster_sector v c) v.cluslen
    × (size ≤ n + v.cluslen * blk_size)
Lies v image blocks want size c (d ∷ cs) n =
    InRange v blocks c
    × Agree image want size n (cluster_sector v c) v.cluslen
    × (n + v.cluslen * blk_size < size)
    × (next_of v image c ≡ some d)
    × Lies v image blocks want size d cs (n + v.cluslen * blk_size)

module _ {Hw : Type 0} {disk : Disk Hw} {image : ℕ → Buffer} {blocks : ℕ}
    {Ready : Kernel Hw FatObjects → Type 0} {Open : Kernel Hw FatObjects → ℕ → Type 0}
    {At : Kernel Hw FatObjects → ℕ → ℕ → Type 0} (v : Volume)
    (serves : Serves disk v.devpath image blocks Ready Open At) (want junk : Buffer) (size : ℕ)
    (word : size < 2 ^ 32) where
  long_clusters-Lies :
      (cs : List ℕ) (rounds c n : ℕ) (p : Progress) (k : Kernel Hw FatObjects)
      → length cs < rounds
      → n < size
      → p.sector ≡ cluster_sector v c
      → Lies v image blocks want size c cs n
      → Ready k
      → Have want junk size n p
      → (p' : Progress) × (k' : Kernel Hw FatObjects) × (long_clusters disk rounds v p k
          ≡ finished (some p') k')
        × Ready k'
        × Have want junk size size p'
  unfolding long_clusters Lies
  long_clusters-Lies cs zero c n p k enough more at lies ready h = absurd (omega arith)
  long_clusters-Lies [] (suc r) c n p k enough more at (range, agree, ends) ready h =
      let (p₁, k₁, e₁, ready₁, h₁, _) =
        long_cluster-Have v serves want junk size word v.cluslen n p k ready more
          (in_range v blocks c p range at) h (rw at agree) in
      let all : min (n + v.cluslen * blk_size) size ≡ size = ground arith in
      let left = h₁.left in
      let none_left : (p₁.left == 0) ≡ true = ground arith in
      (p₁, k₁, rw (e₁, none_left) refl, ready₁, rw all at h₁)
  long_clusters-Lies (d ∷ cs) (suc r) c n p k enough more at (range, agree, on, link, lies) ready
        h =
      let (p₁, k₁, e₁, ready₁, h₁, behind) =
        long_cluster-Have v serves want junk size word v.cluslen n p k ready more
          (in_range v blocks c p range at) h (rw at agree) in
      let part : min (n + v.cluslen * blk_size) size ≡ n + v.cluslen * blk_size = ground arith in
      let left = h₁.left in
      let some_left : (p₁.left == 0) ≡ false = ground arith in
      let same = last_sector-cluster v blocks c p₁.sector range (behind on ∙ rw at refl) in
      let (k₂, e₂, ready₂, _) = next_cluster-next_of serves k₁ v c refl ready₁ range.entry in
      let p₂ = record p₁ { sector = cluster_sector v d } in
      let h₂ = rw part at h₁ in
      let (p₃, k₃, e₃, ready₃, h₃) =
        long_clusters-Lies cs r d (n + v.cluslen * blk_size) p₂ k₂ (omega arith) on refl lies ready₂
          (record { base = h₂.base; total = h₂.total; left = h₂.left; bytes = h₂.bytes }) in
      (p₃, k₃, rw (e₁, some_left, same, e₂, link) e₃, ready₃, h₃)

  clusters_have_sectors :
      (cs : List ℕ) (c n : ℕ) → Lies v image blocks want size c cs n → 0 < v.cluslen
  unfolding Lies
  clusters_have_sectors [] c n lies = lies.0.some_sectors
  clusters_have_sectors (d ∷ cs) c n lies = lies.0.some_sectors

  long_enough :
      (cs : List ℕ) (c n : ℕ)
      → n < size
      → Lies v image blocks want size c cs n
      → n + length cs * (v.cluslen * blk_size) < size
  unfolding Lies
  long_enough [] c n more lies = omega arith
  long_enough (d ∷ cs) c n more (_, _, on, _, lies) =
      let rest = long_enough cs d (n + v.cluslen * blk_size) on lies in omega arith

  read_longfile-Lies :
      (cs : List ℕ) (nbsectors c : ℕ) (p : Progress) (k : Kernel Hw FatObjects)
      → 0 < size
      → size ≤ nbsectors * blk_size
      → p.sector ≡ cluster_sector v c
      → Lies v image blocks want size c cs 0
      → Ready k
      → Have want junk size 0 p
      → (p' : Progress) × (k' : Kernel Hw FatObjects) × (read_longfile disk nbsectors v p k
          ≡ finished (some p') k')
        × Ready k'
        × Have want junk size size p'
  unfolding read_longfile
  read_longfile-Lies cs nbsectors c p k more enough at lies ready h =
      let some_sectors = clusters_have_sectors cs c 0 lies in
      let not_none : (v.cluslen == 0) ≡ false = ground arith in
      let long = long_enough cs c 0 more lies in
      let fewer : length cs * v.cluslen < nbsectors = omega arith in
      rw not_none (
        long_clusters-Lies cs _ c 0 p k
          (rounds_enough (length cs) v.cluslen nbsectors some_sectors fewer) more at lies ready h)

module _ {Hw : Type 0} {disk : Disk Hw} {image : ℕ → Buffer} {blocks : ℕ}
    {Ready : Kernel Hw FatObjects → Type 0} {Open : Kernel Hw FatObjects → ℕ → Type 0}
    {At : Kernel Hw FatObjects → ℕ → ℕ → Type 0} (v : Volume) (f : FatFile)
    (serves : Serves disk v.devpath image blocks Ready Open At) (want : Buffer) where
  -- On a device that serves reads of whole sectors, with memory, on a volume of sectors of 512
  -- bytes: a read from the start, of at least the size of the file, where the file has bytes, fewer
  -- than 2 ^ 32, they lie in a chain of clusters among the blocks of the device, with sector
  -- numbers below 2 ^ 31, the first of which is in its entry, and where the sectors that are asked
  -- for are more than a cluster has and have room for the file, comes to an end and returns the
  -- size and the bytes of the file, with a terminator behind them.
  pub read_fat32file-chain :
      (cs : List ℕ) (p : Ptr) (len : ℕ) (k : Kernel Hw FatObjects)
      → k.fat.file p ≡ some f
      → k.fat.volume f.info ≡ some v
      → Ready k
      → Lies v image blocks want f.dir.size (u32 (f.dir.clhigh * 0x10000 + f.dir.cllow)) cs 0
      → v.seclen ≡ blk_size
      → 0 < f.dir.size
      → f.dir.size < 2 ^ 32
      → v.cluslen < sectors_for disk v f.dir.size
      → f.dir.size ≤ sectors_for disk v f.dir.size * blk_size
      → f.dir.size ≤ len
      → (k' : Kernel Hw FatObjects) × (read_fat32file disk p 0 len k
          ≡ finished (pos f.dir.size, f.dir.size, tabulate f.dir.size want ++ (0 ∷ [])) k')
        × Ready k'
  unfolding read_fat32file
  read_fat32file-chain cs p len k held volume ready lies blocks some_bytes word long enough all =
      let size = f.dir.size in
      let c = u32 (f.dir.clhigh * 0x10000 + f.dir.cllow) in
      let junk = (k.store.pool 0).junk in
      let (live, ready₁) = serves.allocates k ready in
      let start : Progress = record {
        base = (k.store.pool 0).address;
        buf = junk;
        total = 0;
        left = size;
        sector = cluster_sector v c;
      } in
      let begun : Have want junk size 0 start = record {
        base = live;
        total = refl;
        left = omega arith;
        bytes = λ i. ground arith;
      } in
      let n = sectors_for disk v size in
      let (p', k', e, ready', end) =
        read_longfile-Lies v serves want junk size word cs n c start (allocated k) some_bytes enough
          refl lies ready₁ begun in
      let not_empty : (len == 0) ≡ false = ground arith in
      let lens : (v.seclen == 0) ≡ false = ground arith in
      let left : u32 (size + 2 ^ 32 - 0) ≡ size = omega arith in
      let wanted : min len size ≡ size = omega arith in
      let not_one : leb n v.cluslen ≡ false = ground arith in
      let whole : min (min len (u32 (size + 2 ^ 32 - 0))) (size - 0) ≡ size = omega arith in
      let to : u32 (0 + size) ≡ size = omega arith in
      let bytes : (i : ℕ) → i < size → p'.buf (0 + i) ≡ want i = λ i lt.
        (let e₀ : 0 + i ≡ i = omega arith in
          let inside : ltb i size ≡ true = ground arith in rw e₀ (end.bytes i ∙ rw inside refl)) in
      (
        k',
        rw (not_empty, held, volume, lens, left, wanted, not_one, e)
            (rw (whole, to)
              (ap (λ bs. finished (pos size, size, bs ++ (0 ∷ [])) k')
                (tabulate-ext size _ _ bytes))),
        ready',
      )
