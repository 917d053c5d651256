-- ===== src/FatRead/Whole.antt =====
-- What `read_fat32file` of src/fs/fat32.c returns of a file that lies in one cluster.
use ras_pi_k.Base.{
  ℕ, zero, suc, ◌+◌, ◌-◌, ◌*◌, ◌/◌, ◌%◌, ◌^◌, ◌<◌, ◌≤◌, ◌≡◌, ◌≢◌, refl, ap, ◌∙◌, some, true, false,
  [], ◌∷◌, ◌++◌, ◌&&◌, pos, arith, ◌==◌, ltb, leb, if◌then◌else◌, min, Bool-cases, inl, inr,
}
use ras_pi_k.Store.{Ptr, null}
use ras_pi_k.Store.Blocks.{tabulate}
use ras_pi_k.Vffs.{u32}
use ras_pi_k.Kernel.{Kernel, finished}
use ras_pi_k.Mbr.{Buffer, overlay}
use ras_pi_k.Vfs.Devices.{Inside}
use ras_pi_k.FatVolume.{blk_size, Volume, FatFile, FatObjects, Disk}
use ras_pi_k.FatVolume.Device.{Serves, allocated, overlay-tabulate}
use ras_pi_k.FatRead.{
  Progress, take_block, next_sector, read_shortfile, sectors_for, read_fat32file,
}
use ras_pi_k.FatRead.Offset.{copy_block-at, short_round-image, tabulate-ext, file_sector}

-- the bytes from a sector on, over the sectors that follow
abbrev pub content : (ℕ → Buffer) → ℕ → Buffer
content image sector i = image (sector + i / blk_size) (i % blk_size)

-- the bytes of a file that `t` sectors have
abbrev pub loaded : ℕ → ℕ → ℕ
loaded size t = min (t * blk_size) size

module _ (image : ℕ → Buffer) (sector size : ℕ) (junk : Buffer) where
  -- The variables of the loop after `t` sectors.
  record Stage (t : ℕ) (p : Progress) : Type 0 where
    pub base : p.base ≢ null
    pub total : p.total ≡ loaded size t
    pub left : p.left ≡ size - loaded size t
    pub at : p.sector ≡ sector + t
    pub bytes :
        (i : ℕ) → p.buf i ≡ (if ltb i (loaded size t) then content image sector i else junk i)

  take_block-Stage :
      (t : ℕ) (p : Progress) (before : Buffer)
      → size < 2 ^ 32
      → sector + t < 2 ^ 31
      → Stage t p
      → Stage
          (t + 1)
          (next_sector (take_block p (overlay (tabulate blk_size (image p.sector)) before)))
  unfolding take_block
  take_block-Stage t p before word small s =
      let n = if ltb blk_size p.left then blk_size else p.left in
      let buff = overlay (tabulate blk_size (image p.sector)) before in
      let total = s.total in
      let left = s.left in
      let at = s.at in
      let here : (i : ℕ)
          → loaded size t ≤ i
          → i < loaded size (t + 1)
          → buff (i - p.total) ≡ content image sector i =
        λ i lo hi.
          (let j : i - p.total < blk_size = omega arith in
            let eq : i - p.total ≡ i % blk_size = omega arith in
            let es : p.sector ≡ sector + i / blk_size = omega arith in
            overlay-tabulate blk_size (image p.sector) (i - p.total) (before (i - p.total)) j
            ∙ rw (es, eq) refl) in
      record {
        base = s.base;
        total = ground arith;
        left = ground arith;
        at = ground arith;
        bytes = λ i.
            copy_block-at n 0 p.total buff p.buf i
            ∙ joined i t p n buff (ground arith) (here i) (s.bytes i);
      }
    where
      joined :
          (i t : ℕ) (p : Progress) (n : ℕ) (buff : Buffer)
          → (p.total ≡ loaded size t) × (p.total + n ≡ loaded size (t + 1))
          → (loaded size t ≤ i
              → i < loaded size (t + 1)
              → buff (i - p.total) ≡ content image sector i)
          → p.buf i ≡ (if ltb i (loaded size t) then content image sector i else junk i)
          → (if leb (p.total + 0) i && ltb i (p.total + 0 + n) then buff (i - p.total) else p.buf i)
            ≡ (if ltb i (loaded size (t + 1)) then content image sector i else junk i)
      joined i t p n buff (from, to) here old =
          let copied = leb (p.total + 0) i && ltb i (p.total + 0 + n) in
          elim (Bool-cases (ltb i (loaded size t))) [
            | inl before ↦
                let outside : copied ≡ false = ground arith in
                let still : ltb i (loaded size (t + 1)) ≡ true = ground arith in
                rw (outside, still) (old ∙ rw before refl)
            | inr behind ↦ elim (Bool-cases (ltb i (loaded size (t + 1)))) [
              | inl new ↦
                  let inside : copied ≡ true = ground arith in
                  rw (inside, new) (here (ground arith) (ground arith))
              | inr past ↦
                  let outside : copied ≡ false = ground arith in
                  rw (outside, past) (old ∙ rw behind refl)
            ]
          ]

-- the sectors of a file of less than 128 of them
sectors_for-few :
    {Hw : Type 0} (disk : Disk Hw) (v : Volume) (size : ℕ)
    → v.seclen ≡ blk_size
    → size < 128 * blk_size
    → sectors_for disk v size ≡ size / blk_size + 1
unfolding sectors_for
sectors_for-few disk v size blocks few = rw blocks (ground arith)

module _ {Hw : Type 0} {disk : Disk Hw} {image : ℕ → Buffer} {blocks : ℕ}
    {Ready : Kernel Hw FatObjects → Type 0} {Open : Kernel Hw FatObjects → ℕ → Type 0}
    {At : Kernel Hw FatObjects → ℕ → ℕ → Type 0} (v : Volume)
    (serves : Serves disk v.devpath image blocks Ready Open At) (sector size : ℕ) (junk : Buffer)
    (word : size < 2 ^ 32) where
  read_shortfile-Stage :
      (n t : ℕ) (p : Progress) (k : Kernel Hw FatObjects)
      → Ready k
      → Inside blocks (sector + t + n) 0
      → Stage image sector size junk t p
      → (p' : Progress) × (k' : Kernel Hw FatObjects) × (read_shortfile disk n v p k
          ≡ finished (some p') k')
        × Ready k'
        × Stage image sector size junk (t + n) p'
  unfolding read_shortfile
  read_shortfile-Stage zero t p k ready small s =
      let e : t + 0 ≡ t = omega arith in (p, k, refl, ready, rw e s)
  read_shortfile-Stage (suc n) t p k ready small s =
      let at = s.at in
      let (before, k₁, e₁, ready₁) = short_round-image v serves p k ready (omega arith) s.base in
      let s₁ = take_block-Stage image sector size junk t p before word (omega arith) s in
      let (p', k', e', ready', s') = read_shortfile-Stage n (t + 1) _ k₁ ready₁ (omega arith) s₁ in
      let e : t + suc n ≡ t + 1 + n = omega arith in (p', k', rw e₁ e', ready', rw e s')

module _ {Hw : Type 0} {disk : Disk Hw} {image : ℕ → Buffer} {blocks : ℕ}
    {Ready : Kernel Hw FatObjects → Type 0} {Open : Kernel Hw FatObjects → ℕ → Type 0}
    {At : Kernel Hw FatObjects → ℕ → ℕ → Type 0} (v : Volume) (f : FatFile)
    (serves : Serves disk v.devpath image blocks Ready Open At) where
  -- On a device that serves reads of whole sectors, with memory, on a volume of sectors of 512
  -- bytes and clusters of at most 128 of them: a read from the start, of at least the size of the
  -- file, where the file has bytes and fewer of them than its first cluster, comes to an end and
  -- returns the size and the bytes of the file, with a terminator behind them. The sectors of the
  -- file lie among the blocks of the device, and their numbers fit an `int`.
  pub read_fat32file-whole :
      (p : Ptr) (len : ℕ) (k : Kernel Hw FatObjects)
      → k.fat.file p ≡ some f
      → k.fat.volume f.info ≡ some v
      → Ready k
      → v.seclen ≡ blk_size
      → 0 < f.dir.size
      → f.dir.size < v.cluslen * blk_size
      → v.cluslen ≤ 128
      → file_sector v f serves + 128 < 2 ^ 31
      → file_sector v f serves + (f.dir.size / blk_size + 1) ≤ blocks
      → f.dir.size ≤ len
      → (k' : Kernel Hw FatObjects) × (read_fat32file disk p 0 len k
          ≡ finished
              (
                pos f.dir.size,
                f.dir.size,
                tabulate f.dir.size (content image (file_sector v f serves)) ++ (0 ∷ []),
              )
              k')
        × Ready k'
  unfolding read_fat32file
  read_fat32file-whole p len k held volume ready blocks some_bytes fits few small held_blocks all =
      let size = f.dir.size in
      let sector = file_sector v f serves in
      let junk = (k.store.pool 0).junk in
      let (live, ready₁) = serves.allocates k ready in
      let start : Progress = record {
        base = (k.store.pool 0).address;
        buf = junk;
        total = 0;
        left = size;
        sector = sector;
      } in
      let begun : Stage image sector size junk 0 start = record {
        base = live;
        total = omega arith;
        left = omega arith;
        at = omega arith;
        bytes = λ i. ground arith;
      } in
      let n = size / blk_size + 1 in
      let (p', k', e, ready', end) =
        read_shortfile-Stage v serves sector size junk (omega arith) n 0 start (allocated k) ready₁
          (omega arith) begun in
      let not_empty : (len == 0) ≡ false = ground arith in
      let lens : (v.seclen == 0) ≡ false = ground arith in
      let left : u32 (size + 2 ^ 32 - 0) ≡ size = omega arith in
      let wanted : min len size ≡ size = omega arith in
      let sectors = sectors_for-few disk v size blocks (omega arith) in
      let in_cluster : leb n v.cluslen ≡ true = ground arith in
      let whole : min (min len (u32 (size + 2 ^ 32 - 0))) (size - 0) ≡ size = omega arith in
      let to : u32 (0 + size) ≡ size = omega arith in
      let bytes : (i : ℕ) → i < size → p'.buf (0 + i) ≡ content image sector i = λ i lt.
        (let e₀ : 0 + i ≡ i = omega arith in
          let inside : ltb i (loaded size (0 + n)) ≡ true = ground arith in
          rw e₀ (end.bytes i ∙ rw inside refl)) in
      (
        k',
        rw (not_empty, held, volume, lens, left, wanted, sectors, in_cluster, e)
            (rw (whole, to)
              (ap (λ bs. finished (pos size, size, bs ++ (0 ∷ [])) k')
                (tabulate-ext size _ _ bytes))),
        ready',
      )
