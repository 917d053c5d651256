-- ===== src/FatRead/Offset.antt =====
-- What `read_fat32file` of src/fs/fat32.c returns for fewer bytes than a sector has.
use ras_pi_k.Base.{
  ℕ, zero, suc, ◌+◌, ◌-◌, ◌*◌, ◌/◌, ◌^◌, ◌<◌, ◌≤◌, ◌≡◌, ◌≢◌, refl, ap, ◌∙◌, some, true, false, [],
  ◌∷◌, ◌++◌, ◌&&◌, pos, arith, ◌==◌, ltb, leb, if◌then◌else◌, min, Bool-cases, inl, inr,
}
use ras_pi_k.Store.{Ptr, null, update}
use ras_pi_k.Store.Blocks.{tabulate}
use ras_pi_k.Vffs.{u32}
use ras_pi_k.Kernel.{Kernel, finished}
use ras_pi_k.Mbr.{Buffer, overlay}
use ras_pi_k.Vfs.Devices.{Inside}
use ras_pi_k.FatVolume.{blk_size, Volume, FatFile, FatObjects, Disk, cluster_sector}
use ras_pi_k.FatVolume.Device.{Serves, blk_size-IsSectors, allocated, overlay-tabulate}
use ras_pi_k.FatRead.{
  copy_block, Progress, take_block, put_block, next_sector, short_round, read_shortfile,
  sectors_for, read_fat32file,
}

pub copy_block-at :
    (n j total : ℕ) (buff buf : Buffer) (q : ℕ)
    → copy_block n j total buff buf q
      ≡ (if leb (total + j) q && ltb q (total + j + n) then buff (q - total) else buf q)
unfolding copy_block
copy_block-at zero j total buff buf q = ground arith
copy_block-at (suc n) j total buff buf q =
    ground (arith, copy_block-at n (j + 1) total buff (update buf (total + j) (buff j)) q)

module _ {Hw : Type 0} {disk : Disk Hw} {image : ℕ → Buffer} {blocks : ℕ}
    {Ready : Kernel Hw FatObjects → Type 0} {Open : Kernel Hw FatObjects → ℕ → Type 0}
    {At : Kernel Hw FatObjects → ℕ → ℕ → Type 0} (v : Volume)
    (serves : Serves disk v.devpath image blocks Ready Open At) where
  pub short_round-image :
      (p : Progress) (k : Kernel Hw FatObjects)
      → Ready k
      → Inside blocks p.sector 1
      → p.base ≢ null
      → (before : Buffer) × (k' : Kernel Hw FatObjects) × (short_round disk v p k
          ≡ finished
              (some
                (next_sector (take_block p (overlay (tabulate blk_size (image p.sector)) before))))
              k')
        × Ready k'
  unfolding short_round put_block
  short_round-image p k ready small base =
      let (live, ready₁) = serves.allocates k ready in
      let got : ((k.store.pool 0).address == null) ≡ false = ground arith in
      let (fd, k₂, e₂, is_open, _) = serves.opens (allocated k) ready₁ in
      let (k₃, e₃, at, _) = serves.seeks k₂ fd p.sector is_open small.0 in
      let (k₄, e₄, still, _) = serves.reads k₃ fd p.sector blk_size at small blk_size-IsSectors in
      let (ret, k₅, e₅, ready₅, _) = serves.closes k₄ fd still in
      let there : (p.base == null) ≡ false = ground arith in
      ((k.store.pool 0).junk, k₅, rw (got, e₂, e₃, e₄, e₅, there) refl, ready₅)

pub tabulate-ext :
    (n : ℕ) (f g : Buffer) → ((i : ℕ) → i < n → f i ≡ g i) → tabulate n f ≡ tabulate n g
unfolding tabulate
tabulate-ext zero f g h = refl
tabulate-ext (suc n) f g h =
    let first = h 0 (omega arith) in
    let rest = tabulate-ext n (λ i. f (i + 1)) (λ i. g (i + 1)) (λ i k. h (i + 1) (omega arith)) in
    rw (first, rest) refl

-- the file's buffer after a read of its first sector: what `kmalloc` left behind it stays
abbrev pub first_sector : Buffer → ℕ → Buffer → Buffer
first_sector content size before i = if ltb i (min blk_size size) then content i else before i

take_block-first_sector :
    (base sector size i : ℕ) (content before junk : Buffer)
    → (take_block
          (record { base = base; buf = junk; total = 0; left = size; sector = sector })
          (overlay (tabulate blk_size content) before)).buf
        i
      ≡ first_sector content size junk i
unfolding take_block
take_block-first_sector base sector size i content before junk =
    let n = if ltb blk_size size then blk_size else size in
    let buff = overlay (tabulate blk_size content) before in
    elim (Bool-cases (ltb i blk_size)) [
      | inl h ↦
          let e = overlay-tabulate blk_size content i (before i) (ground arith) in
          copy_block-at n 0 0 buff junk i ∙ ground (arith, e)
      | inr h ↦ copy_block-at n 0 0 buff junk i ∙ ground arith
    ]

module _ {Hw : Type 0} {disk : Disk Hw} {image : ℕ → Buffer} {blocks : ℕ}
    {Ready : Kernel Hw FatObjects → Type 0} {Open : Kernel Hw FatObjects → ℕ → Type 0}
    {At : Kernel Hw FatObjects → ℕ → ℕ → Type 0} (v : Volume) (f : FatFile)
    (serves : Serves disk v.devpath image blocks Ready Open At) where
  -- the sector that a file begins at
  abbrev pub file_sector : ℕ
  file_sector = cluster_sector v (u32 (f.dir.clhigh * 0x10000 + f.dir.cllow))

  -- On a device that serves reads of whole sectors, with memory, on a volume whose clusters have
  -- sectors: a read of some bytes, fewer than a sector has, inside the file, reads the first sector
  -- of the file, which lies among the blocks of the device, whatever the offset is. Behind that
  -- sector it returns what `kmalloc` left in the buffer.
  pub read_fat32file-first_sector :
      (p : Ptr) (offset len : ℕ) (k : Kernel Hw FatObjects)
      → k.fat.file p ≡ some f
      → k.fat.volume f.info ≡ some v
      → Ready k
      → Inside blocks file_sector 1
      → 0 < len
      → len < v.seclen
      → 0 < v.cluslen
      → offset + len ≤ f.dir.size
      → f.dir.size < 2 ^ 32
      → (k' : Kernel Hw FatObjects) × (read_fat32file disk p offset len k
          ≡ finished
              (
                pos len,
                offset + len,
                tabulate len (λ i.
                      first_sector
                        (image file_sector)
                        f.dir.size
                        (k.store.pool 0).junk
                        (offset + i))
                    ++ (0 ∷ []),
              )
              k')
        × Ready k'
  unfolding read_fat32file read_shortfile sectors_for
  read_fat32file-first_sector p offset len k held volume ready small some_len short clus inside
        word =
      let size = f.dir.size in
      let (live, ready₁) = serves.allocates k ready in
      let start : Progress = record {
        base = (k.store.pool 0).address;
        buf = (k.store.pool 0).junk;
        total = 0;
        left = size;
        sector = file_sector;
      } in
      let (before, k', e, ready') =
        short_round-image v serves start (allocated k) ready₁ small live in
      let not_empty : (len == 0) ≡ false = ground arith in
      let lens : (v.seclen == 0) ≡ false = ground arith in
      let left : u32 (size + 2 ^ 32 - offset) ≡ size - offset = omega arith in
      let count : min (min len (u32 (size + 2 ^ 32 - offset))) (size - offset) ≡ len =
        omega arith in
      let wanted : min len (size - offset) ≡ len = omega arith in
      let none_whole : len / v.seclen ≡ 0 = grind arith in
      let fits : leb (0 + 1) v.cluslen ≡ true = ground arith in
      let to : u32 (offset + len) ≡ offset + len = omega arith in
      (
        k',
        rw (not_empty, held, volume, lens, left, wanted, none_whole, fits, e)
            (rw (count, to)
              (ap (λ bs. finished (pos len, offset + len, bs ++ (0 ∷ [])) k')
                (tabulate-ext len _ _ (λ i h.
                  take_block-first_sector (k.store.pool 0).address file_sector size (offset + i)
                    (image file_sector) before (k.store.pool 0).junk)))),
        ready',
      )
