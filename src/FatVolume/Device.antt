-- ===== src/FatVolume/Device.antt =====
-- What src/fs/fat32.c relies on of the device of a volume, and what its reads then return.
use ras_pi_k.Base.{
  ℕ, zero, suc, ◌+◌, ◌*◌, ◌/◌, ◌%◌, ◌^◌, ◌-◌, ◌<◌, ◌≡◌, ◌≢◌, refl, ◌∙◌, Option, none, some, true,
  false, ℤ, pos, negsuc, arith, ◌==◌, leb, if◌then◌else◌, bit_and, get_or, Bool-cases, inl, inr,
}
use ras_pi_k.Strings.{CString}
use ras_pi_k.Store.{null}
use ras_pi_k.Store.Blocks.{tabulate}
use ras_pi_k.Vffs.{u32}
use ras_pi_k.Kernel.{Kernel, finished}
use ras_pi_k.Vfs.{o_rdonly, int_of}
use ras_pi_k.Vfs.Devices.{Inside, IsSectors}
use ras_pi_k.Mbr.{Buffer, overlay, le32}
use ras_pi_k.FatVolume.{
  blk_size, fat32_cluster_mask, fat32_cluster_bad, Volume, FatObjects, Disk, byte_to_int,
  cluster_size, read_at, get_entry, next_cluster, read_cluster,
}

-- the kernel after a call of `kmalloc`
abbrev pub allocated : {Hw : Type 0} → Kernel Hw FatObjects → Kernel Hw FatObjects
allocated k = record k { store = record k.store { pool = λ i. k.store.pool (i + 1) } }

-- The device at `path` can be opened, positioned at a sector, read and closed again; a read of
-- whole sectors among its blocks returns the bytes of the image from that sector on. There is
-- memory. `Ready`, `Open` and `At` are the states in between: ready to open, open, and open at a
-- sector.
pub record Serves {Hw : Type 0} (disk : Disk Hw) (path : CString) (image : ℕ → Buffer) (blocks : ℕ)
    (Ready : Kernel Hw FatObjects → Type 0) (Open : Kernel Hw FatObjects → ℕ → Type 0)
    (At : Kernel Hw FatObjects → ℕ → ℕ → Type 0) : Type 0 where
  pub opens :
      (k : Kernel Hw FatObjects)
      → Ready k
      → (fd : ℕ) × (k' : Kernel Hw FatObjects) × (disk.open_disk path o_rdonly k
          ≡ finished (pos fd) k')
        × Open k' fd
        × (k'.fat ≡ k.fat)
  pub seeks :
      (k : Kernel Hw FatObjects) (fd sector : ℕ)
      → Open k fd
      → sector < 2 ^ 31
      → (k' : Kernel Hw FatObjects) × (disk.seek_disk (pos fd) sector k ≡ finished (pos sector) k')
        × At k' fd sector
        × (k'.fat ≡ k.fat)
  pub reads :
      (k : Kernel Hw FatObjects) (fd sector len : ℕ)
      → At k fd sector
      → Inside blocks sector (len / 512)
      → IsSectors len
      → (k' : Kernel Hw FatObjects) × (disk.read_disk (pos fd) len k
          ≡ finished (pos len, tabulate len (image sector)) k')
        × Open k' fd
        × (k'.fat ≡ k.fat)
  pub closes :
      (k : Kernel Hw FatObjects) (fd : ℕ)
      → Open k fd
      → (ret : ℤ) × (k' : Kernel Hw FatObjects) × (disk.close_disk (pos fd) k ≡ finished ret k')
        × Ready k'
        × (k'.fat ≡ k.fat)
  pub allocates :
      (k : Kernel Hw FatObjects) → Ready k → ((k.store.pool 0).address ≢ null) × Ready (allocated k)
  pub allocates_at :
      (k : Kernel Hw FatObjects) (fd sector : ℕ)
      → At k fd sector
      → ((k.store.pool 0).address ≢ null) × At (allocated k) fd sector

pub blk_size-IsSectors : IsSectors blk_size
blk_size-IsSectors = (omega arith, omega arith, omega arith)

pub overlay-tabulate : (n : ℕ) (f : Buffer) (i d : ℕ) → i < n → get_or (tabulate n f) i d ≡ f i
unfolding tabulate
overlay-tabulate zero f i d h = absurd (omega arith)
overlay-tabulate (suc n) f zero d h = refl
overlay-tabulate (suc n) f (suc i) d h =
    let next : i + 1 ≡ suc i = omega arith in
    rw next at (overlay-tabulate n (λ j. f (j + 1)) i d (omega arith))

-- the sector of the table that has the entry of a cluster, and the index of the entry in it
abbrev pub fat_sector : Volume → ℕ → ℕ
fat_sector v cluster = u32 (v.firstfat + u32 (cluster * 4) / blk_size)

abbrev pub fat_index : ℕ → ℕ
fat_index cluster = u32 (cluster * 4) % blk_size

-- the entry of a cluster in an image
abbrev pub fat_entry : Volume → (ℕ → Buffer) → ℕ → ℕ
fat_entry v image cluster = le32 (image (fat_sector v cluster)) (fat_index cluster)

-- the cluster that follows in the chain: an entry with the highest bit, and the marks of a bad
-- cluster and of the end, end it
unfoldable pub next_of : Volume → (ℕ → Buffer) → ℕ → Option ℕ
next_of v image cluster =
    let entry = fat_entry v image cluster in
    let next = bit_and entry fat32_cluster_mask in
    if leb (2 ^ 31) entry then none else if leb fat32_cluster_bad next then none else some next

byte_to_int-image :
    (cluster : ℕ) (m before : Buffer)
    → byte_to_int (overlay (tabulate blk_size m) before) (fat_index cluster)
      ≡ le32 m (fat_index cluster)
unfolding byte_to_int
byte_to_int-image cluster m before =
    let i = fat_index cluster in
    let e₀ = overlay-tabulate blk_size m i (before i) (omega arith) in
    let e₁ = overlay-tabulate blk_size m (i + 1) (before (i + 1)) (omega arith) in
    let e₂ = overlay-tabulate blk_size m (i + 2) (before (i + 2)) (omega arith) in
    let e₃ = overlay-tabulate blk_size m (i + 2 + 1) (before (i + 2 + 1)) (omega arith) in
    rw (e₀, e₁, e₂, e₃) refl

module _ {Hw : Type 0} {disk : Disk Hw} {path : CString} {image : ℕ → Buffer} {blocks : ℕ}
    {Ready : Kernel Hw FatObjects → Type 0} {Open : Kernel Hw FatObjects → ℕ → Type 0}
    {At : Kernel Hw FatObjects → ℕ → ℕ → Type 0}
    (serves : Serves disk path image blocks Ready Open At) where
  pub read_at-image :
      (k : Kernel Hw FatObjects) (fd sector len : ℕ)
      → Open k fd
      → Inside blocks sector (len / 512)
      → IsSectors len
      → (k' : Kernel Hw FatObjects) × (read_at disk (pos fd) sector len k
          ≡ finished (some (tabulate len (image sector))) k')
        × Ready k'
        × (k'.fat ≡ k.fat)
  unfolding read_at
  read_at-image k fd sector len is_open small whole =
      let (k₁, e₁, at, f₁) = serves.seeks k fd sector is_open small.0 in
      let (k₂, e₂, still, f₂) = serves.reads k₁ fd sector len at small whole in
      let (ret, k₃, e₃, ready, f₃) = serves.closes k₂ fd still in
      let same : (len == len) ≡ true = ground arith in
      (k₃, rw (e₁, e₂, e₃, same) refl, ready, f₃ ∙ (f₂ ∙ f₁))

  -- A cluster of the directory is read whole, into a buffer that had other bytes behind it.
  pub read_cluster-image :
      (k : Kernel Hw FatObjects) (v : Volume) (sector : ℕ)
      → v.devpath ≡ path
      → Ready k
      → Inside blocks sector (cluster_size v / 512)
      → IsSectors (cluster_size v)
      → (before : Buffer) × (k' : Kernel Hw FatObjects) × (read_cluster disk v sector k
          ≡ finished (some (overlay (tabulate (cluster_size v) (image sector)) before)) k')
        × Ready k'
        × (k'.fat ≡ k.fat)
  unfolding read_cluster
  read_cluster-image k v sector here ready small whole =
      let (live, ready₁) = serves.allocates k ready in
      let got : ((k.store.pool 0).address == null) ≡ false = ground arith in
      let (fd, k₂, e₂, is_open, f₂) = serves.opens (allocated k) ready₁ in
      let (k₃, e₃, ready₃, f₃) = read_at-image k₂ fd sector (cluster_size v) is_open small whole in
      ((k.store.pool 0).junk, k₃, rw (got, here, e₂, e₃) refl, ready₃, f₃ ∙ f₂)

  pub get_entry-image :
      (k : Kernel Hw FatObjects) (v : Volume) (cluster : ℕ)
      → v.devpath ≡ path
      → Ready k
      → Inside blocks (fat_sector v cluster) 1
      → (k' : Kernel Hw FatObjects) × (get_entry disk v cluster k
          ≡ finished (int_of (fat_entry v image cluster)) k')
        × Ready k'
        × (k'.fat ≡ k.fat)
  unfolding get_entry
  get_entry-image k v cluster here ready small =
      let sector = fat_sector v cluster in
      let (fd, k₁, e₁, is_open, f₁) = serves.opens k ready in
      let (k₂, e₂, at, f₂) = serves.seeks k₁ fd sector is_open small.0 in
      let (live, at₃) = serves.allocates_at k₂ fd sector at in
      let got : ((k₂.store.pool 0).address == null) ≡ false = ground arith in
      let (k₄, e₄, still, f₄) =
        serves.reads (allocated k₂) fd sector blk_size at₃ small blk_size-IsSectors in
      let (ret, k₅, e₅, ready₅, f₅) = serves.closes k₄ fd still in
      let word = byte_to_int-image cluster (image sector) (k₂.store.pool 0).junk in
      (k₅, rw (here, e₁, e₂, got, e₄, e₅, word) refl, ready₅, f₅ ∙ (f₄ ∙ (f₂ ∙ f₁)))

  -- The chain goes on as the image says.
  pub next_cluster-next_of :
      (k : Kernel Hw FatObjects) (v : Volume) (cluster : ℕ)
      → v.devpath ≡ path
      → Ready k
      → Inside blocks (fat_sector v cluster) 1
      → (k' : Kernel Hw FatObjects) × (next_cluster disk v cluster k
          ≡ finished (next_of v image cluster) k')
        × Ready k'
        × (k'.fat ≡ k.fat)
  unfolding next_cluster next_of
  next_cluster-next_of k v cluster here ready small =
      let entry = fat_entry v image cluster in
      let (k', e, ready', same) = get_entry-image k v cluster here ready small in
      elim (Bool-cases (leb (2 ^ 31) entry)) [
        | inl high ↦
            let word : int_of entry ≡ negsuc (2 ^ 32 - 1 - entry) = ground arith in
            (k', rw (e, word, high) refl, ready', same)
        | inr low ↦
            let word : int_of entry ≡ pos entry = ground arith in
            (k', rw (e, word, low) refl, ready', same)
      ]
