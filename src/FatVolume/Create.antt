-- ===== src/FatVolume/Create.antt =====
-- What `create_fat32` of src/fs/fat32.c returns where it cannot read a partition.
use ras_pi_k.Base.{ℕ, ◌≡◌, ◌≢◌, refl, none, true, false, List, ℤ, arith, ◌==◌, is_neg}
use ras_pi_k.Strings.{CString}
use ras_pi_k.Store.{Ptr, null, update}
use ras_pi_k.Kernel.{Kernel, finished}
use ras_pi_k.FatVolume.{blk_size, FatObjects, Disk, create_volume}
use ras_pi_k.FatVolume.Device.{allocated}

module _ {Hw : Type 0} (disk : Disk Hw) (fd : ℤ) (devpath : CString) (start : ℕ)
    (k : Kernel Hw FatObjects) (memory : (k.store.pool 0).address ≢ null) where
  -- the volume at the first address that `kmalloc` gives is gone
  abbrev dropped : Kernel Hw FatObjects → Kernel Hw FatObjects
  dropped k' = record k' {
    fat = record k'.fat { volume = update k'.fat.volume (k.store.pool 0).address none };
  }

  -- Where there is no memory for the boot sector of the partition, the address that is returned is
  -- not `NULL`, and there is no volume at it.
  pub create_volume_no_memory :
      (k.store.pool 1).address ≡ null
      → (k' : Kernel Hw FatObjects) × (create_volume disk fd devpath start k
          ≡ finished (k.store.pool 0).address k')
        × (k'.fat.volume (k.store.pool 0).address ≡ none)
  unfolding create_volume
  create_volume_no_memory no_memory =
      let got : ((k.store.pool 0).address == null) ≡ false = ground arith in
      let missing : ((k.store.pool 1).address == null) ≡ true = ground arith in
      (dropped (allocated (allocated k)), rw (got, missing) refl, ground arith)

  -- Where the boot sector of the partition cannot be read, the address that is returned is not
  -- `NULL`, and there is no volume at it.
  pub create_volume_unread :
      {at ret : ℤ} {bytes : List ℕ} {k₁ k₂ : Kernel Hw FatObjects}
      → (k.store.pool 1).address ≢ null
      → disk.seek_disk fd start (allocated (allocated k)) ≡ finished at k₁
      → disk.read_disk fd blk_size k₁ ≡ finished (ret, bytes) k₂
      → is_neg ret ≡ true
      → (k' : Kernel Hw FatObjects) × (a : Ptr) × (create_volume disk fd devpath start k
          ≡ finished a k')
        × (a ≢ null)
        × (k'.fat.volume a ≡ none)
  unfolding create_volume
  create_volume_unread {k₂ = k₂} more sought failed neg =
      let got : ((k.store.pool 0).address == null) ≡ false = ground arith in
      let got' : ((k.store.pool 1).address == null) ≡ false = ground arith in
      (
        dropped k₂,
        (k.store.pool 0).address,
        rw (got, got', sought, failed, neg) refl,
        memory,
        ground arith,
      )
