-- ===== src/FatList.antt =====
-- `readdir_fat32` of src/fs/fat32.c.
use ras_pi_k.Base.{
  ℕ, zero, suc, ◌+◌, ◌*◌, Bool, true, false, not, ◌||◌, Option, none, some, List, [], ◌∷◌, ◌++◌,
  ◌==◌, ltb, if◌then◌else◌, length,
}
use ras_pi_k.Strings.{CString}
use ras_pi_k.Store.{Ptr, null, kmalloc}
use ras_pi_k.Kernel.{K, return, ◌>>=◌, lift, stuck}
use ras_pi_k.Mbr.{Buffer}
use ras_pi_k.FatNames.{fat_dir, is_no_file, fat32_deleted, fat32_dirent_end, file_name}
use ras_pi_k.FatVolume.{
  Volume, FatObjects, Disk, load_volume, entries_per_cluster, cluster_sector, read_cluster,
  next_cluster,
}

module _ {Hw : Type 0} where
  -- The loop over a cluster, from entry `i` on with `n` left: the names with those that it adds,
  -- and whether it is `done`.
  pub list_names : ℕ → ℕ → ℕ → Buffer → List CString → K Hw FatObjects (List CString × Bool)
  list_names zero i max dir names = return (names, false)
  list_names (suc n) i max dir names =
      let d = fat_dir dir i in
      let skip = is_no_file d || (d.name 0 == fat32_deleted) in
      let at_end = d.name 0 == fat32_dirent_end in
      if not (ltb (length names) max) then return (names, false) else elim skip [
        | true ↦ list_names n (i + 1) max dir names
        | false ↦ if at_end then return (names, true) else do
          a ← lift kmalloc
          if a.address == null
              then return (names, true)
              else list_names n (i + 1) max dir (names ++ (file_name d ∷ []))
      ]

module _ {Hw : Type 0} (disk : Disk Hw) where
  -- the loop over the clusters, at a sector and its cluster
  pub list_clusters : ℕ → Volume → ℕ → ℕ → ℕ → List CString → K Hw FatObjects (List CString)
  unfolding list_names
  list_clusters zero v max sector cluster names = stuck
  list_clusters (suc n) v max sector cluster names = do
    dir ← read_cluster disk v sector
    elim dir [
      | none ↦ return names
      | some m ↦ do
        r ← list_names (entries_per_cluster v) 0 max m names
        if r.1 then return r.0 else do
          next ← next_cluster disk v cluster
          elim next [
            | none ↦ return r.0
            | some c ↦ list_clusters n v max (cluster_sector v c) c r.0
          ]
    ]

  pub readdir_fat32 : Ptr → K Hw FatObjects (Option (List CString))
  unfolding list_clusters
  readdir_fat32 fat32 = do
    v ← load_volume fat32
    a ← lift kmalloc
    if a.address == null then return none else do
      names ← list_clusters (suc (128 * v.fatlen)) v (entries_per_cluster v * 8) v.root 2 []
      return (some names)
