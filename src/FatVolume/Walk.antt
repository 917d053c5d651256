-- ===== src/FatVolume/Walk.antt =====
-- The directory of a volume as the list of the entries in its chain of clusters, and
-- `get_node_fat32` of src/fs/fat32.c as a lookup in it.
use ras_pi_k.Base.{
  ◌/◌, ℕ, zero, suc, ◌*◌, ◌<◌, ◌≤◌, ◌≡◌, ◌≢◌, refl, ap, ◌∙◌, Option, none, some, false, List, [],
  ◌∷◌, ◌++◌, arith, ◌==◌, length,
}
use ras_pi_k.Strings.{CString, strlen}
use ras_pi_k.Store.{Ptr, null, update}
use ras_pi_k.Store.Blocks.{tabulate}
use ras_pi_k.Kernel.{Kernel, K, finished}
use ras_pi_k.Mbr.{Buffer, overlay}
use ras_pi_k.FatNames.{Scan, hit, ended, more, bad_read, scan, FatDir}
use ras_pi_k.FatNames.Directory.{entries, entries-agree, lookup_dir, Agrees, scan-lookup_dir}
use ras_pi_k.FatVolume.{
  Volume, FatObjects, Disk, cluster_size, entries_per_cluster, cluster_sector, follow, after_scan,
  find_dir, get_node_fat32,
}
use ras_pi_k.Vfs.Devices.{Inside, IsSectors}
use ras_pi_k.FatVolume.Device.{
  Serves, allocated, overlay-tabulate, fat_sector, next_of, read_cluster-image,
  next_cluster-next_of,
}

module _ (v : Volume) (image : ℕ → Buffer) where
  -- The chain of a cluster at a sector goes on with the clusters of the list and ends there. The
  -- sectors lie among the blocks of the device, and their numbers fit an `int`.
  abbrev pub Chain : ℕ → ℕ → ℕ → List ℕ → Type 0
  Chain blocks sector cluster [] =
      Inside blocks sector (cluster_size v / 512)
      × Inside blocks (fat_sector v cluster) 1
      × (next_of v image cluster ≡ none)
  Chain blocks sector cluster (c ∷ cs) =
      Inside blocks sector (cluster_size v / 512)
      × Inside blocks (fat_sector v cluster) 1
      × (next_of v image cluster ≡ some c)
      × Chain blocks (cluster_sector v c) c cs

  -- the entries of the clusters of a chain
  abbrev pub directory : ℕ → List ℕ → List FatDir
  directory sector [] = entries (entries_per_cluster v) 0 (image sector) ++ []
  directory sector (c ∷ cs) =
      entries (entries_per_cluster v) 0 (image sector) ++ directory (cluster_sector v c) cs

entries-cluster :
    (v : Volume) (m before : Buffer)
    → entries (entries_per_cluster v) 0 (overlay (tabulate (cluster_size v) m) before)
      ≡ entries (entries_per_cluster v) 0 m
entries-cluster v m before =
    entries-agree (entries_per_cluster v) 0 _ m
      (λ j h. overlay-tabulate (cluster_size v) m j (before j) (omega arith))

module _ {Hw : Type 0} (disk : Disk Hw) {k : Kernel Hw FatObjects}
    (P : Kernel Hw FatObjects → Type 0) where
  -- After the loop over a cluster the walk returns what the lookup in the directory does, if it
  -- does so in the rest.
  after_scan-Agrees :
      (sc : Scan) (rest : List FatDir) (name : CString) (o : Option FatDir)
      (next : K Hw FatObjects (Option FatDir))
      → Agrees sc rest name o
      → P k
      → (k' : Kernel Hw FatObjects) × (next k ≡ finished (lookup_dir rest name) k') × P k'
      → (k' : Kernel Hw FatObjects) × (after_scan disk sc next k ≡ finished o k') × P k'
  unfolding after_scan
  after_scan-Agrees (hit d) rest name o next a p go_on = (k, rw a refl, p)
  after_scan-Agrees ended rest name o next a p go_on = (k, rw a refl, p)
  after_scan-Agrees more rest name o next a p (k', e, q) = (k', rw a e, q)
  after_scan-Agrees bad_read rest name o next a p go_on = absurd (omega arith)

module _ {Hw : Type 0} {disk : Disk Hw} {image : ℕ → Buffer} {blocks : ℕ}
    {Ready : Kernel Hw FatObjects → Type 0} {Open : Kernel Hw FatObjects → ℕ → Type 0}
    {At : Kernel Hw FatObjects → ℕ → ℕ → Type 0} (v : Volume) (name : CString)
    (serves : Serves disk v.devpath image blocks Ready Open At) (long : 3 ≤ strlen name)
    (sectors : IsSectors (cluster_size v)) where
  -- one round, if the walk goes on as the lookup in the rest of the directory does
  find_dir_round :
      (n sector cluster : ℕ) (rest : List FatDir) (k : Kernel Hw FatObjects)
      → Ready k
      → Inside blocks sector (cluster_size v / 512)
      → ((k₁ : Kernel Hw FatObjects)
          → Ready k₁
          → (k' : Kernel Hw FatObjects) × (follow disk v cluster
                (λ c. find_dir disk n v name (cluster_sector v c) c)
                k₁
              ≡ finished (lookup_dir rest name) k')
            × (Ready k' × (k'.fat ≡ k₁.fat)))
      → (k' : Kernel Hw FatObjects) × (find_dir disk (suc n) v name sector cluster k
          ≡ finished
              (lookup_dir (entries (entries_per_cluster v) 0 (image sector) ++ rest) name)
              k')
        × (Ready k' × (k'.fat ≡ k.fat))
  unfolding find_dir
  find_dir_round n sector cluster rest k ready small go_on =
      let (before, k₁, e₁, ready₁, f₁) =
        read_cluster-image serves k v sector refl ready small sectors in
      let m = overlay (tabulate (cluster_size v) (image sector)) before in
      let agrees = scan-lookup_dir (entries_per_cluster v) 0 m rest name long in
      let (k₂, e₂, (ready₂, f₂)) = go_on k₁ ready₁ in
      let (k₃, e₃, q) =
        after_scan-Agrees disk (λ k'. Ready k' × (k'.fat ≡ k.fat))
          (scan (entries_per_cluster v) 0 m name) rest name _
          (follow disk v cluster (λ c. find_dir disk n v name (cluster_sector v c) c))
          (rw (entries-cluster v (image sector) before) at agrees) (ready₁, f₁)
          (k₂, e₂, (ready₂, f₂ ∙ f₁)) in
      (k₃, rw e₁ e₃, q)

  -- The walk along a chain that ends finds what the lookup in its entries finds.
  pub find_dir-lookup_dir :
      (n sector cluster : ℕ) (cs : List ℕ) (k : Kernel Hw FatObjects)
      → length cs < n
      → Ready k
      → Chain v image blocks sector cluster cs
      → (k' : Kernel Hw FatObjects) × (find_dir disk n v name sector cluster k
          ≡ finished (lookup_dir (directory v image sector cs) name) k')
        × (Ready k' × (k'.fat ≡ k.fat))
  unfolding follow
  find_dir-lookup_dir zero sector cluster cs k h ready chain = absurd (omega arith)
  find_dir-lookup_dir (suc n) sector cluster [] k h ready (small, small', over) =
      find_dir_round n sector cluster [] k ready small (λ k₁ ready₁.
        let (k₂, e₂, ready₂, f₂) = next_cluster-next_of serves k₁ v cluster refl ready₁ small' in
        (k₂, rw (e₂, over) (unfold lookup_dir in refl), (ready₂, f₂)))
  find_dir-lookup_dir (suc n) sector cluster (c ∷ cs) k h ready (small, small', next, chain) =
      find_dir_round n sector cluster (directory v image (cluster_sector v c) cs) k ready small
        (λ k₁ ready₁.
          let (k₂, e₂, ready₂, f₂) = next_cluster-next_of serves k₁ v cluster refl ready₁ small' in
          let (k₃, e₃, (ready₃, f₃)) =
            find_dir-lookup_dir n (cluster_sector v c) c cs k₂ (omega arith) ready₂ chain in
          (k₃, rw (e₂, next) e₃, (ready₃, f₃ ∙ f₂)))

-- what `get_node_fat32` returns for an entry that was found, or none
abbrev pub Opened :
    {Hw : Type 0} → Ptr → Option FatDir → Ptr → (k k' : Kernel Hw FatObjects) → Type 0
Opened p none a k k' = (a ≡ null) × (k'.fat ≡ k.fat)
Opened p (some d) a k k' =
    (a ≢ null)
    × (k'.fat.file a ≡ some (record { info = p; dir = d }))
    × (k'.fat.volume ≡ k.fat.volume)

module _ {Hw : Type 0} {disk : Disk Hw} {image : ℕ → Buffer} {blocks : ℕ}
    {Ready : Kernel Hw FatObjects → Type 0} {Open : Kernel Hw FatObjects → ℕ → Type 0}
    {At : Kernel Hw FatObjects → ℕ → ℕ → Type 0} (v : Volume) (name : CString)
    (serves : Serves disk v.devpath image blocks Ready Open At) (long : 3 ≤ strlen name)
    (sectors : IsSectors (cluster_size v)) where
  get_node_of :
      (p : Ptr) (o : Option FatDir) (k k' : Kernel Hw FatObjects)
      → k.fat.volume p ≡ some v
      → find_dir disk (suc (128 * v.fatlen)) v name v.root 2 k ≡ finished o k'
      → Ready k'
      → k'.fat ≡ k.fat
      → (a : Ptr) × (k'' : Kernel Hw FatObjects) × (get_node_fat32 disk p name k ≡ finished a k'')
        × Opened p o a k k''
  unfolding get_node_fat32
  get_node_of p none k k' held e ready same = (null, k', rw (held, e) refl, (refl, same))
  get_node_of p (some d) k k' held e ready same =
      let (live, _) = serves.allocates k' ready in
      let got : ((k'.store.pool 0).address == null) ≡ false = ground arith in
      (
        (k'.store.pool 0).address,
        record (allocated k') {
          fat = record k'.fat {
            file =
                update k'.fat.file (k'.store.pool 0).address (some (record { info = p; dir = d }));
          };
        },
        rw (held, e, got) refl,
        (live, ground arith, ap (λ fat. fat.volume) same),
      )

  -- On a volume of clusters of whole sectors of 512 bytes, whose device serves reads of such, with
  -- memory, and whose directory's chain of clusters lies among the blocks of the device and ends
  -- within the table, `get_node_fat32` comes to an end for a name of three bytes or more. It
  -- returns a new file with the first entry that `check_filename` takes, of the entries in the
  -- chain that stand before the end mark and are files and not deleted; and `NULL` where there is
  -- none.
  pub get_node_fat32-lookup_dir :
      (p : Ptr) (cs : List ℕ) (k : Kernel Hw FatObjects)
      → k.fat.volume p ≡ some v
      → Ready k
      → Chain v image blocks v.root 2 cs
      → length cs ≤ 128 * v.fatlen
      → (a : Ptr) × (k' : Kernel Hw FatObjects) × (get_node_fat32 disk p name k ≡ finished a k')
        × Opened p (lookup_dir (directory v image v.root cs) name) a k k'
  get_node_fat32-lookup_dir p cs k held ready chain few =
      let (k', e, (ready', same)) =
        find_dir-lookup_dir v name serves long sectors (suc (128 * v.fatlen)) v.root 2 cs k
          (omega arith) ready chain in
      get_node_of p (lookup_dir (directory v image v.root cs) name) k k' held e ready' same
