-- ===== src/FatVolume/Mounted.antt =====
-- The functions of src/fs/vfs.c over a device of src/fs/devfs.c, as the disk that src/fs/fat32.c
-- reads its volume from.
use ras_pi_k.Base.{ℕ, ◌+◌, ◌*◌, ◌≤◌, ◌≡◌, ◌∷◌, ◌++◌, some, List, length, pos}
use ras_pi_k.Strings.{CString, strlen}
use ras_pi_k.Store.{Ptr}
use ras_pi_k.Kernel.{Kernel, Fat32, finished}
use ras_pi_k.Paths.{slash}
use ras_pi_k.Paths.Split.{IsName}
use ras_pi_k.Vfs.Devices.{IsSectors, HasDevice-moved}
use ras_pi_k.Vfs.DeviceFds.{
  IsReady, IsOpen, open_file-device, seek-device, read-device, close-device,
}
use ras_pi_k.Mbr.{Buffer}
use ras_pi_k.FatNames.Directory.{lookup_dir}
use ras_pi_k.FatVolume.{Volume, cluster_size, FatObjects, vfs_disk, get_node_fat32}
use ras_pi_k.FatVolume.Device.{Serves, allocated}
use ras_pi_k.FatVolume.Walk.{Chain, directory, Opened, get_node_fat32-lookup_dir}

-- the file descriptor is open and stands at the sector
abbrev IsAt :
    {Hw : Type 0}
    → (ℕ → Buffer)
    → ℕ
    → (Hw → Type 0)
    → CString
    → CString
    → Kernel Hw FatObjects
    → ℕ
    → ℕ
    → Type 0
IsAt image blocks Fit dir file k fd sector =
    IsOpen image blocks Fit dir file k fd × ((k.fd_table fd).offset ≡ sector)

module _ {Hw : Type 0} (f : Fat32 Hw FatObjects) (image : ℕ → Buffer) (blocks : ℕ)
    (Fit : Hw → Type 0) (dir file : CString) (name : IsName dir) where
  -- The device of a path, which `devfs` has and `vfs` opens, serves the reads of `fat32.c`.
  pub vfs_disk-Serves :
      Serves
        (vfs_disk f)
        (slash ∷ dir ++ slash ∷ file)
        image
        blocks
        (IsReady image blocks Fit dir file)
        (IsOpen image blocks Fit dir file)
        (IsAt image blocks Fit dir file)
  unfolding vfs_disk
  vfs_disk-Serves = record {
    opens = λ k ready. open_file-device f k ready name;
    seeks = λ k fd sector o small.
        let (k', e, o', at, same) = seek-device f k fd o sector small in (k', e, (o', at), same);
    reads = λ k fd sector len (o, at) small whole.
        let (k', e, o', same) = read-device f k fd o len (rw at small) whole in
        (k', rw at at e, o', same);
    closes =
        λ k fd o. let (k', e, ready, same) = close-device f k fd o in (pos fd, k', e, ready, same);
    allocates = λ k r. (
      r.memory 0,
      record {
        has = HasDevice-moved (allocated k).store.pool k.store.hw k.fd_table r.has;
        memory = λ i. r.memory (i + 1);
        fit = r.fit;
        fd = r.fd;
        lowest = r.lowest;
      },
    );
    allocates_at = λ k fd sector (o, at). (
      o.memory 0,
      (
        record {
          has = HasDevice-moved (allocated k).store.pool k.store.hw k.fd_table o.has;
          memory = λ i. o.memory (i + 1);
          fit = o.fit;
          inside = o.inside;
          below = o.below;
          type = o.type;
          addr = o.addr;
        },
        at,
      ),
    );
  }

  -- `get_node_fat32` over the virtual file system, for a volume on the device of a path: with
  -- memory, a free file descriptor and a driver that serves the bytes of the image by whole sectors
  -- of 512 bytes, on a volume of clusters of such sectors whose directory's chain of clusters lies
  -- on the device and ends within the table, it comes to an end for a name of three bytes or more.
  -- It returns a new file with the first entry that `check_filename` takes, of the files that are
  -- not deleted and stand before the end mark in the directory of the image, and `NULL` where there
  -- is none.
  pub get_node_fat32-mounted :
      (v : Volume) (wanted : CString) (p : Ptr) (cs : List ℕ) (k : Kernel Hw FatObjects)
      → v.devpath ≡ slash ∷ dir ++ slash ∷ file
      → 3 ≤ strlen wanted
      → IsSectors (cluster_size v)
      → k.fat.volume p ≡ some v
      → IsReady image blocks Fit dir file k
      → Chain v image blocks v.root 2 cs
      → length cs ≤ 128 * v.fatlen
      → (a : Ptr) × (k' : Kernel Hw FatObjects) × (get_node_fat32 (vfs_disk f) p wanted k
          ≡ finished a k')
        × Opened p (lookup_dir (directory v image v.root cs) wanted) a k k'
  get_node_fat32-mounted v wanted p cs k at long sectors held ready chain few =
      let serves : Serves (vfs_disk f) v.devpath image blocks (IsReady image blocks Fit dir file)
          (IsOpen image blocks Fit dir file) (IsAt image blocks Fit dir file) =
        rw at vfs_disk-Serves in
      get_node_fat32-lookup_dir v wanted serves long sectors p cs k held ready chain few
