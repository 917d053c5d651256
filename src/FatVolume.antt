-- ===== src/FatVolume.antt =====
-- The volume of src/fs/fat32.c: `create_fat32`, `remove_fat32`, `get_entry`, and the directory,
-- which `readdir_fat32` and `get_node_fat32` read cluster by cluster. The device of a volume is
-- read through the functions of src/fs/vfs.c, which stand in the record `Disk`. A walk along the
-- table has as many rounds as the table has entries: 128 in a sector.
pub mod Device
pub mod Walk
pub mod Mounted
pub mod Create
pub mod Sample
mod Tests
use ras_pi_k.Base.{
  ℕ, zero, suc, ◌+◌, ◌-◌, ◌*◌, ◌/◌, ◌%◌, ◌^◌, Bool, true, false, not, ◌&&◌, ◌||◌, Option, none,
  some, List, [], ◌∷◌, ◌++◌, ℤ, pos, negsuc, failed, is_neg, ◌==◌, ltb, leb, if◌then◌else◌, bit_and,
}
use ras_pi_k.Strings.{CString}
use ras_pi_k.Store.{Ptr, null, Answer, update, kmalloc}
use ras_pi_k.Vffs.{u32}
use ras_pi_k.Kernel.{
  Kernel, KRun, K, Fat32, finished, return, ◌>>=◌, ◌>>◌, trap, stuck, lift, get_kernel,
}
use ras_pi_k.Vfs.{o_rdwr, o_rdonly, int_of, open_file, seek, read, close}
use ras_pi_k.Mbr.{Buffer, overlay, le16, le32, Part, get_parts}
use ras_pi_k.FatNames.{
  FatDir, fat_dir, is_no_file, fat32_deleted, fat32_dirent_end, file_name, Scan, hit, ended, more,
  bad_read, scan,
}

abbrev pub blk_size : ℕ
blk_size = 512

abbrev pub type_fat32 : ℕ
type_fat32 = 0x0b

abbrev pub type_fat32_lba : ℕ
type_fat32_lba = 0x0c

abbrev pub fat32_cluster_mask : ℕ
fat32_cluster_mask = 0x0fffffff

abbrev pub fat32_cluster_bad : ℕ
fat32_cluster_bad = 0x0ffffff7

-- `s_fat32`
pub record Volume : Type 0 where
  pub devpath : CString
  pub seclen : ℕ
  pub cluslen : ℕ
  pub nbfats : ℕ
  pub fatbits : ℕ
  pub fatlen : ℕ
  pub firstfat : ℕ
  pub root : ℕ

-- `s_fatfile`. The entry of the directory stands in a buffer that is never freed or changed.
pub record FatFile : Type 0 where
  pub info : Ptr
  pub dir : FatDir

-- the objects of src/fs/fat32.c by address
pub record FatObjects : Type 0 where
  pub volume : Ptr → Option Volume
  pub file : Ptr → Option FatFile

-- `s_bpb`, the fields that are read
pub record Bpb : Type 0 where
  pub bpersec : ℕ
  pub nosecperc : ℕ
  pub noressec : ℕ
  pub nofat : ℕ
  pub secperfat : ℕ

unfoldable pub bpb : Buffer → Bpb
bpb m = record {
  bpersec = le16 m 11;
  nosecperc = m 13;
  noressec = le16 m 14;
  nofat = m 16;
  secperfat = le32 m 36;
}

-- the volume of a partition
unfoldable pub new_volume : CString → ℕ → Bpb → Volume
new_volume devpath start b =
    let firstfat = u32 (start + b.noressec) in
    record {
      devpath = devpath;
      seclen = b.bpersec;
      cluslen = b.nosecperc;
      nbfats = b.nofat;
      fatbits = 32;
      fatlen = b.secperfat;
      firstfat = firstfat;
      root = u32 (firstfat + b.nofat * b.secperfat);
    }

-- the index of the first partition that `create_fat32` takes, from index `i` on with `n` left
unfoldable pub find_part : ℕ → ℕ → (ℕ → Part) → Option ℕ
find_part zero i parts = none
find_part (suc n) i parts =
    let rest = find_part n (i + 1) parts in
    if (parts i).size == 0
    then rest
    else if (parts i).type == type_fat32 || (parts i).type == type_fat32_lba
    then some i
    else rest

-- `byte_to_int`, as the bits of an `int`; a `char` of this processor has no sign
unfoldable pub byte_to_int : Buffer → ℕ → ℕ
byte_to_int buf i = le32 buf i

-- `root + (cluster - 2) * cluslen`
unfoldable pub cluster_sector : Volume → ℕ → ℕ
cluster_sector v cluster = u32 (v.root + (cluster + 2 ^ 32 - 2) % 2 ^ 32 * v.cluslen)

abbrev pub cluster_size : Volume → ℕ
cluster_size v = v.cluslen * v.seclen

-- the size of `s_fatdir` is 32
abbrev pub entries_per_cluster : Volume → ℕ
entries_per_cluster v = cluster_size v / 32

abbrev pub is_count : ℤ → ℕ → Bool
is_count (pos n) len = n == len
is_count (negsuc n) len = false

-- `open`, `seek` to an offset from the start, `read` and `close` of src/fs/vfs.c
pub record Disk (Hw : Type 0) : Type 0 where
  pub open_disk : CString → ℕ → K Hw FatObjects ℤ
  pub seek_disk : ℤ → ℕ → K Hw FatObjects ℤ
  pub read_disk : ℤ → ℕ → K Hw FatObjects (ℤ × List ℕ)
  pub close_disk : ℤ → K Hw FatObjects ℤ

-- the virtual file system as a disk, where `f` stands for the FAT32 disks under it
unfoldable pub vfs_disk : {Hw : Type 0} → Fat32 Hw FatObjects → Disk Hw
vfs_disk f = record {
  open_disk = open_file f;
  seek_disk = λ fd offset. seek f fd offset 0;
  read_disk = read f;
  close_disk = close;
}

module _ {Hw : Type 0} where
  abbrev pub demanded : {A : Type 0} → Option A → K Hw FatObjects A
  demanded none = trap
  demanded (some a) = return a

  abbrev pub load_volume : Ptr → K Hw FatObjects Volume
  load_volume p k = demanded (k.fat.volume p) k

  abbrev pub set_volume : Ptr → Option Volume → K Hw FatObjects (Unit {0})
  set_volume p v k =
      finished tt (record k { fat = record k.fat { volume = update k.fat.volume p v } })

  abbrev pub load_file : Ptr → K Hw FatObjects FatFile
  load_file p k = demanded (k.fat.file p) k

  abbrev pub set_file : Ptr → FatFile → K Hw FatObjects (Unit {0})
  set_file p x k =
      finished tt (record k { fat = record k.fat { file = update k.fat.file p (some x) } })

  pub remove_fat32 : Ptr → K Hw FatObjects (Unit {0})
  remove_fat32 p = do _ ← load_volume p; set_volume p none

module _ {Hw : Type 0} (disk : Disk Hw) where
  -- The part of `create_fat32` for the partition at `start`. Where there is no memory for the boot
  -- sector, or it cannot be read, the address of the volume is returned though the volume is freed.
  pub create_volume : ℤ → CString → ℕ → K Hw FatObjects Ptr
  create_volume fd devpath start = do
    a ← lift kmalloc
    if a.address == null then return null else do
      b ← lift kmalloc
      if b.address == null then (do set_volume a.address none; return a.address) else do
        _ ← disk.seek_disk fd start
        r ← disk.read_disk fd blk_size
        if is_neg r.0 then (do set_volume a.address none; return a.address) else do
          set_volume a.address (some (new_volume devpath start (bpb (overlay r.1 b.junk))))
          return a.address

  pub create_fat32 : CString → K Hw FatObjects Ptr
  unfolding create_volume
  create_fat32 devpath = do
    fd ← disk.open_disk devpath o_rdwr
    if is_neg fd then return null else do
      a ← lift kmalloc
      if a.address == null then return null else do
        r ← disk.read_disk fd 512
        if is_neg r.0 then return null else do
          b ← (if le16 (overlay r.1 a.junk) 510 == 0xaa55 then lift kmalloc else return a)
          elim (get_parts (overlay r.1 a.junk) b.junk) [
            | none ↦ return null
            | some parts ↦ if b.address == null then trap else do
              fat32 ← elim (find_part 4 0 parts) [
                | none ↦ return null
                | some i ↦ create_volume fd devpath (parts i).start
              ]
              _ ← disk.close_disk fd
              return fat32
          ]

  -- `seek` and `read` of `len` bytes, where `fd` is closed in any case; `none` where either fails
  pub read_at : ℤ → ℕ → ℕ → K Hw FatObjects (Option (List ℕ))
  read_at fd sector len = do
    at ← disk.seek_disk fd sector
    if is_neg at then (do _ ← disk.close_disk fd; return none) else do
      r ← disk.read_disk fd len
      _ ← disk.close_disk fd
      return (if is_count r.0 len then some r.1 else none)

  -- The entry of the table for a cluster, as an `int`.
  pub get_entry : Volume → ℕ → K Hw FatObjects ℤ
  get_entry v cluster = do
    let offset : ℕ = u32 (cluster * 4)
    let sector : ℕ = u32 (v.firstfat + offset / blk_size)
    fd ← disk.open_disk v.devpath o_rdonly
    if is_neg fd then return failed else do
      at ← disk.seek_disk fd sector
      if is_neg at then (do _ ← disk.close_disk fd; return failed) else do
        a ← lift kmalloc
        if a.address == null then (do _ ← disk.close_disk fd; return failed) else do
          r ← disk.read_disk fd blk_size
          _ ← disk.close_disk fd
          return (
              if is_count r.0 blk_size
              then int_of (byte_to_int (overlay r.1 a.junk) (offset % blk_size))
              else failed)

  -- the next cluster of a chain, or `none` at its end
  pub next_cluster : Volume → ℕ → K Hw FatObjects (Option ℕ)
  unfolding get_entry
  next_cluster v cluster = do
    entry ← get_entry v cluster
    return (elim entry [
      | negsuc n ↦ none
      | pos n ↦
          let next = bit_and n fat32_cluster_mask in
          if leb fat32_cluster_bad next then none else some next
    ])

  -- a cluster of the directory; `none` where it cannot be read
  pub read_cluster : Volume → ℕ → K Hw FatObjects (Option Buffer)
  unfolding read_at
  read_cluster v sector = do
    a ← lift kmalloc
    if a.address == null then return none else do
      fd ← disk.open_disk v.devpath o_rdonly
      if is_neg fd then return none else do
        r ← read_at fd sector (cluster_size v)
        return (elim r [ none ↦ none | some bytes ↦ some (overlay bytes a.junk) ])

  -- what a walk along the table does with the cluster behind another
  pub follow : Volume → ℕ → (ℕ → K Hw FatObjects (Option FatDir)) → K Hw FatObjects (Option FatDir)
  unfolding next_cluster
  follow v cluster walk = do
    next ← next_cluster v cluster
    elim next [ none ↦ return none | some c ↦ walk c ]

  -- what `get_node_fat32` does after its loop over a cluster
  pub after_scan : Scan → K Hw FatObjects (Option FatDir) → K Hw FatObjects (Option FatDir)
  after_scan (hit d) next = return (some d)
  after_scan ended next = return none
  after_scan bad_read next = trap
  after_scan more next = next

  -- The loop of `get_node_fat32` at a sector and its cluster: the entry of a name.
  pub find_dir : ℕ → Volume → CString → ℕ → ℕ → K Hw FatObjects (Option FatDir)
  unfolding read_cluster follow after_scan
  find_dir zero v name sector cluster = stuck
  find_dir (suc n) v name sector cluster = do
    dir ← read_cluster v sector
    elim dir [
      | none ↦ return none
      | some m ↦
          after_scan (scan (entries_per_cluster v) 0 m name)
            (follow v cluster (λ c. find_dir n v name (cluster_sector v c) c))
    ]

  pub get_node_fat32 : Ptr → CString → K Hw FatObjects Ptr
  unfolding find_dir
  get_node_fat32 fat32 name = do
    v ← load_volume fat32
    found ← find_dir (suc (128 * v.fatlen)) v name v.root 2
    elim found [
      | none ↦ return null
      | some d ↦ do
        a ← lift kmalloc
        if a.address == null
            then return null
            else do set_file a.address (record { info = fat32; dir = d }); return a.address
    ]
