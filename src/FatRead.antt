-- ===== src/FatRead.antt =====
-- `read_fat32file` of src/fs/fat32.c, with `read_shortfile` and `read_longfile`.
pub mod Offset
pub mod Whole
pub mod Chain
pub mod Long
pub mod Range
mod Tests
use mathlib.Core.Option
use ras_pi_k.Base.{
  ℕ, zero, suc, ◌+◌, ◌-◌, ◌*◌, ◌/◌, ◌%◌, ◌^◌, min, Bool, true, false, not, ◌&&◌, ◌||◌, Option, none,
  some, List, [], ◌∷◌, ◌++◌, ℤ, pos, negsuc, failed, is_neg, ◌==◌, ltb, leb, if◌then◌else◌, length,
}
use ras_pi_k.Strings.{CString}
use ras_pi_k.Store.{Ptr, null, update, kmalloc}
use ras_pi_k.Store.Blocks.{tabulate}
use ras_pi_k.Vffs.{u32}
use ras_pi_k.Kernel.{K, Fat32, return, ◌>>=◌, ◌>>◌, lift, trap}
use ras_pi_k.Vfs.{o_rdonly}
use ras_pi_k.Mbr.{Buffer, overlay}
use ras_pi_k.FatVolume.{
  blk_size, Volume, FatFile, FatObjects, Disk, vfs_disk, load_volume, load_file, next_cluster,
  cluster_sector, get_node_fat32, create_fat32, remove_fat32,
}
use ras_pi_k.FatList.{readdir_fat32}

-- `for (j = 0; j < n; j++) buf[total + j] = buff[j];` from `j` on with `n` rounds left
pub copy_block : ℕ → ℕ → ℕ → Buffer → Buffer → Buffer
copy_block zero j total buff buf = buf
copy_block (suc n) j total buff buf =
    copy_block n (j + 1) total buff (update buf (total + j) (buff j))

-- The variables of the loops over the sectors: the address and the bytes of the file's buffer, the
-- number of bytes in it and of those left, and the sector.
pub record Progress : Type 0 where
  pub base : Ptr
  pub buf : Buffer
  pub total : ℕ
  pub left : ℕ
  pub sector : ℕ

-- a sector's bytes go into the buffer
pub take_block : Progress → Buffer → Progress
unfolding copy_block
take_block p buff =
    let n = if ltb blk_size p.left then blk_size else p.left in
    record p {
      buf = copy_block n 0 p.total buff p.buf;
      total = u32 (p.total + n);
      left = p.left - n;
    }

-- The buffer is asked for without a test of what `kmalloc` returns.
pub put_block : {Hw : Type 0} → Progress → Buffer → K Hw FatObjects (Option Progress)
unfolding take_block
put_block p buff =
    if (p.base == null) && not (p.left == 0) then trap else return (some (take_block p buff))

abbrev pub next_sector : Progress → Progress
next_sector p = record p { sector = u32 (p.sector + 1) }

-- `read (…) <= 0`
abbrev pub is_none_read : ℤ → Bool
is_none_read (pos n) = n == 0
is_none_read (negsuc n) = true

module _ {Hw : Type 0} (disk : Disk Hw) where
  -- A round of `read_shortfile`. Where `seek` fails the file descriptor stays open: it is closed
  -- where `open` fails.
  pub short_round : Volume → Progress → K Hw FatObjects (Option Progress)
  unfolding put_block
  short_round v p = do
    a ← lift kmalloc
    if a.address == null then return none else do
      fd ← disk.open_disk v.devpath o_rdonly
      if is_neg fd then (do _ ← disk.close_disk fd; return none) else do
        at ← disk.seek_disk fd p.sector
        if is_neg at then return none else do
          r ← disk.read_disk fd blk_size
          _ ← disk.close_disk fd
          if is_none_read r.0 then return none else do
            moved ← put_block p (overlay r.1 a.junk)
            return (Option.map next_sector moved)

  pub read_shortfile : ℕ → Volume → Progress → K Hw FatObjects (Option Progress)
  unfolding short_round
  read_shortfile zero v p = return (some p)
  read_shortfile (suc n) v p = do
    r ← short_round v p
    elim r [ none ↦ return none | some p' ↦ read_shortfile n v p' ]

  -- a round of the inner loop of `read_longfile`, up to `if (len <= 0)`
  pub long_round : Volume → Progress → K Hw FatObjects (Option Progress)
  unfolding put_block
  long_round v p = do
    fd ← disk.open_disk v.devpath o_rdonly
    if is_neg fd then return none else do
      at ← disk.seek_disk fd p.sector
      if is_neg at then (do _ ← disk.close_disk fd; return none) else do
        a ← lift kmalloc
        if a.address == null then (do _ ← disk.close_disk fd; return none) else do
          r ← disk.read_disk fd blk_size
          _ ← disk.close_disk fd
          if is_neg r.0 then return none else put_block p (overlay r.1 a.junk)

  -- the inner loop, with `n` sectors of the cluster left
  pub long_cluster : ℕ → Volume → Progress → K Hw FatObjects (Option Progress)
  unfolding long_round
  long_cluster zero v p = return (some p)
  long_cluster (suc n) v p = do
    r ← long_round v p
    elim r [
      | none ↦ return none
      | some p' ↦ if p'.left == 0 then return (some p') else long_cluster n v (next_sector p')
    ]

  -- The outer loop, with `n` clusters left. A chain that ends early ends it without an error.
  pub long_clusters : ℕ → Volume → Progress → K Hw FatObjects (Option Progress)
  unfolding long_cluster
  long_clusters zero v p = return (some p)
  long_clusters (suc n) v p = do
    r ← long_cluster v.cluslen v p
    elim r [
      | none ↦ return none
      | some p' ↦ if p'.left == 0 then return (some p') else do
        let sector : ℕ = u32 (p'.sector + 2 ^ 32 - 1)
        let cluster : ℕ = u32 (u32 (sector + 2 ^ 32 - v.root) / v.cluslen + 2)
        next ← next_cluster disk v cluster
        elim next [
          | none ↦ return (some (record p' { sector = sector }))
          | some c ↦ long_clusters n v (record p' { sector = cluster_sector v c })
        ]
    ]

  pub read_longfile : ℕ → Volume → Progress → K Hw FatObjects (Option Progress)
  unfolding long_clusters
  read_longfile nbsectors v p =
      if v.cluslen == 0
      then trap
      else long_clusters (nbsectors / v.cluslen + (if nbsectors % v.cluslen == 0 then 0 else 1)) v p

  -- the sectors that are read for `len` bytes
  pub sectors_for : Volume → ℕ → ℕ
  sectors_for v len =
      let n = len / v.seclen in if not (n % blk_size == 0) || (n == 0) then n + 1 else n

  -- The result, the new offset and the bytes that the buffer is left with. Where the volume has no
  -- sector length the division has no result.
  pub read_fat32file : Ptr → ℕ → ℕ → K Hw FatObjects (ℤ × ℕ × List ℕ)
  unfolding read_shortfile read_longfile sectors_for
  read_fat32file fatfile offset len = if len == 0 then return (pos 0, offset, []) else do
    file ← load_file fatfile
    v ← load_volume file.info
    let size : ℕ = file.dir.size
    let left : ℕ = u32 (size + 2 ^ 32 - offset)
    let wanted : ℕ = min len left
    let first : ℕ = u32 (file.dir.clhigh * 0x10000 + file.dir.cllow)
    if v.seclen == 0 then trap else do
      a ← lift kmalloc
      (do
        let start : Progress = record {
          base = a.address;
          buf = a.junk;
          total = 0;
          left = size;
          sector = cluster_sector v first;
        }
        let n : ℕ = sectors_for v wanted
        r ← (if leb n v.cluslen then read_shortfile n v start else read_longfile n v start)
        return (elim r [
          | none ↦ (failed, offset, [])
          | some p ↦
              let count = min wanted (size - offset) in
              (
                pos count,
                u32 (offset + count),
                tabulate count (λ i. p.buf (offset + i)) ++ (0 ∷ []),
              )
        ]))

  -- The functions of include/fs/fat32.h, as the virtual file system calls them.
  pub fat32_on : Fat32 Hw FatObjects
  unfolding read_fat32file
  fat32_on = record {
    get_node_fat32 = get_node_fat32 disk;
    file_size = λ p. (do file ← load_file p; return file.dir.size);
    read_fat32file = read_fat32file;
    readdir_fat32 = readdir_fat32 disk;
    create_fat32 = create_fat32 disk;
    remove_fat32 = remove_fat32;
  }
