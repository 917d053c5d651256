-- ===== src/Elf.antt =====
-- The loader of src/elf.c. The memory is a function from addresses to bytes; the buffer of the file
-- is not part of it. The functions of src/fs/vfs.c stand in the record `Files`.
pub mod Load
mod Tests
use ras_pi_k.Base.{
  ℕ, zero, suc, ◌+◌, ◌-◌, ◌*◌, ◌^◌, Bool, true, false, ◌&&◌, ◌||◌, List, [], ◌∷◌, ℤ, pos, ◌==◌,
  if◌then◌else◌, is_neg,
}
use ras_pi_k.Strings.{CString}
use ras_pi_k.Store.{Ptr, update}
use ras_pi_k.Vffs.{u32}
use ras_pi_k.Kernel.{Kernel, K, return, ◌>>=◌, ◌>>◌}
use ras_pi_k.Vfs.{o_rdonly}
use ras_pi_k.Mbr.{Buffer, overlay, le16, le32}

abbrev pub Memory : Type 0
Memory = Ptr → ℕ

-- the fields of `Elf32_Ehdr` that are read
pub record Header : Type 0 where
  pub ident : ℕ → ℕ
  pub type : ℕ
  pub machine : ℕ
  pub entry : ℕ
  pub phoff : ℕ
  pub phnum : ℕ

unfoldable pub header : Buffer → Header
header buf = record {
  ident = buf;
  type = le16 buf 16;
  machine = le16 buf 18;
  entry = le32 buf 24;
  phoff = le32 buf 28;
  phnum = le16 buf 44;
}

-- the fields of `Elf32_Phdr` that are read
pub record Segment : Type 0 where
  pub type : ℕ
  pub offset : ℕ
  pub vaddr : ℕ
  pub filesz : ℕ
  pub memsz : ℕ

-- the entry of 32 bytes at an index of the buffer
unfoldable pub segment : Buffer → ℕ → Segment
segment buf at = record {
  type = le32 buf at;
  offset = le32 buf (at + 4);
  vaddr = le32 buf (at + 8);
  filesz = le32 buf (at + 16);
  memsz = le32 buf (at + 20);
}

-- the magic number, the class, the order of the bytes, the machine, the version and the type
unfoldable pub check_elf : Header → Bool
check_elf hdr =
    (hdr.ident 0 == 0x7f)
    && (hdr.ident 1 == b'E')
    && (hdr.ident 2 == b'L')
    && (hdr.ident 3 == b'F')
    && (hdr.ident 4 == 1)
    && (hdr.ident 5 == 1)
    && (hdr.machine == 40)
    && (hdr.ident 6 == 1)
    && (hdr.type == 2)

-- `n` bytes of the buffer from `from` on go to `dest`
pub memcpy : ℕ → Ptr → Buffer → ℕ → Memory → Memory
memcpy zero dest buf from m = m
memcpy (suc n) dest buf from m = memcpy n (u32 (dest + 1)) buf (from + 1) (update m dest (buf from))

pub memset : ℕ → Ptr → ℕ → Memory → Memory
memset zero s c m = m
memset (suc n) s c m = memset n (u32 (s + 1)) c (update m s c)

-- The differences are those of numbers of 32 bits.
pub load_segment : Buffer → Segment → Memory → Memory
unfolding memcpy memset
load_segment buf p m =
    if p.memsz == 0
    then m
    else memset (u32 (p.memsz + 2 ^ 32 - p.filesz)) (u32 (p.vaddr + p.filesz)) 0
        (memcpy p.filesz p.vaddr buf p.offset m)

-- the table of segments, from an index of the buffer on with `n` left
pub load_segments : ℕ → Buffer → ℕ → Memory → Memory
unfolding load_segment
load_segments zero buf at m = m
load_segments (suc n) buf at m =
    let p = segment buf at in
    load_segments n buf (at + 32) (if p.type == 1 then load_segment buf p m else m)

-- `open`, `stat`, `read` and `close`
pub record Files (Hw Fat : Type 0) : Type 0 where
  pub open_elf : CString → ℕ → K Hw Fat ℤ
  pub stat_elf : ℤ → K Hw Fat (ℤ × ℕ)
  pub read_elf : ℤ → ℕ → K Hw Fat (ℤ × List ℕ)
  pub close_elf : ℤ → K Hw Fat ℤ

module _ {Hw Fat : Type 0} (files : Files Hw Fat) where
  -- The address of the program and the memory. What `read` returns is not tested; `junk` is what
  -- was in the buffer before.
  pub load_elf : CString → Buffer → Memory → K Hw Fat (ℕ × Memory)
  unfolding load_segments
  load_elf path junk m = do
    fd ← files.open_elf path o_rdonly
    if is_neg fd then return (2 ^ 32 - 1, m) else do
      st ← files.stat_elf fd
      if is_neg st.0 || (st.1 == 0) then (do _ ← files.close_elf fd; return (2 ^ 32 - 1, m)) else do
        r ← files.read_elf fd st.1
        let buf : Buffer = overlay r.1 junk
        let hdr : Header = header buf
        _ ← files.close_elf fd
        return (
            if check_elf hdr
            then (hdr.entry, load_segments hdr.phnum buf hdr.phoff m)
            else (2 ^ 32 - 1, m))
