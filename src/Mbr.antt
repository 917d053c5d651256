-- ===== src/Mbr.antt =====
-- The partition table of src/fs/mbr.c and include/fs/mbr.h. A buffer is a function from indices to
-- bytes: what a read left there, and behind it what lay there before.
use ras_pi_k.Base.{ℕ, ◌+◌, ◌*◌, Option, none, some, List, ◌==◌, if◌then◌else◌, get_or}

abbrev pub Buffer : Type 0
Buffer = ℕ → ℕ

-- the buffer after a read of `bytes` into it
abbrev pub overlay : List ℕ → Buffer → Buffer
overlay bytes before i = get_or bytes i (before i)

-- little-endian numbers at an index
abbrev pub le16 : Buffer → ℕ → ℕ
le16 m i = m i + m (i + 1) * 0x100

abbrev pub le32 : Buffer → ℕ → ℕ
le32 m i = le16 m i + le16 m (i + 2) * 0x10000

-- `s_mbrentry`, of 16 bytes
pub record MbrEntry : Type 0 where
  pub type : ℕ
  pub first : ℕ
  pub sectors : ℕ

-- the fields of `mbr->parts[i]` that are read
unfoldable pub mbr_entry : Buffer → ℕ → MbrEntry
mbr_entry mbr i =
    let base = 446 + 16 * i in
    record { type = mbr (base + 4); first = le32 mbr (base + 8); sectors = le32 mbr (base + 12) }

-- `s_part`
pub record Part : Type 0 where
  pub start : ℕ
  pub size : ℕ
  pub type : ℕ

-- Where there is no partition, only the size is set: the rest is what `kmalloc` left in the array
-- of parts, of 12 bytes each.
unfoldable pub get_part : Buffer → Buffer → ℕ → Part
unfolding mbr_entry
get_part mbr before i =
    let e = mbr_entry mbr i in
    if e.first == 0
    then record { start = le32 before (12 * i); size = 0; type = before (12 * i + 8) }
    else record { start = e.first; size = e.sectors; type = e.type }

-- `none` without the signature; else the four parts, in an array whose bytes were `before`
unfoldable pub get_parts : Buffer → Buffer → Option (ℕ → Part)
unfolding get_part
get_parts mbr before = if le16 mbr 510 == 0xaa55 then some (get_part mbr before) else none
