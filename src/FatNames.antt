-- ===== src/FatNames.antt =====
-- The entries of a directory of src/fs/fat32.c and their names.
pub mod Match
pub mod Directory
mod Tests
use ras_pi_k.Base.{
  ℕ, zero, suc, ◌+◌, ◌-◌, ◌*◌, Bool, true, false, not, ◌&&◌, ◌||◌, Option, none, some, List, [],
  ◌∷◌, ◌++◌, ◌==◌, ltb, leb, if◌then◌else◌, bit_and,
}
use ras_pi_k.Strings.{CString, strlen, char_at}
use ras_pi_k.Mbr.{Buffer, le16, le32}

abbrev pub fat32_deleted : ℕ
fat32_deleted = 0xe5

abbrev pub fat32_dirent_end : ℕ
fat32_dirent_end = 0x00

abbrev pub fat32_vol : ℕ
fat32_vol = 0x08

abbrev pub fat32_dir : ℕ
fat32_dir = 0x10

abbrev pub space : ℕ
space = b' '

-- the fields of `s_fatdir` that are read
pub record FatDir : Type 0 where
  pub name : ℕ → ℕ
  pub ext : ℕ → ℕ
  pub attrs : ℕ
  pub clhigh : ℕ
  pub cllow : ℕ
  pub size : ℕ

-- `dir[i]`; an entry has 32 bytes
unfoldable pub fat_dir : Buffer → ℕ → FatDir
fat_dir dir i =
    let base = 32 * i in
    record {
      name = λ j. if ltb j 8 then dir (base + j) else 0;
      ext = λ j. if ltb j 3 then dir (base + 8 + j) else 0;
      attrs = dir (base + 11);
      clhigh = le16 dir (base + 20);
      cllow = le16 dir (base + 26);
      size = le32 dir (base + 28);
    }

-- `(attrs & FAT32_VOL) || (attrs & FAT32_DIR)`
abbrev pub is_no_file : FatDir → Bool
is_no_file d = not (bit_and d.attrs fat32_vol == 0) || not (bit_and d.attrs fat32_dir == 0)

-- the part of the name that the loops walk, from index `j` on with `n` bytes left
pub name_from : ℕ → ℕ → (ℕ → ℕ) → List ℕ
name_from zero j name = []
name_from (suc n) j name =
    let rest = name_from n (j + 1) name in
    if not (name j == 0) && not (name j == space) then name j ∷ rest else []

-- the name that `readdir_fat32` gives to an entry
pub file_name : FatDir → CString
unfolding name_from
file_name d = name_from 8 0 d.name ++ (b'.' ∷ d.ext 0 ∷ d.ext 1 ∷ d.ext 2 ∷ [])

unfoldable pub upper : ℕ → ℕ
upper c = if leb b'a' c && leb c b'z' then c - b'a' + b'A' else c

-- the first loop of `check_filename`, from index `i` on with `n` bytes left
pub check_name : ℕ → ℕ → (ℕ → ℕ) → CString → Bool
unfolding upper
check_name zero i file name = true
check_name (suc n) i file name =
    let rest = check_name n (i + 1) file name in
    if not (file i == 0) && not (file i == space)
    then if file i == upper (char_at name i) then rest else false
    else true

-- The second loop, over the last `n` bytes of the extension: `name[i - 1]` is compared with
-- `ext[n - 1]`. `none` is a read in front of the name.
pub check_ext : ℕ → ℕ → (ℕ → ℕ) → CString → Option Bool
unfolding upper
check_ext zero i ext name = some true
check_ext (suc n) zero ext name = none
check_ext (suc n) (suc i) ext name =
    let rest = check_ext n i ext name in
    if ext n == upper (char_at name i) then rest else some false

pub check_filename : FatDir → CString → Option Bool
unfolding check_name check_ext
check_filename file name =
    if check_name 8 0 file.name name then check_ext 3 (strlen name) file.ext name else some false

-- what the loops over the entries of a cluster find for a name
pub data Scan : Type 0 where
  hit : FatDir → Scan
  ended : Scan
  more : Scan
  bad_read : Scan

-- the loop of `get_node_fat32` over a cluster, from entry `i` on with `n` left
pub scan : ℕ → ℕ → Buffer → CString → Scan
scan zero i dir name = more
scan (suc n) i dir name =
    let rest = scan n (i + 1) dir name in
    let d = fat_dir dir i in
    if is_no_file d
    then rest
    else if d.name 0 == fat32_deleted
    then rest
    else if d.name 0 == fat32_dirent_end
    then ended
    else elim (check_filename d name) [ none ↦ bad_read | some true ↦ hit d | some false ↦ rest ]
