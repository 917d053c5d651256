-- ===== src/FatNames/Directory.antt =====
-- A directory as the list of its entries, and the loop of `get_node_fat32` of src/fs/fat32.c over a
-- cluster as a lookup in it.
use ras_pi_k.Base.{
  ℕ, zero, suc, ◌+◌, ◌*◌, ◌<◌, ◌≤◌, ◌≡◌, ◌≢◌, refl, Bool, Option, none, some, true, false, List, [],
  ◌∷◌, ◌++◌, arith, ◌==◌, ltb, if◌then◌else◌, Bool-cases, Option-cases, inl, inr, ◌||◌,
}
use ras_pi_k.Strings.{CString, strlen}
use ras_pi_k.Mbr.{Buffer}
use ras_pi_k.FatNames.{
  FatDir, fat_dir, is_no_file, fat32_deleted, fat32_dirent_end, check_ext, check_filename, Scan,
  hit, ended, more, bad_read, scan,
}

-- the entries of a cluster from index `i` on, `n` of them
pub entries : ℕ → ℕ → Buffer → List FatDir
entries zero i m = []
entries (suc n) i m = fat_dir m i ∷ entries n (i + 1) m

-- Whether an entry is to be passed: it is no file, or it is deleted.
abbrev pub is_passed : FatDir → Bool
is_passed d = is_no_file d || (d.name 0 == fat32_deleted)

-- The first entry of a name in a directory, which ends at the end mark or with the list.
unfoldable pub lookup_dir : List FatDir → CString → Option FatDir
lookup_dir [] name = none
lookup_dir (d ∷ ds) name =
    let rest = lookup_dir ds name in
    if is_passed d
    then rest
    else if d.name 0 == fat32_dirent_end
    then none
    else elim (check_filename d name) [ none ↦ none | some true ↦ some d | some false ↦ rest ]

-- The loop over a cluster finds what the lookup in a directory that begins with its entries does.
abbrev pub Agrees : Scan → List FatDir → CString → Option FatDir → Type 0
Agrees (hit d) rest name o = o ≡ some d
Agrees ended rest name o = o ≡ none
Agrees more rest name o = o ≡ lookup_dir rest name
Agrees bad_read rest name o = ◌≡◌ {A = ℕ} 0 1

check_ext_some : (n i : ℕ) (file : ℕ → ℕ) (name : CString) → n ≤ i → check_ext n i file name ≢ none
unfolding check_ext
check_ext_some zero i file name h = cc
check_ext_some (suc n) zero file name h = absurd (omega arith)
check_ext_some (suc n) (suc i) file name h =
    ground (arith, check_ext_some n i file name (omega arith))

check_filename_some : (d : FatDir) (name : CString) → 3 ≤ strlen name → check_filename d name ≢ none
unfolding check_filename
check_filename_some d name h = ground (arith, check_ext_some 3 (strlen name) d.ext name h)

-- Over a cluster the loop finds what the lookup does in a directory that begins with its entries.
pub scan-lookup_dir :
    (n i : ℕ) (m : Buffer) (rest : List FatDir) (name : CString)
    → 3 ≤ strlen name
    → Agrees (scan n i m name) rest name (lookup_dir (entries n i m ++ rest) name)
unfolding scan lookup_dir entries
scan-lookup_dir zero i m rest name h = refl
scan-lookup_dir (suc n) i m rest name h =
    let d = fat_dir m i in
    let ih = scan-lookup_dir n (i + 1) m rest name h in
    elim (Bool-cases (is_no_file d)) [
      | inl no_file ↦ rw no_file ih
      | inr file ↦ elim (Bool-cases (d.name 0 == fat32_deleted)) [
        | inl deleted ↦ rw (file, deleted) ih
        | inr kept ↦ elim (Bool-cases (d.name 0 == fat32_dirent_end)) [
          | inl over ↦ rw (file, kept, over) refl
          | inr entry ↦ elim (Option-cases (check_filename d name)) [
            | inl bad ↦ absurd (check_filename_some d name h bad)
            | inr (b, e) ↦ elim (Bool-cases b) [
              | inl same ↦ rw (file, kept, entry, e, same) refl
              | inr other ↦ rw (file, kept, entry, e, other) ih
            ]
          ]
        ]
      ]
    ]

fat_dir-agree :
    (m m' : Buffer) (i : ℕ) → ((j : ℕ) → j < 32 * (i + 1) → m j ≡ m' j) → fat_dir m i ≡ fat_dir m' i
unfolding fat_dir
fat_dir-agree m m' i same =
    let base = 32 * i in
    let at = λ (j : ℕ) (h : j < 32). same (base + j) (omega arith) in
    let next : (j : ℕ) → j + 1 < 32 → m (base + j + 1) ≡ m' (base + j + 1) =
      λ j h. same (base + j + 1) (omega arith) in
    let name : (j : ℕ)
        → (if ltb j 8 then m (base + j) else 0) ≡ (if ltb j 8 then m' (base + j) else 0) =
      λ j. elim (Bool-cases (ltb j 8)) [ inl h ↦ rw h (at j (ground arith)) | inr h ↦ rw h refl ] in
    let ext : (j : ℕ)
        → (if ltb j 3 then m (base + 8 + j) else 0) ≡ (if ltb j 3 then m' (base + 8 + j) else 0) =
      λ j. elim (Bool-cases (ltb j 3)) [
        | inl h ↦ rw h (same (base + 8 + j) (ground arith))
        | inr h ↦ rw h refl
      ] in
    let high = same (base + 28 + 2) (omega arith) in
    let top = same (base + 28 + 2 + 1) (omega arith) in
    λ t. record {
      name = λ j. name j t;
      ext = λ j. ext j t;
      attrs = at 11 (omega arith) t;
      clhigh = at 20 (omega arith) t + next 20 (omega arith) t * 0x100;
      cllow = at 26 (omega arith) t + next 26 (omega arith) t * 0x100;
      size =
          at 28 (omega arith) t
          + next 28 (omega arith) t * 0x100
          + (high t + top t * 0x100) * 0x10000;
    }

pub entries-agree :
    (n i : ℕ) (m m' : Buffer)
    → ((j : ℕ) → j < 32 * (i + n) → m j ≡ m' j)
    → entries n i m ≡ entries n i m'
unfolding entries
entries-agree zero i m m' same = refl
entries-agree (suc n) i m m' same =
    let first = fat_dir-agree m m' i (λ j h. same j (omega arith)) in
    let rest = entries-agree n (i + 1) m m' (λ j h. same j (omega arith)) in rw (first, rest) refl
