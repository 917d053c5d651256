-- ===== src/Mounts/Table.antt =====
-- The array of mount points of src/fs/vfs.c as `mount` fills it.
use ras_pi_k.Base.{
  ℕ, zero, suc, ◌+◌, ◌<◌, ◌≤◌, ◌≡◌, ◌≢◌, refl, ap, ◌∙◌, some, true, false, arith, ◌==◌, ltb, leb,
  ◌&&◌, if◌then◌else◌, pos,
}
use native.Mathlib.Decide.{ℕ_discrete}
use ras_pi_k.Strings.{CString}
use ras_pi_k.Store.{Ptr, null, update}
use ras_pi_k.Kernel.{FsType, MPoint, Kernel, K, finished}
use ras_pi_k.Paths.{skip_slash}
use ras_pi_k.Mounts.{nbmax_mountingpoint, free_mpoint, find_mpoint, shift_mounts, add_fs, enter}

-- The mount points below `n` have a file system, and the others have none.
pub record IsPacked (list : ℕ → MPoint) (n : ℕ) : Type 0 where
  pub used : (j : ℕ) → j < n → (list j).fs ≢ null
  pub free : (j : ℕ) → n ≤ j → (list j).fs ≡ null

free_mpoint-from :
    (r i n : ℕ) (list : ℕ → MPoint)
    → i ≤ n
    → n < i + r
    → IsPacked list n
    → free_mpoint r i list ≡ some n
unfolding free_mpoint
free_mpoint-from zero i n list lo hi p = absurd (omega arith)
free_mpoint-from (suc r) i n list lo hi p = elim (ℕ_discrete i n) [
  | yes e ↦
      let here : ((list i).fs == null) ≡ true = rw (e, p.free n (omega arith)) refl in
      rw (here, e) refl
  | no ne ↦
      let used : (list i).fs ≢ null = p.used i (omega arith) in
      let here : ((list i).fs == null) ≡ false = ground arith in
      rw here (free_mpoint-from r (i + 1) n list (omega arith) (omega arith) p)
]

pub free_mpoint-packed :
    (n : ℕ) (list : ℕ → MPoint)
    → n < nbmax_mountingpoint
    → IsPacked list n
    → free_mpoint nbmax_mountingpoint 0 list ≡ some n
free_mpoint-packed n list lt p =
    free_mpoint-from nbmax_mountingpoint 0 n list (omega arith) (omega arith) p

pub find_mpoint-inside :
    (n i k : ℕ) (list : ℕ → MPoint) (name : CString)
    → find_mpoint n i list name ≡ some k
    → k < i + n
unfolding find_mpoint
find_mpoint-inside zero i k list name e = ground arith
find_mpoint-inside (suc n) i k list name e =
    ground (arith, find_mpoint-inside n (i + 1) k list name)

-- What the shift leaves at each index.
pub shift_mounts-at :
    (n i : ℕ) (list : ℕ → MPoint) (j : ℕ)
    → shift_mounts n i list j ≡ (if leb i j && ltb j (i + n) then list (j + 1) else list j)
unfolding shift_mounts
shift_mounts-at zero i list j = ground arith
shift_mounts-at (suc n) i list j =
    ground (arith, shift_mounts-at n (i + 1) (update list i (list (i + 1))) j)

-- the mount point that `mount` enters
abbrev pub mpoint : FsType → CString → Ptr → MPoint
mpoint type path fs = record { name = skip_slash path; type = type; fs = fs }

module _ {Hw Fat : Type 0} (type : FsType) (create : K Hw Fat Ptr) (path : CString)
    (k : Kernel Hw Fat) {k' : Kernel Hw Fat} {n fs : ℕ} (created : create k ≡ finished fs k')
    (same : k'.list ≡ k.list) (live : fs ≢ null) (room : n < nbmax_mountingpoint)
    (packed : IsPacked k.list n) where
  -- With `n` mount points in a row from the start of the array, the next one goes to index `n`.
  pub add_fs-append :
      add_fs type create path k
      ≡ finished (pos n) (record k' {
        list = update k.list n (mpoint type path fs);
        nbmountpoints = k'.nbmountpoints + 1;
      })
  unfolding add_fs enter
  add_fs-append =
      let there : (fs == null) ≡ false = ground arith in
      ap (λ o. enter o type create path k) (free_mpoint-packed n k.list room packed)
      ∙ rw (created, there, same) refl

  pub add_fs-IsPacked : IsPacked (update k.list n (mpoint type path fs)) (n + 1)
  add_fs-IsPacked = record {
    used = λ j h. elim (ℕ_discrete j n) [
      | yes e ↦ rw e (λ gone. live (ground arith))
      | no ne ↦ let old = packed.used j (omega arith) in ground arith
    ];
    free = λ j h. let old = packed.free j (omega arith) in ground arith;
  }
