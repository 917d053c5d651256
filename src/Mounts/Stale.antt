-- ===== src/Mounts/Stale.antt =====
-- `mount` after `unmount` of src/fs/vfs.c, for file systems in memory.
use ras_pi_k.Base.{
  ℕ, ◌+◌, ◌-◌, ◌<◌, ◌≡◌, ◌≢◌, refl, ap, ◌∙◌, some, arith, ◌==◌, ltb, leb, ◌&&◌, if◌then◌else◌, pos,
  Bool-cases, inl, inr,
}
use native.Mathlib.Decide.{ℕ_discrete}
use ras_pi_k.Strings.{CString}
use ras_pi_k.Store.{null, Store, ok, update}
use ras_pi_k.Vffs.{create_vffs, remove_vffs}
use ras_pi_k.Vffs.Free.{create_vffs-Dir}
use ras_pi_k.Kernel.{vfiles, MPoint, Kernel, Fat32, finished, lift}
use ras_pi_k.Paths.{skip_slash}
use ras_pi_k.Mounts.{
  nbmax_mountingpoint, find_mpoint, shift_mounts, mount, remove_fs, unmount_with, unmount_at,
  unmount,
}
use ras_pi_k.Mounts.Table.{IsPacked, mpoint, shift_mounts-at, add_fs-append}

-- the array after `unmount` of the mount point `i` of `n`
pub unmounted : ℕ → ℕ → (ℕ → MPoint) → ℕ → MPoint
unmounted n i list = shift_mounts (n - 1 - i) i (update list i (record (list i) { fs = null }))

module _ (n i : ℕ) (list : ℕ → MPoint) (packed : IsPacked list n) where
  -- what `unmount` leaves at each index
  unmounted-at :
      (j : ℕ)
      → i < n
      → (unmounted n i list j).fs ≡ (
          if leb i j && ltb j (n - 1)
          then (list (j + 1)).fs
          else if j == i
          then null
          else (list j).fs)
  unfolding unmounted
  unmounted-at j inside =
      let cleared = update list i (record (list i) { fs = null }) in
      let last : i + (n - 1 - i) ≡ n - 1 = omega arith in
      ap (λ m. m.fs) (shift_mounts-at (n - 1 - i) i cleared j) ∙ rw last (ground arith)

  unmounted-last : i + 1 ≡ n → IsPacked (unmounted n i list) i
  unmounted-last last = record {
    used = λ j h.
        let old = packed.used j (omega arith) in
        let e = unmounted-at j (omega arith) in ground arith;
    free = λ j h. elim (ℕ_discrete j i) [
      | yes at ↦ let e = unmounted-at j (omega arith) in ground arith
      | no ne ↦
          let old = packed.free j (omega arith) in
          let e = unmounted-at j (omega arith) in ground arith
    ];
  }

  unmounted-inner : i + 1 < n → IsPacked (unmounted n i list) n
  unmounted-inner inner = record {
    used = λ j h. elim (Bool-cases (leb i j && ltb j (n - 1))) [
      | inl moved ↦
          let old = packed.used (j + 1) (ground arith) in
          let e = unmounted-at j (omega arith) in ground arith
      | inr stays ↦
          let old = packed.used j h in let e = unmounted-at j (omega arith) in ground arith
    ];
    free = λ j h. let old = packed.free j h in let e = unmounted-at j (omega arith) in ground arith;
  }

module _ {Hw Fat : Type 0} (f : Fat32 Hw Fat) (k : Kernel Hw Fat) (path : CString) {i : ℕ}
    {s' : Store Hw} (found : find_mpoint k.nbmountpoints 0 k.list (skip_slash path) ≡ some i)
    (memory : (k.list i).type ≡ vfiles)
    (removed : remove_vffs (k.list i).fs k.store ≡ ok tt s') where
  after_unmount : Kernel Hw Fat
  after_unmount = record k {
    store = s';
    list = unmounted k.nbmountpoints i k.list;
    nbmountpoints = k.nbmountpoints - 1;
  }

  unmount-vffs : unmount f path k ≡ finished (pos 0) after_unmount
  unfolding unmount unmount_at unmount_with remove_fs after_unmount unmounted
  unmount-vffs =
      let how : remove_fs f (k.list i) ≡ some (lift (remove_vffs (k.list i).fs)) =
        ap (λ t. remove_fs f (record (k.list i) { type = t })) memory in
      ap (λ o. unmount_at f o k) found ∙ ap (λ o. unmount_with f i o k) how ∙ rw removed refl

  -- `unmount` of the last mount point takes it out of the array: the others stay in a row.
  pub unmount-IsPacked :
      IsPacked k.list k.nbmountpoints
      → i + 1 ≡ k.nbmountpoints
      → (k' : Kernel Hw Fat) × (unmount f path k ≡ finished (pos 0) k')
        × IsPacked k'.list k'.nbmountpoints
        × (k'.nbmountpoints + 1 ≡ k.nbmountpoints)
        × ((j : ℕ) → j < i → (k'.list j).fs ≡ (k.list j).fs)
  unfolding after_unmount
  unmount-IsPacked packed last =
      let count : k.nbmountpoints - 1 ≡ i = omega arith in
      (
        after_unmount,
        unmount-vffs,
        rw count (unmounted-last k.nbmountpoints i k.list packed last),
        omega arith,
        λ j h. let e = unmounted-at k.nbmountpoints i k.list packed j (omega arith) in ground arith,
      )

  -- After `unmount` of any other mount point the slot at the new count still has its file system:
  -- `mount` passes it, and enters the next file system behind the mount points that are counted,
  -- where no operation on paths looks.
  pub unmount-mount :
      (devpath mountpath : CString)
      → IsPacked k.list k.nbmountpoints
      → i + 1 < k.nbmountpoints
      → k.nbmountpoints < nbmax_mountingpoint
      → (s'.pool 0).address ≢ null
      → (k₁ : Kernel Hw Fat) × (k₂ : Kernel Hw Fat) × (unmount f path k ≡ finished (pos 0) k₁)
        × (mount f devpath mountpath vfiles k₁ ≡ finished (pos k.nbmountpoints) k₂)
        × (k₂.list k.nbmountpoints ≡ mpoint vfiles mountpath (s'.pool 0).address)
        × (k₂.nbmountpoints ≡ k.nbmountpoints)
  unfolding after_unmount mount
  unmount-mount devpath mountpath packed inner room live =
      let (s'', created, _, _, _) = create_vffs-Dir s' live in
      let rest = unmounted-inner k.nbmountpoints i k.list packed inner in
      let count : k.nbmountpoints - 1 + 1 ≡ k.nbmountpoints = omega arith in
      let k' : Kernel Hw Fat = record after_unmount { store = s'' } in
      let entered = mpoint vfiles mountpath (s'.pool 0).address in
      (
        after_unmount,
        record k' {
          list = update k'.list k.nbmountpoints entered;
          nbmountpoints = k'.nbmountpoints + 1;
        },
        unmount-vffs,
        add_fs-append vfiles (lift create_vffs) mountpath after_unmount {k' = k'} (rw created refl)
            refl live room rest,
        ground arith,
        count,
      )
