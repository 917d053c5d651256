-- ===== src/Vffs/Free.antt =====
-- `create_vffs` and `remove_vffs` of src/fs/vffs.c.
use ras_pi_k.Base.{ℕ, zero, suc, ◌+◌, ◌≡◌, ◌≢◌, refl, none, some, true, false, [], arith, ◌==◌}
use ras_pi_k.Store.{Ptr, null, Vffs, Store, ok, update}
use ras_pi_k.Vffs.{nbmax_file, free_files, create_vffs, remove_vffs}
use ras_pi_k.Vffs.Lookup.{Dir}

module _ {Hw : Type 0} where
  free_files-empty :
      (n i : ℕ) (list : ℕ → Ptr) (s : Store Hw)
      → ((j : ℕ) → list j ≡ null)
      → free_files n i list s ≡ ok tt s
  unfolding free_files
  free_files-empty zero i list s none_left = refl
  free_files-empty (suc n) i list s none_left =
      let here : (list i == null) ≡ true = rw (none_left i) refl in
      rw here (free_files-empty n (i + 1) list s none_left)

  -- A file system without files is freed alone.
  pub remove_vffs-empty :
      (v : Ptr) (s : Store Hw) (fs : Vffs)
      → s.vffs v ≡ some fs
      → ((j : ℕ) → fs.list j ≡ null)
      → remove_vffs v s ≡ ok tt (record s { vffs = update s.vffs v none })
  unfolding remove_vffs
  remove_vffs-empty v s fs stored none_left =
      rw (stored, free_files-empty nbmax_file 0 fs.list s none_left, stored) refl

  -- With memory `create_vffs` makes an empty file system at the address that `kmalloc` gives.
  pub create_vffs-Dir :
      (s : Store Hw)
      → (s.pool 0).address ≢ null
      → (s' : Store Hw) × (create_vffs s ≡ ok (s.pool 0).address s')
        × Dir s' (s.pool 0).address []
        × (s'.vfile ≡ s.vfile)
        × ((q : Ptr) → q ≢ (s.pool 0).address → s'.vffs q ≡ s.vffs q)
  unfolding create_vffs
  create_vffs-Dir s memory =
      let got : ((s.pool 0).address == null) ≡ false = ground arith in
      let fs : Vffs = record { list = λ _. null; nbfiles = 0 } in
      (
        record s { pool = λ i. s.pool (i + 1); vffs = update s.vffs (s.pool 0).address (some fs) },
        rw got refl,
        record {
          fs = fs;
          stored = ground arith;
          count = refl;
          bounded = omega arith;
          slots = tt;
          unused = λ i h. refl;
          distinct = tt;
          unique = tt;
        },
        refl,
        ground arith,
      )
