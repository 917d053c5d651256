-- ===== src/Vfs/Truncate.antt =====
-- What `getnode` of src/fs/vfs.c does to a file in memory that it opens.
use ras_pi_k.Base.{
  ℕ, ◌+◌, ◌<◌, ◌≡◌, ◌≢◌, refl, some, true, false, not, ◌&&◌, List, [], arith, ◌==◌, length, set,
  length-set, Bool-cases, inl, inr,
}
use ras_pi_k.Strings.{CString}
use ras_pi_k.Store.{Ptr, Answer, null, VFile, Store, ok, update}
use ras_pi_k.Store.Blocks.{moved_block, length-moved_block}
use ras_pi_k.Vffs.{eof, has_flag, perm_write, krealloc, get_node_vffs}
use ras_pi_k.Vffs.Contents.{Holds}
use ras_pi_k.Kernel.{vfiles, Kernel, finished}
use ras_pi_k.Vfs.{o_append, o_rdwr, open_vfile, getnode_vffs}

module _ {Hw : Type 0} where
  -- A block of one byte is there after `krealloc`, if there is memory.
  krealloc-one :
      (s : Store Hw) (block : List ℕ)
      → (s.pool 0).address ≢ null
      → (new : List ℕ) × (pool : ℕ → Answer) × (krealloc (some block) 1 s
          ≡ ok (some new) (record s { pool = pool }))
        × (0 < length new)
  unfolding krealloc
  krealloc-one s block memory = elim (Bool-cases (1 == length block)) [
    | inl same ↦ (block, s.pool, rw same refl, ground arith)
    | inr other ↦
        let new = moved_block block 1 (s.pool 0).junk in
        let got : ((s.pool 0).address == null) ≡ false = ground arith in
        (
          new,
          (λ i. s.pool (i + 1)),
          rw (other, got) refl,
          ground (arith, length-moved_block block 1 (s.pool 0).junk),
        )
  ]

module _ {Hw Fat : Type 0} (k : Kernel Hw Fat) (mode : ℕ) {p perm : ℕ} {text : List ℕ} where
  open_vfile-truncates :
      Holds k.store p perm text
      → has_flag mode o_append ≡ false
      → (has_flag mode o_rdwr && not (has_flag perm perm_write)) ≡ false
      → (k.store.pool 0).address ≢ null
      → (k' : Kernel Hw Fat) × (open_vfile p mode k
          ≡ finished (some (record { node = p; type = vfiles; offset = 0 })) k')
        × Holds k'.store p perm []
        × ((q : Ptr) → q ≢ p → k'.store.vfile q ≡ k.store.vfile q)
  unfolding open_vfile
  open_vfile-truncates h over allowed memory =
      let (new, pool, e, room) = krealloc-one k.store h.block memory in
      let may : (has_flag mode o_rdwr && not (has_flag h.file.perm perm_write)) ≡ false =
        rw h.is_perm allowed in
      let file : VFile = record h.file { content = some (set new 0 eof); size = 0 } in
      (
        record k {
          store = record k.store { pool = pool; vfile = update k.store.vfile p (some file) };
        },
        rw (h.stored, may, over, h.is_file.holds, e) refl,
        record {
          file = file;
          block = set new 0 eof;
          stored = ground arith;
          is_file = record { holds = refl; fits = ground (arith, length-set new 0 eof) };
          is_text = refl;
          is_perm = h.is_perm;
          unlocked = h.unlocked;
        },
        ground arith,
      )

  -- A file that is there and is opened without `O_APPEND`, be it for reading only, is empty
  -- afterwards; the offset is 0 and the other files stay as they are.
  pub getnode_vffs-truncates :
      (v : Ptr) (name : CString)
      → get_node_vffs v name k.store ≡ ok p k.store
      → p ≢ null
      → Holds k.store p perm text
      → has_flag mode o_append ≡ false
      → (has_flag mode o_rdwr && not (has_flag perm perm_write)) ≡ false
      → (k.store.pool 0).address ≢ null
      → (k' : Kernel Hw Fat) × (getnode_vffs v name mode k
          ≡ finished (some (record { node = p; type = vfiles; offset = 0 })) k')
        × Holds k'.store p perm []
        × ((q : Ptr) → q ≢ p → k'.store.vfile q ≡ k.store.vfile q)
  unfolding getnode_vffs
  getnode_vffs-truncates v name found live h over allowed memory =
      let (k', e, empty, others) = open_vfile-truncates h over allowed memory in
      let used : (p == null) ≡ false = ground arith in (k', rw (found, used, e) refl, empty, others)

module _ {Hw Fat : Type 0} (k : Kernel Hw Fat) (mode : ℕ) {p : Ptr} where
  -- With `O_APPEND` the offset is the size of the file, and nothing changes.
  pub getnode_vffs-append :
      (v : Ptr) (name : CString) (file : VFile)
      → get_node_vffs v name k.store ≡ ok p k.store
      → p ≢ null
      → k.store.vfile p ≡ some file
      → has_flag mode o_append ≡ true
      → (has_flag mode o_rdwr && not (has_flag file.perm perm_write)) ≡ false
      → getnode_vffs v name mode k
        ≡ finished (some (record { node = p; type = vfiles; offset = file.size })) k
  unfolding getnode_vffs open_vfile
  getnode_vffs-append v name file found live stored over allowed =
      let used : (p == null) ≡ false = ground arith in rw (found, used, stored, allowed, over) refl
