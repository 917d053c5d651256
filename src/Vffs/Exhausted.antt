-- ===== src/Vffs/Exhausted.antt =====
-- What `write_vfile` of src/fs/vffs.c does where `krealloc` has no memory.
use ras_pi_k.Base.{
  ℕ, ◌+◌, ◌%◌, ◌^◌, ◌<◌, ◌≡◌, ◌≢◌, refl, true, false, none, some, List, arith, ◌==◌, ltb, length,
  length-take,
}
use ras_pi_k.Store.{Ptr, null, VFile, Store, ok, fault, update}
use ras_pi_k.Vffs.{perm_write, has_flag, krealloc, grow, write_vfile}
use ras_pi_k.Vffs.Contents.{Holds}

module _ {Hw : Type 0} where
  -- Another block is asked for where the length is not that of the old one.
  krealloc_exhausted :
      (old : List ℕ) (n : ℕ) (s : Store Hw)
      → 0 < n
      → n ≢ length old
      → (s.pool 0).address ≡ null
      → krealloc (some old) n s ≡ ok none (record s { pool = λ i. s.pool (i + 1) })
  unfolding krealloc
  krealloc_exhausted old n s positive other out =
      let some_bytes : (n == 0) ≡ false = ground arith in
      let moved : (n == length old) ≡ false = ground arith in
      let refused : ((s.pool 0).address == null) ≡ true = ground arith in
      rw (some_bytes, moved, refused) refl

  grow_exhausted :
      (f : VFile) (block : List ℕ) (n : ℕ) (s : Store Hw)
      → f.content ≡ some block
      → f.size < n
      → n ≢ length block
      → (s.pool 0).address ≡ null
      → grow f n s ≡ ok none (record s { pool = λ i. s.pool (i + 1) })
  unfolding grow
  grow_exhausted f block n s holds longer other out =
      let more : ltb f.size n ≡ true = ground arith in
      rw (more, holds, krealloc_exhausted block n s (omega arith) other out) refl

module _ {Hw : Type 0} {s : Store Hw} {p : Ptr} {perm : ℕ} {text : List ℕ} where
  -- A write to a file that may be written and is not locked, which ends behind the bytes of the
  -- file and needs a block of another length than it has, ends in a fault where `kmalloc` has no
  -- memory: `write_vfile` writes through the `NULL` that `krealloc` returned.
  pub write_vfile_exhausted :
      (off : ℕ) (buff : List ℕ) (h : Holds s p perm text)
      → has_flag perm perm_write ≡ true
      → length text < off + length buff + 1
      → off + length buff + 1 ≢ length h.block
      → off + length buff + 1 < 2 ^ 32
      → (s.pool 0).address ≡ null
      → write_vfile p off buff s ≡ fault
  unfolding write_vfile
  write_vfile_exhausted off buff h writable grows other small out =
      let f = h.file in
      let n = off + length buff + 1 in
      let fits = h.is_file.fits in
      let longer : f.size < n = ground (arith, length-take f.size h.block, h.is_text) in
      let flag : has_flag f.perm perm_write ≡ true = rw h.is_perm writable in
      let unlocked = h.unlocked in
      let free : (f.lock == 1) ≡ false = ground arith in
      let need : n % 2 ^ 32 ≡ n = omega arith in
      let locked : Store Hw = record s {
        vfile = update s.vfile p (some (record f { lock = 1 }));
      } in
      let none_left = grow_exhausted f h.block n locked h.is_file.holds longer other out in
      rw (h.stored, flag, free, need, none_left) refl
