-- ===== src/Vfs/Rounds.antt =====
-- A write, a seek and a read on one file descriptor of src/fs/vfs.c.
use ras_pi_k.Base.{
  ℕ, ◌+◌, ◌^◌, ◌<◌, ◌≤◌, ◌≡◌, ◌≢◌, refl, some, true, false, List, [], ◌∷◌, ◌++◌, arith, ◌==◌, ltb,
  ℤ, pos, length,
}
use ras_pi_k.Store.{Ptr, null, VFile, ok, Store, update}
use ras_pi_k.Vffs.{has_flag, perm_read, perm_write, read_vfile, write_vfile}
use ras_pi_k.Vffs.Bytes.{HasNoEof}
use ras_pi_k.Vffs.Contents.{Holds, write_vfile-Holds, read_vfile-end}
use ras_pi_k.Kernel.{vfiles, Fd, Kernel, K, Fat32, finished, return, ◌>>=◌}
use ras_pi_k.Vfs.{nbmax_fd, o_rdonly, lookup_fd, read, write, seek, seek_offset, fd_size, int_of}

module _ {Hw Fat : Type 0} (f : Fat32 Hw Fat) where
  -- `write (fd, buf, len); seek (fd, offset, SEEK_SET); read (fd, …, len)`
  pub write_seek_read : ℤ → List ℕ → ℕ → K Hw Fat (ℤ × ℤ × ℤ × List ℕ)
  unfolding write seek read
  write_seek_read fd buf offset = do
    w ← write fd buf
    to ← seek f fd offset 0
    r ← read f fd (length buf)
    return (w, to, r.0, r.1)

-- a file descriptor on the file `p` in memory
abbrev pub file_fd : Ptr → ℕ → ℕ → Fd
file_fd p mode offset = record { type = vfiles; mode = mode; addr = p; offset = offset }

module _ {Hw Fat : Type 0} (k : Kernel Hw Fat) (i p mode offset : ℕ) (inside : i < nbmax_fd)
    (here : k.fd_table i ≡ file_fd p mode offset) (live : p ≢ null) where
  lookup_fd-file_fd : lookup_fd (pos i) k ≡ finished (some (i, file_fd p mode offset)) k
  unfolding lookup_fd
  lookup_fd-file_fd =
      let lt : ltb i nbmax_fd ≡ true = ground arith in
      let used : (p == null) ≡ false = ground arith in rw (lt, here, used) refl

  write-file_fd :
      (buf : List ℕ) {ret : ℤ} {to : ℕ} {s' : Store Hw}
      → has_flag mode o_rdonly ≡ false
      → write_vfile p offset buf k.store ≡ ok (ret, to) s'
      → write (pos i) buf k
        ≡ finished ret (record k { store = s'; fd_table = update k.fd_table i (file_fd p mode to) })
  unfolding write
  write-file_fd buf writable e = rw (lookup_fd-file_fd, writable, e) refl

  read-file_fd :
      (f : Fat32 Hw Fat) (len : ℕ) {ret : ℤ} {to : ℕ} {buf : List ℕ} {s' : Store Hw}
      → read_vfile p offset len k.store ≡ ok (ret, to, buf) s'
      → read f (pos i) len k
        ≡ finished
            (ret, buf)
            (record k { store = s'; fd_table = update k.fd_table i (file_fd p mode to) })
  unfolding read
  read-file_fd f len e = rw (lookup_fd-file_fd, e) refl

  seek-file_fd :
      (f : Fat32 Hw Fat) (to : ℕ) {file : VFile}
      → k.store.vfile p ≡ some file
      → seek f (pos i) to 0 k
        ≡ finished (int_of to) (record k { fd_table = update k.fd_table i (file_fd p mode to) })
  unfolding seek fd_size seek_offset
  seek-file_fd f to held = rw (lookup_fd-file_fd, held) refl

update_self {ℓ} : {A : Type ℓ} (t : ℕ → A) (i : ℕ) (a : A) → update t i a i ≡ a
update_self t i a = ground arith

module _ {Hw Fat : Type 0} (f : Fat32 Hw Fat) (k : Kernel Hw Fat) (i : ℕ) {p mode perm offset : ℕ}
    {text : List ℕ} where
  -- What is written through a file descriptor is read back through it after a seek to where the
  -- write began, if the file descriptor is that of a file in memory and is not `O_RDONLY`, no byte
  -- is `EOF`, the offset is inside the file, the file may be read and written and is not locked,
  -- the end of the write fits an `int`, and `kmalloc` has memory for the first block that it is
  -- asked for. The other file descriptors stay as they are.
  pub write_seek_read_lem :
      (buf : List ℕ)
      → i < nbmax_fd
      → k.fd_table i ≡ file_fd p mode offset
      → p ≢ null
      → has_flag mode o_rdonly ≡ false
      → Holds k.store p perm text
      → has_flag perm perm_read ≡ true
      → has_flag perm perm_write ≡ true
      → offset ≤ length text
      → offset + length buf + 1 < 2 ^ 31
      → (k.store.pool 0).address ≢ null
      → HasNoEof buf
      → (k' : Kernel Hw Fat) × (write_seek_read f (pos i) buf offset k
          ≡ finished (pos (length buf), pos offset, pos (length buf), buf ++ (0 ∷ [])) k')
        × (k'.fd_table i ≡ file_fd p mode (offset + length buf))
        × ((j : ℕ) → j ≢ i → k'.fd_table j ≡ k.fd_table j)
  unfolding write_seek_read
  write_seek_read_lem buf inside here live opened h readable writable at small memory plain =
      let (s', w, h', _) = write_vfile-Holds offset buf h writable at (omega arith) memory in
      let r = read_vfile-end offset text buf h' readable at (omega arith) plain in
      let to = offset + length buf in
      let k₁ : Kernel Hw Fat = record k {
        store = s';
        fd_table = update k.fd_table i (file_fd p mode to);
      } in
      let k₂ : Kernel Hw Fat = record k₁ {
        fd_table = update k₁.fd_table i (file_fd p mode offset);
      } in
      let k₃ : Kernel Hw Fat = record k₂ { fd_table = update k₂.fd_table i (file_fd p mode to) } in
      let low : ltb offset (2 ^ 31) ≡ true = ground arith in
      (
        k₃,
        rw
            (
              write-file_fd k i p mode offset inside here live buf opened w,
              seek-file_fd k₁ i p mode to inside (update_self k.fd_table i _) live f offset
                  h'.stored,
              low,
              read-file_fd k₂ i p mode offset inside (update_self k₁.fd_table i _) live f
                  (length buf) r,
            )
            refl,
        update_self k₂.fd_table i _,
        ground arith,
      )
