-- ===== src/Vffs/Contents.antt =====
-- What `write_vfile` and `read_vfile` of src/fs/vffs.c do to the bytes of a file.
use mathlib.Core.List.{append_assoc}
use ras_pi_k.Base.{
  ℕ, zero, suc, ◌+◌, ◌-◌, ◌%◌, ◌^◌, ◌<◌, ◌≤◌, ◌≡◌, ◌≢◌, refl, sym, ap, ◌∙◌, true, false, some, List,
  [], ◌∷◌, ◌++◌, arith, ◌==◌, ltb, length, take, drop, length-append, length-take, length-drop,
  take-append-drop, take-append, drop-append, take-take, take_all, drop_all, pos, failed,
  Bool-cases, inl, inr, ◌⊎◌, min,
}
use ras_pi_k.Store.{Ptr, null, VFile, Store, ok, update, Answer}
use ras_pi_k.Store.Blocks.{moved_block, length-moved_block, take-moved_block}
use ras_pi_k.Vffs.{
  eof, perm_read, perm_write, has_flag, bytes_at, write_bytes, krealloc, grow, read_vfile,
  write_vfile,
}
use ras_pi_k.Vffs.Bytes.{
  until_eof, until_eof_all, HasNoEof, write_bytes-append, read_bytes-until_eof,
}

-- the bytes of a file, given the block behind its `data`
abbrev pub text_of : VFile → List ℕ → List ℕ
text_of f block = take f.size block

-- A file whose block has room for its bytes and the `EOF` behind them.
pub record IsFile (f : VFile) (block : List ℕ) : Type 0 where
  pub holds : f.content ≡ some block
  pub fits : f.size < length block

-- A file in the store with the permissions and the bytes that it has.
pub record Holds {Hw : Type 0} (s : Store Hw) (p : Ptr) (perm : ℕ) (text : List ℕ) : Type 0 where
  pub file : VFile
  pub block : List ℕ
  pub stored : s.vfile p ≡ some file
  pub is_file : IsFile file block
  pub is_text : text_of file block ≡ text
  pub is_perm : file.perm ≡ perm
  pub unlocked : file.lock ≡ 0

-- What a write to the file `p` leaves alone.
pub record SameButFile {Hw : Type 0} (p : Ptr) (s s' : Store Hw) : Type 0 where
  pub hw : s'.hw ≡ s.hw
  pub vfile : (q : Ptr) → q ≢ p → s'.vfile q ≡ s.vfile q
  pub vffs : s'.vffs ≡ s.vffs
  pub device : s'.device ≡ s.device
  pub devfs : s'.devfs ≡ s.devfs
  pub driver : s'.driver ≡ s.driver

bytes_at-until_eof :
    (f : VFile) (block : List ℕ) (off len : ℕ)
    → IsFile f block
    → bytes_at f off len ≡ some (until_eof (take len (drop off (text_of f block))))
unfolding bytes_at
bytes_at-until_eof f block off len v = elim (Bool-cases (ltb off f.size)) [
  | inl inside ↦ rw (inside, v.holds) (read_bytes-until_eof len off f.size block (omega arith))
  | inr outside ↦
      rw (outside, drop_all off (text_of f block) (ground (arith, length-take f.size block)))
        (past len)
]
  where
    past : (n : ℕ) → some [] ≡ some (until_eof (take n []))
    past zero = unfold until_eof in refl
    past (suc n) = unfold until_eof in refl

-- A write inside a block sets the bytes behind the offset.
write_block :
    (buff block : List ℕ) (off : ℕ)
    → off + length buff < length block
    → (new : List ℕ) × (write_bytes buff off block ≡ some new)
      × (length new ≡ length block)
      × (take (off + length buff) new ≡ take off block ++ buff)
write_block buff block off h =
    let front = take off block in
    let back = drop off block in
    let size : length front ≡ off = omega (arith, length-take off block) in
    let new = front ++ (buff ++ (eof ∷ drop (suc (length buff)) back)) in
    (
      new,
      ap (write_bytes buff off) (sym (take-append-drop off block))
          ∙ write_bytes-append buff off front back size (omega (arith, length-drop off block)),
      omega (
        arith,
        size,
        length-append front (buff ++ (eof ∷ drop (suc (length buff)) back)),
        length-append buff (eof ∷ drop (suc (length buff)) back),
        length-drop (suc (length buff)) back,
        length-drop off block,
      ),
      rw (← append_assoc front buff (eof ∷ drop (suc (length buff)) back)) (
          take-append (off + length buff) (front ++ buff) (eof ∷ drop (suc (length buff)) back)
            (omega (arith, length-append front buff))),
    )

module _ {Hw : Type 0} where
  -- `krealloc` of a block keeps the bytes that fit, and has room for all that is asked.
  krealloc_keeps :
      (old : List ℕ) (n : ℕ) (s : Store Hw)
      → 0 < n
      → (s.pool 0).address ≢ null
      → (new : List ℕ) × (pool : ℕ → Answer) × (krealloc (some old) n s
          ≡ ok (some new) (record s { pool = pool }))
        × (n ≤ length new)
        × (take (min n (length old)) new ≡ take (min n (length old)) old)
  unfolding krealloc
  krealloc_keeps old n s positive memory = elim (Bool-cases (n == length old)) [
    | inl same ↦ (old, s.pool, rw (nonzero, same), ground arith, refl)
    | inr other ↦ (
      moved_block old n (s.pool 0).junk,
      λ i. s.pool (i + 1),
      rw (nonzero, other, got),
      omega (arith, length-moved_block old n (s.pool 0).junk),
      take-moved_block old n (s.pool 0).junk,
    )
  ]
    where
      nonzero : (n == 0) ≡ false
      nonzero = ground arith

      got : ((s.pool 0).address == null) ≡ false
      got = ground arith

module _ {Hw : Type 0} where
  -- The block that `write_vfile` gets has room, and still has the bytes before the offset.
  grow_keeps :
      (f : VFile) (block : List ℕ) (off n : ℕ) (s : Store Hw)
      → IsFile f block
      → off ≤ f.size
      → off < n
      → (s.pool 0).address ≢ null
      → (new : List ℕ) × (pool : ℕ → Answer) × (grow f n s
          ≡ ok (some new) (record s { pool = pool }))
        × (n ≤ length new)
        × (take off new ≡ take off block)
  unfolding grow
  grow_keeps f block off n s v inside lt memory = elim (Bool-cases (ltb f.size n)) [
    | inl more ↦
        let (new, pool, e, room, same) = krealloc_keeps block n s (omega arith) memory in
        let k = min n (length block) in
        let le : off ≤ k = omega arith in
        (
          new,
          pool,
          rw (more, v.holds, e),
          room,
          sym (take-take off k new le) ∙ ap (take off) same ∙ take-take off k block le,
        )
    | inr enough ↦ (block, s.pool, rw (enough, v.holds), ground arith, refl)
  ]

module _ {Hw : Type 0} {s : Store Hw} {p : Ptr} {perm : ℕ} {text : List ℕ} where
  -- `read_vfile` of an unlocked file that may be read, with a block that has room for its bytes,
  -- returns the bytes from the offset on, at most `len` of them and none from the first `EOF` on,
  -- with a 0 behind them; it moves the offset by their number and changes nothing else.
  pub read_vfile-until_eof :
      (off len : ℕ)
      → Holds s p perm text
      → has_flag perm perm_read ≡ true
      → let bytes = until_eof (take len (drop off text)) in
        read_vfile p off len s
        ≡ ok (pos (length bytes), (off + length bytes) % 2 ^ 32, bytes ++ (0 ∷ [])) s
  unfolding read_vfile
  read_vfile-until_eof off len h readable =
      let flag : has_flag h.file.perm perm_read ≡ true = rw h.is_perm readable in
      rw (h.stored, flag, bytes_at-until_eof h.file h.block off len h.is_file, h.is_text)

  -- `write_vfile` of a file that may be written and is not locked, at an offset inside it, where
  -- `kmalloc` has memory for the first block that it is asked for and the new length fits 32 bits,
  -- puts the bytes there and ends the file behind them: what the file had after them is lost. It
  -- moves the offset by their number, keeps the permissions and leaves the file unlocked; it
  -- changes no other object.
  pub write_vfile-Holds :
      (off : ℕ) (buff : List ℕ)
      → Holds s p perm text
      → has_flag perm perm_write ≡ true
      → off ≤ length text
      → off + length buff + 1 < 2 ^ 32
      → (s.pool 0).address ≢ null
      → (s' : Store Hw) × (write_vfile p off buff s ≡ ok (pos (length buff), off + length buff) s')
        × Holds s' p perm (take off text ++ buff)
        × SameButFile p s s'
  unfolding write_vfile
  write_vfile-Holds off buff h writable inside small memory =
      let f = h.file in
      let len = length buff in
      let le : off ≤ f.size = ground (arith, length-take f.size h.block, h.is_text) in
      let locked : Store Hw = record s {
        vfile = update s.vfile p (some (record f { lock = 1 }));
      } in
      let (block, pool, e, room, same) =
        grow_keeps f h.block off (off + len + 1) locked h.is_file le (omega arith) memory in
      let (new, w, size, bytes) = write_block buff block off (omega arith) in
      let flag : has_flag f.perm perm_write ≡ true = rw h.is_perm writable in
      let free : (f.lock == 1) ≡ false = ground arith in
      let need : (off + len + 1) % 2 ^ 32 ≡ off + len + 1 = omega arith in
      let whole : (off + len) % 2 ^ 32 ≡ off + len = omega arith in
      let count : off + len - off ≡ len = omega arith in
      let final : VFile = record f { size = off + len; content = some new; lock = 0 } in
      (
        record s {
          vfile = update (update s.vfile p (some (record f { lock = 1 }))) p (some final);
          pool = pool;
        },
        rw (h.stored, flag, free, need, e, whole, count, take_all len buff (omega arith), w, whole),
        record {
          file = final;
          block = new;
          stored = ground arith;
          is_file = record { holds = refl; fits = omega arith };
          is_text =
              bytes
              ∙ ap (λ t. t ++ buff)
                  (same ∙ sym (take-take off f.size h.block le) ∙ ap (take off) h.is_text);
          is_perm = h.is_perm;
          unlocked = refl;
        },
        record {
          hw = refl;
          vfile = ground arith;
          vffs = refl;
          device = refl;
          devfs = refl;
          driver = refl;
        },
      )

module _ {Hw : Type 0} {s : Store Hw} (p : Ptr) where
  -- A file that may not be written, or that is locked, is left alone with all else.
  pub write_vfile_refused :
      (off : ℕ) (buff : List ℕ) {f : VFile}
      → s.vfile p ≡ some f
      → (has_flag f.perm perm_write ≡ false) ⊎ (f.lock ≡ 1)
      → write_vfile p off buff s ≡ ok (failed, off) s
  unfolding write_vfile
  write_vfile_refused off buff stored (inl perm) = rw (stored, perm)
  write_vfile_refused off buff {f = f} stored (inr lock) = ground arith

module _ {Hw : Type 0} {s : Store Hw} {p : Ptr} {perm : ℕ} where
  -- a read of what a file ends with
  pub read_vfile-end :
      (off : ℕ) (text buff : List ℕ)
      → Holds s p perm (take off text ++ buff)
      → has_flag perm perm_read ≡ true
      → off ≤ length text
      → off + length buff + 1 < 2 ^ 32
      → HasNoEof buff
      → read_vfile p off (length buff) s
        ≡ ok (pos (length buff), off + length buff, buff ++ (0 ∷ [])) s
  read_vfile-end off text buff h readable inside small plain =
      let front : drop off (take off text ++ buff) ≡ buff =
        drop-append off (take off text) buff (omega (arith, length-take off text)) in
      let bytes : until_eof (take (length buff) (drop off (take off text ++ buff))) ≡ buff =
        rw (front, take_all (length buff) buff (omega arith)) (until_eof_all buff plain) in
      let whole : (off + length buff) % 2 ^ 32 ≡ off + length buff = omega arith in
      read_vfile-until_eof off (length buff) h readable ∙ rw (bytes, whole)
