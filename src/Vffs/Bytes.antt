-- ===== src/Vffs/Bytes.antt =====
-- The byte loops of `read_vfile` and `write_vfile` of src/fs/vffs.c.
use mathlib.Core.List.{append_assoc}
use ras_pi_k.Base.{
  ℕ, zero, suc, ◌+◌, ◌<◌, ◌≤◌, ◌≡◌, ◌≢◌, refl, some, List, [], ◌∷◌, ◌++◌, arith, ◌==◌, ltb,
  if◌then◌else◌, length, take, drop, lt→ltb, set-append, length-append, length-take, drop-take-cons,
  drop_all, Bool-cases, inl, inr, ltb→lt,
}
use ras_pi_k.Vffs.{eof, read_bytes, write_bytes}

-- the bytes before the first `EOF`
unfoldable pub until_eof : List ℕ → List ℕ
until_eof [] = []
until_eof (c ∷ cs) = if c == eof then [] else c ∷ until_eof cs

-- no byte is `EOF`
abbrev pub HasNoEof : List ℕ → Type 0
HasNoEof [] = Unit {0}
HasNoEof (c ∷ cs) = (c ≢ eof) × HasNoEof cs

pub until_eof_all : (cs : List ℕ) → HasNoEof cs → until_eof cs ≡ cs
unfolding until_eof
until_eof_all [] h = refl
until_eof_all (c ∷ cs) h = ground (arith, until_eof_all cs h.1)

-- A write that stays below the end of the block puts the bytes and `EOF` in place.
pub write_bytes-append :
    (cs : List ℕ) (i : ℕ) (front back : List ℕ)
    → length front ≡ i
    → length cs < length back
    → write_bytes cs i (front ++ back) ≡ some (front ++ (cs ++ (eof ∷ drop (suc (length cs)) back)))
unfolding write_bytes
write_bytes-append [] i front [] e h = absurd (omega arith)
write_bytes-append [] i front (b ∷ back) e h = rw (
  lt→ltb i (length (front ++ (b ∷ back))) (omega (arith, length-append front (b ∷ back))),
  set-append front i b eof back e,
)
write_bytes-append (c ∷ cs) i front [] e h = absurd (omega arith)
write_bytes-append (c ∷ cs) i front (b ∷ back) e h = rw (
  lt→ltb i (length (front ++ (b ∷ back))) (omega (arith, length-append front (b ∷ back))),
  set-append front i b c back e,
  ← append_assoc front (c ∷ []) back,
  write_bytes-append cs (i + 1) (front ++ (c ∷ [])) back
      (omega (arith, length-append front (c ∷ []))) (omega arith),
  append_assoc front (c ∷ []) (cs ++ (eof ∷ drop (suc (length cs)) back)),
)

-- A read inside a block takes the bytes before `EOF`, of those that it asks for and are in the
-- file.
pub read_bytes-until_eof :
    (n i size : ℕ) (block : List ℕ)
    → size ≤ length block
    → read_bytes n block size i ≡ some (until_eof (take n (drop i (take size block))))
unfolding read_bytes until_eof
read_bytes-until_eof zero i size block h = elim (Bool-cases (ltb i size)) [
  | inl inside ↦
      let (x, e, _) = drop-take-cons i size block (ltb→lt i size inside) h in rw (inside, e)
  | inr outside ↦ rw outside
]
read_bytes-until_eof (suc n) i size block h = elim (Bool-cases (ltb i size)) [
  | inl inside ↦
      let (x, e, d) = drop-take-cons i size block (ltb→lt i size inside) h in
      let next : i + 1 ≡ suc i = omega arith in
      rw (inside, e, d, read_bytes-until_eof n (i + 1) size block h, next) (ground arith)
  | inr outside ↦
      rw (outside, drop_all i (take size block) (ground (arith, length-take size block)))
]
