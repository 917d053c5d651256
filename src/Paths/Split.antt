-- ===== src/Paths/Split.antt =====
-- The parts that `parse_path` of src/fs/vfs.c splits a path into.
use ras_pi_k.Base.{
  suc, ◌+◌, ◌%◌, ◌≡◌, ◌≢◌, refl, ap, none, some, true, false, [], ◌∷◌, ◌++◌, arith, ◌==◌, leb, ◌||◌,
  length,
}
use ras_pi_k.Strings.{CString, strlen, text}
use ras_pi_k.Store.{null, Store, ok, fault}
use ras_pi_k.Store.Blocks.{block_bytes}
use ras_pi_k.Paths.{slash, skip_slash, before_slash, after_slash, parse_path}

-- the bytes of a name: no terminator and no slash
unfoldable pub IsName : CString → Type 0
IsName [] = Unit {0}
IsName (c ∷ s) = (c ≢ 0) × (c ≢ slash) × IsName s

before_slash-name : (dir file : CString) → IsName dir → before_slash (dir ++ slash ∷ file) ≡ dir
unfolding before_slash IsName
before_slash-name [] file h = refl
before_slash-name (c ∷ dir) file (ne_zero, ne_slash, rest) =
    let more : ((c == 0) || (c == slash)) ≡ false = ground arith in
    rw (more, before_slash-name dir file rest) refl

after_slash-name : (dir file : CString) → IsName dir → after_slash (dir ++ slash ∷ file) ≡ some file
unfolding after_slash IsName
after_slash-name [] file h = refl
after_slash-name (c ∷ dir) file (ne_zero, ne_slash, rest) =
    let zero_not : (c == 0) ≡ false = ground arith in
    let slash_not : (c == slash) ≡ false = ground arith in
    rw (zero_not, slash_not) (after_slash-name dir file rest)

strlen-name : (dir rest : CString) → IsName dir → strlen (dir ++ rest) ≡ length dir + strlen rest
unfolding strlen IsName
strlen-name [] rest h = omega arith
strlen-name (c ∷ dir) rest (ne_zero, ne_slash, more) =
    let there : (c == 0) ≡ false = ground arith in
    rw there (omega (arith, strlen-name dir rest more))

alone :
    (dir : CString)
    → IsName dir
    → (before_slash dir ≡ dir) × (after_slash dir ≡ none) × (strlen dir ≡ length dir)
unfolding before_slash after_slash strlen IsName
alone [] h = (refl, refl, refl)
alone (c ∷ dir) (ne_zero, ne_slash, more) =
    let (before, after, len) = alone dir more in
    let zero_not : (c == 0) ≡ false = ground arith in
    let slash_not : (c == slash) ≡ false = ground arith in
    (rw (zero_not, slash_not, before) refl, rw (zero_not, slash_not) after, rw (zero_not, len) refl)

skip_slash-name : (dir : CString) → IsName dir → skip_slash dir ≡ dir
unfolding skip_slash IsName
skip_slash-name [] h = refl
skip_slash-name (c ∷ dir) (ne_zero, ne_slash, more) =
    let there : (c == slash) ≡ false = ground arith in rw there refl

module _ {Hw : Type 0} (s : Store Hw) (first : (s.pool 0).address ≢ null)
    (second : (s.pool 1).address ≢ null) where
  -- `/dir/file` is split into `dir` and `file`, where `dir` is a name and there is memory for the
  -- array and both parts.
  pub parse_path-split :
      (dir file : CString)
      → IsName dir
      → (s.pool 2).address ≢ null
      → parse_path (slash ∷ dir ++ slash ∷ file) s
        ≡ ok (some (dir, text file)) (record s { pool = λ i. s.pool (i + 1 + 1 + 1) })
  unfolding parse_path skip_slash strlen
  parse_path-split dir file h third =
      let a : (((s.pool 0).address == null) || ((s.pool 1).address == null)) ≡ false =
        ground arith in
      let c : ((s.pool 2).address == null) ≡ false = ground arith in
      let len = strlen-name dir (slash ∷ file) h in
      let fits : leb (block_bytes (suc (strlen (dir ++ slash ∷ file)))) (length dir) ≡ false =
        ground arith in
      rw (a, before_slash-name dir file h, fits, after_slash-name dir file h, c)
        (ap (λ d. ok (some (d, text file)) (record s { pool = λ i. s.pool (i + 1 + 1 + 1) }))
          (before_slash-name dir file h))

  -- A path of a name alone, whose length is a multiple of 8, has its terminator written past the
  -- block of the first part.
  pub parse_path_overflow :
      (dir : CString) → IsName dir → length dir % 8 ≡ 0 → parse_path dir s ≡ fault
  unfolding parse_path
  parse_path_overflow dir h whole =
      let a : (((s.pool 0).address == null) || ((s.pool 1).address == null)) ≡ false =
        ground arith in
      let (before, after, len) = alone dir h in
      let full : leb (block_bytes (strlen dir)) (length dir) ≡ true = ground arith in
      rw (a, skip_slash-name dir h, before, full) refl
