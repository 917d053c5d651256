-- ===== src/Paths.antt =====
-- The paths of src/fs/vfs.c: `parse_path`, which splits a path at its second slash.
pub mod Split
mod Tests
use ras_pi_k.Base.{
  ℕ, ◌+◌, Option, none, some, List, [], ◌∷◌, ◌==◌, leb, ◌||◌, if◌then◌else◌, length,
}
use ras_pi_k.Strings.{CString, strlen, text}
use ras_pi_k.Store.{Ptr, null, Store, M, ok, pure, ◌>>=◌, crash, kmalloc}
use ras_pi_k.Store.Blocks.{block_bytes}

abbrev pub slash : ℕ
slash = b'/'

-- `path[0] == '/' ? path + 1 : path`
unfoldable pub skip_slash : CString → CString
skip_slash [] = []
skip_slash (c ∷ s) = if c == slash then s else c ∷ s

-- what the loop of `parse_path` copies up to a slash or the end
pub before_slash : CString → CString
before_slash [] = []
before_slash (c ∷ s) =
    let rest = before_slash s in if (c == 0) || (c == slash) then [] else c ∷ rest

-- what stands behind the slash at which this loop stops; `none` where it stops at the end
pub after_slash : CString → Option CString
after_slash [] = none
after_slash (c ∷ s) =
    let rest = after_slash s in if c == 0 then none else if c == slash then some s else rest

module _ {Hw : Type 0} where
  -- The array and its two strings of `strlen (path)` bytes are asked for without a test: `NULL` is
  -- written through, and the terminator of the first part may stand past the end of its block.
  unfoldable pub parse_path : CString → M Hw (Option (CString × CString))
  unfolding skip_slash before_slash after_slash
  parse_path path = do
    a ← kmalloc
    b ← kmalloc
    c ← kmalloc
    let dir = before_slash (skip_slash path) in
        if (a.address == null) || (b.address == null)
        then crash
        else if leb (block_bytes (strlen path)) (length dir)
        then crash
        else elim (after_slash (skip_slash path)) [
          | none ↦ pure none
          | some file ↦ if c.address == null then crash else pure (some (dir, text file))
        ]
