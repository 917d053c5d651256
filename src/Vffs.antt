-- ===== src/Vffs.antt =====
-- The in-memory file system: src/fs/vffs.c and include/fs/vffs.h. `nbfiles` never falls below 0, so
-- it is a number; offsets and sizes are `uint32_t`.
pub mod Bytes
pub mod Entries
pub mod Lookup
pub mod Files
pub mod Remove
pub mod Contents
pub mod Exhausted
pub mod Free
mod Tests
use mathlib.Core.Option
use ras_pi_k.Base.{
  ℕ, zero, suc, ◌+◌, ◌-◌, ◌%◌, ◌^◌, Bool, true, false, not, ◌&&◌, ◌||◌, Option, none, some, List,
  [], ◌∷◌, ◌++◌, ℤ, pos, failed, ◌==◌, ltb, leb, if◌then◌else◌, bit_and, length, get_elem?, set,
  take,
}
use ras_pi_k.Strings.{CString, strcmp}
use ras_pi_k.Store.{
  Ptr, null, VFile, Vffs, M, pure, ◌>>=◌, ◌>>◌, demand, crash, kmalloc, update, load_vfile,
  store_vfile, load_vffs, store_vffs, free_vfile, free_vffs,
}
use ras_pi_k.Store.Blocks.{block_bytes, fresh_block, moved_block}

abbrev pub nbmax_file : ℕ
nbmax_file = 4096

abbrev pub eof : ℕ
eof = 0xff

abbrev pub perm_read : ℕ
perm_read = 0x0f

abbrev pub perm_write : ℕ
perm_write = 0xf0

-- `(x & flag) == flag`
abbrev pub has_flag : ℕ → ℕ → Bool
has_flag x flag = bit_and x flag == flag

abbrev pub u32 : ℕ → ℕ
u32 n = n % 2 ^ 32

-- The loop from `data[i]` on, with `n` bytes left to read: it stops at the file's end, at a byte
-- `EOF`, and when `n` is 0, in this order. `none` is a read past the end of the block.
pub read_bytes : ℕ → List ℕ → ℕ → ℕ → Option (List ℕ)
read_bytes zero block size i =
    if ltb i size then Option.map (λ _. []) (get_elem? block i) else some []
read_bytes (suc n) block size i =
    let rest = read_bytes n block size (i + 1) in
    if ltb i size
    then elim (get_elem? block i) [
      | none ↦ none
      | some c ↦ if c == eof then some [] else Option.map (◌∷◌ c) rest
    ]
    else some []

-- the bytes that a read at an offset takes from a file; the loop looks at `data` only before the
-- end
pub bytes_at : VFile → ℕ → ℕ → Option (List ℕ)
unfolding read_bytes
bytes_at f offset len =
    if ltb offset f.size
    then elim f.content [ none ↦ none | some block ↦ read_bytes len block f.size offset ]
    else some []

-- The loop that writes the bytes of `buff` from `data[i]` on, and `EOF` behind them. `none` is a
-- write past the end of the block.
pub write_bytes : List ℕ → ℕ → List ℕ → Option (List ℕ)
write_bytes [] i block = if ltb i (length block) then some (set block i eof) else none
write_bytes (c ∷ cs) i block =
    let rest = write_bytes cs (i + 1) (set block i c) in if ltb i (length block) then rest else none

-- `for (int j = i; j < …; j++) list[j] = list[j + 1];`, with `n` rounds left
pub shift_down : ℕ → ℕ → (ℕ → Ptr) → ℕ → Ptr
shift_down zero j list = list
shift_down (suc n) j list = shift_down n (j + 1) (update list j (list (j + 1)))

-- the file of `create_vfile`, whose data has no block yet
abbrev pub new_file : CString → VFile
new_file name = record { name = name; size = 0; content = none; perm = 0xff; lock = 0 }

module _ {Hw : Type 0} where
  -- `krealloc (data, n)`
  unfoldable pub krealloc : Option (List ℕ) → ℕ → M Hw (Option (List ℕ))
  krealloc none n = do
    a ← kmalloc
    pure (if a.address == null then none else some (fresh_block n a.junk))
  krealloc (some old) n =
      if n == 0 then pure none else if n == length old then pure (some old) else do
        a ← kmalloc
        pure (if a.address == null then none else some (moved_block old n a.junk))

  -- The loop that all functions with a name begin with: the index of the first file of that name,
  -- looked for from index `i` on with `n` files left.
  pub find_vfile : ℕ → ℕ → (ℕ → Ptr) → CString → M Hw (Option ℕ)
  find_vfile zero i list name = pure none
  find_vfile (suc n) i list name = do
    f ← load_vfile (list i)
    if strcmp f.name name == 0 then pure (some i) else find_vfile n (i + 1) list name

  pub create_vfile : Ptr → CString → M Hw ℤ
  unfolding find_vfile
  create_vfile vffs name = do
    fs ← load_vffs vffs
    if leb nbmax_file fs.nbfiles then pure failed else do
      found ← find_vfile fs.nbfiles 0 fs.list name
      elim found [
        | some i ↦ pure failed
        | none ↦ do
          file ← kmalloc
          if file.address == null then pure failed else do
            store_vfile file.address (new_file name)
            block ← kmalloc
            if block.address == null then (do free_vfile file.address; pure failed) else do
              store_vfile file.address
                  (record (new_file name) { content = some (set (fresh_block 1 block.junk) 0 eof) })
              store_vffs vffs (record fs {
                list = update fs.list fs.nbfiles file.address;
                nbfiles = fs.nbfiles + 1;
              })
              pure (pos 0)
      ]

  pub get_node_vffs : Ptr → CString → M Hw Ptr
  unfolding find_vfile
  get_node_vffs vffs name = do
    fs ← load_vffs vffs
    found ← find_vfile fs.nbfiles 0 fs.list name
    pure (elim found [ none ↦ null | some i ↦ fs.list i ])

  pub remove_vfile : Ptr → CString → M Hw ℤ
  unfolding find_vfile shift_down
  remove_vfile vffs name = do
    fs ← load_vffs vffs
    found ← find_vfile fs.nbfiles 0 fs.list name
    elim found [
      | none ↦ pure failed
      | some i ↦ do
        free_vfile (fs.list i)
        store_vffs vffs (record fs {
          list = update (shift_down (fs.nbfiles - 1 - i) i fs.list) (fs.nbfiles - 1) null;
          nbfiles = fs.nbfiles - 1;
        })
        pure (pos 0)
    ]

  -- The result, the new offset and the bytes that `buff` is left with: those read, and a 0.
  pub read_vfile : Ptr → ℕ → ℕ → M Hw (ℤ × ℕ × List ℕ)
  unfolding read_bytes
  read_vfile file offset len = do
    f ← load_vfile file
    if not (has_flag f.perm perm_read) then pure (failed, offset, []) else do
      bytes ← demand (bytes_at f offset len)
      pure (pos (length bytes), u32 (offset + length bytes), bytes ++ (0 ∷ []))

  -- the block that `write_vfile` writes to, given the bytes that it needs
  pub grow : VFile → ℕ → M Hw (Option (List ℕ))
  unfolding krealloc
  grow f n = if ltb f.size n then krealloc f.content n else pure f.content

  -- The result and the new offset; `buff` is the list of the `len` bytes to write.
  pub write_vfile : Ptr → ℕ → List ℕ → M Hw (ℤ × ℕ)
  unfolding write_bytes
  write_vfile file offset buff = do
    f ← load_vfile file
    if not (has_flag f.perm perm_write) || (f.lock == 1) then pure (failed, offset) else do
      store_vfile file (record f { lock = 1 })
      let len : ℕ = length buff
      content ← grow f (u32 (offset + len + 1))
      block ← demand content
      -- the loop runs while `i < *offset + len`, a sum that may wrap
      let count : ℕ = u32 (offset + len) - offset
      block' ← demand (write_bytes (take count buff) offset block)
      store_vfile file (record f { size = u32 (offset + len); content = some block'; lock = 0 })
      pure (pos count, u32 (offset + count))

  pub chmod_vfile : Ptr → CString → ℕ → M Hw ℤ
  unfolding find_vfile
  chmod_vfile vffs name perm = do
    fs ← load_vffs vffs
    found ← find_vfile fs.nbfiles 0 fs.list name
    elim found [
      | none ↦ pure failed
      | some i ↦ do
        f ← load_vfile (fs.list i)
        store_vfile (fs.list i) (record f { perm = perm })
        pure (pos 0)
    ]

  -- the names of the `n` files from index `i` on
  pub names_from : ℕ → ℕ → (ℕ → Ptr) → M Hw (List CString)
  names_from zero i list = pure []
  names_from (suc n) i list = do
    f ← load_vfile (list i)
    rest ← names_from n (i + 1) list
    pure (f.name ∷ rest)

  -- the list that ends in `NULL`, without it; `none` where memory is out
  pub readdir_vffs : Ptr → M Hw (Option (List CString))
  unfolding names_from
  readdir_vffs vffs = do
    fs ← load_vffs vffs
    a ← kmalloc
    if a.address == null
        then pure none
        else do names ← names_from fs.nbfiles 0 fs.list; pure (some names)

  pub create_vffs : M Hw Ptr
  create_vffs = do
    a ← kmalloc
    if a.address == null
        then pure null
        else do store_vffs a.address (record { list = λ _. null; nbfiles = 0 }); pure a.address

  -- `for (int i = 0; i < NBMAX_FILE; i++)`, with `n` rounds left
  pub free_files : ℕ → ℕ → (ℕ → Ptr) → M Hw (Unit {0})
  free_files zero i list = pure tt
  free_files (suc n) i list = do
    (if list i == null then pure tt else free_vfile (list i))
    free_files n (i + 1) list

  pub remove_vffs : Ptr → M Hw (Unit {0})
  remove_vffs vffs = do fs ← load_vffs vffs; free_files nbmax_file 0 fs.list; free_vffs vffs
