-- ===== src/Mem.antt =====
-- The allocator of src/mem.c: a circular list of free blocks, each with a header of 8 bytes.
-- Addresses are numbers of bytes, and `cur + n` of the source is `cur + 8 * n`. The loops have `n`
-- rounds; `none` is a run that needs more.
pub mod Fit
pub mod Take
pub mod Units
pub mod Free
mod Tests
use mathlib.Core.Option
use ras_pi_k.Base.{
  ℕ, zero, suc, ◌+◌, ◌-◌, ◌*◌, ◌/◌, ◌%◌, ◌^◌, Bool, true, false, ◌&&◌, ◌||◌, Option, none, some, ℤ,
  pos, failed, ◌==◌, ltb, leb, if◌then◌else◌, is_neg,
}
use ras_pi_k.Store.{Ptr, null, update}
use ras_pi_k.Vffs.{u32}

-- `_end`, what `get_sp` returns, and the address of `heap_list`
pub record Layout : Type 0 where
  pub end_of_kernel : Ptr
  pub sp : Ptr
  pub heap_list : Ptr

-- The headers of the blocks by address, the bytes behind them, and the globals of src/mem.c.
pub record Heap : Type 0 where
  pub next : Ptr → Ptr
  pub len : Ptr → ℕ
  pub bytes : Ptr → ℕ
  pub heap_end : Ptr
  pub heap_start : Ptr

abbrev pub nballoc : ℕ
nballoc = 1024

-- `if (!heap_end) heap_end = &_end;`
abbrev pub start_heap : Layout → Heap → Heap
start_heap l h = if h.heap_end == null then record h { heap_end = l.end_of_kernel } else h

unfoldable pub brk : Layout → Ptr → Heap → ℤ × Heap
brk l addr h =
    let h₁ = start_heap l h in
    if ltb l.sp addr || ltb addr l.end_of_kernel
    then (failed, h₁)
    else (pos 0, record h₁ { heap_end = addr })

-- `none` is `(void *)-1`.
unfoldable pub sbrk : Layout → ℕ → Heap → Option Ptr × Heap
sbrk l increment h =
    let h₁ = start_heap l h in
    let r = brk l (u32 (h₁.heap_end + increment)) h₁ in
    if is_neg r.0 then (none, r.1) else (some h₁.heap_end, r.1)

-- whether the loop of `kfree` goes on at `cur`, and whether it is left there
abbrev pub is_outside : Ptr → Ptr → Ptr → Bool
is_outside block cur next = leb block cur || leb next block

abbrev pub is_last : Ptr → Ptr → Ptr → Bool
is_last block cur next = (ltb cur block || ltb block next) && leb next cur

-- the loop of `kfree`, which looks for the free block that a block comes behind
pub find_place : ℕ → Heap → Ptr → Ptr → Option Ptr
find_place zero h block cur = none
find_place (suc n) h block cur =
    let rest = find_place n h block (h.next cur) in
    if is_outside block cur (h.next cur)
    then if is_last block cur (h.next cur) then some cur else rest
    else some cur

-- the block goes behind the free block `cur`, and is joined with its neighbours
unfoldable pub insert_block : Heap → Ptr → Ptr → Heap
insert_block h block cur =
    let next = h.next cur in
    let h₁ =
      if block + 8 * h.len block == next
      then record h {
        len = update h.len block (u32 (h.len block + h.len next));
        next = update h.next block (h.next next);
      }
      else record h { next = update h.next block next } in
    if cur + 8 * h₁.len cur == block
    then record h₁ {
      len = update h₁.len cur (u32 (h₁.len cur + h₁.len block));
      next = update h₁.next cur (h₁.next block);
    }
    else record h₁ { next = update h₁.next cur block }

pub kfree : ℕ → Ptr → Heap → Option Heap
unfolding find_place
kfree n ptr h = if ptr == null then some h else elim (find_place n h (ptr - 8) h.heap_start) [
  | none ↦ none
  | some cur ↦ some (insert_block h (ptr - 8) cur)
]

-- `real_sz`
unfoldable pub real_units : ℕ → ℕ
real_units size = u32 (u32 (size + 7) / 8 + 1)

-- the block at `cur`, behind `prev`, is taken whole or from its end
unfoldable pub take_units : Heap → Ptr → Ptr → ℕ → Ptr × Heap
take_units h prev cur units =
    if h.len cur == units
    then (cur + 8, record h { next = update h.next prev (h.next cur); heap_start = prev })
    else (let left = h.len cur - units in
        let at = cur + 8 * left in
        (at + 8, record h { len = update (update h.len cur left) at units; heap_start = prev }))

-- The free list after a new block from `sbrk` went to it, or the heap where there is no memory.
pub data Grown : Type 0 where
  grew : Heap → Grown
  refused : Heap → Grown
  unfinished : Grown

abbrev pub grown_heap : Option Heap → Grown
grown_heap none = unfinished
grown_heap (some h) = grew h

-- the new block of `alloc` units, where `sbrk` gave one
pub add_page : ℕ → ℕ → Option Ptr × Heap → Grown
unfolding kfree
add_page n alloc (none, h) = refused h
add_page n alloc (some page, h) =
    grown_heap (kfree n (page + 8) (record h { len = update h.len page alloc }))

abbrev pub alloc_units : ℕ → ℕ
alloc_units units = if ltb units nballoc then nballoc else units

pub grow_heap : ℕ → Layout → ℕ → Heap → Grown
unfolding add_page
grow_heap n l units h = add_page n (alloc_units units) (sbrk l (u32 (alloc_units units * 8)) h)

-- The loop of `kmalloc`; the address 0 is `NULL`.
pub search : ℕ → Layout → ℕ → Heap → Ptr → Ptr → Option (Ptr × Heap)
unfolding grow_heap
search zero l units h prev cur = none
search (suc n) l units h prev cur =
    let go_on = search n l units h cur (h.next cur) in
    if leb units (h.len cur)
    then some (take_units h prev cur units)
    else if cur == h.heap_start
    then elim (grow_heap (suc n) l units h) [
      | grew h' ↦ search n l units h' h'.heap_start (h'.next h'.heap_start)
      | refused h' ↦ some (null, h')
      | unfinished ↦ none
    ]
    else go_on

-- the heap with a free list
unfoldable pub init_heap : Layout → Heap → Heap
init_heap l h =
    if h.heap_start == null
    then record h {
      heap_start = l.heap_list;
      next = update h.next l.heap_list l.heap_list;
      len = update h.len l.heap_list 0;
    }
    else h

pub kmalloc : ℕ → Layout → ℕ → Heap → Option (Ptr × Heap)
unfolding search
kmalloc n l size h =
    let h₁ = init_heap l h in search n l (real_units size) h₁ h₁.heap_start (h₁.next h₁.heap_start)

-- `len` bytes from `dst` on become 0
pub zero_bytes : ℕ → Ptr → (Ptr → ℕ) → (Ptr → ℕ)
zero_bytes zero dst bytes = bytes
zero_bytes (suc len) dst bytes = zero_bytes len (dst + 1) (update bytes dst 0)

pub kcalloc : ℕ → Layout → ℕ → ℕ → Heap → Option (Ptr × Heap)
unfolding kmalloc zero_bytes
kcalloc n l num len h = Option.map cleared (kmalloc n l (u32 (num * len)) h)
  where
    cleared : Ptr × Heap → Ptr × Heap
    cleared (ptr, h) =
        if ptr == null
        then (ptr, h)
        else (ptr, record h { bytes = zero_bytes (u32 (num * len)) ptr h.bytes })

pub kmemcpy : ℕ → Ptr → Ptr → (Ptr → ℕ) → (Ptr → ℕ)
kmemcpy zero dst src bytes = bytes
kmemcpy (suc len) dst src bytes = kmemcpy len (dst + 1) (src + 1) (update bytes dst (bytes src))

pub krealloc : ℕ → Layout → Ptr → ℕ → Heap → Option (Ptr × Heap)
unfolding kmalloc kfree kmemcpy
krealloc n l ptr size h =
    if ptr == null
    then kmalloc n l size h
    else if size == 0
    then Option.map (λ h'. (null, h')) (kfree n ptr h)
    else (let nbytes = u32 (8 * u32 (h.len (ptr - 8) + 2 ^ 32 - 1)) in
        if size == nbytes then some (ptr, h) else elim (kmalloc n l size h) [
          | none ↦ none
          | some r ↦
              if r.0 == null
              then some r
              else Option.map (λ h'. (r.0, h'))
                  (kfree n ptr (record r.1 {
                    bytes = kmemcpy (if ltb size nbytes then size else nbytes) r.0 ptr r.1.bytes;
                  }))
        ])
