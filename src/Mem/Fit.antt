-- ===== src/Mem/Fit.antt =====
-- The free list of src/mem.c as a list of blocks, and `kmalloc` as the first fit in it.
use ras_pi_k.Base.{
  ℕ, zero, suc, ◌+◌, ◌*◌, ◌<◌, ◌≤◌, ◌≡◌, ◌≢◌, refl, true, false, ◌||◌, some, List, [], ◌∷◌, ◌++◌,
  arith, ◌==◌, ltb, leb, length,
}
use ras_pi_k.Store.{Ptr, null}
use ras_pi_k.Vffs.{u32}
use ras_pi_k.Mem.{
  Layout, Heap, alloc_units, brk, sbrk, real_units, take_units, refused, grow_heap, search,
  init_heap, kmalloc,
}

-- the address and the number of units of a free block
abbrev pub Block : Type 0
Block = Ptr × ℕ

abbrev pub head_of : Ptr → List Block → Ptr
head_of end [] = end
head_of end (b ∷ bs) = b.0

abbrev pub last_of : Ptr → List Block → Ptr
last_of start [] = start
last_of start (b ∷ bs) = last_of b.0 bs

-- The blocks are there, each with the next one as its `next`, and the last with `end`.
abbrev pub Blocks : (Ptr → ℕ) → (Ptr → Ptr) → List Block → Ptr → Type 0
Blocks len next [] end = Unit {0}
Blocks len next (b ∷ bs) end =
    (len b.0 ≡ b.1) × (next b.0 ≡ head_of end bs) × Blocks len next bs end

-- No block of the list stands at the address, and none has room for so many units.
abbrev pub Small : Ptr → ℕ → List Block → Type 0
Small start units [] = Unit {0}
Small start units (b ∷ bs) = (b.0 ≢ start) × (b.1 < units) × Small start units bs

-- The walk passes the blocks that are too small and takes from the first one that is not.
search-first :
    (n : ℕ) (l : Layout) (units : ℕ) (h : Heap) (prev : Ptr) (front back : List Block) (b : Block)
    (end : Ptr)
    → Blocks h.len h.next (front ++ (b ∷ back)) end
    → Small h.heap_start units front
    → units ≤ b.1
    → length front < n
    → search n l units h prev (head_of end (front ++ (b ∷ back)))
      ≡ some (take_units h (last_of prev front) b.0 units)
unfolding search
search-first zero l units h prev front back b end blocks small fits few = absurd (omega arith)
search-first (suc n) l units h prev [] back b end (len, next, _) small fits few =
    let room : leb units (h.len b.0) ≡ true = ground arith in rw room refl
search-first (suc n) l units h prev (a ∷ front) back b end (len, next, blocks) (other, less, small)
      fits few =
    let full : leb units (h.len a.0) ≡ false = ground arith in
    let not_start : (a.0 == h.heap_start) ≡ false = ground arith in
    let ih = search-first n l units h a.0 front back b end blocks small fits (omega (arith, few)) in
    let step : h.next a.0 ≡ head_of end (front ++ (b ∷ back)) = next in
    rw (full, not_start, step) ih

-- The walk over a list without a block that is large enough asks for more memory, once it comes to
-- the block that it began behind.
search-refused :
    (n : ℕ) (l : Layout) (units : ℕ) (h h' : Heap) (prev : Ptr) (bs : List Block)
    → Blocks h.len h.next bs h.heap_start
    → Small h.heap_start units bs
    → h.len h.heap_start < units
    → ((m : ℕ) → grow_heap m l units h ≡ refused h')
    → length bs < n
    → search n l units h prev (head_of h.heap_start bs) ≡ some (null, h')
unfolding search
search-refused zero l units h h' prev bs blocks small less no_memory few = absurd (omega arith)
search-refused (suc n) l units h h' prev [] blocks small less no_memory few =
    let full : leb units (h.len h.heap_start) ≡ false = ground arith in
    let start : (h.heap_start == h.heap_start) ≡ true = ground arith in
    rw (full, start, no_memory (suc n)) refl
search-refused (suc n) l units h h' prev (a ∷ bs) (len, next, blocks) (other, less', small) less
      no_memory few =
    let full : leb units (h.len a.0) ≡ false = ground arith in
    let not_start : (a.0 == h.heap_start) ≡ false = ground arith in
    let ih =
      search-refused n l units h h' a.0 bs blocks small less no_memory (omega (arith, few)) in
    rw (full, not_start, next) ih

-- What is asked of `sbrk` for so many units leaves the heap.
abbrev pub IsOver : Layout → ℕ → Heap → Type 0
IsOver l units h =
    (ltb l.sp (u32 (h.heap_end + u32 (alloc_units units * 8)))
      || ltb (u32 (h.heap_end + u32 (alloc_units units * 8))) l.end_of_kernel)
    ≡ true

-- What `sbrk` refuses is refused without a change of the free list.
grow_heap-refused :
    (m : ℕ) (l : Layout) (units : ℕ) (h : Heap)
    → h.heap_end ≢ null
    → IsOver l units h
    → grow_heap m l units h ≡ refused h
unfolding grow_heap sbrk brk
grow_heap-refused m l units h started over =
    let live : (h.heap_end == null) ≡ false = ground arith in rw (live, over, live) refl

-- No block of the list stands at the address.
abbrev pub Off : Ptr → List Block → Type 0
Off a [] = Unit {0}
Off a (b ∷ bs) = (b.0 ≢ a) × Off a bs

abbrev pub Distinct : List Block → Type 0
Distinct [] = Unit {0}
Distinct (b ∷ bs) = Off b.0 bs × Distinct bs

-- The free list of a heap: the block of `len₀` units that the search begins behind, and the others.
pub record IsFree (h : Heap) (len₀ : ℕ) (bs : List Block) : Type 0 where
  pub started : h.heap_start ≢ null
  pub ring : Blocks h.len h.next ((h.heap_start, len₀) ∷ bs) h.heap_start
  pub distinct : Distinct ((h.heap_start, len₀) ∷ bs)

-- Where no free block is large enough and the heap cannot grow_heap, `kmalloc` comes to an end,
-- returns `NULL` and changes nothing.
pub kmalloc_refused :
    (n : ℕ) (l : Layout) (size : ℕ) (h : Heap) (len₀ : ℕ) (bs : List Block)
    → IsFree h len₀ bs
    → Small h.heap_start (real_units size) bs
    → len₀ < real_units size
    → h.heap_end ≢ null
    → IsOver l (real_units size) h
    → length bs < n
    → kmalloc n l size h ≡ some (null, h)
unfolding kmalloc init_heap
kmalloc_refused n l size h len₀ bs free small less started over few =
    let ready : (h.heap_start == null) ≡ false = ground (arith, free.started) in
    let units = real_units size in
    let (at, first, blocks) = free.ring in
    rw (ready, first)
      (search-refused n l units h h h.heap_start bs blocks small (omega (arith, at, less))
        (λ m. grow_heap-refused m l units h started over) few)

-- `kmalloc` comes to an end and takes the first free block that is large enough, where there is
-- one.
pub kmalloc-take_units :
    (n : ℕ) (l : Layout) (size : ℕ) (h : Heap) (len₀ : ℕ) (front back : List Block) (b : Block)
    → IsFree h len₀ (front ++ (b ∷ back))
    → Small h.heap_start (real_units size) front
    → real_units size ≤ b.1
    → length front < n
    → kmalloc n l size h ≡ some (take_units h (last_of h.heap_start front) b.0 (real_units size))
unfolding kmalloc init_heap
kmalloc-take_units n l size h len₀ front back b free small fits few =
    let ready : (h.heap_start == null) ≡ false = ground (arith, free.started) in
    let (_, first, blocks) = free.ring in
    rw (ready, first)
      (search-first n l (real_units size) h h.heap_start front back b h.heap_start blocks small fits
        few)
