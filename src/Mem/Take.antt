-- ===== src/Mem/Take.antt =====
-- The free list of src/mem.c after `kmalloc` took a block from it.
use ras_pi_k.Base.{
  ℕ, ◌+◌, ◌-◌, ◌*◌, ◌<◌, ◌≤◌, ◌≡◌, ◌≢◌, refl, sym, ap, ◌∙◌, true, false, some, List, [], ◌∷◌, ◌++◌,
  arith, ◌==◌, if◌then◌else◌, length, Bool-cases, inl, inr,
}
use ras_pi_k.Store.{Ptr, update}
use ras_pi_k.Mem.{Layout, Heap, real_units, take_units, kmalloc}
use ras_pi_k.Mem.Fit.{
  Block, head_of, last_of, Blocks, Small, Off, Distinct, IsFree, kmalloc-take_units,
}

Blocks-split :
    (len : Ptr → ℕ) (next : Ptr → Ptr) (front back : List Block) (end : Ptr)
    → Blocks len next (front ++ back) end
    → Blocks len next front (head_of end back) × Blocks len next back end
Blocks-split len next [] back end blocks = (tt, blocks)
Blocks-split len next (a ∷ []) back end (h, e, blocks) = ((h, e, tt), blocks)
Blocks-split len next (a ∷ f ∷ front) back end (h, e, blocks) =
    let (first, rest) = Blocks-split len next (f ∷ front) back end blocks in ((h, e, first), rest)

Blocks-join :
    (len : Ptr → ℕ) (next : Ptr → Ptr) (front back : List Block) (end : Ptr)
    → Blocks len next front (head_of end back)
    → Blocks len next back end
    → Blocks len next (front ++ back) end
Blocks-join len next [] back end first rest = rest
Blocks-join len next (a ∷ []) back end (h, e, _) rest = (h, e, rest)
Blocks-join len next (a ∷ f ∷ front) back end (h, e, first) rest =
    (h, e, Blocks-join len next (f ∷ front) back end first rest)

-- A header outside of the list may change.
Blocks-len :
    (len : Ptr → ℕ) (next : Ptr → Ptr) (a n : ℕ) (bs : List Block) (end : Ptr)
    → Off a bs
    → Blocks len next bs end
    → Blocks (update len a n) next bs end
Blocks-len len next a n [] end off blocks = tt
Blocks-len len next a n (b ∷ bs) end (ne, off) (h, e, blocks) =
    (ground arith, e, Blocks-len len next a n bs end off blocks)

Blocks-next :
    (len : Ptr → ℕ) (next : Ptr → Ptr) (a q : Ptr) (bs : List Block) (end : Ptr)
    → Off a bs
    → Blocks len next bs end
    → Blocks len (update next a q) bs end
Blocks-next len next a q [] end off blocks = tt
Blocks-next len next a q (b ∷ bs) end (ne, off) (h, e, blocks) =
    (h, ground arith, Blocks-next len next a q bs end off blocks)

Off-last_of : (a : Ptr) (b : Block) (bs : List Block) → Off a (b ∷ bs) → last_of b.0 bs ≢ a
Off-last_of a b [] (ne, _) = ne
Off-last_of a b (c ∷ bs) (ne, off) = Off-last_of a c bs off

-- The last block of a list may go on to another one.
Blocks-end :
    (len : Ptr → ℕ) (next : Ptr → Ptr) (a : Block) (bs : List Block) (end q : Ptr)
    → Distinct (a ∷ bs)
    → Blocks len next (a ∷ bs) end
    → Blocks len (update next (last_of a.0 bs) q) (a ∷ bs) q
Blocks-end len next a [] end q distinct (h, e, _) = (h, ground arith, tt)
Blocks-end len next a (b ∷ bs) end q (off, distinct) (h, e, blocks) =
    let other = Off-last_of a.0 b bs off in
    (h, ground arith, Blocks-end len next b bs end q distinct blocks)

Off-front : (a : Ptr) (front back : List Block) → Off a (front ++ back) → Off a front × Off a back
Off-front a [] back off = (tt, off)
Off-front a (b ∷ front) back (ne, off) =
    let (first, rest) = Off-front a front back off in ((ne, first), rest)

Distinct-front :
    (front back : List Block) → Distinct (front ++ back) → Distinct front × Distinct back
Distinct-front [] back distinct = (tt, distinct)
Distinct-front (b ∷ front) back (off, distinct) =
    let (first, rest) = Distinct-front front back distinct in
    (((Off-front b.0 front back off).0, first), rest)

Distinct-Off :
    (b : Block) (front back : List Block) → Distinct (front ++ (b ∷ back)) → Off b.0 front
Distinct-Off b [] back distinct = tt
Distinct-Off b (a ∷ front) back (off, distinct) =
    let (_, (ne, _)) = Off-front a.0 front (b ∷ back) off in
    ((λ same. ne (sym same)), Distinct-Off b front back distinct)

Distinct-last_of :
    (a : Block) (front back : List Block)
    → Distinct (a ∷ (front ++ back))
    → Off (last_of a.0 front) back
Distinct-last_of a [] back (off, _) = off
Distinct-last_of a (f ∷ front) back (_, distinct) = Distinct-last_of f front back distinct

-- what is left of the blocks from `b` on, once units are taken from the end of `b`
abbrev pub remains : Block → ℕ → List Block → List Block
remains b units back = if b.1 == units then back else (b.0, b.1 - units) ∷ back

-- the first byte of the header of the block that is taken from the end of `b`
abbrev pub taken_at : Block → ℕ → Ptr
taken_at b units = b.0 + 8 * (b.1 - units)

take_units-remains :
    (h : Heap) (s : Block) (front back : List Block) (b : Block) (units : ℕ)
    → Blocks h.len h.next (s ∷ (front ++ (b ∷ back))) s.0
    → Distinct (s ∷ (front ++ (b ∷ back)))
    → units ≤ b.1
    → Off (taken_at b units) (s ∷ front)
    → Off (taken_at b units) back
    → (h' : Heap) × (take_units h (last_of s.0 front) b.0 units ≡ (taken_at b units + 8, h'))
      × (h'.heap_start ≡ last_of s.0 front)
      × (h'.len (taken_at b units) ≡ units)
      × Blocks h'.len h'.next (s ∷ (front ++ remains b units back)) s.0
unfolding take_units
take_units-remains h s front back b units blocks distinct fits off₁ off₂ =
    let p = last_of s.0 front in
    let (first, (len, next, rest)) = Blocks-split h.len h.next (s ∷ front) (b ∷ back) s.0 blocks in
    elim (Bool-cases (b.1 == units)) [
      | inl whole ↦
          let is : (h.len b.0 == units) ≡ true = ground arith in
          let here : taken_at b units ≡ b.0 = ground arith in
          let (distinct₁, (_, distinct₂)) = Distinct-front (s ∷ front) (b ∷ back) distinct in
          let (_, off) = Distinct-last_of s front (b ∷ back) distinct in
          (
            record h { next = update h.next p (head_of s.0 back); heap_start = p },
            rw (is, here, next) refl,
            refl,
            rw here (ground arith),
            rw whole (
                Blocks-join h.len (update h.next p (head_of s.0 back)) (s ∷ front) back s.0
                  (Blocks-end h.len h.next s front b.0 (head_of s.0 back) distinct₁ first)
                  (Blocks-next h.len h.next p (head_of s.0 back) back s.0 off rest)),
          )
      | inr part ↦
          let is : (h.len b.0 == units) ≡ false = ground arith in
          let left = b.1 - units in
          let at = taken_at b units in
          let off_b = Distinct-Off b (s ∷ front) back distinct in
          let (_, (off_b', _)) = Distinct-front (s ∷ front) (b ∷ back) distinct in
          let len₁ = update h.len b.0 left in
          let first₁ =
            Blocks-len len₁ h.next at units (s ∷ front) b.0 off₁
              (Blocks-len h.len h.next b.0 left (s ∷ front) b.0 off_b first) in
          let rest₁ =
            Blocks-len len₁ h.next at units back s.0 off₂
              (Blocks-len h.len h.next b.0 left back s.0 off_b' rest) in
          (
            record h { len = update len₁ at units; heap_start = p },
            rw (is, len) refl,
            refl,
            ground arith,
            rw part (
                Blocks-join (update len₁ at units) h.next (s ∷ front) ((b.0, left) ∷ back) s.0
                  first₁ (ground arith, next, rest₁)),
          )
    ]

-- With a closed free list in which a block other than that at `heap_start` is large enough,
-- `kmalloc` comes to an end and takes the first such block behind `heap_start`: the whole block, or
-- its last units, if their header is at no free block's address. The block that is returned has the
-- units that `real_units` computes, and the free list is closed again, without what was taken.
pub kmalloc-remains :
    (n : ℕ) (l : Layout) (size : ℕ) (h : Heap) (len₀ : ℕ) (front back : List Block) (b : Block)
    → IsFree h len₀ (front ++ (b ∷ back))
    → Small h.heap_start (real_units size) front
    → real_units size ≤ b.1
    → length front < n
    → Off (taken_at b (real_units size)) ((h.heap_start, len₀) ∷ front)
    → Off (taken_at b (real_units size)) back
    → (h' : Heap) × (kmalloc n l size h ≡ some (taken_at b (real_units size) + 8, h'))
      × (h'.heap_start ≡ last_of h.heap_start front)
      × (h'.len (taken_at b (real_units size)) ≡ real_units size)
      × Blocks h'.len h'.next
          ((h.heap_start, len₀) ∷ (front ++ remains b (real_units size) back))
          h.heap_start
kmalloc-remains n l size h len₀ front back b free small fits few off₁ off₂ =
    let (h', e, start, len, blocks) =
      take_units-remains h (h.heap_start, len₀) front back b (real_units size) free.ring
        free.distinct fits off₁ off₂ in
    (
      h',
      kmalloc-take_units n l size h len₀ front back b free small fits few ∙ ap some e,
      start,
      len,
      blocks,
    )
