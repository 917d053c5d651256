-- ===== src/Mem/Tests.antt =====
-- A heap with two free blocks, and the theorems about src/mem.c at it.
use ras_pi_k.Base.{◌≡◌, refl, some, [], ◌∷◌, arith, ◌==◌, if◌then◌else◌}
use ras_pi_k.Mem.{Layout, Heap, real_units, kmalloc}
use ras_pi_k.Mem.Fit.{Blocks, IsFree}
use ras_pi_k.Mem.Take.{kmalloc-remains}

abbrev layout : Layout
layout = record { end_of_kernel = 500; sp = 9000; heap_list = 100 }

-- 2 units at 600 and 10 units at 1000
abbrev heap : Heap
heap = record {
  next = λ p. if p == 100 then 600 else if p == 600 then 1000 else 100;
  len = λ p. if p == 600 then 2 else if p == 1000 then 10 else 0;
  bytes = λ p. 0;
  heap_end = 1080;
  heap_start = 100;
}

heap-IsFree : IsFree heap 0 ((600, 2) ∷ (1000, 10) ∷ [])
heap-IsFree = record {
  started = omega arith;
  ring = (refl, refl, (refl, refl, (refl, refl, tt)));
  distinct = ((omega arith, (omega arith, tt)), ((omega arith, tt), (tt, tt)));
}

-- 16 bytes take 3 units from the end of the second block.
kmalloc-remains_example :
    (h' : Heap) × (kmalloc 9 layout 16 heap ≡ some (1064, h'))
    × (h'.heap_start ≡ 600)
    × (h'.len 1056 ≡ 3)
    × Blocks h'.len h'.next ((100, 0) ∷ (600, 2) ∷ (1000, 7) ∷ []) 100
unfolding real_units
kmalloc-remains_example =
    kmalloc-remains 9 layout 16 heap 0 ((600, 2) ∷ []) [] (1000, 10) heap-IsFree
      (omega arith, omega arith, tt) (omega arith) (omega arith) (omega arith, (omega arith, tt)) tt
