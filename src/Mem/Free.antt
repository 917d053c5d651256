-- ===== src/Mem/Free.antt =====
-- `kfree` of src/mem.c comes to an end.
use ras_pi_k.Base.{ℕ, ◌<◌, ◌≤◌, ◌≡◌, ◌⊎◌, some}
use ras_pi_k.Store.{Ptr}
use ras_pi_k.Mem.{Heap, find_place}

-- The block lies between the free block `cur` and the one behind it, or `cur` is the last one by
-- its address and the block lies behind it or in front of the first.
abbrev pub IsPlace : Heap → Ptr → Ptr → Type 0
IsPlace h block cur =
    ((cur < block) × (block < h.next cur))
    ⊎ ((h.next cur ≤ cur) × ((cur < block) ⊎ (block < h.next cur)))

-- The loop from `cur` on finds a place.
abbrev Finds : ℕ → Heap → Ptr → Ptr → Type 0
Finds n h block cur = (p : Ptr) × (find_place n h block cur ≡ some p) × IsPlace h block p

-- Where the loop goes on to the end of a list: it went up, in front of the block or behind it, or
-- from behind it to in front of it.
abbrev Passes : Ptr → Ptr → Ptr → Type 0
Passes block cur end =
    ((cur < end) × (end ≤ block)) ⊎ ((block < cur) × ((cur < end) ⊎ (end ≤ block)))
