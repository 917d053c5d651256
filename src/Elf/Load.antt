-- ===== src/Elf/Load.antt =====
-- What `load_segment` of src/elf.c leaves in memory.
use ras_pi_k.Base.{ℕ, zero, suc, ◌+◌, ◌-◌, ◌^◌, ◌<◌, ◌≤◌, ◌≡◌, ◌&&◌, arith, ltb, leb, if◌then◌else◌}
use ras_pi_k.Store.{update}
use ras_pi_k.Vffs.{u32}
use ras_pi_k.Mbr.{Buffer}
use ras_pi_k.Elf.{Memory, Segment, memcpy, memset, load_segment}

memcpy-at :
    (n dest : ℕ) (buf : Buffer) (from : ℕ) (m : Memory) (q : ℕ)
    → dest + n < 2 ^ 32
    → memcpy n dest buf from m q
      ≡ (if leb dest q && ltb q (dest + n) then buf (from + (q - dest)) else m q)
unfolding memcpy
memcpy-at zero dest buf from m q fits = ground arith
memcpy-at (suc n) dest buf from m q fits =
    let next : u32 (dest + 1) ≡ dest + 1 = omega arith in
    rw next (
      ground
        (arith, memcpy-at n (dest + 1) buf (from + 1) (update m dest (buf from)) q (omega arith)))

memset-at :
    (n s c : ℕ) (m : Memory) (q : ℕ)
    → s + n < 2 ^ 32
    → memset n s c m q ≡ (if leb s q && ltb q (s + n) then c else m q)
unfolding memset
memset-at zero s c m q fits = ground arith
memset-at (suc n) s c m q fits =
    let next : u32 (s + 1) ≡ s + 1 = omega arith in
    rw next (ground (arith, memset-at n (s + 1) c (update m s c) q (omega arith)))

-- A segment that ends inside the memory and has no more bytes in the file than in memory: the bytes
-- of the file stand at its address, those behind them are 0, and the others are as they were.
pub load_segment-at :
    (buf : Buffer) (p : Segment) (m : Memory) (q : ℕ)
    → p.filesz ≤ p.memsz
    → p.vaddr + p.memsz < 2 ^ 32
    → load_segment buf p m q ≡ (
        if leb p.vaddr q && ltb q (p.vaddr + p.filesz)
        then buf (p.offset + (q - p.vaddr))
        else if leb p.vaddr q && ltb q (p.vaddr + p.memsz)
        then 0
        else m q)
unfolding load_segment
load_segment-at buf p m q fits inside =
    let copied = memcpy-at p.filesz p.vaddr buf p.offset m q (omega arith) in
    let behind : u32 (p.memsz + 2 ^ 32 - p.filesz) ≡ p.memsz - p.filesz = omega arith in
    let start : u32 (p.vaddr + p.filesz) ≡ p.vaddr + p.filesz = omega arith in
    let cleared =
      memset-at (p.memsz - p.filesz) (p.vaddr + p.filesz) 0 (memcpy p.filesz p.vaddr buf p.offset m)
        q (omega arith) in
    rw (behind, start) (ground (arith, copied, cleared))
