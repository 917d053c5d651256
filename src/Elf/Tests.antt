-- ===== src/Elf/Tests.antt =====
-- A segment of 2 bytes in the file and 3 in memory, and the theorem about src/elf.c at it.
use ras_pi_k.Base.{◌≡◌, ◌+◌, arith}
use ras_pi_k.Mbr.{Buffer}
use ras_pi_k.Elf.{Memory, Segment, load_segment}
use ras_pi_k.Elf.Load.{load_segment-at}

abbrev file : Buffer
file i = i + 100

abbrev small : Segment
small = record { type = 1; offset = 5; vaddr = 4096; filesz = 2; memsz = 3 }

abbrev memory : Memory
memory q = 255

load_segment-at_example : load_segment file small memory 4097 ≡ 106
load_segment-at_example = load_segment-at file small memory 4097 (omega arith) (omega arith)
