-- ===== src/Scheduler/Tests.antt =====
-- Three processes, and the theorems about src/scheduler.c at them.
use ras_pi_k.Base.{ℕ, ◌≡◌, refl, none, some, List, [], ◌∷◌, arith, ◌==◌, if◌then◌else◌, pos}
use ras_pi_k.Store.{Ptr, null}
use ras_pi_k.Kernel.{vfiles}
use ras_pi_k.Process.{Proc, Procs, done, running, wait, term}
use ras_pi_k.Process.Ring.{Entry}
use ras_pi_k.Process.Queue.{IsQueue}
use ras_pi_k.Scheduler.{schedule}
use ras_pi_k.Scheduler.Rounds.{stopped, started, schedule-passed, ticks, ticks-everyone}

abbrev process : ℕ → ℕ → Ptr → Ptr → Proc
process pid status prev next = record {
  name = b'p' ∷ [];
  pid = pid;
  ppid = pos 1;
  status = status;
  run_count = 0;
  stack_idx = pid;
  pc = 0;
  sp = 0;
  r0 = 0;
  r1 = 0;
  retval = pos 0;
  wait_time = 0;
  fd_table = λ _. record { type = vfiles; mode = 0; addr = null; offset = 0 };
  next = next;
  prev = prev;
}

-- The process 2 runs, the process 3 is in the status that is given, and the process 1 waits.
abbrev procs : ℕ → Procs
procs status = record {
  proc = λ p.
      if p == 16
      then some (process 2 running 32 24)
      else if p == 24
      then some (process 3 status 16 32)
      else if p == 32
      then some (process 1 wait 24 16)
      else none;
  current = 16;
  nbprocs = 4;
  real_nbprocs = 3;
  stacks = λ i. 4096;
  pool = λ i. 64;
}

queue :
    (status : ℕ)
    → IsQueue
        (procs status)
        (process 2 running 32 24)
        ((24, process 3 status 16 32) ∷ (32, process 1 wait 24 16) ∷ [])
queue status = record {
  ne_null = omega arith;
  null_free = refl;
  here = refl;
  seg = (refl, (refl, tt));
  lacks = (omega arith, (omega arith, tt));
  unique = ((omega arith, tt), (tt, tt));
  count = refl;
}

-- The process 3 has ended and is removed.
schedule-passed_example :
    (s' : Procs) × (schedule 4000 (procs term) ≡ done tt s')
    × (s'.current ≡ 32)
    × IsQueue s'
        (started (process 1 wait 24 16))
        ((16, stopped 4000 (process 2 running 32 24)) ∷ [])
schedule-passed_example =
    schedule-passed 4000 (procs term) (process 2 running 32 24) (process 1 wait 24 16) 32
      ((24, process 3 term 16 32) ∷ []) [] (queue term) refl refl (omega arith, omega arith, tt)

ticks-everyone_example :
    (s' : Procs) × (rest : List Entry) × (ticks (4000 ∷ 5000 ∷ []) (procs wait) ≡ done tt s')
    × (s'.current ≡ 32)
    × IsQueue s' (started (process 1 wait 24 16)) rest
ticks-everyone_example =
    ticks-everyone (4000 ∷ 5000 ∷ []) (procs wait) (process 2 running 32 24) (process 1 wait 24 16)
      32 ((24, process 3 wait 16 32) ∷ []) [] (queue wait) refl refl (refl, tt) refl
