-- ===== src/Process/Tests.antt =====
-- Two processes, and the theorems about src/process.c at them.
use ras_pi_k.Base.{ℕ, ◌≡◌, refl, none, some, [], ◌∷◌, arith, ◌==◌, if◌then◌else◌, pos}
use ras_pi_k.Store.{Ptr, null, update}
use ras_pi_k.Kernel.{vfiles}
use ras_pi_k.Process.{
  Proc, Procs, done, dangling, kill, exit, wait, new_process, choose_stack, add_process,
  remove_process,
}
use ras_pi_k.Process.Ring.{IsRing, kill-lookup_pid}
use ras_pi_k.Process.Exit.{exit_dangling}
use ras_pi_k.Process.Queue.{IsQueue, woken, remove_next}
use ras_pi_k.Process.Add.{Below, reset, add_process-IsQueue}

abbrev process : ℕ → Ptr → Proc
process pid other = record {
  name = b'p' ∷ [];
  pid = pid;
  ppid = pos 1;
  status = wait;
  run_count = 0;
  stack_idx = pid;
  pc = 0;
  sp = 0;
  r0 = 0;
  r1 = 0;
  retval = pos 0;
  wait_time = 0;
  fd_table = λ _. record { type = vfiles; mode = 0; addr = null; offset = 0 };
  next = other;
  prev = other;
}

-- The process 2 is the current one.
abbrev procs : Procs
procs = record {
  proc = λ p. if p == 16 then some (process 2 8) else if p == 8 then some (process 1 16) else none;
  current = 16;
  nbprocs = 3;
  real_nbprocs = 2;
  stacks = λ i. 4096;
  pool = λ i. 64;
}

ring : IsRing procs (process 2 8) ((8, process 1 16) ∷ [])
ring = record {
  ne_null = omega arith;
  links = (refl, refl, (refl, refl, tt));
  distinct = (omega arith, tt);
  count = refl;
}

kill-lookup_pid_example :
    kill (pos 1) 3 procs
    ≡ done
        (pos 3)
        (record procs { proc = update procs.proc 8 (some (record (process 1 16) { status = 3 })) })
kill-lookup_pid_example = kill-lookup_pid ring (pos 1) 3 8 (process 1 16) refl refl

exit_dangling_example : exit (pos 0) procs ≡ dangling
exit_dangling_example =
    exit_dangling procs (pos 0) (process 2 8) (process 1 16) 8 ring (omega arith) refl (omega arith)

-- `procs` before any stack was given away
abbrev fresh : Procs
fresh = record procs { stacks = λ i. 0 }

fresh-IsQueue : IsQueue fresh (process 2 8) ((8, process 1 16) ∷ [])
fresh-IsQueue = record {
  ne_null = omega arith;
  null_free = refl;
  here = refl;
  seg = (refl, tt);
  lacks = (omega arith, tt);
  unique = (tt, tt);
  count = refl;
}

-- what is left in the block of the new process
abbrev garbage : Proc
garbage = record (process 77 99) { retval = pos 5; wait_time = 3 }

add_process-IsQueue_example :
    (s' : Procs) × (add_process 7000 garbage (b'q' ∷ []) 512 0 0 wait fresh ≡ done (pos 3) s')
    × (s'.current ≡ 16)
    × IsQueue s' (reset (process 2 8)) (
        (64, new_process garbage (b'q' ∷ []) 3 (pos 2) wait 0 0 512 7000 0 0)
        ∷ (8, process 1 16)
        ∷ [])
    × Below s'.nbprocs (
        (16, reset (process 2 8))
        ∷ (64, new_process garbage (b'q' ∷ []) 3 (pos 2) wait 0 0 512 7000 0 0)
        ∷ (8, process 1 16)
        ∷ [])
unfolding choose_stack
add_process-IsQueue_example =
    add_process-IsQueue 7000 garbage (b'q' ∷ []) 512 0 0 wait 0 7000 fresh (process 2 8)
      ((8, process 1 16) ∷ []) fresh-IsQueue (omega arith, (omega arith, tt)) (omega arith) refl
      refl

-- the process 1 runs and the process 2 is removed
abbrev halves : Procs
halves = record procs { current = 8 }

halves-IsQueue : IsQueue halves (process 1 16) ((16, process 2 8) ∷ [])
halves-IsQueue = record {
  ne_null = omega arith;
  null_free = refl;
  here = refl;
  seg = (refl, tt);
  lacks = (omega arith, tt);
  unique = (tt, tt);
  count = refl;
}

remove_next_example :
    (s' : Procs) × (remove_process (pos 2) halves ≡ done (pos 2) s')
    × (s'.current ≡ 8)
    × IsQueue s' (woken (process 1 16) []) []
remove_next_example =
    remove_next halves (process 1 16) (process 2 8) 16 [] halves-IsQueue (omega arith)
