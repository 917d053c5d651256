-- ===== src/Scheduler.antt =====
-- The round robin of src/scheduler.c over the list of processes of src/process.c. The switch to the
-- stack of the process is assembly. The loop goes over each
-- process as often as the count of a process that has ended can go up.
mod Tests
pub mod Turns
pub mod Rounds
use ras_pi_k.Base.{
  ℕ, zero, suc, ◌+◌, ◌*◌, ◌%◌, ◌^◌, Bool, true, false, ◌||◌, List, [], ◌∷◌, ℤ, pos, ◌==◌,
  if◌then◌else◌, is_neg,
}
use ras_pi_k.Strings.{CString}
use ras_pi_k.Store.{Ptr, null}
use ras_pi_k.Vffs.{u32}
use ras_pi_k.Process.{
  Proc, Procs, P, give, endless, ◌>>=◌, ◌>>◌, get_procs, load_proc, store_proc, running, wait, term,
  remove_process, add_process, done,
}

-- `USEC_PER_SEC` of include/timers.h
abbrev pub usec_per_sec : ℕ
usec_per_sec = 1000000

abbrev pub make_current : Ptr → P (Unit {0})
make_current p s = done tt (record s { current = p })

-- whether the scheduler removes a process that has ended
abbrev pub is_over : Proc → Bool
is_over x = (x.wait_time == 0) || (x.wait_time == usec_per_sec)

-- the body of the loop up to its condition
pub turn : P (Unit {0})
turn = do
  s ← get_procs
  x ← load_proc s.current
  y ← load_proc x.next
  (if y.status == term
      then (if is_over y
          then (do _ ← remove_process (pos y.pid); give tt)
          else store_proc x.next (record y { wait_time = y.wait_time + 1 }))
      else give tt)
  t ← get_procs
  x' ← load_proc t.current
  make_current x'.next

pub turns : ℕ → P (Unit {0})
unfolding turn
turns zero = λ s. endless
turns (suc n) = do
  turn
  s ← get_procs
  x ← load_proc s.current
  if x.status == wait then give tt else turns n

-- `sp` is the stack pointer, which is kept for the process that stops.
pub schedule : ℕ → P (Unit {0})
unfolding turns
schedule sp = do
  s ← get_procs
  if (s.current == null) || (s.real_nbprocs == 0) then give tt else do
    x ← load_proc s.current
    store_proc s.current
        (record x { sp = sp; status = if x.status == running then wait else x.status })
    turns (s.real_nbprocs * suc usec_per_sec)
    t ← get_procs
    y ← load_proc t.current
    store_proc t.current (record y { status = running; run_count = u32 (y.run_count + 1) })

-- `endloop` is the address of the function of the process; `stack` is what
-- `get_sp` returns, and `raw` what the block of the process reads as.
pub init_scheduler : ℕ → Proc → ℕ → P ℕ
init_scheduler stack raw endloop = do
  pid ← add_process stack raw (b'i' ∷ b'n' ∷ b'i' ∷ b't' ∷ []) endloop 0 0 wait
  if is_neg pid then give 0 else give 1
