-- ===== src/Process.antt =====
-- The processes of src/process.c and include/process.h: a circular, doubly linked list that
-- `current_process` points into, and the table of their stacks. Interrupts are off in the functions
-- that change the list, so that each is one step. A loop over the list has as many rounds as
-- `real_nbprocs`, the number of processes in it.
pub mod Ring
pub mod Exit
pub mod Queue
pub mod Rotate
pub mod Add
pub mod Start
mod Tests
use ras_pi_k.Base.{
  ℕ, zero, suc, ◌+◌, ◌-◌, ◌*◌, Bool, true, false, Option, none, some, ℤ, pos, negsuc, failed, ◌==◌,
  if◌then◌else◌,
}
use ras_pi_k.Strings.{CString}
use ras_pi_k.Store.{Ptr, null, update}
use ras_pi_k.Vffs.{u32}
use ras_pi_k.Kernel.{Fd}

abbrev pub nbmax_proc : ℕ
nbmax_proc = 4096

abbrev pub stack_size : ℕ
stack_size = 2048

-- `e_pstatus`; the functions take and return it as an `int`.
abbrev pub running : ℕ
running = 0

abbrev pub wait : ℕ
wait = 1

abbrev pub term : ℕ
term = 3

-- `s_proc`
pub record Proc : Type 0 where
  pub name : CString
  pub pid : ℕ
  pub ppid : ℤ
  pub status : ℕ
  pub run_count : ℕ
  pub stack_idx : ℕ
  pub pc : ℕ
  pub sp : ℕ
  pub r0 : ℕ
  pub r1 : ℕ
  pub retval : ℤ
  pub wait_time : ℕ
  pub fd_table : ℕ → Fd
  pub next : Ptr
  pub prev : Ptr

-- The globals of src/process.c with the processes by address; `pool` has the answers of `kmalloc`.
pub record Procs : Type 0 where
  pub proc : Ptr → Option Proc
  pub current : Ptr
  pub nbprocs : ℕ
  pub real_nbprocs : ℕ
  pub stacks : ℕ → ℕ
  pub pool : ℕ → Ptr

-- A run ends with a value, goes through a pointer to no process, stops the system, or needs more
-- rounds than there are processes.
pub data PRun (A : Type 0) : Type 0 where
  done : A → Procs → PRun A
  dangling : PRun A
  halted : PRun A
  endless : PRun A

abbrev pub P : Type 0 → Type 0
P A = Procs → PRun A

abbrev pub give : {A : Type 0} → A → P A
give a s = done a s

abbrev pub followed : {A B : Type 0} → PRun A → (A → P B) → PRun B
followed (done a s) next = next a s
followed dangling next = dangling
followed halted next = halted
followed endless next = endless

infixl 5 ◌>>=◌ ◌>>◌
abbrev pub ◌>>=◌ : {A B : Type 0} → P A → (A → P B) → P B
◌>>=◌ m next s = followed (m s) next

abbrev pub ◌>>◌ : {B : Type 0} → P (Unit {0}) → P B → P B
m >> next = m >>= λ _. next

abbrev pub found : Option Proc → P Proc
found none s = dangling
found (some x) s = done x s

abbrev pub load_proc : Ptr → P Proc
load_proc p s = found (s.proc p) s

abbrev pub store_proc : Ptr → Proc → P (Unit {0})
store_proc p x s = done tt (record s { proc = update s.proc p (some x) })

abbrev pub free_proc : Ptr → P (Unit {0})
free_proc p = do _ ← load_proc p; λ s. done tt (record s { proc = update s.proc p none })

abbrev pub get_procs : P Procs
get_procs s = done s s

abbrev pub is_pid : ℤ → ℕ → Bool
is_pid (pos n) pid = n == pid
is_pid (negsuc n) pid = false

-- The loop of `remove_process`, `kill` and `get_process`: the first process of a number, from `p`
-- on until the number `base` comes again.
pub find_proc : ℕ → Ptr → ℤ → ℕ → P (Option Ptr)
find_proc zero p pid base = λ s. endless
find_proc (suc n) p pid base = do
  x ← load_proc p
  if is_pid pid x.pid
      then give (some p)
      else do y ← load_proc x.next; if y.pid == base then give none else find_proc n x.next pid base

pub find_process : ℤ → P (Option Ptr)
unfolding find_proc
find_process pid = do
  s ← get_procs
  x ← load_proc s.current
  find_proc s.real_nbprocs s.current pid x.pid

pub kill : ℤ → ℕ → P ℤ
unfolding find_process
kill pid status = do
  s ← get_procs
  if s.current == null then give failed else do
    p ← find_process pid
    elim p [
      | none ↦ give failed
      | some p ↦ do x ← load_proc p; store_proc p (record x { status = status }); give (pos status)
    ]

pub getpid : P ℤ
getpid = do
  s ← get_procs
  if s.current == null then give failed else do x ← load_proc s.current; give (pos x.pid)

-- the process at `p` leaves the list
pub unlink : Ptr → P (Unit {0})
unlink p = do
  x ← load_proc p
  λ s. done tt (record s { stacks = update s.stacks x.stack_idx 0 })
  before ← load_proc x.prev
  store_proc x.prev (record before { next = x.next })
  x' ← load_proc p
  after ← load_proc x'.next
  store_proc x'.next (record after { prev = x'.prev })
  free_proc p
  λ s. done tt (record s { real_nbprocs = s.real_nbprocs - 1 })

-- `if (real_nbprocs == 1) current_process->status = WAIT;`
pub wake_last : P (Unit {0})
wake_last = do
  s ← get_procs
  if not_one s.real_nbprocs
      then give tt
      else do x ← load_proc s.current; store_proc s.current (record x { status = wait })
  where
    not_one : ℕ → Bool
    not_one n = if n == 1 then false else true

pub remove_process : ℤ → P ℤ
unfolding find_process unlink wake_last
remove_process pid = do
  s ← get_procs
  if s.current == null then give failed else if is_pid pid 1 then (λ _. halted) else do
    p ← find_process pid
    elim p [ none ↦ give failed | some p ↦ do unlink p; wake_last; give pid ]

pub exit : ℤ → P (Unit {0})
unfolding kill remove_process
exit status = do
  s ← get_procs
  x ← load_proc s.current
  store_proc s.current (record x { retval = status })
  _ ← kill (pos x.pid) term
  y ← load_proc s.current
  _ ← remove_process (pos y.pid)
  give tt

-- the index of the first free stack, from index `i` on with `n` left
unfoldable pub free_stack : ℕ → ℕ → (ℕ → ℕ) → Option ℕ
free_stack zero i stacks = none
free_stack (suc n) i stacks =
    let rest = free_stack n (i + 1) stacks in if stacks i == 0 then some i else rest

-- the index and the address of the stack of a new process, where `sp` is what `get_sp` returns
pub choose_stack : ℕ → (ℕ → ℕ) → Option (ℕ × ℕ)
choose_stack sp stacks =
    if stacks 0 == 0 then some (0, sp) else elim (free_stack nbmax_proc 0 stacks) [
      | none ↦ none
      | some i ↦ some (i, u32 (stacks 0 + i * stack_size))
    ]

-- The process at `p` enters the list: the first one,
pub link_first : Ptr → P (Unit {0})
link_first p = do
  x ← load_proc p
  store_proc p (record x { next = p; prev = p })
  λ s. done tt (record s { current = p })

-- the second one,
pub link_second : Ptr → P (Unit {0})
link_second p = do
  s ← get_procs
  c ← load_proc s.current
  store_proc s.current (record c { next = p; prev = p })
  x ← load_proc p
  store_proc p (record x { next = s.current; prev = s.current })

-- or one more, behind the current one
pub link_behind : Ptr → P (Unit {0})
link_behind p = do
  s ← get_procs
  c ← load_proc s.current
  after ← load_proc c.next
  store_proc c.next (record after { prev = p })
  c' ← load_proc s.current
  x ← load_proc p
  store_proc p (record x { next = c'.next; prev = s.current })
  store_proc s.current (record c' { next = p })

pub link : Ptr → P (Unit {0})
unfolding link_first link_second link_behind
link p = do
  s ← get_procs
  if s.real_nbprocs == 0
      then link_first p
      else if s.real_nbprocs == 1
      then link_second p
      else link_behind p

-- what `add_process` does to the current process before the new one has a stack
pub reset_current : P ℤ
reset_current = do
  s ← get_procs
  if s.current == null then give failed else do
    c ← load_proc s.current
    store_proc s.current (record c { retval = pos 0; wait_time = 0 })
    give (pos c.pid)

-- The process that `add_process` fills in, before it is linked. `raw` is what the block from
-- `kmalloc` reads as: the result, the wait time, the links and what the file descriptors have
-- besides their addresses are not set.
abbrev pub new_process : Proc → CString → ℕ → ℤ → ℕ → ℕ → ℕ → ℕ → ℕ → ℕ → ℕ → Proc
new_process raw name pid ppid status run_count stack_idx pc sp argc args = record raw {
  name = name;
  pid = pid;
  ppid = ppid;
  status = status;
  run_count = run_count;
  stack_idx = stack_idx;
  pc = pc;
  sp = sp;
  r0 = argc;
  r1 = args;
  fd_table = λ i. record (raw.fd_table i) { addr = null };
}

-- what `add_process` does at the address `p` once it has looked for a stack
pub place_process : Proc → Ptr → CString → ℕ → ℕ → ℕ → ℕ → ℤ → Option (ℕ × ℕ) → P ℤ
place_process raw p name pc argc args status ppid none = give failed
place_process raw p name pc argc args status ppid (some (i, sp)) = do
  s ← get_procs
  let first : ℕ = if s.real_nbprocs == 0 then 1 else 0
  store_proc p (new_process raw name s.nbprocs ppid status first i pc sp argc args)
  λ t. done tt (record t { stacks = update t.stacks i sp })
  link p
  λ t. done tt (record t { nbprocs = t.nbprocs + 1; real_nbprocs = t.real_nbprocs + 1 })
  give (pos s.nbprocs)

-- `stack` is what `get_sp` returns, `raw` is what the block from `kmalloc` reads as, `argc` and
-- `args` are the number and the address of the arguments.
pub add_process : ℕ → Proc → CString → ℕ → ℕ → ℕ → ℕ → P ℤ
unfolding reset_current place_process
add_process stack raw name pc argc args status s =
    let p = s.pool 0 in
    let t : Procs = record s { pool = λ i. s.pool (i + 1) } in
    if p == null
    then done failed t
    else followed (reset_current t) (λ ppid t'.
      place_process raw p name pc argc args status ppid (choose_stack stack t'.stacks) t')
