-- ===== src/Syscalls.antt =====
-- The system calls: `e_syscall` of include/syscalls.h, the table of src/syscalls.c and `handle_swi`
-- of src/interrupts.c. The functions behind the table take the registers as numbers and stand in an
-- argument, over the state of the kernel.
use ras_pi_k.Base.{ℕ, Option, none, some, ◌≡◌, refl}
use ras_pi_k.Store.{update}

-- `e_syscall`
pub data Syscall : Type 0 where
  brk : Syscall
  clone : Syscall
  spawn : Syscall
  exec : Syscall
  exit : Syscall
  kill : Syscall
  getpid : Syscall
  waitpid : Syscall
  gettime : Syscall
  open_file : Syscall
  close : Syscall
  read : Syscall
  write : Syscall
  seek : Syscall
  stat : Syscall
  remove : Syscall
  readdir : Syscall
  ioctl : Syscall
  insmod : Syscall
  mount : Syscall
  unmount : Syscall
  chmod : Syscall

-- the value of a constant of the enumeration
unfoldable pub number : Syscall → ℕ
number brk = 0
number clone = 1
number spawn = 2
number exec = 3
number exit = 4
number kill = 5
number getpid = 6
number waitpid = 7
number gettime = 8
number open_file = 9
number close = 10
number read = 11
number write = 12
number seek = 13
number stat = 14
number remove = 15
number readdir = 16
number ioctl = 17
number insmod = 18
number mount = 19
number unmount = 20
number chmod = 21

abbrev pub nb_sys : ℕ
nb_sys = 22

-- `syscall_table`, before any entry is made
abbrev pub empty_table : ℕ → Option Syscall
empty_table i = none

-- the entries that `init_syscalls` makes
unfoldable pub init_syscalls : (ℕ → Option Syscall) → ℕ → Option Syscall
unfolding number
init_syscalls table₀ =
    let table_1 = update table₀ (number brk) (some brk) in
    let table_2 = update table_1 (number clone) (some clone) in
    let table_3 = update table_2 (number spawn) (some spawn) in
    let table_4 = update table_3 (number exec) (some exec) in
    let table_5 = update table_4 (number exit) (some exit) in
    let table_6 = update table_5 (number kill) (some kill) in
    let table_7 = update table_6 (number getpid) (some getpid) in
    let table_8 = update table_7 (number waitpid) (some waitpid) in
    let table_9 = update table_8 (number gettime) (some gettime) in
    let table_10 = update table_9 (number open_file) (some open_file) in
    let table_11 = update table_10 (number close) (some close) in
    let table_12 = update table_11 (number read) (some read) in
    let table_13 = update table_12 (number write) (some write) in
    let table_14 = update table_13 (number seek) (some seek) in
    let table_15 = update table_14 (number stat) (some stat) in
    let table_16 = update table_15 (number remove) (some remove) in
    let table_17 = update table_16 (number readdir) (some readdir) in
    let table_18 = update table_17 (number ioctl) (some ioctl) in
    let table_19 = update table_18 (number insmod) (some insmod) in
    let table_20 = update table_19 (number mount) (some mount) in
    let table_21 = update table_20 (number unmount) (some unmount) in
    update table_21 (number chmod) (some chmod)

-- `reg[0] = syscall_table[number](reg[0], reg[1], reg[2], reg[3]);`, and none where there is no
-- entry: the number is not compared with `NB_SYS`
pub handle_swi :
    {S : Type 0}
    → (ℕ → Option Syscall)
    → (Syscall → ℕ → ℕ → ℕ → ℕ → S → ℕ × S)
    → ℕ
    → (ℕ → ℕ)
    → S
    → Option ((ℕ → ℕ) × S)
handle_swi table run n reg s = elim (table n) [
  | none ↦ none
  | some call ↦
      let (ret, after) = run call (reg 0) (reg 1) (reg 2) (reg 3) s in
      some (update reg 0 ret, after)
]

init_syscalls-number :
    (table : ℕ → Option Syscall) (call : Syscall) → init_syscalls table (number call) ≡ some call
unfolding init_syscalls number
init_syscalls-number table brk = refl
init_syscalls-number table clone = refl
init_syscalls-number table spawn = refl
init_syscalls-number table exec = refl
init_syscalls-number table exit = refl
init_syscalls-number table kill = refl
init_syscalls-number table getpid = refl
init_syscalls-number table waitpid = refl
init_syscalls-number table gettime = refl
init_syscalls-number table open_file = refl
init_syscalls-number table close = refl
init_syscalls-number table read = refl
init_syscalls-number table write = refl
init_syscalls-number table seek = refl
init_syscalls-number table stat = refl
init_syscalls-number table remove = refl
init_syscalls-number table readdir = refl
init_syscalls-number table ioctl = refl
init_syscalls-number table insmod = refl
init_syscalls-number table mount = refl
init_syscalls-number table unmount = refl
init_syscalls-number table chmod = refl

-- After `init_syscalls`, the number of every system call runs that call on the first four
-- registers; the result goes to the first one, and the others stay.
handle_swi-number :
    {S : Type 0} (table : ℕ → Option Syscall) (run : Syscall → ℕ → ℕ → ℕ → ℕ → S → ℕ × S)
    (call : Syscall) (reg : ℕ → ℕ) (s : S)
    → handle_swi (init_syscalls table) run (number call) reg s
      ≡ some (
        update reg 0 (run call (reg 0) (reg 1) (reg 2) (reg 3) s).0,
        (run call (reg 0) (reg 1) (reg 2) (reg 3) s).1,
      )
unfolding handle_swi
handle_swi-number table run call reg s = rw (handle_swi, init_syscalls-number table call) refl
