-- ===== src/Process/Start.antt =====
-- The start of processes in src/process.c, and `waitpid`. `load_elf` of src/elf.c is a parameter:
-- it returns an address, or the largest number where it fails.
use ras_pi_k.Base.{
  ℕ, ◌-◌, ◌^◌, Option, none, some, List, [], ◌∷◌, ℤ, pos, failed, ◌==◌, if◌then◌else◌,
}
use ras_pi_k.Strings.{CString}
use ras_pi_k.Store.{Ptr, null}
use ras_pi_k.Process.{
  Proc, P, done, endless, give, ◌>>=◌, ◌>>◌, get_procs, load_proc, store_proc, wait, term,
  find_process, add_process,
}

-- `stack` is what `get_sp` returns, `raw` what the block of the new process reads as, `argc` the
-- number of the arguments at `args`.
pub clone : ℕ → Proc → ℕ → ℕ → ℕ → P ℤ
clone stack raw addr argc args = do
  s ← get_procs
  x ← load_proc s.current
  add_process stack raw x.name addr argc args wait

pub spawn : (CString → P ℕ) → ℕ → Proc → CString → ℕ → ℕ → P ℤ
spawn load_elf stack raw path argc args = do
  entry ← load_elf path
  if entry == 2 ^ 32 - 1 then give failed else add_process stack raw path entry argc args wait

-- The loop of `waitpid`, where the other processes run between two of its tests.
pub wait_loop : List (P (Unit {0})) → Ptr → P ℤ
wait_loop [] p = λ s. endless
wait_loop (others ∷ rest) p = do
  x ← load_proc p
  if x.status == term then give x.retval else (others >> wait_loop rest p)

-- the result, and what is written to `retval`
pub waitpid : List (P (Unit {0})) → ℤ → P (ℤ × Option ℤ)
unfolding wait_loop
waitpid others pid = do
  p ← find_process pid
  elim p [
    | none ↦ give (failed, none)
    | some p ↦ do
      x ← load_proc p
      store_proc p (record x { wait_time = 1 })
      r ← wait_loop others p
      give (pos 0, some r)
  ]

pub init_process : P (Unit {0})
init_process s =
    done tt (record s { stacks = λ i. 0; current = null; nbprocs = 1; real_nbprocs = 0 })
