-- ===== src/Process/Ring.antt =====
-- The list of processes of src/process.c as a list of their addresses, and `kill` on it.
use ras_pi_k.Base.{
  ℕ, zero, suc, ◌≤◌, ◌≡◌, ◌≢◌, refl, Option, none, some, true, false, List, [], ◌∷◌, arith, ◌==◌,
  if◌then◌else◌, ℤ, pos, failed, length, Bool-cases, inl, inr,
}
use ras_pi_k.Store.{Ptr, null, update}
use ras_pi_k.Process.{Proc, Procs, done, is_pid, find_proc, find_process, kill}

abbrev pub Entry : Type 0
Entry = Ptr × Proc

-- the address that a list of processes begins with, or `end`
abbrev pub head_or : Ptr → List Entry → Ptr
head_or end [] = end
head_or end (e ∷ es) = e.0

-- The processes are there, each with the next one as its `next`, and the last with `end`.
abbrev pub Links : (Ptr → Option Proc) → List Entry → Ptr → Type 0
Links m [] end = Unit {0}
Links m (e ∷ es) end = (m e.0 ≡ some e.1) × (e.1.next ≡ head_or end es) × Links m es end

-- No process has the number.
abbrev pub Lacks : ℕ → List Entry → Type 0
Lacks pid [] = Unit {0}
Lacks pid (e ∷ es) = (e.1.pid ≢ pid) × Lacks pid es

-- The list of processes from the current one on.
pub record IsRing (s : Procs) (x : Proc) (es : List Entry) : Type 0 where
  pub ne_null : s.current ≢ null
  pub links : Links s.proc ((s.current, x) ∷ es) s.current
  pub distinct : Lacks x.pid es
  pub count : s.real_nbprocs ≡ length ((s.current, x) ∷ es)

-- the address of the first process of a number
abbrev pub lookup_pid : ℤ → List Entry → Option Ptr
lookup_pid pid [] = none
lookup_pid pid (e ∷ es) =
    let rest = lookup_pid pid es in if is_pid pid e.1.pid then some e.0 else rest

find_proc-lookup_pid :
    (n : ℕ) (pid : ℤ) (s : Procs) (c : Ptr) (x : Proc) (e : Entry) (es : List Entry)
    → length (e ∷ es) ≤ n
    → s.proc c ≡ some x
    → Links s.proc (e ∷ es) c
    → Lacks x.pid es
    → find_proc n e.0 pid x.pid s ≡ done (lookup_pid pid (e ∷ es)) s
unfolding find_proc
find_proc-lookup_pid zero pid s c x e es few held links lacks = absurd (ground arith)
find_proc-lookup_pid (suc n) pid s c x e [] few held (here, next, _) lacks =
    elim (Bool-cases (is_pid pid e.1.pid)) [
      | inl is ↦ rw (here, is) refl
      | inr other ↦
          let same : (x.pid == x.pid) ≡ true = ground arith in
          rw (here, other, next, held, same) refl
    ]
find_proc-lookup_pid (suc n) pid s c x e (f ∷ es) few held (here, next, links) (ne, lacks) =
    elim (Bool-cases (is_pid pid e.1.pid)) [
      | inl is ↦ rw (here, is) refl
      | inr other ↦
          let there = links.0 in
          let differs : (f.1.pid == x.pid) ≡ false = ground arith in
          rw (here, other, next, there, differs)
            (find_proc-lookup_pid n pid s c x f es (ground arith) held links lacks)
    ]

module _ {s : Procs} {x : Proc} {es : List Entry} (ring : IsRing s x es) where
  pub find_process-lookup_pid :
      (pid : ℤ) → find_process pid s ≡ done (lookup_pid pid ((s.current, x) ∷ es)) s
  unfolding find_process
  find_process-lookup_pid pid =
      let held = ring.links.0 in
      rw held (
        find_proc-lookup_pid s.real_nbprocs pid s s.current x (s.current, x) es
          (omega (arith, ring.count)) held ring.links ring.distinct)

  -- In a list of processes that closes, `kill` comes to an end: it sets the status of the process
  -- of the number and returns it.
  pub kill-lookup_pid :
      (pid : ℤ) (status p : ℕ) (y : Proc)
      → lookup_pid pid ((s.current, x) ∷ es) ≡ some p
      → s.proc p ≡ some y
      → kill pid status s
        ≡ done
            (pos status)
            (record s { proc = update s.proc p (some (record y { status = status })) })
  unfolding kill
  kill-lookup_pid pid status p y here held =
      let live : (s.current == null) ≡ false = ground (arith, ring.ne_null) in
      rw (live, find_process-lookup_pid pid, here, held) refl

  -- Without such a process it fails and changes nothing.
  pub kill_missing :
      (pid : ℤ) (status : ℕ)
      → lookup_pid pid ((s.current, x) ∷ es) ≡ none
      → kill pid status s ≡ done failed s
  unfolding kill
  kill_missing pid status gone =
      let live : (s.current == null) ≡ false = ground (arith, ring.ne_null) in
      rw (live, find_process-lookup_pid pid, gone) refl
