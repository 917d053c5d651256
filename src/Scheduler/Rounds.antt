-- ===== src/Scheduler/Rounds.antt =====
-- Which process `schedule` of src/scheduler.c gives the processor to, and that each one gets it.
use mathlib.Core.List.{append_assoc}
use ras_pi_k.Base.{
  ℕ, zero, suc, ◌+◌, ◌*◌, ◌<◌, ◌≡◌, some, refl, false, List, [], ◌∷◌, ◌++◌, arith, ◌==◌, length,
}
use ras_pi_k.Store.{Ptr, null, update}
use ras_pi_k.Vffs.{u32}
use ras_pi_k.Process.{Proc, Procs, done, running, wait, term, P, give, ◌>>◌}
use ras_pi_k.Process.Ring.{Entry, head_or}
use ras_pi_k.Process.Queue.{last_or, IsQueue}
use ras_pi_k.Process.Rotate.{set_first}
use ras_pi_k.Scheduler.{usec_per_sec, turn, turns, schedule}
use ras_pi_k.Scheduler.Turns.{passed, Passed, turns-passed}

-- a process that stops, with its stack pointer, and one that gets the processor
abbrev pub stopped : ℕ → Proc → Proc
stopped sp x = record x { sp = sp; status = wait }

abbrev pub started : Proc → Proc
started z = record z { status = running; run_count = u32 (z.run_count + 1) }

length-front :
    (front : List Entry) (e : Entry) (back : List Entry)
    → length front < length (front ++ (e ∷ back))
length-front [] e back = omega arith
length-front (f ∷ front) e back = let ih = length-front front e back in omega (arith, ih)

-- Where the current process runs, another one waits, and the process 1 is not among those in front
-- of the first one that waits, `schedule` comes to an end: that one is the current one and runs,
-- the one that ran waits, the processes in front have been passed or removed, and the list of
-- processes is closed and doubly linked.
pub schedule-passed :
    (sp : ℕ) (s : Procs) (x z : Proc) (w : Ptr) (front back : List Entry)
    → IsQueue s x (front ++ ((w, z) ∷ back))
    → x.status ≡ running
    → z.status ≡ wait
    → Passed front
    → (s' : Procs) × (schedule sp s ≡ done tt s')
      × (s'.current ≡ w)
      × IsQueue s' (started z) (passed (s.current, stopped sp x) front back)
unfolding schedule
schedule-passed sp s x z w front back r runs waits pass =
    let es = front ++ ((w, z) ∷ back) in
    let q = set_first s x (stopped sp x) es r refl in
    let live : (s.current == null) ≡ false = ground (arith, r.ne_null) in
    let some_left : (s.real_nbprocs == 0) ≡ false = ground (arith, r.count) in
    let few = length-front front (w, z) back in
    let (t, e, at, q') =
      turns-passed (s.real_nbprocs * suc usec_per_sec) _ (stopped sp x) z w front back q
        (omega (arith, r.count, few)) waits pass in
    (
      record t {
        proc = update t.proc t.current (
            some (record (started z) {
              prev = last_or t.current (passed (s.current, stopped sp x) front back);
              next = head_or t.current (passed (s.current, stopped sp x) front back);
            }));
      },
      rw (live, some_left, r.here, runs, e, q'.here) refl,
      at,
      set_first t z (started z) (passed (s.current, stopped sp x) front back) q' refl,
    )

-- the timer's interrupts, each with the stack pointer of the process that it stops
abbrev pub ticks : List ℕ → P (Unit {0})
ticks [] = give tt
ticks (sp ∷ sps) = schedule sp >> ticks sps

abbrev pub AllWait : List Entry → Type 0
AllWait [] = Unit {0}
AllWait (e ∷ es) = (e.1.status ≡ wait) × AllWait es

-- A process that waits behind `n` others that wait is the current one and runs after `n + 1` calls
-- of `schedule`, the first of which stops a process that runs.
pub ticks-everyone :
    (sps : List ℕ) (s : Procs) (x z : Proc) (w : Ptr) (front back : List Entry)
    → IsQueue s x (front ++ ((w, z) ∷ back))
    → x.status ≡ running
    → z.status ≡ wait
    → AllWait front
    → length sps ≡ suc (length front)
    → (s' : Procs) × (rest : List Entry) × (ticks sps s ≡ done tt s')
      × (s'.current ≡ w)
      × IsQueue s' (started z) rest
ticks-everyone [] s x z w front back r runs waits all few = absurd (omega (arith, few))
ticks-everyone (sp ∷ sps) s x z w [] back r runs waits all few =
    let none_left : sps ≡ [] = ground (arith, few) in
    let (s', e, at, q) = schedule-passed sp s x z w [] back r runs waits tt in
    (s', _, rw (none_left, e) refl, at, q)
ticks-everyone (sp ∷ sps) s x z w ((a, y) ∷ front) back r runs waits (waits', all) few =
    let c : Entry = (s.current, stopped sp x) in
    let (t, e, at, q) = schedule-passed sp s x y a [] (front ++ ((w, z) ∷ back)) r runs waits' tt in
    let q₁ = rw (append_assoc front ((w, z) ∷ back) (c ∷ [])) at q in
    let (s', rest, e', at', q') =
      ticks-everyone sps t (started y) z w front (back ++ (c ∷ [])) q₁ refl waits all
        (omega (arith, few)) in
    (s', rest, rw e e', at', q')

turns_alone :
    (n : ℕ) (s : Procs) (x : Proc)
    → 0 < n
    → IsQueue s x []
    → x.status ≡ wait
    → turns n s ≡ done tt s
unfolding turns turn
turns_alone zero s x some_left r waits = absurd (omega arith)
turns_alone (suc n) s x some_left r waits =
    let live : (x.status == term) ≡ false = ground arith in
    rw (r.here, r.here, live, r.here, r.here, waits) refl

-- A process that is alone runs on.
pub schedule_alone :
    (sp : ℕ) (s : Procs) (x : Proc)
    → IsQueue s x []
    → x.status ≡ running
    → (s' : Procs) × (schedule sp s ≡ done tt s')
      × (s'.current ≡ s.current)
      × IsQueue s' (started (stopped sp x)) []
unfolding schedule
schedule_alone sp s x r runs =
    let x' = stopped sp x in
    let q = set_first s x x' [] r refl in
    let live : (s.current == null) ≡ false = ground (arith, r.ne_null) in
    let some_left : (s.real_nbprocs == 0) ≡ false = ground (arith, r.count) in
    let t : Procs = record s {
      proc = update s.proc s.current (some (record x' { prev = s.current; next = s.current }));
    } in
    let e = turns_alone (s.real_nbprocs * suc usec_per_sec) t x' (omega (arith, r.count)) q refl in
    (
      record t {
        proc =
            update t.proc t.current
              (some (record (started x') { prev = t.current; next = t.current }));
      },
      rw (live, some_left, r.here, runs, e, q.here) refl,
      refl,
      set_first t x' (started x') [] q refl,
    )
