-- ===== src/Scheduler/Turns.antt =====
-- What `schedule` of src/scheduler.c does to the queue of processes.
use mathlib.Core.List.{append_assoc}
use ras_pi_k.Base.{
  ℕ, zero, suc, ◌+◌, ◌<◌, ◌≡◌, ◌≢◌, some, refl, ◌∙◌, Bool, true, false, ◌&&◌, List, [], ◌∷◌, ◌++◌,
  arith, ◌==◌, if◌then◌else◌, length, Bool-cases, inl, inr,
}
use ras_pi_k.Store.{Ptr, update}
use ras_pi_k.Process.{Proc, Procs, done, wait, term}
use ras_pi_k.Process.Ring.{Entry, head_or}
use ras_pi_k.Process.Queue.{IsQueue, remove_next}
use ras_pi_k.Process.Rotate.{rotate-IsQueue, set_next}
use ras_pi_k.Scheduler.{is_over, turn, turns}

-- whether a process is removed when the scheduler comes to it
abbrev pub is_reaped : Proc → Bool
is_reaped y = (y.status == term) && is_over y

-- a process that the scheduler passes: the time that one that has ended waits goes up
abbrev pub aged : Proc → Proc
aged y = if y.status == term then record y { wait_time = y.wait_time + 1 } else y

-- The other processes after the scheduler went from `c` over the processes of a list, with those of
-- `back` behind the one that it stops at. Behind a process that is removed, the next one is passed
-- as it is.
abbrev pub passed : Entry → List Entry → List Entry → List Entry
passed c [] back = back ++ (c ∷ [])
passed c (e ∷ []) back =
    if is_reaped e.1 then back ++ (c ∷ []) else (back ++ (c ∷ [])) ++ ((e.0, aged e.1) ∷ [])
passed c (e ∷ f ∷ es) back =
    let kept = passed (e.0, aged e.1) (f ∷ es) (back ++ (c ∷ [])) in
    let skipped = passed f es (back ++ (c ∷ [])) in if is_reaped e.1 then skipped else kept

-- No process of the list waits to run, and the first process of all is not to be removed.
abbrev pub Passed : List Entry → Type 0
Passed [] = Unit {0}
Passed (e ∷ es) = (e.1.status ≢ wait) × (e.1.pid ≢ 1) × Passed es

turn_kept :
    (s : Procs) (x y : Proc) (n : Ptr) (es : List Entry)
    → IsQueue s x ((n, y) ∷ es)
    → is_reaped y ≡ false
    → (s' : Procs) × (turn s ≡ done tt s')
      × (s'.current ≡ n)
      × IsQueue s' (aged y) (es ++ ((s.current, x) ∷ []))
unfolding turn
turn_kept s x y n es r kept = elim (Bool-cases (y.status == term)) [
  | inl over ↦
      let not_over : is_over y ≡ false = ground arith in
      let y' : Proc = record y { wait_time = y.wait_time + 1 } in
      let q = set_next s x y y' n es r refl in
      (
        record s {
          proc =
              update s.proc n (some (record y' { prev = s.current; next = head_or s.current es }));
          current = n;
        },
        rw (r.here, r.seg.0, over, not_over, q.here) refl,
        refl,
        rw over (rotate-IsQueue _ x y' n es q),
      )
  | inr other ↦ (
    record s { current = n },
    rw (r.here, r.seg.0, other, r.here) refl,
    refl,
    rw other (rotate-IsQueue s x y n es r),
  )
]

turn_reaped :
    (s : Procs) (x y z : Proc) (n a : Ptr) (es : List Entry)
    → IsQueue s x ((n, y) ∷ (a, z) ∷ es)
    → is_reaped y ≡ true
    → y.pid ≢ 1
    → (s' : Procs) × (turn s ≡ done tt s')
      × (s'.current ≡ a)
      × IsQueue s' z (es ++ ((s.current, x) ∷ []))
unfolding turn
turn_reaped s x y z n a es r reaped other =
    let over : (y.status == term) ≡ true = ground arith in
    let is : is_over y ≡ true = ground arith in
    let (t, e, same, q) = remove_next s x y n ((a, z) ∷ es) r other in
    (
      record t { current = a },
      rw (r.here, r.seg.0, over, is, e, q.here) refl,
      refl,
      rw same at (rotate-IsQueue t x z a es q),
    )

turns_on :
    (n : ℕ) (s t : Procs) (y : Proc) (es : List Entry)
    → turn s ≡ done tt t
    → IsQueue t y es
    → y.status ≢ wait
    → turns (suc n) s ≡ turns n t
unfolding turns
turns_on n s t y es e q busy =
    let other : (y.status == wait) ≡ false = ground arith in rw (e, q.here, other) refl

aged-status : (y : Proc) → (aged y).status ≡ y.status
aged-status y = ground arith

-- After so many rounds the process `z` at `w` is the current one, with `rest` behind it.
abbrev pub Runs : ℕ → Procs → Ptr → Proc → List Entry → Type 0
Runs n s w z rest = (s' : Procs) × (turns n s ≡ done tt s') × (s'.current ≡ w) × IsQueue s' z rest

go_on :
    (n : ℕ) (s t : Procs) (a w : Ptr) (y z : Proc) (es front back : List Entry)
    → turn s ≡ done tt t
    → t.current ≡ a
    → IsQueue t y es
    → y.status ≢ wait
    → Runs n t w z (passed (t.current, y) front back)
    → Runs (suc n) s w z (passed (a, y) front back)
go_on n s t a w y z es front back e at q busy (s', e', at', q') =
    (s', turns_on n s t y es e q busy ∙ e', at', rw at at q')

-- The loop ends at the first process that waits to run.
pub turns-passed :
    (n : ℕ) (s : Procs) (x z : Proc) (w : Ptr) (front back : List Entry)
    → IsQueue s x (front ++ ((w, z) ∷ back))
    → length front < n
    → z.status ≡ wait
    → Passed front
    → Runs n s w z (passed (s.current, x) front back)
unfolding turns
turns-passed zero s x z w front back r few waits pass = absurd (omega arith)
turns-passed (suc n) s x z w [] back r few waits pass =
    let live : is_reaped z ≡ false = ground arith in
    let (s', e, at, q) = turn_kept s x z w back r live in
    let other : (z.status == term) ≡ false = ground arith in
    let q' : IsQueue s' z (back ++ ((s.current, x) ∷ [])) = rw other at q in
    (s', rw (e, q'.here, waits) refl, at, q')
turns-passed (suc n) s x z w ((a, y) ∷ []) back r few waits (busy, other, _) =
    elim (Bool-cases (is_reaped y)) [
      | inl reaped ↦
          let (t, e, at, q) = turn_reaped s x y z a w back r reaped other in
          (t, rw (e, q.here, waits) refl, at, rw reaped q)
      | inr kept ↦
          let (t, e, at, q) = turn_kept s x y a ((w, z) ∷ back) r kept in
          let busy' : (aged y).status ≢ wait = rw (aged-status y) busy in
          let back' = back ++ ((s.current, x) ∷ []) in
          let ih = turns-passed n t (aged y) z w [] back' q (omega (arith, few)) waits tt in
          rw kept (go_on n s t a w (aged y) z _ [] back' e at q busy' ih)
    ]
turns-passed (suc n) s x z w ((a, y) ∷ f ∷ front) back r few waits (busy, other, pass) =
    let c : Entry = (s.current, x) in
    elim (Bool-cases (is_reaped y)) [
      | inl reaped ↦
          let (t, e, at, q) =
            turn_reaped s x y f.1 a f.0 (front ++ ((w, z) ∷ back)) r reaped other in
          let q₁ = rw (append_assoc front ((w, z) ∷ back) (c ∷ [])) at q in
          let ih =
            turns-passed n t f.1 z w front (back ++ (c ∷ [])) q₁ (omega (arith, few)) waits
              pass.2 in
          rw reaped (go_on n s t f.0 w f.1 z _ front (back ++ (c ∷ [])) e at q pass.0 ih)
      | inr kept ↦
          let (t, e, at, q) = turn_kept s x y a (f ∷ (front ++ ((w, z) ∷ back))) r kept in
          let busy' : (aged y).status ≢ wait = rw (aged-status y) busy in
          let q₁ = rw (append_assoc (f ∷ front) ((w, z) ∷ back) (c ∷ [])) at q in
          let ih =
            turns-passed n t (aged y) z w (f ∷ front) (back ++ (c ∷ [])) q₁ (omega (arith, few))
              waits pass in
          rw kept (go_on n s t a w (aged y) z _ (f ∷ front) (back ++ (c ∷ [])) e at q busy' ih)
    ]
