-- ===== src/Process/Add.antt =====
-- The queue of processes of src/process.c after `add_process`.
use ras_pi_k.Base.{
  ℕ, ◌+◌, ◌<◌, ◌≡◌, ◌≢◌, refl, ◌∙◌, Option, none, some, true, false, List, [], ◌∷◌, arith, ◌==◌,
  pos,
}
use ras_pi_k.Strings.{CString}
use ras_pi_k.Store.{Ptr, null, update}
use ras_pi_k.Process.{
  Proc, Procs, done, choose_stack, link_second, link_behind, link, reset_current, new_process,
  add_process,
}
use ras_pi_k.Process.Ring.{Entry, head_or, Lacks}
use ras_pi_k.Process.Queue.{last_or, Seg, IsQueue, apart}
use ras_pi_k.Process.Rotate.{set_first}

-- The numbers of the processes are below a bound.
abbrev pub Below : ℕ → List Entry → Type 0
Below n [] = Unit {0}
Below n (e ∷ es) = (e.1.pid < n) × Below n es

Lacks-Below : (n : ℕ) (es : List Entry) → Below n es → Lacks n es
Lacks-Below n [] below = tt
Lacks-Below n (e ∷ es) (h, below) = (omega arith, Lacks-Below n es below)

Below-suc : (n : ℕ) (es : List Entry) → Below n es → Below (n + 1) es
Below-suc n [] below = tt
Below-suc n (e ∷ es) (h, below) = (omega arith, Below-suc n es below)

-- A list of processes does not change with a table that agrees with it outside of three addresses.
Seg-three :
    (m m' : Ptr → Option Proc) (c a p q r : Ptr) (x z : Proc) (es : List Entry)
    → m c ≡ some x
    → Lacks x.pid es
    → m a ≡ some z
    → Lacks z.pid es
    → m p ≡ none
    → ((b : Ptr) → b ≢ c → b ≢ a → b ≢ p → m' b ≡ m b)
    → Seg m q es r
    → Seg m' q es r
Seg-three m m' c a p q r x z [] at_c no_x at_a no_z at_p same seg = tt
Seg-three m m' c a p q r x z (e ∷ es) at_c (ne_x, no_x) at_a (ne_z, no_z) at_p same (here, seg) =
    let not_p : e.0 ≢ p = λ h. cc in
    let there = same e.0 (apart m e.0 c here at_c ne_x) (apart m e.0 a here at_a ne_z) not_p in
    (there ∙ here, Seg-three m m' c a p e.0 r x z es at_c no_x at_a no_z at_p same seg)

-- the current process after `add_process`
abbrev pub reset : Proc → Proc
reset x = record x { retval = pos 0; wait_time = 0 }

-- the table of processes after `link`, where `m` has the new process `e` already
linked : (Ptr → Option Proc) → Ptr → Entry → Proc → List Entry → (Ptr → Option Proc)
linked m c e x [] =
    update (update m c (some (record x { next = e.0; prev = e.0 }))) e.0
      (some (record e.1 { next = c; prev = c }))
linked m c e x ((a, z) ∷ es) =
    update
      (update (update m a (some (record z { prev = e.0; next = head_or c es }))) e.0
        (some (record e.1 { next = a; prev = c })))
      c (some (record x { next = e.0; prev = last_or a es }))

link-linked :
    (s : Procs) (m : Ptr → Option Proc) (p : Ptr) (x y : Proc) (es : List Entry)
    → IsQueue (record s { proc = m }) x es
    → m p ≡ none
    → link p (record s { proc = update m p (some y) })
      ≡ done tt (record s { proc = linked (update m p (some y)) s.current (p, y) x es })
unfolding link link_second link_behind linked
link-linked s m p x y [] r fresh =
    let here : m s.current ≡ some (record x { prev = s.current; next = s.current }) = r.here in
    let c_p : (s.current == p) ≡ false = ground arith in
    let p_c : (p == s.current) ≡ false = ground arith in
    let self : (p == p) ≡ true = ground arith in rw (r.count, c_p, here, p_c, self) refl
link-linked s m p x y ((a, z) ∷ es) r fresh =
    let here : m s.current ≡ some (record x { prev = last_or a es; next = a }) = r.here in
    let there : m a ≡ some (record z { prev = s.current; next = head_or s.current es }) = r.seg.0 in
    let c_p : (s.current == p) ≡ false = ground arith in
    let p_c : (p == s.current) ≡ false = ground arith in
    let a_p : (a == p) ≡ false = ground arith in
    let p_a : (p == a) ≡ false = ground arith in
    let c_a : (s.current == a) ≡ false =
      let h = apart m a s.current there here r.lacks.0 in ground arith in
    let self : (p == p) ≡ true = ground arith in
    let not_first : (s.real_nbprocs == 0) ≡ false = ground (arith, r.count) in
    let not_second : (s.real_nbprocs == 1) ≡ false = ground (arith, r.count) in
    rw (not_first, not_second, c_p, here, a_p, there, c_a, c_p, here, p_a, self) refl

linked-IsQueue :
    (s : Procs) (m : Ptr → Option Proc) (p : Ptr) (x y : Proc) (es : List Entry) (n : ℕ)
    → IsQueue (record s { proc = m }) x es
    → m p ≡ none
    → p ≢ null
    → Lacks y.pid es
    → y.pid ≢ x.pid
    → IsQueue
        (record s {
          proc = linked (update m p (some y)) s.current (p, y) x es;
          nbprocs = n;
          real_nbprocs = s.real_nbprocs + 1;
        })
        x
        ((p, y) ∷ es)
unfolding linked
linked-IsQueue s m p x y [] n r fresh live lacks ne =
    let here : m s.current ≡ some (record x { prev = s.current; next = s.current }) = r.here in
    record {
      ne_null = r.ne_null;
      null_free = ground (arith, r.null_free, r.ne_null);
      here = ground arith;
      seg = (ground arith, tt);
      lacks = (ne, tt);
      unique = (tt, tt);
      count = ground (arith, r.count);
    }
linked-IsQueue s m p x y ((a, z) ∷ es) n r fresh live (ne_z, lacks) ne =
    let here : m s.current ≡ some (record x { prev = last_or a es; next = a }) = r.here in
    let (there, seg) = r.seg in
    let c_a = apart m a s.current there here r.lacks.0 in
    let a_p : a ≢ p = λ h. cc in
    let c_p : s.current ≢ p = λ h. cc in
    let t = linked (update m p (some y)) s.current (p, y) x ((a, z) ∷ es) in
    record {
      ne_null = r.ne_null;
      null_free = ground (arith, r.null_free, r.ne_null);
      here = ground arith;
      seg = (
        ground arith,
        (
          ground arith,
          Seg-three m t s.current a p a s.current _ _ es here r.lacks.1 there r.unique.0 fresh
              (λ b b_c b_a b_p. ground arith) seg,
        ),
      );
      lacks = (ne, r.lacks);
      unique = ((ne_z, lacks), r.unique);
      count = ground (arith, r.count);
    }

-- In a closed, doubly linked list of processes, with memory where no process stands, a free stack,
-- and numbers below the next one, the new process comes behind the current one, with the next
-- number. `add_process` sets the result and the wait time of the current process to 0: those of the
-- new one stay what its block had. The numbers stay below the next one.
pub add_process-IsQueue :
    (stack : ℕ) (raw : Proc) (name : CString) (pc argc args status i sp : ℕ) (s : Procs) (x : Proc)
    (es : List Entry)
    → IsQueue s x es
    → Below s.nbprocs ((s.current, x) ∷ es)
    → s.pool 0 ≢ null
    → s.proc (s.pool 0) ≡ none
    → choose_stack stack s.stacks ≡ some (i, sp)
    → (s' : Procs) × (add_process stack raw name pc argc args status s ≡ done (pos s.nbprocs) s')
      × (s'.current ≡ s.current)
      × IsQueue s'
          (reset x)
          ((s.pool 0, new_process raw name s.nbprocs (pos x.pid) status 0 i pc sp argc args) ∷ es)
      × Below s'.nbprocs (
          (s.current, reset x)
          ∷ (s.pool 0, new_process raw name s.nbprocs (pos x.pid) status 0 i pc sp argc args)
          ∷ es)
unfolding add_process reset_current
add_process-IsQueue stack raw name pc argc args status i sp s x es r (below, rest) memory fresh
      free =
    let p = s.pool 0 in
    let y = new_process raw name s.nbprocs (pos x.pid) status 0 i pc sp argc args in
    let m =
      update s.proc s.current
        (some (record (reset x) { prev = last_or s.current es; next = head_or s.current es })) in
    let q = set_first s x (reset x) es r refl in
    let t : Procs = record s {
      pool = λ i. s.pool (i + 1);
      stacks = update s.stacks i sp;
      proc = m;
    } in
    let q' : IsQueue t (reset x) es = record {
      ne_null = q.ne_null;
      null_free = q.null_free;
      here = q.here;
      seg = q.seg;
      lacks = q.lacks;
      unique = q.unique;
      count = q.count;
    } in
    let got : (p == null) ≡ false = ground arith in
    let live : (s.current == null) ≡ false = ground (arith, r.ne_null) in
    let not_first : (s.real_nbprocs == 0) ≡ false = ground (arith, r.count) in
    let c_p : s.current ≢ p = let here = r.here in λ h. cc in
    let fresh' : m p ≡ none = ground arith in
    (
      record t {
        proc = linked (update m p (some y)) s.current (p, y) (reset x) es;
        nbprocs = s.nbprocs + 1;
        real_nbprocs = s.real_nbprocs + 1;
      },
      rw (got, live, r.here, free, not_first, link-linked t m p (reset x) y es q' fresh') refl,
      refl,
      linked-IsQueue t m p (reset x) y es (s.nbprocs + 1) q' fresh' memory
          (Lacks-Below s.nbprocs es rest) (omega arith),
      (omega arith, (omega arith, Below-suc s.nbprocs es rest)),
    )
