-- ===== src/Process/Exit.antt =====
-- `exit` of src/process.c, by which the current process removes itself.
use ras_pi_k.Base.{◌-◌, ◌≡◌, ◌≢◌, refl, ◌∙◌, none, some, true, false, [], ◌∷◌, arith, ◌==◌, ℤ, pos}
use ras_pi_k.Store.{Ptr, null, update}
use ras_pi_k.Process.Ring.{IsRing, kill-lookup_pid, find_process-lookup_pid}
use ras_pi_k.Process.{Proc, Procs, done, dangling, unlink, wake_last, remove_process, exit, term}

-- the current process with new contents, which keep its number and its place
set_current : Procs → Proc → Procs
set_current s x = record s { proc = update s.proc s.current (some x) }

set_current-IsRing :
    (s : Procs) (x x' y : Proc) (d : Ptr)
    → IsRing s x ((d, y) ∷ [])
    → d ≢ s.current
    → x'.next ≡ x.next
    → x'.pid ≡ x.pid
    → IsRing (set_current s x') x' ((d, y) ∷ [])
unfolding set_current
set_current-IsRing s x x' y d r apart next pid =
    let (here, to_d, (there, back, _)) = r.links in
    record {
      ne_null = r.ne_null;
      links = (ground arith, next ∙ to_d, (ground arith, back, tt));
      distinct = rw pid r.distinct;
      count = r.count;
    }

unlink-two :
    (s : Procs) (x y : Proc) (d : Ptr)
    → IsRing s x ((d, y) ∷ [])
    → d ≢ s.current
    → x.prev ≡ d
    → (s' : Procs) × (unlink s.current s ≡ done tt s')
      × (s'.proc s'.current ≡ none)
      × (s'.real_nbprocs ≡ 1)
unfolding unlink
unlink-two s x y d r apart prev =
    let (here, to_d, (there, back, _)) = r.links in
    let other : (s.current == d) ≡ false = ground arith in
    let same : (d == d) ≡ true = ground arith in
    let y₁ : Proc = record y { next = d } in
    let y₂ : Proc = record y₁ { prev = d } in
    let table = update (update s.proc d (some y₁)) d (some y₂) in
    (
      record s {
        stacks = update s.stacks x.stack_idx 0;
        proc = update table s.current none;
        real_nbprocs = s.real_nbprocs - 1;
      },
      rw (here, prev, there, to_d, other, here, prev, to_d, same, other, here) refl,
      ground arith,
      ground (arith, r.count),
    )

wake_last-dangling :
    (s : Procs) → s.proc s.current ≡ none → s.real_nbprocs ≡ 1 → wake_last s ≡ dangling
unfolding wake_last
wake_last-dangling s gone one = ground arith

remove_current :
    (s : Procs) (x y : Proc) (d : Ptr)
    → IsRing s x ((d, y) ∷ [])
    → d ≢ s.current
    → x.prev ≡ d
    → x.pid ≢ 1
    → remove_process (pos x.pid) s ≡ dangling
unfolding remove_process
remove_current s x y d r apart prev other =
    let (s', e, gone, one) = unlink-two s x y d r apart prev in
    let live : (s.current == null) ≡ false = ground (arith, r.ne_null) in
    let init : (x.pid == 1) ≡ false = ground arith in
    let self : (x.pid == x.pid) ≡ true = ground arith in
    let here = find_process-lookup_pid r (pos x.pid) in
    rw (live, init, here, self, e, wake_last-dangling s' gone one) refl

-- Where the current process of two exits, and its number is not 1, `exit` ends in an access through
-- a pointer to a process that is no longer there.
pub exit_dangling :
    (s : Procs) (status : ℤ) (x y : Proc) (d : Ptr)
    → IsRing s x ((d, y) ∷ [])
    → d ≢ s.current
    → x.prev ≡ d
    → x.pid ≢ 1
    → exit status s ≡ dangling
unfolding exit set_current
exit_dangling s status x y d r apart prev other =
    let x₁ : Proc = record x { retval = status } in
    let s₁ = set_current s x₁ in
    let r₁ = set_current-IsRing s x x₁ y d r apart refl refl in
    let x₂ : Proc = record x₁ { status = term } in
    let r₂ = set_current-IsRing s₁ x₁ x₂ y d r₁ apart refl refl in
    let self : (x.pid == x.pid) ≡ true = ground arith in
    let killed = kill-lookup_pid r₁ (pos x.pid) term s.current x₁ (rw self refl) r₁.links.0 in
    rw
      (r.links.0, killed, r₂.links.0, remove_current (set_current s₁ x₂) x₂ y d r₂ apart prev other)
      refl
