-- ===== src/Process/Queue.antt =====
-- The list of processes of src/process.c as a queue: the processes in their order from the current
-- one on, where the pointers to both neighbours are those of that order.
use ras_pi_k.Base.{
  suc, ◌-◌, ◌≡◌, ◌≢◌, refl, sym, Option, none, some, true, false, List, [], ◌∷◌, ◌++◌, arith, ◌==◌,
  pos, length,
}
use ras_pi_k.Store.{Ptr, null, update}
use ras_pi_k.Process.{
  Proc, Procs, done, followed, give, unlink, wake_last, wait, find_process, find_proc,
  remove_process,
}
use ras_pi_k.Process.Ring.{Entry, head_or, Lacks}

-- the address that a list of processes ends with, or `start`
abbrev pub last_or : Ptr → List Entry → Ptr
last_or start [] = start
last_or start (e ∷ es) = last_or e.0 es

-- The processes of the list are there, between the addresses `p` and `q`. What the list says of
-- their neighbours does not matter.
abbrev pub Seg : (Ptr → Option Proc) → Ptr → List Entry → Ptr → Type 0
Seg m p [] q = Unit {0}
Seg m p (e ∷ es) q = (m e.0 ≡ some (record e.1 { prev = p; next = head_or q es })) × Seg m e.0 es q

-- The numbers of the processes differ.
abbrev pub Unique : List Entry → Type 0
Unique [] = Unit {0}
Unique (e ∷ es) = Lacks e.1.pid es × Unique es

-- The current process has the contents `x`, and the others are `es`, in their order.
pub record IsQueue (s : Procs) (x : Proc) (es : List Entry) : Type 0 where
  pub ne_null : s.current ≢ null
  pub null_free : s.proc null ≡ none
  pub here :
      s.proc s.current
      ≡ some (record x { prev = last_or s.current es; next = head_or s.current es })
  pub seg : Seg s.proc s.current es s.current
  pub lacks : Lacks x.pid es
  pub unique : Unique es
  pub count : s.real_nbprocs ≡ suc (length es)

-- Processes of different numbers stand at different addresses.
pub apart :
    (m : Ptr → Option Proc) (a b : Ptr) {x y : Proc}
    → m a ≡ some x
    → m b ≡ some y
    → x.pid ≢ y.pid
    → a ≢ b
apart m a b {x} {y} e f ne same = let equal : x.pid ≡ y.pid = cc in ne equal

-- A process outside of the list may change.
pub Seg-frame :
    (m : Ptr → Option Proc) (a p q : Ptr) (x : Proc) (o : Option Proc) (es : List Entry)
    → m a ≡ some x
    → Lacks x.pid es
    → Seg m p es q
    → Seg (update m a o) p es q
Seg-frame m a p q x o [] held lacks seg = tt
Seg-frame m a p q x o (e ∷ es) held (ne, lacks) (here, seg) =
    let differs = apart m e.0 a here held ne in
    (ground arith, Seg-frame m a e.0 q x o es held lacks seg)

-- The list may go on.
pub Seg-append :
    (m : Ptr → Option Proc) (p q r : Ptr) (es : List Entry) (y : Proc)
    → Seg m p es q
    → m q ≡ some (record y { prev = last_or p es; next = r })
    → Seg m p (es ++ ((q, y) ∷ [])) r
Seg-append m p q r [] y seg held = (held, tt)
Seg-append m p q r (e ∷ []) y (here, _) held = (here, (held, tt))
Seg-append m p q r (e ∷ f ∷ es) y (here, seg) held =
    (here, Seg-append m e.0 q r (f ∷ es) y seg held)

-- the first process after another one is gone behind the current one
abbrev pub woken : Proc → List Entry → Proc
woken x [] = record x { status = wait }
woken x (e ∷ es) = x

unlink_table : Procs → Ptr → Proc → Proc → List Entry → (Ptr → Option Proc)
unlink_table s n x y [] =
    update
      (update (update s.proc s.current (some (record x { prev = n; next = s.current }))) s.current
        (some (record x { prev = s.current; next = s.current })))
      n none
unlink_table s n x y ((a, z) ∷ es) =
    update
      (update (update s.proc s.current (some (record x { prev = last_or a es; next = a }))) a
        (some (record z { prev = s.current; next = head_or s.current es })))
      n none

unlink_next :
    (s : Procs) (x y : Proc) (n : Ptr) (es : List Entry)
    → IsQueue s x ((n, y) ∷ es)
    → unlink n s
      ≡ done tt (record s {
        stacks = update s.stacks y.stack_idx 0;
        proc = unlink_table s n x y es;
        real_nbprocs = s.real_nbprocs - 1;
      })
unfolding unlink unlink_table
unlink_next s x y n [] r =
    let (there, _) = r.seg in
    let other : (n == s.current) ≡ false =
      let h = apart s.proc n s.current there r.here r.lacks.0 in ground arith in
    let same : (s.current == s.current) ≡ true = ground arith in
    rw (there, r.here, other, there, same, other, there) refl
unlink_next s x y n ((a, z) ∷ es) r =
    let (there, (after, _)) = r.seg in
    let n_c : (n == s.current) ≡ false =
      let h = apart s.proc n s.current there r.here r.lacks.0 in ground arith in
    let a_c : (a == s.current) ≡ false =
      let h = apart s.proc a s.current after r.here r.lacks.1.0 in ground arith in
    let n_a : (n == a) ≡ false =
      let h = apart s.proc n a there after (λ e. r.unique.0.0 (sym e)) in ground arith in
    let same : (s.current == s.current) ≡ true = ground arith in
    rw (there, r.here, n_c, there, a_c, after, n_a, n_c, there) refl

-- the state after `unlink` of the process behind the current one
unlinked : Procs → Ptr → Proc → Proc → List Entry → Procs
unlinked s n x y es = record s {
  stacks = update s.stacks y.stack_idx 0;
  proc = unlink_table s n x y es;
  real_nbprocs = s.real_nbprocs - 1;
}

unlinked-IsQueue :
    (s : Procs) (x y : Proc) (n : Ptr) (es : List Entry)
    → IsQueue s x ((n, y) ∷ es)
    → IsQueue (unlinked s n x y es) x es
unfolding unlinked unlink_table
unlinked-IsQueue s x y n [] r =
    let (there, _) = r.seg in
    let n_c = apart s.proc n s.current there r.here r.lacks.0 in
    record {
      ne_null = r.ne_null;
      null_free = ground (arith, r.null_free, r.ne_null);
      here = ground arith;
      seg = tt;
      lacks = tt;
      unique = tt;
      count = ground (arith, r.count);
    }
unlinked-IsQueue s x y n ((a, z) ∷ es) r =
    let (there, (after, seg)) = r.seg in
    let n_c = apart s.proc n s.current there r.here r.lacks.0 in
    let a_c = apart s.proc a s.current after r.here r.lacks.1.0 in
    let n_a = apart s.proc n a there after (λ e. r.unique.0.0 (sym e)) in
    let m₁ = update s.proc s.current (some (record x { prev = last_or a es; next = a })) in
    let m₂ = update m₁ a (some (record z { prev = s.current; next = head_or s.current es })) in
    let seg₁ =
      Seg-frame s.proc s.current a s.current _ (some (record x { prev = last_or a es; next = a }))
        es r.here r.lacks.1.1 seg in
    let after₁ : m₁ a ≡ some (record z { prev = n; next = head_or s.current es }) = ground arith in
    let there₂ : m₂ n ≡ some (record y { prev = s.current; next = a }) = ground arith in
    let seg₂ =
      Seg-frame m₁ a a s.current _
        (some (record z { prev = s.current; next = head_or s.current es })) es after₁ r.unique.1.0
        seg₁ in
    let seg₃ = Seg-frame m₂ n a s.current _ none es there₂ r.unique.0.1 seg₂ in
    record {
      ne_null = r.ne_null;
      null_free = ground (arith, r.null_free, r.ne_null);
      here = ground arith;
      seg = (ground arith, seg₃);
      lacks = r.lacks.1;
      unique = r.unique.1;
      count = ground (arith, r.count);
    }

find_next :
    (s : Procs) (x y : Proc) (n : Ptr) (es : List Entry)
    → IsQueue s x ((n, y) ∷ es)
    → find_process (pos y.pid) s ≡ done (some n) s
unfolding find_process find_proc
find_next s x y n es r =
    let first : (x.pid == y.pid) ≡ false = ground (arith, r.lacks.0) in
    let base : (y.pid == x.pid) ≡ false = ground (arith, r.lacks.0) in
    let self : (y.pid == y.pid) ≡ true = ground arith in
    rw (r.here, r.count, r.here, base, r.seg.0, base, r.seg.0, self) refl

remove_next_unlinked :
    (s : Procs) (x y : Proc) (n : Ptr) (es : List Entry)
    → IsQueue s x ((n, y) ∷ es)
    → y.pid ≢ 1
    → remove_process (pos y.pid) s
      ≡ followed (wake_last (unlinked s n x y es)) (λ _. give (pos y.pid))
unfolding remove_process unlinked
remove_next_unlinked s x y n es r other =
    let live : (s.current == null) ≡ false = ground (arith, r.ne_null) in
    let init : (y.pid == 1) ≡ false = ground arith in
    rw (live, init, find_next s x y n es r, unlink_next s x y n es r) refl

-- The process behind the current one leaves the queue; a process that is alone then waits.
pub remove_next :
    (s : Procs) (x y : Proc) (n : Ptr) (es : List Entry)
    → IsQueue s x ((n, y) ∷ es)
    → y.pid ≢ 1
    → (s' : Procs) × (remove_process (pos y.pid) s ≡ done (pos y.pid) s')
      × (s'.current ≡ s.current)
      × IsQueue s' (woken x es) es
unfolding wake_last unlinked
remove_next s x y n [] r other =
    let q = unlinked-IsQueue s x y n [] r in
    let t = unlinked s n x y [] in
    let one : t.real_nbprocs ≡ 1 = q.count in
    let x' : Proc = record x { prev = t.current; next = t.current; status = wait } in
    (
      record t { proc = update t.proc t.current (some x') },
      rw (remove_next_unlinked s x y n [] r other, one, q.here) refl,
      refl,
      record {
        ne_null = r.ne_null;
        null_free = ground (arith, r.null_free, r.ne_null);
        here = ground arith;
        seg = tt;
        lacks = tt;
        unique = tt;
        count = q.count;
      },
    )
remove_next s x y n (e ∷ es) r other =
    let q = unlinked-IsQueue s x y n (e ∷ es) r in
    let t = unlinked s n x y (e ∷ es) in
    let more : (t.real_nbprocs == 1) ≡ false = ground (arith, q.count) in
    (t, rw (remove_next_unlinked s x y n (e ∷ es) r other, more) refl, refl, q)
