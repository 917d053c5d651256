-- ===== src/Process/Rotate.antt =====
-- The queue of processes of src/process.c when the next process becomes the current one, and when a
-- process changes.
use ras_pi_k.Base.{ℕ, suc, ◌≡◌, ◌≢◌, refl, sym, ap, ◌∙◌, some, List, [], ◌∷◌, ◌++◌, arith, length}
use ras_pi_k.Store.{Ptr, update}
use ras_pi_k.Process.{Proc, Procs}
use ras_pi_k.Process.Ring.{Entry, head_or, Lacks}
use ras_pi_k.Process.Queue.{last_or, Unique, IsQueue, apart, Seg-frame, Seg-append}

last_or-append : (p q : Ptr) (x : Proc) (es : List Entry) → last_or p (es ++ ((q, x) ∷ [])) ≡ q
last_or-append p q x [] = refl
last_or-append p q x (e ∷ es) = last_or-append e.0 q x es

head_or-append :
    (p q : Ptr) (x : Proc) (es : List Entry) → head_or p (es ++ ((q, x) ∷ [])) ≡ head_or q es
head_or-append p q x [] = refl
head_or-append p q x (e ∷ es) = refl

length-append_one : (e : Entry) (es : List Entry) → length (es ++ (e ∷ [])) ≡ suc (length es)
length-append_one e [] = refl
length-append_one e (f ∷ es) = ap suc (length-append_one e es)

Lacks-append :
    (pid : ℕ) (e : Entry) (es : List Entry)
    → Lacks pid es
    → e.1.pid ≢ pid
    → Lacks pid (es ++ (e ∷ []))
Lacks-append pid e [] lacks ne = (ne, tt)
Lacks-append pid e (f ∷ es) (h, lacks) ne = (h, Lacks-append pid e es lacks ne)

Unique-append :
    (e : Entry) (es : List Entry) → Unique es → Lacks e.1.pid es → Unique (es ++ (e ∷ []))
Unique-append e [] unique lacks = (tt, tt)
Unique-append e (f ∷ es) (h, unique) (ne, lacks) =
    (Lacks-append f.1.pid e es h (λ same. ne (sym same)), Unique-append e es unique lacks)

-- The next process becomes the current one, and the current one is the last.
pub rotate-IsQueue :
    (s : Procs) (x y : Proc) (n : Ptr) (es : List Entry)
    → IsQueue s x ((n, y) ∷ es)
    → IsQueue (record s { current = n }) y (es ++ ((s.current, x) ∷ []))
rotate-IsQueue s x y n es r =
    let (there, seg) = r.seg in
    let c = s.current in
    record {
      ne_null = ground (arith, r.null_free);
      null_free = r.null_free;
      here = rw (last_or-append n c x es, head_or-append n c x es) there;
      seg = Seg-append s.proc n c n es x seg r.here;
      lacks = Lacks-append y.pid (c, x) es r.unique.0 (λ same. r.lacks.0 (sym same));
      unique = Unique-append (c, x) es r.unique.1 r.lacks.1;
      count = r.count ∙ ap suc (sym (length-append_one (c, x) es));
    }

-- The current process changes, but for its number and its place.
pub set_first :
    (s : Procs) (x x' : Proc) (es : List Entry)
    → IsQueue s x es
    → x'.pid ≡ x.pid
    → IsQueue
        (record s {
          proc =
              update s.proc s.current
                (some (record x' { prev = last_or s.current es; next = head_or s.current es }));
        })
        x'
        es
set_first s x x' es r pid = record {
  ne_null = r.ne_null;
  null_free = ground (arith, r.null_free, r.ne_null);
  here = ground arith;
  seg = Seg-frame s.proc s.current s.current s.current _ _ es r.here r.lacks r.seg;
  lacks = rw pid r.lacks;
  unique = r.unique;
  count = r.count;
}

-- The next process changes, but for its number and its place.
pub set_next :
    (s : Procs) (x y y' : Proc) (n : Ptr) (es : List Entry)
    → IsQueue s x ((n, y) ∷ es)
    → y'.pid ≡ y.pid
    → IsQueue
        (record s {
          proc =
              update s.proc n (some (record y' { prev = s.current; next = head_or s.current es }));
        })
        x
        ((n, y') ∷ es)
set_next s x y y' n es r pid =
    let (there, seg) = r.seg in
    let n_c = apart s.proc n s.current there r.here r.lacks.0 in
    record {
      ne_null = r.ne_null;
      null_free = ground (arith, r.null_free);
      here = ground (arith, r.here);
      seg = (ground arith, Seg-frame s.proc n n s.current _ _ es there r.unique.0 seg);
      lacks = (λ same. r.lacks.0 (sym pid ∙ same), r.lacks.1);
      unique = (rw pid r.unique.0, r.unique.1);
      count = r.count;
    }
