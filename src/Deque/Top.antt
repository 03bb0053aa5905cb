-- ===== src/Deque/Top.antt =====
-- `deque_xtract_top` of runtime/readydeque.c against a sequence of closures.
use multicilk.Base.{ℕ, none, some, last_from, List, [], ◌∷◌, ◌≡◌, ◌≢◌, ◌∙◌, update, rest, arith}
use multicilk.Runtime.{State, ok}
use multicilk.Deque.{deque_xtract_top, unlink_top}
use multicilk.Deque.Links.{first_or, Holds, Linked-update, Linked-set_prev}
use multicilk.Deque.Frame.{
  Untouched, Owned, Released, released, Fresh→last_ne, last_or-cons, Holds-put_closure,
  Holds-put_deque,
}

top_one : ℕ → ℕ → State → State
top_one pn x s = record s {
  closures = update s.closures x (released (s.closures x));
  deques =
      update (update s.deques pn (record (s.deques pn) { top = none })) pn
        (record (s.deques pn) { top = none; bottom = none });
}

top_more : ℕ → ℕ → ℕ → State → State
top_more pn x y s = record s {
  closures =
      update (update s.closures y (record (s.closures y) { prev_ready = none })) x
        (released (s.closures x));
  deques = update s.deques pn (record (s.deques pn) { top = some y });
}

unlink_top_one :
    (pn x : ℕ) (s : State)
    → (s.closures x).next_ready ≡ none
    → (s.deques pn).bottom ≡ some x
    → unlink_top pn x s ≡ ok tt (top_one pn x s)
unfolding unlink_top top_one
unlink_top_one pn x s hn hb = ground arith

unlink_top_more :
    (pn x y z : ℕ) (s : State)
    → (s.closures x).next_ready ≡ some y
    → (s.deques pn).bottom ≡ some z
    → x ≢ z
    → x ≢ y
    → unlink_top pn x s ≡ ok tt (top_more pn x y s)
unfolding unlink_top top_more
unlink_top_more pn x y z s hn hb nz ny = ground arith

-- The checks before the unlinking pass.
xtract_top_checks :
    (w pn x : ℕ) (s t : State)
    → Owned s w pn
    → (s.deques pn).top ≡ some x
    → (s.closures x).owner_ready_deque ≡ pn
    → unlink_top pn x s ≡ ok tt t
    → deque_xtract_top w pn s ≡ ok (some x) t
unfolding deque_xtract_top
xtract_top_checks w pn x s t o ht ho u = ground arith

xtract_top_empty :
    (w pn : ℕ) (s : State)
    → Owned s w pn
    → (s.deques pn).top ≡ none
    → (s.deques pn).bottom ≡ none
    → deque_xtract_top w pn s ≡ ok none s
unfolding deque_xtract_top
xtract_top_empty w pn s o ht hb = ground arith

-- The state in which the call leaves the deque that held `xs`.
pub top_removed : ℕ → List ℕ → State → State
top_removed pn [] s = s
top_removed pn (x ∷ []) s = top_one pn x s
top_removed pn (x ∷ y ∷ ys) s = top_more pn x y s

pub xtract_top_run :
    (w pn : ℕ) (xs : List ℕ) (s : State)
    → Owned s w pn
    → Holds s pn xs
    → deque_xtract_top w pn s ≡ ok (first_or xs none) (top_removed pn xs s)
unfolding top_removed
xtract_top_run w pn [] s o h = xtract_top_empty w pn s o h.top h.bottom
xtract_top_run w pn (x ∷ []) s o h =
    xtract_top_checks w pn x s _ o h.top h.linked.2 (unlink_top_one pn x s h.linked.1 h.bottom)
xtract_top_run w pn (x ∷ y ∷ ys) s o h = xtract_top_checks w pn x s _ o h.top h.linked.2 (
    unlink_top_more pn x y (last_from y ys) s h.linked.1 (h.bottom ∙ last_or-cons (some x) y ys)
      (Fresh→last_ne x y ys h.distinct.0) h.distinct.0.0)

top_removed-Holds :
    (pn : ℕ) (xs : List ℕ) (s : State) → Holds s pn xs → Holds (top_removed pn xs s) pn (rest xs)
unfolding top_removed top_one top_more
top_removed-Holds pn [] s h = h
top_removed-Holds pn (x ∷ []) s h = ground arith
top_removed-Holds pn (x ∷ y ∷ ys) s h = record {
  top = ground arith;
  bottom = ground (arith, h.bottom);
  linked =
      Linked-update (update s.closures y (record (s.closures y) { prev_ready = none })) pn none
        (y ∷ ys) none x (released (s.closures x)) h.distinct.0
        (Linked-set_prev s.closures pn y (some x) none ys none h.distinct.1.0 h.linked.3);
  distinct = h.distinct.1;
}

top_removed-Released :
    (pn : ℕ) (xs : List ℕ) (s : State) → Released (top_removed pn xs s) (first_or xs none)
unfolding top_removed top_one top_more
top_removed-Released pn [] s = tt
top_removed-Released pn (x ∷ []) s = ground arith
top_removed-Released pn (x ∷ y ∷ ys) s = ground arith

top_removed-Untouched : (pn : ℕ) (xs : List ℕ) (s : State) → Untouched pn xs s (top_removed pn xs s)
unfolding top_removed top_one top_more
top_removed-Untouched pn [] s qn ys ne a h = h
top_removed-Untouched pn (x ∷ []) s qn ys ne a h =
    Holds-put_closure _ qn ys x _ a.0
      (Holds-put_deque _ qn pn ys _ ne (Holds-put_deque s qn pn ys _ ne h))
top_removed-Untouched pn (x ∷ y ∷ zs) s qn ys ne a h =
    Holds-put_closure _ qn ys x _ a.0
      (Holds-put_closure _ qn ys y _ a.1.0 (Holds-put_deque s qn pn ys _ ne h))

-- With the deque's mutex held, `deque_xtract_top` returns the first closure of the sequence that
-- the deque holds (NULL if it is empty) and fails no assertion; it leaves the rest of the sequence,
-- marks what it returns as in no deque, and leaves every deque that shares no closure with this one.
pub xtract_top_refines :
    (w pn : ℕ) (xs : List ℕ) (s : State)
    → Owned s w pn
    → Holds s pn xs
    → (t : State) × (deque_xtract_top w pn s ≡ ok (first_or xs none) t)
      × Holds t pn (rest xs)
      × Released t (first_or xs none)
      × Untouched pn xs s t
xtract_top_refines w pn xs s o h = (
  top_removed pn xs s,
  xtract_top_run w pn xs s o h,
  top_removed-Holds pn xs s h,
  top_removed-Released pn xs s,
  top_removed-Untouched pn xs s,
)
