-- ===== src/Scheduler/Entered.antt =====
-- `Cilk_sync` (runtime/scheduler.c) up to its branch: the locks, the assertions, and the fiber of an
-- earlier sync.
use multicilk.Base.{
  ℕ, false, Option, none, some, ◌≡◌, refl, sym, ap, subst, fun_ext, ◌∙◌, update, arith, ptr_eq,
}
use multicilk.Runtime.{State, ok}
use multicilk.Deque.{deque_peek_bottom}
use multicilk.Closure.{closure_at_top_of_stack, closure_lock}
use multicilk.Scheduler.{Services}
use multicilk.Scheduler.Locks.{closure_locked, deque_locked, closure_lock-eq, peek_bottom-eq}
use multicilk.Scheduler.Suspend.{AtSync, AtTop, Locked}
use multicilk.Scheduler.Run.{sync_asserts, free_old_fiber}

-- Nobody holds the locks.
pub record Free (w t : ℕ) (s : State) : Type 0 where
  pub deque : (s.deques w).locked ≡ false
  pub closure : (s.closures t).locked ≡ false

-- With both locks.
unfoldable pub entered : ℕ → ℕ → State → State
entered w t s = closure_locked w t (deque_locked w s)

pub entered-AtSync : (w t f : ℕ) (s : State) → AtSync w t f s → AtSync w t f (entered w t s)
unfolding entered closure_locked deque_locked
entered-AtSync w t f s h = record {
  frame = ground (arith, h.frame);
  worker = h.worker;
  stolen = h.stolen;
  status = ground (arith, h.status);
  real = ground (arith, h.real);
  callee = ground (arith, h.callee);
  user_rmap = ground (arith, h.user_rmap);
  placed = ground (arith, h.placed);
  alone = (ground (arith, h.alone.0), ground (arith, h.alone.1), ground (arith, h.alone.2));
  tree = ground (arith, h.tree);
}

pub entered-AtTop : (w t f : ℕ) (s : State) → AtTop w f s → AtTop w f (entered w t s)
unfolding entered closure_locked deque_locked
entered-AtTop w t f s h = record {
  empty = ground (arith, h.empty);
  current = ground (arith, h.current);
}

pub entered-Locked : (w t : ℕ) (s : State) → Locked w t (entered w t s)
unfolding entered closure_locked deque_locked
entered-Locked w t s = record { closure = ground arith; deque = ground arith }

pub peeked :
    (w t f : ℕ) (s : State)
    → AtSync w t f s
    → deque_peek_bottom w w (deque_locked w s) ≡ ok (some t) (deque_locked w s)
peeked w t f s h =
    peek_bottom-eq w t (deque_locked w s) (unfold deque_locked in ground arith)
      (unfold deque_locked in ground (arith, h.alone.1)) (unfold deque_locked in h.placed)

pub taken :
    (w t f : ℕ) (s : State)
    → AtSync w t f s
    → Free w t s
    → closure_lock w t (deque_locked w s) ≡ ok tt (entered w t s)
unfolding entered deque_locked
taken w t f s h free =
    closure_lock-eq w t (deque_locked w s) (ground (arith, h.status)) free.closure

pub asserts-eq :
    (w t f : ℕ) (s : State) → AtSync w t f s → AtTop w f s → sync_asserts w t f s ≡ ok tt s
unfolding sync_asserts closure_at_top_of_stack
asserts-eq w t f s h top = ground (
  arith, h.frame, h.worker, h.stolen, h.status, h.real, h.callee, h.user_rmap, top.empty,
  top.current,
)

-- A fiber that an earlier sync left is not the one that the closure is on.
abbrev pub Leftover : Option ℕ → Option ℕ → Type 0
Leftover none fiber = Unit
Leftover (some x) fiber = ptr_eq (some x) fiber ≡ false

-- The worker after it has given that fiber back.
unfoldable pub emptied : Option ℕ → ℕ → State → State
emptied none w s = s
emptied (some x) w s = record s {
  workers = update s.workers w (record (s.workers w) { fiber_to_free = none });
}

-- All of it that the rest of the call reads is as it was.
pub record Emptied (w t f : ℕ) (s r : State) : Type 0 where
  pub sync : AtSync w t f r
  pub top : AtTop w f r
  pub free : Free w t r
  pub nothing_to_free : (r.workers w).fiber_to_free ≡ none
  pub map : (r.workers w).reducer_map ≡ (s.workers w).reducer_map
  pub closure : r.closures t ≡ s.closures t

pub emptied-Emptied :
    (old : Option ℕ) (w t f : ℕ) (s : State)
    → (s.workers w).fiber_to_free ≡ old
    → AtSync w t f s
    → AtTop w f s
    → Free w t s
    → Emptied w t f s (emptied old w s)
unfolding emptied
emptied-Emptied none w t f s e h top free = record {
  sync = h;
  top = top;
  free = free;
  nothing_to_free = e;
  map = refl;
  closure = refl;
}
emptied-Emptied (some x) w t f s e h top free = record {
  sync = record {
    frame = h.frame;
    worker = h.worker;
    stolen = h.stolen;
    status = h.status;
    real = h.real;
    callee = h.callee;
    user_rmap = h.user_rmap;
    placed = h.placed;
    alone = h.alone;
    tree = h.tree;
  };
  top = record { empty = ground (arith, top.empty); current = ground (arith, top.current) };
  free = record { deque = free.deque; closure = free.closure };
  nothing_to_free = ground arith;
  map = ground arith;
  closure = refl;
}

module _ ⦃services : Services⦄
    (deallocates : (w : ℕ) (f : Option ℕ) (s : State)
      → services.deallocate_fiber w f s ≡ ok tt s) where
  free_old-run :
      (old : Option ℕ) (w t : ℕ) (s : State)
      → (s.workers w).fiber_to_free ≡ old
      → Leftover old (s.closures t).fiber
      → free_old_fiber w t s ≡ ok tt (emptied old w s)
  unfolding free_old_fiber emptied
  free_old-run none w t s e differ = ground (arith, e)
  free_old-run (some x) w t s e differ = ground (arith, e, differ, deallocates w (some x) s)

  emptied-entered :
      (old : Option ℕ) (w t : ℕ) (s : State)
      → emptied old w (entered w t s) ≡ entered w t (emptied old w s)
  unfolding emptied entered closure_locked deque_locked
  emptied-entered none w t s = refl
  emptied-entered (some x) w t s =
      ap (λ ws. record (entered w t s) { workers = ws }) (fun_ext (λ i. ground arith))

  entered-fiber : (w t : ℕ) (s : State) → ((entered w t s).closures t).fiber ≡ (s.closures t).fiber
  unfolding entered closure_locked deque_locked
  entered-fiber w t s = ground arith

  pub free_old-eq :
      (old : Option ℕ) (w t : ℕ) (s : State)
      → (s.workers w).fiber_to_free ≡ old
      → Leftover old (s.closures t).fiber
      → free_old_fiber w t (entered w t s) ≡ ok tt (entered w t (emptied old w s))
  free_old-eq old w t s e differ =
      free_old-run old w t (entered w t s)
        (unfold entered closure_locked deque_locked in ground (arith, e))
        (subst (Leftover old) (sym (entered-fiber w t s)) differ)
      ∙ ap (ok tt) (emptied-entered old w t s)
