-- ===== src/Scheduler/Ready.antt =====
-- The branch of `Cilk_sync` (runtime/scheduler.c) in which the closure has no children.
use multicilk.Base.{ℕ, ◌≡◌, refl, ap, ◌∙◌, true, false, Option, arith}
use multicilk.Runtime.{Status, State, ok}
use multicilk.Closure.{is_valid, closure_has_children}
use multicilk.Closure.Lock.{released, unlock-owned}
use multicilk.Scheduler.{Services}
use multicilk.Scheduler.Locks.{
  closure_locked, deque_locked, deque_unlocked, lock_self-eq, unlock_self-eq,
}
use multicilk.Scheduler.Run.{Sync, cilk_sync, sync_join, free_old_fiber}
use multicilk.Scheduler.Good.{CanSync, synced, setup_for_sync-eq}
use multicilk.Scheduler.Suspend.{AtSync, AtTop}
use multicilk.Scheduler.LastChild.{HasFiber}
use multicilk.Scheduler.Entered.{
  Free, entered, entered-AtSync, entered-AtTop, peeked, taken, asserts-eq, Leftover, emptied,
  Emptied, emptied-Emptied, free_old-eq,
}
use multicilk.Scheduler.Joining.{
  TakesOver, with_exn, with_rmap, real, joined-TakesOver, rest-kept, join-eq,
}

entered-CanSync : (w t f : ℕ) (s : State) → CanSync w t f s → CanSync w t f (entered w t s)
unfolding entered closure_locked deque_locked
entered-CanSync w t f s h = record {
  frame = ground (arith, h.frame);
  current = ground (arith, h.current);
  real = ground (arith, h.real);
  nothing_to_free = ground (arith, h.nothing_to_free);
  fibers = ground (arith, h.fibers);
  stack = ground (arith, h.stack);
}

Emptied-CanSync :
    (w t f : ℕ) (s c : State) → Emptied w t f s c → HasFiber (s.closures t) → CanSync w t f c
Emptied-CanSync w t f s c y h = record {
  frame = y.sync.frame;
  current = y.top.current;
  real = y.sync.real;
  nothing_to_free = y.nothing_to_free;
  fibers = ground (arith, y.closure, h.different);
  stack = ground (arith, y.closure, h.there);
}

-- The state in which the locks are released.
passed : ℕ → ℕ → ℕ → State → State
passed w t f s = deque_unlocked w (released t (synced w t f (entered w t s)))

-- What it keeps and what it changes.
record Crossing (w t f : ℕ) (s : State) : Type 0 where
  exns :
      (((passed w t f s).closures t).child_exn ≡ (s.closures t).child_exn)
      × (((passed w t f s).closures t).user_exn ≡ (s.closures t).user_exn)
  maps :
      (((passed w t f s).closures t).child_rmap ≡ (s.closures t).child_rmap)
      × (((passed w t f s).workers w).reducer_map ≡ (s.workers w).reducer_map)
  locks :
      (((passed w t f s).closures t).locked ≡ false) × (((passed w t f s).deques w).locked ≡ false)
  fiber : ((passed w t f s).closures t).fiber ≡ (s.closures t).fiber_child

passed-Crossing : (w t f : ℕ) (s : State) → Crossing w t f s
unfolding passed deque_unlocked released synced entered closure_locked deque_locked
passed-Crossing w t f s = record {
  exns = (ground arith, ground arith);
  maps = (ground arith, ground arith);
  locks = (ground arith, ground arith);
  fiber = ground arith;
}

synced-held :
    (w t f : ℕ) (s : State)
    → (s.closures t).status ≡ Status.running
    → (is_valid ((synced w t f (entered w t s)).closures t).status ≡ true)
      × (((synced w t f (entered w t s)).closures t).mutex_owner ≡ w)
unfolding synced entered closure_locked deque_locked
synced-held w t f s run = (ground (arith, run), ground arith)

entered-owner : (w t : ℕ) (s : State) → ((entered w t s).closures t).mutex_owner ≡ w
unfolding entered closure_locked deque_locked
entered-owner w t s = ground arith

module _ ⦃services : Services⦄ (join : Option ℕ → Option ℕ → Option ℕ)
    (merges : (w : ℕ) (l r : Option ℕ) (s : State)
      → services.merge_two_rmaps w l r s ≡ ok (join l r) s)
    (deletes : (e : ℕ) (s : State) → services.delete_exception e s ≡ ok tt s)
    (deallocates : (w : ℕ) (f : Option ℕ) (s : State)
      → services.deallocate_fiber w f s ≡ ok tt s) where
  ready-eq :
      (w t f : ℕ) (s c r : State)
      → AtSync w t f s
      → AtTop w f s
      → Free w t s
      → free_old_fiber w t (entered w t s) ≡ ok tt (entered w t c)
      → (c.closures t).status ≡ Status.running
      → CanSync w t f c
      → closure_has_children ((entered w t c).closures t) ≡ false
      → sync_join w t f (passed w t f c) ≡ ok tt r
      → cilk_sync w f s ≡ ok Sync.sync_ready r
  unfolding cilk_sync passed
  ready-eq w t f s c r h top free old running can childless run =
      let a = entered w t s in
      let b = synced w t f (entered w t c) in
      let held = synced-held w t f c running in
      ground (
        arith,
        lock_self-eq w s free.deque,
        peeked w t f s h,
        taken w t f s h free,
        asserts-eq w t f a (entered-AtSync w t f s h) (entered-AtTop w t f s top),
        old,
        childless,
        run,
        setup_for_sync-eq w t f (entered w t c) (entered-owner w t c) (entered-CanSync w t f c can),
        unlock-owned w t b held.0 held.1,
        unlock_self-eq w (released t b),
      )

  -- Where merges, deletions and deallocations succeed and leave the store as it is, `Cilk_sync` of
  -- a running closure that is alone in the free deque of its worker, was stolen for real, has no
  -- children but the fiber that its leftmost child left, which is not its own, and meets what the
  -- call asserts (its frame is the current one, the shadow stack is empty, and a fiber that an
  -- earlier sync left to be freed is not its own), with its own lock free, fails no assertion,
  -- gives SYNC_READY and leaves the closure on the fiber of the child with both locks released.
  -- The map of the children, if there is one, is joined on the left of that of the worker, and
  -- their exception, if there is one, takes the place of the closure's own.
  pub sync_ready_joins :
      (w t f : ℕ) (s : State)
      → AtSync w t f s
      → AtTop w f s
      → Free w t s
      → Leftover (s.workers w).fiber_to_free (s.closures t).fiber
      → HasFiber (s.closures t)
      → closure_has_children (s.closures t) ≡ false
      → (r : State) × (cilk_sync w f s ≡ ok Sync.sync_ready r)
        × TakesOver join w t s r
        × ((r.closures t).locked ≡ false)
        × ((r.deques w).locked ≡ false)
        × ((r.closures t).fiber ≡ (s.closures t).fiber_child)
  sync_ready_joins w t f s h top free differ fiber childless =
      let old = (s.workers w).fiber_to_free in
      let z = emptied old w s in
      let y = emptied-Emptied old w t f s refl h top free in
      let p = passed w t f z in
      let q = passed-Crossing w t f z in
      let e = (s.closures t).child_exn in
      let m = (s.closures t).child_rmap in
      let r = real t (with_rmap join m w t (with_exn e t f p)) in
      let exn : (p.closures t).child_exn ≡ e = q.exns.0 ∙ ap (λ v. v.child_exn) y.closure in
      let map : (p.closures t).child_rmap ≡ m = q.maps.0 ∙ ap (λ v. v.child_rmap) y.closure in
      let j : TakesOver join w t p r = joined-TakesOver join e m w t f p exn map in
      let k = rest-kept join e m w t f p in
      (
        r,
        ready-eq w t f s z r h top free (free_old-eq deallocates old w t s refl differ)
            y.sync.status (Emptied-CanSync w t f s z y fiber)
            (unfold entered closure_locked deque_locked closure_has_children in
              ground (arith, childless, y.closure))
            (join-eq join merges deletes e m w t f p exn map),
        record {
          map = j.map ∙ ground (arith, map, q.maps.1, y.map);
          exn = j.exn ∙ ground (arith, exn, q.exns.1, y.closure);
          taken = j.taken;
        },
        k.0 ∙ q.locks.0,
        k.2 ∙ q.locks.1,
        k.1 ∙ q.fiber ∙ ap (λ v. v.fiber_child) y.closure,
      )
