-- ===== src/Scheduler/Sync.antt =====
-- The branch of `Cilk_sync` (runtime/scheduler.c) in which the closure has children.
use multicilk.Base.{ℕ, true, false, Option, none, some, ◌≡◌, ◌∙◌, ap, subst, refl, arith}
use multicilk.Runtime.{no_worker, Status, State, ok}
use multicilk.Closure.{is_valid, closure_has_children}
use multicilk.Closure.Lock.{released, unlock-owned}
use multicilk.Scheduler.{Services}
use multicilk.Scheduler.Locks.{
  closure_locked, deque_locked, deque_unlocked, lock_self-eq, unlock_self-eq,
}
use multicilk.Scheduler.Suspend.{
  AtSync, AtTop, put_aside, out_of_deque, left_fiber, keep_fiber, sync_suspend-eq,
}
use multicilk.Scheduler.Entered.{
  Free, entered, entered-AtSync, entered-AtTop, entered-Locked, peeked, taken, asserts-eq, Leftover,
  emptied, Emptied, emptied-Emptied, free_old-eq,
}
use multicilk.Scheduler.Run.{Sync, cilk_sync, sync_suspend, free_old_fiber}

-- The place of the fiber that the closure was on.
abbrev pub kept_fiber : Option ℕ → ℕ → ℕ → State → Option ℕ
kept_fiber none w t r = (r.workers w).fiber_to_free
kept_fiber (some e) w t r = (r.closures t).saved_throwing_fiber

-- What the worker has to free besides that fiber.
abbrev pub other_fiber : Option ℕ → ℕ → State → Option ℕ
other_fiber none w r = none
other_fiber (some e) w r = (r.workers w).fiber_to_free

-- The closure is suspended with the map of the worker, out of the deque, and off its fiber, which is
-- freed later if there is no exception; the worker has no map, and nobody holds the locks.
pub record SetAside (w t f : ℕ) (s r : State) : Type 0 where
  pub status : (r.closures t).status ≡ Status.suspended
  pub map :
      ((r.closures t).user_rmap ≡ (s.workers w).reducer_map) × ((r.workers w).reducer_map ≡ none)
  pub frame : (r.frames f).worker ≡ none
  pub deque :
      ((r.deques w).top ≡ none) × ((r.deques w).bottom ≡ none) × ((r.deques w).locked ≡ false)
  pub closure : ((r.closures t).owner_ready_deque ≡ no_worker) × ((r.closures t).locked ≡ false)
  pub off_fiber : (r.closures t).fiber ≡ none
  pub fiber : kept_fiber (s.closures t).user_exn w t r ≡ (s.closures t).fiber
  pub old_fiber : other_fiber (s.closures t).user_exn w r ≡ none

saved-left_fiber :
    (x w t : ℕ) (s : State)
    → (s.closures t).user_exn ≡ some x
    → ((left_fiber (s.closures t).user_exn w t s).closures t).saved_throwing_fiber
      ≡ (s.closures t).fiber
unfolding left_fiber keep_fiber
saved-left_fiber x w t s e = ground (arith, e)

saved-put_aside :
    (w t f : ℕ) (s : State)
    → ((put_aside w t f s).closures t).saved_throwing_fiber
      ≡ ((left_fiber (s.closures t).user_exn w t s).closures t).saved_throwing_fiber
unfolding put_aside out_of_deque
saved-put_aside w t f s = ground arith

saved-unlocked :
    (w t : ℕ) (s : State)
    → ((deque_unlocked w (released t s)).closures t).saved_throwing_fiber
      ≡ (s.closures t).saved_throwing_fiber
unfolding deque_unlocked released
saved-unlocked w t s = ground arith

kept-left_fiber :
    (w t : ℕ) (s : State)
    → (s.closures t).user_exn ≡ none
    → ((left_fiber (s.closures t).user_exn w t s).workers w).fiber_to_free ≡ (s.closures t).fiber
unfolding left_fiber keep_fiber
kept-left_fiber w t s e = ground (arith, e)

put_aside-SetAside :
    (exn : Option ℕ) (w t f : ℕ) (s : State)
    → (s.workers w).fiber_to_free ≡ none
    → (s.closures t).user_exn ≡ exn
    → SetAside w t f s (deque_unlocked w (released t (put_aside w t f (entered w t s))))
unfolding deque_unlocked released put_aside out_of_deque left_fiber keep_fiber entered
    closure_locked deque_locked
put_aside-SetAside none w t f s n e = record {
  status = ground arith;
  map = (ground arith, ground (arith, e));
  frame = ground arith;
  deque = (ground arith, ground arith, ground arith);
  closure = (ground arith, ground arith);
  off_fiber = ground arith;
  fiber =
      ap (λ o. kept_fiber o w t (deque_unlocked w (released t (put_aside w t f (entered w t s))))) e
      ∙ kept-left_fiber w t (entered w t s) (ground (arith, e))
      ∙ ground arith;
  old_fiber = ground (arith, e);
}
put_aside-SetAside (some x) w t f s n e = record {
  status = ground arith;
  map = (ground arith, ground (arith, e));
  frame = ground arith;
  deque = (ground arith, ground arith, ground arith);
  closure = (ground arith, ground arith);
  off_fiber = ground arith;
  fiber =
      ap (λ o. kept_fiber o w t (deque_unlocked w (released t (put_aside w t f (entered w t s))))) e
      ∙ saved-unlocked w t (put_aside w t f (entered w t s))
      ∙ saved-put_aside w t f (entered w t s)
      ∙ saved-left_fiber x w t (entered w t s) (ground (arith, e))
      ∙ ground arith;
  old_fiber = ground (arith, e, n);
}

-- What `unlock-owned` asks of the closure that is put aside.
put_aside-held :
    (exn : Option ℕ) (w t f : ℕ) (s : State)
    → (s.closures t).user_exn ≡ exn
    → (is_valid ((put_aside w t f (entered w t s)).closures t).status ≡ true)
      × (((put_aside w t f (entered w t s)).closures t).mutex_owner ≡ w)
unfolding put_aside out_of_deque left_fiber keep_fiber entered closure_locked deque_locked
put_aside-held none w t f s e = (ground (arith, e), ground (arith, e))
put_aside-held (some x) w t f s e = (ground (arith, e), ground (arith, e))

SetAside-Emptied :
    (w t f : ℕ) (s c r : State) → Emptied w t f s c → SetAside w t f c r → SetAside w t f s r
SetAside-Emptied w t f s c r k a = record {
  status = a.status;
  map = (a.map.0 ∙ k.map, a.map.1);
  frame = a.frame;
  deque = a.deque;
  closure = a.closure;
  off_fiber = a.off_fiber;
  fiber = subst (λ v. kept_fiber v.user_exn w t r ≡ v.fiber) k.closure a.fiber;
  old_fiber = subst (λ v. other_fiber v.user_exn w r ≡ none) k.closure a.old_fiber;
}

module _ ⦃services : Services⦄
    (deallocates : (w : ℕ) (f : Option ℕ) (s : State)
      → services.deallocate_fiber w f s ≡ ok tt s) where
  not_ready-eq :
      (w t f : ℕ) (s c a : State)
      → AtSync w t f s
      → AtTop w f s
      → Free w t s
      → free_old_fiber w t (entered w t s) ≡ ok tt (entered w t c)
      → closure_has_children ((entered w t c).closures t) ≡ true
      → sync_suspend w t (entered w t c) ≡ ok tt a
      → is_valid (a.closures t).status ≡ true
      → (a.closures t).mutex_owner ≡ w
      → cilk_sync w f s ≡ ok Sync.sync_not_ready (deque_unlocked w (released t a))
  unfolding cilk_sync
  not_ready-eq w t f s c a h top free old children run valid own = ground (
    arith,
    lock_self-eq w s free.deque,
    peeked w t f s h,
    taken w t f s h free,
    asserts-eq w t f (entered w t s) (entered-AtSync w t f s h) (entered-AtTop w t f s top),
    old,
    children,
    run,
    unlock-owned w t a valid own,
    unlock_self-eq w (released t a),
  )

  -- Where deallocations succeed, `Cilk_sync` of a running closure that is alone in the free deque
  -- of its worker, was stolen for real, has children, and meets what the call asserts (its frame
  -- is the current one, the shadow stack is empty, and a fiber that an earlier sync left to be
  -- freed is not its own), with its own lock free, fails no assertion, gives SYNC_NOT_READY and
  -- suspends the closure with the map of the worker, out of the deque and off its fiber, with both
  -- locks released. The worker then has to free the fiber of the closure and no other, or, where
  -- the closure has an exception, none, and that fiber is kept for the unwinding.
  pub sync_not_ready_suspends :
      (w t f : ℕ) (s : State)
      → AtSync w t f s
      → AtTop w f s
      → Free w t s
      → Leftover (s.workers w).fiber_to_free (s.closures t).fiber
      → closure_has_children (s.closures t) ≡ true
      → (r : State) × (cilk_sync w f s ≡ ok Sync.sync_not_ready r) × SetAside w t f s r
  sync_not_ready_suspends w t f s h top free differ children =
      let old = (s.workers w).fiber_to_free in
      let c = emptied old w s in
      let k = emptied-Emptied old w t f s refl h top free in
      let a = entered w t c in
      let b = put_aside w t f a in
      let held = put_aside-held (c.closures t).user_exn w t f c refl in
      (
        deque_unlocked w (released t b),
        not_ready-eq w t f s c b h top free (free_old-eq deallocates old w t s refl differ)
            (unfold entered closure_locked deque_locked closure_has_children in
              ground (arith, children, k.closure))
            (sync_suspend-eq (a.closures t).user_exn w t f a refl (entered-AtSync w t f c k.sync)
              (entered-Locked w t c))
            held.0 held.1,
        SetAside-Emptied w t f s c (deque_unlocked w (released t b)) k
            (put_aside-SetAside (c.closures t).user_exn w t f c k.nothing_to_free refl),
      )
