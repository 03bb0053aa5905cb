-- ===== src/Scheduler/Good.antt =====
-- `provably_good_steal_maybe` of runtime/scheduler.c on both of its branches.
use multicilk.Base.{
  ℕ, Bool, true, false, not, ◌&&◌, none, some, ◌≡◌, ◌⊎◌, inl, inr, ◌∙◌, ptr_eq, is_null, update,
  Bool-cases, arith,
}
use multicilk.Runtime.{no_worker, Status, status_eq, Closure, State, ok}
use multicilk.Closure.{closure_assert_ownership, closure_has_children}
use multicilk.Closure.Callee.{closure_make_ready}
use multicilk.Scheduler.{setup_for_sync}
use multicilk.Scheduler.Resume.{provably_good_steal, provably_good_steal_maybe}

-- Whether the parent waits at a sync for nothing any more.
abbrev pub may_go_on : Closure → Bool
may_go_on c = not (closure_has_children c) && status_eq c.status Status.suspended

-- The closure `p` with the current frame `f` can pass a sync, on the fiber that its leftmost child left.
pub record CanSync (w p f : ℕ) (s : State) : Type 0 where
  pub frame : (s.closures p).frame ≡ some f
  pub current : (s.workers w).current_stack_frame ≡ some f
  pub real : (s.closures p).simulated_stolen ≡ false
  pub nothing_to_free : (s.workers w).fiber_to_free ≡ none
  pub fibers : ptr_eq (s.closures p).fiber (s.closures p).fiber_child ≡ false
  pub stack : is_null (s.closures p).fiber_child ≡ false

-- The parent is suspended at the sync.
pub record Waiting (w p f : ℕ) (s : State) : Type 0 where
  pub can : CanSync w p f s
  pub poisoned : (s.frames f).worker ≡ none
  pub placed : (s.closures p).owner_ready_deque ≡ no_worker

-- The parent is ready, on the fiber of its leftmost child, with the stack that it had at its first
-- spawn that was stolen.
pub record GoesOn (w p f : ℕ) (s t : State) : Type 0 where
  pub status : (t.closures p).status ≡ Status.ready
  pub fiber : (t.closures p).fiber ≡ (s.closures p).fiber_child
  pub fiber_child : (t.closures p).fiber_child ≡ none
  pub freed : (t.workers w).fiber_to_free ≡ (s.closures p).fiber
  pub stack : ((t.frames f).sp ≡ (s.closures p).orig_rsp) × ((t.closures p).orig_rsp ≡ none)
  pub synced : (t.frames f).flags.unsynched ≡ false
  pub worker : (t.frames f).worker ≡ some w
  pub marked : (t.workers w).provably_good_steal ≡ true

-- What `setup_for_sync` does after the mark.
unfoldable pub marked : ℕ → State → State
marked w s = record s {
  workers = update s.workers w (record (s.workers w) { provably_good_steal = true });
}

unfoldable pub synced : ℕ → ℕ → ℕ → State → State
synced w p f s =
    let c = s.closures p in
    let a = update s.workers w (record (s.workers w) { fiber_to_free = c.fiber }) in
    let b = update s.closures p (record c { fiber = c.fiber_child }) in
    let b' = update b p (record (b p) { fiber_child = none }) in
    let d =
      update s.frames f
        (record (s.frames f) { flags = record (s.frames f).flags { unsynched = false } }) in
    let d' = update d f (record (d f) { sp = c.orig_rsp }) in
    record s {
      workers = a;
      closures = update b' p (record (b' p) { orig_rsp = none });
      frames = update d' f (record (d' f) { worker = some w });
    }

pub setup_for_sync-eq :
    (w p f : ℕ) (s : State)
    → (s.closures p).mutex_owner ≡ w
    → CanSync w p f s
    → setup_for_sync w p s ≡ ok tt (synced w p f s)
unfolding setup_for_sync closure_assert_ownership synced
setup_for_sync-eq w p f s own h =
    ground (arith, own, h.frame, h.current, h.real, h.nothing_to_free, h.fibers, h.stack)

marked-CanSync : (w p f : ℕ) (s : State) → CanSync w p f s → CanSync w p f (marked w s)
unfolding marked
marked-CanSync w p f s h = record {
  frame = h.frame;
  current = ground (arith, h.current);
  real = h.real;
  nothing_to_free = ground (arith, h.nothing_to_free);
  fibers = h.fibers;
  stack = h.stack;
}

unfoldable pub made_ready : ℕ → State → State
made_ready p s = record s {
  closures = update s.closures p (record (s.closures p) { status = Status.ready });
}

synced-placed :
    (w p f : ℕ) (s : State)
    → Waiting w p f s
    → ((synced w p f (marked w s)).closures p).owner_ready_deque ≡ no_worker
unfolding synced marked
synced-placed w p f s h = ground (arith, h.placed)

pub steal-eq :
    (w p f : ℕ) (s : State)
    → (s.closures p).mutex_owner ≡ w
    → Waiting w p f s
    → provably_good_steal w p s ≡ ok (some p) (made_ready p (synced w p f (marked w s)))
unfolding provably_good_steal closure_make_ready made_ready
steal-eq w p f s own h =
    let own_marked : ((marked w s).closures p).mutex_owner ≡ w = unfold marked in own in
    unfold marked in
    ground (
      arith,
      h.can.frame,
      h.poisoned,
      setup_for_sync-eq w p f (marked w s) own_marked (marked-CanSync w p f s h.can),
      synced-placed w p f s h,
    )

ready-GoesOn : (w p f : ℕ) (s : State) → GoesOn w p f s (made_ready p (synced w p f (marked w s)))
unfolding made_ready synced marked
ready-GoesOn w p f s = record {
  status = ground arith;
  fiber = ground arith;
  fiber_child = ground arith;
  freed = ground arith;
  stack = (ground arith, ground arith);
  synced = ground arith;
  worker = ground arith;
  marked = ground arith;
}

pub maybe-eq :
    (w p : ℕ) (s : State)
    → (s.closures p).mutex_owner ≡ w
    → (s.workers w).provably_good_steal ≡ false
    → (may_go_on (s.closures p) ≡ true)
        × (provably_good_steal_maybe w p s ≡ provably_good_steal w p s)
      ⊎ (may_go_on (s.closures p) ≡ false) × (provably_good_steal_maybe w p s ≡ ok none s)
unfolding provably_good_steal_maybe closure_assert_ownership
maybe-eq w p s own off = elim (Bool-cases (may_go_on (s.closures p))) [
  | inl e ↦ inl (e, ground (arith, own, off, e))
  | inr e ↦ inr (e, ground (arith, own, off, e))
]

-- With the lock of the parent, `provably_good_steal_maybe` gives the parent exactly if it is suspended
-- and has no children; then the parent is ready on the fiber of its leftmost child, its frame is synced
-- with its old stack pointer, and the worker will free the fiber that the parent had. Otherwise it
-- gives NULL and changes nothing.
pub provably_good_steal_decides :
    (w p f : ℕ) (s : State)
    → (s.closures p).mutex_owner ≡ w
    → (s.workers w).provably_good_steal ≡ false
    → (may_go_on (s.closures p) ≡ true → Waiting w p f s)
    → (may_go_on (s.closures p) ≡ true)
        × ((t : State) × (provably_good_steal_maybe w p s ≡ ok (some p) t) × GoesOn w p f s t)
      ⊎ (may_go_on (s.closures p) ≡ false) × (provably_good_steal_maybe w p s ≡ ok none s)
provably_good_steal_decides w p f s own off waiting = elim (maybe-eq w p s own off) [
  | inl (e, run) ↦ inl (
    e,
    (
      made_ready p (synced w p f (marked w s)),
      run ∙ steal-eq w p f s own (waiting e),
      ready-GoesOn w p f s,
    ),
  )
  | inr (e, run) ↦ inr (e, run)
]
