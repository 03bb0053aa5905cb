-- ===== src/Scheduler/Suspend.antt =====
-- How `Cilk_sync` (runtime/scheduler.c) suspends a closure that has children, with both locks.
use multicilk.Base.{ℕ, true, false, Option, none, some, ◌≡◌, update, arith}
use multicilk.Runtime.{no_worker, Status, State, ok}
use multicilk.Deque.{deque_assert_ownership, deque_xtract_bottom, unlink_bottom}
use multicilk.Closure.{closure_assert_ownership, closure_checkmagic, closure_change_status}
use multicilk.Closure.Callee.{in_tree, closure_suspend}
use multicilk.Scheduler.{Services}
use multicilk.Scheduler.Run.{sync_suspend}

-- The closure `t` with the frame `f` runs on the worker `w`, and has passed no sync before.
pub record AtSync (w t f : ℕ) (s : State) : Type 0 where
  pub frame : (s.closures t).frame ≡ some f
  pub worker : (s.frames f).worker ≡ some w
  pub stolen : (s.frames f).flags.stolen ≡ true
  pub status : (s.closures t).status ≡ Status.running
  pub real : (s.closures t).simulated_stolen ≡ false
  pub callee : (s.closures t).has_cilk_callee ≡ false
  pub user_rmap : (s.closures t).user_rmap ≡ none
  pub placed : (s.closures t).owner_ready_deque ≡ w
  pub alone :
      ((s.deques w).top ≡ some t)
      × ((s.deques w).bottom ≡ some t)
      × ((s.closures t).prev_ready ≡ none)
  pub tree : in_tree t (s.closures t) s.root_closure ≡ true

-- The shadow stack of `w` is empty, and `f` is its current frame.
pub record AtTop (w f : ℕ) (s : State) : Type 0 where
  pub empty : (s.workers w).head ≡ (s.workers w).tail
  pub current : (s.workers w).current_stack_frame ≡ some f

pub record Locked (w t : ℕ) (s : State) : Type 0 where
  pub closure : (s.closures t).mutex_owner ≡ w
  pub deque : (s.deques w).mutex_owner ≡ w

-- The closure is suspended and out of the deque.
unfoldable pub out_of_deque : ℕ → ℕ → ℕ → State → State
out_of_deque w t f s =
    let a = update s.closures t (record (s.closures t) { status = Status.suspended }) in
    let d = update s.deques w (record (s.deques w) { bottom = none }) in
    record s {
      closures = update a t (record (a t) { owner_ready_deque = no_worker });
      frames = update s.frames f (record (s.frames f) { worker = none });
      deques = update d w (record (s.deques w) { top = none; bottom = none });
    }

closure_suspend-eq :
    (w t f : ℕ) (s : State)
    → AtSync w t f s
    → Locked w t s
    → closure_suspend w t s ≡ ok tt (out_of_deque w t f s)
unfolding closure_suspend closure_checkmagic closure_assert_ownership deque_assert_ownership
    closure_change_status deque_xtract_bottom unlink_bottom out_of_deque
closure_suspend-eq w t f s h k = ground (
  arith, k.closure, k.deque, h.frame, h.worker, h.stolen, h.status, h.user_rmap, h.placed,
  h.alone.0, h.alone.1, h.alone.2, h.tree,
)

-- Where the fiber goes: it is freed later, or kept for the unwinding of an exception.
unfoldable pub keep_fiber : Option ℕ → ℕ → ℕ → State → State
keep_fiber none w t s = record s {
  workers = update s.workers w (record (s.workers w) { fiber_to_free = (s.closures t).fiber });
}
keep_fiber (some e) w t s = record s {
  closures =
      update s.closures t (record (s.closures t) { saved_throwing_fiber = (s.closures t).fiber });
}

unfoldable pub left_fiber : Option ℕ → ℕ → ℕ → State → State
left_fiber exn w t s =
    let a = keep_fiber exn w t s in
    record a {
      closures = update a.closures t (record (a.closures t) { fiber = none });
      workers = update a.workers w (record (a.workers w) { reducer_map = none });
    }

left_fiber-AtSync :
    (exn : Option ℕ) (w t f : ℕ) (s : State) → AtSync w t f s → AtSync w t f (left_fiber exn w t s)
unfolding left_fiber keep_fiber
left_fiber-AtSync none w t f s h = record {
  frame = ground (arith, h.frame);
  worker = h.worker;
  stolen = h.stolen;
  status = ground (arith, h.status);
  real = ground (arith, h.real);
  callee = ground (arith, h.callee);
  user_rmap = ground (arith, h.user_rmap);
  placed = ground (arith, h.placed);
  alone = (h.alone.0, h.alone.1, ground (arith, h.alone.2));
  tree = ground (arith, h.tree);
}
left_fiber-AtSync (some e) w t f s h = record {
  frame = ground (arith, h.frame);
  worker = h.worker;
  stolen = h.stolen;
  status = ground (arith, h.status);
  real = ground (arith, h.real);
  callee = ground (arith, h.callee);
  user_rmap = ground (arith, h.user_rmap);
  placed = ground (arith, h.placed);
  alone = (h.alone.0, h.alone.1, ground (arith, h.alone.2));
  tree = ground (arith, h.tree);
}

left_fiber-Locked :
    (exn : Option ℕ) (w t : ℕ) (s : State) → Locked w t s → Locked w t (left_fiber exn w t s)
unfolding left_fiber keep_fiber
left_fiber-Locked none w t s k = record { closure = ground (arith, k.closure); deque = k.deque }
left_fiber-Locked (some e) w t s k = record { closure = ground (arith, k.closure); deque = k.deque }

-- The closure is suspended with the map of the worker.
unfoldable pub put_aside : ℕ → ℕ → ℕ → State → State
put_aside w t f s =
    let a = out_of_deque w t f (left_fiber (s.closures t).user_exn w t s) in
    record a {
      closures =
          update a.closures t (record (a.closures t) { user_rmap = (s.workers w).reducer_map });
    }

module _ ⦃services : Services⦄ where
  pub sync_suspend-eq :
      (exn : Option ℕ) (w t f : ℕ) (s : State)
      → (s.closures t).user_exn ≡ exn
      → AtSync w t f s
      → Locked w t s
      → sync_suspend w t s ≡ ok tt (put_aside w t f s)
  unfolding sync_suspend put_aside
  sync_suspend-eq none w t f s e h k =
      let run =
        closure_suspend-eq w t f (left_fiber none w t s) (left_fiber-AtSync none w t f s h)
          (left_fiber-Locked none w t s k) in
      unfold left_fiber keep_fiber in ground (arith, e, run)
  sync_suspend-eq (some x) w t f s e h k =
      let run =
        closure_suspend-eq w t f (left_fiber (some x) w t s) (left_fiber-AtSync (some x) w t f s h)
          (left_fiber-Locked (some x) w t s k) in
      unfold left_fiber keep_fiber in ground (arith, e, run)
