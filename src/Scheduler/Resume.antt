-- ===== src/Scheduler/Resume.antt =====
-- How a parent goes on (runtime/scheduler.c): `Cilk_set_return`, `unconditional_steal` and
-- `provably_good_steal_maybe`.
use multicilk.Base.{ℕ, true, ◌&&◌, not, Option, none, some, ◌==◌, is_null, ptr_eq}
use multicilk.Runtime.{
  no_worker, Status, status_eq, M, pure, ◌>>=◌, ◌>>◌, check, branch, get_closure, get_worker,
  get_frame, deref, modify_closure, modify_frame, modify_worker,
}
use multicilk.Deque.{
  deque_assert_ownership, deque_lock_self, deque_unlock_self, deque_peek_bottom,
  deque_xtract_bottom, deque_add_bottom,
}
use multicilk.Closure.{
  closure_assert_ownership, closure_change_status, closure_lock, closure_unlock,
  closure_has_children,
}
use multicilk.Closure.Callee.{closure_remove_callee, closure_make_ready, closure_destroy}
use multicilk.Scheduler.{reset_exception_pointer, setup_for_sync}

-- The closure that it returns is `t`.
pub setup_call_parent_resumption : ℕ → ℕ → M (Unit {0})
setup_call_parent_resumption w t = do
  deque_assert_ownership w w
  closure_assert_ownership w t
  c ← get_closure t
  f ← deref c.frame
  v ← get_frame f
  check v.flags.stolen
  check (is_null v.worker)
  u ← get_worker w
  check (u.head == u.tail)
  check (ptr_eq u.current_stack_frame (some f))
  closure_change_status t Status.suspended Status.running
  modify_frame f λ v. record v { worker = some w }
  reset_exception_pointer w t

-- The callee `t` gives its place at the bottom of the deque to its caller `call_parent`.
pub return_to_caller : ℕ → ℕ → ℕ → M (Unit {0})
return_to_caller w t call_parent = do
  closure_lock w call_parent
  p ← get_closure call_parent
  c ← get_closure t
  check (ptr_eq p.fiber c.fiber)
  modify_closure t λ d. record d { fiber = none }
  closure_remove_callee call_parent
  setup_call_parent_resumption w call_parent
  closure_unlock w call_parent
  closure_destroy t
  deque_add_bottom w call_parent w
  deque_unlock_self w

pub cilk_set_return : ℕ → M (Unit {0})
cilk_set_return w = do
  deque_lock_self w
  b ← deque_peek_bottom w w
  t ← deref b
  closure_lock w t
  c ← get_closure t
  check (status_eq c.status Status.running)
  check (not (closure_has_children c))
  check (is_null c.child_rmap && is_null c.right_rmap)
  check (not (is_null c.call_parent))
  check (is_null c.spawn_parent)
  f ← deref c.frame
  v ← get_frame f
  check (not v.flags.detached)
  check (not c.simulated_stolen)
  t1 ← deque_xtract_bottom w w
  check (ptr_eq (some t) t1)
  v' ← get_frame f
  check v'.flags.stolen
  modify_closure t λ d. record d { frame = none }
  closure_unlock w t
  call_parent ← deref c.call_parent
  return_to_caller w t call_parent

pub unconditional_steal : ℕ → ℕ → M ℕ
unconditional_steal w parent = do
  closure_assert_ownership w parent
  p ← get_closure parent
  check p.simulated_stolen
  v ← get_worker w
  check (not v.provably_good_steal)
  check (not (closure_has_children p))
  check (status_eq p.status Status.suspended)
  f ← deref p.frame
  u ← get_frame f
  check (is_null u.worker)
  check (p.owner_ready_deque == no_worker)
  check (is_null p.fiber && not (is_null p.fiber_child))
  modify_closure parent λ d. record d { fiber = d.fiber_child }
  modify_closure parent λ d. record d { fiber_child = none }
  closure_make_ready parent
  pure parent

-- The body of the test in `provably_good_steal_maybe`.
unfoldable pub provably_good_steal : ℕ → ℕ → M (Option ℕ)
provably_good_steal w parent = do
  p ← get_closure parent
  f ← deref p.frame
  u ← get_frame f
  check (is_null u.worker)
  modify_worker w λ v. record v { provably_good_steal = true }
  setup_for_sync w parent
  p' ← get_closure parent
  check (p'.owner_ready_deque == no_worker)
  closure_make_ready parent
  pure (some parent)

unfoldable pub provably_good_steal_maybe : ℕ → ℕ → M (Option ℕ)
provably_good_steal_maybe w parent = do
  closure_assert_ownership w parent
  v ← get_worker w
  check (not v.provably_good_steal)
  p ← get_closure parent
  branch (not (closure_has_children p) && status_eq p.status Status.suspended)
      (provably_good_steal w parent) (pure none)
