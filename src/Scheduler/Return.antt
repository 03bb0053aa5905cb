-- ===== src/Scheduler/Return.antt =====
-- `Closure_return`, `return_value` and `Cilk_exception_handler` of runtime/scheduler.c.
use multicilk.Base.{ℕ, ◌-◌, true, ◌||◌, ◌&&◌, not, Option, none, some, ◌==◌, is_null, ptr_eq, ltb}
use multicilk.Runtime.{
  no_worker, Status, status_eq, M, pure, ◌>>=◌, ◌>>◌, check, branch, null_or, get_closure,
  get_worker, deref, modify_closure, modify_frame, modify_worker,
}
use multicilk.Deque.{deque_lock_self, deque_unlock_self, deque_peek_bottom}
use multicilk.Closure.{
  closure_assert_alienation, closure_set_status, closure_lock, closure_unlock, closure_has_children,
  closure_remove_child,
}
use multicilk.Closure.Callee.{closure_destroy}
use multicilk.Scheduler.{Services, reset_exception_pointer}
use multicilk.Scheduler.Resume.{unconditional_steal, provably_good_steal_maybe}
use multicilk.Scheduler.Turns.{delete_if, reduce_exceptions, reduce_rmaps}

module _ ⦃services : Services⦄ where
  -- The fiber of the leftmost child goes to the parent.
  unfoldable pub pass_fiber : ℕ → ℕ → ℕ → M (Unit {0})
  pass_fiber w parent child = do
    p ← get_closure parent
    c ← get_closure child
    branch (not (is_null c.left_sib) || not (is_null p.fiber_child))
        (do check (not (ptr_eq p.fiber_child c.fiber)); services.deallocate_fiber w c.fiber)
        (modify_closure parent λ d. record d { fiber_child = c.fiber })
    modify_closure child λ d. record d { fiber = none }

  -- The parent goes on: its exceptions and maps are put together.
  unfoldable pub join_parent : ℕ → ℕ → M (Unit {0})
  join_parent w parent = do
    p ← get_closure parent
    modify_closure parent λ d. record d { child_exn = none; user_exn = none }
    null_or p.child_exn (modify_closure parent λ d. record d { user_exn = p.user_exn }) λ e. do
      delete_if p.user_exn
      modify_closure parent λ d. record d { user_exn = some e }
      f ← deref p.frame
      modify_frame f λ v. record v { flags = record v.flags { exception_pending = true } }
    v ← get_worker w
    check (is_null v.reducer_map)
    modify_closure parent λ d. record d { child_rmap = none; user_rmap = none }
    m ← services.merge_two_rmaps w p.child_rmap p.user_rmap
    modify_worker w λ u. record u { reducer_map = m }
    p' ← get_closure parent
    branch p'.simulated_stolen
        (do
          modify_closure parent λ d. record d { child_rmap = m }
          modify_worker w λ u. record u { reducer_map = none })
        (pure tt)

  -- What follows the unlinking of the child: the parent has one child less, and may go on.
  unfoldable pub resume_parent : ℕ → ℕ → M (Option ℕ)
  resume_parent w parent = do
    p ← get_closure parent
    check (not (status_eq p.status Status.returning))
    check (not (is_null p.frame))
    check (not (p.join_counter == 0))
    modify_closure parent λ d. record d { join_counter = d.join_counter - 1 }
    res ←
        branch p.simulated_stolen
          (do
            r ← unconditional_steal w parent
            q ← get_closure parent
            check (not (is_null q.fiber) && is_null q.fiber_child)
            pure (some r))
          (provably_good_steal_maybe w parent)
    null_or res (pure tt) λ _. join_parent w parent
    closure_unlock w parent
    pure res

  -- `Closure_return`; each of its loops has two turns, since nobody else fills the slots.
  unfoldable pub closure_return : ℕ → ℕ → M (Option ℕ)
  closure_return w child = do
    c ← get_closure child
    check (c.join_counter == 0)
    check (status_eq c.status Status.returning)
    check (c.owner_ready_deque == no_worker)
    closure_assert_alienation w child
    check (not c.has_cilk_callee)
    check (is_null c.call_parent)
    check (not (is_null c.spawn_parent))
    check (is_null c.child_rmap && is_null c.user_rmap)
    parent ← deref c.spawn_parent
    closure_lock w parent
    closure_lock w child
    reduce_exceptions 2 w parent child
    reduce_rmaps 2 w parent child
    pass_fiber w parent child
    closure_remove_child w parent child
    closure_unlock w child
    closure_destroy child
    resume_parent w parent

  pub return_value : ℕ → ℕ → M (Option ℕ)
  return_value w t = do
    c ← get_closure t
    check (status_eq c.status Status.returning)
    check (is_null c.call_parent)
    closure_return w t

-- Where a call goes on: back in user code, or in the runtime by `longjmp_to_runtime`.
pub data After : Type 0 where
  to_user to_runtime : After

-- The branch of `Cilk_exception_handler` in which the parent was stolen.
unfoldable pub note_steal : ℕ → ℕ → Option ℕ → M After
note_steal w t exn = do
  null_or exn (pure tt) λ e. modify_closure t λ d. record d { user_exn = some e }
  c ← get_closure t
  branch (status_eq c.status Status.running)
      (do check (not (closure_has_children c)); closure_set_status t Status.returning) (pure tt)
  closure_unlock w t
  deque_unlock_self w
  pure After.to_runtime

unfoldable pub cilk_exception_handler : ℕ → Option ℕ → M After
cilk_exception_handler w exn = do
  deque_lock_self w
  b ← deque_peek_bottom w w
  t ← deref b
  closure_lock w t
  reset_exception_pointer w t
  c ← get_closure t
  check (status_eq c.status Status.running || status_eq c.status Status.returning)
  v ← get_worker w
  branch (ltb v.tail v.head) (note_steal w t exn)
      (do closure_unlock w t; deque_unlock_self w; pure After.to_user)
