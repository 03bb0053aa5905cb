-- ===== src/Scheduler/Turns.antt =====
-- The two loops of `Closure_return` (runtime/scheduler.c), which put the exceptions and the maps of
-- a returning child together with those in the slots to its left and its right.
use multicilk.Base.{ℕ, zero, suc, Bool, true, false, ◌&&◌, Option, none, some, is_null}
use multicilk.Runtime.{
  M, pure, ◌>>=◌, ◌>>◌, branch, null_or, get_closure, get_worker, modify_closure, modify_worker,
}
use multicilk.Closure.{closure_lock, closure_unlock, crash}
use multicilk.Scheduler.{Services}

-- The exception slot to the left of a child, which the loop reads and clears.
unfoldable pub take_left_exn : ℕ → Option ℕ → M (Option ℕ)
take_left_exn parent left_sib =
    null_or left_sib
      (do
        p ← get_closure parent
        modify_closure parent λ d. record d { child_exn = none }
        pure p.child_exn)
      λ l. do
        c ← get_closure l
        modify_closure l λ d. record d { right_exn = none }
        pure c.right_exn

unfoldable pub put_left_exn : ℕ → Option ℕ → Option ℕ → M (Unit {0})
put_left_exn parent left_sib exn =
    null_or left_sib (modify_closure parent λ d. record d { child_exn = exn })
      λ l. modify_closure l λ d. record d { right_exn = exn }

unfoldable pub take_left_rmap : ℕ → Option ℕ → M (Option ℕ)
take_left_rmap parent left_sib =
    null_or left_sib
      (do
        p ← get_closure parent
        modify_closure parent λ d. record d { child_rmap = none }
        pure p.child_rmap)
      λ l. do
        c ← get_closure l
        modify_closure l λ d. record d { right_rmap = none }
        pure c.right_rmap

unfoldable pub put_left_rmap : ℕ → Option ℕ → Option ℕ → M (Unit {0})
put_left_rmap parent left_sib rmap =
    null_or left_sib (modify_closure parent λ d. record d { child_rmap = rmap })
      λ l. modify_closure l λ d. record d { right_rmap = rmap }

module _ ⦃services : Services⦄ where
  unfoldable pub delete_if : Option ℕ → M (Unit {0})
  delete_if exn = null_or exn (pure tt) λ e. services.delete_exception e

  -- Which of three exceptions is kept; the others are deleted.
  unfoldable pub reduce_exn : Option ℕ → Option ℕ → Option ℕ → M (Option ℕ)
  reduce_exn left user right =
      null_or left (null_or user (pure right) λ u. do delete_if right; pure (some u))
        λ l. do delete_if user; delete_if right; pure (some l)

  -- One turn of the first loop of `Closure_return`, and whether the loop ends with it.
  unfoldable pub exceptions_turn : ℕ → ℕ → ℕ → M Bool
  exceptions_turn w parent child = do
    c ← get_closure child
    modify_closure child λ d. record d { right_exn = none }
    left ← take_left_exn parent c.left_sib
    branch (is_null left && is_null c.right_exn)
        (do put_left_exn parent c.left_sib c.user_exn; pure true)
        (do
          closure_unlock w child
          closure_unlock w parent
          exn ← reduce_exn left c.user_exn c.right_exn
          modify_closure child λ d. record d { user_exn = exn }
          closure_lock w parent
          closure_lock w child
          pure false)

  -- The first argument bounds the turns.
  unfoldable pub reduce_exceptions : ℕ → ℕ → ℕ → ℕ → M (Unit {0})
  reduce_exceptions zero w parent child = crash
  reduce_exceptions (suc n) w parent child = do
    over ← exceptions_turn w parent child
    branch over (pure tt) (reduce_exceptions n w parent child)

  unfoldable pub reduce_rmap : ℕ → Option ℕ → Option ℕ → Option ℕ → M (Option ℕ)
  reduce_rmap w left active right = do
    a ← null_or left (pure active) λ l. services.merge_two_rmaps w (some l) active
    null_or right (pure a) λ r. services.merge_two_rmaps w a (some r)

  -- One turn of the second loop.
  unfoldable pub rmaps_turn : ℕ → ℕ → ℕ → M Bool
  rmaps_turn w parent child = do
    c ← get_closure child
    modify_closure child λ d. record d { right_rmap = none }
    left ← take_left_rmap parent c.left_sib
    v ← get_worker w
    modify_worker w λ u. record u { reducer_map = none }
    branch (is_null left && is_null c.right_rmap)
        (do put_left_rmap parent c.left_sib v.reducer_map; pure true)
        (do
          closure_unlock w child
          closure_unlock w parent
          active ← reduce_rmap w left v.reducer_map c.right_rmap
          modify_worker w λ u. record u { reducer_map = active }
          closure_lock w parent
          closure_lock w child
          pure false)

  unfoldable pub reduce_rmaps : ℕ → ℕ → ℕ → ℕ → M (Unit {0})
  reduce_rmaps zero w parent child = crash
  reduce_rmaps (suc n) w parent child = do
    over ← rmaps_turn w parent child
    branch over (pure tt) (reduce_rmaps n w parent child)
