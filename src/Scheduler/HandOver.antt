-- ===== src/Scheduler/HandOver.antt =====
-- `Closure_return` (runtime/scheduler.c) of the only child left, up to the point where the parent may go
-- on.
use multicilk.Base.{ℕ, ◌≡◌, refl, true, false, ◌==◌, Option, none, ptr_eq, arith}
use multicilk.Runtime.{no_worker, Status, Closure, Worker, Frame, State, ok}
use multicilk.Closure.{
  is_valid, closure_lock, closure_unlock, closure_assert_alienation, closure_remove_child,
}
use multicilk.Closure.Callee.{closure_destroy}
use multicilk.Scheduler.{Services}
use multicilk.Scheduler.Turns.{reduce_exceptions, reduce_rmaps}
use multicilk.Scheduler.Loops.{merged}
use multicilk.Scheduler.Pair.{
  Hold, owned, freed, lock_parent-Hold, lock_child-Hold, unlock_child-Hold,
}
use multicilk.Scheduler.Exceptions.{first_exn, reduce_exceptions-Hold}
use multicilk.Scheduler.Views.{reduce_rmaps-Hold}
use multicilk.Scheduler.Unlink.{
  left_fiber, pass_fiber-Hold, OnlyChild, remove_child-Hold, destroy-Hold,
}
use multicilk.Scheduler.Return.{pass_fiber, resume_parent, closure_return}

-- The child `cv` has left user code, and the worker `w` does not hold its lock.
pub record Returns (w : ℕ) (cv : Closure) : Type 0 where
  pub no_children : cv.join_counter ≡ 0
  pub returning : cv.status ≡ Status.returning
  pub in_no_deque : cv.owner_ready_deque ≡ no_worker
  pub not_ours : (cv.mutex_owner == w) ≡ false
  pub unlocked : cv.locked ≡ false
  pub no_callee : cv.has_cilk_callee ≡ false
  pub spawned : cv.call_parent ≡ none
  pub no_views : (cv.child_rmap ≡ none) × (cv.user_rmap ≡ none)
  pub childless : cv.right_most_child ≡ none

-- The exception that the child passes on, and the map.
abbrev pub passed_exn : Closure → Closure → Option ℕ
passed_exn pv cv = first_exn pv.child_exn cv.user_exn cv.right_exn

abbrev pub passed_map : (Option ℕ → Option ℕ → Option ℕ) → Closure → Closure → Worker → Option ℕ
passed_map join pv cv wv = merged join pv.child_rmap wv.reducer_map cv.right_rmap

-- The child and the parent, when the child is unlinked and destroyed.
abbrev pub reduced_child : Option ℕ → Closure → Closure
reduced_child exn v = record v { right_exn = none; user_exn = exn; right_rmap = none }

abbrev pub gone_child : ℕ → Option ℕ → Closure → Closure
gone_child w exn v = record (freed (owned w (reduced_child exn v))) {
  fiber = none;
  left_sib = none;
  right_sib = none;
  status = Status.post_invalid;
}

abbrev pub reduced_parent : Option ℕ → Option ℕ → Closure → Closure
reduced_parent exn map v = record v { child_exn = exn; child_rmap = map }

abbrev pub left_parent : ℕ → Option ℕ → Option ℕ → Option ℕ → Closure → Closure
left_parent w exn map fiber v = record (owned w (reduced_parent exn map v)) {
  fiber_child = left_fiber v.fiber_child fiber;
  right_most_child = none;
}

abbrev pub mapless : Worker → Worker
mapless v = record v { reducer_map = none }

module _ ⦃services : Services⦄ (join : Option ℕ → Option ℕ → Option ℕ)
    (merges : (w : ℕ) (l r : Option ℕ) (s : State)
      → services.merge_two_rmaps w l r s ≡ ok (join l r) s)
    (deletes : (e : ℕ) (s : State) → services.delete_exception e s ≡ ok tt s)
    (deallocates : (w : ℕ) (fiber : Option ℕ) (s : State)
      → services.deallocate_fiber w fiber s ≡ ok tt s)
    (p c w f : ℕ) (pv cv : Closure) (wv : Worker) (fv : Frame) where
  -- The locks and the two loops.
  reduce_both :
      (s : State)
      → Hold p c w f pv cv wv fv s
      → is_valid pv.status ≡ true
      → is_valid cv.status ≡ true
      → (pv.locked ≡ false) × (cv.locked ≡ false)
      → cv.left_sib ≡ none
      → (a b d t : State) × (closure_lock w p s ≡ ok tt a)
        × (closure_lock w c a ≡ ok tt b)
        × (reduce_exceptions 2 w p c b ≡ ok tt d)
        × (reduce_rmaps 2 w p c d ≡ ok tt t)
        × Hold p c w f
            (owned w (reduced_parent (passed_exn pv cv) (passed_map join pv cv wv) pv))
            (owned w (reduced_child (passed_exn pv cv) cv))
            (mapless wv)
            fv
            t
  reduce_both s h pvalid cvalid (pfree, cfree) left =
      let (a, e1, h1) = lock_parent-Hold p c w f pv cv wv fv s h pvalid pfree in
      let (b, e2, h2) = lock_child-Hold p c w f (owned w pv) cv wv fv a h1 cvalid cfree in
      let (d, e3, h3) =
        reduce_exceptions-Hold deletes p c w f pv cv wv fv b h2 pvalid cvalid left in
      let (t, e4, h4) =
        reduce_rmaps-Hold join merges p c w f (record pv { child_exn = passed_exn pv cv })
          (record cv { right_exn = none; user_exn = passed_exn pv cv }) wv fv d h3 pvalid cvalid
          left in
      (a, b, d, t, e1, e2, e3, e4, h4)

  -- The fiber, the list of the children, and the end of the child.
  unlink_both :
      (s : State)
      → Hold p c w f
          (owned w (reduced_parent (passed_exn pv cv) (passed_map join pv cv wv) pv))
          (owned w (reduced_child (passed_exn pv cv) cv))
          (mapless wv)
          fv
          s
      → Returns w cv
      → OnlyChild p c pv cv
      → ptr_eq pv.fiber_child cv.fiber ≡ false
      → (a b d t : State) × (pass_fiber w p c s ≡ ok tt a)
        × (closure_remove_child w p c a ≡ ok tt b)
        × (closure_unlock w c b ≡ ok tt d)
        × (closure_destroy c d ≡ ok tt t)
        × Hold p c w f
            (left_parent w (passed_exn pv cv) (passed_map join pv cv wv) cv.fiber pv)
            (gone_child w (passed_exn pv cv) cv)
            (mapless wv)
            fv
            t
  unlink_both s h child only differ =
      let valid : is_valid cv.status ≡ true = ground (arith, child.returning) in
      let (a, e1, h1) =
        pass_fiber-Hold deallocates p c w f
          (owned w (reduced_parent (passed_exn pv cv) (passed_map join pv cv wv) pv))
          (owned w (reduced_child (passed_exn pv cv) cv)) (mapless wv) fv s h only.left differ in
      let pv' = record (reduced_parent (passed_exn pv cv) (passed_map join pv cv wv) pv) {
        fiber_child = left_fiber pv.fiber_child cv.fiber;
      } in
      let cv' = record (reduced_child (passed_exn pv cv) cv) { fiber = none } in
      let (b, e2, h2) =
        remove_child-Hold p c w f pv' cv' (mapless wv) fv a h1
          (record { parent = only.parent; last = only.last; left = only.left; right = only.right })
          refl in
      let alone = record cv' { left_sib = none; right_sib = none } in
      let parent = left_parent w (passed_exn pv cv) (passed_map join pv cv wv) cv.fiber pv in
      let (d, e3, h3) =
        unlock_child-Hold p c w f parent (owned w alone) (mapless wv) fv b h2 valid refl in
      let (t, e4, h4) =
        destroy-Hold p c w f parent (freed (owned w alone)) (mapless wv) fv d h3 valid refl
          (refl, refl, child.childless) (child.no_views.1, child.no_views.0, refl) in
      (a, b, d, t, e1, e2, e3, e4, h4)

  -- What is left of the call is what `resume_parent` does in a state in which the child is gone.
  pub hand_over :
      (s : State)
      → Hold p c w f pv cv wv fv s
      → Returns w cv
      → OnlyChild p c pv cv
      → is_valid pv.status ≡ true
      → pv.locked ≡ false
      → ptr_eq pv.fiber_child cv.fiber ≡ false
      → (t : State) × ((r : Option ℕ) (u : State)
          → resume_parent w p t ≡ ok r u
          → closure_return w c s ≡ ok r u)
        × Hold p c w f
            (left_parent w (passed_exn pv cv) (passed_map join pv cv wv) cv.fiber pv)
            (gone_child w (passed_exn pv cv) cv)
            (mapless wv)
            fv
            t
  unfolding closure_return closure_assert_alienation
  hand_over s h child only pvalid free differ =
      let cvalid : is_valid cv.status ≡ true = ground (arith, child.returning) in
      let (a, b, d, s4, e1, e2, e3, e4, h4) =
        reduce_both s h pvalid cvalid (free, child.unlocked) only.left in
      let (x, y, z, t, e5, e6, e7, e8, h8) = unlink_both s4 h4 child only differ in
      (
        t,
        λ r u run. ground (
          arith, h.child, child.no_children, child.returning, child.in_no_deque, child.not_ours,
          child.no_callee, child.spawned, only.parent, child.no_views.0, child.no_views.1, e1, e2,
          e3, e4, e5, e6, e7, e8, run,
        ),
        h8,
      )
