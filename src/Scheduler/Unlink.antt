-- ===== src/Scheduler/Unlink.antt =====
-- `Closure_return` (runtime/scheduler.c) after its loops, for a child without siblings: the fiber, the
-- list of the children, and the end of the child.
use multicilk.Base.{ℕ, ◌≡◌, refl, true, false, Option, none, some, ptr_eq, update, arith}
use multicilk.Runtime.{Status, Closure, Worker, Frame, State, ok}
use multicilk.Closure.{
  is_valid, closure_checkmagic, closure_assert_ownership, closure_remove_child, unlink_child,
}
use multicilk.Closure.Callee.{closure_clean, closure_destroy}
use multicilk.Scheduler.{Services}
use multicilk.Scheduler.Pair.{Hold, owned}
use multicilk.Scheduler.Return.{pass_fiber}

-- The parent keeps the fiber of its leftmost child.
abbrev pub left_fiber : Option ℕ → Option ℕ → Option ℕ
left_fiber none fiber = fiber
left_fiber (some l) fiber = some l

module _ ⦃services : Services⦄
    (deallocates : (w : ℕ) (fiber : Option ℕ) (s : State)
      → services.deallocate_fiber w fiber s ≡ ok tt s)
    (p c w f : ℕ) where
  without_fiber : State → State
  without_fiber s = record s {
    closures = update s.closures c (record (s.closures c) { fiber = none });
  }

  with_child : Option ℕ → State → State
  with_child fiber s = record s {
    closures = update s.closures p (record (s.closures p) { fiber_child = fiber });
  }

  fiber_run :
      (l : Option ℕ) (pv cv : Closure) (wv : Worker) (fv : Frame) (s : State)
      → Hold p c w f pv cv wv fv s
      → cv.left_sib ≡ none
      → pv.fiber_child ≡ l
      → ptr_eq pv.fiber_child cv.fiber ≡ false
      → (t : State) × (pass_fiber w p c s ≡ ok tt t)
        × Hold p c w f
            (record pv { fiber_child = left_fiber l cv.fiber })
            (record cv { fiber = none })
            wv
            fv
            t
  unfolding pass_fiber without_fiber with_child
  fiber_run none pv cv wv fv s h alone e ne = (
    without_fiber (with_child cv.fiber s),
    ground (arith, h.parent, h.child, h.apart, alone, e),
    record {
      apart = h.apart;
      parent = ground (arith, h.parent, h.apart);
      child = ground (arith, h.child, h.apart);
      worker = h.worker;
      frame = h.frame;
    },
  )
  fiber_run (some l) pv cv wv fv s h alone e ne = (
    without_fiber s,
    ground (arith, h.parent, h.child, h.apart, alone, e, ne, deallocates w cv.fiber s),
    record {
      apart = h.apart;
      parent = ground (arith, h.parent, h.apart, e);
      child = ground (arith, h.child, h.apart);
      worker = h.worker;
      frame = h.frame;
    },
  )

  pub pass_fiber-Hold :
      (pv cv : Closure) (wv : Worker) (fv : Frame) (s : State)
      → Hold p c w f pv cv wv fv s
      → cv.left_sib ≡ none
      → ptr_eq pv.fiber_child cv.fiber ≡ false
      → (t : State) × (pass_fiber w p c s ≡ ok tt t)
        × Hold p c w f
            (record pv { fiber_child = left_fiber pv.fiber_child cv.fiber })
            (record cv { fiber = none })
            wv
            fv
            t
  pass_fiber-Hold pv cv wv fv s h alone ne = fiber_run pv.fiber_child pv cv wv fv s h alone refl ne

-- An only child.
pub record OnlyChild (p c : ℕ) (pv cv : Closure) : Type 0 where
  pub parent : cv.spawn_parent ≡ some p
  pub last : pv.right_most_child ≡ some c
  pub left : cv.left_sib ≡ none
  pub right : cv.right_sib ≡ none

module _ (p c w f : ℕ) where
  unlinked : State → State
  unlinked s =
      let a = update s.closures p (record (s.closures p) { right_most_child = none }) in
      record s { closures = update a c (record (a c) { left_sib = none; right_sib = none }) }

  pub remove_child-Hold :
      (pv cv : Closure) (wv : Worker) (fv : Frame) (s : State)
      → Hold p c w f (owned w pv) (owned w cv) wv fv s
      → OnlyChild p c pv cv
      → cv.right_rmap ≡ none
      → (t : State) × (closure_remove_child w p c s ≡ ok tt t)
        × Hold p c w f
            (owned w (record pv { right_most_child = none }))
            (owned w (record cv { left_sib = none; right_sib = none }))
            wv
            fv
            t
  unfolding closure_remove_child unlink_child closure_assert_ownership unlinked
  remove_child-Hold pv cv wv fv s h only reduced = (
    unlinked s,
    ground
        (arith, h.parent, h.child, h.apart, only.parent, only.last, only.left, only.right, reduced),
    record {
      apart = h.apart;
      parent = ground (arith, h.parent, h.apart);
      child = ground (arith, h.child, h.apart);
      worker = h.worker;
      frame = h.frame;
    },
  )

  destroyed : State → State
  destroyed s = record s {
    closures = update s.closures c (record (s.closures c) { status = Status.post_invalid });
  }

  -- A closure that nobody waits for, alone and without views, can be destroyed.
  pub destroy-Hold :
      (pv cv : Closure) (wv : Worker) (fv : Frame) (s : State)
      → Hold p c w f pv cv wv fv s
      → is_valid cv.status ≡ true
      → cv.lock_wait ≡ false
      → (cv.left_sib ≡ none) × (cv.right_sib ≡ none) × (cv.right_most_child ≡ none)
      → (cv.user_rmap ≡ none) × (cv.child_rmap ≡ none) × (cv.right_rmap ≡ none)
      → (t : State) × (closure_destroy c s ≡ ok tt t)
        × Hold p c w f pv (record cv { status = Status.post_invalid }) wv fv t
  unfolding closure_destroy closure_clean closure_checkmagic destroyed
  destroy-Hold pv cv wv fv s h valid free (l, r, m) (u, k, x) = (
    destroyed s,
    ground (arith, h.child, valid, free, l, r, m, u, k, x),
    record {
      apart = h.apart;
      parent = ground (arith, h.parent, h.apart);
      child = ground (arith, h.child);
      worker = h.worker;
      frame = h.frame;
    },
  )
