-- ===== src/Scheduler/Exceptions.antt =====
-- The first loop of `Closure_return` (runtime/scheduler.c) for a child without a left sibling, whose left
-- slot is that of its parent: what it leaves in the parent and the child.
use multicilk.Base.{
  ℕ, suc, ◌≡◌, refl, subst, true, false, Bool-cases, inl, inr, Option, none, some, is_null, ◌&&◌,
  update, arith,
}
use multicilk.Runtime.{Closure, Worker, Frame, State, ok}
use multicilk.Closure.{is_valid}
use multicilk.Scheduler.{Services}
use multicilk.Scheduler.Pair.{
  Hold, owned, lock_parent-Hold, lock_child-Hold, unlock_parent-Hold, unlock_child-Hold,
}
use multicilk.Scheduler.Turns.{
  take_left_exn, put_left_exn, delete_if, reduce_exn, exceptions_turn, reduce_exceptions,
}

-- The exception that is kept: the first one from the left.
abbrev pub first_exn : Option ℕ → Option ℕ → Option ℕ → Option ℕ
first_exn (some l) user right = some l
first_exn none (some u) right = some u
first_exn none none right = right

first_exn-alone : (l u r : Option ℕ) → (is_null l && is_null r) ≡ true → u ≡ first_exn l u r
first_exn-alone (some l) u r h = ground (arith, h)
first_exn-alone none (some u) r h = refl
first_exn-alone none none none h = refl
first_exn-alone none none (some r) h = ground (arith, h)

module _ ⦃services : Services⦄
    (deletes : (e : ℕ) (s : State) → services.delete_exception e s ≡ ok tt s) (p c w f : ℕ) where
  pub delete-eq : (e : Option ℕ) (s : State) → delete_if e s ≡ ok tt s
  unfolding delete_if
  delete-eq none s = refl
  delete-eq (some e) s = deletes e s

  reduce_exn-eq : (l u r : Option ℕ) (s : State) → reduce_exn l u r s ≡ ok (first_exn l u r) s
  unfolding reduce_exn
  reduce_exn-eq (some l) u r s = ground (arith, delete-eq u s, delete-eq r s)
  reduce_exn-eq none (some u) r s = ground (arith, delete-eq r s)
  reduce_exn-eq none none r s = refl

  -- The slots are read and cleared.
  cleared : State → State
  cleared s =
      let a = update s.closures c (record (s.closures c) { right_exn = none }) in
      record s { closures = update a p (record (a p) { child_exn = none }) }

  cleared-Hold :
      (pv cv : Closure) (wv : Worker) (fv : Frame) (s : State)
      → Hold p c w f pv cv wv fv s
      → Hold p c w f
          (record pv { child_exn = none })
          (record cv { right_exn = none })
          wv
          fv
          (cleared s)
  unfolding cleared
  cleared-Hold pv cv wv fv s h = record {
    apart = h.apart;
    parent = ground (arith, h.parent, h.apart);
    child = ground (arith, h.child, h.apart);
    worker = h.worker;
    frame = h.frame;
  }

  deposited : Option ℕ → State → State
  deposited e s = record s {
    closures = update s.closures p (record (s.closures p) { child_exn = e });
  }

  -- The last turn.
  exn_last :
      (pv cv : Closure) (wv : Worker) (fv : Frame) (s : State)
      → Hold p c w f pv cv wv fv s
      → cv.left_sib ≡ none
      → (is_null pv.child_exn && is_null cv.right_exn) ≡ true
      → (t : State) × (exceptions_turn w p c s ≡ ok true t)
        × Hold p c w f
            (record pv { child_exn = cv.user_exn })
            (record cv { right_exn = none })
            wv
            fv
            t
  unfolding exceptions_turn take_left_exn put_left_exn cleared deposited
  exn_last pv cv wv fv s h alone both = (
    deposited (s.closures c).user_exn (cleared s),
    ground (arith, h.parent, h.child, h.apart, alone, both),
    record {
      apart = h.apart;
      parent = ground (arith, h.parent, h.child, h.apart);
      child = ground (arith, h.child, h.apart);
      worker = h.worker;
      frame = h.frame;
    },
  )

  set_user : Option ℕ → State → State
  set_user e s = record s {
    closures = update s.closures c (record (s.closures c) { user_exn = e });
  }

  set_user-Hold :
      (e : Option ℕ) (pv cv : Closure) (wv : Worker) (fv : Frame) (s : State)
      → Hold p c w f pv cv wv fv s
      → Hold p c w f pv (record cv { user_exn = e }) wv fv (set_user e s)
  unfolding set_user
  set_user-Hold e pv cv wv fv s h = record {
    apart = h.apart;
    parent = ground (arith, h.parent, h.apart);
    child = ground (arith, h.child);
    worker = h.worker;
    frame = h.frame;
  }

  -- A turn that reduces exceptions.
  exn_reduced :
      (pv cv : Closure) (wv : Worker) (fv : Frame) (s : State)
      → Hold p c w f (owned w pv) (owned w cv) wv fv s
      → is_valid pv.status ≡ true
      → is_valid cv.status ≡ true
      → cv.left_sib ≡ none
      → (is_null pv.child_exn && is_null cv.right_exn) ≡ false
      → (t : State) × (exceptions_turn w p c s ≡ ok false t)
        × Hold p c w f
            (owned w (record pv { child_exn = none }))
            (owned w (record cv {
              right_exn = none;
              user_exn = first_exn pv.child_exn cv.user_exn cv.right_exn;
            }))
            wv
            fv
            t
  unfolding exceptions_turn take_left_exn cleared set_user
  exn_reduced pv cv wv fv s h pvalid cvalid alone some_exn =
      let e = first_exn pv.child_exn cv.user_exn cv.right_exn in
      let h1 = cleared-Hold (owned w pv) (owned w cv) wv fv s h in
      let (s2, e2, h2) = unlock_child-Hold p c w f _ _ wv fv (cleared s) h1 cvalid refl in
      let (s3, e3, h3) = unlock_parent-Hold p c w f _ _ wv fv s2 h2 pvalid refl in
      let h4 = set_user-Hold e _ _ wv fv s3 h3 in
      let (s5, e5, h5) = lock_parent-Hold p c w f _ _ wv fv (set_user e s3) h4 pvalid refl in
      let (s6, e6, h6) = lock_child-Hold p c w f _ _ wv fv s5 h5 cvalid refl in
      (
        s6,
        ground (
          arith,
          h.parent,
          h.child,
          h.apart,
          alone,
          some_exn,
          e2,
          e3,
          reduce_exn-eq pv.child_exn cv.user_exn cv.right_exn s3,
          e5,
          e6,
        ),
        h6,
      )

  exn_over :
      (n : ℕ) (s t : State)
      → exceptions_turn w p c s ≡ ok true t
      → reduce_exceptions (suc n) w p c s ≡ ok tt t
  unfolding reduce_exceptions
  exn_over n s t e = ground (arith, e)

  exn_again :
      (n : ℕ) (s a t : State)
      → exceptions_turn w p c s ≡ ok false a
      → reduce_exceptions n w p c a ≡ ok tt t
      → reduce_exceptions (suc n) w p c s ≡ ok tt t
  unfolding reduce_exceptions
  exn_again n s a t e g = ground (arith, e, g)

  -- The first loop puts the first exception from the left in the slot of the parent.
  pub reduce_exceptions-Hold :
      (pv cv : Closure) (wv : Worker) (fv : Frame) (s : State)
      → Hold p c w f (owned w pv) (owned w cv) wv fv s
      → is_valid pv.status ≡ true
      → is_valid cv.status ≡ true
      → cv.left_sib ≡ none
      → let e = first_exn pv.child_exn cv.user_exn cv.right_exn in
        (t : State) × (reduce_exceptions 2 w p c s ≡ ok tt t)
        × Hold p c w f
            (owned w (record pv { child_exn = e }))
            (owned w (record cv { right_exn = none; user_exn = e }))
            wv
            fv
            t
  reduce_exceptions-Hold pv cv wv fv s h pvalid cvalid alone =
      elim (Bool-cases (is_null pv.child_exn && is_null cv.right_exn)) [
        | inl both ↦
            let (t, run, held) = exn_last (owned w pv) (owned w cv) wv fv s h alone both in
            (
              t,
              exn_over 1 s t run,
              subst
                  (λ e.
                    Hold p c w f (owned w (record pv { child_exn = e }))
                      (owned w (record cv { right_exn = none; user_exn = e })) wv fv t)
                  (first_exn-alone pv.child_exn cv.user_exn cv.right_exn both) held,
            )
        | inr some_exn ↦
            let (a, first, held) = exn_reduced pv cv wv fv s h pvalid cvalid alone some_exn in
            let (t, last, held') = exn_last _ _ wv fv a held alone refl in
            (t, exn_again 1 s a t first (exn_over 0 a t last), held')
      ]
