-- ===== src/Scheduler/Views.antt =====
-- The second loop of `Closure_return` (runtime/scheduler.c) for a child without a left sibling: what it
-- leaves in the parent, the child and the worker.
use multicilk.Base.{
  ℕ, ◌≡◌, refl, subst, true, false, Bool-cases, inl, inr, Option, none, some, is_null, ◌&&◌, update,
  arith,
}
use multicilk.Runtime.{Closure, Worker, Frame, State, ok}
use multicilk.Closure.{is_valid}
use multicilk.Scheduler.{Services}
use multicilk.Scheduler.Loops.{merged, reduce_rmap-eq, ends-eq, goes_on-eq}
use multicilk.Scheduler.Pair.{
  Hold, owned, lock_parent-Hold, lock_child-Hold, unlock_parent-Hold, unlock_child-Hold,
}
use multicilk.Scheduler.Turns.{take_left_rmap, put_left_rmap, rmaps_turn, reduce_rmaps}

merged-alone :
    (join : Option ℕ → Option ℕ → Option ℕ) (l m r : Option ℕ)
    → (is_null l && is_null r) ≡ true
    → m ≡ merged join l m r
merged-alone join (some l) m r h = ground (arith, h)
merged-alone join none m none h = refl
merged-alone join none m (some r) h = ground (arith, h)

module _ ⦃services : Services⦄ (join : Option ℕ → Option ℕ → Option ℕ)
    (merges : (w : ℕ) (l r : Option ℕ) (s : State)
      → services.merge_two_rmaps w l r s ≡ ok (join l r) s)
    (p c w f : ℕ) where
  -- The slots of the second loop and the map of the worker are read and cleared.
  taken : State → State
  taken s =
      let a = update s.closures c (record (s.closures c) { right_rmap = none }) in
      record s {
        closures = update a p (record (a p) { child_rmap = none });
        workers = update s.workers w (record (s.workers w) { reducer_map = none });
      }

  taken-Hold :
      (pv cv : Closure) (wv : Worker) (fv : Frame) (s : State)
      → Hold p c w f pv cv wv fv s
      → Hold p c w f
          (record pv { child_rmap = none })
          (record cv { right_rmap = none })
          (record wv { reducer_map = none })
          fv
          (taken s)
  unfolding taken
  taken-Hold pv cv wv fv s h = record {
    apart = h.apart;
    parent = ground (arith, h.parent, h.apart);
    child = ground (arith, h.child, h.apart);
    worker = ground (arith, h.worker);
    frame = h.frame;
  }

  put_child_rmap : Option ℕ → State → State
  put_child_rmap m s = record s {
    closures = update s.closures p (record (s.closures p) { child_rmap = m });
  }

  rmap_last :
      (pv cv : Closure) (wv : Worker) (fv : Frame) (s : State)
      → Hold p c w f pv cv wv fv s
      → cv.left_sib ≡ none
      → (is_null pv.child_rmap && is_null cv.right_rmap) ≡ true
      → (t : State) × (rmaps_turn w p c s ≡ ok true t)
        × Hold p c w f
            (record pv { child_rmap = wv.reducer_map })
            (record cv { right_rmap = none })
            (record wv { reducer_map = none })
            fv
            t
  unfolding rmaps_turn take_left_rmap put_left_rmap taken put_child_rmap
  rmap_last pv cv wv fv s h alone both = (
    put_child_rmap (s.workers w).reducer_map (taken s),
    ground (arith, h.parent, h.child, h.worker, h.apart, alone, both),
    record {
      apart = h.apart;
      parent = ground (arith, h.parent, h.worker, h.apart);
      child = ground (arith, h.child, h.apart);
      worker = ground (arith, h.worker);
      frame = h.frame;
    },
  )

  set_map : Option ℕ → State → State
  set_map m s = record s { workers = update s.workers w (record (s.workers w) { reducer_map = m }) }

  set_map-Hold :
      (m : Option ℕ) (pv cv : Closure) (wv : Worker) (fv : Frame) (s : State)
      → Hold p c w f pv cv wv fv s
      → Hold p c w f pv cv (record wv { reducer_map = m }) fv (set_map m s)
  unfolding set_map
  set_map-Hold m pv cv wv fv s h = record {
    apart = h.apart;
    parent = h.parent;
    child = h.child;
    worker = ground (arith, h.worker);
    frame = h.frame;
  }

  rmap_merged :
      (pv cv : Closure) (wv : Worker) (fv : Frame) (s : State)
      → Hold p c w f (owned w pv) (owned w cv) wv fv s
      → is_valid pv.status ≡ true
      → is_valid cv.status ≡ true
      → cv.left_sib ≡ none
      → (is_null pv.child_rmap && is_null cv.right_rmap) ≡ false
      → (t : State) × (rmaps_turn w p c s ≡ ok false t)
        × Hold p c w f
            (owned w (record pv { child_rmap = none }))
            (owned w (record cv { right_rmap = none }))
            (record wv { reducer_map = merged join pv.child_rmap wv.reducer_map cv.right_rmap })
            fv
            t
  unfolding rmaps_turn take_left_rmap taken set_map
  rmap_merged pv cv wv fv s h pvalid cvalid alone some_map =
      let m = merged join pv.child_rmap wv.reducer_map cv.right_rmap in
      let h1 = taken-Hold (owned w pv) (owned w cv) wv fv s h in
      let (s2, e2, h2) = unlock_child-Hold p c w f _ _ _ fv (taken s) h1 cvalid refl in
      let (s3, e3, h3) = unlock_parent-Hold p c w f _ _ _ fv s2 h2 pvalid refl in
      let h4 = set_map-Hold m _ _ _ fv s3 h3 in
      let (s5, e5, h5) = lock_parent-Hold p c w f _ _ _ fv (set_map m s3) h4 pvalid refl in
      let (s6, e6, h6) = lock_child-Hold p c w f _ _ _ fv s5 h5 cvalid refl in
      (
        s6,
        ground (
          arith,
          h.parent,
          h.child,
          h.worker,
          h.apart,
          alone,
          some_map,
          e2,
          e3,
          reduce_rmap-eq join merges w pv.child_rmap wv.reducer_map cv.right_rmap s3,
          e5,
          e6,
        ),
        h6,
      )

  -- The second loop puts the map of the worker, between those of the two slots, in the slot of the
  -- parent.
  pub reduce_rmaps-Hold :
      (pv cv : Closure) (wv : Worker) (fv : Frame) (s : State)
      → Hold p c w f (owned w pv) (owned w cv) wv fv s
      → is_valid pv.status ≡ true
      → is_valid cv.status ≡ true
      → cv.left_sib ≡ none
      → let m = merged join pv.child_rmap wv.reducer_map cv.right_rmap in
        (t : State) × (reduce_rmaps 2 w p c s ≡ ok tt t)
        × Hold p c w f
            (owned w (record pv { child_rmap = m }))
            (owned w (record cv { right_rmap = none }))
            (record wv { reducer_map = none })
            fv
            t
  reduce_rmaps-Hold pv cv wv fv s h pvalid cvalid alone =
      elim (Bool-cases (is_null pv.child_rmap && is_null cv.right_rmap)) [
        | inl both ↦
            let (t, run, held) = rmap_last (owned w pv) (owned w cv) wv fv s h alone both in
            (
              t,
              ends-eq join merges 1 w p c s t run,
              subst
                  (λ m.
                    Hold p c w f (owned w (record pv { child_rmap = m }))
                      (owned w (record cv { right_rmap = none })) (record wv { reducer_map = none })
                      fv t)
                  (merged-alone join pv.child_rmap wv.reducer_map cv.right_rmap both) held,
            )
        | inr some_map ↦
            let (a, first, held) = rmap_merged pv cv wv fv s h pvalid cvalid alone some_map in
            let (t, last, held') = rmap_last _ _ _ fv a held alone refl in
            (
              t,
              goes_on-eq join merges 1 w p c s a t first (ends-eq join merges 0 w p c a t last),
              held',
            )
      ]
