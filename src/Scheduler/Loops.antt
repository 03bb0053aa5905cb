-- ===== src/Scheduler/Loops.antt =====
-- The second loop of `Closure_return` (runtime/scheduler.c) in a run in which no other worker moves.
use multicilk.Base.{ℕ, suc, ◌≡◌, refl, true, false, Option, none, some, is_null, ◌&&◌, arith}
use multicilk.Runtime.{State, ok}
use multicilk.Closure.Lock.{released}
use multicilk.Scheduler.{Services}
use multicilk.Scheduler.Turns.{take_left_rmap, put_left_rmap, reduce_rmap, rmaps_turn, reduce_rmaps}
use multicilk.Scheduler.Slots.{
  Held, Maps, put_slot, emptied, retaken, emptied-Held, emptied-Maps, retaken-Held, retaken-Maps,
  put_slot-Held, put_slot-Maps, relock-eq,
}

abbrev pub merged : (Option ℕ → Option ℕ → Option ℕ) → Option ℕ → Option ℕ → Option ℕ → Option ℕ
merged join none m none = m
merged join (some l) m none = join (some l) m
merged join none m (some r) = join m (some r)
merged join (some l) m (some r) = join (join (some l) m) (some r)

module _ ⦃services : Services⦄ (join : Option ℕ → Option ℕ → Option ℕ)
    (merges : (w : ℕ) (l r : Option ℕ) (s : State)
      → services.merge_two_rmaps w l r s ≡ ok (join l r) s) where
  pub reduce_rmap-eq :
      (w : ℕ) (l m r : Option ℕ) (s : State) → reduce_rmap w l m r s ≡ ok (merged join l m r) s
  unfolding reduce_rmap
  reduce_rmap-eq w none m none s = refl
  reduce_rmap-eq w (some l) m none s = ground (arith, merges w (some l) m s)
  reduce_rmap-eq w none m (some r) s = merges w m (some r) s
  reduce_rmap-eq w (some l) m (some r) s =
      ground (arith, merges w (some l) m s, merges w (join (some l) m) (some r) s)

  last_turn-eq :
      (w p c : ℕ) (left m : Option ℕ) (s : State)
      → Held w p c left s
      → Maps w p c left none none m s
      → rmaps_turn w p c s ≡ ok true (put_slot p left m (emptied w p c left s))
  unfolding rmaps_turn take_left_rmap put_left_rmap put_slot emptied
  last_turn-eq w p c none m s h k = ground (arith, h.sibling, k.left_slot, k.right_slot, k.active)
  last_turn-eq w p c (some x) m s h k =
      ground (arith, h.sibling, h.apart, k.left_slot, k.right_slot, k.active)

  merge_turn-eq :
      (w p c : ℕ) (left l r m : Option ℕ) (s : State)
      → Held w p c left s
      → Maps w p c left l r m s
      → (is_null l && is_null r) ≡ false
      → rmaps_turn w p c s ≡ ok false (retaken w p c (merged join l m r) (emptied w p c left s))
  unfolding rmaps_turn take_left_rmap emptied put_slot retaken
  merge_turn-eq w p c none l r m s h k some_map =
      let e = emptied w p c none s in
      let q = relock-eq w p c none (merged join l m r) e (emptied-Held w p c none s h) in
      ground (
        arith,
        h.sibling,
        k.left_slot,
        k.right_slot,
        k.active,
        q.0,
        q.1,
        q.2,
        q.3,
        reduce_rmap-eq w l m r (released p (released c e)),
      )
  merge_turn-eq w p c (some x) l r m s h k some_map =
      let e = emptied w p c (some x) s in
      let q = relock-eq w p c (some x) (merged join l m r) e (emptied-Held w p c (some x) s h) in
      ground (
        arith,
        h.sibling,
        h.apart,
        k.left_slot,
        k.right_slot,
        k.active,
        q.0,
        q.1,
        q.2,
        q.3,
        reduce_rmap-eq w l m r (released p (released c e)),
      )

  pub ends-eq :
      (n w p c : ℕ) (s t : State)
      → rmaps_turn w p c s ≡ ok true t
      → reduce_rmaps (suc n) w p c s ≡ ok tt t
  unfolding reduce_rmaps
  ends-eq n w p c s t e = ground (arith, e)

  pub goes_on-eq :
      (n w p c : ℕ) (s a t : State)
      → rmaps_turn w p c s ≡ ok false a
      → reduce_rmaps n w p c a ≡ ok tt t
      → reduce_rmaps (suc n) w p c s ≡ ok tt t
  unfolding reduce_rmaps
  goes_on-eq n w p c s a t e f = ground (arith, e, f)

  -- The last turn, and what it leaves.
  last_turn :
      (n w p c : ℕ) (left m : Option ℕ) (s : State)
      → Held w p c left s
      → Maps w p c left none none m s
      → (t : State) × (reduce_rmaps (suc n) w p c s ≡ ok tt t)
        × Held w p c left t
        × Maps w p c left m none none t
  last_turn n w p c left m s h k =
      let e = emptied w p c left s in
      (
        put_slot p left m e,
        ends-eq n w p c s (put_slot p left m e) (last_turn-eq w p c left m s h k),
        put_slot-Held w p c left m e (emptied-Held w p c left s h),
        put_slot-Maps w p c left none none none m e h.apart (emptied-Maps w p c left s h.apart),
      )

  two_turns :
      (w p c : ℕ) (left l r m : Option ℕ) (s : State)
      → Held w p c left s
      → Maps w p c left l r m s
      → (is_null l && is_null r) ≡ false
      → (t : State) × (reduce_rmaps 2 w p c s ≡ ok tt t)
        × Held w p c left t
        × Maps w p c left (merged join l m r) none none t
  two_turns w p c left l r m s h k some_map =
      let x = merged join l m r in
      let e = emptied w p c left s in
      let (t, run, held, left_in) =
        last_turn 0 w p c left x (retaken w p c x e)
          (retaken-Held w p c left x e (emptied-Held w p c left s h))
          (retaken-Maps w p c left none none none x e (emptied-Maps w p c left s h.apart)) in
      (
        t,
        goes_on-eq 1 w p c s (retaken w p c x e) t (merge_turn-eq w p c left l r m s h k some_map)
            run,
        held,
        left_in,
      )

  -- With the locks of the parent and of the child, and merges that succeed and keep the store, the
  -- second loop of `Closure_return` ends within two turns: the map of the worker, between those that the left and the right
  -- slot held, is in the left slot, the child's own slot and the worker are empty, and `w` still holds
  -- the locks of the parent and of the child.
  pub reduce_rmaps_ends :
      (w p c : ℕ) (left l r m : Option ℕ) (s : State)
      → Held w p c left s
      → Maps w p c left l r m s
      → (t : State) × (reduce_rmaps 2 w p c s ≡ ok tt t)
        × Held w p c left t
        × Maps w p c left (merged join l m r) none none t
  reduce_rmaps_ends w p c left none none m s h k = last_turn 1 w p c left m s h k
  reduce_rmaps_ends w p c left (some l) r m s h k = two_turns w p c left (some l) r m s h k refl
  reduce_rmaps_ends w p c left none (some r) m s h k =
      two_turns w p c left none (some r) m s h k refl
