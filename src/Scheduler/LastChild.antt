-- ===== src/Scheduler/LastChild.antt =====
-- A whole `Closure_return` (runtime/scheduler.c) of the only child left of its parent.
use multicilk.Base.{ℕ, ◌≡◌, ◌≢◌, refl, false, Option, none, some, is_null, ptr_eq, arith}
use multicilk.Runtime.{no_worker, Status, Closure, Worker, Frame, State, ok}
use multicilk.Closure.{closure_has_children}
use multicilk.Scheduler.{Services}
use multicilk.Scheduler.Good.{Waiting}
use multicilk.Scheduler.Joining.{kept}
use multicilk.Scheduler.Pair.{Hold, freed, unlock_parent-Hold}
use multicilk.Scheduler.Unlink.{left_fiber, OnlyChild}
use multicilk.Scheduler.GoOn.{
  one_less, decremented, decremented-Hold, ready_parent, stealing_worker, synced_frame,
  with_pending, joined_parent, steal-Hold, join_parent-Hold,
}
use multicilk.Scheduler.HandOver.{
  Returns, passed_exn, passed_map, gone_child, left_parent, mapless, hand_over,
}
use multicilk.Scheduler.Return.{resume_parent, closure_return}

-- The parent `pv` with the frame `f` is suspended at a sync with one child left, on the worker `wv`.
pub record AtLast (f : ℕ) (pv : Closure) (wv : Worker) (fv : Frame) : Type 0 where
  pub suspended : pv.status ≡ Status.suspended
  pub one_child : pv.join_counter ≡ 1
  pub no_callee : pv.has_cilk_callee ≡ false
  pub frame : pv.frame ≡ some f
  pub current : wv.current_stack_frame ≡ some f
  pub real : pv.simulated_stolen ≡ false
  pub placed : pv.owner_ready_deque ≡ no_worker
  pub poisoned : fv.worker ≡ none
  pub nothing_to_free : wv.fiber_to_free ≡ none
  pub no_steal : wv.provably_good_steal ≡ false

-- The parent has a fiber of a child, other than its own, to go on with.
pub record HasFiber (pv : Closure) : Type 0 where
  pub different : ptr_eq pv.fiber pv.fiber_child ≡ false
  pub there : is_null pv.fiber_child ≡ false

-- The parent goes on, and the child is gone.
pub record Joined (join : Option ℕ → Option ℕ → Option ℕ) (p c w f : ℕ) (s t : State) : Type 0 where
  pub ready : (t.closures p).status ≡ Status.ready
  pub no_children : ((t.closures p).join_counter ≡ 0) × ((t.closures p).right_most_child ≡ none)
  pub fiber : (t.closures p).fiber ≡ left_fiber (s.closures p).fiber_child (s.closures c).fiber
  pub old_fiber : (t.workers w).fiber_to_free ≡ (s.closures p).fiber
  pub exn :
      ((t.closures p).user_exn
        ≡ kept (passed_exn (s.closures p) (s.closures c)) (s.closures p).user_exn)
      × ((t.closures p).child_exn ≡ none)
  pub map :
      (t.workers w).reducer_map
      ≡ join (passed_map join (s.closures p) (s.closures c) (s.workers w)) (s.closures p).user_rmap
  pub slots : ((t.closures p).child_rmap ≡ none) × ((t.closures p).user_rmap ≡ none)
  pub frame :
      ((t.frames f).worker ≡ some w)
      × ((t.frames f).flags.unsynched ≡ false)
      × ((t.frames f).sp ≡ (s.closures p).orig_rsp)
  pub unlocked : ((t.closures p).locked ≡ false) × ((t.closures c).locked ≡ false)
  pub child_gone : (t.closures c).status ≡ Status.post_invalid

pending-fields :
    (e : Option ℕ) (u v : Frame)
    → v ≡ with_pending e u
    → (v.worker ≡ u.worker) × (v.flags.unsynched ≡ u.flags.unsynched) × (v.sp ≡ u.sp)
pending-fields none u v h = (ground (arith, h), ground (arith, h), ground (arith, h))
pending-fields (some e) u v h = (ground (arith, h), ground (arith, h), ground (arith, h))

-- The parent at the end.
abbrev gone_on : Closure → Closure
gone_on v = freed (joined_parent (ready_parent (one_less v)))

module _ ⦃services : Services⦄ (join : Option ℕ → Option ℕ → Option ℕ)
    (merges : (w : ℕ) (l r : Option ℕ) (s : State)
      → services.merge_two_rmaps w l r s ≡ ok (join l r) s)
    (deletes : (e : ℕ) (s : State) → services.delete_exception e s ≡ ok tt s) (p c w f : ℕ) where
  Hold-Waiting :
      (pv cv : Closure) (wv : Worker) (fv : Frame) (s : State)
      → Hold p c w f (one_less pv) cv wv fv s
      → AtLast f pv wv fv
      → HasFiber pv
      → Waiting w p f s
  Hold-Waiting pv cv wv fv s h last fibers = record {
    can = record {
      frame = ground (arith, h.parent, last.frame);
      current = ground (arith, h.worker, last.current);
      real = ground (arith, h.parent, last.real);
      nothing_to_free = ground (arith, h.worker, last.nothing_to_free);
      fibers = ground (arith, h.parent, fibers.different);
      stack = ground (arith, h.parent, fibers.there);
    };
    poisoned = ground (arith, h.frame, last.poisoned);
    placed = ground (arith, h.parent, last.placed);
  }

  resume_parent-Hold :
      (pv cv : Closure) (wv : Worker) (fv : Frame) (s : State)
      → Hold p c w f pv cv wv fv s
      → pv.mutex_owner ≡ w
      → AtLast f pv wv fv
      → HasFiber pv
      → wv.reducer_map ≡ none
      → (t : State) × (resume_parent w p s ≡ ok (some p) t)
        × Hold p c w f
            (gone_on pv)
            cv
            (record (stealing_worker pv.fiber wv) { reducer_map = join pv.child_rmap pv.user_rmap })
            (with_pending pv.child_exn (synced_frame w pv.orig_rsp fv))
            t
  unfolding resume_parent decremented closure_has_children
  resume_parent-Hold pv cv wv fv s h own last fibers idle =
      let h1 = decremented-Hold p c w f pv cv wv fv s h in
      let (s2, e2, h2) =
        steal-Hold p c w f (one_less pv) cv wv fv (decremented p c w f s) h1 own last.no_steal
          (ground (arith, last.one_child, last.no_callee, last.suspended))
          (Hold-Waiting pv cv wv fv (decremented p c w f s) h1 last fibers) in
      let (s3, e3, h3) =
        join_parent-Hold join merges deletes p c w f _ _ _ _ s2 h2 last.frame last.real idle in
      let (s4, e4, h4) = unlock_parent-Hold p c w f _ _ _ _ s3 h3 refl own in
      (
        s4,
        ground (arith, h.parent, last.suspended, last.frame, last.one_child, last.real, e2, e3, e4),
        h4,
      )

module _ ⦃services : Services⦄ (join : Option ℕ → Option ℕ → Option ℕ)
    (merges : (w : ℕ) (l r : Option ℕ) (s : State)
      → services.merge_two_rmaps w l r s ≡ ok (join l r) s)
    (deletes : (e : ℕ) (s : State) → services.delete_exception e s ≡ ok tt s)
    (deallocates : (w : ℕ) (fiber : Option ℕ) (s : State)
      → services.deallocate_fiber w fiber s ≡ ok tt s) where
  -- Where merges, deletions and deallocations succeed, Closure_return of the only child left of a parent
  -- that is suspended at a sync, with both locks free, fails no assertion and gives the parent: ready and
  -- synced on the fiber of its leftmost child, with no children, with the map of the child, joined on the
  -- left of its own, in the worker, and with the first exception from the left. The child is gone, and
  -- both locks are released.
  pub last_child_joins :
      (p c w f : ℕ) (s : State)
      → p ≢ c
      → Returns w (s.closures c)
      → OnlyChild p c (s.closures p) (s.closures c)
      → (s.closures p).locked ≡ false
      → AtLast f (s.closures p) (s.workers w) (s.frames f)
      → HasFiber (record (s.closures p) {
        fiber_child = left_fiber (s.closures p).fiber_child (s.closures c).fiber;
      })
      → ptr_eq (s.closures p).fiber_child (s.closures c).fiber ≡ false
      → (t : State) × (closure_return w c s ≡ ok (some p) t) × Joined join p c w f s t
  last_child_joins p c w f s apart child only free last fibers differ =
      let pv = s.closures p in
      let cv = s.closures c in
      let wv = s.workers w in
      let fv = s.frames f in
      let h0 : Hold p c w f pv cv wv fv s = record {
        apart = apart;
        parent = refl;
        child = refl;
        worker = refl;
        frame = refl;
      } in
      let e = passed_exn pv cv in
      let m = passed_map join pv cv wv in
      let (a, goes_on, h) =
        hand_over join merges deletes deallocates p c w f pv cv wv fv s h0 child only
          (ground (arith, last.suspended)) free differ in
      let (t, run, k) =
        resume_parent-Hold join merges deletes p c w f (left_parent w e m cv.fiber pv)
          (gone_child w e cv) (mapless wv) fv a h refl
          (record {
            suspended = last.suspended;
            one_child = last.one_child;
            no_callee = last.no_callee;
            frame = last.frame;
            current = last.current;
            real = last.real;
            placed = last.placed;
            poisoned = last.poisoned;
            nothing_to_free = last.nothing_to_free;
            no_steal = last.no_steal;
          })
          (record { different = fibers.different; there = fibers.there }) refl in
      (
        t,
        goes_on (some p) t run,
        record {
          ready = ground (arith, k.parent);
          no_children = (ground (arith, k.parent, last.one_child), ground (arith, k.parent));
          fiber = ground (arith, k.parent);
          old_fiber = ground (arith, k.worker);
          exn = (ground (arith, k.parent), ground (arith, k.parent));
          map = ground (arith, k.worker);
          slots = (ground (arith, k.parent), ground (arith, k.parent));
          frame = pending-fields e (synced_frame w pv.orig_rsp fv) (t.frames f) k.frame;
          unlocked = (ground (arith, k.parent), ground (arith, k.child));
          child_gone = ground (arith, k.child);
        },
      )
