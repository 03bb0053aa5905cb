-- ===== src/Scheduler/GoOn.antt =====
-- The end of `Closure_return` (runtime/scheduler.c) where the parent goes on: the steal, and the
-- exceptions and maps of the parent and its children.
use multicilk.Base.{
  ℕ, ◌-◌, ◌≡◌, ◌∙◌, refl, true, false, inl, inr, Option, none, some, update, arith,
}
use multicilk.Runtime.{Status, Closure, Worker, Frame, State, ok}
use multicilk.Scheduler.{Services}
use multicilk.Scheduler.Good.{may_go_on, Waiting, marked, synced, made_ready, steal-eq, maybe-eq}
use multicilk.Scheduler.Resume.{provably_good_steal_maybe}
use multicilk.Scheduler.Joining.{kept}
use multicilk.Scheduler.Pair.{Hold}
use multicilk.Scheduler.Exceptions.{delete-eq}
use multicilk.Scheduler.Return.{join_parent}

-- The parent with one child less.
abbrev pub one_less : Closure → Closure
one_less v = record v { join_counter = v.join_counter - 1 }

-- The parent after the steal, with its frame and the worker.
abbrev pub ready_parent : Closure → Closure
ready_parent v = record v {
  fiber = v.fiber_child;
  fiber_child = none;
  orig_rsp = none;
  status = Status.ready;
}

abbrev pub stealing_worker : Option ℕ → Worker → Worker
stealing_worker fiber v = record v { provably_good_steal = true; fiber_to_free = fiber }

abbrev pub synced_frame : ℕ → Option ℕ → Frame → Frame
synced_frame w sp v = record v {
  flags = record v.flags { unsynched = false };
  sp = sp;
  worker = some w;
}

-- The frame of a parent that an exception of its children reaches.
abbrev pub with_pending : Option ℕ → Frame → Frame
with_pending none v = v
with_pending (some e) v = record v { flags = record v.flags { exception_pending = true } }

-- The parent when its exceptions and maps are put together.
abbrev pub joined_parent : Closure → Closure
joined_parent v = record v {
  child_exn = none;
  user_exn = kept v.child_exn v.user_exn;
  child_rmap = none;
  user_rmap = none;
}

module _ (p c w f : ℕ) where
  unfoldable pub decremented : State → State
  decremented s = record s { closures = update s.closures p (one_less (s.closures p)) }

  pub decremented-Hold :
      (pv cv : Closure) (wv : Worker) (fv : Frame) (s : State)
      → Hold p c w f pv cv wv fv s
      → Hold p c w f (one_less pv) cv wv fv (decremented s)
  unfolding decremented
  decremented-Hold pv cv wv fv s h = record {
    apart = h.apart;
    parent = ground (arith, h.parent);
    child = ground (arith, h.child, h.apart);
    worker = h.worker;
    frame = h.frame;
  }

  pub steal-Hold :
      (pv cv : Closure) (wv : Worker) (fv : Frame) (s : State)
      → Hold p c w f pv cv wv fv s
      → pv.mutex_owner ≡ w
      → wv.provably_good_steal ≡ false
      → may_go_on pv ≡ true
      → Waiting w p f s
      → (t : State) × (provably_good_steal_maybe w p s ≡ ok (some p) t)
        × Hold p c w f
            (ready_parent pv)
            cv
            (stealing_worker pv.fiber wv)
            (synced_frame w pv.orig_rsp fv)
            t
  unfolding made_ready synced marked
  steal-Hold pv cv wv fv s h own off may waiting =
      let own' : (s.closures p).mutex_owner ≡ w = ground (arith, h.parent, own) in
      let off' : (s.workers w).provably_good_steal ≡ false = ground (arith, h.worker, off) in
      (
        made_ready p (synced w p f (marked w s)),
        elim (maybe-eq w p s own' off') [
          | inl (e, run) ↦ run ∙ steal-eq w p f s own' waiting
          | inr (e, run) ↦ absurd (ground (arith, e, h.parent, may))
        ],
        record {
          apart = h.apart;
          parent = ground (arith, h.parent);
          child = ground (arith, h.child, h.apart);
          worker = ground (arith, h.worker, h.parent);
          frame = ground (arith, h.frame, h.parent);
        },
      )

module _ ⦃services : Services⦄ (join : Option ℕ → Option ℕ → Option ℕ)
    (merges : (w : ℕ) (l r : Option ℕ) (s : State)
      → services.merge_two_rmaps w l r s ≡ ok (join l r) s)
    (deletes : (e : ℕ) (s : State) → services.delete_exception e s ≡ ok tt s) (p c w f : ℕ) where
  exns_cleared : State → State
  exns_cleared s = record s {
    closures = update s.closures p (record (s.closures p) { child_exn = none; user_exn = none });
  }

  -- The exceptions of the parent are put together.
  exn_joined : Option ℕ → State → State
  exn_joined e s =
      let a = exns_cleared s in
      elim e [
        | none ↦ record a {
          closures =
              update a.closures p (record (a.closures p) { user_exn = (s.closures p).user_exn });
        }
        | some x ↦ record a {
          closures = update a.closures p (record (a.closures p) { user_exn = some x });
          frames = update a.frames f (record (a.frames f) {
            flags = record (a.frames f).flags { exception_pending = true };
          });
        }
      ]

  rmaps_cleared : State → State
  rmaps_cleared s = record s {
    closures = update s.closures p (record (s.closures p) { child_rmap = none; user_rmap = none });
  }

  map_set : Option ℕ → State → State
  map_set m s = record s { workers = update s.workers w (record (s.workers w) { reducer_map = m }) }

  join_run :
      (e : Option ℕ) (pv cv : Closure) (wv : Worker) (fv : Frame) (s : State)
      → Hold p c w f pv cv wv fv s
      → pv.child_exn ≡ e
      → pv.frame ≡ some f
      → pv.simulated_stolen ≡ false
      → wv.reducer_map ≡ none
      → (t : State) × (join_parent w p s ≡ ok tt t)
        × Hold p c w f
            (joined_parent pv)
            cv
            (record wv { reducer_map = join pv.child_rmap pv.user_rmap })
            (with_pending e fv)
            t
  unfolding join_parent exns_cleared exn_joined rmaps_cleared map_set
  join_run none pv cv wv fv s h ex fr real idle =
      let a = rmaps_cleared (exn_joined none s) in
      let m = join pv.child_rmap pv.user_rmap in
      (
        map_set m a,
        ground
            (arith, h.parent, h.worker, ex, fr, real, idle, merges w pv.child_rmap pv.user_rmap a),
        record {
          apart = h.apart;
          parent = ground (arith, h.parent, ex);
          child = ground (arith, h.child, h.apart);
          worker = ground (arith, h.worker);
          frame = ground (arith, h.frame);
        },
      )
  join_run (some x) pv cv wv fv s h ex fr real idle =
      let a = rmaps_cleared (exn_joined (some x) s) in
      let m = join pv.child_rmap pv.user_rmap in
      (
        map_set m a,
        ground (
          arith,
          h.parent,
          h.worker,
          ex,
          fr,
          real,
          idle,
          delete-eq deletes p c w f pv.user_exn (exns_cleared s),
          merges w pv.child_rmap pv.user_rmap a,
        ),
        record {
          apart = h.apart;
          parent = ground (arith, h.parent, ex);
          child = ground (arith, h.child, h.apart);
          worker = ground (arith, h.worker);
          frame = ground (arith, h.frame);
        },
      )

  pub join_parent-Hold :
      (pv cv : Closure) (wv : Worker) (fv : Frame) (s : State)
      → Hold p c w f pv cv wv fv s
      → pv.frame ≡ some f
      → pv.simulated_stolen ≡ false
      → wv.reducer_map ≡ none
      → (t : State) × (join_parent w p s ≡ ok tt t)
        × Hold p c w f
            (joined_parent pv)
            cv
            (record wv { reducer_map = join pv.child_rmap pv.user_rmap })
            (with_pending pv.child_exn fv)
            t
  join_parent-Hold pv cv wv fv s h fr real idle =
      join_run pv.child_exn pv cv wv fv s h refl fr real idle
