-- ===== src/Scheduler/Run.antt =====
-- The end of runtime/scheduler.c: the jump into user code, `Cilk_sync`, and the loop of a worker.
use multicilk.Base.{
  ℕ, ◌*◌, ◌%◌, Bool, true, false, ◌||◌, ◌&&◌, not, Option, none, some, ◌==◌, is_null, ptr_eq,
}
use multicilk.Runtime.{
  Status, status_eq, WorkerState, ok, M, pure, ◌>>=◌, ◌>>◌, check, branch, null_or, get_closure,
  get_worker, get_frame, get_root, deref, modify_closure, modify_frame, modify_worker,
}
use multicilk.Deque.{
  deque_lock_self, deque_unlock_self, deque_peek_bottom, deque_xtract_bottom, deque_add_bottom,
}
use multicilk.Closure.{
  closure_lock, closure_unlock, closure_at_top_of_stack, closure_has_children, crash,
}
use multicilk.Closure.Callee.{closure_suspend}
use multicilk.Scheduler.{
  Services, rts_rand, rts_srand, state_eq, worker_change_state, setup_for_execution, setup_for_sync,
}
use multicilk.Scheduler.Return.{return_value}
use multicilk.Scheduler.Turns.{delete_if}
use multicilk.Scheduler.Steal.{closure_steal}

-- `w->g->root_closure_initialized`, `w->g->done` and `w->g->nworkers`
abbrev root_initialized : M Bool
root_initialized s = ok s.root_closure_initialized s

abbrev set_root_initialized : M (Unit {0})
set_root_initialized s = ok tt (record s { root_closure_initialized = true })

abbrev is_done : M Bool
is_done s = ok s.done s

abbrev get_nworkers : M ℕ
get_nworkers s = ok s.nworkers s

-- SYNC_READY and SYNC_NOT_READY
pub data Sync : Type 0 where
  sync_ready sync_not_ready : Sync

-- Where the loop of a worker stands: at its head with `t`, in the steal loop, after it, in the user
-- code that `do_what_it_says` jumped into, or at its end.
pub data Place : Type 0 where
  top : (t : Option ℕ) → Place
  stealing : Place
  found : (t : Option ℕ) → Place
  user_code : Place
  stopped : Place

-- The assertions of `Cilk_sync`, with both locks held.
unfoldable pub sync_asserts : ℕ → ℕ → ℕ → M (Unit {0})
sync_asserts w t frame = do
  at_top ← closure_at_top_of_stack w
  check at_top
  c ← get_closure t
  check (not c.simulated_stolen || not (closure_has_children c))
  check (status_eq c.status Status.running)
  check (ptr_eq c.frame (some frame))
  v ← get_frame frame
  check (ptr_eq v.worker (some w))
  check v.flags.stolen
  check (not c.has_cilk_callee)
  check (is_null c.user_rmap)

-- `worker_scheduler` up to its loop.
pub start_scheduler : ℕ → Option ℕ → M Place
start_scheduler w t = do
  rts_srand w (w * 162347)
  worker_change_state w WorkerState.sched
  pure (top t)

pub from_local_queue : ℕ → M Place
from_local_queue w = do
  deque_lock_self w
  t ← deque_xtract_bottom w w
  deque_unlock_self w
  null_or t (do v ← get_worker w; check (is_null v.reducer_map); pure stealing)
      λ c. pure (found (some c))

module _ ⦃services : Services⦄ where
  -- The stack of a frame that is resumed where it stands, after a provably good steal.
  pub resume_synced : ℕ → ℕ → M (Unit {0})
  resume_synced w t = do
    c ← get_closure t
    f ← deref c.frame
    v ← get_frame f
    branch v.flags.excepting (pure tt) (do
      check (is_null c.orig_rsp)
      check (v.flags.last || services.in_fiber c.fiber v.fp)
      check (services.in_fiber c.fiber v.sp))
    modify_frame f λ u. record u { flags = record u.flags { excepting = false } }
    modify_worker w λ u. record u { provably_good_steal = false }

  -- The stack of stolen work, or of the root closure that starts.
  pub resume_stolen : ℕ → M (Unit {0})
  resume_stolen t = do
    c ← get_closure t
    f ← deref c.frame
    root ← get_root
    started ← root_initialized
    branch (ptr_eq (some t) root && not started) set_root_initialized (
        branch c.simulated_stolen (pure tt) (do
          new_rsp ← services.reset_stack c.fiber f
          v ← get_frame f
          check (ptr_eq v.sp new_rsp)))

  -- `longjmp_to_user_code` up to its jump.
  pub longjmp_to_user_code : ℕ → ℕ → M (Unit {0})
  longjmp_to_user_code w t = do
    v ← get_worker w
    check (state_eq v.state WorkerState.run)
    c ← get_closure t
    check (
        (not (is_null c.frame) && not (is_null c.fiber)) || (c.simulated_stolen && is_null c.fiber))
    branch v.provably_good_steal (resume_synced w t) (resume_stolen t)

  -- The branch of `Cilk_sync` in which the closure has children.
  unfoldable pub sync_suspend : ℕ → ℕ → M (Unit {0})
  sync_suspend w t = do
    c ← get_closure t
    null_or c.user_exn (modify_worker w λ v. record v { fiber_to_free = c.fiber })
        λ _. modify_closure t λ d. record d { saved_throwing_fiber = c.fiber }
    modify_closure t λ d. record d { fiber = none }
    v ← get_worker w
    modify_worker w λ u. record u { reducer_map = none }
    closure_suspend w t
    modify_closure t λ d. record d { user_rmap = v.reducer_map }

  -- The exception of the children takes the place of the closure's own.
  unfoldable pub join_exn : ℕ → ℕ → M (Unit {0})
  join_exn t frame = do
    c ← get_closure t
    null_or c.child_exn (pure tt) λ e. do
      delete_if c.user_exn
      modify_closure t λ d. record d { user_exn = some e; child_exn = none }
      modify_frame frame λ v. record v { flags = record v.flags { exception_pending = true } }

  -- The map of the children is joined with that of the worker.
  unfoldable pub join_rmap : ℕ → ℕ → M (Unit {0})
  join_rmap w t = do
    c ← get_closure t
    null_or c.child_rmap (pure tt) λ m. do
      modify_closure t λ d. record d { child_rmap = none }
      v ← get_worker w
      joined ← services.merge_two_rmaps w (some m) v.reducer_map
      modify_worker w λ u. record u { reducer_map = joined }

  -- What a sync that is ready does after the locks are released.
  unfoldable pub sync_join : ℕ → ℕ → ℕ → M (Unit {0})
  sync_join w t frame = do
    join_exn t frame
    join_rmap w t
    modify_closure t λ d. record d { simulated_stolen = false }

  -- A fiber of an earlier sync is given back.
  unfoldable pub free_old_fiber : ℕ → ℕ → M (Unit {0})
  free_old_fiber w t = do
    v ← get_worker w
    c ← get_closure t
    null_or v.fiber_to_free (pure tt) λ f. do
      check (not (ptr_eq (some f) c.fiber))
      services.deallocate_fiber w (some f)
      modify_worker w λ u. record u { fiber_to_free = none }

  unfoldable pub cilk_sync : ℕ → ℕ → M Sync
  cilk_sync w frame = do
    deque_lock_self w
    b ← deque_peek_bottom w w
    t ← deref b
    closure_lock w t
    sync_asserts w t frame
    free_old_fiber w t
    c ← get_closure t
    branch (closure_has_children c)
        (do sync_suspend w t; closure_unlock w t; deque_unlock_self w; pure Sync.sync_not_ready)
        (do
          setup_for_sync w t
          closure_unlock w t
          deque_unlock_self w
          sync_join w t frame
          pure Sync.sync_ready)

  -- `do_what_it_says` of a closure that is ready, up to the jump into user code.
  pub execute : ℕ → ℕ → M (Unit {0})
  execute w t = do
    v ← get_worker w
    check (is_null v.fiber_to_free)
    setup_for_execution w t
    c ← get_closure t
    check (not (is_null c.frame))
    closure_unlock w t
    deque_lock_self w
    deque_add_bottom w t w
    deque_unlock_self w
    worker_change_state w WorkerState.run
    longjmp_to_user_code w t

  -- The same call after `longjmp_to_runtime`.
  pub back_in_runtime : ℕ → M (Unit {0})
  back_in_runtime w = do
    worker_change_state w WorkerState.sched
    v ← get_worker w
    null_or v.fiber_to_free (pure tt) λ f. services.deallocate_fiber w (some f)
    modify_worker w λ u. record u { fiber_to_free = none }

  pub do_what_it_says : ℕ → ℕ → M Place
  do_what_it_says w t = do
    closure_lock w t
    c ← get_closure t
    branch (status_eq c.status Status.ready) (do execute w t; pure user_code)
        (branch (status_eq c.status Status.returning)
          (do closure_unlock w t; next ← return_value w t; pure (top next)) crash)

  -- One turn of the steal loop.
  pub steal_turn : ℕ → ℕ → M Place
  steal_turn n w = do
    r ← rts_rand w
    nworkers ← get_nworkers
    check (not (nworkers == 0))
    t ← branch (r % nworkers == w) (pure none) (closure_steal n w (r % nworkers))
    null_or t (pure stealing) λ c. pure (found (some c))

  -- One step of the loop of `worker_scheduler`; the step from `user_code` is the return to the
  -- runtime.
  pub scheduler_step : ℕ → ℕ → Place → M Place
  scheduler_step n w (top t) = do
    done ← is_done
    branch done (do worker_change_state w WorkerState.idle; pure stopped)
        (null_or t (from_local_queue w) λ c. pure (found (some c)))
  scheduler_step n w stealing = do done ← is_done; branch done (pure (found none)) (steal_turn n w)
  scheduler_step n w (found none) = pure (top none)
  scheduler_step n w (found (some t)) = do_what_it_says w t
  scheduler_step n w user_code = do back_in_runtime w; pure (top none)
  scheduler_step n w stopped = pure stopped
