-- ===== src/Startup/Region.antt =====
-- A Cilkified region: `invoke_cilkified_root`, `wait_until_cilk_done`, `exit_cilkified_root`,
-- `scheduler_thread_proc` and `__cilkrts_stop_workers` of runtime/init.c, as steps of the thread that
-- starts the region and of the workers, one access to a shared flag a step.
mod Invariant
mod Workers
pub mod Once
use multicilk.Base.{ℕ, suc, ◌+◌, ◌≡◌, ◌≢◌, Bool, true, false, Option, none, some, update}

-- Where the thread that starts regions stands: outside, in `invoke_cilkified_root` after the store to
-- cilkified and after that to done, in `wait_until_cilk_done`, and in `__cilkrts_stop_workers` after the
-- store to terminate and after that to start.
pub data Boss : Type 0 where
  outside marked undone waiting ending ended : Boss

-- Where a worker stands in `scheduler_thread_proc`: waiting for start, after that, after the test of
-- terminate, in `worker_scheduler`, in `exit_cilkified_root` after the store to exiting_worker and after
-- that to start, after `worker_scheduler`, and at its end.
pub data WorkerPlace : Type 0 where
  asleep awake chosen stealing recorded stopped left gone : WorkerPlace

-- The flags of `struct global_state`, and `runner`, the worker that runs the frame of the root. The
-- last three fields count the regions that were started, whose root was taken up, and that ended.
pub record Region : Type 0 where
  pub start : Bool
  pub done : Bool
  pub cilkified : Bool
  pub terminate : Bool
  pub exiting_worker : ℕ
  pub boss : Boss
  pub pcs : ℕ → WorkerPlace
  pub runner : Option ℕ
  pub invoked : ℕ
  pub begun : ℕ
  pub finished : ℕ

abbrev pub at : ℕ → WorkerPlace → Region → Region
at i pc s = record s { pcs = update s.pcs i pc }

pub data Step : Region → Region → Type 0 where
  mark :
      {s : Region}
      → s.boss ≡ Boss.outside
      → Step s (record s { boss = Boss.marked; cilkified = true; invoked = suc s.invoked })
  undo :
      {s : Region} → s.boss ≡ Boss.marked → Step s (record s { boss = Boss.undone; done = false })
  unleash :
      {s : Region} → s.boss ≡ Boss.undone → Step s (record s { boss = Boss.waiting; start = true })
  resume :
      {s : Region}
      → s.boss ≡ Boss.waiting
      → s.cilkified ≡ false
      → Step s (record s { boss = Boss.outside })
  stop_workers :
      {s : Region}
      → s.boss ≡ Boss.outside
      → Step s (record s { boss = Boss.ending; terminate = true })
  release :
      {s : Region} → s.boss ≡ Boss.ending → Step s (record s { boss = Boss.ended; start = true })
  wake :
      {s : Region} (i : ℕ)
      → s.pcs i ≡ WorkerPlace.asleep
      → s.start ≡ true
      → Step s (at i WorkerPlace.awake s)
  quit :
      {s : Region} (i : ℕ)
      → s.pcs i ≡ WorkerPlace.awake
      → s.terminate ≡ true
      → Step s (at i WorkerPlace.gone s)
  stay :
      {s : Region} (i : ℕ)
      → s.pcs i ≡ WorkerPlace.awake
      → s.terminate ≡ false
      → Step s (at i WorkerPlace.chosen s)
  begin_root :
      {s : Region} (i : ℕ)
      → s.pcs i ≡ WorkerPlace.chosen
      → i ≡ s.exiting_worker
      → Step s (record (at i WorkerPlace.stealing s) { runner = some i; begun = suc s.begun })
  begin_stealing :
      {s : Region} (i : ℕ)
      → s.pcs i ≡ WorkerPlace.chosen
      → i ≢ s.exiting_worker
      → Step s (at i WorkerPlace.stealing s)
  -- Within `worker_scheduler` the frame of the root goes from a worker to another.
  pass :
      {s : Region} (i j : ℕ)
      → s.runner ≡ some i
      → s.pcs i ≡ WorkerPlace.stealing
      → s.pcs j ≡ WorkerPlace.stealing
      → Step s (record s { runner = some j })
  exit_record :
      {s : Region} (i : ℕ)
      → s.runner ≡ some i
      → s.pcs i ≡ WorkerPlace.stealing
      → Step s (record (at i WorkerPlace.recorded s) { exiting_worker = i })
  exit_stop :
      {s : Region} (i : ℕ)
      → s.pcs i ≡ WorkerPlace.recorded
      → Step s (record (at i WorkerPlace.stopped s) { start = false })
  exit_done :
      {s : Region} (i : ℕ)
      → s.pcs i ≡ WorkerPlace.stopped
      → Step s (record (at i WorkerPlace.stealing s) {
        done = true;
        runner = none;
        finished = suc s.finished;
      })
  leave :
      {s : Region} (i : ℕ)
      → s.pcs i ≡ WorkerPlace.stealing
      → s.done ≡ true
      → Step s (at i WorkerPlace.left s)
  report :
      {s : Region} (i : ℕ)
      → s.pcs i ≡ WorkerPlace.left
      → i ≡ s.exiting_worker
      → Step s (record (at i WorkerPlace.asleep s) { cilkified = false })
  go_back :
      {s : Region} (i : ℕ)
      → s.pcs i ≡ WorkerPlace.left
      → i ≢ s.exiting_worker
      → Step s (at i WorkerPlace.asleep s)

-- The state after `__cilkrts_start_workers`.
unfoldable pub start_region : Region
start_region = record {
  start = false;
  done = false;
  cilkified = false;
  terminate = false;
  exiting_worker = 0;
  boss = Boss.outside;
  pcs = λ _. WorkerPlace.asleep;
  runner = none;
  invoked = 0;
  begun = 0;
  finished = 0;
}

pub data Reachable : Region → Type 0 where
  first : Reachable start_region
  next : {s t : Region} → Reachable s → Step s t → Reachable t
