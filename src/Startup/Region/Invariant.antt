-- ===== src/Startup/Region/Invariant.antt =====
-- What holds in every state of a region (runtime/init.c): the flags, the thread that starts regions and
-- the exiting worker agree, and the frame of the root is with one worker at most.
use multicilk.Base.{ℕ, suc, ◌+◌, ◌≡◌, refl, Bool, true, false, not, some, is_null, bit, arith}
use multicilk.Startup.Region.{Boss, WorkerPlace, Region, start_region}

-- The combinations that occur, in the order of a region: the thread that starts it, start, done,
-- cilkified, terminate, whether no worker has the root, and the place of the exiting worker.
unfoldable pub agree : Boss → Bool → Bool → Bool → Bool → Bool → WorkerPlace → Bool
agree Boss.outside false done false false true WorkerPlace.asleep = true
agree Boss.marked false done true false true WorkerPlace.asleep = true
agree Boss.undone false false true false true WorkerPlace.asleep = true
agree Boss.waiting true false true false true WorkerPlace.asleep = true
agree Boss.waiting true false true false true WorkerPlace.awake = true
agree Boss.waiting true false true false true WorkerPlace.chosen = true
agree Boss.waiting true false true false false WorkerPlace.stealing = true
agree Boss.waiting true false true false false WorkerPlace.recorded = true
agree Boss.waiting false false true false false WorkerPlace.stopped = true
agree Boss.waiting false true true false true WorkerPlace.stealing = true
agree Boss.waiting false true true false true WorkerPlace.left = true
agree Boss.waiting false true false false true WorkerPlace.asleep = true
agree Boss.ending false done false true true WorkerPlace.asleep = true
agree Boss.ended true done false true true WorkerPlace.asleep = true
agree Boss.ended true done false true true WorkerPlace.awake = true
agree Boss.ended true done false true true WorkerPlace.gone = true
agree _ _ _ _ _ _ _ = false

-- In `exit_cilkified_root`, and in `worker_scheduler`.
unfoldable pub is_exiting : WorkerPlace → Bool
is_exiting WorkerPlace.recorded = true
is_exiting WorkerPlace.stopped = true
is_exiting _ = false

unfoldable pub is_inside : WorkerPlace → Bool
is_inside WorkerPlace.stealing = true
is_inside WorkerPlace.recorded = true
is_inside WorkerPlace.stopped = true
is_inside _ = false

-- A region was started, and no worker has taken its root yet.
unfoldable pub is_pending : Boss → Bool → Bool → Bool
is_pending Boss.marked start idle = true
is_pending Boss.undone start idle = true
is_pending Boss.waiting true true = true
is_pending _ _ _ = false

pub record Inv (s : Region) : Type 0 where
  pub flags :
      agree s.boss s.start s.done s.cilkified s.terminate
        (is_null s.runner)
        (s.pcs s.exiting_worker)
      ≡ true
  pub exits : (k : ℕ) → is_exiting (s.pcs k) ≡ true → (s.runner ≡ some k) × (k ≡ s.exiting_worker)
  pub inside : (k : ℕ) → s.runner ≡ some k → is_inside (s.pcs k) ≡ true
  pub open_regions : s.begun ≡ s.finished + bit (not (is_null s.runner))
  pub pending : s.invoked ≡ s.begun + bit (is_pending s.boss s.start (is_null s.runner))

pub start-Inv : Inv start_region
unfolding start_region agree is_exiting is_pending
start-Inv = record {
  flags = refl;
  exits = λ k e. ground (arith, e);
  inside = λ k e. ground (arith, e);
  open_regions = refl;
  pending = refl;
}

-- The steps of the thread that starts the regions.
pub mark-Inv :
    (s : Region)
    → Inv s
    → s.boss ≡ Boss.outside
    → Inv (record s { boss = Boss.marked; cilkified = true; invoked = suc s.invoked })
unfolding agree is_pending
mark-Inv s v h = record {
  flags = ground (arith, v.flags, h);
  exits = v.exits;
  inside = v.inside;
  open_regions = v.open_regions;
  pending = ground (arith, v.pending, v.flags, h);
}

pub undo-Inv :
    (s : Region)
    → Inv s
    → s.boss ≡ Boss.marked
    → Inv (record s { boss = Boss.undone; done = false })
unfolding agree is_pending
undo-Inv s v h = record {
  flags = ground (arith, v.flags, h);
  exits = v.exits;
  inside = v.inside;
  open_regions = v.open_regions;
  pending = ground (arith, v.pending, v.flags, h);
}

pub unleash-Inv :
    (s : Region)
    → Inv s
    → s.boss ≡ Boss.undone
    → Inv (record s { boss = Boss.waiting; start = true })
unfolding agree is_pending
unleash-Inv s v h = record {
  flags = ground (arith, v.flags, h);
  exits = v.exits;
  inside = v.inside;
  open_regions = v.open_regions;
  pending = ground (arith, v.pending, v.flags, h);
}

pub resume-Inv :
    (s : Region)
    → Inv s
    → s.boss ≡ Boss.waiting
    → s.cilkified ≡ false
    → Inv (record s { boss = Boss.outside })
unfolding agree is_pending
resume-Inv s v h c = record {
  flags = ground (arith, v.flags, h, c);
  exits = v.exits;
  inside = v.inside;
  open_regions = v.open_regions;
  pending = ground (arith, v.pending, v.flags, h, c);
}

pub stop_workers-Inv :
    (s : Region)
    → Inv s
    → s.boss ≡ Boss.outside
    → Inv (record s { boss = Boss.ending; terminate = true })
unfolding agree is_pending
stop_workers-Inv s v h = record {
  flags = ground (arith, v.flags, h);
  exits = v.exits;
  inside = v.inside;
  open_regions = v.open_regions;
  pending = ground (arith, v.pending, v.flags, h);
}

pub release-Inv :
    (s : Region) → Inv s → s.boss ≡ Boss.ending → Inv (record s { boss = Boss.ended; start = true })
unfolding agree is_pending
release-Inv s v h = record {
  flags = ground (arith, v.flags, h);
  exits = v.exits;
  inside = v.inside;
  open_regions = v.open_regions;
  pending = ground (arith, v.pending, v.flags, h);
}
