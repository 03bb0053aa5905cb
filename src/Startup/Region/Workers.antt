-- ===== src/Startup/Region/Workers.antt =====
-- The steps of the workers (`scheduler_thread_proc` and `exit_cilkified_root` of runtime/init.c) keep what
-- holds in every state of a region.
use multicilk.Base.{ℕ, suc, ◌≡◌, ◌≢◌, true, false, none, some, arith}
use multicilk.Startup.Region.{WorkerPlace, Region, at}
use multicilk.Startup.Region.Invariant.{agree, is_exiting, is_inside, is_pending, Inv}

pub wake-Inv :
    (s : Region) (i : ℕ)
    → Inv s
    → s.pcs i ≡ WorkerPlace.asleep
    → s.start ≡ true
    → Inv (at i WorkerPlace.awake s)
unfolding agree is_exiting is_inside
wake-Inv s i v h st = record {
  flags = ground (arith, v.flags, h, st);
  exits = λ k e. let q = v.exits k in ground (arith, q, e);
  inside = λ k e. let q = v.inside k e in ground (arith, q, e, v.flags, h, st);
  open_regions = v.open_regions;
  pending = v.pending;
}

pub quit-Inv :
    (s : Region) (i : ℕ)
    → Inv s
    → s.pcs i ≡ WorkerPlace.awake
    → s.terminate ≡ true
    → Inv (at i WorkerPlace.gone s)
unfolding agree is_exiting is_inside
quit-Inv s i v h t = record {
  flags = ground (arith, v.flags, h, t);
  exits = λ k e. let q = v.exits k in ground (arith, q, e);
  inside = λ k e. let q = v.inside k e in ground (arith, q, e, v.flags, h, t);
  open_regions = v.open_regions;
  pending = v.pending;
}

pub stay-Inv :
    (s : Region) (i : ℕ)
    → Inv s
    → s.pcs i ≡ WorkerPlace.awake
    → s.terminate ≡ false
    → Inv (at i WorkerPlace.chosen s)
unfolding agree is_exiting is_inside
stay-Inv s i v h t = record {
  flags = ground (arith, v.flags, h, t);
  exits = λ k e. let q = v.exits k in ground (arith, q, e);
  inside = λ k e. let q = v.inside k e in ground (arith, q, e, v.flags, h, t);
  open_regions = v.open_regions;
  pending = v.pending;
}

pub begin_stealing-Inv :
    (s : Region) (i : ℕ)
    → Inv s
    → s.pcs i ≡ WorkerPlace.chosen
    → i ≢ s.exiting_worker
    → Inv (at i WorkerPlace.stealing s)
unfolding agree is_exiting is_inside
begin_stealing-Inv s i v h ne = record {
  flags = ground (arith, v.flags, h, ne);
  exits = λ k e. let q = v.exits k in ground (arith, q, e);
  inside = λ k e. let q = v.inside k e in ground (arith, q, e, v.flags, h, ne);
  open_regions = v.open_regions;
  pending = v.pending;
}

pub leave-Inv :
    (s : Region) (i : ℕ)
    → Inv s
    → s.pcs i ≡ WorkerPlace.stealing
    → s.done ≡ true
    → Inv (at i WorkerPlace.left s)
unfolding agree is_exiting is_inside
leave-Inv s i v h d = record {
  flags = ground (arith, v.flags, h, d);
  exits = λ k e. let q = v.exits k in ground (arith, q, e);
  inside = λ k e. let q = v.inside k e in ground (arith, q, e, v.flags, h, d);
  open_regions = v.open_regions;
  pending = v.pending;
}

pub go_back-Inv :
    (s : Region) (i : ℕ)
    → Inv s
    → s.pcs i ≡ WorkerPlace.left
    → i ≢ s.exiting_worker
    → Inv (at i WorkerPlace.asleep s)
unfolding agree is_exiting is_inside
go_back-Inv s i v h ne = record {
  flags = ground (arith, v.flags, h, ne);
  exits = λ k e. let q = v.exits k in ground (arith, q, e);
  inside = λ k e. let q = v.inside k e in ground (arith, q, e, v.flags, h, ne);
  open_regions = v.open_regions;
  pending = v.pending;
}

pub begin_root-Inv :
    (s : Region) (i : ℕ)
    → Inv s
    → s.pcs i ≡ WorkerPlace.chosen
    → i ≡ s.exiting_worker
    → Inv (record (at i WorkerPlace.stealing s) { runner = some i; begun = suc s.begun })
unfolding agree is_exiting is_inside is_pending
begin_root-Inv s i v h e = record {
  flags = ground (arith, v.flags, h, e);
  exits = λ k b. let q = v.exits k in ground (arith, q, b, v.flags, h, e);
  inside = λ k b. ground (arith, b);
  open_regions = ground (arith, v.open_regions, v.flags, h, e);
  pending = ground (arith, v.pending, v.flags, h, e);
}

pub pass-Inv :
    (s : Region) (i j : ℕ)
    → Inv s
    → s.runner ≡ some i
    → s.pcs i ≡ WorkerPlace.stealing
    → s.pcs j ≡ WorkerPlace.stealing
    → Inv (record s { runner = some j })
unfolding is_exiting is_inside
pass-Inv s i j v r h h' = record {
  flags = ground (arith, v.flags, r);
  exits = λ k b. let (q, e) = v.exits k b in ground (arith, q, r, h, b);
  inside = λ k b. ground (arith, b, h');
  open_regions = ground (arith, v.open_regions, r);
  pending = ground (arith, v.pending, r);
}

pub exit_record-Inv :
    (s : Region) (i : ℕ)
    → Inv s
    → s.runner ≡ some i
    → s.pcs i ≡ WorkerPlace.stealing
    → Inv (record (at i WorkerPlace.recorded s) { exiting_worker = i })
unfolding agree is_exiting is_inside
exit_record-Inv s i v r h = record {
  flags = let q = v.exits s.exiting_worker in ground (arith, v.flags, r, h, q);
  exits = λ k b. let q = v.exits k in ground (arith, q, b, r);
  inside = λ k b. ground (arith, b, r);
  open_regions = v.open_regions;
  pending = v.pending;
}

pub exit_stop-Inv :
    (s : Region) (i : ℕ)
    → Inv s
    → s.pcs i ≡ WorkerPlace.recorded
    → Inv (record (at i WorkerPlace.stopped s) { start = false })
unfolding agree is_exiting is_inside is_pending
exit_stop-Inv s i v h =
    let (r, e) = v.exits i (ground (arith, h)) in
    record {
      flags = ground (arith, v.flags, r, e, h);
      exits = λ k b. let q = v.exits k in ground (arith, q, b, r, e);
      inside = λ k b. ground (arith, b, r);
      open_regions = v.open_regions;
      pending = ground (arith, v.pending, v.flags, r, e, h);
    }

pub exit_done-Inv :
    (s : Region) (i : ℕ)
    → Inv s
    → s.pcs i ≡ WorkerPlace.stopped
    → Inv (record (at i WorkerPlace.stealing s) {
      done = true;
      runner = none;
      finished = suc s.finished;
    })
unfolding agree is_exiting is_inside is_pending
exit_done-Inv s i v h =
    let (r, e) = v.exits i (ground (arith, h)) in
    record {
      flags = ground (arith, v.flags, r, e, h);
      exits = λ k b. let q = v.exits k in ground (arith, q, b, r, e);
      inside = λ k b. ground (arith, b);
      open_regions = ground (arith, v.open_regions, r);
      pending = ground (arith, v.pending, v.flags, r, e, h);
    }

pub report-Inv :
    (s : Region) (i : ℕ)
    → Inv s
    → s.pcs i ≡ WorkerPlace.left
    → i ≡ s.exiting_worker
    → Inv (record (at i WorkerPlace.asleep s) { cilkified = false })
unfolding agree is_exiting is_inside
report-Inv s i v h e = record {
  flags = ground (arith, v.flags, h, e);
  exits = λ k b. let q = v.exits k in ground (arith, q, b);
  inside = λ k b. let q = v.inside k b in ground (arith, q, b, h);
  open_regions = v.open_regions;
  pending = v.pending;
}
