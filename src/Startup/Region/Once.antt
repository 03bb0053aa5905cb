-- ===== src/Startup/Region/Once.antt =====
-- Every Cilkified region (runtime/init.c) is taken up and ended once, and can be ended.
use multicilk.Base.{
  ℕ, ◌≡◌, refl, true, false, Bool-cases, inl, inr, none, some, Option-cases, arith, update_same,
}
use multicilk.Startup.Region.{Boss, WorkerPlace, Region, Step, Reachable}
use multicilk.Startup.Region.Invariant.{
  agree, is_exiting, is_inside, is_pending, Inv, start-Inv, mark-Inv, undo-Inv, unleash-Inv,
  resume-Inv, stop_workers-Inv, release-Inv,
}
use multicilk.Startup.Region.Workers.{
  wake-Inv, quit-Inv, stay-Inv, begin_root-Inv, begin_stealing-Inv, pass-Inv, exit_record-Inv,
  exit_stop-Inv, exit_done-Inv, leave-Inv, report-Inv, go_back-Inv,
}

Step-Inv : {s t : Region} → Step s t → Inv s → Inv t
Step-Inv (Step.mark {s} h) v = mark-Inv s v h
Step-Inv (Step.undo {s} h) v = undo-Inv s v h
Step-Inv (Step.unleash {s} h) v = unleash-Inv s v h
Step-Inv (Step.resume {s} h c) v = resume-Inv s v h c
Step-Inv (Step.stop_workers {s} h) v = stop_workers-Inv s v h
Step-Inv (Step.release {s} h) v = release-Inv s v h
Step-Inv (Step.wake {s} i h c) v = wake-Inv s i v h c
Step-Inv (Step.quit {s} i h c) v = quit-Inv s i v h c
Step-Inv (Step.stay {s} i h c) v = stay-Inv s i v h c
Step-Inv (Step.begin_root {s} i h c) v = begin_root-Inv s i v h c
Step-Inv (Step.begin_stealing {s} i h c) v = begin_stealing-Inv s i v h c
Step-Inv (Step.pass {s} i j r h c) v = pass-Inv s i j v r h c
Step-Inv (Step.exit_record {s} i r h) v = exit_record-Inv s i v r h
Step-Inv (Step.exit_stop {s} i h) v = exit_stop-Inv s i v h
Step-Inv (Step.exit_done {s} i h) v = exit_done-Inv s i v h
Step-Inv (Step.leave {s} i h c) v = leave-Inv s i v h c
Step-Inv (Step.report {s} i h c) v = report-Inv s i v h c
Step-Inv (Step.go_back {s} i h c) v = go_back-Inv s i v h c

Reachable-Inv : {s : Region} → Reachable s → Inv s
Reachable-Inv Reachable.first = start-Inv
Reachable-Inv (Reachable.next r step) = Step-Inv step (Reachable-Inv r)

-- In every reachable state in which the thread that starts regions is outside, each region that it
-- started was taken up by a worker and ended, once; start is off, as __cilkrts_stop_workers asserts,
-- no worker runs the root, and the exiting worker, which takes up the next region, waits for start.
pub outside_all_ended :
    {s : Region}
    → Reachable s
    → s.boss ≡ Boss.outside
    → (s.begun ≡ s.invoked)
      × (s.finished ≡ s.invoked)
      × (s.start ≡ false)
      × (s.runner ≡ none)
      × (s.pcs s.exiting_worker ≡ WorkerPlace.asleep)
unfolding agree is_pending
outside_all_ended {s} r h =
    let v = Reachable-Inv r in
    (
      ground (arith, v.flags, v.pending, h),
      ground (arith, v.flags, v.pending, v.open_regions, h),
      ground (arith, v.flags, h),
      ground (arith, v.flags, h),
      ground (arith, v.flags, h),
    )

-- Any number of steps.
pub data Runs : Region → Region → Type 0 where
  here : {s : Region} → Runs s s
  then : {s t u : Region} → Step s t → Runs t u → Runs s u

-- The region can come to its end.
Ends : Region → Type 0
Ends s = (t : Region) × Runs s t × (t.boss ≡ Boss.outside) × (t.finished ≡ t.invoked)

module _ {s : Region} (v : Inv s) (wait : s.boss ≡ Boss.waiting) where
  reported-Ends : s.cilkified ≡ false → Ends s
  unfolding Ends agree is_pending
  reported-Ends c =
      let w = resume-Inv s v wait c in
      (
        record s { boss = Boss.outside },
        Runs.then (Step.resume wait c) Runs.here,
        refl,
        ground (arith, w.flags, w.pending, w.open_regions),
      )

  step-Ends : {t : Region} → Step s t → Ends t → Ends s
  unfolding Ends
  step-Ends step (u, runs, out, all) = (u, Runs.then step runs, out, all)

module _ {s : Region} (v : Inv s) (wait : s.boss ≡ Boss.waiting) where
  left-Ends : s.pcs s.exiting_worker ≡ WorkerPlace.left → Ends s
  left-Ends h =
      step-Ends v wait (Step.report s.exiting_worker h refl)
        (reported-Ends (report-Inv s s.exiting_worker v h refl) wait refl)

module _ {s : Region} (v : Inv s) (wait : s.boss ≡ Boss.waiting) where
  done-Ends : s.pcs s.exiting_worker ≡ WorkerPlace.stealing → s.done ≡ true → Ends s
  done-Ends h d = step-Ends v wait (Step.leave s.exiting_worker h d) (
      left-Ends (leave-Inv s s.exiting_worker v h d) wait
        (update_same s.pcs s.exiting_worker WorkerPlace.left))

module _ {s : Region} (v : Inv s) (wait : s.boss ≡ Boss.waiting) where
  stopped-Ends : s.pcs s.exiting_worker ≡ WorkerPlace.stopped → Ends s
  stopped-Ends h = step-Ends v wait (Step.exit_done s.exiting_worker h) (
      done-Ends (exit_done-Inv s s.exiting_worker v h) wait
        (update_same s.pcs s.exiting_worker WorkerPlace.stealing) refl)

module _ {s : Region} (v : Inv s) (wait : s.boss ≡ Boss.waiting) where
  recorded-Ends : s.pcs s.exiting_worker ≡ WorkerPlace.recorded → Ends s
  recorded-Ends h = step-Ends v wait (Step.exit_stop s.exiting_worker h) (
      stopped-Ends (exit_stop-Inv s s.exiting_worker v h) wait
        (update_same s.pcs s.exiting_worker WorkerPlace.stopped))

module _ {s : Region} (v : Inv s) (wait : s.boss ≡ Boss.waiting) where
  running-Ends : (i : ℕ) → s.runner ≡ some i → s.pcs i ≡ WorkerPlace.stealing → Ends s
  running-Ends i r h =
      step-Ends v wait (Step.exit_record i r h)
        (recorded-Ends (exit_record-Inv s i v r h) wait (update_same s.pcs i WorkerPlace.recorded))

module _ {s : Region} (v : Inv s) (wait : s.boss ≡ Boss.waiting) where
  chosen-Ends : s.pcs s.exiting_worker ≡ WorkerPlace.chosen → Ends s
  chosen-Ends h = step-Ends v wait (Step.begin_root s.exiting_worker h refl) (
      running-Ends (begin_root-Inv s s.exiting_worker v h refl) wait s.exiting_worker refl
        (update_same s.pcs s.exiting_worker WorkerPlace.stealing))

module _ {s : Region} (v : Inv s) (wait : s.boss ≡ Boss.waiting) where
  awake-Ends : s.pcs s.exiting_worker ≡ WorkerPlace.awake → Ends s
  unfolding agree
  awake-Ends h =
      let c : s.terminate ≡ false = ground (arith, v.flags, wait, h) in
      step-Ends v wait (Step.stay s.exiting_worker h c) (
        chosen-Ends (stay-Inv s s.exiting_worker v h c) wait
          (update_same s.pcs s.exiting_worker WorkerPlace.chosen))

module _ {s : Region} (v : Inv s) (wait : s.boss ≡ Boss.waiting) where
  asleep-Ends : s.pcs s.exiting_worker ≡ WorkerPlace.asleep → Ends s
  unfolding agree
  asleep-Ends h = elim (Bool-cases s.cilkified) [
    | inr c ↦ reported-Ends v wait c
    | inl c ↦
        let st : s.start ≡ true = ground (arith, v.flags, wait, h, c) in
        step-Ends v wait (Step.wake s.exiting_worker h st) (
          awake-Ends (wake-Inv s s.exiting_worker v h st) wait
            (update_same s.pcs s.exiting_worker WorkerPlace.awake))
  ]

  -- The exiting worker of the last region is among the thieves: another one may have the root.
  stealing-Ends : s.pcs s.exiting_worker ≡ WorkerPlace.stealing → Ends s
  unfolding agree is_exiting is_inside
  stealing-Ends h = elim (Option-cases s.runner) [
    | inl idle ↦ done-Ends v wait h (ground (arith, v.flags, wait, h, idle))
    | inr (i, r) ↦
        let q = v.inside i r in
        let x = v.exits i in running-Ends v wait i r (ground (arith, q, x, h))
  ]

  waiting-Ends : (p : WorkerPlace) → s.pcs s.exiting_worker ≡ p → Ends s
  unfolding agree
  waiting-Ends WorkerPlace.asleep h = asleep-Ends h
  waiting-Ends WorkerPlace.awake h = awake-Ends v wait h
  waiting-Ends WorkerPlace.chosen h = chosen-Ends v wait h
  waiting-Ends WorkerPlace.stealing h = stealing-Ends h
  waiting-Ends WorkerPlace.recorded h = recorded-Ends v wait h
  waiting-Ends WorkerPlace.stopped h = stopped-Ends v wait h
  waiting-Ends WorkerPlace.left h = left-Ends v wait h
  waiting-Ends WorkerPlace.gone h = absurd (ground (arith, v.flags, wait, h))

-- From every reachable state in which the thread that started a region waits for its end, there are
-- steps of the workers and then of that thread that bring it back outside, with every region ended.
pub waiting_can_end :
    {s : Region}
    → Reachable s
    → s.boss ≡ Boss.waiting
    → (t : Region) × Runs s t × (t.boss ≡ Boss.outside) × (t.finished ≡ t.invoked)
unfolding Ends
waiting_can_end {s} r wait = waiting-Ends (Reachable-Inv r) wait (s.pcs s.exiting_worker) refl
