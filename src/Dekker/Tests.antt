-- ===== src/Dekker/Tests.antt =====
-- One run of the THE protocol in which a thief wins the last frame, and the results at it.
use multicilk.Base.{ℕ, ◌+◌, ◌-◌, ◌≤◌, ◌<◌, ◌≡◌, refl, update, arith}
use multicilk.Dekker.{
  System, popped, gone, free, passed, loaded, detach, pop, conflict, enter, reset_exc, lost,
  trylock, raise, load_head, pass, load_frame, store_head, unlock, start, Reach, here, later,
  resume,
}
use multicilk.Dekker.Invariant.{copies, end}
use multicilk.Dekker.Safety.{resumed_once, none_lost, gone-all_resumed, promote_asserts-Holds}
use multicilk.Dekker.Progress.{Ends, pop_terminates}

-- The victim pushes frame 0, a thief passes `do_dekker_on`, and the victim pops.
abbrev racing : System
racing = record start {
  exc = 1;
  slots = update (λ _. 0) 0 0;
  mutex = passed;
  pc = popped;
  next = 1;
}

racing-Reach : Reach 8 racing
racing-Reach =
    let pushed : Reach 8 _ = later here (detach refl (omega arith)) in
    let tried : Reach 8 _ = later pushed (trylock refl) in
    let up : Reach 8 _ = later tried (raise refl) in
    let seen : Reach 8 _ = later up (load_head refl) in
    let won : Reach 8 _ = later seen (pass refl (omega arith)) in later won (pop refl (omega arith))

-- The thief has loaded the frame.
abbrev winning : System
winning = record racing { mutex = loaded 0 }

winning-Reach : Reach 8 winning
winning-Reach = later racing-Reach (load_frame refl)

-- The thief has taken the frame, and the victim gives up.
abbrev over : System
over = record racing { head = 1; mutex = free; pc = gone; resumed = resume (λ _. 0) 0 }

over-Reach : Reach 8 over
over-Reach =
    let taken : Reach 8 _ = later winning-Reach (store_head refl) in
    let left : Reach 8 _ = later taken (unlock refl) in
    let late : Reach 8 _ = later left (conflict refl (omega arith)) in
    let in_handler : Reach 8 _ = later late (enter refl refl) in
    later (later in_handler (reset_exc refl)) (lost refl (omega arith))

resumed_once_example : (over.resumed 0 ≤ 1) × (1 ≤ 0 → over.resumed 0 ≡ 0)
resumed_once_example = resumed_once over-Reach 0

none_lost_example : copies racing.slots 0 (end racing - 0) 0 ≡ 1
none_lost_example = none_lost racing-Reach 0 (omega arith) refl

gone-all_resumed_example : (over.head ≡ over.tail + 1) × ((i : ℕ) → i < 1 → over.resumed i ≡ 1)
gone-all_resumed_example = gone-all_resumed over-Reach refl

promote_asserts-Holds_example : (0 ≤ 1) × (0 ≤ 0) × (winning.slots 0 ≡ 0) × (winning.resumed 0 ≡ 0)
promote_asserts-Holds_example = promote_asserts-Holds winning-Reach refl

pop_terminates_example : Ends 8 racing
pop_terminates_example = pop_terminates racing-Reach
