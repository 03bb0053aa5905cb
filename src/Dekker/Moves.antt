-- ===== src/Dekker/Moves.antt =====
-- Every step of the THE protocol keeps the invariant.
use multicilk.Base.{ℕ, refl, arith}
use multicilk.Dekker.{
  System, Step, detach, pop, keep, conflict, enter, reset_exc, lost, false_alarm, trylock, give_up,
  raise, load_head, fail, lower, pass, load_frame, store_head, unlock, start, Reach, here, later,
}
use multicilk.Dekker.Invariant.{Inv, copies-empty}
use multicilk.Dekker.Victim.{
  detach-Inv, pop-Inv, keep-Inv, conflict-Inv, enter-Inv, reset_exc-Inv, lost-Inv, false_alarm-Inv,
}
use multicilk.Dekker.Thief.{
  trylock-Inv, give_up-Inv, raise-Inv, load_head-Inv, fail-Inv, lower-Inv, pass-Inv, load_frame-Inv,
  store_head-Inv, unlock-Inv,
}

pub Step-Inv : {limit : ℕ} {s t : System} → Step limit s t → Inv s → Inv t
Step-Inv (detach p l) v = detach-Inv v p
Step-Inv (pop p l) v = pop-Inv v p l
Step-Inv (keep p l) v = keep-Inv v p l
Step-Inv (conflict p l) v = conflict-Inv v p l
Step-Inv (enter p m) v = enter-Inv v p m
Step-Inv (reset_exc p) v = reset_exc-Inv v p
Step-Inv (lost p l) v = lost-Inv v p l
Step-Inv (false_alarm p l) v = false_alarm-Inv v p l
Step-Inv (trylock p) v = trylock-Inv v p
Step-Inv (give_up p) v = give_up-Inv v p
Step-Inv (raise p) v = raise-Inv v p
Step-Inv (load_head p) v = load_head-Inv v p
Step-Inv (fail p l) v = fail-Inv v p l
Step-Inv (lower p) v = lower-Inv v p
Step-Inv (pass p l) v = pass-Inv v p l
Step-Inv (load_frame p) v = load_frame-Inv v p
Step-Inv (store_head p) v = store_head-Inv v p
Step-Inv (unlock p) v = unlock-Inv v p

start-Inv : Inv start
start-Inv = record {
  ahead = refl;
  order = ground arith;
  handler = refl;
  seen = λ h e. ground arith;
  room = λ d. ground arith;
  frame = λ f e. ground arith;
  lost = λ g. ground arith;
  kept = λ i. ground (arith, copies-empty (λ _. 0) i 0);
}

pub Reach-Inv : {limit : ℕ} {s : System} → Reach limit s → Inv s
Reach-Inv here = start-Inv
Reach-Inv (later r st) = Step-Inv st (Reach-Inv r)
