-- ===== src/Join/Tests.antt =====
-- The return protocol over lists of updates, in which every order shows.
use mathlib.Core.List.{append_assoc, append-nil}
use multicilk.Base.{ℕ, none, some, List, [], ◌∷◌, ◌++◌, ◌≡◌, ◌≢◌, refl, map, arith}
use multicilk.Join.{Views, running, maps, Child, Slots, Family, spawned, Step, work_main, Reach}
use multicilk.Join.Spec.{updates, past, Serial, strands_of}
use multicilk.Join.Refine.{Step-Serial}
use multicilk.Join.Loop.{ChildSteps, return_ends}
use multicilk.Join.Lost.{Steps, busy, forgotten, exception_lost}

instance logs : Views (List ℕ)
logs = record {
  empty = [];
  join = λ a b. a ++ b;
  empty-join = λ a. refl;
  join-empty = λ a. append-nil a;
  join_assoc = λ a b c. append_assoc a b c;
}

-- One child has made the update 1 and is returning, one that made the update 2 runs, and the parent
-- made the update 3.
abbrev returning : Child (List ℕ)
returning = record (spawned (some (1 ∷ []))) { phase = maps }

abbrev two : Family (List ℕ)
two = record {
  slots = record { rmap = none; exn = none };
  children = returning ∷ spawned (some (2 ∷ [])) ∷ [];
  main = some (3 ∷ []);
}

abbrev parent_ahead : Family (List ℕ)
parent_ahead = record two { main = some (3 ∷ 4 ∷ []) }

strands_of-two : strands_of two ≡ (1 ∷ 2 ∷ []) ∷ (3 ∷ []) ∷ []
unfolding strands_of logs
strands_of-two = refl

Step-Serial_example : Serial (past (updates (4 ∷ []))) (strands_of two) (strands_of parent_ahead)
unfolding logs
Step-Serial_example = Step-Serial {f = two} {g = parent_ahead} (work_main (4 ∷ []))

maps-ne-running : returning.phase ≢ running
maps-ne-running e = ground arith

return_ends_example :
    (t : Slots (List ℕ)) × (kept : List (Child (List ℕ))) × ChildSteps two.slots two.children t
      (kept ++ (spawned (some (2 ∷ [])) ∷ []))
    × (map (λ j. j.phase) kept ≡ [])
return_ends_example =
    return_ends two.slots [] returning (spawned (some (2 ∷ [])) ∷ []) maps-ne-running

abbrev five : List ℕ
five = 5 ∷ []

exception_lost_example :
    Reach (busy five none)
    × Step (busy five none) (busy five (some 7))
    × Steps (busy five (some 7)) (forgotten five)
exception_lost_example = exception_lost five 7
