-- ===== src/Reducer/Tests.antt =====
-- Maps of four slots over sums: the theorems at them.
use multicilk.Base.{
  Bool, none, false, ltb, [], ◌∷◌, window, ℕ, ◌+◌, ◌<◌, true, false, some, ◌≡◌, refl, ◌==◌,
  if◌then◌else◌, count_below, inr, arith,
}
use multicilk.Reducer.Hyper.{Hyper, hyper_create, hyper_destroy}
use multicilk.Reducer.Reuse.{reused_id_fails}
use multicilk.Reducer.Map.{
  hyper_id_valid, Map, empty_view, MergeKind, cilkred_map_merge, merge_two_rmaps,
}
use multicilk.Reducer.Map.Wf.{IsValid}
use multicilk.Reducer.Map.Refine.{Product, merge_refines}
use multicilk.Join.Maps.{slot_views, merge_two_rmaps-join}
use multicilk.Reducer.Map.Two.{Combined, merge_two_rmaps_refines}

-- Four slots with the view `x` of reducer `k` in slot `i`.
abbrev one_view : ℕ → ℕ → ℕ → Map ℕ
one_view i k x = record {
  spa_cap = 4;
  num_of_vinfo = 1;
  num_of_logs = 1;
  merging = false;
  log = λ _. i;
  vinfo = λ j. if i == j then record { key = some k; val = some x } else empty_view;
}

one_view-IsValid : (i k x : ℕ) → i < 4 → IsValid (one_view i k x)
unfolding count_below
one_view-IsValid i k x h = record {
  small = omega arith;
  counted = ground arith;
  paired = λ j. ground arith;
  logs = omega arith;
  live = λ l j p. (h, ground arith);
  once = λ l a b p q e. omega arith;
  listed = λ l j p o. (0, omega arith, ground arith);
}

merge_refines_example :
    (m : Map ℕ) × (cilkred_map_merge
        (λ k a b. a + b)
        true
        (one_view 2 9 5)
        (one_view 2 9 6)
        MergeKind.merge_into_left
      ≡ some m)
    × Product (λ k a b. a + b) MergeKind.merge_into_left (one_view 2 9 5) (one_view 2 9 6) m
merge_refines_example =
    merge_refines (λ k a b. a + b) true MergeKind.merge_into_left (one_view 2 9 5) (one_view 2 9 6)
      (one_view-IsValid 2 9 5 (omega arith)) (one_view-IsValid 2 9 6 (omega arith)) refl
      (λ j. ground arith)

merge_two_rmaps_refines_example :
    (m : Map ℕ) × (merge_two_rmaps
        (λ k a b. a + b)
        true
        (some (one_view 2 9 5))
        (some (one_view 2 9 6))
      ≡ some (some m))
    × Combined (λ k a b. a + b) (one_view 2 9 5) (one_view 2 9 6) m
merge_two_rmaps_refines_example =
    merge_two_rmaps_refines (λ k a b. a + b) true (one_view 2 9 5) (one_view 2 9 6)
      (one_view-IsValid 2 9 5 (omega arith)) (one_view-IsValid 2 9 6 (omega arith)) refl
      (λ j. ground arith)

merge_two_rmaps-join_example :
    (m : Map ℕ) × (merge_two_rmaps
        (λ k a b. a + b)
        true
        (some (one_view 2 9 5))
        (some (one_view 2 9 6))
      ≡ some (some m))
    × ((m.vinfo 2).val ≡ (slot_views (λ a b. a + b) (λ a b c. omega arith)).join (some 5) (some 6))
merge_two_rmaps-join_example =
    merge_two_rmaps-join (λ k a b. a + b) (λ k a b c. omega arith) true (one_view 2 9 5)
      (one_view 2 9 6) 2 9 (one_view-IsValid 2 9 5 (omega arith))
      (one_view-IsValid 2 9 6 (omega arith)) refl (λ j. ground arith) (omega arith) (inr refl)

-- The hyperobjects 10 and 11 have the ids 0 and 1, and the worker's map holds both.
abbrev two_registered : Hyper ℕ
two_registered = record {
  id_num = λ a. if a == 10 then hyper_id_valid else 1 + hyper_id_valid;
  manager = record {
    mutex_owner = 0;
    spa_cap = 64;
    next = 2;
    hwm = 2;
    used = λ i b. if i == 0 then ltb b 2 else false;
    global = none;
  };
  reducer_map = some (record {
    spa_cap = 64;
    num_of_vinfo = 2;
    num_of_logs = 2;
    merging = false;
    log = λ p. p;
    vinfo = λ i. if ltb i 2 then record { key = some (i + 10); val = some 0 } else empty_view;
  });
}

reused_id_fails_example :
    (s1 s2 : Hyper ℕ) × (r : Map ℕ) × (hyper_destroy 0 10 two_registered ≡ some s1)
    × (hyper_create (λ a. 0) 0 12 s1 ≡ some s2)
    × (s2.reducer_map ≡ some r)
    × ((debug : Bool) (kind : MergeKind) (this : Map ℕ)
        → cilkred_map_merge (λ k a b. a + b) debug this r kind ≡ none)
reused_id_fails_example =
    reused_id_fails (λ k a b. a + b) (λ a. 0) 0 10 12 0 2 (1 ∷ []) two_registered
      (record {
        spa_cap = 64;
        num_of_vinfo = 2;
        num_of_logs = 2;
        merging = false;
        log = λ p. p;
        vinfo = λ i. if ltb i 2 then record { key = some (i + 10); val = some 0 } else empty_view;
      })
      record {
        map = refl;
        registered = refl;
        used = refl;
        valid = record {
          whole = refl;
          small = omega arith;
          hint = omega arith;
          high = omega arith;
          below = λ id e. ground arith;
        };
        in_range = (omega arith, omega arith, omega arith);
        idle = refl;
        others = (omega arith, omega arith, omega arith);
        logs = (refl, omega arith);
        logged = unfold window in refl;
        once = ((λ e. omega arith), tt);
      }
