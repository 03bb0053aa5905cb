-- ===== src/Join/Lost.antt =====
-- An exception that the two loops of `Closure_return` lose: it comes into `right_exn` after the first
-- loop, while the second one has released the locks for a merge.
use multicilk.Base.{ℕ, Option, none, some, [], ◌∷◌, inl, refl, sym}
use mathlib.Core.Option.{none-ne-some}
use multicilk.Join.{
  Views, throw, finish, deposit_exception, take_maps, reduce_maps, leave, next, Family, spawned,
  Step, child, work_main, steal, Reach, here, later,
}

module _ {V : Type 0} ⦃views : Views V⦄ where
  -- Steps of the whole family.
  pub data Steps : Family V → Family V → Type 0 where
    done : {f : Family V} → Steps f f
    then : {f g h : Family V} → Step f g → Steps g h → Steps f h

  -- Two children run, and there is a map in `child_rmap` that the first one has to merge.
  abbrev pub busy : V → Option ℕ → Family V
  busy v e = record {
    slots = record { rmap = some v; exn = none };
    children = spawned none ∷ record (spawned none) { user_exn = e } ∷ [];
    main = none;
  }

  -- The parent has no children left and knows of no exception.
  abbrev pub forgotten : V → Family V
  forgotten v = record { slots = record { rmap = some v; exn = none }; children = []; main = none }

  busy-Reach : (v : V) → Reach (busy v none)
  busy-Reach v =
      let a : Reach _ = later here (work_main v) in
      let b : Reach _ = later a steal in
      let c : Reach _ = later b (child (finish refl)) in
      let d : Reach _ = later c (child (deposit_exception refl refl refl)) in
      let e : Reach _ = later d (child (leave refl refl refl)) in later (later e steal) steal

  lost : (v : V) (e : ℕ) → Steps (busy v (some e)) (forgotten v)
  lost v e = then (child (finish refl)) (
      then (child (deposit_exception refl refl refl)) (
        then (child (take_maps refl (inl (λ q. none-ne-some _ (sym q))))) (
          then (child (next (finish refl))) (
            then (child (next (deposit_exception refl refl refl))) (
              then (child (next (leave refl refl refl)))
                (then (child (reduce_maps refl)) (then (child (leave refl refl refl)) done)))))))

  -- There is a run in which a running child throws any exception `e`, both children return, and the
  -- parent is left with no children and no exception: the second child deposits `e` with its left
  -- sibling, which has passed the loop that would take it.
  pub exception_lost :
      (v : V) (e : ℕ)
      → Reach (busy v none)
        × Step (busy v none) (busy v (some e))
        × Steps (busy v (some e)) (forgotten v)
  exception_lost v e = (busy-Reach v, child (next (throw e refl)), lost v e)
