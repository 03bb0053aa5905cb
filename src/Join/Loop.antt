-- ===== src/Join/Loop.antt =====
-- The two loops of `Closure_return` end when the siblings and the parent stand still.
use multicilk.Base.{
  Option, none, some, List, [], ◌∷◌, ◌++◌, ◌≡◌, ◌≢◌, ◌⊎◌, inl, inr, refl, sym, ap, map,
}
use mathlib.Core.Option.{none-ne-some}
use multicilk.Join.{
  Views, Phase, running, exceptions, took_exceptions, maps, took_maps, Child, Slots, right_slots,
  with_slots, ChildStep, take_exceptions, reduce_exceptions, deposit_exception, take_maps,
  reduce_maps, leave, next,
}

-- Steps of the children, with the slots to their left.
pub data ChildSteps {V : Type 0} ⦃views : Views V⦄
    : Slots V → List (Child V) → Slots V → List (Child V) → Type 0 where
  done : {s : Slots V} {ks : List (Child V)} → ChildSteps s ks s ks
  then :
      {s t u : Slots V} {ks js is : List (Child V)}
      → ChildStep s ks t js
      → ChildSteps t js u is
      → ChildSteps s ks u is

both_empty : {A : Type 0} (a b : Option A) → ((a ≡ none) × (b ≡ none)) ⊎ ((a ≢ none) ⊎ (b ≢ none))
both_empty none none = inl (refl, refl)
both_empty none (some b) = inr (inr (λ e. none-ne-some _ (sym e)))
both_empty (some a) b = inr (inl (λ e. none-ne-some _ (sym e)))

module _ {V : Type 0} ⦃views : Views V⦄ where
  nexts :
      {s t : Slots V} {k : Child V} {ks js : List (Child V)}
      → ChildSteps (right_slots k) ks t js
      → ChildSteps s (k ∷ ks) s (with_slots k t ∷ js)
  nexts done = done
  nexts (then st sts) = then (next st) (nexts sts)

  -- The first child unlinks itself.
  abbrev pub Leaves : Slots V → Child V → List (Child V) → Type 0
  Leaves s k ks = (t : Slots V) × ChildSteps s (k ∷ ks) t ks

  -- After a turn of the second loop both slots are empty, and the child leaves.
  from_maps : (s : Slots V) (k : Child V) (ks : List (Child V)) → k.phase ≡ maps → Leaves s k ks
  from_maps s k ks e = elim (both_empty s.rmap k.right_rmap) [
    | inl (h, g) ↦ (_, then (leave e h g) done)
    | inr some_map ↦ (
      _,
      then (take_maps {s = s} {k = k} e some_map)
          (then (reduce_maps refl) (then (leave refl refl refl) done)),
    )
  ]

  from_took_maps :
      (s : Slots V) (k : Child V) (ks : List (Child V)) {l r : Option V}
      → k.phase ≡ took_maps l r
      → Leaves s k ks
  from_took_maps s k ks e =
      let (t, st) = from_maps s _ ks refl in (t, then (reduce_maps {s = s} {k = k} e) st)

  from_deposit :
      (s : Slots V) (k : Child V) (ks : List (Child V))
      → k.phase ≡ exceptions
      → s.exn ≡ none
      → k.right_exn ≡ none
      → Leaves s k ks
  from_deposit s k ks e h g =
      let (t, st) = from_maps _ _ ks refl in (t, then (deposit_exception {s = s} {k = k} e h g) st)

  -- The same for a turn of the first loop.
  from_exceptions :
      (s : Slots V) (k : Child V) (ks : List (Child V)) → k.phase ≡ exceptions → Leaves s k ks
  from_exceptions s k ks e = elim (both_empty s.exn k.right_exn) [
    | inl (h, g) ↦ from_deposit s k ks e h g
    | inr some_exn ↦
        let (t, st) = from_deposit _ _ ks refl refl refl in
        (t, then (take_exceptions {s = s} {k = k} e some_exn) (then (reduce_exceptions refl) st))
  ]

  returns :
      (s : Slots V) (k : Child V) (ks : List (Child V)) (h : Phase V)
      → k.phase ≡ h
      → h ≢ running
      → Leaves s k ks
  returns s k ks running e ne = absurd (ne refl)
  returns s k ks exceptions e ne = from_exceptions s k ks e
  returns s k ks (took_exceptions l r) e ne =
      let (t, st) = from_exceptions s _ ks refl in
      (t, then (reduce_exceptions {s = s} {k = k} e) st)
  returns s k ks maps e ne = from_maps s k ks e
  returns s k ks (took_maps l r) e ne = from_took_maps s k ks e

  -- A returning child, wherever it stands among its siblings and in its two loops, unlinks itself in
  -- steps of its own, and its siblings stay where they stood.
  pub return_ends :
      (s : Slots V) (left : List (Child V)) (k : Child V) (right : List (Child V))
      → k.phase ≢ running
      → (t : Slots V) × (kept : List (Child V)) × ChildSteps s
          (left ++ (k ∷ right))
          t
          (kept ++ right)
        × (map (λ j. j.phase) kept ≡ map (λ j. j.phase) left)
  return_ends s [] k right ne = let (t, st) = returns s k right k.phase refl ne in (t, [], st, refl)
  return_ends s (j ∷ left) k right ne =
      let (t, kept, st, e) = return_ends (right_slots j) left k right ne in
      (s, with_slots j t ∷ kept, nexts st, ap (λ l. j.phase ∷ l) e)
