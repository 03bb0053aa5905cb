-- ===== src/Reducer/Map/Two.antt =====
-- `__cilkrts_internal_merge_two_rmaps` of runtime/reducer_impl.c: the smaller map goes into the
-- larger, and the order of the two does not depend on which is which.
use multicilk.Base.{ℕ, ◌<◌, Bool, some, ◌≡◌, sym, ◌∙◌, ltb, Bool-cases, inl, inr, arith}
use multicilk.Reducer.Map.{Map, MergeKind, cilkred_map_num_views, merge_two_rmaps}
use multicilk.Reducer.Map.Wf.{IsValid}
use multicilk.Reducer.Map.Merge.{Agree, join, product}
use multicilk.Reducer.Map.Refine.{merge_refines}

module _ {A : Type 0} (reduce : ℕ → A → A → A) where
  -- What the call promises of two maps that are there.
  pub record Combined (l r m : Map A) : Type 0 where
    pub valid : IsValid m
    pub cap : m.spa_cap ≡ l.spa_cap
    pub views : (j : ℕ) → j < l.spa_cap → m.vinfo j ≡ product reduce (l.vinfo j) (r.vinfo j)

  -- Two valid maps of one size whose views of a slot belong to one reducer are merged with no
  -- failed assertion, and every slot of the result holds the left view times the right view,
  -- whichever of the two maps is merged into the other.
  pub merge_two_rmaps_refines :
      (debug : Bool) (l r : Map A)
      → IsValid l
      → IsValid r
      → l.spa_cap ≡ r.spa_cap
      → ((j : ℕ) → Agree (l.vinfo j) (r.vinfo j))
      → (m : Map A) × (merge_two_rmaps reduce debug (some l) (some r) ≡ some (some m))
        × Combined l r m
  unfolding merge_two_rmaps join
  merge_two_rmaps_refines debug l r ok ok' same ag =
      elim (Bool-cases (ltb (cilkred_map_num_views r) (cilkred_map_num_views l))) [
        | inl more ↦
            let (m, e, p) =
              merge_refines reduce debug MergeKind.merge_into_left l r ok ok' (sym same) ag in
            (
              m,
              unfold cilkred_map_num_views in rw (more, e),
              record { valid = p.valid; cap = p.cap; views = p.views },
            )
        | inr less ↦
            let (m, e, p) =
              merge_refines reduce debug MergeKind.merge_into_right r l ok' ok same
                (λ j a b. sym (ag j b a)) in
            (
              m,
              unfold cilkred_map_num_views in rw (less, e),
              record {
                valid = p.valid;
                cap = p.cap ∙ sym same;
                views = λ j h. p.views j (omega (arith, same));
              },
            )
      ]
