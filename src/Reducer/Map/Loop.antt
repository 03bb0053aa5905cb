-- ===== src/Reducer/Map/Loop.antt =====
-- The two loops of `cilkred_map_merge` in runtime/cilkred_map.c, over any list of slots.
use multicilk.Base.{
  ℕ, ◌<◌, true, false, Option, some, List, [], ◌∷◌, ◌≡◌, refl, ◌∙◌, if◌then◌else◌, is_null, update,
  member, NoDup, Bool-cases, inl, inr, arith,
}
use multicilk.Reducer.Map.{ViewInfo, Map, empty_view, MergeKind, merge_log, merge_scan}
use multicilk.Reducer.Map.Wf.{occupied, IsValid}
use multicilk.Reducer.Map.Merge.{Paired, Agree, join, product, Stepped, step}

-- The slots `is` are in the map, and the other map has a view in each.
abbrev pub Ready : {A : Type 0} → ℕ → (ℕ → ViewInfo A) → List ℕ → Type 0
Ready cap other [] = Unit
Ready cap other (i ∷ is) = (i < cap) × (occupied (other i) ≡ true) × Ready cap other is

abbrev pub Below : ℕ → List ℕ → Type 0
Below cap [] = Unit
Below cap (i ∷ is) = (i < cap) × Below cap is

module _ {A : Type 0} (reduce : ℕ → A → A → A) where
  -- What the loop has done to the slots `is`, and to no others.
  pub record Looped (run : Option (Map A × (ℕ → ViewInfo A))) (kind : MergeKind) (this : Map A)
      (other : ℕ → ViewInfo A) (is : List ℕ) : Type 0 where
    pub last : Map A
    pub left : ℕ → ViewInfo A
    pub result : run ≡ some (last, left)
    pub valid : IsValid last
    pub cap : last.spa_cap ≡ this.spa_cap
    pub marked : last.merging ≡ this.merging
    pub views :
        (j : ℕ)
        → last.vinfo j
          ≡ (if member j is then join reduce kind (this.vinfo j) (other j) else this.vinfo j)
    pub cleared : (j : ℕ) → left j ≡ (if member j is then empty_view else other j)

  Ready-update :
      (cap i : ℕ) (other : ℕ → ViewInfo A) (is : List ℕ)
      → member i is ≡ false
      → Ready cap other is
      → Ready cap (update other i empty_view) is
  Ready-update cap i other [] no_i r = tt
  Ready-update cap i other (j ∷ js) no_i r =
      (r.0, ground arith, Ready-update cap i other js (ground arith) r.2)

  -- The first step at `i`, then the rest of the loop.
  pub Looped-cons :
      (kind : MergeKind) (this t : Map A) (other : ℕ → ViewInfo A) (i : ℕ) (is : List ℕ)
      → member i is ≡ false
      → Stepped reduce kind this other i t
      → (rest : Option (Map A × (ℕ → ViewInfo A)))
      → Looped rest kind t (update other i empty_view) is
      → Looped rest kind this other (i ∷ is)
  Looped-cons kind this t other i is no_i st rest r = record {
    last = r.last;
    left = r.left;
    result = r.result;
    valid = r.valid;
    cap = r.cap ∙ st.cap;
    marked = r.marked ∙ st.marked;
    views = λ j. ground (arith, r.views j, st.views j, no_i);
    cleared = λ j. ground (arith, r.cleared j);
  }

  pub merge_log_lem :
      (kind : MergeKind) (is : List ℕ) (this : Map A) (other : ℕ → ViewInfo A)
      → IsValid this
      → NoDup is
      → Ready this.spa_cap other is
      → ((j : ℕ) → Paired (other j))
      → ((j : ℕ) → Agree (this.vinfo j) (other j))
      → Looped (merge_log reduce kind is (this, other)) kind this other is
  unfolding merge_log
  merge_log_lem kind [] this other ok nd r pd ag = record {
    last = this;
    left = other;
    result = refl;
    valid = ok;
    cap = refl;
    marked = refl;
    views = λ j. refl;
    cleared = λ j. refl;
  }
  merge_log_lem kind (i ∷ is) this other ok nd r pd ag =
      let (t, st) = step reduce kind this other i ok r.0 r.1 (pd i) (ag i) in
      rw st.run (
        Looped-cons kind this t other i is nd.0 st _ (
          merge_log_lem kind is t (update other i empty_view) st.valid nd.1
            (rw st.cap (Ready-update this.spa_cap i other is nd.0 r.2)) (λ j. ground (arith, pd j))
            (λ j. ground (arith, ag j, st.views j))))

  empty_eq : (v : ViewInfo A) → occupied v ≡ false → Paired v → v ≡ empty_view
  empty_eq v e p = ground arith

  pub join_none :
      (kind : MergeKind) (v o : ViewInfo A)
      → occupied o ≡ false
      → Paired v
      → Paired o
      → join reduce kind v o ≡ v
  unfolding join product
  join_none kind v o e pv po = ground (arith, empty_eq v, empty_eq o e po)

  -- A slot that the scan passes over counts as merged.
  Looped-skip :
      (kind : MergeKind) (this : Map A) (other : ℕ → ViewInfo A) (i : ℕ) (is : List ℕ)
      → IsValid this
      → occupied (other i) ≡ false
      → Paired (other i)
      → (rest : Option (Map A × (ℕ → ViewInfo A))) → Looped rest kind this other is
      → Looped rest kind this other (i ∷ is)
  Looped-skip kind this other i is ok e p rest r = record {
    last = r.last;
    left = r.left;
    result = r.result;
    valid = r.valid;
    cap = r.cap;
    marked = r.marked;
    views =
        λ j. ground (arith, r.views j, join_none kind (this.vinfo i) (other i) e (ok.paired i) p);
    cleared = λ j. ground (arith, r.cleared j, empty_eq (other i) e p);
  }

  pub merge_scan_lem :
      (kind : MergeKind) (is : List ℕ) (this : Map A) (other : ℕ → ViewInfo A)
      → IsValid this
      → NoDup is
      → Below this.spa_cap is
      → ((j : ℕ) → Paired (other j))
      → ((j : ℕ) → Agree (this.vinfo j) (other j))
      → Looped (merge_scan reduce kind is (this, other)) kind this other is
  unfolding merge_scan
  merge_scan_lem kind [] this other ok nd b pd ag = record {
    last = this;
    left = other;
    result = refl;
    valid = ok;
    cap = refl;
    marked = refl;
    views = λ j. refl;
    cleared = λ j. refl;
  }
  merge_scan_lem kind (i ∷ is) this other ok nd b pd ag =
      elim (Bool-cases (is_null (other i).key)) [
        | inl skip ↦ rw skip (
            Looped-skip kind this other i is ok (ground arith) (pd i) _
              (merge_scan_lem kind is this other ok nd.1 b.1 pd ag))
        | inr take ↦
            let (t, st) = step reduce kind this other i ok b.0 (ground arith) (pd i) (ag i) in
            rw (take, st.run)
              (Looped-cons kind this t other i is nd.0 st _ (
                merge_scan_lem kind is t (update other i empty_view) st.valid nd.1 (rw st.cap b.1)
                  (λ j. ground (arith, pd j)) (λ j. ground (arith, ag j, st.views j))))
      ]
