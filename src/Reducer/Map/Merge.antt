-- ===== src/Reducer/Map/Merge.antt =====
-- `cilkred_map_merge` of runtime/cilkred_map.c against the pointwise product of the views.
use multicilk.Base.{
  ℕ, ◌<◌, true, false, none, some, ◌≡◌, inl, inr, refl, if◌then◌else◌, is_null, update, Bool-cases,
  arith,
}
use multicilk.Reducer.Map.{ViewInfo, Map, empty_view, MergeKind, into_right, reduce_vals, merge_at}
use multicilk.Reducer.Map.Wf.{
  occupied, IsValid, put_view, put_view-eq, logged, logged-IsValid, replaced, replaced-IsValid,
}

-- A view whose key and content are there together.
abbrev pub Paired : {A : Type 0} → ViewInfo A → Type 0
Paired v = is_null v.key ≡ is_null v.val

-- Two views of one slot belong to one reducer.
abbrev pub Agree : {A : Type 0} → ViewInfo A → ViewInfo A → Type 0
Agree v o = occupied v ≡ true → occupied o ≡ true → v.key ≡ o.key

module _ {A : Type 0} (reduce : ℕ → A → A → A) where
  -- The product of two views, the first one to the left.
  unfoldable pub product : ViewInfo A → ViewInfo A → ViewInfo A
  product l r = elim l.key [
    | none ↦ r
    | some k ↦
        if is_null r.key then l else record { key = some k; val = reduce_vals reduce k l.val r.val }
  ]

  -- What a slot of the map merged into becomes.
  unfoldable pub join : MergeKind → ViewInfo A → ViewInfo A → ViewInfo A
  join kind v o = if into_right kind then product o v else product v o

  pub record Stepped (kind : MergeKind) (this : Map A) (other : ℕ → ViewInfo A) (i : ℕ) (t : Map A)
      : Type 0 where
    pub run : merge_at reduce kind i (this, other) ≡ some (t, update other i empty_view)
    pub valid : IsValid t
    pub cap : t.spa_cap ≡ this.spa_cap
    pub marked : t.merging ≡ this.merging
    pub views : (j : ℕ) → t.vinfo j ≡ update this.vinfo i (join kind (this.vinfo i) (other i)) j

  module _ (kind : MergeKind) (this : Map A) (other : ℕ → ViewInfo A) (i : ℕ) (ok : IsValid this)
      (low : i < this.spa_cap) (full : occupied (other i) ≡ true) (paired : Paired (other i))
      (agree : Agree (this.vinfo i) (other i)) where
    free_view : occupied (this.vinfo i) ≡ false → this.vinfo i ≡ empty_view
    free_view free = ground (arith, ok.paired i)

    -- The slot is free: the view moves.
    moved : occupied (this.vinfo i) ≡ false → Stepped kind this other i (logged this i (other i))
    moved free = record {
      run =
          unfold merge_at put_view in
          ground (arith, free_view free, put_view-eq this i (other i) ok low free, ok.paired i);
      valid = logged-IsValid this i (other i) ok low free full (ground arith);
      cap = unfold logged in refl;
      marked = unfold logged in refl;
      views = unfold logged join product in λ j. ground arith;
    }

    -- The slot has a view: the two are reduced.
    reduced : occupied (this.vinfo i) ≡ true → (t : Map A) × Stepped kind this other i t
    reduced there = (
      replaced this i (join kind (this.vinfo i) (other i)),
      record {
        run =
            unfold merge_at replaced join product reduce_vals in
            ground (arith, agree there full, ok.paired i);
        valid =
            replaced-IsValid this i (join kind (this.vinfo i) (other i)) ok low there
              (unfold join product in ground arith)
              (unfold join product reduce_vals in ground (arith, agree there full, ok.paired i));
        cap = unfold replaced in refl;
        marked = unfold replaced in refl;
        views = unfold replaced in λ j. refl;
      },
    )

    pub step : (t : Map A) × Stepped kind this other i t
    step = elim (Bool-cases (occupied (this.vinfo i))) [
      | inl there ↦ reduced there
      | inr free ↦ (_, moved free)
    ]
