-- ===== src/Reducer/Map/Twice.antt =====
-- An id that stands twice in the log of a map: `cilkred_map_merge` of runtime/cilkred_map.c fails.
use multicilk.Base.{
  ℕ, ◌≡◌, ◌≢◌, inl, inr, refl, sym, ◌++◌, window, ◌/◌, ◌≤◌, Bool, true, none, some, List, [], ◌∷◌,
  Option-cases, arith,
}
use multicilk.Deque.Links.{Fresh}
use multicilk.Reducer.Map.{
  Map, MergeKind, Pair, cilkred_map_log_id, merge_at, merge_log, merge_views, cilkred_map_merge,
}

module _ {A : Type 0} (reduce : ℕ → A → A → A) where
  -- The slot `i` was merged: its view is in this map, and not in the other.
  record Merged (i : ℕ) (p : Pair A) : Type 0 where
    here : (k : ℕ) × ((p.0.vinfo i).key ≡ some k)
    gone : (p.1 i).key ≡ none

  again-fails :
      (kind : MergeKind) (i : ℕ) (p : Pair A) → Merged i p → merge_at reduce kind i p ≡ none
  unfolding merge_at
  again-fails kind i p h = let (k, e) = h.here in ground (arith, e, h.gone)

  moved-eq :
      (kind : MergeKind) (i c : ℕ) (p q : Pair A)
      → (p.1 i).key ≡ some c
      → merge_at reduce kind i p ≡ some q
      → Merged i q
  unfolding merge_at cilkred_map_log_id
  moved-eq kind i c p q e run = record {
    here = (c, grind (arith, e, run));
    gone = grind (arith, e, run);
  }

  kept-eq :
      (kind : MergeKind) (i j : ℕ) (p q : Pair A)
      → j ≢ i
      → Merged i p
      → merge_at reduce kind j p ≡ some q
      → Merged i q
  unfolding merge_at cilkred_map_log_id
  kept-eq kind i j p q ne m run = record {
    here = (m.here.0, grind (arith, m.here, run));
    gone = grind (arith, m.gone, run);
  }

  later-fails :
      (kind : MergeKind) (i : ℕ) (js rest : List ℕ) (p : Pair A)
      → Fresh i js
      → Merged i p
      → merge_log reduce kind (js ++ (i ∷ rest)) p ≡ none
  unfolding merge_log
  later-fails kind i [] rest p f m = rw (again-fails kind i p m) refl
  later-fails kind i (j ∷ js) rest p f m = elim (Option-cases (merge_at reduce kind j p)) [
    | inl e ↦ rw e refl
    | inr (q, e) ↦
        let ih =
          later-fails kind i js rest q f.1 (kept-eq kind i j p q (λ same. f.0 (sym same)) m e) in
        rw e ih
  ]

  log_twice-fails :
      (kind : MergeKind) (i c : ℕ) (js rest : List ℕ) (p : Pair A)
      → (p.1 i).key ≡ some c
      → Fresh i js
      → merge_log reduce kind (i ∷ (js ++ (i ∷ rest))) p ≡ none
  unfolding merge_log
  log_twice-fails kind i c js rest p e f = elim (Option-cases (merge_at reduce kind i p)) [
    | inl none_left ↦ rw none_left refl
    | inr (q, run) ↦ rw run (later-fails kind i js rest q f (moved-eq kind i c p q e run))
  ]

  -- A map whose log starts with an id that it holds twice cannot be merged into another.
  pub merge_twice_fails :
      (debug : Bool) (kind : MergeKind) (this other : Map A) (i c : ℕ) (js rest : List ℕ)
      → (other.vinfo i).key ≡ some c
      → window other.log other.num_of_logs 0 ≡ i ∷ (js ++ (i ∷ rest))
      → Fresh i js
      → other.num_of_logs ≤ other.spa_cap / 2
      → other.num_of_vinfo ≢ 0
      → cilkred_map_merge reduce debug this other kind ≡ none
  unfolding cilkred_map_merge merge_views
  merge_twice_fails debug kind this other i c js rest key logged f few some_views = ground (
    arith,
    logged,
    few,
    some_views,
    log_twice-fails kind i c js rest (record this { merging = true }, other.vinfo) key f,
  )
