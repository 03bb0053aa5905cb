-- ===== src/Reducer/Map/Refine.antt =====
-- `cilkred_map_merge` and `merge_two_rmaps` against the product of the views, slot by slot.
use multicilk.Base.{
  ℕ, zero, suc, ◌+◌, ◌/◌, ◌≤◌, ◌<◌, Bool, true, false, some, List, ◌≡◌, refl, sym, subst, ◌⊎◌,
  le→leb, ◌==◌, is_null, member, window, Bool-cases, inl, inr, count_below-eq_zero, member-window,
  window-NoDup, arith,
}
use native.Mathlib.Decide.{dec_le}
use multicilk.Reducer.Map.{
  ViewInfo, Map, MergeKind, merge_log, merge_scan, merge_views, cilkred_map_merge,
  cilkred_map_destroy_map, no_views,
}
use multicilk.Reducer.Map.Wf.{occupied, IsValid, Logging}
use multicilk.Reducer.Map.Merge.{Agree, join}
use multicilk.Reducer.Map.Loop.{Ready, Below, Looped, merge_log_lem, merge_scan_lem, join_none}

module _ {A : Type 0} where
  Ready-window :
      (cap n j : ℕ) (f : ℕ → ℕ) (other : ℕ → ViewInfo A)
      → ((k : ℕ) → k < j + n → (f k < cap) × (occupied (other (f k)) ≡ true))
      → Ready cap other (window f n j)
  unfolding window
  Ready-window cap zero j f other h = tt
  Ready-window cap (suc n) j f other h =
      let p = h j (omega arith) in
      (p.0, p.1, Ready-window cap n (j + 1) f other (λ k l. h k (omega arith)))

  no_views-empty :
      (n : ℕ) (f : ℕ → ViewInfo A)
      → ((i : ℕ) → i < n → is_null (f i).val ≡ true)
      → no_views n f ≡ true
  unfolding no_views
  no_views-empty zero f h = refl
  no_views-empty (suc n) f h =
      ground (arith, no_views-empty n f (λ i l. h i (omega arith)), h n (omega arith))

destroyed :
    {A : Type 0} (debug : Bool) (m : Map A)
    → ((i : ℕ) → i < m.spa_cap → is_null (m.vinfo i).val ≡ true)
    → cilkred_map_destroy_map debug m ≡ some tt
unfolding cilkred_map_destroy_map
destroyed debug m h = ground (arith, no_views-empty m.spa_cap m.vinfo h)

Below-window : (top n j : ℕ) → j + n ≤ top → Below top (window (λ i. i) n j)
unfolding window
Below-window top zero j h = tt
Below-window top (suc n) j h = (omega arith, Below-window top n (j + 1) (omega arith))

module _ {A : Type 0} (reduce : ℕ → A → A → A) where
  -- All slots of the map are merged, and nothing is left in the other.
  pub record Merged (kind : MergeKind) (this other : Map A) : Type 0 where
    pub last : Map A
    pub left : ℕ → ViewInfo A
    pub result : merge_views reduce kind this other ≡ some (last, left)
    pub valid : IsValid last
    pub cap : last.spa_cap ≡ this.spa_cap
    pub views :
        (j : ℕ) → j < this.spa_cap → last.vinfo j ≡ join reduce kind (this.vinfo j) (other.vinfo j)
    pub gone : (j : ℕ) → j < this.spa_cap → is_null (left j).val ≡ true

  module _ (kind : MergeKind) (this other : Map A) (ok : IsValid this) (ok' : IsValid other)
      (same : other.spa_cap ≡ this.spa_cap)
      (ag : (j : ℕ) → Agree (this.vinfo j) (other.vinfo j)) where
    -- A slot that the other map leaves free joins to what this map has there.
    unlisted :
        (j : ℕ)
        → occupied (other.vinfo j) ≡ false
        → join reduce kind (this.vinfo j) (other.vinfo j) ≡ this.vinfo j
    unlisted j e =
        join_none reduce kind (this.vinfo j) (other.vinfo j) e (ok.paired j) (ok'.paired j)

    Merged-by_log : Logging other → Merged kind this other
    Merged-by_log log = record {
      last = r.last;
      left = r.left;
      result = unfold merge_views in rw (le→leb _ _ log) r.result;
      valid = r.valid;
      cap = r.cap;
      views = λ j h. ground (arith, r.views j, unlisted j, covers j h);
      gone = λ j h. ground (arith, r.cleared j, covers j h, ok'.paired j);
    }
      where
        is : List ℕ
        is = window other.log other.num_of_logs 0

        r : Looped reduce (merge_log reduce kind is (this, other.vinfo)) kind this other.vinfo is
        r =
            merge_log_lem reduce kind is this other.vinfo ok
              (window-NoDup other.log other.num_of_logs 0
                (λ a b p q e. ok'.once log a b (omega arith) (omega arith) e))
              (rw (← same) (
                Ready-window other.spa_cap other.num_of_logs 0 other.log other.vinfo
                  (λ k l. ok'.live log k (omega arith))))
              ok'.paired ag

        covers :
            (j : ℕ) → j < this.spa_cap → (occupied (other.vinfo j) ≡ false) ⊎ (member j is ≡ true)
        covers j h = elim (Bool-cases (occupied (other.vinfo j))) [
          | inr e ↦ inl e
          | inl e ↦
              let (a, l, at) = ok'.listed log j (omega (arith, same)) e in
              inr (
                subst (λ (x : ℕ). member x is ≡ true) at
                  (member-window other.log other.num_of_logs 0 a (omega arith) (omega arith)))
        ]

    Merged-by_scan : other.spa_cap / 2 < other.num_of_logs → Merged kind this other
    Merged-by_scan full = record {
      last = r.last;
      left = r.left;
      result = unfold merge_views in ground (arith, r.result);
      valid = r.valid;
      cap = r.cap;
      views = λ j h. ground (arith, r.views j, covers j h);
      gone = λ j h. ground (arith, r.cleared j, covers j h);
    }
      where
        is : List ℕ
        is = window (λ i. i) other.spa_cap 0

        r : Looped reduce (merge_scan reduce kind is (this, other.vinfo)) kind this other.vinfo is
        r =
            merge_scan_lem reduce kind is this other.vinfo ok
              (window-NoDup (λ i. i) other.spa_cap 0 (λ a b p q e. e))
              (Below-window this.spa_cap other.spa_cap 0 (omega (arith, same))) ok'.paired ag

        covers : (j : ℕ) → j < this.spa_cap → member j is ≡ true
        covers j h = member-window (λ i. i) other.spa_cap 0 j (omega arith) (omega (arith, same))

    merged : Merged kind this other
    merged = elim (dec_le other.num_of_logs (other.spa_cap / 2)) [
      | yes log ↦ Merged-by_log log
      | no full ↦ Merged-by_scan (omega arith)
    ]

  marked-IsValid : (this : Map A) (b : Bool) → IsValid this → IsValid (record this { merging = b })
  marked-IsValid this b ok = record {
    small = ok.small;
    counted = ok.counted;
    paired = ok.paired;
    logs = ok.logs;
    live = ok.live;
    once = ok.once;
    listed = ok.listed;
  }

  -- What a merge promises of the map that it returns.
  pub record Product (kind : MergeKind) (this other m : Map A) : Type 0 where
    pub valid : IsValid m
    pub cap : m.spa_cap ≡ this.spa_cap
    pub views :
        (j : ℕ) → j < this.spa_cap → m.vinfo j ≡ join reduce kind (this.vinfo j) (other.vinfo j)
    pub marked : m.merging ≡ (other.num_of_vinfo == 0)

  -- Two valid maps of one size whose views of a slot belong to one reducer are merged with no
  -- failed assertion, the check that `cilkred_map_destroy_map` makes in debug mode included. The
  -- result is valid, and holds in every slot the product of the two views, the left one first as
  -- the kind says. Its `merging` mark is cleared, but for an empty other map, where it stays set.
  pub merge_refines :
      (debug : Bool) (kind : MergeKind) (this other : Map A)
      → IsValid this
      → IsValid other
      → other.spa_cap ≡ this.spa_cap
      → ((j : ℕ) → Agree (this.vinfo j) (other.vinfo j))
      → (m : Map A) × (cilkred_map_merge reduce debug this other kind ≡ some m)
        × Product kind this other m
  unfolding cilkred_map_merge
  merge_refines debug kind this other ok ok' same ag = elim (Bool-cases (other.num_of_vinfo == 0)) [
    | inl none_left ↦ (
      record this { merging = true },
      ground (
        arith,
        destroyed debug other (λ i h. ground (arith, empties none_left i h, ok'.paired i)),
      ),
      record {
        valid = marked-IsValid this true ok;
        cap = refl;
        views = λ j h.
            sym (
              unlisted kind this other ok ok' same ag j
                (empties none_left j (omega (arith, same))));
        marked = sym none_left;
      },
    )
    | inr some_left ↦
        let r =
          merged kind (record this { merging = true }) other (marked-IsValid this true ok) ok' same
            ag in
        (
          record r.last { merging = false },
          ground (
            arith,
            r.result,
            destroyed debug (record other { vinfo = r.left })
                (λ i h. r.gone i (omega (arith, same))),
          ),
          record {
            valid = marked-IsValid r.last false r.valid;
            cap = r.cap;
            views = r.views;
            marked = sym some_left;
          },
        )
  ]
    where
      empties :
          other.num_of_vinfo == 0 ≡ true
          → (i : ℕ) → i < other.spa_cap
          → occupied (other.vinfo i) ≡ false
      empties e i h =
          count_below-eq_zero occupied other.spa_cap other.vinfo (ground (arith, ok'.counted)) i h
