-- ===== src/Join/Maps.antt =====
-- The maps of runtime/cilkred_map.c as views of the return protocol: what a slot holds for the
-- reducer `k`, under the reduce function of `k`.
use multicilk.Base.{ℕ, ◌<◌, Bool, Option, none, some, ◌≡◌, ◌⊎◌, inl, inr, refl, ap, ◌∙◌, arith}
use multicilk.Join.{Views}
use multicilk.Reducer.Map.{ViewInfo, Map, merge_two_rmaps, reduce_vals}
use multicilk.Reducer.Map.Wf.{IsValid}
use multicilk.Reducer.Map.Merge.{Agree, Paired, product}
use multicilk.Reducer.Map.Two.{merge_two_rmaps_refines}

module _ {A : Type 0} where
  abbrev pub join_views : (A → A → A) → Option A → Option A → Option A
  join_views op none r = r
  join_views op (some a) none = some a
  join_views op (some a) (some b) = some (op a b)

  join_views-none : (op : A → A → A) (a : Option A) → join_views op a none ≡ a
  join_views-none op none = refl
  join_views-none op (some a) = refl

  join_views_assoc :
      (op : A → A → A)
      → ((a b c : A) → op (op a b) c ≡ op a (op b c))
      → (a b c : Option A)
      → join_views op (join_views op a b) c ≡ join_views op a (join_views op b c)
  join_views_assoc op h none b c = refl
  join_views_assoc op h (some a) none c = refl
  join_views_assoc op h (some a) (some b) none = refl
  join_views_assoc op h (some a) (some b) (some c) = ap some (h a b c)

  -- An associative reduce function makes the contents of a slot views; an empty slot is the unit.
  pub slot_views :
      (op : A → A → A) → ((a b c : A) → op (op a b) c ≡ op a (op b c)) → Views (Option A)
  slot_views op h = record {
    empty = none;
    join = join_views op;
    empty-join = λ a. refl;
    join-empty = join_views-none op;
    join_assoc = join_views_assoc op h;
  }

  product-join :
      (reduce : ℕ → A → A → A) (k : ℕ) (l r : ViewInfo A)
      → (l.key ≡ none) ⊎ (l.key ≡ some k)
      → Paired l
      → Paired r
      → (product reduce l r).val ≡ join_views (reduce k) l.val r.val
  unfolding product reduce_vals
  product-join reduce k l r (inl e) p q = ground arith
  product-join reduce k l r (inr e) p q = ground arith

  -- For an associative reduce function and two valid maps of one size, whose views of a slot that both
  -- occupy belong to one reducer, `merge_two_rmaps` succeeds, and in every slot in which the left map
  -- has no key or the key `k` it gives the join of the two views, as `slot_views` has it for `k`.
  pub merge_two_rmaps-join :
      (reduce : ℕ → A → A → A)
      (assoc : (k : ℕ) (a b c : A) → reduce k (reduce k a b) c ≡ reduce k a (reduce k b c))
      (debug : Bool) (l r : Map A) (j k : ℕ)
      → IsValid l
      → IsValid r
      → l.spa_cap ≡ r.spa_cap
      → ((i : ℕ) → Agree (l.vinfo i) (r.vinfo i))
      → j < l.spa_cap
      → ((l.vinfo j).key ≡ none) ⊎ ((l.vinfo j).key ≡ some k)
      → (m : Map A) × (merge_two_rmaps reduce debug (some l) (some r) ≡ some (some m))
        × ((m.vinfo j).val ≡ (slot_views (reduce k) (assoc k)).join (l.vinfo j).val (r.vinfo j).val)
  unfolding slot_views
  merge_two_rmaps-join reduce assoc debug l r j k vl vr same agree h key =
      let (m, e, c) = merge_two_rmaps_refines reduce debug l r vl vr same agree in
      (
        m,
        e,
        ap (λ v. v.val) (c.views j h)
            ∙ product-join reduce k (l.vinfo j) (r.vinfo j) key (vl.paired j) (vr.paired j),
      )
