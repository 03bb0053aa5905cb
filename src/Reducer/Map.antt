-- ===== src/Reducer/Map.antt =====
-- runtime/cilkred_map.c: the map from reducer ids to views. A view is modelled by its content, of
-- type `A`; the `reduce_fn` of a key's monoid is the parameter `reduce`, which gives the new
-- content of the left view. `none` is a failed assertion or an access out of bounds.
pub mod Wf
pub mod Merge
pub mod Loop
pub mod Refine
pub mod Two
pub mod Twice
use multicilk.Base.{
  ℕ, zero, suc, ◌+◌, ◌-◌, ◌/◌, ◌%◌, ◌^◌, ◌<◌, Bool, true, false, not, ◌&&◌, ◌||◌, Option, none,
  some, List, [], ◌∷◌, ltb, leb, ◌==◌, if◌then◌else◌, is_null, ptr_eq, update, window,
}
use multicilk.Base.Fallible.{◌>>=◌, ◌>>◌, assert}

-- `hyper_id_t` is `uint32_t`; HYPER_ID_VALID is its top bit.
abbrev pub u32 : ℕ
u32 = 2 ^ 32

abbrev pub hyper_id_valid : ℕ
hyper_id_valid = 2 ^ 31

-- `ViewInfo`
pub record ViewInfo (A : Type 0) : Type 0 where
  pub key : Option ℕ
  pub val : Option A

abbrev pub empty_view : {A : Type 0} → ViewInfo A
empty_view = record { key = none; val = none }

-- `struct cilkred_map`
pub record Map (A : Type 0) : Type 0 where
  pub spa_cap : ℕ
  pub num_of_vinfo : ℕ
  pub num_of_logs : ℕ
  pub merging : Bool
  pub log : ℕ → ℕ
  pub vinfo : ℕ → ViewInfo A

-- `merge_kind`
pub data MergeKind : Type 0 where
  merge_unordered merge_into_left merge_into_right : MergeKind

abbrev pub into_right : MergeKind → Bool
into_right MergeKind.merge_into_right = true
into_right _ = false

-- `&map->vinfo[i]`, an access inside the array.
abbrev pub in_bounds : {A : Type 0} → Map A → ℕ → Option (Unit {0})
in_bounds m i = assert (ltb i m.spa_cap)

module _ {A : Type 0} where
  unfoldable pub cilkred_map_log_id : Map A → ℕ → Option (Map A)
  cilkred_map_log_id m id = do
    assert (leb m.num_of_logs (m.spa_cap / 2 + 1))
    assert (leb m.num_of_vinfo m.spa_cap)
    assert (not (m.num_of_vinfo == m.spa_cap))
    some (
        if ltb m.num_of_logs (m.spa_cap / 2)
        then record m {
          log = update m.log m.num_of_logs id;
          num_of_logs = m.num_of_logs + 1;
          num_of_vinfo = m.num_of_vinfo + 1;
        }
        else if m.num_of_logs == m.spa_cap / 2
        then record m { num_of_logs = m.num_of_logs + 1; num_of_vinfo = m.num_of_vinfo + 1 }
        else record m { num_of_vinfo = m.num_of_vinfo + 1 })

  unfoldable pub cilkred_map_unlog_id : Map A → ℕ → Option (Map A)
  cilkred_map_unlog_id m id = do
    assert (leb m.num_of_logs (m.spa_cap / 2 + 1))
    assert (leb m.num_of_vinfo m.spa_cap)
    assert (ltb id m.spa_cap)
    let left = (m.num_of_vinfo + u32 - 1) % u32
    some (record m {
      vinfo = update m.vinfo id empty_view;
      num_of_vinfo = left;
      num_of_logs = if left == 0 then 0 else m.num_of_logs;
    })

  -- The key's `__id_num` decides. The result is the view, or NULL.
  unfoldable pub cilkred_map_lookup : Map A → ℕ → Option (ViewInfo A)
  cilkred_map_lookup m id_num =
      let id = id_num % hyper_id_valid in
      if ltb id_num hyper_id_valid
      then none
      else if leb m.spa_cap id
      then none
      else if is_null (m.vinfo id).key && is_null (m.vinfo id).val
      then none
      else some (m.vinfo id)

  pub cilkred_map_make_map : ℕ → Option (Map A)
  cilkred_map_make_map size = do
    assert (ltb 0 size && ltb size u32)
    some (record {
      spa_cap = size;
      num_of_vinfo = 0;
      num_of_logs = 0;
      merging = false;
      log = λ _. 0;
      vinfo = λ _. empty_view;
    })

  -- The check of `cilkred_map_destroy_map` under DEBUG_REDUCER: no view is left.
  pub no_views : ℕ → (ℕ → ViewInfo A) → Bool
  no_views zero f = true
  no_views (suc n) f = no_views n f && is_null (f n).val

  pub cilkred_map_destroy_map : Bool → Map A → Option (Unit {0})
  unfolding no_views
  cilkred_map_destroy_map debug m = assert (if debug then no_views m.spa_cap m.vinfo else true)

  pub cilkred_map_is_empty : Map A → Bool
  cilkred_map_is_empty m = m.num_of_vinfo == 0

  pub cilkred_map_num_views : Map A → ℕ
  cilkred_map_num_views m = m.num_of_vinfo

  pub cilkred_map_is_leftmost : Map A → Bool
  cilkred_map_is_leftmost m = false

-- A map, and what is left of the views of the other.
abbrev pub Pair : Type 0 → Type 0
Pair A = Map A × (ℕ → ViewInfo A)

module _ {A : Type 0} (reduce : ℕ → A → A → A) where
  -- `reduce_fn(key, left, right)` on two views that must be there.
  unfoldable pub reduce_vals : ℕ → Option A → Option A → Option A
  reduce_vals k (some l) (some r) = some (reduce k l r)
  reduce_vals k none r = none
  reduce_vals k (some l) none = none

  -- The body of both loops of `cilkred_map_merge` at the index `i`.
  unfoldable pub merge_at : MergeKind → ℕ → Pair A → Option (Pair A)
  merge_at kind i (this, other) = do
    in_bounds this i
    let v = this.vinfo i
    let o = other i
    elim v.key [
      | some k ↦ do
        assert (ptr_eq o.key (some k))
        reduced ← (if into_right kind then reduce_vals k o.val v.val else reduce_vals k v.val o.val)
        some (
          record this { vinfo = update this.vinfo i (record { key = some k; val = some reduced }) },
          update other i empty_view,
        )
      | none ↦ do
        assert (is_null v.val)
        logged ← cilkred_map_log_id (record this { vinfo = update this.vinfo i o }) i
        some (logged, update other i v)
    ]

  -- The first loop: over the entries of the log.
  unfoldable pub merge_log : MergeKind → List ℕ → Pair A → Option (Pair A)
  merge_log kind [] p = some p
  merge_log kind (i ∷ is) p = merge_at kind i p >>= λ q. merge_log kind is q

  -- The second loop: over all slots, those without a key left out.
  pub merge_scan : MergeKind → List ℕ → Pair A → Option (Pair A)
  merge_scan kind [] p = some p
  merge_scan kind (i ∷ is) p =
      (if is_null (p.1 i).key then some p else merge_at kind i p) >>= λ q. merge_scan kind is q

  unfoldable pub merge_views : MergeKind → Map A → Map A → Option (Pair A)
  unfolding merge_log merge_scan
  merge_views kind this other =
      if leb other.num_of_logs (other.spa_cap / 2)
      then merge_log kind (window other.log other.num_of_logs 0) (this, other.vinfo)
      else merge_scan kind (window (λ i. i) other.spa_cap 0) (this, other.vinfo)

  -- The result is the map merged into; the other is destroyed.
  unfoldable pub cilkred_map_merge : Bool → Map A → Map A → MergeKind → Option (Map A)
  cilkred_map_merge debug this other kind =
      let marked = record this { merging = true } in
      if other.num_of_vinfo == 0
      then cilkred_map_destroy_map debug other >> some marked
      else merge_views kind marked other >>= λ p.
          cilkred_map_destroy_map debug (record other { vinfo = p.1 })
          >> some (record p.0 { merging = false })

  -- `__cilkrts_internal_merge_two_rmaps`; NULL is `none`.
  pub merge_two_rmaps : Bool → Option (Map A) → Option (Map A) → Option (Option (Map A))
  unfolding cilkred_map_is_leftmost cilkred_map_num_views
  merge_two_rmaps debug none right = some right
  merge_two_rmaps debug (some l) none = some (some l)
  merge_two_rmaps debug (some l) (some r) =
      if cilkred_map_is_leftmost l || ltb (cilkred_map_num_views r) (cilkred_map_num_views l)
      then (cilkred_map_merge debug l r MergeKind.merge_into_left >>= λ m. some (some m))
      else cilkred_map_merge debug r l MergeKind.merge_into_right >>= λ m. some (some m)
