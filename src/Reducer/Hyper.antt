-- ===== src/Reducer/Hyper.antt =====
-- The hyperobjects of runtime/reducer_impl.c, for calls on a worker `w`: `__cilkrts_hyper_create`,
-- `__cilkrts_hyper_destroy`, `__cilkrts_hyper_lookup` and `reducers_import`. A hyperobject is named by its
-- address. Its initial, leftmost view and the view that its `identity_fn` makes are parameters.
-- `force_reduce` is off. `none` is a call that ends in `cilkrts_bug`, or follows NULL.
use multicilk.Base.{
  ℕ, ◌+◌, ◌-◌, not, ◌&&◌, Option, none, some, List, [], ◌∷◌, ltb, leb, ◌==◌, if◌then◌else◌, is_null,
  update, window,
}
use multicilk.Base.Fallible.{◌>>=◌, ◌>>◌, assert}
use multicilk.Reducer.Map.{
  hyper_id_valid, Map, in_bounds, cilkred_map_make_map, cilkred_map_lookup, cilkred_map_log_id,
  cilkred_map_unlog_id,
}
use multicilk.Reducer.Ids.{IdManager, reducer_id_get, reducer_id_free}

-- What the calls change: the `__id_num` of the hyperobjects, the id manager, and the map of the worker.
pub record Hyper (A : Type 0) : Type 0 where
  pub id_num : ℕ → ℕ
  pub manager : IdManager
  pub reducer_map : Option (Map A)

module _ {A : Type 0} where
  -- `install_new_reducer_map` where the worker has none.
  unfoldable pub current_map : Hyper A → Option (Map A)
  current_map s = elim s.reducer_map [
    | some h ↦ some h
    | none ↦ cilkred_map_make_map s.manager.spa_cap
  ]

  -- A view in the slot of `id`, and in the log.
  unfoldable pub install_view : Map A → ℕ → ℕ → A → Option (Map A)
  install_view h id key val = do
    in_bounds h id
    cilkred_map_log_id
        (record h { vinfo = update h.vinfo id (record { key = some key; val = some val }) }) id

  unfoldable pub hyper_create : (ℕ → A) → ℕ → ℕ → Hyper A → Option (Hyper A)
  hyper_create leftmost w key s = do
    got ← reducer_id_get s.manager (some w)
    let id_num = got.0 + hyper_id_valid
    h ← current_map (record s { manager = got.1 })
    assert (is_null (cilkred_map_lookup h id_num))
    assert (not h.merging)
    h' ← install_view h got.0 key (leftmost key)
    some (record { id_num = update s.id_num key id_num; manager = got.1; reducer_map = some h' })

  unfoldable pub hyper_destroy : ℕ → ℕ → Hyper A → Option (Hyper A)
  hyper_destroy w key s = do
    assert (leb hyper_id_valid (s.id_num key))
    let id = s.id_num key - hyper_id_valid
    h ← s.reducer_map
    assert (not h.merging)
    h' ← cilkred_map_unlog_id h id
    m ← reducer_id_free s.manager (some w) id
    some (record { id_num = update s.id_num key id; manager = m; reducer_map = some h' })

  -- The view that the lookup gives, and the state after it.
  unfoldable pub hyper_lookup : (ℕ → A) → ℕ → Hyper A → Option (Option A × Hyper A)
  hyper_lookup identity key s = do
    assert (leb hyper_id_valid (s.id_num key))
    let id = s.id_num key - hyper_id_valid
    h ← current_map s
    assert (not h.merging)
    elim (cilkred_map_lookup h (s.id_num key)) [
      | some v ↦ some (v.val, record s { reducer_map = some h })
      | none ↦ do
        assert (ltb id h.spa_cap)
        assert (is_null (h.vinfo id).key && is_null (h.vinfo id).val)
        h' ← install_view h id key (identity key)
        some (some (identity key), record s { reducer_map = some h' })
    ]

  -- One turn of the loop of `reducers_import`: the global reducer of id `i` enters the map.
  pub import_one : (ℕ → A) → (ℕ → ℕ) → (ℕ → Option ℕ) → ℕ → Map A → Option (Map A)
  import_one leftmost id_num global i map = do
    in_bounds map i
    key ← global i
    assert (leb hyper_id_valid (id_num key))
    cilkred_map_log_id
        (record map {
          vinfo = update map.vinfo i (record { key = some key; val = some (leftmost key) });
        })
        (id_num key - hyper_id_valid)

  pub import_all : (ℕ → A) → (ℕ → ℕ) → (ℕ → Option ℕ) → List ℕ → Map A → Option (Map A)
  import_all leftmost id_num global [] map = some map
  import_all leftmost id_num global (i ∷ is) map =
      import_one leftmost id_num global i map >>= λ m. import_all leftmost id_num global is m

  unfoldable pub reducers_import : (ℕ → A) → Hyper A → Option (Hyper A)
  reducers_import leftmost s =
      if s.manager.hwm == 0
      then some s
      else (cilkred_map_make_map s.manager.spa_cap >>= λ map. s.manager.global >>= λ global.
          import_all leftmost s.id_num global (window (λ i. i) s.manager.hwm 0) map >>= λ full.
          some (record s { reducer_map = some full }))
