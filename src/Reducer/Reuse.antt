-- ===== src/Reducer/Reuse.antt =====
-- A hyperobject that is created after another was destroyed (runtime/reducer_impl.c) gets its id, which
-- then stands twice in the log of the worker's map (runtime/cilkred_map.c).
use multicilk.Base.{
  ℕ, zero, suc, ◌+◌, ◌-◌, ◌/◌, ◌≤◌, ◌<◌, ◌≡◌, refl, subst, sym, ap, ◌∙◌, Bool, true, false, none,
  some, List, [], ◌∷◌, ◌++◌, window, update, arith,
}
use multicilk.Deque.Links.{Fresh}
use multicilk.Reducer.Map.{
  u32, hyper_id_valid, empty_view, Map, MergeKind, cilkred_map_log_id, cilkred_map_unlog_id,
  cilkred_map_lookup, cilkred_map_merge,
}
use multicilk.Reducer.Map.Twice.{merge_twice_fails}
use multicilk.Reducer.Ids.{IdManager, in_use, reducer_id_get, reducer_id_free}
use multicilk.Reducer.Ids.Alloc.{IsValid, get-free}
use multicilk.Reducer.Hyper.{Hyper, current_map, install_view, hyper_create, hyper_destroy}

window-snoc :
    (f : ℕ → ℕ) (n k x : ℕ) → window (update f (k + n) x) (suc n) k ≡ window f n k ++ (x ∷ [])
unfolding window
window-snoc f zero k x = ground arith
window-snoc f (suc n) k x =
    let ih : window (update f (k + suc n) x) (suc n) (k + 1) ≡ window f n (k + 1) ++ (x ∷ []) =
      subst (λ m. window (update f m x) (suc n) (k + 1) ≡ window f n (k + 1) ++ (x ∷ []))
        (omega arith) (window-snoc f n (k + 1) x) in
    ground (arith, ih)

window-log : (f : ℕ → ℕ) (n x : ℕ) → window (update f n x) (n + 1) 0 ≡ window f n 0 ++ (x ∷ [])
window-log f n x =
    let there : 0 + n ≡ n = omega arith in
    let next : suc n ≡ n + 1 = omega arith in
    subst (λ m. window (update f m x) (n + 1) 0 ≡ window f n 0 ++ (x ∷ [])) there
      (subst (λ m. window (update f (0 + n) x) m 0 ≡ window f n 0 ++ (x ∷ [])) next
        (window-snoc f n 0 x))

module _ {A : Type 0} where
  -- The worker's map holds the hyperobject `a` with the first id that it logged, and others.
  pub record Shared (a i n : ℕ) (js : List ℕ) (s : Hyper A) (h : Map A) : Type 0 where
    pub map : s.reducer_map ≡ some h
    pub registered : s.id_num a ≡ i + hyper_id_valid
    pub used : in_use s.manager.used i ≡ true
    pub valid : IsValid s.manager
    pub in_range : (i < s.manager.spa_cap) × (i < h.spa_cap) × (i < hyper_id_valid)
    pub idle : h.merging ≡ false
    pub others : (1 < h.num_of_vinfo) × (h.num_of_vinfo ≤ h.spa_cap) × (h.spa_cap < u32)
    pub logs : (h.num_of_logs ≡ n) × (n < h.spa_cap / 2)
    pub logged : window h.log n 0 ≡ i ∷ js
    pub once : Fresh i js

  unlogged : ℕ → Map A → Map A
  unlogged i h = record h { vinfo = update h.vinfo i empty_view; num_of_vinfo = h.num_of_vinfo - 1 }

  unlog-eq :
      (a i n : ℕ) (js : List ℕ) (s : Hyper A) (h : Map A)
      → Shared a i n js s h
      → cilkred_map_unlog_id h i ≡ some (unlogged i h)
  unfolding cilkred_map_unlog_id unlogged
  unlog-eq a i n js s h k = ground (arith, k.others, k.logs, k.in_range)

  relogged : (ℕ → A) → ℕ → ℕ → Map A → Map A
  relogged leftmost i c h = record h {
    vinfo = update h.vinfo i (record { key = some c; val = some (leftmost c) });
    log = update h.log h.num_of_logs i;
    num_of_logs = h.num_of_logs + 1;
    num_of_vinfo = h.num_of_vinfo + 1;
  }

  install-eq :
      (leftmost : ℕ → A) (i c : ℕ) (h : Map A)
      → i < h.spa_cap
      → h.num_of_vinfo < h.spa_cap
      → h.num_of_logs < h.spa_cap / 2
      → install_view h i c (leftmost c) ≡ some (relogged leftmost i c h)
  unfolding install_view cilkred_map_log_id relogged
  install-eq leftmost i c h low room few = ground (arith, low, room, few)

  destroy-eq :
      (w a i n : ℕ) (js : List ℕ) (s : Hyper A) (h : Map A) (m : IdManager)
      → Shared a i n js s h
      → reducer_id_free s.manager (some w) i ≡ some m
      → hyper_destroy w a s
        ≡ some (record {
          id_num = update s.id_num a i;
          manager = m;
          reducer_map = some (unlogged i h);
        })
  unfolding hyper_destroy
  destroy-eq w a i n js s h m k free =
      ground (arith, k.map, k.registered, k.idle, free, unlog-eq a i n js s h k)

  lookup-eq :
      (i : ℕ) (h : Map A)
      → i < hyper_id_valid
      → cilkred_map_lookup (unlogged i h) (i + hyper_id_valid) ≡ none
  unfolding cilkred_map_lookup unlogged
  lookup-eq i h low = ground (arith, low)

  create-eq :
      (leftmost : ℕ → A) (w i c : ℕ) (id_num : ℕ → ℕ) (h r : Map A) (m m' : IdManager)
      → reducer_id_get m (some w) ≡ some (i, m')
      → cilkred_map_lookup h (i + hyper_id_valid) ≡ none
      → h.merging ≡ false
      → install_view h i c (leftmost c) ≡ some r
      → hyper_create leftmost w c (record { id_num = id_num; manager = m; reducer_map = some h })
        ≡ some (record {
          id_num = update id_num c (i + hyper_id_valid);
          manager = m';
          reducer_map = some r;
        })
  unfolding hyper_create current_map
  create-eq leftmost w i c id_num h r m m' got new idle put = ground (arith, got, new, idle, put)

  relogged-log :
      (leftmost : ℕ → A) (a i n c : ℕ) (js : List ℕ) (s : Hyper A) (h : Map A)
      → Shared a i n js s h
      → window
          (relogged leftmost i c (unlogged i h)).log
          (relogged leftmost i c (unlogged i h)).num_of_logs
          0
        ≡ i ∷ (js ++ (i ∷ []))
  unfolding relogged unlogged
  relogged-log leftmost a i n c js s h k =
      subst (λ m. window (update h.log m i) (m + 1) 0 ≡ i ∷ (js ++ (i ∷ []))) (sym k.logs.0)
        (window-log h.log n i ∙ ap (λ l. l ++ (i ∷ [])) k.logged)

  -- A worker destroys the hyperobject that it logged first, while its map holds others and its log has
  -- room, and then creates another one: both calls succeed, and no merge of its map into another map
  -- does.
  pub reused_id_fails :
      (reduce : ℕ → A → A → A) (leftmost : ℕ → A) (w a c i n : ℕ) (js : List ℕ) (s : Hyper A)
      (h : Map A)
      → Shared a i n js s h
      → (s1 s2 : Hyper A) × (r : Map A) × (hyper_destroy w a s ≡ some s1)
        × (hyper_create leftmost w c s1 ≡ some s2)
        × (s2.reducer_map ≡ some r)
        × ((debug : Bool) (kind : MergeKind) (this : Map A)
            → cilkred_map_merge reduce debug this r kind ≡ none)
  reused_id_fails reduce leftmost w a c i n js s h k =
      let (m, m', free, got, same) = get-free s.manager (some w) i k.valid k.in_range.0 k.used in
      let u = unlogged i h in
      let r = relogged leftmost i c u in
      let put : install_view u i c (leftmost c) ≡ some r =
        install-eq leftmost i c u (unfold unlogged in k.in_range.1)
          (unfold unlogged in omega (arith, k.others)) (unfold unlogged in omega (arith, k.logs)) in
      (
        record { id_num = update s.id_num a i; manager = m; reducer_map = some u },
        record {
          id_num = update (update s.id_num a i) c (i + hyper_id_valid);
          manager = m';
          reducer_map = some r;
        },
        r,
        destroy-eq w a i n js s h m k free,
        create-eq leftmost w i c (update s.id_num a i) u r m m' got (lookup-eq i h k.in_range.2)
            (unfold unlogged in k.idle) put,
        refl,
        λ debug kind this.
            merge_twice_fails reduce debug kind this r i c js [] (unfold relogged in ground arith)
              (relogged-log leftmost a i n c js s h k) k.once
              (unfold relogged unlogged in omega (arith, k.logs))
              (unfold relogged in λ e. omega (arith, e)),
      )
