-- ===== src/Reducer/Map/Wf.antt =====
-- The invariant of a reducer map, and the operations of runtime/cilkred_map.c that keep it.
use multicilk.Base.{
  ℕ, zero, suc, ◌+◌, ◌/◌, ◌≤◌, ◌<◌, Bool, true, false, not, Option, some, ◌≡◌, ◌≢◌, refl, sym, ltb,
  leb, if◌then◌else◌, is_null, update, count_below, count_below-update, count_below-lt, arith,
}
use native.Mathlib.Decide.{dec_lt, ℕ_discrete}
use multicilk.Reducer.Map.{
  ViewInfo, Map, empty_view, hyper_id_valid, cilkred_map_log_id, cilkred_map_make_map,
}

abbrev pub occupied : {A : Type 0} → ViewInfo A → Bool
occupied v = not (is_null v.key)

-- The log is in use: it lists the occupied slots, each once.
abbrev pub Logging : {A : Type 0} → Map A → Type 0
Logging m = m.num_of_logs ≤ m.spa_cap / 2

module _ {A : Type 0} where
  pub record IsValid (m : Map A) : Type 0 where
    pub small : m.spa_cap < hyper_id_valid
    pub counted : m.num_of_vinfo ≡ count_below occupied m.spa_cap m.vinfo
    pub paired : (i : ℕ) → is_null (m.vinfo i).key ≡ is_null (m.vinfo i).val
    pub logs : m.num_of_logs ≤ m.spa_cap / 2 + 1
    pub live :
        Logging m
        → (j : ℕ) → j < m.num_of_logs
        → (m.log j < m.spa_cap) × (occupied (m.vinfo (m.log j)) ≡ true)
    pub once :
        Logging m → (j k : ℕ) → j < m.num_of_logs → k < m.num_of_logs → m.log j ≡ m.log k → j ≡ k
    pub listed :
        Logging m
        → (i : ℕ) → i < m.spa_cap
        → occupied (m.vinfo i) ≡ true
        → (j : ℕ) × (j < m.num_of_logs) × (m.log j ≡ i)

  new_map : ℕ → Map A
  new_map size = record {
    spa_cap = size;
    num_of_vinfo = 0;
    num_of_logs = 0;
    merging = false;
    log = λ _. 0;
    vinfo = λ _. empty_view;
  }

  count_empty :
      (n : ℕ) (f : ℕ → ViewInfo A) → ((i : ℕ) → f i ≡ empty_view) → count_below occupied n f ≡ 0
  unfolding count_below
  count_empty zero f h = refl
  count_empty (suc n) f h = ground (arith, count_empty n f h, h n)

  new_map-IsValid : (size : ℕ) → size < hyper_id_valid → IsValid (new_map size)
  unfolding new_map
  new_map-IsValid size h = record {
    small = h;
    counted = sym (count_empty size _ (λ _. refl));
    paired = λ i. refl;
    logs = omega arith;
    live = λ l j k. absurd (omega arith);
    once = λ l j k p q e. absurd (omega arith);
    listed = λ l i k e. cc;
  }

  -- `cilkred_map_make_map` gives a valid map with no view, for every size that an id can index.
  pub make_map-IsValid :
      (size : ℕ)
      → 0 < size
      → size < hyper_id_valid
      → (m : Map A) × (cilkred_map_make_map size ≡ some m)
        × IsValid m
        × (m.spa_cap ≡ size)
        × ((i : ℕ) → m.vinfo i ≡ empty_view)
  unfolding cilkred_map_make_map new_map
  make_map-IsValid size p h =
      (new_map size, ground arith, unfold new_map in new_map-IsValid size h, refl, λ i. refl)

  -- The view `v` put into the free slot `i` and logged, as all the callers do.
  unfoldable pub put_view : Map A → ℕ → ViewInfo A → Option (Map A)
  put_view m i v = cilkred_map_log_id (record m { vinfo = update m.vinfo i v }) i

  unfoldable pub logged : Map A → ℕ → ViewInfo A → Map A
  logged m i v = record m {
    vinfo = update m.vinfo i v;
    num_of_vinfo = m.num_of_vinfo + 1;
    num_of_logs = if leb m.num_of_logs (m.spa_cap / 2) then m.num_of_logs + 1 else m.num_of_logs;
    log = if ltb m.num_of_logs (m.spa_cap / 2) then update m.log m.num_of_logs i else m.log;
  }

  module _ (m : Map A) (i : ℕ) (v : ViewInfo A) (ok : IsValid m) (low : i < m.spa_cap)
      (free : occupied (m.vinfo i) ≡ false) where
    room : m.num_of_vinfo < m.spa_cap
    room = omega (arith, ok.counted, count_below-lt occupied m.spa_cap m.vinfo i low free)

    pub put_view-eq : put_view m i v ≡ some (logged m i v)
    unfolding put_view cilkred_map_log_id logged
    put_view-eq = ground (arith, room, ok.logs)

    -- While the new map logs, the old one did, with room for one more entry.
    before : Logging (logged m i v) → m.num_of_logs < m.spa_cap / 2
    unfolding logged
    before l = ground arith

    old_log : Logging (logged m i v) → Logging m
    old_log l = omega (arith, before l)

    not_logged : Logging (logged m i v) → (j : ℕ) → j < m.num_of_logs → m.log j ≢ i
    not_logged l j h e = ground (arith, ok.live (old_log l) j h)

    logged_live :
        occupied v ≡ true
        → Logging (logged m i v)
        → (j : ℕ) → j < (logged m i v).num_of_logs
        → ((logged m i v).log j < m.spa_cap)
          × (occupied ((logged m i v).vinfo ((logged m i v).log j)) ≡ true)
    unfolding logged
    logged_live full l j h = elim (dec_lt j m.num_of_logs) [
      | yes p ↦ ground (arith, before l, ok.live (old_log l) j p, not_logged l j p)
      | no p ↦ ground (arith, before l)
    ]

    logged_once :
        Logging (logged m i v)
        → (j k : ℕ) → j < (logged m i v).num_of_logs
        → k < (logged m i v).num_of_logs
        → (logged m i v).log j ≡ (logged m i v).log k
        → j ≡ k
    unfolding logged
    logged_once l j k hj hk e = elim (dec_lt j m.num_of_logs) [
      | yes p ↦ elim (dec_lt k m.num_of_logs) [
        | yes q ↦ ground (arith, before l, ok.once (old_log l) j k p q)
        | no q ↦ ground (arith, before l, not_logged l j p)
      ]
      | no p ↦ elim (dec_lt k m.num_of_logs) [
        | yes q ↦ ground (arith, before l, not_logged l k q)
        | no q ↦ ground (arith, before l)
      ]
    ]

    logged_listed :
        Logging (logged m i v)
        → (a : ℕ) → a < m.spa_cap
        → occupied ((logged m i v).vinfo a) ≡ true
        → (j : ℕ) × (j < (logged m i v).num_of_logs) × ((logged m i v).log j ≡ a)
    unfolding logged
    logged_listed l a low o = elim (ℕ_discrete i a) [
      | yes p ↦ (m.num_of_logs, ground (arith, before l), ground (arith, before l))
      | no p ↦
          let (j, hj, e) = ok.listed (old_log l) a low (ground arith) in
          (j, ground (arith, before l), ground (arith, before l))
    ]

    pub logged-IsValid : occupied v ≡ true → is_null v.val ≡ false → IsValid (logged m i v)
    unfolding logged
    logged-IsValid full there = record {
      small = ok.small;
      counted = ground (arith, ok.counted, count_below-update occupied m.spa_cap m.vinfo i v low);
      paired = λ j. ground (arith, ok.paired j);
      logs = ground (arith, ok.logs);
      live = logged_live full;
      once = logged_once;
      listed = logged_listed;
    }

  -- A view replaced by another in a slot that is occupied.
  unfoldable pub replaced : Map A → ℕ → ViewInfo A → Map A
  replaced m i v = record m { vinfo = update m.vinfo i v }

  pub replaced-IsValid :
      (m : Map A) (i : ℕ) (v : ViewInfo A)
      → IsValid m
      → i < m.spa_cap
      → occupied (m.vinfo i) ≡ true
      → occupied v ≡ true
      → is_null v.val ≡ false
      → IsValid (replaced m i v)
  unfolding replaced
  replaced-IsValid m i v ok low was full there = record {
    small = ok.small;
    counted = ground (arith, ok.counted, count_below-update occupied m.spa_cap m.vinfo i v low);
    paired = λ j. ground (arith, ok.paired j);
    logs = ok.logs;
    live = λ l j h. ground (arith, ok.live l j h);
    once = ok.once;
    listed = λ l j h o. ok.listed l j h (ground arith);
  }
