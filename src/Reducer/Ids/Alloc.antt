-- ===== src/Reducer/Ids/Alloc.antt =====
-- `reducer_id_get` and `reducer_id_free` of runtime/reducer_impl.c: ids are handed out once.
use multicilk.Base.{
  ℕ, ◌+◌, ◌-◌, ◌*◌, ◌/◌, ◌%◌, ◌≤◌, ◌<◌, Bool, true, false, Option, none, some, ◌≡◌, ◌⊎◌, sym, ◌∙◌,
  refl, ltb, leb, ◌==◌, if◌then◌else◌, update, Bool-cases, Option-cases, inl, inr, arith,
}
use mathlib.Core.Bool.{false≢true}
use mathlib.Core.Option.{none-ne-some}
use native.Mathlib.Decide.{ℕ_discrete}
use multicilk.Runtime.{no_worker}
use multicilk.Reducer.Map.{u32}
use multicilk.Reducer.Ids.{
  Word, long_bit, global_reducer_limit, IdManager, in_use, set_used, choose_id, scan_words,
  init_reducer_id_manager, reducer_id_get, reducer_id_free, reducer_id_manager_assert_ownership,
}
use multicilk.Reducer.Ids.Bits.{scan_words-some, scan_words-none}

pub record IsValid (m : IdManager) : Type 0 where
  pub whole : m.spa_cap % long_bit ≡ 0
  pub small : m.spa_cap < 9999999
  pub hint : m.next < m.spa_cap
  pub high : m.hwm ≤ m.spa_cap
  pub below : (id : ℕ) → in_use m.used id ≡ true → id < m.hwm

-- A manager of any size up to 9,999,936 is valid, has room for that many ids, and none is in use.
pub init-IsValid :
    (size : ℕ)
    → 0 < size
    → size ≤ 9999936
    → (m : IdManager) × (init_reducer_id_manager size ≡ some m)
      × IsValid m
      × (size ≤ m.spa_cap)
      × ((id : ℕ) → in_use m.used id ≡ false)
unfolding init_reducer_id_manager
init-IsValid size p h = (
  record {
    mutex_owner = 0;
    spa_cap = (size + long_bit - 1) % u32 / long_bit * long_bit;
    next = 0;
    hwm = 0;
    used = λ _ _. false;
    global = none;
  },
  ground arith,
  record {
    whole = omega arith;
    small = omega arith;
    hint = omega arith;
    high = omega arith;
    below = λ id e. cc;
  },
  omega arith,
  λ id. refl,
)

pub in_use-set_used :
    (used : ℕ → Word) (id j : ℕ) (b : Bool)
    → in_use (set_used used id b) j ≡ (if id == j then b else in_use used j)
in_use-set_used used id j b = elim (ℕ_discrete id j) [ yes e ↦ ground arith | no ne ↦ ground arith ]

-- The id that is chosen is in the map and free, or all are taken.
pub choose_id_lem :
    (m : IdManager)
    → IsValid m
    → (choose_id m.used m.spa_cap m.next < m.spa_cap)
        × (in_use m.used (choose_id m.used m.spa_cap m.next) ≡ false)
      ⊎ (m.spa_cap ≤ choose_id m.used m.spa_cap m.next)
        × ((id : ℕ) → id < m.spa_cap → in_use m.used id ≡ true)
unfolding choose_id
choose_id_lem m v = elim (Bool-cases (in_use m.used m.next)) [
  | inr free ↦ inl (ground (arith, v.hint), ground arith)
  | inl taken ↦ elim (Option-cases (scan_words m.used (m.spa_cap / long_bit) 0)) [
    | inl full ↦ inr (
      ground (arith, v.small),
      λ id h.
          scan_words-none m.used (m.spa_cap / long_bit) 0 full id (omega arith)
            (omega (arith, v.whole)),
    )
    | inr (id, found) ↦
        let r = scan_words-some m.used (m.spa_cap / long_bit) 0 found in
        inl (ground (arith, v.whole), ground arith)
  ]
]

-- What a successful `reducer_id_get` promises.
pub record Allocated (m : IdManager) (id : ℕ) (t : IdManager) : Type 0 where
  pub low : id < m.spa_cap
  pub free : in_use m.used id ≡ false
  pub used : (j : ℕ) → in_use t.used j ≡ (if id == j then true else in_use m.used j)
  pub valid : IsValid t
  pub cap : t.spa_cap ≡ m.spa_cap
  pub known : t.global ≡ m.global

taken : IdManager → ℕ → IdManager
taken m id = record m {
  mutex_owner = no_worker;
  used = set_used m.used id true;
  next = if leb m.spa_cap ((id + 1) % u32) then 0 else (id + 1) % u32;
  hwm = if leb m.hwm id then (id + 1) % u32 else m.hwm;
}

get-eq :
    (m : IdManager) (w : Option ℕ)
    → choose_id m.used m.spa_cap m.next < m.spa_cap
    → reducer_id_get m w
      ≡ some (choose_id m.used m.spa_cap m.next, taken m (choose_id m.used m.spa_cap m.next))
unfolding reducer_id_get reducer_id_manager_assert_ownership taken
get-eq m none h = ground arith
get-eq m (some w) h = ground arith

taken-IsValid : (m : IdManager) (id : ℕ) → IsValid m → id < m.spa_cap → IsValid (taken m id)
unfolding taken
taken-IsValid m id v h = record {
  whole = v.whole;
  small = v.small;
  hint = ground (arith, v.small);
  high = ground (arith, v.small, v.high);
  below = λ j e. ground (arith, v.small, v.below j, in_use-set_used m.used id j true);
}

-- If some id is free, `reducer_id_get` returns an id that was free, marks that id and no other as
-- used, and keeps the invariant of the manager.
pub reducer_id_get_ok :
    (m : IdManager) (w : Option ℕ) (j : ℕ)
    → IsValid m
    → j < m.spa_cap
    → in_use m.used j ≡ false
    → (id : ℕ) × (t : IdManager) × (reducer_id_get m w ≡ some (id, t)) × Allocated m id t
reducer_id_get_ok m w j v low free = elim (choose_id_lem m v) [
  | inl (fits, clear) ↦ (
    choose_id m.used m.spa_cap m.next,
    taken m (choose_id m.used m.spa_cap m.next),
    get-eq m w fits,
    record {
      low = fits;
      free = clear;
      used = λ a. unfold taken in in_use-set_used m.used (choose_id m.used m.spa_cap m.next) a true;
      valid = taken-IsValid m (choose_id m.used m.spa_cap m.next) v fits;
      cap = unfold taken in refl;
      known = unfold taken in refl;
    },
  )
  | inr (over, full) ↦ absurd (false≢true (sym free ∙ full j low))
]

-- `reducer_id_get` fails only when every id of the map is in use.
pub reducer_id_get_full :
    (m : IdManager) (w : Option ℕ)
    → IsValid m
    → reducer_id_get m w ≡ none
    → (id : ℕ) → id < m.spa_cap
    → in_use m.used id ≡ true
reducer_id_get_full m w v e = elim (choose_id_lem m v) [
  | inl (fits, clear) ↦ absurd (none-ne-some _ (sym e ∙ get-eq m w fits))
  | inr (over, full) ↦ full
]

-- What a successful `reducer_id_free` promises.
pub record Freed (m : IdManager) (id : ℕ) (t : IdManager) : Type 0 where
  pub used : (j : ℕ) → in_use t.used j ≡ (if id == j then false else in_use m.used j)
  pub valid : IsValid t
  pub hinted : t.next ≡ id
  pub cap : t.spa_cap ≡ m.spa_cap

freed : IdManager → ℕ → IdManager
freed m id = record m {
  mutex_owner = no_worker;
  used = set_used m.used id false;
  next = id;
  global = elim m.global [
    | none ↦ none
    | some g ↦ if ltb id global_reducer_limit then some (update g id none) else some g
  ];
}

free-eq :
    (m : IdManager) (w : Option ℕ) (id : ℕ)
    → id < m.spa_cap
    → in_use m.used id ≡ true
    → reducer_id_free m w id ≡ some (freed m id)
unfolding reducer_id_free reducer_id_manager_assert_ownership freed
free-eq m none id low u = ground arith
free-eq m (some w) id low u = ground arith

-- `reducer_id_free` of an id that is in use clears its mark and no other, makes it the next hint,
-- and keeps the invariant.
pub reducer_id_free_ok :
    (m : IdManager) (w : Option ℕ) (id : ℕ)
    → IsValid m
    → id < m.spa_cap
    → in_use m.used id ≡ true
    → (t : IdManager) × (reducer_id_free m w id ≡ some t) × Freed m id t
reducer_id_free_ok m w id v low u = (
  freed m id,
  free-eq m w id low u,
  unfold freed in
      record {
        used = λ a. in_use-set_used m.used id a false;
        valid = record {
          whole = v.whole;
          small = v.small;
          hint = low;
          high = v.high;
          below = λ j e. ground (arith, v.below j, in_use-set_used m.used id j false);
        };
        hinted = refl;
        cap = refl;
      },
)

choose-freed :
    (m : IdManager) (id : ℕ)
    → choose_id (freed m id).used (freed m id).spa_cap (freed m id).next ≡ id
unfolding choose_id freed
choose-freed m id = ground (arith, in_use-set_used m.used id id false)

-- The id that is freed is the id that the next call takes.
pub get-free :
    (m : IdManager) (w : Option ℕ) (id : ℕ)
    → IsValid m
    → id < m.spa_cap
    → in_use m.used id ≡ true
    → (t u : IdManager) × (reducer_id_free m w id ≡ some t)
      × (reducer_id_get t w ≡ some (id, u))
      × ((j : ℕ) → in_use u.used j ≡ in_use m.used j)
get-free m w id v low u =
    let c = choose-freed m id in
    let got = get-eq (freed m id) w (rw c (unfold freed in low)) in
    (
      freed m id,
      taken (freed m id) id,
      free-eq m w id low u,
      rw c at got,
      λ j.
          unfold freed taken in
          ground (
            arith,
            in_use-set_used (set_used m.used id false) id j true,
            in_use-set_used m.used id j false,
          ),
    )
