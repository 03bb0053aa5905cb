-- ===== src/Reducer/Ids.antt =====
-- The id manager of runtime/reducer_impl.c. An `unsigned long` of the bitmap is its 64 bits, a
-- function of the bit's index; `none` is a call that ends in `cilkrts_bug`.
pub mod Bits
pub mod Alloc
mod Tests
use multicilk.Base.{
  ℕ, zero, suc, ◌+◌, ◌-◌, ◌*◌, ◌/◌, ◌%◌, ◌<◌, Bool, true, false, not, ◌&&◌, Option, none, some, ltb,
  leb, ◌==◌, if◌then◌else◌, update, arith,
}
use multicilk.Base.Fallible.{◌>>=◌, ◌>>◌, assert}
use multicilk.Runtime.{no_worker}
use multicilk.Reducer.Map.{u32}

-- LONG_BIT
abbrev pub long_bit : ℕ
long_bit = 64

abbrev pub Word : Type 0
Word = ℕ → Bool

-- GLOBAL_REDUCER_LIMIT
abbrev pub global_reducer_limit : ℕ
global_reducer_limit = 100

-- `reducer_id_manager`; `global` is `none` until it is allocated.
pub record IdManager : Type 0 where
  pub mutex_owner : ℕ
  pub spa_cap : ℕ
  pub next : ℕ
  pub hwm : ℕ
  pub used : ℕ → Word
  pub global : Option (ℕ → Option ℕ)

-- The worker that calls, if there is one.
abbrev pub owner_of : Option ℕ → ℕ
owner_of none = no_worker
owner_of (some w) = w

pub reducer_id_manager_assert_ownership : IdManager → Option ℕ → Option (Unit {0})
reducer_id_manager_assert_ownership m none = some tt
reducer_id_manager_assert_ownership m (some w) = assert (m.mutex_owner == w)

pub reducer_id_manager_lock : IdManager → Option ℕ → IdManager
reducer_id_manager_lock m w = record m { mutex_owner = owner_of w }

pub reducer_id_manager_unlock : IdManager → Option ℕ → Option IdManager
unfolding reducer_id_manager_assert_ownership
reducer_id_manager_unlock m w =
    reducer_id_manager_assert_ownership m w >> some (record m { mutex_owner = no_worker })

-- `init_reducer_id_manager`; `cap` is `uint32_t`.
unfoldable pub init_reducer_id_manager : ℕ → Option IdManager
init_reducer_id_manager cap =
    let rounded = (cap + long_bit - 1) % u32 / long_bit * long_bit in
    assert (ltb 0 rounded && ltb rounded 9999999)
    >> some (record {
      mutex_owner = 0;
      spa_cap = rounded;
      next = 0;
      hwm = 0;
      used = λ _ _. false;
      global = none;
    })

-- The bit of `id` in the bitmap: `used[id / LONG_BIT] & 1UL << id % LONG_BIT`.
abbrev pub in_use : (ℕ → Word) → ℕ → Bool
in_use used id = used (id / long_bit) (id % long_bit)

abbrev pub set_used : (ℕ → Word) → ℕ → Bool → ℕ → Word
set_used used id b = update used (id / long_bit) (update (used (id / long_bit)) (id % long_bit) b)

-- `__builtin_ctzl(~word)` over the `n` bits from `k` on: the lowest clear bit.
pub lowest_clear : Word → ℕ → ℕ → Option ℕ
lowest_clear word zero k = none
lowest_clear word (suc n) k = elim (word k) [ false ↦ some k | true ↦ lowest_clear word n (k + 1) ]

-- The loop of `reducer_id_get` over the `n` words from `i` on.
pub scan_words : (ℕ → Word) → ℕ → ℕ → Option ℕ
scan_words used zero i = none
scan_words used (suc n) i = elim (lowest_clear (used i) long_bit 0) [
  | some index ↦ some (i * long_bit + index)
  | none ↦ scan_words used n (i + 1)
]

-- The id that `reducer_id_get` takes; `~0` where the loop finds none.
pub choose_id : (ℕ → Word) → ℕ → ℕ → ℕ
choose_id used cap next =
    if in_use used next
    then elim (scan_words used (cap / long_bit) 0) [ some id ↦ id | none ↦ u32 - 1 ]
    else next

pub reducer_id_get : IdManager → Option ℕ → Option (ℕ × IdManager)
unfolding reducer_id_manager_lock reducer_id_manager_unlock
reducer_id_get m w = do
  let locked = reducer_id_manager_lock m w
  let id = choose_id m.used m.spa_cap m.next
  assert (not (leb m.spa_cap id))
  unlocked ←
      reducer_id_manager_unlock
        (record locked {
          used = set_used m.used id true;
          next = if leb m.spa_cap ((id + 1) % u32) then 0 else (id + 1) % u32;
          hwm = if leb m.hwm id then (id + 1) % u32 else m.hwm;
        })
        w
  some (id, unlocked)

pub reducer_id_free : IdManager → Option ℕ → ℕ → Option IdManager
unfolding reducer_id_manager_lock reducer_id_manager_unlock
reducer_id_free m w id = do
  let locked = reducer_id_manager_lock m w
  assert (ltb id m.spa_cap)
  assert (in_use m.used id)
  reducer_id_manager_unlock
      (record locked {
        used = set_used m.used id false;
        next = id;
        global = elim m.global [
          | none ↦ none
          | some g ↦ if ltb id global_reducer_limit then some (update g id none) else some g
        ];
      })
      w
