-- ===== src/Reducer/Ids/Tests.antt =====
-- Id managers of one word: the theorems at them.
use multicilk.Base.{ℕ, false, none, some, ◌≡◌, refl, ◌==◌, if◌then◌else◌, arith}
use multicilk.Reducer.Ids.{IdManager, choose_id, scan_words, lowest_clear, reducer_id_get}
use multicilk.Reducer.Ids.Alloc.{IsValid, Allocated, reducer_id_get_ok}

-- 64 ids, of which 0 is in use.
abbrev one_used : IdManager
one_used = record {
  mutex_owner = 0;
  spa_cap = 64;
  next = 0;
  hwm = 1;
  used = λ i b. if i == 0 then b == 0 else false;
  global = none;
}

one_used-IsValid : IsValid one_used
one_used-IsValid = record {
  whole = refl;
  small = omega arith;
  hint = omega arith;
  high = omega arith;
  below = λ id e. ground arith;
}

reducer_id_get_ok_example :
    (id : ℕ) × (t : IdManager) × (reducer_id_get one_used none ≡ some (id, t))
    × Allocated one_used id t
reducer_id_get_ok_example = reducer_id_get_ok one_used none 3 one_used-IsValid (omega arith) refl

-- 64 ids, all in use.
abbrev all_used : IdManager
all_used = record {
  mutex_owner = 0;
  spa_cap = 64;
  next = 0;
  hwm = 64;
  used = λ i b. i == 0;
  global = none;
}

get_from_full : reducer_id_get all_used none ≡ none
unfolding reducer_id_get choose_id scan_words lowest_clear
get_from_full = refl
