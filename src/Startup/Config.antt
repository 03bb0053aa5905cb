-- ===== src/Startup/Config.antt =====
-- `cilk_cfg_from_env` of runtime/cilk2c.c: the configuration of a thread, read from the value of an
-- environment variable. A string is the list of its characters' codes. `none` is undefined
-- behaviour: a NULL pointer that is followed, or a number too large for `atoi`.
pub mod Tokens
pub mod Decimal
mod Fuel
pub mod Roundtrip
use multicilk.Base.{
  ℕ, zero, suc, ◌+◌, ◌-◌, ◌*◌, Bool, true, false, ◌&&◌, ◌||◌, Option, none, some, List, [], ◌∷◌,
  leb, ◌==◌, if◌then◌else◌, length,
}
use multicilk.Base.Fallible.{◌>>=◌}
use multicilk.Startup.CpuSet.{CpuSet, cpu_zero, cpu_set, cpu_count}

-- `cilk_config_t`
pub record CilkConfig : Type 0 where
  pub n_workers : ℕ
  pub boss_affinity : CpuSet

abbrev pub is_digit : ℕ → Bool
is_digit c = leb 48 c && leb c 57

abbrev pub is_upper : ℕ → Bool
is_upper c = leb 65 c && leb c 90

abbrev pub is_lower : ℕ → Bool
is_lower c = leb 97 c && leb c 122

-- The characters that the first loop keeps: digits, letters, and '=', ',' and ';'.
abbrev pub is_kept : ℕ → Bool
is_kept c = is_digit c || is_upper c || is_lower c || (c == 61) || (c == 44) || (c == 59)

-- The first loop: other characters are left out, and letters become small.
unfoldable pub filter_chars : List ℕ → List ℕ
filter_chars [] = []
filter_chars (c ∷ cs) =
    let rest = filter_chars cs in
    if is_kept c then (if is_upper c then c + (97 - 65) else c) ∷ rest else rest

-- `strtok_r` for one delimiter: delimiters in front are skipped, and the token ends at the next one.
unfoldable pub skip : ℕ → List ℕ → List ℕ
skip d [] = []
skip d (c ∷ cs) = let rest = skip d cs in if c == d then rest else c ∷ cs

unfoldable pub token : ℕ → List ℕ → List ℕ × List ℕ
token d [] = ([], [])
token d (c ∷ cs) = let (t, rest) = token d cs in if c == d then ([], cs) else (c ∷ t, rest)

unfoldable pub first_token : ℕ → List ℕ → Option (List ℕ × List ℕ)
first_token d [] = none
first_token d (c ∷ cs) = some (token d (c ∷ cs))

-- The token, and what is left of the string.
unfoldable pub strtok : ℕ → List ℕ → Option (List ℕ × List ℕ)
strtok d s = first_token d (skip d s)

-- `atoi` of a string without spaces and signs.
unfoldable pub atoi_from : ℕ → List ℕ → ℕ
atoi_from acc [] = acc
atoi_from acc (c ∷ cs) =
    let rest = atoi_from (10 * acc + (c - 48)) cs in if is_digit c then rest else acc

unfoldable pub atoi : List ℕ → Option ℕ
atoi s = if leb (atoi_from 0 s) 0x7fffffff then some (atoi_from 0 s) else none

-- The loop that fills `buffer`.
unfoldable pub digits_only : List ℕ → List ℕ
digits_only [] = []
digits_only (c ∷ cs) = let rest = digits_only cs in if is_digit c then c ∷ rest else rest

-- `strcmp(a, b) == 0`
unfoldable pub same_string : List ℕ → List ℕ → Bool
same_string [] [] = true
same_string [] (y ∷ ys) = false
same_string (x ∷ xs) [] = false
same_string (x ∷ xs) (y ∷ ys) = (x == y) && same_string xs ys

-- The loop over the numbers of `cpuset`.
unfoldable pub set_cpus : ℕ → List ℕ → CpuSet → Option CpuSet
set_cpus zero text mask = none
set_cpus (suc n) text mask = elim (strtok 44 text) [
  | none ↦ some mask
  | some (cpu_str, rest) ↦ atoi cpu_str >>= λ cpu_idx. set_cpus n rest (cpu_set cpu_idx mask)
]

-- "nworkers" and "cpuset"
abbrev pub key_nworkers : List ℕ
key_nworkers = 110 ∷ 119 ∷ 111 ∷ 114 ∷ 107 ∷ 101 ∷ 114 ∷ 115 ∷ []

abbrev pub key_cpuset : List ℕ
key_cpuset = 99 ∷ 112 ∷ 117 ∷ 115 ∷ 101 ∷ 116 ∷ []

-- The two keys of a setting.
unfoldable pub set_nworkers_key : List ℕ → List ℕ → CilkConfig → Option CilkConfig
set_nworkers_key name text cfg =
    if same_string name key_nworkers
    then (atoi (digits_only text) >>= λ n. some (record cfg { n_workers = n }))
    else some cfg

unfoldable pub set_cpuset_key : List ℕ → List ℕ → CilkConfig → Option CilkConfig
set_cpuset_key name text cfg =
    if same_string name key_cpuset
    then (set_cpus (suc (length text)) text cpu_zero >>= λ mask.
        some (record cfg { boss_affinity = mask }))
    else some cfg

-- The body of the loop over the settings.
unfoldable pub apply_setting : List ℕ → CilkConfig → Option CilkConfig
apply_setting tok cfg = elim (strtok 61 tok) [
  | none ↦ some cfg
  | some (name, rest) ↦ elim (strtok 61 rest) [
    | none ↦ some cfg
    | some (text, end) ↦ set_nworkers_key name text cfg >>= λ c. set_cpuset_key name text c
  ]
]

-- The condition of the loop, and the turns after it.
unfoldable pub next_settings : ℕ → List ℕ → CilkConfig → Option CilkConfig
next_settings zero s cfg = none
next_settings (suc n) s cfg = elim (strtok 59 s) [
  | none ↦ some cfg
  | some (tok, rest) ↦ apply_setting tok cfg >>= λ c. next_settings n rest c
]

-- The first turn of the loop follows the first token, be it NULL or not.
unfoldable pub parse_settings : List ℕ → Option CilkConfig
parse_settings s = strtok 59 s >>= λ first.
    apply_setting first.0 (record { n_workers = 0; boss_affinity = cpu_zero }) >>= λ c.
    next_settings (suc (length first.1)) first.1 c

-- The value of the variable, or the processors of the calling thread, `mask`, where it is not set.
unfoldable pub cilk_cfg_from_env : CpuSet → Option (List ℕ) → Option CilkConfig
cilk_cfg_from_env mask none = some (record { n_workers = cpu_count mask; boss_affinity = mask })
cilk_cfg_from_env mask (some value) = parse_settings (filter_chars value)
