-- ===== src/Startup/Config/Roundtrip.antt =====
-- `cilk_cfg_from_env` (runtime/cilk2c.c) reads back the settings that are written as it expects them.
use multicilk.Base.{
  ℕ, zero, suc, ◌+◌, ◌≤◌, ◌<◌, ◌≡◌, refl, ap, ◌∙◌, Bool, true, false, none, some, List, [], ◌∷◌,
  ◌++◌, length, ltb, member, ◌&&◌, ◌||◌, fun_ext, arith,
}
use multicilk.Startup.CpuSet.{CpuSet, cpu_setsize, cpu_zero, cpu_set}
use multicilk.Startup.Config.{
  CilkConfig, is_digit, strtok, skip, first_token, set_cpus, key_nworkers, key_cpuset, same_string,
  set_nworkers_key, set_cpuset_key, apply_setting, next_settings, parse_settings, cilk_cfg_from_env,
  atoi,
}
use multicilk.Startup.Config.Tokens.{
  all, all-append, all-weaken, differs, is_plain, filter_plain, strtok_ends, strtok_last,
  digits_only-all,
}
use multicilk.Startup.Config.Decimal.{digits, digits-all, digits-first, atoi-digits}

-- The numbers of the processors, with commas between them.
unfoldable pub print_cpus : List ℕ → List ℕ
print_cpus [] = []
print_cpus (c ∷ []) = digits c
print_cpus (c ∷ d ∷ ds) = digits c ++ (44 ∷ print_cpus (d ∷ ds))

-- The processors are put in the set one after the other.
abbrev set_all : List ℕ → CpuSet → CpuSet
set_all [] mask = mask
set_all (c ∷ cs) mask = set_all cs (cpu_set c mask)

-- The set of the processors of a list, less those that no set of the system holds.
unfoldable pub cpus_of : List ℕ → CpuSet
cpus_of cs i = ltb i cpu_setsize && member i cs

set_all-member :
    (cs : List ℕ) (mask : CpuSet) (i : ℕ)
    → set_all cs mask i ≡ (ltb i cpu_setsize && member i cs) || mask i
set_all-member [] mask i = ground arith
set_all-member (c ∷ cs) mask i = ground (arith, set_all-member cs (cpu_set c mask) i)

set_all-cpus_of : (cs : List ℕ) → set_all cs cpu_zero ≡ cpus_of cs
unfolding cpus_of
set_all-cpus_of cs = fun_ext (λ i. ground (arith, set_all-member cs cpu_zero i))

abbrev pub AllSmall : List ℕ → Type 0
AllSmall [] = Unit
AllSmall (c ∷ cs) = (c ≤ 0x7fffffff) × AllSmall cs

digits-differ : (d n : ℕ) → is_digit d ≡ false → all (differs d) (digits n) ≡ true
digits-differ d n h =
    all-weaken is_digit (differs d) (λ c e. ground (arith, e, h)) (digits n) (digits-all n)

strtok-digits :
    (d n : ℕ) (rest : List ℕ)
    → is_digit d ≡ false
    → strtok d (digits n ++ (d ∷ rest)) ≡ some (digits n, rest)
strtok-digits d n rest h =
    let (x, xs, e) = digits-first n in
    let q = digits-differ d n h in rw e (strtok_ends d x xs rest (rw e at q))

strtok-digits_last : (d n : ℕ) → is_digit d ≡ false → strtok d (digits n) ≡ some (digits n, [])
strtok-digits_last d n h =
    let (x, xs, e) = digits-first n in
    let q = digits-differ d n h in rw e (strtok_last d x xs (rw e at q))

strtok_nothing : (d : ℕ) → strtok d [] ≡ none
unfolding strtok skip first_token
strtok_nothing d = refl

set_cpus-end :
    (k : ℕ) (text : List ℕ) (mask : CpuSet)
    → strtok 44 text ≡ none
    → set_cpus (suc k) text mask ≡ some mask
unfolding set_cpus
set_cpus-end k text mask e = ground (arith, e)

set_cpus-next :
    (k : ℕ) (text : List ℕ) (mask : CpuSet) (word rest : List ℕ) (c : ℕ)
    → strtok 44 text ≡ some (word, rest)
    → atoi word ≡ some c
    → set_cpus (suc k) text mask ≡ set_cpus k rest (cpu_set c mask)
unfolding set_cpus
set_cpus-next k text mask word rest c e n = ground (arith, e, n)

-- One turn for each processor and one for the end are fuel enough.
set_cpus-print :
    (k : ℕ) (cs : List ℕ) (mask : CpuSet)
    → length cs < k
    → AllSmall cs
    → set_cpus k (print_cpus cs) mask ≡ some (set_all cs mask)
unfolding print_cpus
set_cpus-print zero cs mask h small = absurd (omega arith)
set_cpus-print (suc k) [] mask h small = set_cpus-end k [] mask (strtok_nothing 44)
set_cpus-print (suc k) (c ∷ []) mask h small =
    set_cpus-next k (digits c) mask (digits c) [] c (strtok-digits_last 44 c refl)
      (atoi-digits c small.0)
    ∙ set_cpus-print k [] (cpu_set c mask) (omega (arith, h)) tt
set_cpus-print (suc k) (c ∷ d ∷ ds) mask h small =
    set_cpus-next k (digits c ++ (44 ∷ print_cpus (d ∷ ds))) mask (digits c) (print_cpus (d ∷ ds)) c
      (strtok-digits 44 c (print_cpus (d ∷ ds)) refl) (atoi-digits c small.0)
    ∙ set_cpus-print k (d ∷ ds) (cpu_set c mask) (omega (arith, h)) small.1

length-append : (xs ys : List ℕ) → length (xs ++ ys) ≡ length xs + length ys
length-append [] ys = omega arith
length-append (x ∷ xs) ys = let q = length-append xs ys in omega (arith, q)

digits-length : (n : ℕ) → 0 < length (digits n)
digits-length n = let (x, xs, e) = digits-first n in rw e (omega arith)

print_cpus-length : (cs : List ℕ) → length cs ≤ length (print_cpus cs)
unfolding print_cpus
print_cpus-length [] = omega arith
print_cpus-length (c ∷ []) = let q = digits-length c in omega (arith, q)
print_cpus-length (c ∷ d ∷ ds) =
    let q = length-append (digits c) (44 ∷ print_cpus (d ∷ ds)) in
    let r = digits-length c in let ih = print_cpus-length (d ∷ ds) in rw q (omega (arith, r, ih))

-- The characters of the list of processors are digits and commas.
print_cpus-all :
    (p : ℕ → Bool)
    → p 44 ≡ true
    → ((c : ℕ) → is_digit c ≡ true → p c ≡ true)
    → (cs : List ℕ) → all p (print_cpus cs) ≡ true
unfolding print_cpus
print_cpus-all p comma digit [] = refl
print_cpus-all p comma digit (c ∷ []) = all-weaken is_digit p digit (digits c) (digits-all c)
print_cpus-all p comma digit (c ∷ d ∷ ds) =
    let ih = print_cpus-all p comma digit (d ∷ ds) in
    all-append p (digits c) (44 ∷ print_cpus (d ∷ ds))
      (all-weaken is_digit p digit (digits c) (digits-all c)) (ground (arith, ih, comma))

print_cpus-first : (c : ℕ) (cs : List ℕ) → (x : ℕ) × (xs : List ℕ) × (print_cpus (c ∷ cs) ≡ x ∷ xs)
unfolding print_cpus
print_cpus-first c [] = digits-first c
print_cpus-first c (d ∷ ds) =
    let (x, xs, e) = digits-first c in (x, xs ++ (44 ∷ print_cpus (d ∷ ds)), rw e refl)

-- A list of processors that is not empty is one token.
strtok_print :
    (c : ℕ) (cs : List ℕ) → strtok 61 (print_cpus (c ∷ cs)) ≡ some (print_cpus (c ∷ cs), [])
strtok_print c cs =
    let (x, xs, e) = print_cpus-first c cs in
    let q = print_cpus-all (differs 61) refl (λ d h. ground (arith, h)) (c ∷ cs) in
    rw e (strtok_last 61 x xs (rw e at q))

-- The two settings, and the whole value.
abbrev pub nworkers_setting : ℕ → List ℕ
nworkers_setting n = key_nworkers ++ (61 ∷ digits n)

abbrev pub cpuset_setting : List ℕ → List ℕ
cpuset_setting cs = key_cpuset ++ (61 ∷ print_cpus cs)

abbrev pub print_config : ℕ → List ℕ → List ℕ
print_config n cs = nworkers_setting n ++ (59 ∷ cpuset_setting cs)

apply_setting-key_nworkers :
    (n : ℕ) (cfg : CilkConfig)
    → n ≤ 0x7fffffff
    → apply_setting (nworkers_setting n) cfg ≡ some (record cfg { n_workers = n })
unfolding apply_setting set_nworkers_key set_cpuset_key same_string
apply_setting-key_nworkers n cfg h =
    let e : strtok 61 (key_nworkers ++ (61 ∷ digits n)) ≡ some (key_nworkers, digits n) =
      strtok_ends 61 110 (119 ∷ 111 ∷ 114 ∷ 107 ∷ 101 ∷ 114 ∷ 115 ∷ []) (digits n) refl in
    ground (
      arith,
      e,
      strtok-digits_last 61 n refl,
      digits_only-all (digits n) (digits-all n),
      atoi-digits n h,
    )

-- An empty list of processors leaves the setting without a value.
apply_setting-key_cpuset :
    (cs : List ℕ) (n : ℕ)
    → AllSmall cs
    → apply_setting (cpuset_setting cs) (record { n_workers = n; boss_affinity = cpu_zero })
      ≡ some (record { n_workers = n; boss_affinity = set_all cs cpu_zero })
unfolding apply_setting set_nworkers_key set_cpuset_key same_string
apply_setting-key_cpuset [] n small =
    let e : strtok 61 (key_cpuset ++ (61 ∷ print_cpus [])) ≡ some (key_cpuset, print_cpus []) =
      strtok_ends 61 99 (112 ∷ 117 ∷ 115 ∷ 101 ∷ 116 ∷ []) (print_cpus []) refl in
    let f : strtok 61 (print_cpus []) ≡ none = unfold print_cpus in strtok_nothing 61 in
    ground (arith, e, f)
apply_setting-key_cpuset (c ∷ cs) n small =
    let e : strtok 61 (key_cpuset ++ (61 ∷ print_cpus (c ∷ cs)))
        ≡ some (key_cpuset, print_cpus (c ∷ cs)) =
      strtok_ends 61 99 (112 ∷ 117 ∷ 115 ∷ 101 ∷ 116 ∷ []) (print_cpus (c ∷ cs)) refl in
    let f = strtok_print c cs in
    let g =
      set_cpus-print (suc (length (print_cpus (c ∷ cs)))) (c ∷ cs) cpu_zero
        (let l = print_cpus-length (c ∷ cs) in omega (arith, l)) small in
    ground (arith, e, f, g)

next_settings-one :
    (k : ℕ) (s : List ℕ) (cfg out : CilkConfig)
    → strtok 59 s ≡ some (s, [])
    → apply_setting s cfg ≡ some out
    → next_settings (suc (suc k)) s cfg ≡ some out
unfolding next_settings
next_settings-one k s cfg out e f = let g = strtok_nothing 59 in ground (arith, e, f, g)

parse_settings-two :
    (s : List ℕ) (one two : List ℕ) (c out : CilkConfig)
    → strtok 59 s ≡ some (one, two)
    → apply_setting one (record { n_workers = 0; boss_affinity = cpu_zero }) ≡ some c
    → next_settings (suc (length two)) two c ≡ some out
    → parse_settings s ≡ some out
unfolding parse_settings
parse_settings-two s one two c out e f g = ground (arith, e, f, g)

-- cilk_cfg_from_env of "nworkers=N;cpuset=A,B,...", for numbers within the range of an int, gives the
-- number of workers that is written and the set of exactly those processors of the list that are less
-- than CPU_SETSIZE; the others, which no set of the system holds, are dropped.
pub cilk_cfg_from_env-print :
    (mask : CpuSet) (n : ℕ) (cs : List ℕ)
    → n ≤ 0x7fffffff
    → AllSmall cs
    → cilk_cfg_from_env mask (some (print_config n cs))
      ≡ some (record { n_workers = n; boss_affinity = cpus_of cs })
unfolding cilk_cfg_from_env
cilk_cfg_from_env-print mask n cs h small =
    let plain : all is_plain (print_config n cs) ≡ true =
      all-append is_plain (nworkers_setting n) (59 ∷ cpuset_setting cs)
        (let q =
            all-weaken is_digit is_plain (λ c e. ground (arith, e)) (digits n) (digits-all n) in
          ground (arith, q))
        (let q = print_cpus-all is_plain refl (λ c e. ground (arith, e)) cs in ground (arith, q)) in
    let first : strtok 59 (print_config n cs) ≡ some (nworkers_setting n, cpuset_setting cs) =
      strtok_ends 59 110 _ (cpuset_setting cs)
        (let q = digits-differ 59 n refl in ground (arith, q)) in
    let second : strtok 59 (cpuset_setting cs) ≡ some (cpuset_setting cs, []) =
      strtok_last 59 99 _ (
        let q = print_cpus-all (differs 59) refl (λ c e. ground (arith, e)) cs in
        ground (arith, q)) in
    (ap parse_settings (filter_plain (print_config n cs) plain)
      ∙ parse_settings-two (print_config n cs) (nworkers_setting n) (cpuset_setting cs) _ _ first
          (apply_setting-key_nworkers n (record { n_workers = 0; boss_affinity = cpu_zero }) h)
          (next_settings-one _ (cpuset_setting cs) _ _ second
            (apply_setting-key_cpuset cs n small)))
    ∙ ap (λ m. some (record { n_workers = n; boss_affinity = m })) (set_all-cpus_of cs)
