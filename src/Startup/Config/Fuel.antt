-- ===== src/Startup/Config/Fuel.antt =====
-- The loops of `cilk_cfg_from_env` (runtime/cilk2c.c) over tokens: every token shortens the string, so that
-- a turn for each character and one more are enough.
use multicilk.Base.{
  ℕ, zero, suc, ◌≤◌, ◌<◌, ◌≡◌, some, Option-cases, inl, inr, List, [], ◌∷◌, length, arith,
}
use multicilk.Startup.CpuSet.{CpuSet, cpu_set}
use multicilk.Startup.Config.{
  CilkConfig, skip, token, first_token, strtok, atoi, set_cpus, apply_setting, next_settings,
}

token-length : (d : ℕ) (s : List ℕ) → length (token d s).1 ≤ length s
unfolding token
token-length d [] = omega arith
token-length d (c ∷ cs) = let ih = token-length d cs in ground (arith, ih)

skip-length : (d : ℕ) (s : List ℕ) → length (skip d s) ≤ length s
unfolding skip
skip-length d [] = omega arith
skip-length d (c ∷ cs) = let ih = skip-length d cs in ground (arith, ih)

first_token-length :
    (d : ℕ) (s t rest : List ℕ) → first_token d s ≡ some (t, rest) → length rest < length s
unfolding first_token token
first_token-length d [] t rest e = absurd (ground (arith, e))
first_token-length d (c ∷ cs) t rest e = let q = token-length d cs in ground (arith, q, e)

strtok-length : (d : ℕ) (s t rest : List ℕ) → strtok d s ≡ some (t, rest) → length rest < length s
unfolding strtok
strtok-length d s t rest e =
    let q = first_token-length d (skip d s) t rest e in
    let r = skip-length d s in omega (arith, q, r)

-- More fuel changes nothing.
pub next_settings_fuel :
    (n m : ℕ) (s : List ℕ) (cfg : CilkConfig)
    → length s < n
    → length s < m
    → next_settings n s cfg ≡ next_settings m s cfg
unfolding next_settings
next_settings_fuel zero m s cfg h k = absurd (omega arith)
next_settings_fuel (suc n) zero s cfg h k = absurd (omega arith)
next_settings_fuel (suc n) (suc m) s cfg h k = elim (Option-cases (strtok 59 s)) [
  | inl e ↦ ground (arith, e)
  | inr ((tok, rest), e) ↦
      let l = strtok-length 59 s tok rest e in
      elim (Option-cases (apply_setting tok cfg)) [
        | inl f ↦ ground (arith, e, f)
        | inr (c, f) ↦
            let ih = next_settings_fuel n m rest c (omega (arith, l, h)) (omega (arith, l, k)) in
            ground (arith, e, f, ih)
      ]
]

pub set_cpus_fuel :
    (n m : ℕ) (s : List ℕ) (mask : CpuSet)
    → length s < n
    → length s < m
    → set_cpus n s mask ≡ set_cpus m s mask
unfolding set_cpus
set_cpus_fuel zero m s mask h k = absurd (omega arith)
set_cpus_fuel (suc n) zero s mask h k = absurd (omega arith)
set_cpus_fuel (suc n) (suc m) s mask h k = elim (Option-cases (strtok 44 s)) [
  | inl e ↦ ground (arith, e)
  | inr ((word, rest), e) ↦
      let l = strtok-length 44 s word rest e in
      elim (Option-cases (atoi word)) [
        | inl f ↦ ground (arith, e, f)
        | inr (c, f) ↦
            let ih =
              set_cpus_fuel n m rest (cpu_set c mask) (omega (arith, l, h)) (omega (arith, l, k)) in
            ground (arith, e, f, ih)
      ]
]
