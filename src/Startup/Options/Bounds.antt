-- ===== src/Startup/Options/Bounds.antt =====
-- The options that `global_state_init` (runtime/global.c) accepts, and what it makes of them.
use multicilk.Base.{
  ℕ, ◌<◌, ◌≡◌, refl, inl, inr, Bool, false, ◌&&◌, ◌||◌, Option, none, some, ltb, leb, ◌==◌,
  if◌then◌else◌, arith, ◌^◌, Bool-cases,
}
use multicilk.Base.Int.{ℤ, pos, negsuc}
use multicilk.Startup.CpuSet.{CpuSet, cpu_count-le}
use multicilk.Startup.Options.{
  to_unsigned, GlobalState, Environment, default_options, global_state_allocate, set_stacksize,
  set_deqdepth, set_fiber_pool_cap, cores_of, choose_nproc, set_unless_zero, parse_force_reduce,
  parse_nproc, parse_rts_environment, global_state_init,
}

-- A value is absent, or within its bounds.
abbrev pub in_range : ℕ → ℕ → ℕ → Bool
in_range low high v = (v == 0) || leb low v && leb v high

-- The value that an option has: the default where the variable gives 0.
abbrev pub value_or : ℕ → ℕ → ℕ
value_or default v = if v == 0 then default else v

pub wanted_nproc : Environment → ℕ → ℕ
wanted_nproc env argc = choose_nproc argc (cores_of env.process_mask) env.online

-- What has to hold for the runtime to start.
pub accepts : Environment → ℤ → Bool
accepts env argc =
    in_range 16384 104857600 (to_unsigned 64 env.cilk_stacksize)
    && in_range 1 99999 (to_unsigned 32 env.cilk_deqdepth)
    && in_range 8 999999 (to_unsigned 32 env.cilk_fiber_pool)
    && ltb 0 (wanted_nproc env (to_unsigned 32 argc))

to_unsigned-lt : (z : ℤ) → to_unsigned 32 z < 2 ^ 32
unfolding to_unsigned
to_unsigned-lt (pos n) = omega arith
to_unsigned-lt (negsuc n) = omega arith

choose_nproc-lt :
    (override cores : ℕ) (online : ℤ)
    → override < 2 ^ 32
    → cores < 2 ^ 32
    → choose_nproc override cores online < 2 ^ 32
unfolding choose_nproc
choose_nproc-lt override cores (pos n) h l = ground arith
choose_nproc-lt override cores (negsuc n) h l = ground arith

cores_of-lt : (mask : Option CpuSet) → cores_of mask < 2 ^ 32
unfolding cores_of
cores_of-lt none = omega arith
cores_of-lt (some mask) = omega (arith, cpu_count-le mask)

-- The number of processors is an `unsigned`.
pub wanted_nproc-lt :
    (env : Environment) (argc : ℤ) → wanted_nproc env (to_unsigned 32 argc) < 2 ^ 32
unfolding wanted_nproc
wanted_nproc-lt env argc =
    choose_nproc-lt (to_unsigned 32 argc) (cores_of env.process_mask) env.online
      (to_unsigned-lt argc) (cores_of-lt env.process_mask)

-- The state at the end of `global_state_init`.
unfoldable pub initial : Environment → ℤ → GlobalState
initial env argc =
    let force = if to_unsigned 32 argc == 1 then to_unsigned 32 env.cilk_force_reduce else 0 in
    record global_state_allocate {
      options = record {
        stacksize = value_or 0x100000 (to_unsigned 64 env.cilk_stacksize);
        nproc = wanted_nproc env (to_unsigned 32 argc);
        reducer_cap = 1024;
        deqdepth = value_or 1024 (to_unsigned 32 env.cilk_deqdepth);
        fiber_pool_cap = value_or 128 (to_unsigned 32 env.cilk_fiber_pool);
        force_reduce = force;
      };
      nworkers = wanted_nproc env (to_unsigned 32 argc);
    }

stacksize_run :
    (g : GlobalState) (v : ℕ)
    → g.workers_started ≡ false
    → set_unless_zero set_stacksize g v ≡ (
        if in_range 16384 104857600 v
        then some
            (record g { options = record g.options { stacksize = value_or g.options.stacksize v } })
        else none)
unfolding set_unless_zero set_stacksize
stacksize_run g v h = ground (arith, h)

deqdepth_run :
    (g : GlobalState) (v : ℕ)
    → g.workers_started ≡ false
    → set_unless_zero set_deqdepth g v ≡ (
        if in_range 1 99999 v
        then some
            (record g { options = record g.options { deqdepth = value_or g.options.deqdepth v } })
        else none)
unfolding set_unless_zero set_deqdepth
deqdepth_run g v h = ground (arith, h)

fiber_pool_cap_run :
    (g : GlobalState) (v : ℕ)
    → g.workers_started ≡ false
    → set_unless_zero set_fiber_pool_cap g v ≡ (
        if in_range 8 999999 v
        then some (record g {
          options = record g.options { fiber_pool_cap = value_or g.options.fiber_pool_cap v };
        })
        else none)
unfolding set_unless_zero set_fiber_pool_cap
fiber_pool_cap_run g v h = ground (arith, h)

choose_one : (cores : ℕ) (online : ℤ) → choose_nproc 1 cores online ≡ 1
unfolding choose_nproc
choose_one cores online = refl

-- global_state_init succeeds exactly if the values of the three variables with bounds are 0 or
-- within them and some number of processors is known; then the state is the initial one with these
-- options, and CILK_FORCE_REDUCE counts only for a single worker.
pub global_state_init_decides :
    (env : Environment) (argc : ℤ)
    → global_state_init env argc ≡ (if accepts env argc then some (initial env argc) else none)
unfolding global_state_init parse_rts_environment parse_nproc parse_force_reduce accepts initial
    wanted_nproc
global_state_init_decides env argc =
    let base = record global_state_allocate { options = default_options } in
    let v1 = to_unsigned 64 env.cilk_stacksize in
    let v2 = to_unsigned 32 env.cilk_deqdepth in
    let v3 = to_unsigned 32 env.cilk_fiber_pool in
    let g1 = record base { options = record base.options { stacksize = value_or 0x100000 v1 } } in
    let g2 = record g1 { options = record g1.options { deqdepth = value_or 1024 v2 } } in
    rw (stacksize_run base v1 refl) (elim (Bool-cases (in_range 16384 104857600 v1)) [
      | inr e ↦ rw e refl
      | inl e ↦ rw e (
          rw (deqdepth_run g1 v2 refl) (elim (Bool-cases (in_range 1 99999 v2)) [
            | inr e ↦ rw e refl
            | inl e ↦ rw e (
                rw (fiber_pool_cap_run g2 v3 refl) (elim (Bool-cases (in_range 8 999999 v3)) [
                  | inr e ↦ rw e refl
                  | inl e ↦ rw e (ground (arith, choose_one (cores_of env.process_mask) env.online))
                ]))
          ]))
    ])
