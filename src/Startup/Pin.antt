-- ===== src/Startup/Pin.antt =====
-- `threads_init` of runtime/init.c: the threads of the workers, and the processors that each one is
-- bound to.
use multicilk.Base.{
  ℕ, zero, suc, ◌+◌, ◌-◌, ◌*◌, ◌/◌, ◌≡◌, Bool, true, false, ◌&&◌, Option, none, some, List, [], ◌∷◌,
  if◌then◌else◌, ltb, ◌==◌, arith,
}
use multicilk.Base.Int.{ℤ, pos, eq_ℤ}
use multicilk.Base.Fallible.{assert, ◌>>=◌, ◌>>◌}
use multicilk.Startup.CpuSet.{CpuSet, cpu_setsize, cpu_zero, cpu_isset, cpu_set, cpu_clr, cpu_count}
mod Masks
pub mod Shares

-- What the system answers: the mask of the thread that starts the others (`none` is an error of
-- pthread_getaffinity_np), the value of CILK_PIN, whether pthread_create succeeds for a worker, and
-- whether pthread_setaffinity_np does.
pub record Host : Type 0 where
  pub affinity : Option CpuSet
  pub pin : ℤ
  pub created : ℕ → Bool
  pub bound : ℕ → CpuSet → Bool

-- `move_bit`: the sets `to` and `from` after it.
unfoldable pub move_bit : ℕ → CpuSet → CpuSet → CpuSet × CpuSet
move_bit cpu to from = if cpu_isset cpu from then (cpu_set cpu to, cpu_clr cpu from) else (to, from)

-- The loop over `off`, `n` turns from `off` on.
unfoldable pub move_bits : ℕ → ℕ → ℕ → ℕ → CpuSet → CpuSet → CpuSet × CpuSet
move_bits zero off cpu step_in to from = (to, from)
move_bits (suc n) off cpu step_in to from =
    let (to', from') = move_bit (cpu + off * step_in) to from in
    move_bits n (off + 1) cpu step_in to' from'

-- The loop to the next active CPU: `none` where it passes the end of the set.
unfoldable pub next_cpu : ℕ → CpuSet → ℕ → Option ℕ
next_cpu zero mask cpu = none
next_cpu (suc n) mask cpu =
    let rest = next_cpu n mask (cpu + 1) in if cpu_isset cpu mask then some cpu else rest

-- How the processors are shared: the variables `group_size`, `step_in` and `step_out`.
pub record Groups : Type 0 where
  pub group_size : ℕ
  pub step_in : ℕ
  pub step_out : ℕ

-- One turn's binding of worker `w`: its mask, and `process_mask` and `cpu` after it.
unfoldable pub bind_worker : Host → Groups → ℕ → CpuSet → ℕ → Option (CpuSet × CpuSet × ℕ)
bind_worker sys g w process_mask start = do
  cpu ← next_cpu (suc cpu_setsize) process_mask start
  let (worker_mask, rest) =
      move_bits (g.group_size - 1) 1 cpu g.step_in (cpu_set cpu cpu_zero) (cpu_clr cpu process_mask)
  assert (sys.bound w worker_mask)
  some (worker_mask, rest, cpu + g.step_out)

-- The loop over the workers, `n` of them from `w` on: the masks that it binds them to. `pinned` is
-- the test `available_cores > 0`.
unfoldable pub start_threads : Host → Groups → Bool → ℕ → ℕ → CpuSet → ℕ → Option (List CpuSet)
start_threads sys g pinned zero w process_mask cpu = some []
start_threads sys g false (suc n) w process_mask cpu = do
  assert (sys.created w)
  start_threads sys g false n (w + 1) process_mask cpu
start_threads sys g true (suc n) w process_mask cpu = do
  assert (sys.created w)
  (worker_mask, rest, cpu') ← bind_worker sys g w process_mask cpu
  masks ← start_threads sys g true n (w + 1) rest cpu'
  some (worker_mask ∷ masks)

-- `switch (env_get_int("CILK_PIN"))`, for the strategy of Linux at first.
unfoldable pub pin_strategy : ℤ → ℕ
pin_strategy pin = if eq_ℤ pin (pos 2) then 1 else 0

-- `available_cores`, after the switch: CILK_PIN=3 turns the binding off.
unfoldable pub available_cores : Host → ℕ
available_cores sys =
    if eq_ℤ sys.pin (pos 3) then 0 else elim sys.affinity [ none ↦ 0 | some mask ↦ cpu_count mask ]

-- `n_threads > available_cores`, or the sizes of the groups.
unfoldable pub groups : ℕ → ℕ → ℕ → Groups
groups strategy cores n_threads =
    if ltb cores n_threads
    then record { group_size = 1; step_in = 1; step_out = 1 }
    else (if strategy == 0
        then record { group_size = cores / n_threads; step_in = cores / n_threads; step_out = 1 }
        else record { group_size = cores / n_threads; step_in = 1; step_out = cores / n_threads })

-- `n_threads` is an int: a number of workers above its range is negative.
unfoldable pub threads_init : Host → ℕ → Option (List CpuSet)
threads_init sys n_threads = do
  assert (ltb 0 n_threads && ltb n_threads 0x80000000)
  let cores = available_cores sys
  let pinned = ltb 0 (if ltb cores n_threads then 0 else cores)
  let mask : CpuSet = elim sys.affinity [ none ↦ cpu_zero | some m ↦ m ]
  start_threads sys (groups (pin_strategy sys.pin) cores n_threads) pinned n_threads 0 mask 0
