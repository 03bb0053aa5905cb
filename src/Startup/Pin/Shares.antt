-- ===== src/Startup/Pin/Shares.antt =====
-- The masks that `threads_init` (runtime/init.c) binds the workers to.
use multicilk.Base.{
  ℕ, zero, suc, ◌+◌, ◌-◌, ◌*◌, ◌≤◌, ◌<◌, ◌≡◌, ◌≢◌, refl, ap, subst, ◌⊎◌, true, false, not, ◌&&◌,
  Option, some, List, [], ◌∷◌, length, fun_ext, arith, inl, inr,
}
use multicilk.Base.Int.{pos}
use native.Mathlib.Omega.{div_any}
use native.Mathlib.Decide.{dec_lt, ℕ_discrete}
use multicilk.Startup.CpuSet.{
  CpuSet, cpu_setsize, cpu_zero, cpu_isset, cpu_set, cpu_clr, cpu_count, cpu_count-isset,
  cpu_count-le, cpu_count-clr,
}
use multicilk.Startup.Pin.{
  Host, move_bits, next_cpu, Groups, bind_worker, start_threads, pin_strategy, available_cores,
  groups, threads_init,
}
use multicilk.Startup.Pin.Masks.{
  Split, EmptyBelow, Next, move_bits-Split, move_bits-out, move_bits-in, move_bits-cpu_count,
  move_bits-row, next_cpu-Next,
}

-- The processors of `m` that are not in `s`.
unfoldable pub without : CpuSet → CpuSet → CpuSet
without m s i = m i && not (s i)

-- The masks have a processor each, all of them from `m`, and no processor is in two of them.
unfoldable pub Shares : CpuSet → List CpuSet → Type 0
Shares m [] = Unit
Shares m (s ∷ ss) =
    ((i : ℕ) × (cpu_isset i s ≡ true))
    × ((i : ℕ) → cpu_isset i s ≡ true → cpu_isset i m ≡ true)
    × Shares (without m s) ss

-- The sizes that `threads_init` chooses.
Sizes : Groups → Type 0
Sizes g = (1 ≤ g.group_size) × ((g.step_out ≡ 1) ⊎ ((g.step_in ≡ 1) × (g.step_out ≡ g.group_size)))

-- The mask of one worker.
Bound : Groups → CpuSet → Option (CpuSet × CpuSet × ℕ) → Type 0
Bound g m r =
    (s rest : CpuSet) × (cpu : ℕ) × (r ≡ some (s, rest, cpu))
    × (rest ≡ without m s)
    × ((i : ℕ) × (cpu_isset i s ≡ true))
    × ((i : ℕ) → cpu_isset i s ≡ true → cpu_isset i m ≡ true)
    × EmptyBelow cpu rest
    × (cpu_count m ≤ cpu_count rest + g.group_size)

Split-without : (m to from : CpuSet) → Split m (to, from) → from ≡ without m to
unfolding Split without
Split-without m to from h = fun_ext (λ i. let q = h i in ground (arith, q))

taken : (m : CpuSet) (c : ℕ) → cpu_isset c m ≡ true → Split m (cpu_set c cpu_zero, cpu_clr c m)
unfolding Split
taken m c h i = ground (arith, h)

module _ (g : Groups) (m : CpuSet) (start c : ℕ) (at : cpu_isset c m ≡ true) (sizes : Sizes g)
    (empty : EmptyBelow start m) (first : (i : ℕ) → start ≤ i → i < c → cpu_isset i m ≡ false) where
  moved : CpuSet × CpuSet
  moved = move_bits (g.group_size - 1) 1 c g.step_in (cpu_set c cpu_zero) (cpu_clr c m)

  -- What lies below the processor found is not in the set, and what is cleared stays so.
  below : (i : ℕ) → i < suc c → cpu_isset i moved.1 ≡ false
  unfolding moved EmptyBelow
  below i l =
      move_bits-out (g.group_size - 1) 1 c g.step_in (cpu_set c cpu_zero) (cpu_clr c m) i
        (elim (ℕ_discrete i c) [
          | yes e ↦ ground (arith, e)
          | no ne ↦ elim (dec_lt i start) [
            | yes l' ↦ let q = empty i l' in ground (arith, q)
            | no l' ↦ let q = first i (omega arith) (omega arith) in ground (arith, q)
          ]
        ])

  moved-EmptyBelow : EmptyBelow (c + g.step_out) moved.1
  unfolding EmptyBelow Sizes
  moved-EmptyBelow i l = elim (dec_lt i (suc c)) [
    | yes l' ↦ below i l'
    | no l' ↦ elim sizes.1 [
      | inl e ↦ absurd (omega (arith, e, l, l'))
      | inr (e, e') ↦
          let row =
            move_bits-row (g.group_size - 1) 1 c (cpu_set c cpu_zero) (cpu_clr c m) i
              (omega (arith, l')) (let o = sizes.0 in omega (arith, l, e', o)) in
          unfold moved in rw e row
    ]
  ]

  moved-Split : Split m moved
  unfolding moved
  moved-Split =
      move_bits-Split (g.group_size - 1) 1 c g.step_in m (cpu_set c cpu_zero) (cpu_clr c m)
        (taken m c at)

  moved-in : cpu_isset c moved.0 ≡ true
  unfolding moved
  moved-in =
      let q =
        move_bits-in (g.group_size - 1) 1 c g.step_in (cpu_set c cpu_zero) (cpu_clr c m) c
          (ground arith) in
      ground (arith, q, at)

  moved-from : (i : ℕ) → cpu_isset i moved.0 ≡ true → cpu_isset i m ≡ true
  unfolding Split
  moved-from i h = let q = moved-Split i in ground (arith, q, h)

  moved-cpu_count : cpu_count m ≤ cpu_count moved.1 + g.group_size
  unfolding moved Sizes
  moved-cpu_count =
      let q =
        move_bits-cpu_count (g.group_size - 1) 1 c g.step_in (cpu_set c cpu_zero) (cpu_clr c m) in
      let r = cpu_count-clr c m at in let o = sizes.0 in omega (arith, q, r, o)

bind_worker-Bound :
    (sys : Host) (g : Groups) (w : ℕ) (m : CpuSet) (start : ℕ)
    → ((s : CpuSet) → sys.bound w s ≡ true)
    → Sizes g
    → EmptyBelow start m
    → 0 < cpu_count m
    → Bound g m (bind_worker sys g w m start)
unfolding bind_worker Bound Next moved
bind_worker-Bound sys g w m start ok sizes empty some_left =
    let (i, e) = cpu_count-isset m some_left in
    let found : Next m start (next_cpu (suc cpu_setsize) m start) =
      next_cpu-Next (suc cpu_setsize) m start i
        (elim (dec_lt i start) [
          | yes l ↦ absurd (unfold EmptyBelow in let q = empty i l in ground (arith, q, e))
          | no l ↦ omega (arith, l)
        ])
        (ground (arith, e)) e in
    let (c, r, at, first) = found in
    let t = moved g m start c at sizes empty first in
    (
      t.0,
      t.1,
      c + g.step_out,
      rw r (rw (ok t.0) refl),
      Split-without m t.0 t.1 (moved-Split g m start c at sizes empty first),
      (c, moved-in g m start c at sizes empty first),
      moved-from g m start c at sizes empty first,
      moved-EmptyBelow g m start c at sizes empty first,
      moved-cpu_count g m start c at sizes empty first,
    )

start_threads-Shares :
    (sys : Host) (g : Groups) (n w : ℕ) (m : CpuSet) (start : ℕ)
    → ((v : ℕ) → sys.created v ≡ true)
    → ((v : ℕ) (s : CpuSet) → sys.bound v s ≡ true)
    → Sizes g
    → EmptyBelow start m
    → n * g.group_size ≤ cpu_count m
    → (masks : List CpuSet) × (start_threads sys g true n w m start ≡ some masks)
      × (length masks ≡ n)
      × Shares m masks
unfolding start_threads Shares Bound Sizes
start_threads-Shares sys g zero w m start created bound sizes empty room = ([], refl, refl, tt)
start_threads-Shares sys g (suc n) w m start created bound sizes empty room =
    let one = sizes.0 in
    let (s, rest, cpu, run, left, own, from, empty', count) =
      bind_worker-Bound sys g w m start (bound w) sizes empty (grind (arith, one)) in
    let (masks, run', number, shares) =
      start_threads-Shares sys g n (w + 1) rest cpu created bound sizes empty' (grind arith) in
    (
      s ∷ masks,
      rw (created w) (rw run (rw run' refl)),
      ap suc number,
      (own, from, subst (λ x. Shares x masks) left shares),
    )

groups-Sizes :
    (strategy cores n : ℕ)
    → 0 < n
    → n ≤ cores
    → Sizes (groups strategy cores n) × (n * (groups strategy cores n).group_size ≤ cores)
unfolding groups Sizes
groups-Sizes strategy cores n positive le =
    let q = div_any cores n in grind (arith, q, positive, le)

-- Where the threads can be created and bound, CILK_PIN does not turn the binding off, and the mask
-- of the process has a processor for each of the workers, threads_init ends, and binds the workers
-- to masks from that of the process which are not empty and have no processor in common.
pub threads_init-Shares :
    (sys : Host) (n : ℕ) (mask : CpuSet)
    → sys.affinity ≡ some mask
    → sys.pin ≢ pos 3
    → ((v : ℕ) → sys.created v ≡ true)
    → ((v : ℕ) (s : CpuSet) → sys.bound v s ≡ true)
    → 0 < n
    → n ≤ cpu_count mask
    → (masks : List CpuSet) × (threads_init sys n ≡ some masks)
      × (length masks ≡ n)
      × Shares mask masks
unfolding threads_init available_cores EmptyBelow
threads_init-Shares sys n mask affinity pin created bound positive le =
    let (sizes, room) = groups-Sizes (pin_strategy sys.pin) (cpu_count mask) n positive le in
    let (masks, run, number, shares) =
      start_threads-Shares sys (groups (pin_strategy sys.pin) (cpu_count mask) n) n 0 mask 0 created
        bound sizes (λ i l. absurd (omega (arith, l))) room in
    let small : n < 0x80000000 = omega (arith, cpu_count-le mask, le) in
    (masks, ground (arith, run, affinity, pin, positive, le, small), number, shares)
