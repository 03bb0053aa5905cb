-- ===== src/Startup/Pin/Masks.antt =====
-- The processors that move between two sets, and the loop to the next one, in `threads_init`
-- (runtime/init.c).
use multicilk.Base.{
  ℕ, zero, suc, ◌+◌, ◌*◌, ◌≤◌, ◌<◌, ◌≡◌, true, false, ◌&&◌, ◌||◌, Option, some, arith, Bool-cases,
  inl, inr,
}
use native.Mathlib.Decide.{ℕ_discrete}
use multicilk.Startup.CpuSet.{CpuSet, cpu_isset, cpu_count, cpu_count-clr}
use multicilk.Startup.Pin.{move_bit, move_bits, next_cpu}

-- `to` holds what was taken out of `m`, and `from` what is left.
unfoldable pub Split : CpuSet → CpuSet × CpuSet → Type 0
Split m (to, from) = (i : ℕ) → (m i ≡ (to i || from i)) × ((to i && from i) ≡ false)

move_bit-Split :
    (m to from : CpuSet) (cpu : ℕ) → Split m (to, from) → Split m (move_bit cpu to from)
unfolding move_bit Split
move_bit-Split m to from cpu h i = let q = h i in ground (arith, q)

-- No processor below `k` is in the set.
unfoldable pub EmptyBelow : ℕ → CpuSet → Type 0
EmptyBelow k m = (i : ℕ) → i < k → cpu_isset i m ≡ false

pub move_bits-Split :
    (n off cpu step : ℕ) (m to from : CpuSet)
    → Split m (to, from)
    → Split m (move_bits n off cpu step to from)
unfolding move_bits
move_bits-Split zero off cpu step m to from h = h
move_bits-Split (suc n) off cpu step m to from h =
    move_bits-Split n (off + 1) cpu step m (move_bit (cpu + off * step) to from).0
      (move_bit (cpu + off * step) to from).1 (move_bit-Split m to from (cpu + off * step) h)

-- What is out of the second set stays out, and what is in the first stays in.
pub move_bits-out :
    (n off cpu step : ℕ) (to from : CpuSet) (i : ℕ)
    → cpu_isset i from ≡ false
    → cpu_isset i (move_bits n off cpu step to from).1 ≡ false
unfolding move_bits move_bit
move_bits-out zero off cpu step to from i h = h
move_bits-out (suc n) off cpu step to from i h =
    move_bits-out n (off + 1) cpu step (move_bit (cpu + off * step) to from).0
      (move_bit (cpu + off * step) to from).1 i (ground (arith, h))

pub move_bits-in :
    (n off cpu step : ℕ) (to from : CpuSet) (i : ℕ)
    → to i ≡ true
    → (move_bits n off cpu step to from).0 i ≡ true
unfolding move_bits move_bit
move_bits-in zero off cpu step to from i h = h
move_bits-in (suc n) off cpu step to from i h =
    move_bits-in n (off + 1) cpu step (move_bit (cpu + off * step) to from).0
      (move_bit (cpu + off * step) to from).1 i (ground (arith, h))

move_bit-cpu_count :
    (cpu : ℕ) (to from : CpuSet) → cpu_count from ≤ cpu_count (move_bit cpu to from).1 + 1
unfolding move_bit
move_bit-cpu_count cpu to from = elim (Bool-cases (cpu_isset cpu from)) [
  | inl e ↦ ground (arith, cpu_count-clr cpu from e, e)
  | inr e ↦ ground (arith, e)
]

pub move_bits-cpu_count :
    (n off cpu step : ℕ) (to from : CpuSet)
    → cpu_count from ≤ cpu_count (move_bits n off cpu step to from).1 + n
unfolding move_bits
move_bits-cpu_count zero off cpu step to from = omega arith
move_bits-cpu_count (suc n) off cpu step to from =
    let (to', from') = move_bit (cpu + off * step) to from in
    let q = move_bit-cpu_count (cpu + off * step) to from in
    let r = move_bits-cpu_count n (off + 1) cpu step to' from' in omega (arith, q, r)

-- With steps of one, the whole group is out of the second set.
pub move_bits-row :
    (n off cpu : ℕ) (to from : CpuSet) (i : ℕ)
    → cpu + off ≤ i
    → i < cpu + off + n
    → cpu_isset i (move_bits n off cpu 1 to from).1 ≡ false
unfolding move_bits
move_bits-row zero off cpu to from i l h = absurd (omega arith)
move_bits-row (suc n) off cpu to from i l h = elim (ℕ_discrete i (cpu + off * 1)) [
  | yes e ↦
      move_bits-out n (off + 1) cpu 1 (move_bit (cpu + off * 1) to from).0
        (move_bit (cpu + off * 1) to from).1 i (unfold move_bit in ground (arith, e))
  | no ne ↦
      move_bits-row n (off + 1) cpu (move_bit (cpu + off * 1) to from).0
        (move_bit (cpu + off * 1) to from).1 i (omega arith) (omega arith)
]

-- The loop to the next processor finds the first one from `cpu` on.
unfoldable pub Next : CpuSet → ℕ → Option ℕ → Type 0
Next mask cpu r =
    (c : ℕ) × (r ≡ some c)
    × (cpu_isset c mask ≡ true)
    × ((i : ℕ) → cpu ≤ i → i < c → cpu_isset i mask ≡ false)

pub next_cpu-Next :
    (n : ℕ) (mask : CpuSet) (cpu i : ℕ)
    → cpu ≤ i
    → i < cpu + n
    → cpu_isset i mask ≡ true
    → Next mask cpu (next_cpu n mask cpu)
unfolding Next next_cpu
next_cpu-Next zero mask cpu i l h e = absurd (omega arith)
next_cpu-Next (suc n) mask cpu i l h e = elim (Bool-cases (cpu_isset cpu mask)) [
  | inl e' ↦ (cpu, ground (arith, e'), e', λ j p q. absurd (omega arith))
  | inr e' ↦ elim (ℕ_discrete i cpu) [
    | yes q ↦ absurd (ground (arith, q, e, e'))
    | no ne ↦
        let (c, r, s, t) = next_cpu-Next n mask (cpu + 1) i (omega arith) (omega arith) e in
        (
          c,
          ground (arith, r, e'),
          s,
          λ j p q. elim (ℕ_discrete j cpu) [
            | yes e2 ↦ ground (arith, e2, e')
            | no ne2 ↦ t j (omega arith) q
          ],
        )
  ]
]
