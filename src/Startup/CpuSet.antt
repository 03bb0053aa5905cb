-- ===== src/Startup/CpuSet.antt =====
-- The sets of processors of `sched.h`, that runtime/init.c and runtime/cilk2c.c use: the bits of a
-- `cpu_set_t`. A processor out of range is in no set.
use multicilk.Base.{
  ℕ, ◌≡◌, Bool, true, false, ◌&&◌, if◌then◌else◌, ltb, update, count_below, count_below-update,
  count_below-le, ◌≤◌, ◌≢◌, zero, suc, ◌<◌, arith, Bool-cases, inl, inr,
}

abbrev pub CpuSet : Type 0
CpuSet = ℕ → Bool

-- CPU_SETSIZE
abbrev pub cpu_setsize : ℕ
cpu_setsize = 1024

-- CPU_ZERO
abbrev pub cpu_zero : CpuSet
cpu_zero i = false

-- CPU_ISSET
abbrev pub cpu_isset : ℕ → CpuSet → Bool
cpu_isset i m = ltb i cpu_setsize && m i

-- CPU_SET, which ignores a processor out of range.
abbrev pub cpu_set : ℕ → CpuSet → CpuSet
cpu_set i m = if ltb i cpu_setsize then update m i true else m

-- CPU_CLR, which does so too.
abbrev pub cpu_clr : ℕ → CpuSet → CpuSet
cpu_clr i m = if ltb i cpu_setsize then update m i false else m

abbrev bit_set : Bool → Bool
bit_set b = b

-- CPU_COUNT
unfoldable pub cpu_count : CpuSet → ℕ
cpu_count m = count_below bit_set cpu_setsize m

pub cpu_clr_other : (i j : ℕ) (m : CpuSet) → j ≢ i → cpu_clr i m j ≡ m j
cpu_clr_other i j m ne = ground (arith, ne)

-- Of a set that is not empty some processor is found.
pub count-isset :
    (n : ℕ) (m : CpuSet) → 0 < count_below bit_set n m → (i : ℕ) × (i < n) × (m i ≡ true)
unfolding count_below
count-isset zero m h = absurd (omega arith)
count-isset (suc n) m h = elim (Bool-cases (m n)) [
  | inl e ↦ (n, omega arith, e)
  | inr e ↦ let (i, l, b) = count-isset n m (ground (arith, h, e)) in (i, omega arith, b)
]

pub cpu_count-isset : (m : CpuSet) → 0 < cpu_count m → (i : ℕ) × (cpu_isset i m ≡ true)
unfolding cpu_count
cpu_count-isset m h = let (i, l, b) = count-isset cpu_setsize m h in (i, ground (arith, l, b))

-- CPU_CLR of a processor in the set takes one away.
pub cpu_count-clr :
    (i : ℕ) (m : CpuSet) → cpu_isset i m ≡ true → suc (cpu_count (cpu_clr i m)) ≡ cpu_count m
unfolding cpu_count
cpu_count-clr i m h =
    let l : i < cpu_setsize = ground (arith, h) in
    let e : m i ≡ true = ground (arith, h) in
    let q = count_below-update bit_set cpu_setsize m i false l in ground (arith, q, e, l)

pub cpu_count-le : (m : CpuSet) → cpu_count m ≤ cpu_setsize
unfolding cpu_count
cpu_count-le m = count_below-le bit_set cpu_setsize m
