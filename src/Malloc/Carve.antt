-- ===== src/Malloc/Carve.antt =====
-- A piece that is cut off the chunk of the pool, or off a new one, keeps the account of the pool.
use multicilk.Base.{
  ℕ, ◌+◌, ◌-◌, ◌≤◌, ◌≡◌, ◌≢◌, refl, ap, leb, ltb, Bool-cases, inl, inr, ◌%◌, ◌^◌, some,
  if◌then◌else◌, update, arith,
}
use multicilk.Base.Int.{ℤ, pos, pos_part, neg_part, ◌+ℤ◌, int_laws}
use multicilk.Malloc.{Desc, ImPool, Memory, size_thresh, chunk_size}
use multicilk.Malloc.Pool.{carve, extend_global_pool, malloc_from_system}
use multicilk.Malloc.Balance.{free_bytes}

-- The account of the pool alone.
pub record Pooled (d : Desc) (p : ImPool) : Type 0 where
  pub in_chunk : p.mem_begin ≤ p.mem_end
  pub even :
      d.used +ℤ free_bytes d +ℤ pos (p.mem_end - p.mem_begin) +ℤ pos p.wasted ≡ pos p.allocated

-- The memory after a chunk is added, and after a piece is cut off its chunk.
extended : (ℕ → ℕ → ℕ) → Memory → Memory
extended system m =
    let mem = system chunk_size m.given in
    let index = (m.pool.mem_list_index + 1) % 2 ^ 32 in
    record m {
      given = m.given + 1;
      pool = record m.pool {
        mem_begin = mem;
        mem_end = mem + chunk_size;
        allocated = m.pool.allocated + chunk_size;
        mem_list_index = index;
        mem_list_size =
            if leb m.pool.mem_list_size index
            then m.pool.mem_list_size + 8
            else m.pool.mem_list_size;
        mem_list = update m.pool.mem_list index mem;
      };
    }

cut : Memory → ℕ → Memory
cut m size = record m { pool = record m.pool { mem_begin = m.pool.mem_begin + size } }

-- The rest of the chunk is given up.
spoiled : Memory → Memory
spoiled m = record m {
  pool = record m.pool { wasted = m.pool.wasted + (m.pool.mem_end - m.pool.mem_begin) };
}

module _ (system : ℕ → ℕ → ℕ) (given : (k : ℕ) → system chunk_size k ≢ 0) where
  extend_global_pool-eq : (m : Memory) → extend_global_pool system m ≡ some (extended system m)
  unfolding extend_global_pool malloc_from_system extended
  extend_global_pool-eq m = ground (arith, given m.given)

  carve-eq :
      (m : Memory) (size : ℕ)
      → carve system m size ≡ (
          if ltb m.pool.mem_end (m.pool.mem_begin + size)
          then some
              ((extended system (spoiled m)).pool.mem_begin, cut (extended system (spoiled m)) size)
          else some (m.pool.mem_begin, cut m size))
  unfolding carve cut spoiled
  carve-eq m size = elim (Bool-cases (ltb m.pool.mem_end (m.pool.mem_begin + size))) [
    | inl e ↦ rw e (rw (extend_global_pool-eq (spoiled m)) refl)
    | inr e ↦ rw e refl
  ]

  cut-even :
      (x : ℤ) (b e w a size : ℕ)
      → b + size ≤ e
      → x +ℤ pos (e - b) +ℤ pos w ≡ pos a +ℤ pos size
      → x +ℤ pos (e - (b + size)) +ℤ pos w ≡ pos a
  cut-even x b e w a size h k = let p = ap pos_part k in let q = ap neg_part k in omega int_laws

  extended-even :
      (x : ℤ) (b e c w a size : ℕ)
      → size ≤ chunk_size
      → x +ℤ pos (e - b) +ℤ pos w ≡ pos a +ℤ pos size
      → x +ℤ pos (c + chunk_size - (c + size)) +ℤ pos (w + (e - b)) ≡ pos (a + chunk_size)
  extended-even x b e c w a size h k =
      let p = ap pos_part k in let q = ap neg_part k in omega int_laws

  -- A piece is cut off the chunk, or off a new one.
  pub carve_ok :
      (m : Memory) (size : ℕ)
      → size ≤ size_thresh
      → m.desc.used
          +ℤ free_bytes m.desc
          +ℤ pos (m.pool.mem_end - m.pool.mem_begin)
          +ℤ pos m.pool.wasted
        ≡ pos m.pool.allocated +ℤ pos size
      → (p : ℕ) × (t : Memory) × (carve system m size ≡ some (p, t))
        × (t.desc ≡ m.desc)
        × (t.locals ≡ m.locals)
        × Pooled m.desc t.pool
  unfolding cut extended spoiled
  carve_ok m size h k = elim (Bool-cases (ltb m.pool.mem_end (m.pool.mem_begin + size))) [
    | inl e ↦ (
      (extended system (spoiled m)).pool.mem_begin,
      cut (extended system (spoiled m)) size,
      rw (carve-eq m size) (rw e refl),
      refl,
      refl,
      record {
        in_chunk = omega arith;
        even =
            extended-even (m.desc.used +ℤ free_bytes m.desc) m.pool.mem_begin m.pool.mem_end
              (system chunk_size m.given) m.pool.wasted m.pool.allocated size (omega arith) k;
      },
    )
    | inr e ↦ (
      m.pool.mem_begin,
      cut m size,
      rw (carve-eq m size) (rw e refl),
      refl,
      refl,
      record {
        in_chunk = ground arith;
        even =
            cut-even (m.desc.used +ℤ free_bytes m.desc) m.pool.mem_begin m.pool.mem_end
              m.pool.wasted m.pool.allocated size (ground arith) k;
      },
    )
  ]
