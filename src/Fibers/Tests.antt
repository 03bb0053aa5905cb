-- ===== src/Fibers/Tests.antt =====
-- A full pool of four fibers under an empty shared pool: the results at it.
use multicilk.Base.{ℕ, ◌+◌, ◌-◌, ◌*◌, ◌≡◌, ◌≢◌, refl, true, false, some, [], ◌∷◌, arith}
use multicilk.Base.Int.{pos}
use multicilk.Runtime.{no_worker}
use multicilk.Fibers.{FiberPool, Pools, fiber_pool_free_batch, cilk_fiber_deallocate_to_pool}
use multicilk.Fibers.Bounds.{Bounded, Moved}
use multicilk.Fibers.Batch.{free_batch_ok}
use multicilk.Fibers.Return.{deallocate_to_pool_ok}

abbrev pool_of : ℕ → ℕ → FiberPool
pool_of capacity size = record {
  mutex_owner = no_worker;
  shared = false;
  stack_size = 65536;
  fibers = λ i. 4096 * (i + 1);
  capacity = capacity;
  size = size;
  in_use = pos 0;
  max_in_use = pos 0;
  max_free = 0;
}

abbrev full : Pools
full = record {
  own = pool_of 4 4;
  parent = record (pool_of 40 1) { shared = true; fibers = λ i. 40960 };
  made = 5;
  dropped = [];
}

full-Bounded : Bounded 3 full
full-Bounded = record {
  own_fits = omega arith;
  parent_fits = omega arith;
  private = refl;
  parent_shared = refl;
  unlocked = refl;
}

three : 3 ≢ no_worker
three e = omega arith

abbrev make : ℕ → ℕ
make n = 4096 * (n + 1)

free_batch_ok_example :
    (t : Pools) × (fiber_pool_free_batch 3 full 2 ≡ some t)
    × Moved 3 full [] t
    × (t.own.size ≡ 4 - 2)
    × (t.own.capacity ≡ 4)
free_batch_ok_example = free_batch_ok 3 full 2 full-Bounded three (omega arith)

deallocate_to_pool_ok_example :
    (t : Pools) × (cilk_fiber_deallocate_to_pool 3 full (some 81920) ≡ some t)
    × Moved 3 full (81920 ∷ []) t
deallocate_to_pool_ok_example = deallocate_to_pool_ok 3 81920 full full-Bounded three (omega arith)
