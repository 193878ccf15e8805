-- ===== src/Scheduler/Types/Tests.antt =====
-- The budget's theorems at a machine of 16 GiB.
use hypura.Prelude.{ℕ, ◌*◌, ◌≤◌, ◌<◌, true, some, none, ◌≡◌, refl, arith}
use hypura.Prelude.Machine.{u64}
use hypura.Scheduler.Samples.{whole}
use hypura.Scheduler.Types.{MemoryBudget, compute, with_pool, with_resident, pool_slots}
use hypura.Scheduler.Types.Budget.{IsBalanced, budget-IsBalanced, pool_slots-fits}

budget-IsBalanced_example : IsBalanced (
    with_resident
      (with_pool (compute whole 17179869184 5000000000 true 32 8 128 4096 none) 1000000)
      2000000)
unfolding compute u64
budget-IsBalanced_example =
    budget-IsBalanced whole 17179869184 5000000000 true 32 8 128 4096 none 1000000 2000000
      (omega arith)

abbrev budget : MemoryBudget
budget = record {
  total_ram = 1000;
  gpu_committed = 300;
  kv_cache_bytes = 0;
  metal_overhead = 0;
  os_overhead = 0;
  pool_bytes = 0;
  resident_bytes = 0;
  total_committed = 300;
  available = 700;
}

seven : pool_slots budget 100 2 32 ≡ some 7
unfolding pool_slots
seven = refl

pool_slots-fits_example :
    (n : ℕ) × ((pool_slots budget 100 2 32 ≡ some n)
      × ((2 ≤ n) × (n ≤ 32))
      × (2 < n → n * 100 ≤ budget.available))
pool_slots-fits_example = pool_slots-fits budget 100 2 32 (omega arith) (omega arith)
