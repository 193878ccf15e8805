-- ===== src/Scheduler/Types/Budget.antt =====
-- The memory budget adds up.
use hypura.Prelude.{ℕ, ◌+◌, ◌-◌, ◌*◌, ◌/◌, ◌≤◌, ◌<◌, Bool, Option, some, ◌≡◌, refl, arith, min, max}
use hypura.Prelude.Keys.{nat_eq}
use hypura.Prelude.Float.{F64}
use hypura.Prelude.Machine.{u64, u64_small}
use hypura.Scheduler.Types.{
  MemoryBudget, KvQuantization, compute, with_pool, with_resident, pool_slots,
  metal_compute_overhead, os_reserved, clamp,
}

-- The parts of a budget.
abbrev pub parts : MemoryBudget → ℕ
parts b =
    b.gpu_committed + b.kv_cache_bytes + b.metal_overhead + b.os_overhead + b.pool_bytes
    + b.resident_bytes

-- What is documented of the two totals.
pub record IsBalanced (b : MemoryBudget) : Type 0 where
  pub committed : b.total_committed ≡ parts b
  pub rest : b.available ≡ b.total_ram - b.total_committed

pub with_pool-IsBalanced :
    (b : MemoryBudget) (n : ℕ)
    → IsBalanced b
    → b.pool_bytes ≡ 0
    → parts b + n < 18446744073709551616
    → IsBalanced (with_pool b n) × (parts (with_pool b n) ≡ parts b + n)
unfolding with_pool
with_pool-IsBalanced b n h zero small =
    let fits = u64_small (b.total_committed + n) (omega (arith, h.committed)) in
    (record { committed = omega (arith, h.committed); rest = refl }, omega arith)

pub with_resident-IsBalanced :
    (b : MemoryBudget) (n : ℕ)
    → IsBalanced b
    → b.resident_bytes ≡ 0
    → parts b + n < 18446744073709551616
    → IsBalanced (with_resident b n) × (parts (with_resident b n) ≡ parts b + n)
unfolding with_resident
with_resident-IsBalanced b n h zero small =
    let fits = u64_small (b.total_committed + n) (omega (arith, h.committed)) in
    (record { committed = omega (arith, h.committed); rest = refl }, omega arith)

module _ (F : F64) where
  pub compute-IsBalanced :
      (total_ram bytes : ℕ) (mmap : Bool) (layers heads dim context : ℕ) (q : Option KvQuantization)
      → parts (compute F total_ram bytes mmap layers heads dim context q) < 18446744073709551616
      → IsBalanced (compute F total_ram bytes mmap layers heads dim context q)
  unfolding compute
  compute-IsBalanced total_ram bytes mmap layers heads dim context q small =
      let b = compute F total_ram bytes mmap layers heads dim context q in
      let one = u64_small (b.gpu_committed + b.kv_cache_bytes) (omega arith) in
      let two =
        u64_small (u64 (b.gpu_committed + b.kv_cache_bytes) + metal_compute_overhead)
          (omega arith) in
      let three =
        u64_small
          (u64 (u64 (b.gpu_committed + b.kv_cache_bytes) + metal_compute_overhead) + os_reserved)
          (omega arith) in
      record { committed = omega arith; rest = refl }

  -- A computed budget to which one pool and one resident buffer were added: as long as the sum of
  -- the parts is below 2^64, it is the total committed, and what is available is the rest of the
  -- memory (nothing, when more is committed than there is).
  pub budget-IsBalanced :
      (total_ram bytes : ℕ) (mmap : Bool) (layers heads dim context : ℕ) (q : Option KvQuantization)
      (pool resident : ℕ)
      → parts (compute F total_ram bytes mmap layers heads dim context q) + pool + resident
        < 18446744073709551616
      → IsBalanced (
          with_resident
            (with_pool (compute F total_ram bytes mmap layers heads dim context q) pool)
            resident)
  unfolding compute with_pool
  budget-IsBalanced total_ram bytes mmap layers heads dim context q pool resident small =
      let b = compute F total_ram bytes mmap layers heads dim context q in
      let (h, more) =
        with_pool-IsBalanced b pool
          (compute-IsBalanced total_ram bytes mmap layers heads dim context q (omega arith)) refl
          (omega arith) in
      (with_resident-IsBalanced (with_pool b pool) resident h refl (omega (arith, more))).0

clamp-bounds :
    (n lo hi : ℕ)
    → lo ≤ hi
    → (r : ℕ) × ((clamp n lo hi ≡ some r) × ((lo ≤ r) × (r ≤ hi)) × (lo < r → r ≤ n))
clamp-bounds n lo hi order = (max lo (min n hi), (ground arith, omega arith, omega arith))

-- With a positive slot size and bounds in order, `pool_slots` does not panic and returns a number
-- between the bounds, and unless it is the lower bound, that many slots fit into what is available.
pub pool_slots-fits :
    (b : MemoryBudget) (size lo hi : ℕ)
    → 0 < size
    → lo ≤ hi
    → (n : ℕ) × ((pool_slots b size lo hi ≡ some n)
        × ((lo ≤ n) × (n ≤ hi))
        × (lo < n → n * size ≤ b.available))
unfolding pool_slots
pool_slots-fits b size lo hi pos order =
    let (n, (e, within, fits)) = clamp-bounds (b.available / size) lo hi order in
    (n, (ground arith, within, λ more. grind (arith, fits more)))
