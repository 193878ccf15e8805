-- ===== src/Scheduler/Types.antt =====
-- src/scheduler/types.rs: storage tiers, modes, and the memory budget.
mod Budget
mod Tests
use package.hypura.Prelude.{
  ℕ, ◌+◌, ◌-◌, ◌*◌, ◌/◌, ◌≤◌, ◌<◌, Bool, true, false, Option, none, some, if◌then◌else◌, ltb, ◌==◌,
  ◌≡◌, refl,
}
use package.hypura.Prelude.Keys.{nat_eq}
use package.hypura.Prelude.Float.{F64}
use package.hypura.Prelude.Machine.{u64}

pub data StorageTier : Type 0 where
  gpu ram nvme : StorageTier

pub data InferenceMode : Type 0 where
  full_resident keep_resident expert_streaming dense_ffn_streaming sparse_moe_mmap : InferenceMode
  full_streaming : InferenceMode

pub data KvQuantization : Type 0 where
  f16 q8_0 q4_0 : KvQuantization

pub data ExperienceTier : Type 0 where
  fast usable slow : ExperienceTier

pub record KvCachePlan : Type 0 where
  pub hot_window_tokens : ℕ
  pub warm_window_tokens : ℕ
  pub hot_tier : StorageTier
  pub warm_tier : StorageTier
  pub hot_bytes : ℕ
  pub warm_bytes : ℕ
  pub kv_quantization : Option KvQuantization

pub record PlacementSummary : Type 0 where
  pub layers_on_gpu : ℕ
  pub layers_in_ram : ℕ
  pub layers_on_nvme : ℕ
  pub total_gpu_bytes : ℕ
  pub total_ram_bytes : ℕ
  pub total_nvme_bytes : ℕ

pub record MemoryBudget : Type 0 where
  pub total_ram : ℕ
  pub gpu_committed : ℕ
  pub kv_cache_bytes : ℕ
  pub metal_overhead : ℕ
  pub os_overhead : ℕ
  pub pool_bytes : ℕ
  pub resident_bytes : ℕ
  pub total_committed : ℕ
  pub available : ℕ

abbrev pub metal_compute_overhead : ℕ
metal_compute_overhead = 536870912

abbrev pub os_reserved : ℕ
os_reserved = 3221225472

module _ (F : F64) where
  abbrev pub from_tok_per_sec : F.Num → ExperienceTier
  from_tok_per_sec tps =
      if F.lt (F.of_u64 10) tps then fast else if F.lt (F.of_u64 2) tps then usable else slow

  abbrev pub memory_scale : KvQuantization → F.Num
  memory_scale f16 = F.of_u64 1
  memory_scale q8_0 = F.div (F.of_u64 53) (F.of_u64 100)
  memory_scale q4_0 = F.div (F.of_u64 28) (F.of_u64 100)

  -- The size of the quantized cache.
  abbrev pub scaled : Option KvQuantization → ℕ → ℕ
  scaled none raw = raw
  scaled (some q) raw = F.to_u64 (F.mul (F.of_u64 raw) (memory_scale q))

  unfoldable pub compute :
      (total_ram gpu_tensor_bytes : ℕ) (use_mmap : Bool)
      (num_layers num_kv_heads head_dim context_length : ℕ)
      → Option KvQuantization
      → MemoryBudget
  compute total_ram gpu_tensor_bytes use_mmap num_layers num_kv_heads head_dim context_length q =
      let gpu_committed =
        if use_mmap then u64 (gpu_tensor_bytes * 60) / 100 else gpu_tensor_bytes in
      let kv_raw =
        u64
          (u64 (u64 (u64 (u64 (2 * num_layers) * num_kv_heads) * head_dim) * 2) * context_length) in
      let kv_cache_bytes = scaled q kv_raw in
      let total_committed =
        u64 (u64 (u64 (gpu_committed + kv_cache_bytes) + metal_compute_overhead) + os_reserved) in
      record {
        total_ram = total_ram;
        gpu_committed = gpu_committed;
        kv_cache_bytes = kv_cache_bytes;
        metal_overhead = metal_compute_overhead;
        os_overhead = os_reserved;
        pool_bytes = 0;
        resident_bytes = 0;
        total_committed = total_committed;
        available = total_ram - total_committed;
      }

unfoldable pub with_pool : MemoryBudget → ℕ → MemoryBudget
with_pool b pool_bytes =
    let committed = u64 (b.total_committed + pool_bytes) in
    record b {
      pool_bytes = pool_bytes;
      total_committed = committed;
      available = b.total_ram - committed;
    }

unfoldable pub with_resident : MemoryBudget → ℕ → MemoryBudget
with_resident b resident_bytes =
    let committed = u64 (b.total_committed + resident_bytes) in
    record b {
      resident_bytes = resident_bytes;
      total_committed = committed;
      available = b.total_ram - committed;
    }

-- `clamp`, which panics when the bounds are the wrong way round.
abbrev pub clamp : ℕ → ℕ → ℕ → Option ℕ
clamp n lo hi =
    if ltb hi lo then none else some (if ltb n lo then lo else if ltb hi n then hi else n)

unfoldable pub pool_slots : MemoryBudget → ℕ → ℕ → ℕ → Option ℕ
pool_slots b slot_size min_slots max_slots =
    if slot_size == 0 then some min_slots else clamp (b.available / slot_size) min_slots max_slots
