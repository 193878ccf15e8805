-- ===== src/Scheduler/Placement/Capacities.antt =====
-- What is left for tensors and for the KV cache.
use hypura.Prelude.{
  ℕ, ◌+◌, ◌*◌, ◌/◌, ◌%◌, ◌≤◌, ◌<◌, min, ◌||◌, ◌==◌, ◌≡◌, arith, Bool-cases, inl, inr,
}
use hypura.Prelude.Keys.{nat_eq}
use hypura.Prelude.Machine.{u64, u64-le}
use hypura.Scheduler.Placement.{
  ModelMetadata, HardwareProfile, TierCapacities, estimate_kv_bytes, compute_tier_capacities,
  compute_kv_cache_plan, gpu_runtime_overhead, os_overhead,
}

module _ (hw : HardwareProfile) (m : ModelMetadata) (context : ℕ) where
  -- The room on the GPU and in memory add up to the unified limit. A GPU with room leaves, beside
  -- that room, the KV cache, the runtime and the system within the machine's memory.
  pub compute_tier_capacities-adds_up :
      ((compute_tier_capacities hw m context).gpu_bytes
          + (compute_tier_capacities hw m context).ram_bytes
        ≡ (compute_tier_capacities hw m context).unified_limit)
      × (0 < (compute_tier_capacities hw m context).gpu_bytes
          → (compute_tier_capacities hw m context).gpu_bytes
              + estimate_kv_bytes m context
              + gpu_runtime_overhead
              + os_overhead
            ≤ hw.total_bytes)
  unfolding compute_tier_capacities
  compute_tier_capacities-adds_up = (omega arith, λ h. omega arith)

-- The bytes of one token's keys and values are even in number.
per_token_even : (m : ModelMetadata) → estimate_kv_bytes m 1 % 2 ≡ 0
unfolding estimate_kv_bytes u64
per_token_even m = elim (Bool-cases (m.num_heads == 0 || m.embedding_dim == 0)) [
  | inl z ↦ rw z (omega arith)
  | inr n ↦ rw n (omega arith)
]

product-le : (b n c : ℕ) → min (b / n) c * n ≤ b
product-le b n c = grind arith

module _ (m : ModelMetadata) (context : ℕ) (caps : TierCapacities) where
  -- The hot and the warm window make up the context, the hot window's bytes are at most a fifth of
  -- the GPU's room, and a token whose keys and values take bytes has half of them to divide by too.
  pub compute_kv_cache_plan-windows :
      ((compute_kv_cache_plan m context caps).hot_window_tokens
          + (compute_kv_cache_plan m context caps).warm_window_tokens
        ≡ context)
      × ((compute_kv_cache_plan m context caps).hot_bytes ≤ caps.gpu_bytes / 5)
      × (0 < estimate_kv_bytes m 1 → 0 < estimate_kv_bytes m 1 / 2)
  unfolding compute_kv_cache_plan
  compute_kv_cache_plan-windows =
      let n = estimate_kv_bytes m 1 in
      let whole = product-le (caps.gpu_bytes / 5) n context in
      let half = product-le (caps.gpu_bytes / 5) (n / 2) context in
      ground (
        arith,
        whole,
        half,
        per_token_even m,
        u64-le (min (caps.gpu_bytes / 5 / n) context * n),
        u64-le (min (caps.gpu_bytes / 5 / (n / 2)) context * (n / 2)),
      )
