-- ===== src/Compute/Budget.antt =====
-- `compute_gpu_budget` of src/compute/inference.rs: the room that a session leaves for weights on the
-- GPU, beside what placement counted on.
mod Tests
use package.hypura.Prelude.{
  ℕ, ◌+◌, ◌-◌, ◌*◌, ◌/◌, ◌≤◌, ◌<◌, true, false, ◌||◌, if◌then◌else◌, ltb, ◌==◌, ◌≡◌, refl, inl, inr,
  arith, Bool-cases,
}
use package.hypura.Prelude.Keys.{nat_eq}
use package.hypura.Prelude.Machine.{u64}
use package.hypura.Scheduler.Placement.{
  GpuProfile, HardwareProfile, ModelMetadata, TierCapacities, map_or, os_overhead,
  estimate_kv_bytes, compute_tier_capacities,
}

-- The bytes of the keys and values on the GPU.
unfoldable pub kv_on_gpu : ModelMetadata → ℕ → ℕ
kv_on_gpu m context_length =
    let head_dim = if ltb 0 m.num_heads then m.embedding_dim / m.num_heads else 0 in
    u64 (u64 (u64 (u64 (u64 (2 * m.num_layers) * m.num_kv_heads) * head_dim) * 2) * context_length)

abbrev pub runtime_overhead : ℕ
runtime_overhead = 2147483648

abbrev pub working_set : HardwareProfile → ℕ
working_set hw = map_or 0 (λ (g : GpuProfile). g.vram_bytes) hw.gpu

unfoldable pub compute_gpu_budget : HardwareProfile → ModelMetadata → ℕ → ℕ
unfolding kv_on_gpu
compute_gpu_budget hw m context_length =
    working_set hw - kv_on_gpu m context_length - runtime_overhead

zero_times : (z n : ℕ) → z ≡ 0 → u64 (z * n) ≡ 0
unfolding u64
zero_times z n e = rw e (omega arith)

times_zero : (n z : ℕ) → z ≡ 0 → u64 (n * z) ≡ 0
unfolding u64
times_zero n z e = rw e (omega arith)

no_heads : (x y c : ℕ) → y ≡ 0 → u64 (u64 (u64 (x * y) * 2) * c) ≡ 0
no_heads x y c e =
    zero_times (u64 (u64 (x * y) * 2)) c (zero_times (u64 (x * y)) 2 (times_zero x y e))

-- The session and placement count the same bytes for the KV cache.
kv_on_gpu_lem :
    (m : ModelMetadata) (context : ℕ) → kv_on_gpu m context ≡ estimate_kv_bytes m context
unfolding kv_on_gpu estimate_kv_bytes
kv_on_gpu_lem m context = ground (
  arith,
  no_heads (u64 (u64 (2 * m.num_layers) * m.num_kv_heads)) 0 context refl,
  no_heads (u64 (u64 (2 * m.num_layers) * m.num_kv_heads)) (m.embedding_dim / m.num_heads) context,
)

-- On a machine whose memory beside the system's holds the GPU's working set, the session's budget is
-- at most the room on the GPU that placement fills, and when it is not zero it is one GiB less.
pub compute_gpu_budget-le :
    (hw : HardwareProfile) (m : ModelMetadata) (context : ℕ)
    → working_set hw ≤ hw.total_bytes - os_overhead
    → (compute_gpu_budget hw m context ≤ (compute_tier_capacities hw m context).gpu_bytes)
      × (0 < compute_gpu_budget hw m context
          → compute_gpu_budget hw m context + 1073741824
            ≡ (compute_tier_capacities hw m context).gpu_bytes)
unfolding compute_gpu_budget compute_tier_capacities
compute_gpu_budget-le hw m context h =
    (omega (arith, kv_on_gpu_lem m context), λ pos. omega (arith, kv_on_gpu_lem m context))
