-- ===== src/Scheduler/Estimator.antt =====
-- src/scheduler/estimator.rs: what a model is expected to do on a machine, before it runs.
use package.hypura.Prelude.{
  ℕ, zero, suc, ◌+◌, ◌-◌, ◌*◌, ◌/◌, ◌%◌, ◌≤◌, ◌<◌, min, Bool, true, false, not, ◌||◌, List, [], ◌∷◌,
  ◌++◌, if◌then◌else◌, ltb, ◌≡◌, arith, inl, inr, Bool-cases,
}
use native.Mathlib.Nat.{mul-le-mul_right, mod-le}
use native.Mathlib.Omega.{div_any}
use package.hypura.Prelude.Keys.{nat_eq, retain, ◌==◌}
use package.hypura.Prelude.Text.{Text, codes, starts_with}
use package.hypura.Prelude.Decimal.{decimal}
use package.hypura.Prelude.Float.{F64}
use package.hypura.Prelude.Machine.{u64, u64_small}
use package.hypura.Model.Gguf.{GgufFile, TensorInfo, total_tensor_bytes}
use package.hypura.Model.Role.{from_name}
use package.hypura.Scheduler.Types.{
  StorageTier, gpu, ram, nvme, PlacementSummary, ExperienceTier, from_tok_per_sec,
}
use package.hypura.Scheduler.Placement.{
  Assignments, HardwareProfile, ModelMetadata, or_else, access_frequency, effective_io_freq,
  estimate_kv_bytes, os_overhead,
}
use package.hypura.Scheduler.Placement.Greedy.{sync_overhead}
use package.hypura.Scheduler.Prefetch.{gpu_bandwidth, nvme_bandwidth}
use package.hypura.Scheduler.Summary.{tier_of, bandwidth, has_layer, summarize_placement}

unfoldable pub estimate_kv_per_token : ModelMetadata → ℕ
estimate_kv_per_token m =
    if m.num_heads == 0 || m.embedding_dim == 0
    then 0
    else u64
        (u64 (u64 (u64 (2 * m.num_layers) * m.num_kv_heads) * (m.embedding_dim / m.num_heads)) * 2)

-- What the model and the system leave of the memory.
unfoldable pub available_for_kv : ℕ → ℕ → ℕ
available_for_kv total_bytes model_bytes = total_bytes - min model_bytes (total_bytes - os_overhead)

-- The context for which the KV cache fits, as a 32-bit number.
unfoldable pub max_context : ModelMetadata → ℕ → ℕ
unfolding estimate_kv_per_token
max_context m available =
    let per_token = estimate_kv_per_token m in
    if ltb 0 per_token then available / per_token % 4294967296 else m.context_length

-- `name.starts_with("blk.5.")`
abbrev pub named_in : ℕ → TensorInfo → Bool
unfolding starts_with decimal
named_in layer t = starts_with t.name (codes "blk." ++ (decimal layer ++ codes "."))

module _ (F : F64) where
  -- The totals of the loops: the latency, the bytes read for a token, and the times of the layer.
  pub record Totals : Type 0 where
    pub latency : F.Num
    pub nvme_bytes : F.Num
    pub compute : F.Num
    pub io : F.Num

  abbrev pub moved : ModelMetadata → TensorInfo → F.Num
  moved m t = F.mul (F.of_u64 t.size_bytes) (
      access_frequency F (from_name t.name) (or_else m.num_experts_used 1)
        (or_else m.num_experts 1))

  abbrev pub read : ModelMetadata → TensorInfo → F.Num
  read m t =
      let role = from_name t.name in
      let freq = access_frequency F role (or_else m.num_experts_used 1) (or_else m.num_experts 1) in
      F.mul (F.of_u64 t.size_bytes) (effective_io_freq F role freq m.is_moe)

  -- A tensor of a layer; a read that the compute of the layer before hides costs no time, and of
  -- another what is not hidden is left, where the smaller of the two times is the compute's.
  unfoldable pub add_tensor :
      HardwareProfile → ModelMetadata → F.Num → StorageTier → TensorInfo → Totals → Totals
  unfolding from_name
  add_tensor hw m prev_compute gpu t x = record x {
    compute = F.add x.compute (F.div (moved m t) (gpu_bandwidth F hw));
  }
  add_tensor hw m prev_compute ram t x = record x {
    compute = F.add x.compute (F.div (moved m t) (F.of_u64 hw.memory_bandwidth));
  }
  add_tensor hw m prev_compute nvme t x =
      let time = F.div (read m t) (nvme_bandwidth F hw) in
      record x {
        nvme_bytes = F.add x.nvme_bytes (read m t);
        io = if F.lt prev_compute time then F.add x.io (F.sub time prev_compute) else x.io;
      }

  unfoldable pub add_tensors :
      HardwareProfile → ModelMetadata → Assignments → F.Num → List TensorInfo → Totals → Totals
  unfolding add_tensor
  add_tensors hw m a prev_compute [] x = x
  add_tensors hw m a prev_compute (t ∷ ts) x =
      add_tensors hw m a prev_compute ts (add_tensor hw m prev_compute (tier_of a t) t x)

  -- The loop over the layers, of which `left` are left; `compute` is the time of the layer before.
  unfoldable pub add_layers :
      HardwareProfile
      → ModelMetadata
      → Assignments
      → List TensorInfo
      → (left layer : ℕ) → Totals
      → Totals
  unfolding add_tensors
  add_layers hw m a tensors zero layer x = x
  add_layers hw m a tensors (suc left) layer x =
      let y =
        add_tensors hw m a x.compute (retain (named_in layer) tensors)
          (record x { compute = F.of_u64 0; io = F.of_u64 0 }) in
      add_layers hw m a tensors left (suc layer) (record y {
        latency = F.add y.latency (F.add (F.maximum y.compute y.io) (sync_overhead F));
      })

  abbrev pub is_nvme : StorageTier → Bool
  is_nvme nvme = true
  is_nvme _ = false

  -- The tensors of no layer.
  unfoldable pub add_others :
      HardwareProfile → ModelMetadata → Assignments → List TensorInfo → Totals → Totals
  unfolding from_name
  add_others hw m a [] x = x
  add_others hw m a (t ∷ ts) x = add_others hw m a ts (record x {
    latency = F.add x.latency (F.div (moved m t) (bandwidth F hw (tier_of a t)));
    nvme_bytes = if is_nvme (tier_of a t) then F.add x.nvme_bytes (moved m t) else x.nvme_bytes;
  })

  -- `EstimateConfidence` is always `Predicted`, and is left out.
  pub record HypuraEstimate : Type 0 where
    pub model_id : Text
    pub estimated_tok_per_sec_interactive : F.Num
    pub estimated_tok_per_sec_batched : F.Num
    pub placement_summary : PlacementSummary
    pub max_context_before_spill : ℕ
    pub disk_read_per_token_bytes : ℕ
    pub experience_tier : ExperienceTier

  unfoldable pub estimate_performance :
      GgufFile → ModelMetadata → HardwareProfile → Text → Assignments → HypuraEstimate
  unfolding add_layers add_others max_context available_for_kv summarize_placement
      total_tensor_bytes
  estimate_performance gguf m hw model_id a =
      let zero_totals : Totals = record {
        latency = F.of_u64 0;
        nvme_bytes = F.of_u64 0;
        compute = F.of_u64 0;
        io = F.of_u64 0;
      } in
      let layers = add_layers hw m a gguf.tensors m.num_layers 0 zero_totals in
      let all = add_others hw m a (retain (λ t. not (has_layer F t)) gguf.tensors) layers in
      let interactive =
        if F.lt (F.of_u64 0) all.latency then F.div (F.of_u64 1) all.latency else F.of_u64 0 in
      record {
        model_id = model_id;
        estimated_tok_per_sec_interactive = interactive;
        estimated_tok_per_sec_batched =
            F.mul (F.mul interactive (F.of_u64 8)) (F.div (F.of_u64 7) (F.of_u64 10));
        placement_summary = summarize_placement a gguf.tensors;
        max_context_before_spill =
            max_context m (available_for_kv hw.total_bytes (total_tensor_bytes gguf));
        disk_read_per_token_bytes = F.to_u64 all.nvme_bytes;
        experience_tier = from_tok_per_sec F interactive;
      }

-- The estimator and placement count the same bytes for the KV cache.
estimate_kv_per_token_lem :
    (m : ModelMetadata) (context : ℕ)
    → u64 (estimate_kv_per_token m * context) ≡ estimate_kv_bytes m context
unfolding estimate_kv_per_token estimate_kv_bytes
estimate_kv_per_token_lem m context = elim (Bool-cases (m.num_heads == 0 || m.embedding_dim == 0)) [
  | inl e ↦ ground (arith, e, u64_small (0 * context) (omega arith))
  | inr e ↦ ground (arith, e)
]

-- Of the quotient's low bits no more than the dividend is taken.
low_quotient : (n k w : ℕ) → n / k % w * k ≤ n
low_quotient n k w = omega (arith, mul-le-mul_right k (mod-le (n / k) w), div_any n k)

-- The KV cache of the context that is promised fits into what is left of the memory.
max_context-fits :
    (m : ModelMetadata) (total_bytes model_bytes : ℕ)
    → 0 < estimate_kv_per_token m
    → max_context m (available_for_kv total_bytes model_bytes) * estimate_kv_per_token m
        + min model_bytes (total_bytes - os_overhead)
      ≤ total_bytes
unfolding max_context available_for_kv
max_context-fits m total_bytes model_bytes h = ground (
  arith,
  low_quotient (available_for_kv total_bytes model_bytes) (estimate_kv_per_token m) 4294967296,
)
