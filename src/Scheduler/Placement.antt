-- ===== src/Scheduler/Placement.antt =====
-- src/scheduler/placement.rs: which tensors stay on the GPU and in memory, and which are read
-- from the drive. Tier capacities, scores, the streaming modes, and the plan of the KV cache.
pub mod Streaming
pub mod Modes
pub mod Capacities
pub mod Greedy
mod Tests
use package.hypura.Prelude.{
  ℕ, zero, suc, ◌+◌, ◌-◌, ◌*◌, ◌/◌, ◌≤◌, ◌<◌, min, max, Bool, true, false, not, ◌&&◌, ◌||◌, Option,
  none, some, List, [], ◌∷◌, map, if◌then◌else◌, ltb, leb, ◌==◌,
}
use package.hypura.Prelude.Keys.{nat_eq, retain}
use package.hypura.Prelude.Dict.{Dict, insert}
use package.hypura.Prelude.Text.{Text, text_eq}
use package.hypura.Prelude.Float.{F64}
use package.hypura.Prelude.Sort.{sort}
use package.hypura.Prelude.Machine.{u64, u64_total}
use package.hypura.Model.Role.{
  TensorRole, moe_expert, moe_fused_experts, norm, embedding, output_head, is_fused, is_ffn,
  from_name,
}
use package.hypura.Model.Gguf.{TensorInfo}
use package.hypura.Scheduler.Types.{StorageTier, gpu, ram, nvme, KvCachePlan, KvQuantization, q8_0}

-- The fields of `ModelMetadata` that placement reads.
pub record ModelMetadata : Type 0 where
  pub context_length : ℕ
  pub embedding_dim : ℕ
  pub num_layers : ℕ
  pub num_heads : ℕ
  pub num_kv_heads : ℕ
  pub is_moe : Bool
  pub num_experts : Option ℕ
  pub num_experts_used : Option ℕ

pub record GpuProfile : Type 0 where
  pub vram_bytes : ℕ
  pub bandwidth_bytes_per_sec : ℕ

-- The fields of `HardwareProfile` that placement reads: the memory, the first GPU and the first
-- drive, with their bandwidths.
pub record HardwareProfile : Type 0 where
  pub total_bytes : ℕ
  pub memory_bandwidth : ℕ
  pub gpu : Option GpuProfile
  pub peak_sequential : Option ℕ

pub record TierCapacities : Type 0 where
  pub gpu_bytes : ℕ
  pub ram_bytes : ℕ
  pub unified_limit : ℕ
  pub nvme_peak_bw : ℕ

abbrev pub os_overhead : ℕ
os_overhead = 2147483648

abbrev pub gpu_runtime_overhead : ℕ
gpu_runtime_overhead = 1073741824

abbrev pub or_else {ℓ} : {A : Type ℓ} → Option A → A → A
or_else none d = d
or_else (some a) d = a

abbrev pub map_or {ℓ κ} : {A : Type ℓ} {B : Type κ} → B → (A → B) → Option A → B
map_or d f none = d
map_or d f (some a) = f a

unfoldable pub estimate_kv_bytes : ModelMetadata → ℕ → ℕ
estimate_kv_bytes m context_length =
    if m.num_heads == 0 || m.embedding_dim == 0
    then 0
    else (let head_dim = m.embedding_dim / m.num_heads in
        u64 (
          u64 (u64 (u64 (u64 (2 * m.num_layers) * m.num_kv_heads) * head_dim) * 2)
          * context_length))

unfoldable pub compute_tier_capacities : HardwareProfile → ModelMetadata → ℕ → TierCapacities
compute_tier_capacities hw m context_length =
    let usable = hw.total_bytes - os_overhead in
    let gpu_max = map_or 0 (λ (g : GpuProfile). g.vram_bytes) hw.gpu in
    let kv_headroom = estimate_kv_bytes m context_length in
    let gpu_bytes = min gpu_max usable - kv_headroom - gpu_runtime_overhead in
    record {
      gpu_bytes = gpu_bytes;
      ram_bytes = usable - gpu_bytes - kv_headroom;
      unified_limit = usable - kv_headroom;
      nvme_peak_bw = or_else hw.peak_sequential 3000000000;
    }

-- The context for which memory is reserved.
unfoldable pub planned_context : ModelMetadata → ℕ → ℕ
planned_context m context_length =
    if ltb 0 context_length
    then min context_length (max m.context_length 2048)
    else min (max m.context_length 2048) 8192

unfoldable pub compute_kv_cache_plan : ModelMetadata → ℕ → TierCapacities → KvCachePlan
compute_kv_cache_plan m context_length caps =
    let per_token_fp16 = estimate_kv_bytes m 1 in
    if per_token_fp16 == 0
    then record {
      hot_window_tokens = context_length;
      warm_window_tokens = 0;
      hot_tier = gpu;
      warm_tier = ram;
      hot_bytes = 0;
      warm_bytes = 0;
      kv_quantization = none;
    }
    else (let total = u64 (per_token_fp16 * context_length) in
        let tight =
          ltb 0 caps.gpu_bytes
          && ltb (u64 (caps.gpu_bytes * 2) / 5) total
          && leb (total / 2) (caps.gpu_bytes / 4) in
        let per_token = if tight then per_token_fp16 / 2 else per_token_fp16 in
        let hot = min (caps.gpu_bytes / 5 / per_token) context_length in
        let warm = context_length - hot in
        record {
          hot_window_tokens = hot;
          warm_window_tokens = warm;
          hot_tier = gpu;
          warm_tier = ram;
          hot_bytes = u64 (hot * per_token);
          warm_bytes = u64 (warm * (per_token_fp16 / 2));
          kv_quantization = if tight then some q8_0 else none;
        })

abbrev pub Assignments : Type 0
Assignments = Dict Text StorageTier

module _ (F : F64) where
  pub record ScoredTensor : Type 0 where
    pub name : Text
    pub size_bytes : ℕ
    pub score : F.Num
    pub access_freq : F.Num
    pub layer_index : Option ℕ
    pub role : TensorRole

  -- `TensorRole::access_frequency`
  abbrev pub access_frequency : TensorRole → ℕ → ℕ → F.Num
  access_frequency (moe_expert n) used total =
      if ltb 0 total then F.div (F.of_u64 used) (F.of_u64 total) else F.of_u64 1
  access_frequency moe_fused_experts used total =
      if ltb 0 total then F.div (F.of_u64 used) (F.of_u64 total) else F.of_u64 1
  access_frequency _ used total = F.of_u64 1

  abbrev pub bonus : TensorRole → F.Num
  bonus norm = F.of_u64 10
  bonus embedding = F.of_u64 5
  bonus output_head = F.of_u64 5
  bonus _ = F.of_u64 1

  abbrev pub moe_cache_hit_rate : F.Num
  moe_cache_hit_rate = F.div (F.of_u64 965) (F.of_u64 1000)

  abbrev pub discounted : TensorRole → F.Num → F.Num
  discounted (moe_expert n) base = F.mul base (F.sub (F.of_u64 1) moe_cache_hit_rate)
  discounted moe_fused_experts base = F.mul base (F.sub (F.of_u64 1) moe_cache_hit_rate)
  discounted _ base = base

  abbrev pub effective_io_freq : TensorRole → F.Num → Bool → F.Num
  effective_io_freq role base is_moe = if is_moe then discounted role base else base

  unfoldable pub score_tensor : ModelMetadata → TensorInfo → ScoredTensor
  score_tensor m t =
      let role = from_name t.name in
      let freq = access_frequency role (or_else m.num_experts_used 1) (or_else m.num_experts 1) in
      let size_gb = F.div (F.of_u64 t.size_bytes) (F.of_u64 1073741824) in
      record {
        name = t.name;
        size_bytes = t.size_bytes;
        score = F.div (F.mul freq (bonus role)) (F.add (F.of_u64 1) size_gb);
        access_freq = freq;
        layer_index = t.layer_index;
        role = role;
      }

  unfoldable pub score_tensors : List TensorInfo → ModelMetadata → List ScoredTensor
  unfolding score_tensor
  score_tensors tensors m = map (score_tensor m) tensors

  abbrev pub size : ScoredTensor → ℕ
  size t = t.size_bytes

  -- A higher score stands first; equal scores keep their order.
  abbrev pub by_score : ScoredTensor → ScoredTensor → Bool
  by_score a b = F.lt b.score a.score

  -- `assignments.insert` of one tier for each tensor.
  unfoldable pub assign_all : StorageTier → List ScoredTensor → Assignments → Assignments
  assign_all tier [] a = a
  assign_all tier (t ∷ ts) a = assign_all tier ts (insert t.name tier a)

  -- The GPU as long as it has room, else memory.
  unfoldable pub assign_resident : List ScoredTensor → ℕ → Assignments → ℕ × Assignments
  assign_resident [] gpu_remaining a = (gpu_remaining, a)
  assign_resident (t ∷ ts) gpu_remaining a =
      let on_gpu = assign_resident ts (gpu_remaining - t.size_bytes) (insert t.name gpu a) in
      let in_ram = assign_resident ts gpu_remaining (insert t.name ram a) in
      if leb t.size_bytes gpu_remaining then on_gpu else in_ram

  -- Resident tensors by score, then the streamed ones to the drive.
  unfoldable pub stream_assign :
      (ScoredTensor → Bool) → List ScoredTensor → TierCapacities → Assignments
  unfolding assign_all assign_resident sort
  stream_assign streamed ts caps =
      let resident = sort by_score (retain (λ t. not (streamed t)) ts) in
      assign_all nvme (retain streamed ts) (assign_resident resident caps.gpu_bytes []).1

  unfoldable pub try_sparse_moe_mmap :
      List ScoredTensor → TierCapacities → ModelMetadata → Option Assignments
  unfolding assign_all
  try_sparse_moe_mmap ts caps m =
      let experts_total = max (or_else m.num_experts 1) 1 in
      let experts_used = max (or_else m.num_experts_used 1) 1 in
      let ratio = F.div (F.of_u64 experts_used) (F.of_u64 experts_total) in
      let active = F.to_u64 (F.mul (F.of_u64 (u64_total size ts)) ratio) in
      if not m.is_moe
      then none
      else if not (F.lt ratio (F.div (F.of_u64 15) (F.of_u64 100)))
      then none
      else if ltb (u64 (caps.unified_limit * 30) / 100) active
      then none
      else some (assign_all gpu ts [])

  abbrev pub fused : ScoredTensor → Bool
  fused t = is_fused t.role

  abbrev pub ffn : ScoredTensor → Bool
  ffn t = is_ffn t.role

  unfoldable pub try_expert_streaming_assign :
      List ScoredTensor → TierCapacities → ModelMetadata → Option Assignments
  unfolding stream_assign u64_total
  try_expert_streaming_assign ts caps m =
      let non_expert_bytes = u64_total size (retain (λ t. not (fused t)) ts) in
      let expert_bytes = u64_total size (retain fused ts) in
      let total = u64 (non_expert_bytes + expert_bytes) in
      let estimated_pool : ℕ = 1610612736 in
      if not m.is_moe
      then none
      else if ltb caps.unified_limit non_expert_bytes || leb total caps.unified_limit
      then none
      else if ltb (u64 (caps.gpu_bytes + gpu_runtime_overhead))
          (u64 (non_expert_bytes + estimated_pool))
      then none
      else some (stream_assign fused ts caps)

  -- `max().unwrap_or(0)`
  abbrev pub max_size : List ScoredTensor → ℕ
  max_size [] = 0
  max_size (t ∷ ts) = max t.size_bytes (max_size ts)

  unfoldable pub try_dense_ffn_streaming_assign :
      List ScoredTensor → TierCapacities → ModelMetadata → Option Assignments
  unfolding stream_assign u64_total
  try_dense_ffn_streaming_assign ts caps m =
      let non_ffn_bytes = u64_total size (retain (λ t. not (ffn t)) ts) in
      let ffn_bytes = u64_total size (retain ffn ts) in
      let total = u64 (non_ffn_bytes + ffn_bytes) in
      let estimated_pool = u64 (max_size (retain ffn ts) * 6) in
      if m.is_moe
      then none
      else if ltb caps.unified_limit non_ffn_bytes || leb total caps.unified_limit
      then none
      else if ffn_bytes == 0
      then none
      else if ltb (u64 (caps.gpu_bytes + gpu_runtime_overhead))
          (u64 (non_ffn_bytes + estimated_pool))
      then none
      else some (stream_assign ffn ts caps)
