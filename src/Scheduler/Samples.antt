-- ===== src/Scheduler/Samples.antt =====
-- Whole numbers for the tests' floating-point numbers, two tensors and a machine.
use package.hypura.Prelude.{ℕ, ◌+◌, ◌-◌, ◌*◌, ◌/◌, max, Bool, Option, some, List, [], ◌∷◌, ltb}
use package.hypura.Prelude.Text.{Text, codes}
use package.hypura.Prelude.Float.{F64}
use package.hypura.Model.Gguf.{TensorInfo, f32}
use package.hypura.Scheduler.Placement.{HardwareProfile, ModelMetadata, TierCapacities}

abbrev pub whole : F64
whole = record {
  Num = ℕ;
  of_u64 = λ n. n;
  add = λ a b. a + b;
  sub = λ a b. a - b;
  mul = λ a b. a * b;
  div = λ a b. a / b;
  maximum = λ a b. max a b;
  lt = λ a b. ltb a b;
  to_u64 = λ n. n;
  ceil_u32 = λ n. n;
  largest = 1000000000000000000;
}

abbrev pub tensor : Text → ℕ → Option ℕ → TensorInfo
tensor name size layer = record {
  name = name;
  dimensions = [];
  dtype = f32;
  offset = 0;
  size_bytes = size;
  layer_index = layer;
}

-- A dense model: attention, and feed-forward tensors that do not fit.
abbrev pub dense_tensors : List TensorInfo
dense_tensors =
    tensor (codes "blk.0.attn_q.weight") 1000 (some 0)
    ∷ tensor (codes "blk.0.ffn_up.weight") 30000 (some 0)
    ∷ tensor (codes "blk.1.ffn_up.weight") 30000 (some 1)
    ∷ []

-- A mixture of experts, with its router and its experts.
abbrev pub expert_tensors : List TensorInfo
expert_tensors =
    tensor (codes "blk.0.attn_q.weight") 1000 (some 0)
    ∷ tensor (codes "blk.0.ffn_up_exps.weight") 2000000000 (some 0)
    ∷ []

abbrev pub metadata : Bool → ModelMetadata
metadata is_moe = record {
  context_length = 4096;
  embedding_dim = 64;
  num_layers = 2;
  num_heads = 8;
  num_kv_heads = 8;
  is_moe = is_moe;
  num_experts = some 8;
  num_experts_used = some 2;
}

abbrev pub machine : HardwareProfile
machine = record {
  total_bytes = 17179869184;
  memory_bandwidth = 100000000;
  gpu = some (record { vram_bytes = 12884901888; bandwidth_bytes_per_sec = 200000000 });
  peak_sequential = some 5000000;
}

abbrev pub small_room : TierCapacities
small_room = record {
  gpu_bytes = 30500;
  ram_bytes = 9500;
  unified_limit = 40000;
  nvme_peak_bw = 5000000;
}

abbrev pub room : TierCapacities
room = record {
  gpu_bytes = 1000000000;
  ram_bytes = 500000000;
  unified_limit = 1500000000;
  nvme_peak_bw = 5000000;
}
