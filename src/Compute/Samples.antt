-- ===== src/Compute/Samples.antt =====
-- A small model file and the states of a session with it, for the tests.
use package.hypura.Prelude.{ℕ, true, false, Option, none, some, List, [], ◌∷◌}
use package.hypura.Prelude.Keys.{nat_eq}
use package.hypura.Prelude.Text.{Text, codes}
use package.hypura.Model.Gguf.{GgufFile, TensorInfo, f16}
use package.hypura.Io.Layout.{ExpertLayout}
use package.hypura.Cache.Neuron.{new as new_cache}
use package.hypura.Cache.Coactivation.{new as new_matrix}
use package.hypura.Compute.Pool.{ExpertPool}
use package.hypura.Compute.Prefetch.{Region, start_io_pool}
use package.hypura.Compute.Prefetch.State.{PrefetchState, DenseFfnLayout}
use package.hypura.Compute.Controller.{HypuraBuftController, new, on_tensor_loaded_cb}
use package.hypura.Compute.Controller.Build.{fresh_io}

-- A device that reads what it is asked for.
abbrev pub full_pread : ℕ → ℕ → ℕ
full_pread at want = want

abbrev pub tensor : Text → ℕ → ℕ → Option ℕ → TensorInfo
tensor name offset size_bytes layer_index = record {
  name = name;
  dimensions = size_bytes ∷ [];
  dtype = f16;
  offset = offset;
  size_bytes = size_bytes;
  layer_index = layer_index;
}

abbrev pub norm_0 : TensorInfo
norm_0 = tensor (codes "blk.0.attn_norm.weight") 0 64 (some 0)

abbrev pub up_0 : TensorInfo
up_0 = tensor (codes "blk.0.ffn_up.weight") 64 128 (some 0)

abbrev pub up_1 : TensorInfo
up_1 = tensor (codes "blk.1.ffn_up.weight") 192 128 (some 1)

abbrev pub file : GgufFile
file = record {
  version = 3;
  metadata = [];
  tensors = norm_0 ∷ up_0 ∷ up_1 ∷ [];
  data_offset = 4096;
}

-- What llama.cpp's calls leave.
unfoldable pub loaded_controller : HypuraBuftController
unfolding new on_tensor_loaded_cb
loaded_controller =
    on_tensor_loaded_cb
      (on_tensor_loaded_cb (new file) (codes "blk.0.ffn_up.weight") 0 128 (some 65536))
      (codes "blk.1.ffn_up.weight") 128 128 none

abbrev pub regions_0 : List Region
regions_0 =
    record { offset = 0; size = 64; file_offset = 4096 }
    ∷ record { offset = 64; size = 128; file_offset = 4160 }
    ∷ record { offset = 192; size = 32; file_offset = 4288 }
    ∷ []

-- Layer 0 on NVMe, no experts; nothing is loaded.
unfoldable pub idle : PrefetchState
unfolding new_cache new_matrix
idle = record {
  io = fresh_io ((0, regions_0) ∷ []);
  current_layer = none;
  buffer_base = some 65536;
  layer_regions = (0, regions_0) ∷ [];
  num_layers = 4;
  prefetch_enabled = true;
  nvme_layers = 0 ∷ [];
  keep_nvme_resident = false;
  sorted_nvme_layers = 0 ∷ [];
  expert_layouts = [];
  non_expert_regions = [];
  selected_experts = [];
  num_experts_used = 2;
  num_experts_total = 8;
  neuron_cache = new_cache 16;
  co_activation = new_matrix 4 8;
  prev_layer_experts = none;
  expert_streaming = false;
  dense_ffn_streaming = false;
  dense_ffn_layouts = [];
  dense_ffn_lookahead = 3;
  expert_pool = none;
  tensor_data = [];
  resident_ffn_layers = [];
  resident_ffn_base = none;
  resident_ffn_offsets = [];
}

-- With a pool of two workers.
unfoldable pub running : PrefetchState
unfolding start_io_pool idle
running = record idle { io = start_io_pool idle.io 2 full_pread }

-- Layer 1 has a fused tensor of eight experts.
abbrev pub fused_1 : ExpertLayout
fused_1 = record {
  tensor_name = codes "blk.1.ffn_gate_exps.weight";
  layer_index = 1;
  num_experts = 8;
  expert_stride = 16;
  file_offset = 8192;
  buffer_offset = 256;
  total_size = 128;
  expert_permutation = none;
}

unfoldable pub with_experts : PrefetchState
unfolding running
with_experts = record running { expert_layouts = (1, fused_1 ∷ []) ∷ [] }

abbrev pub dense_2 : DenseFfnLayout
dense_2 = record {
  tensor_name = codes "blk.2.ffn_up.weight";
  layer_index = 2;
  file_offset = 16384;
  size = 128;
}

abbrev pub slots : ExpertPool
slots = record {
  pool_base = 1048576;
  pool_size = 256;
  slot_size = 128;
  num_slots = 2;
  layer_slots = [];
  free_slots = 0 ∷ 1 ∷ [];
  advised = [];
}

-- Layer 2 is dense, and a pool of two slots waits for it.
unfoldable pub with_dense : PrefetchState
unfolding running
with_dense = record running {
  dense_ffn_layouts = (2, dense_2 ∷ []) ∷ [];
  expert_pool = some slots;
  tensor_data = (codes "blk.2.ffn_up.weight", 0) ∷ [];
}
