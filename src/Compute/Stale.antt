-- ===== src/Compute/Stale.antt =====
-- src/compute/nvme_backend.rs: two runs in which a call returns before the data of its layer is where
-- the layer's tensors point.
use package.hypura.Prelude.{some, [], ◌∷◌, ◌≡◌, refl, length}
use package.hypura.Prelude.Keys.{nat_eq}
use package.hypura.Prelude.Dict.{lookup}
use package.hypura.Prelude.Text.{codes, text_eq, text_beq}
use package.hypura.Model.Gguf.{◌>>=◌}
use package.hypura.Compute.Samples.{idle, running, with_experts, dense_2, slots}
use package.hypura.Compute.Prefetch.{status_of, loaded, expert_slices, start_io_pool}
use package.hypura.Compute.Prefetch.State.{PrefetchState, DenseFfnLayout}
use package.hypura.Compute.Prefetch.Load.{request_prefetch}
use package.hypura.Compute.Prefetch.Experts.{ensure_experts_loaded}
use package.hypura.Compute.Prefetch.Dense.{ensure_dense_ffn_loaded}

abbrev dense_0 : DenseFfnLayout
dense_0 = record {
  tensor_name = codes "blk.0.ffn_up.weight";
  layer_index = 0;
  file_offset = 8192;
  size = 128;
}

-- Two dense layers, and a pool that has a slot for one of them.
abbrev crowded : PrefetchState
unfolding running
crowded = record running {
  dense_ffn_layouts = (0, dense_0 ∷ []) ∷ (2, dense_2 ∷ []) ∷ [];
  expert_pool = some (record slots { pool_size = 128; num_slots = 1; free_slots = 0 ∷ [] });
  tensor_data = (codes "blk.0.ffn_up.weight", 0) ∷ (codes "blk.2.ffn_up.weight", 0) ∷ [];
}

-- Layer 2 takes the slot of layer 0, which stays loaded: the second call for layer 0 reads nothing,
-- and the tensors of both layers point at the slot.
shared_slot :
    (s : PrefetchState) × ((ensure_dense_ffn_loaded crowded 0 >>= λ s1.
    ensure_dense_ffn_loaded s1 2 >>= λ s2. ensure_dense_ffn_loaded s2 0)
      ≡ some s)
    × (length s.io.reads ≡ 2)
    × (status_of s.io 0 ≡ some loaded)
    × (status_of s.io 2 ≡ some loaded)
    × (lookup (codes "blk.0.ffn_up.weight") s.tensor_data ≡ some 1048576)
    × (lookup (codes "blk.2.ffn_up.weight") s.tensor_data ≡ some 1048576)
unfolding ensure_dense_ffn_loaded running idle start_io_pool text_beq
shared_slot = (_, refl, refl, refl, refl, refl, refl)

-- The slices that were asked for count as loaded while their task is queued.
early_return :
    (s : PrefetchState) × (ensure_experts_loaded
        (request_prefetch with_experts (expert_slices 1 (3 ∷ [])))
        1
        (3 ∷ [])
      ≡ some s)
    × (s.io.reads ≡ [])
    × (length s.io.tasks ≡ 1)
unfolding ensure_experts_loaded request_prefetch with_experts running idle start_io_pool
early_return = (_, refl, refl, refl)
