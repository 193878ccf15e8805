-- ===== src/Compute/Controller/Build.antt =====
-- src/compute/nvme_backend.rs, `build_prefetch_state`: the state of a session, from the file and from
-- what the controller recorded. A dictionary's order stands for the order of a `HashMap`.
use package.hypura.Prelude.{
  ℕ, ◌+◌, ◌*◌, ◌/◌, max, Bool, true, false, ◌&&◌, Option, none, some, List, [], ◌∷◌, ◌++◌, map,
  if◌then◌else◌, ltb, length,
}
use package.hypura.Prelude.Keys.{◌==◌, nat_eq, retain}
use package.hypura.Prelude.Dict.{Dict, lookup, insert, values}
use package.hypura.Prelude.Machine.{u64}
use package.hypura.Prelude.Sort.{sort}
use package.hypura.Prelude.Text.{Text, text_eq, codes}
use package.hypura.Model.Role.{from_name}
use package.hypura.Model.Gguf.{GgufFile, TensorInfo, get_u32}
use package.hypura.Cache.Neuron.{new as new_cache}
use package.hypura.Cache.Coactivation.{CoActivationMatrix, new as new_matrix}
use package.hypura.Io.Layout.{ExpertLayout, invert}
use package.hypura.Compute.Prefetch.{not_loaded, Region, IoState}
use package.hypura.Compute.Prefetch.State.{PrefetchState, DenseFfnLayout, has_key}
use package.hypura.Compute.Controller.{
  TensorLocation, HypuraBuftController, is_dense_ffn, is_fused_role,
}

-- The file offsets and the layers, from the file's tensors.
unfoldable pub fill_locations :
    ℕ → List TensorInfo → Dict Text TensorLocation → Dict Text TensorLocation
fill_locations data_offset [] m = m
fill_locations data_offset (t ∷ tensors) m =
    fill_locations data_offset tensors (elim (lookup t.name m) [
      | none ↦ m
      | some loc ↦
          insert t.name
            (record loc { file_offset = u64 (data_offset + t.offset); layer_index = t.layer_index })
            m
    ])

-- `entry(key).or_default().push(value)`
abbrev pub push_to {ℓ} : {V : Type ℓ} → ℕ → V → Dict ℕ (List V) → Dict ℕ (List V)
push_to k v [] = (k, v ∷ []) ∷ []
push_to k v ((j, vs) ∷ m) = if j == k then (j, vs ++ (v ∷ [])) ∷ m else (j, vs) ∷ push_to k v m

abbrev pub region_of : TensorLocation → Region
region_of loc = record {
  offset = loc.offset_in_buffer;
  size = loc.size;
  file_offset = loc.file_offset;
}

unfoldable pub group_regions : List TensorLocation → Dict ℕ (List Region) → Dict ℕ (List Region)
group_regions [] m = m
group_regions (loc ∷ locs) m =
    group_regions locs (elim loc.layer_index [ none ↦ m | some l ↦ push_to l (region_of loc) m ])

abbrev pub earlier : Region → Region → Bool
earlier a b = ltb a.file_offset b.file_offset

unfoldable pub sort_regions : Dict ℕ (List Region) → Dict ℕ (List Region)
unfolding sort
sort_regions m = map (λ (e : ℕ × List Region). (e.0, sort earlier e.1)) m

-- The layouts that the loop over the tensors builds.
pub record Layouts : Type 0 where
  pub expert_layouts : Dict ℕ (List ExpertLayout)
  pub dense_ffn_layouts : Dict ℕ (List DenseFfnLayout)
  pub non_expert_regions : Dict ℕ (List Region)

-- One round of the loop, for a tensor with a layer and a place in the buffer.
unfoldable pub place_tensor :
    ℕ → Dict ℕ (List ℕ) → TensorInfo → ℕ → TensorLocation → Layouts → Layouts
unfolding from_name
place_tensor num_experts_total permutations t layer_idx loc x =
    if is_fused_role (from_name t.name) && ltb 0 num_experts_total
    then record x {
      expert_layouts =
          push_to layer_idx
            (record {
              tensor_name = t.name;
              layer_index = layer_idx;
              num_experts = num_experts_total;
              expert_stride = loc.size / num_experts_total;
              file_offset = loc.file_offset;
              buffer_offset = loc.offset_in_buffer;
              total_size = loc.size;
              expert_permutation = lookup layer_idx permutations;
            })
            x.expert_layouts;
    }
    else if is_dense_ffn (from_name t.name) && num_experts_total == 0
    then record x {
      dense_ffn_layouts =
          push_to layer_idx
            (record {
              tensor_name = t.name;
              layer_index = layer_idx;
              file_offset = loc.file_offset;
              size = loc.size;
            })
            x.dense_ffn_layouts;
    }
    else record x { non_expert_regions = push_to layer_idx (region_of loc) x.non_expert_regions }

unfoldable pub place_tensors :
    ℕ → Dict ℕ (List ℕ) → Dict Text TensorLocation → List TensorInfo → Layouts → Layouts
unfolding place_tensor
place_tensors n perms m [] x = x
place_tensors n perms m (t ∷ tensors) x = place_tensors n perms m tensors (elim t.layer_index [
  | none ↦ x
  | some layer_idx ↦ elim (lookup t.name m) [
    | none ↦ x
    | some loc ↦ place_tensor n perms t layer_idx loc x
  ]
])

abbrev pub or_zero : Option ℕ → ℕ
or_zero none = 0
or_zero (some n) = n

abbrev pub matrix_or : Option CoActivationMatrix → CoActivationMatrix → CoActivationMatrix
matrix_or none d = d
matrix_or (some c) d = c

-- A mixture-of-experts model starts from the matrix that was saved.
unfoldable pub initial_matrix : Option CoActivationMatrix → ℕ → ℕ → CoActivationMatrix
unfolding new_matrix
initial_matrix saved num_layers num_experts_total =
    if ltb 0 num_experts_total
    then matrix_or saved (new_matrix num_layers num_experts_total)
    else new_matrix num_layers (max num_experts_total 1)

-- The slices of three hot experts for each layer on NVMe, and 16 at least.
unfoldable pub cache_capacity : List ℕ → Dict ℕ (List ExpertLayout) → ℕ
cache_capacity nvme_layers layouts =
    max (length (retain (λ l. has_key l layouts) nvme_layers) * 3 * 3) 16

abbrev pub fresh_io : Dict ℕ (List Region) → IoState
fresh_io layer_regions = record {
  io_pool = none;
  layer_status = map (λ (e : ℕ × List Region). (e.0, not_loaded)) layer_regions;
  completions = [];
  tasks = [];
  reads = [];
  freed = [];
  trace_enabled = false;
  trace = [];
}

-- `forward` is what the sidecar file of permutations holds, and `saved` the saved matrix.
unfoldable pub build_prefetch_state :
    HypuraBuftController
    → GgufFile
    → ℕ
    → List ℕ
    → Dict ℕ (List ℕ)
    → Option CoActivationMatrix
    → PrefetchState
unfolding fill_locations group_regions sort_regions place_tensors initial_matrix cache_capacity sort
    invert new_cache
build_prefetch_state c gguf num_layers nvme_layers forward saved =
    let m = fill_locations c.gguf_data_offset gguf.tensors c.tensor_map in
    let layer_regions = sort_regions (group_regions (values m) []) in
    let total = or_zero (get_u32 gguf (codes "expert_count")) in
    let perms = map (λ (e : ℕ × List ℕ). (e.0, invert e.1)) forward in
    let x =
      place_tensors total perms m gguf.tensors
        (record { expert_layouts = []; dense_ffn_layouts = []; non_expert_regions = [] }) in
    record {
      io = fresh_io layer_regions;
      current_layer = none;
      buffer_base = c.buffer_base;
      layer_regions = layer_regions;
      num_layers = num_layers;
      prefetch_enabled = true;
      nvme_layers = nvme_layers;
      keep_nvme_resident = false;
      sorted_nvme_layers = sort ltb nvme_layers;
      expert_layouts = x.expert_layouts;
      non_expert_regions =
          sort_regions
            (retain (λ (e : ℕ × List Region). has_key e.0 x.expert_layouts) x.non_expert_regions);
      selected_experts = [];
      num_experts_used = or_zero (get_u32 gguf (codes "expert_used_count"));
      num_experts_total = total;
      neuron_cache = new_cache (cache_capacity (sort ltb nvme_layers) x.expert_layouts);
      co_activation = initial_matrix saved num_layers total;
      prev_layer_experts = none;
      expert_streaming = false;
      dense_ffn_streaming = false;
      dense_ffn_layouts = x.dense_ffn_layouts;
      dense_ffn_lookahead = 3;
      expert_pool = none;
      tensor_data = [];
      resident_ffn_layers = [];
      resident_ffn_base = none;
      resident_ffn_offsets = [];
    }
