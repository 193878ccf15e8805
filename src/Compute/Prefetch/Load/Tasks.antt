-- ===== src/Compute/Prefetch/Load/Tasks.antt =====
-- src/compute/nvme_backend.rs, `PrefetchState`: the tasks that a load is cut into.
use package.hypura.Prelude.{
  ℕ, zero, suc, ◌+◌, ◌-◌, ◌/◌, max, Option, none, some, List, [], ◌∷◌, ◌++◌, if◌then◌else◌, leb,
  length, take, drop,
}
use package.hypura.Prelude.Keys.{nat_eq}
use package.hypura.Prelude.Dict.{lookup}
use package.hypura.Cache.Neuron.{
  ExpertTensorType, gate, CacheKey, NeuronCache, is_loaded as slice_loaded, mark_loaded,
}
use package.hypura.Io.Layout.{ExpertLayout, tensor_type, expert_buffer_offset, expert_file_offset}
use package.hypura.Compute.Prefetch.{Region, IoPool}
use package.hypura.Compute.Prefetch.State.{PrefetchState, regions_of}

-- `chunks(chunk_size)`, which panics on 0; `fuel` is the length of the list.
unfoldable pub chunks {ℓ} : {A : Type ℓ} → ℕ → ℕ → List A → List (List A)
chunks zero chunk_size xs = []
chunks (suc fuel) chunk_size [] = []
chunks (suc fuel) chunk_size (x ∷ xs) =
    take chunk_size (x ∷ xs) ∷ chunks fuel chunk_size (drop chunk_size (x ∷ xs))

-- `map_or(1, |p| p.num_workers().max(1))`
abbrev pub worker_count : Option IoPool → ℕ
worker_count none = 1
worker_count (some p) = max p.num_workers 1

-- The regions of a whole layer, split across the workers.
unfoldable pub whole_layer : List Region → ℕ → List (List Region)
unfolding chunks
whole_layer regions num_workers =
    chunks (length regions) ((length regions + num_workers - 1) / num_workers) regions

-- What a loop over experts leaves: the regions to read, the cache, and the slices it evicted.
pub record Strides : Type 0 where
  pub regions : List Region
  pub cache : NeuronCache
  pub evicted : List CacheKey

abbrev pub evicted_list : Option CacheKey → List CacheKey
evicted_list none = []
evicted_list (some k) = k ∷ []

abbrev pub type_or_gate : ExpertLayout → ExpertTensorType
unfolding tensor_type
type_or_gate x = elim (tensor_type x.tensor_name) [ none ↦ gate | some t ↦ t ]

-- The loop over the experts of one fused tensor; `dest` says where in the buffer a slice goes.
unfoldable pub strides : (ℕ → ℕ) → ExpertLayout → ℕ → List ℕ → NeuronCache → Strides
unfolding slice_loaded mark_loaded expert_file_offset tensor_type
strides dest x layer_idx [] cache = record { regions = []; cache = cache; evicted = [] }
strides dest x layer_idx (eid ∷ ids) cache =
    let k : CacheKey = record {
      layer = layer_idx;
      expert_id = eid;
      tensor_type = type_or_gate x;
    } in
    let (seen, hit) = slice_loaded cache k in
    let (marked, evicted) = mark_loaded seen k in
    if leb x.num_experts eid
    then strides dest x layer_idx ids cache
    else if hit
    then strides dest x layer_idx ids seen
    else let rest = strides dest x layer_idx ids marked in
      record {
        regions =
            record {
              offset = dest eid;
              size = x.expert_stride;
              file_offset = expert_file_offset x eid;
            }
            ∷ rest.regions;
        cache = rest.cache;
        evicted = evicted_list evicted ++ rest.evicted;
      }

-- What the loop over the fused tensors of a layer leaves: a task for each that has a region to read.
pub record TensorTasks : Type 0 where
  pub task_regions : List (List Region)
  pub cache : NeuronCache
  pub evicted : List CacheKey

abbrev pub non_empty : List Region → List (List Region)
non_empty [] = []
non_empty (r ∷ rs) = (r ∷ rs) ∷ []

unfoldable pub tensor_tasks : ℕ → List ℕ → List ExpertLayout → NeuronCache → TensorTasks
unfolding strides expert_buffer_offset
tensor_tasks layer_idx ids [] cache = record { task_regions = []; cache = cache; evicted = [] }
tensor_tasks layer_idx ids (x ∷ layouts) cache =
    let here = strides (expert_buffer_offset x) x layer_idx ids cache in
    let rest = tensor_tasks layer_idx ids layouts here.cache in
    record {
      task_regions = non_empty here.regions ++ rest.task_regions;
      cache = rest.cache;
      evicted = here.evicted ++ rest.evicted;
    }

-- The layer's other regions as one task, then a task for each fused tensor.
unfoldable pub expert_tasks : PrefetchState → ℕ → List ExpertLayout → List ℕ → TensorTasks
unfolding tensor_tasks
expert_tasks s layer_idx layouts ids =
    let t = tensor_tasks layer_idx ids layouts s.neuron_cache in
    record t {
      task_regions =
          non_empty (regions_of (lookup layer_idx s.non_expert_regions)) ++ t.task_regions;
    }

-- The tasks of `submit_layer_load`.
unfoldable pub layer_tasks : PrefetchState → ℕ → TensorTasks
unfolding expert_tasks whole_layer
layer_tasks s layer_idx =
    let whole : TensorTasks = record {
      task_regions =
          whole_layer (regions_of (lookup layer_idx s.layer_regions)) (worker_count s.io.io_pool);
      cache = s.neuron_cache;
      evicted = [];
    } in
    elim (lookup layer_idx s.selected_experts) [
      | none ↦ whole
      | some experts ↦ elim (lookup layer_idx s.expert_layouts) [
        | none ↦ whole
        | some layouts ↦ expert_tasks s layer_idx layouts experts
      ]
    ]
