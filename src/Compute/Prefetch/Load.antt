-- ===== src/Compute/Prefetch/Load.antt =====
-- src/compute/nvme_backend.rs, `PrefetchState`: loads of a layer's regions or of some of its
-- experts, the wait for a layer, its release, and the requests for a prefetch.
mod Tasks
unfoldable pub use Tasks.*
use package.hypura.Prelude.{
  ℕ, zero, suc, ◌+◌, ◌-◌, ◌/◌, max, true, false, not, Option, none, some, List, [], ◌∷◌, ◌++◌,
  if◌then◌else◌, leb, length, take, drop,
}
use package.hypura.Prelude.Keys.{nat_eq, contains, retain}
use package.hypura.Prelude.Dict.{lookup, keys}
use package.hypura.Cache.Neuron.{
  ExpertTensorType, gate, CacheKey, NeuronCache, is_loaded as slice_loaded, mark_loaded,
  evict_layer,
}
use package.hypura.Io.Layout.{ExpertLayout, tensor_type, expert_buffer_offset, expert_file_offset}
use package.hypura.Compute.Prefetch.{
  LayerStatus, not_loaded, loading, loaded, PrefetchRequest, layer, expert_slices, Region, IoPool,
  layer_hit, layer_stall, released, set_status, status_of, submit, wait_loaded,
}
use package.hypura.Compute.Prefetch.State.{PrefetchState, trace_event, regions_of}

abbrev pub with_status : PrefetchState → ℕ → LayerStatus → PrefetchState
with_status s layer_idx st = record s { io = set_status s.io layer_idx st }

-- A load that sets the status when it is complete; it is set at once where there is nothing to
-- load, and where there is no pool.
unfoldable pub submit_or_set : PrefetchState → ℕ → ℕ → List (List Region) → PrefetchState
unfolding submit
submit_or_set s layer_idx base [] = with_status s layer_idx loaded
submit_or_set s layer_idx base (r ∷ rs) = elim s.io.io_pool [
  | none ↦ with_status (record s { io = submit s.io layer_idx true base (r ∷ rs) }) layer_idx loaded
  | some pool ↦ record s { io = submit s.io layer_idx true base (r ∷ rs) }
]

unfoldable pub submit_layer_load : PrefetchState → ℕ → PrefetchState
unfolding layer_tasks submit_or_set
submit_layer_load s layer_idx = elim s.buffer_base [
  | none ↦ s
  | some base ↦
      let t = layer_tasks s layer_idx in
      submit_or_set (record s { neuron_cache = t.cache }) layer_idx base t.task_regions
]

-- A load of which no status tells.
unfoldable pub submit_silent : PrefetchState → ℕ → ℕ → List (List Region) → PrefetchState
unfolding submit
submit_silent s layer_idx base [] = s
submit_silent s layer_idx base (r ∷ rs) = record s {
  io = submit s.io layer_idx false base (r ∷ rs);
}

unfoldable pub submit_expert_load : PrefetchState → ℕ → List ℕ → PrefetchState
unfolding expert_tasks submit_silent
submit_expert_load s layer_idx expert_ids = elim (lookup layer_idx s.expert_layouts) [
  | none ↦ s
  | some layouts ↦ elim s.buffer_base [
    | none ↦ s
    | some base ↦
        let t = expert_tasks s layer_idx layouts expert_ids in
        submit_silent (record s { neuron_cache = t.cache }) layer_idx base t.task_regions
  ]
]

-- The wait of a call that found its layer not loaded, and its event.
unfoldable pub await : PrefetchState → ℕ → Option PrefetchState
unfolding wait_loaded
await s layer_idx = elim (wait_loaded layer_idx s.io) [
  | none ↦ none
  | some io ↦ some (trace_event (record s { io = io }) (layer_stall layer_idx))
]

-- After a wait for another call's load, the loop goes round and finds the layer loaded.
abbrev pub then_hit : Option PrefetchState → ℕ → Option PrefetchState
then_hit none layer_idx = none
then_hit (some s) layer_idx = some (trace_event s (layer_hit layer_idx))

unfoldable pub ensure_layer_loaded : PrefetchState → ℕ → Option PrefetchState
unfolding submit_layer_load await
ensure_layer_loaded s layer_idx = elim (status_of s.io layer_idx) [
  | none ↦ await (submit_layer_load (with_status s layer_idx loading) layer_idx) layer_idx
  | some st ↦ elim st [
    | loaded ↦ some (trace_event s (layer_hit layer_idx))
    | loading ↦ then_hit (await s layer_idx) layer_idx
    | not_loaded ↦ await (submit_layer_load (with_status s layer_idx loading) layer_idx) layer_idx
  ]
]

-- `madvise` on each region.
unfoldable pub free_regions : ℕ → List Region → List (ℕ × ℕ) → List (ℕ × ℕ)
free_regions base [] freed = freed
free_regions base (r ∷ rs) freed = free_regions base rs ((base + r.offset, r.size) ∷ freed)

unfoldable pub release_layer : PrefetchState → ℕ → PrefetchState
unfolding free_regions evict_layer
release_layer s layer_idx = elim (lookup layer_idx s.layer_regions) [
  | none ↦ s
  | some regions ↦ elim s.buffer_base [
    | none ↦ s
    | some base ↦
        let freed = record s {
          io = record s.io { freed = free_regions base regions s.io.freed };
          neuron_cache = evict_layer s.neuron_cache layer_idx;
        } in
        trace_event (with_status freed layer_idx not_loaded) (released layer_idx)
  ]
]

unfoldable pub request_prefetch : PrefetchState → PrefetchRequest → PrefetchState
unfolding submit_layer_load submit_expert_load
request_prefetch s (layer layer_idx) = elim (status_of s.io layer_idx) [
  | none ↦ submit_layer_load (with_status s layer_idx loading) layer_idx
  | some st ↦ elim st [
    | loaded ↦ s
    | loading ↦ s
    | not_loaded ↦ submit_layer_load (with_status s layer_idx loading) layer_idx
  ]
]
request_prefetch s (expert_slices layer_idx expert_ids) = submit_expert_load s layer_idx expert_ids

-- `request_prefetch` for each layer of a list.
unfoldable pub prefetch_each : PrefetchState → List ℕ → PrefetchState
unfolding request_prefetch
prefetch_each s [] = s
prefetch_each s (l ∷ ls) = prefetch_each (request_prefetch s (layer l)) ls

unfoldable pub prefetch_all_nvme : PrefetchState → PrefetchState
unfolding prefetch_each
prefetch_all_nvme s = prefetch_each s s.sorted_nvme_layers

-- The waits of `preload_ram_layers`, which record no event.
unfoldable pub wait_each : PrefetchState → List ℕ → Option PrefetchState
unfolding wait_loaded
wait_each s [] = some s
wait_each s (l ∷ ls) = elim (wait_loaded l s.io) [
  | none ↦ none
  | some io ↦ wait_each (record s { io = io }) ls
]

unfoldable pub ram_layers : PrefetchState → List ℕ
ram_layers s = retain (λ l. not (contains l s.nvme_layers)) (keys s.layer_regions)

unfoldable pub preload_ram_layers : PrefetchState → Option PrefetchState
unfolding ram_layers prefetch_each wait_each
preload_ram_layers s = wait_each (prefetch_each s (ram_layers s)) (ram_layers s)
