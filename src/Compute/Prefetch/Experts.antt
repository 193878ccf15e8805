-- ===== src/Compute/Prefetch/Experts.antt =====
-- src/compute/nvme_backend.rs, `PrefetchState`: the experts that a router selected, loaded into the
-- main buffer or into the slots of the pool.
use package.hypura.Prelude.{
  ℕ, ◌+◌, ◌*◌, Bool, true, false, not, ◌&&◌, Option, none, some, List, [], ◌∷◌, ◌++◌, map,
  if◌then◌else◌, ltb, length,
}
use package.hypura.Prelude.Keys.{◌==◌, nat_eq, retain}
use package.hypura.Prelude.Dict.{lookup, keys}
use package.hypura.Prelude.Machine.{u64}
use package.hypura.Prelude.Text.{Text}
use package.hypura.Cache.Neuron.{
  tensor_type_beq, CacheKey, NeuronCache, is_loaded as slice_loaded, evict_layer,
}
use package.hypura.Io.Layout.{ExpertLayout, tensor_type, expert_buffer_offset, map_expert_id}
use package.hypura.Compute.Pool.{ExpertPool, allocate_layer, offsets}
use package.hypura.Compute.Prefetch.{loading, Region, layer_hit, layer_stall, submit, wait_loaded}
use package.hypura.Compute.Prefetch.State.{PrefetchState, trace_event, rewrite_all, rewrite_each}
use package.hypura.Compute.Prefetch.Load.{
  strides, TensorTasks, non_empty, expert_tasks, submit_or_set, with_status, type_or_gate,
}

-- Whether a slice of the expert is missing; the first one that is ends the loop.
unfoldable pub expert_missing : ℕ → ℕ → List ExpertLayout → NeuronCache → NeuronCache × Bool
unfolding slice_loaded tensor_type
expert_missing layer_idx eid [] cache = (cache, false)
expert_missing layer_idx eid (x ∷ layouts) cache =
    let (seen, hit) =
      slice_loaded cache
        (record { layer = layer_idx; expert_id = eid; tensor_type = type_or_gate x }) in
    let rest = expert_missing layer_idx eid layouts seen in if hit then rest else (seen, true)

unfoldable pub any_missing : ℕ → List ℕ → List ExpertLayout → NeuronCache → NeuronCache × Bool
unfolding expert_missing
any_missing layer_idx [] layouts cache = (cache, false)
any_missing layer_idx (eid ∷ ids) layouts cache =
    let (seen, missing) = expert_missing layer_idx eid layouts cache in
    let rest = any_missing layer_idx ids layouts seen in if missing then (seen, true) else rest

abbrev pub layout_names : List ExpertLayout → List Text
layout_names xs = map (λ (x : ExpertLayout). x.tensor_name) xs

-- The slots of a layer in the pool, as offsets.
abbrev pub held_offsets : ExpertPool → List ℕ → List ℕ
held_offsets p slots = offsets p slots

unfoldable pub rewrite_tensor_ptrs_for_layer : PrefetchState → ℕ → PrefetchState
unfolding rewrite_all
rewrite_tensor_ptrs_for_layer s layer_idx = elim (lookup layer_idx s.expert_layouts) [
  | none ↦ s
  | some layouts ↦ elim s.expert_pool [
    | none ↦ s
    | some p ↦ elim (lookup layer_idx p.layer_slots) [
      | none ↦ s
      | some slots ↦ record s {
        tensor_data =
            rewrite_all p.pool_base (layout_names layouts) (held_offsets p slots) s.tensor_data;
      }
    ]
  ]
]

-- The entries of these layers leave the cache.
unfoldable pub evict_each : List ℕ → NeuronCache → NeuronCache
unfolding evict_layer
evict_each [] cache = cache
evict_each (l ∷ ls) cache = evict_each ls (evict_layer cache l)

-- All other layers of the pool, when its free slots are fewer than the tensors.
unfoldable pub evicted_layers : ExpertPool → ℕ → ℕ → List ℕ
evicted_layers p layer_idx num_tensors =
    retain (λ l. not (l == layer_idx) && ltb (length p.free_slots) num_tensors) (keys p.layer_slots)

-- `slot_offsets[i] + mapped_eid * expert_stride`
abbrev pub pool_dest : ExpertLayout → ℕ → ℕ → ℕ
unfolding map_expert_id
pool_dest x slot_offset eid = u64 (slot_offset + u64 (map_expert_id x eid * x.expert_stride))

-- The tasks of a load into the pool; `none` is the panic where a tensor with a slice to load has no
-- slot.
unfoldable pub pooled_tasks :
    ℕ → List ℕ → List ExpertLayout → List ℕ → NeuronCache → Option TensorTasks
unfolding strides
pooled_tasks layer_idx ids [] slot_offsets cache =
    some (record { task_regions = []; cache = cache; evicted = [] })
pooled_tasks layer_idx ids (x ∷ layouts) [] cache =
    let here = strides (pool_dest x 0) x layer_idx ids cache in
    let rest = pooled_tasks layer_idx ids layouts [] here.cache in
    elim here.regions [ [] ↦ rest | r ∷ rs ↦ none ]
pooled_tasks layer_idx ids (x ∷ layouts) (slot_offset ∷ slot_offsets) cache =
    let here = strides (pool_dest x slot_offset) x layer_idx ids cache in
    elim (pooled_tasks layer_idx ids layouts slot_offsets here.cache) [
      | none ↦ none
      | some rest ↦ some (record {
        task_regions = non_empty here.regions ++ rest.task_regions;
        cache = rest.cache;
        evicted = here.evicted ++ rest.evicted;
      })
    ]

-- A load that is submitted and waited for, without an event.
unfoldable pub load_and_wait : PrefetchState → ℕ → ℕ → List (List Region) → Option PrefetchState
unfolding submit wait_loaded
load_and_wait s layer_idx base task_regions =
    let begun = with_status s layer_idx loading in
    elim (wait_loaded layer_idx (submit begun.io layer_idx true base task_regions)) [
      | none ↦ none
      | some io ↦ some (record s { io = io })
    ]

abbrev pub load_unless_empty : PrefetchState → ℕ → ℕ → List (List Region) → Option PrefetchState
unfolding load_and_wait
load_unless_empty s layer_idx base [] = some s
load_unless_empty s layer_idx base (r ∷ rs) = load_and_wait s layer_idx base (r ∷ rs)

unfoldable pub load_experts_pooled : PrefetchState → ℕ → List ℕ → Option PrefetchState
unfolding evict_each evicted_layers allocate_layer rewrite_each pooled_tasks load_and_wait
load_experts_pooled s layer_idx expert_ids = elim (lookup layer_idx s.expert_layouts) [
  | none ↦ some s
  | some layouts ↦ elim s.expert_pool [
    | none ↦ none
    | some p ↦
        let cache = evict_each (evicted_layers p layer_idx (length layouts)) s.neuron_cache in
        elim (allocate_layer p layer_idx (length layouts)) [
          | none ↦ none
          | some (p', slot_offsets) ↦
              elim (rewrite_each p'.pool_base (layout_names layouts) slot_offsets s.tensor_data) [
                | none ↦ none
                | some rewritten ↦
                    elim (pooled_tasks layer_idx expert_ids layouts slot_offsets cache) [
                      | none ↦ none
                      | some t ↦
                          load_unless_empty
                            (record s {
                              expert_pool = some p';
                              tensor_data = rewritten;
                              neuron_cache = t.cache;
                            })
                            layer_idx p'.pool_base t.task_regions
                    ]
              ]
        ]
  ]
]

-- The pages of an evicted slice, in each tensor of its layer and kind.
unfoldable pub slice_pages : ℕ → CacheKey → List ExpertLayout → List (ℕ × ℕ)
unfolding tensor_type expert_buffer_offset
slice_pages base k [] = []
slice_pages base k (x ∷ layouts) =
    let rest = slice_pages base k layouts in
    elim (tensor_type x.tensor_name) [
      | none ↦ rest
      | some t ↦
          if tensor_type_beq t k.tensor_type
          then (base + expert_buffer_offset x k.expert_id, x.expert_stride) ∷ rest
          else rest
    ]

unfoldable pub evicted_pages : PrefetchState → ℕ → List CacheKey → List (ℕ × ℕ)
unfolding slice_pages
evicted_pages s base [] = []
evicted_pages s base (k ∷ ks) =
    let rest = evicted_pages s base ks in
    elim (lookup k.layer s.expert_layouts) [
      | none ↦ rest
      | some layouts ↦ slice_pages base k layouts ++ rest
    ]

unfoldable pub submit_expert_load_with_status : PrefetchState → ℕ → List ℕ → PrefetchState
unfolding expert_tasks evicted_pages submit_or_set
submit_expert_load_with_status s layer_idx expert_ids = elim (lookup layer_idx s.expert_layouts) [
  | none ↦ s
  | some layouts ↦ elim s.buffer_base [
    | none ↦ s
    | some base ↦
        let t = expert_tasks s layer_idx layouts expert_ids in
        submit_or_set
          (record s {
            neuron_cache = t.cache;
            io = record s.io { freed = evicted_pages s base t.evicted ++ s.io.freed };
          })
          layer_idx base t.task_regions
  ]
]

-- The load into the main buffer, waited for.
unfoldable pub load_in_place : PrefetchState → ℕ → List ℕ → Option PrefetchState
unfolding submit_expert_load_with_status wait_loaded
load_in_place s layer_idx expert_ids =
    let s' =
      submit_expert_load_with_status (with_status s layer_idx loading) layer_idx expert_ids in
    elim (wait_loaded layer_idx s'.io) [ none ↦ none | some io ↦ some (record s' { io = io }) ]

abbrev pub then_stall : Option PrefetchState → ℕ → Option PrefetchState
then_stall none layer_idx = none
then_stall (some s) layer_idx = some (trace_event s (layer_stall layer_idx))

unfoldable pub ensure_experts_loaded : PrefetchState → ℕ → List ℕ → Option PrefetchState
unfolding any_missing rewrite_tensor_ptrs_for_layer load_experts_pooled load_in_place
ensure_experts_loaded s layer_idx [] = some s
ensure_experts_loaded s layer_idx (eid ∷ ids) = elim (lookup layer_idx s.expert_layouts) [
  | none ↦ some s
  | some layouts ↦
      let (seen, missing) = any_missing layer_idx (eid ∷ ids) layouts s.neuron_cache in
      let s' = record s { neuron_cache = seen } in
      elim s.expert_pool [
        | none ↦
            if missing
            then then_stall (load_in_place s' layer_idx (eid ∷ ids)) layer_idx
            else some (trace_event s' (layer_hit layer_idx))
        | some p ↦
            if missing
            then then_stall (load_experts_pooled s' layer_idx (eid ∷ ids)) layer_idx
            else some
                (trace_event (rewrite_tensor_ptrs_for_layer s' layer_idx) (layer_hit layer_idx))
      ]
]
