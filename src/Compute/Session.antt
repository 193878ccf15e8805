-- ===== src/Compute/Session.antt =====
-- src/compute/inference.rs: how a session with NVMe scheduling is set up, from the model to the first
-- pass. llama.cpp's own loading and decoding are not part of the model.
pub mod Layers
pub mod Warm
use package.hypura.Prelude.{
  ℕ, zero, suc, ◌+◌, ◌-◌, ◌*◌, ◌/◌, ◌%◌, min, max, Bool, true, false, not, ◌&&◌, ◌||◌, Option, none,
  some, List, [], ◌∷◌, ◌++◌, map, if◌then◌else◌, ltb, leb, length,
}
use package.hypura.Prelude.Keys.{◌==◌, nat_eq, retain, contains}
use package.hypura.Prelude.Dict.{Dict, lookup}
use package.hypura.Prelude.Float.{F64}
use package.hypura.Prelude.Machine.{u64, u64_total}
use package.hypura.Prelude.Text.{Text, text_eq}
use package.hypura.Model.Role.{TensorRole, from_name}
use package.hypura.Model.Gguf.{GgufFile, TensorInfo, total_tensor_bytes}
use package.hypura.Scheduler.Types.{
  StorageTier, gpu, ram, nvme, InferenceMode, expert_streaming, dense_ffn_streaming, KvQuantization,
  MemoryBudget, compute, with_pool, pool_slots, clamp,
}
use package.hypura.Compute.Pool.{ExpertPool, range_from}
use package.hypura.Compute.Prefetch.{start_io_pool}
use package.hypura.Compute.Prefetch.State.{PrefetchState, DenseFfnLayout, has_key}
use package.hypura.Compute.Prefetch.Load.{prefetch_all_nvme, preload_ram_layers}
use package.hypura.Compute.Prefetch.Dense.{prefetch_dense_ffn, activate_resident_ffn, ResidentFfn}
use package.hypura.Compute.Controller.{
  HypuraBuftController, is_dense_ffn, is_fused_role, max_of, activate_expert_pool,
  activate_dense_ffn_pool, take_tensor_ptrs,
}
use package.hypura.Compute.Session.Warm.{warm_cache_from_coactivation}

abbrev pub Tiers : Type 0
Tiers = Dict Text StorageTier

abbrev pub on_nvme : Option StorageTier → Bool
on_nvme (some nvme) = true
on_nvme _ = false

abbrev pub on_nvme_or_ram : Option StorageTier → Bool
on_nvme_or_ram (some nvme) = true
on_nvme_or_ram (some ram) = true
on_nvme_or_ram _ = false

-- The sizes of the tensors whose tier passes a test.
unfoldable pub bytes_where : (Option StorageTier → Bool) → Tiers → GgufFile → ℕ
unfolding u64_total
bytes_where test tiers gguf =
    u64_total (λ (t : TensorInfo). t.size_bytes)
      (retain (λ (t : TensorInfo). test (lookup t.name tiers)) gguf.tensors)

-- `collect` into a `HashSet`
abbrev pub add_once : Option ℕ → List ℕ → List ℕ
add_once none ls = ls
add_once (some l) ls = if contains l ls then ls else l ∷ ls

unfoldable pub nvme_layers_of : Tiers → List TensorInfo → List ℕ
nvme_layers_of tiers [] = []
nvme_layers_of tiers (t ∷ ts) =
    let rest = nvme_layers_of tiers ts in
    if on_nvme (lookup t.name tiers) then add_once t.layer_index rest else rest

abbrev pub gib : ℕ → ℕ
gib n = n * 1073741824

-- What the session will have committed, by estimate.
unfoldable pub estimated_committed : Tiers → GgufFile → ℕ
unfolding bytes_where total_tensor_bytes
estimated_committed tiers gguf =
    let buffer_bytes = bytes_where on_nvme_or_ram tiers gguf in
    let gpu_bytes = total_tensor_bytes gguf - buffer_bytes in
    u64 (u64 (u64 (gpu_bytes * 60) / 100 + buffer_bytes) + 2684354560)

unfoldable pub keep_resident : Tiers → GgufFile → ℕ → Bool
unfolding bytes_where estimated_committed
keep_resident tiers gguf total_ram =
    let nvme_bytes = bytes_where on_nvme tiers gguf in
    ltb 0 nvme_bytes && leb (u64 (estimated_committed tiers gguf + nvme_bytes)) (total_ram - gib 4)

unfoldable pub should_preload : Tiers → GgufFile → ℕ → Bool
unfolding keep_resident estimated_committed bytes_where
should_preload tiers gguf total_ram =
    keep_resident tiers gguf total_ram
    && leb (u64 (estimated_committed tiers gguf + bytes_where on_nvme tiers gguf))
        (total_ram - gib 6)

-- `max().unwrap_or(1)`
abbrev pub max_or_one : List ℕ → ℕ
max_or_one [] = 1
max_or_one (n ∷ ns) = max_of (n ∷ ns)

unfoldable pub slot_bytes : (TensorRole → Bool) → GgufFile → ℕ
unfolding from_name
slot_bytes test gguf = max_or_one (
    map (λ (t : TensorInfo). t.size_bytes)
      (retain (λ (t : TensorInfo). test (from_name t.name)) gguf.tensors))

-- A slot for each tensor of the layers ahead, less the current layer's.
unfoldable pub lookahead_for : ℕ → ℕ
lookahead_for num_slots = max (num_slots / 3 - 1) 1

abbrev pub with_pool_of : PrefetchState → ExpertPool → HypuraBuftController → PrefetchState
unfolding take_tensor_ptrs
with_pool_of s p c = record s { expert_pool = some p; tensor_data = (take_tensor_ptrs c).1 }

-- The pool of a streaming mode; `none` is a failed allocation.
unfoldable pub setup_mode :
    (ℕ → Option ℕ)
    → InferenceMode
    → HypuraBuftController
    → GgufFile
    → MemoryBudget
    → Bool
    → PrefetchState
    → Option PrefetchState
unfolding slot_bytes pool_slots activate_expert_pool activate_dense_ffn_pool lookahead_for
    take_tensor_ptrs
setup_mode init_pool expert_streaming c gguf budget keep s =
    elim (pool_slots budget (slot_bytes is_fused_role gguf) 6 18) [
      | none ↦ none
      | some num_slots ↦ elim (activate_expert_pool init_pool c gguf num_slots) [
        | none ↦ none
        | some (c', p) ↦ some (record (with_pool_of s p c') { expert_streaming = true })
      ]
    ]
setup_mode init_pool dense_ffn_streaming c gguf budget keep s =
    elim (pool_slots budget (slot_bytes is_dense_ffn gguf) 6 24) [
      | none ↦ none
      | some num_slots ↦ elim (activate_dense_ffn_pool init_pool c gguf num_slots) [
        | none ↦ none
        | some (c', p) ↦ some (record (with_pool_of s p c') {
          dense_ffn_lookahead = lookahead_for num_slots;
          dense_ffn_streaming = true;
        })
      ]
    ]
setup_mode init_pool mode c gguf budget keep s = some (record s { keep_nvme_resident = keep })

-- `(num_performance_cores() / 2).clamp(2, 4)`
abbrev pub num_io_workers : ℕ → ℕ
num_io_workers cores = min 4 (max 2 (cores / 2))

abbrev pub is_streaming : InferenceMode → Bool
is_streaming expert_streaming = true
is_streaming dense_ffn_streaming = true
is_streaming _ = false

-- How many layers stay in a buffer of their own; 0 when memory is short. `available` is the budget's
-- beside the pool.
unfoldable pub resident_layers : ℕ → ℕ → ℕ → ℕ → ℕ
resident_layers total_ram available per_layer_ffn num_layers =
    let max_resident = available / per_layer_ffn % 4294967296 in
    let num_resident = min max_resident (num_layers / 4) in
    if per_layer_ffn == 0
    then 0
    else if leb 4 num_resident && ltb (u64 (total_ram * 75) / 100) available
    then num_resident
    else 0

abbrev pub ffn_bytes : Dict ℕ (List DenseFfnLayout) → ℕ
unfolding u64_total
ffn_bytes [] = 0
ffn_bytes ((l, xs) ∷ m) = u64_total (λ (x : DenseFfnLayout). x.size) xs

-- The fields that the result of `activate_resident_ffn` fills.
abbrev pub with_resident : PrefetchState → Option ResidentFfn → PrefetchState
with_resident s none = s
with_resident s (some r) = record s {
  resident_ffn_base = some r.base;
  resident_ffn_layers = r.resident_layers;
  resident_ffn_offsets = r.offsets;
}

unfoldable pub setup_resident : (ℕ → Option ℕ) → ℕ → ℕ → PrefetchState → Option PrefetchState
unfolding resident_layers activate_resident_ffn u64_total
setup_resident mmap total_ram available s =
    let num_resident =
      resident_layers total_ram available (ffn_bytes s.dense_ffn_layouts) s.num_layers in
    elim (activate_resident_ffn mmap s num_resident) [
      | none ↦ none
      | some (s', r) ↦ some (with_resident s' r)
    ]

-- Only the dense streaming mode keeps layers.
abbrev pub reside : (ℕ → Option ℕ) → ℕ → ℕ → InferenceMode → PrefetchState → Option PrefetchState
unfolding setup_resident
reside mmap total_ram available dense_ffn_streaming s = setup_resident mmap total_ram available s
reside mmap total_ram available _ s = some s

-- The first streaming layers of a dense model, four at most.
unfoldable pub prefetch_first : PrefetchState → List ℕ → Option PrefetchState
unfolding prefetch_dense_ffn
prefetch_first s [] = some s
prefetch_first s (l ∷ ls) = elim (lookup l s.dense_ffn_layouts) [
  | none ↦ prefetch_first s ls
  | some xs ↦ elim (prefetch_dense_ffn s l) [ none ↦ none | some s' ↦ prefetch_first s' ls ]
]

unfoldable pub first_prefetch : InferenceMode → PrefetchState → Option PrefetchState
unfolding warm_cache_from_coactivation prefetch_first prefetch_all_nvme
first_prefetch expert_streaming s = warm_cache_from_coactivation s
first_prefetch dense_ffn_streaming s =
    let first = length s.resident_ffn_layers in
    prefetch_first s (range_from first (min (first + 4) s.num_layers - first))
first_prefetch mode s = some (prefetch_all_nvme s)

-- Keep-resident mode turns the callback off.
abbrev pub disable_callback : Bool → PrefetchState → PrefetchState
disable_callback off s = if off then record s { prefetch_enabled = false } else s

abbrev pub preload : Bool → PrefetchState → Option PrefetchState
unfolding preload_ram_layers
preload wanted s = if wanted then preload_ram_layers s else some s

-- From the state with its pool of slots to the first pass; `available` is the budget's beside the
-- pool.
unfoldable pub start_session :
    (mmap : ℕ → Option ℕ) (pread : ℕ → ℕ → ℕ)
    → (cores total_ram available : ℕ) → InferenceMode
    → (keep preload_wanted : Bool) → PrefetchState
    → Option PrefetchState
unfolding start_io_pool preload_ram_layers setup_resident first_prefetch
start_session mmap pread cores total_ram available mode keep preload_wanted s =
    let running = record s { io = start_io_pool s.io (num_io_workers cores) pread } in
    let traced : PrefetchState → PrefetchState = λ x. record x {
      io = record x.io {
        trace_enabled = if not keep || is_streaming mode then true else x.io.trace_enabled;
      };
    } in
    elim (preload (preload_wanted && not (is_streaming mode)) running) [
      | none ↦ none
      | some s1 ↦ elim (reside mmap total_ram available mode (traced s1)) [
        | none ↦ none
        | some s2 ↦ elim (first_prefetch mode s2) [
          | none ↦ none
          | some s3 ↦ some (disable_callback (keep && not (is_streaming mode)) s3)
        ]
      ]
    ]
