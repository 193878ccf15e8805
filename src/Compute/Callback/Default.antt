-- ===== src/Compute/Callback/Default.antt =====
-- src/compute/nvme_backend.rs, `eval_callback` beyond the name of the node: a layer is loaded before
-- it computes; after it, the layer before is released and later layers are requested.
use package.hypura.Prelude.{
  ℕ, ◌+◌, ◌-◌, ◌/◌, min, max, Bool, not, ◌&&◌, Option, none, some, List, [], ◌∷◌, ◌++◌, ◌*◌,
  if◌then◌else◌, ltb, length, take,
}
use package.hypura.Prelude.Keys.{◌==◌, nat_eq, contains}
use package.hypura.Prelude.Dict.{lookup}
use package.hypura.Prelude.Float.{F64}
use package.hypura.Prelude.Machine.{u64_total}
use package.hypura.Cache.Coactivation.{
  record_selected, record_cross_layer, predict_next_layer, has_data,
}
use package.hypura.Compute.Pool.{range_from}
use package.hypura.Compute.Prefetch.{layer, expert_slices, Region, IoPool}
use package.hypura.Compute.Prefetch.State.{PrefetchState, has_key}
use package.hypura.Compute.Prefetch.Load.{ensure_layer_loaded, release_layer, request_prefetch}

-- The experts of a layer, recorded in the matrix; the layer before gives a pair of layers.
unfoldable pub record_selection : PrefetchState → ℕ → List ℕ → PrefetchState
unfolding record_selected record_cross_layer
record_selection s layer_idx experts =
    let own = record_selected s.co_activation layer_idx experts in
    record s {
      co_activation = elim s.prev_layer_experts [
        | none ↦ own
        | some (prev_l, prev_e) ↦ record_cross_layer own prev_l prev_e experts
      ];
      prev_layer_experts = some (layer_idx, experts);
    }

unfoldable pub predicted : PrefetchState → ℕ → List ℕ → List ℕ
unfolding predict_next_layer
predicted s layer_idx experts =
    if has_data s.co_activation
    then predict_next_layer s.co_activation layer_idx experts 3
    else experts

-- The predicted experts that are not observed follow the observed ones.
unfoldable pub union : List ℕ → List ℕ → List ℕ
union experts [] = experts
union experts (p ∷ ps) = union (if contains p experts then experts else experts ++ (p ∷ [])) ps

-- `truncate(4)`
unfoldable pub prefetch_experts : PrefetchState → ℕ → List ℕ → List ℕ
unfolding predicted union
prefetch_experts s layer_idx experts = take 4 (union experts (predicted s layer_idx experts))

-- The first of some layers that passes a test gets the request.
unfoldable pub request_first : (ℕ → Bool) → PrefetchState → List ℕ → List ℕ → PrefetchState
unfolding request_prefetch
request_first wanted s expert_ids [] = s
request_first wanted s expert_ids (target ∷ targets) =
    let rest = request_first wanted s expert_ids targets in
    if wanted target then request_prefetch s (expert_slices target expert_ids) else rest

-- Records the router's choice for the layer, and asks for the experts of the next one that is wanted.
unfoldable pub speculate : (ℕ → Bool) → PrefetchState → ℕ → PrefetchState
unfolding record_selection prefetch_experts request_first
speculate wanted s layer_idx = elim (lookup layer_idx s.expert_layouts) [
  | none ↦ s
  | some layouts ↦ elim (lookup layer_idx s.selected_experts) [
    | none ↦ s
    | some experts ↦
        let s' = record_selection s layer_idx experts in
        request_first wanted s' (prefetch_experts s' layer_idx experts)
          (range_from (layer_idx + 1) 3)
  ]
]

-- `request_prefetch` for the layers that are there and on NVMe.
unfoldable pub request_nvme : PrefetchState → List ℕ → PrefetchState
unfolding request_prefetch
request_nvme s [] = s
request_nvme s (target ∷ targets) =
    let wanted = request_nvme (request_prefetch s (layer target)) targets in
    let skipped = request_nvme s targets in
    if ltb target s.num_layers && contains target s.nvme_layers then wanted else skipped

abbrev pub clamp_2_8 : ℕ → ℕ
clamp_2_8 n = min 8 (max 2 n)

-- The bytes of a layer's regions.
abbrev pub layer_bytes : PrefetchState → ℕ → ℕ
unfolding u64_total
layer_bytes s l = elim (lookup l s.layer_regions) [
  | none ↦ 0
  | some regions ↦ u64_total (λ (r : Region). r.size) regions
]

unfoldable pub avg_layer_bytes : PrefetchState → ℕ
avg_layer_bytes s = u64_total (layer_bytes s) s.sorted_nvme_layers / length s.sorted_nvme_layers

-- A layer of the model on NVMe that has fused experts.
abbrev pub is_nvme_moe : PrefetchState → ℕ → Bool
is_nvme_moe s target =
    ltb target s.num_layers && contains target s.nvme_layers && has_key target s.expert_layouts

module _ (F : F64) where
  abbrev pub billion : ℕ → F.Num
  billion n = F.of_u64 (n * 1000000000)

  -- Bytes in a second.
  unfoldable pub throughput_bps : IoPool → F.Num
  throughput_bps p =
      let ns = F.of_u64 p.load_time_ns in
      if F.lt (F.of_u64 0) ns
      then F.div (F.of_u64 p.bytes_loaded) (F.div ns (billion 1))
      else F.of_u64 0

  abbrev pub throughput : Option IoPool → F.Num
  unfolding throughput_bps
  throughput none = billion 3
  throughput (some p) = if F.lt (F.of_u64 0) (throughput_bps p) then throughput_bps p else billion 3

  unfoldable pub adaptive_lookahead : PrefetchState → ℕ
  unfolding throughput_bps avg_layer_bytes
  adaptive_lookahead s = elim s.sorted_nvme_layers [
    | [] ↦ 4
    | _ ↦
        let avg = avg_layer_bytes s in
        if avg == 0
        then 4
        else clamp_2_8 (
            F.ceil_u32 (
              F.div (F.of_u64 avg)
                (F.mul (throughput s.io.io_pool) (F.div (F.of_u64 1) (F.of_u64 10)))))
  ]

  -- In streaming mode: release the layer before, and look ahead.
  unfoldable pub stream_on : PrefetchState → ℕ → ℕ → PrefetchState
  unfolding release_layer request_nvme adaptive_lookahead speculate
  stream_on s prev_layer layer_idx =
      let freed = if contains prev_layer s.nvme_layers then release_layer s prev_layer else s in
      let asked = request_nvme freed (range_from (layer_idx + 2) (adaptive_lookahead freed - 1)) in
      speculate (is_nvme_moe asked) asked layer_idx

  unfoldable pub after_layer : PrefetchState → ℕ → PrefetchState
  unfolding stream_on
  after_layer s layer_idx =
      let s' = record s { current_layer = some layer_idx } in
      elim s.current_layer [
        | none ↦ s'
        | some prev_layer ↦
            if ltb prev_layer layer_idx && not s.keep_nvme_resident
            then stream_on s' prev_layer layer_idx
            else s'
      ]

  unfoldable pub eval_callback_layer : PrefetchState → ℕ → Bool → Option PrefetchState
  unfolding ensure_layer_loaded after_layer
  eval_callback_layer s layer_idx ask =
      if ask then ensure_layer_loaded s layer_idx else some (after_layer s layer_idx)
