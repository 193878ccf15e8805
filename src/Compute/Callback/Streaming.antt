-- ===== src/Compute/Callback/Streaming.antt =====
-- src/compute/nvme_backend.rs: the callback in the modes that stream experts, or the feed-forward
-- tensors of a dense model.
use package.hypura.Prelude.{
  ℕ, ◌+◌, Bool, true, false, not, ◌&&◌, ◌||◌, Option, none, some, List, [], ◌∷◌, if◌then◌else◌, ltb,
}
use package.hypura.Prelude.Keys.{nat_eq, contains}
use package.hypura.Prelude.Dict.{lookup}
use package.hypura.Cache.Coactivation.{predict_next_layer, has_data}
use package.hypura.Compute.Pool.{release_layer as release_slots, range_from}
use package.hypura.Compute.Prefetch.{LayerStatus, not_loaded, loading, loaded, status_of}
use package.hypura.Compute.Prefetch.State.{PrefetchState, has_key}
use package.hypura.Compute.Prefetch.Load.{ensure_layer_loaded, with_status}
use package.hypura.Compute.Prefetch.Experts.{ensure_experts_loaded}
use package.hypura.Compute.Prefetch.Dense.{
  ensure_dense_ffn_loaded, prefetch_dense_ffn, rewrite_resident_ffn_ptrs,
}
use package.hypura.Compute.Callback.Default.{speculate}

-- The experts that are predicted before the router has spoken.
unfoldable pub cold_prediction : PrefetchState → ℕ → List ℕ
unfolding predict_next_layer
cold_prediction s layer_idx =
    if has_data s.co_activation
    then predict_next_layer s.co_activation layer_idx [] s.num_experts_used
    else []

-- Without a prediction the whole layer is loaded.
unfoldable pub load_cold : PrefetchState → ℕ → List ℕ → Option PrefetchState
unfolding ensure_layer_loaded ensure_experts_loaded
load_cold s layer_idx [] = ensure_layer_loaded s layer_idx
load_cold s layer_idx (eid ∷ ids) = ensure_experts_loaded s layer_idx (eid ∷ ids)

unfoldable pub before_experts : PrefetchState → ℕ → Option PrefetchState
unfolding ensure_experts_loaded load_cold cold_prediction
before_experts s layer_idx = elim (lookup layer_idx s.expert_layouts) [
  | none ↦ some s
  | some layouts ↦ elim (lookup layer_idx s.selected_experts) [
    | none ↦ load_cold s layer_idx (cold_prediction s layer_idx)
    | some expert_ids ↦ ensure_experts_loaded s layer_idx expert_ids
  ]
]

-- The layer before counts as not loaded, so that the next token loads its experts again.
unfoldable pub reset_previous : PrefetchState → Option ℕ → ℕ → PrefetchState
reset_previous s none layer_idx = s
reset_previous s (some prev_layer) layer_idx =
    if has_key layer_idx s.expert_layouts && ltb prev_layer layer_idx
    then with_status s prev_layer not_loaded
    else s

unfoldable pub after_experts : PrefetchState → ℕ → PrefetchState
unfolding speculate reset_previous
after_experts s layer_idx =
    let s' =
      speculate (λ target. ltb target s.num_layers && has_key target s.expert_layouts)
        (record s { current_layer = some layer_idx }) layer_idx in
    reset_previous s' s.current_layer layer_idx

unfoldable pub eval_callback_expert_streaming : PrefetchState → ℕ → Bool → Option PrefetchState
unfolding before_experts after_experts
eval_callback_expert_streaming s layer_idx ask =
    if ask then before_experts s layer_idx else some (after_experts s layer_idx)

-- The slots and the status of the streaming layer before.
unfoldable pub release_dense : PrefetchState → Option ℕ → ℕ → PrefetchState
unfolding release_slots
release_dense s none layer_idx = s
release_dense s (some prev_layer) layer_idx =
    if ltb prev_layer layer_idx
      && not (contains prev_layer s.resident_ffn_layers)
      && has_key prev_layer s.dense_ffn_layouts
    then with_status
        (record s {
          expert_pool = elim s.expert_pool [
            | none ↦ none
            | some p ↦ some (release_slots p prev_layer)
          ];
        })
        prev_layer not_loaded
    else s

abbrev pub on_its_way : Option LayerStatus → Bool
on_its_way none = false
on_its_way (some not_loaded) = false
on_its_way (some loading) = true
on_its_way (some loaded) = true

-- The streaming layers among some that are neither loaded nor loading; the first layer beyond the
-- model ends the loop.
unfoldable pub to_prefetch : PrefetchState → List ℕ → List ℕ
to_prefetch s [] = []
to_prefetch s (target ∷ targets) =
    let rest = to_prefetch s targets in
    if not (ltb target s.num_layers)
    then []
    else if contains target s.resident_ffn_layers
        || not (has_key target s.dense_ffn_layouts)
        || on_its_way (status_of s.io target)
    then rest
    else target ∷ rest

unfoldable pub prefetch_dense_each : PrefetchState → List ℕ → Option PrefetchState
unfolding prefetch_dense_ffn
prefetch_dense_each s [] = some s
prefetch_dense_each s (l ∷ ls) = elim (prefetch_dense_ffn s l) [
  | none ↦ none
  | some s' ↦ prefetch_dense_each s' ls
]

unfoldable pub after_dense : PrefetchState → ℕ → Option PrefetchState
unfolding release_dense to_prefetch prefetch_dense_each
after_dense s layer_idx =
    let s' =
      release_dense (record s { current_layer = some layer_idx }) s.current_layer layer_idx in
    prefetch_dense_each s' (to_prefetch s' (range_from (layer_idx + 1) s.dense_ffn_lookahead))

unfoldable pub before_dense : PrefetchState → ℕ → Option PrefetchState
unfolding rewrite_resident_ffn_ptrs ensure_dense_ffn_loaded
before_dense s layer_idx =
    if contains layer_idx s.resident_ffn_layers
    then some (rewrite_resident_ffn_ptrs s layer_idx)
    else if has_key layer_idx s.dense_ffn_layouts
    then ensure_dense_ffn_loaded s layer_idx
    else some s

unfoldable pub eval_callback_dense_ffn_streaming : PrefetchState → ℕ → Bool → Option PrefetchState
unfolding before_dense after_dense
eval_callback_dense_ffn_streaming s layer_idx ask =
    if ask then before_dense s layer_idx else after_dense s layer_idx
