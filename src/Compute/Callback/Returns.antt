-- ===== src/Compute/Callback/Returns.antt =====
-- The callback returns: no call of it waits forever when the buffer is known and the pool runs.
use package.hypura.Prelude.{
  ℕ, ◌+◌, ◌-◌, Bool, true, false, not, ◌&&◌, Option, none, some, List, [], ◌∷◌, if◌then◌else◌, ltb,
  ◌≡◌, refl, ◌∙◌, arith, ◌⊎◌, inl, inr, Bool-cases, Option-cases,
}
use package.hypura.Prelude.Keys.{nat_eq, contains}
use package.hypura.Prelude.Dict.{lookup}
use package.hypura.Prelude.Text.{Text}
use package.hypura.Prelude.Float.{F64}
use package.hypura.Io.Layout.{ExpertLayout}
use package.hypura.Compute.Pool.{range_from}
use package.hypura.Compute.Prefetch.{layer, expert_slices}
use package.hypura.Compute.Prefetch.State.{PrefetchState, has_key}
use package.hypura.Compute.Prefetch.Load.{release_layer, request_prefetch}
use package.hypura.Compute.Prefetch.Progress.{
  Ready, ensure_layer_loaded-loaded, request_prefetch-Ready, release_layer-Ready,
}
use package.hypura.Compute.Callback.{
  GgmlTensor, eval_callback, eval_named, dispatch, is_router, node_layer,
}
use package.hypura.Compute.Callback.Names.{parse_layer_from_graph_name}
use package.hypura.Compute.Callback.Router.{RouterTensor, intercept_router_output, select, read_ids}
use package.hypura.Compute.Callback.Default.{
  record_selection, prefetch_experts, request_first, speculate, request_nvme, adaptive_lookahead,
  stream_on, after_layer, is_nvme_moe, eval_callback_layer,
}

request_first-Ready :
    (wanted : ℕ → Bool) (s : PrefetchState) (ids ls : List ℕ) (base : ℕ)
    → Ready s base
    → Ready (request_first wanted s ids ls) base
unfolding request_first
request_first-Ready wanted s ids [] base h = h
request_first-Ready wanted s ids (l ∷ ls) base h = elim (Bool-cases (wanted l)) [
  | inl e ↦ rw e (request_prefetch-Ready s (expert_slices l ids) base h)
  | inr e ↦ rw e (request_first-Ready wanted s ids ls base h)
]

request_nvme-Ready :
    (s : PrefetchState) (ls : List ℕ) (base : ℕ) → Ready s base → Ready (request_nvme s ls) base
unfolding request_nvme
request_nvme-Ready s [] base h = h
request_nvme-Ready s (l ∷ ls) base h =
    elim (Bool-cases (ltb l s.num_layers && contains l s.nvme_layers)) [
      | inl e ↦ rw e (
          request_nvme-Ready (request_prefetch s (layer l)) ls base
            (request_prefetch-Ready s (layer l) base h))
      | inr e ↦ rw e (request_nvme-Ready s ls base h)
    ]

record_selection-Ready :
    (s : PrefetchState) (l base : ℕ) (experts : List ℕ)
    → Ready s base
    → Ready (record_selection s l experts) base
unfolding record_selection
record_selection-Ready s l base experts h = h

speculate-Ready :
    (wanted : ℕ → Bool) (s : PrefetchState) (l base : ℕ)
    → Ready s base
    → Ready (speculate wanted s l) base
unfolding speculate
speculate-Ready wanted s l base h = elim (Option-cases (lookup l s.expert_layouts)) [
  | inl e ↦ rw (alone (inl e)) h
  | inr (xs, e) ↦ elim (Option-cases (lookup l s.selected_experts)) [
    | inl e' ↦ rw (alone (inr e')) h
    | inr (ids, e') ↦ rw (chosen xs ids e e') (
        request_first-Ready wanted (record_selection s l ids) _ (range_from (l + 1) 3) base
          (record_selection-Ready s l base ids h))
  ]
]
  where
    alone :
        (lookup l s.expert_layouts ≡ none) ⊎ (lookup l s.selected_experts ≡ none)
        → speculate wanted s l ≡ s
    alone e = ground (arith, e)

    chosen :
        (xs : List ExpertLayout) (ids : List ℕ)
        → lookup l s.expert_layouts ≡ some xs
        → lookup l s.selected_experts ≡ some ids
        → speculate wanted s l
          ≡ request_first wanted
              (record_selection s l ids)
              (prefetch_experts (record_selection s l ids) l ids)
              (range_from (l + 1) 3)
    chosen xs ids e e' = ground (arith, e, e')

module _ (F : F64) where
  stream_on-Ready :
      (s : PrefetchState) (prev l base : ℕ) → Ready s base → Ready (stream_on F s prev l) base
  unfolding stream_on
  stream_on-Ready s prev l base h = speculate-Ready (is_nvme_moe asked) asked l base (
      request_nvme-Ready freed (range_from (l + 2) (adaptive_lookahead F freed - 1)) base
        (freed-Ready (Bool-cases (contains prev s.nvme_layers))))
    where
      freed : PrefetchState
      freed = if contains prev s.nvme_layers then release_layer s prev else s

      asked : PrefetchState
      asked = request_nvme freed (range_from (l + 2) (adaptive_lookahead F freed - 1))

      freed-Ready :
          (contains prev s.nvme_layers ≡ true) ⊎ (contains prev s.nvme_layers ≡ false)
          → Ready freed base
      freed-Ready (inl e) = rw e (release_layer-Ready s prev base h)
      freed-Ready (inr e) = rw e h

  after_layer-Ready :
      (s : PrefetchState) (l base : ℕ) → Ready s base → Ready (after_layer F s l) base
  unfolding after_layer
  after_layer-Ready s l base h = elim (Option-cases s.current_layer) [
    | inl e ↦ rw (unmoved (inl e)) h
    | inr (prev, e) ↦ elim (Bool-cases (ltb prev l && not s.keep_nvme_resident)) [
      | inl e' ↦
          rw (moved prev e e') (stream_on-Ready (record s { current_layer = some l }) prev l base h)
      | inr e' ↦ rw (unmoved (inr (prev, (e, e')))) h
    ]
  ]
    where
      unmoved :
          (s.current_layer ≡ none)
            ⊎ ((prev : ℕ) × ((s.current_layer ≡ some prev)
                  × ((ltb prev l && not s.keep_nvme_resident) ≡ false)))
          → after_layer F s l ≡ record s { current_layer = some l }
      unmoved (inl e) = ground (arith, e)
      unmoved (inr (prev, (e, e'))) = ground (arith, e, e')

      moved :
          (prev : ℕ)
          → s.current_layer ≡ some prev
          → (ltb prev l && not s.keep_nvme_resident) ≡ true
          → after_layer F s l ≡ stream_on F (record s { current_layer = some l }) prev l
      moved prev e e' = ground (arith, e, e')

  -- Before and after a node of a layer in the default mode, the callback returns.
  pub eval_callback_layer-Ready :
      (s : PrefetchState) (l base : ℕ) (ask : Bool)
      → Ready s base
      → (s' : PrefetchState) × (eval_callback_layer F s l ask ≡ some s') × Ready s' base
  unfolding eval_callback_layer
  eval_callback_layer-Ready s l base true h =
      let (s', runs, ready, st) = ensure_layer_loaded-loaded s l base h.0 h.1 in (s', runs, ready)
  eval_callback_layer-Ready s l base false h =
      (after_layer F s l, refl, after_layer-Ready s l base h)

select_io :
    (s : PrefetchState) (l : ℕ) (ids : List ℕ)
    → ((select s l ids).io ≡ s.io) × ((select s l ids).buffer_base ≡ s.buffer_base)
unfolding select
select_io s l [] = (refl, refl)
select_io s l (id ∷ ids) = (refl, refl)

intercept_router_output_io :
    (s : PrefetchState) (t : RouterTensor) (l : ℕ)
    → ((intercept_router_output s t l).io ≡ s.io)
      × ((intercept_router_output s t l).buffer_base ≡ s.buffer_base)
unfolding intercept_router_output read_ids
intercept_router_output_io s t l = elim (Option-cases t.at_place) [
  | inl e ↦ (ground (arith, e), ground (arith, e))
  | inr (f, e) ↦
      let (same_io, same_base) = select_io s l (read_ids s t f) in
      (ground (arith, e, same_io), ground (arith, e, same_base))
]

intercept_router_output-Ready :
    (s : PrefetchState) (t : RouterTensor) (l base : ℕ)
    → Ready s base
    → Ready (intercept_router_output s t l) base
intercept_router_output-Ready s t l base (e, inv) =
    let (same_io, same_base) = intercept_router_output_io s t l in (same_base ∙ e, rw same_io inv)

-- A call returned, with the buffer known and the counters right.
abbrev pub Returns : Option PrefetchState → ℕ → Type 0
Returns o base = (s' : PrefetchState) × (o ≡ some s') × Ready s' base

module _ (F : F64) (s : PrefetchState) (base : ℕ) (no_experts : s.expert_streaming ≡ false)
    (no_dense : s.dense_ffn_streaming ≡ false) (ready : Ready s base) where
  dispatch-Returns : (l : ℕ) (ask : Bool) → Returns (dispatch F s l ask) base
  unfolding dispatch
  dispatch-Returns l ask =
      let (s', runs, ready') = eval_callback_layer-Ready F s l base ask ready in
      (s', ground (arith, no_experts, no_dense, runs), ready')

  routed :
      (name : Text) (t : RouterTensor) (ask : Bool)
      → is_router name ask ≡ true
      → Returns (eval_named F s name t ask) base
  unfolding eval_named
  routed name t ask e = elim (Option-cases (parse_layer_from_graph_name name)) [
    | inl e' ↦ (s, ground (arith, e, e'), ready)
    | inr (l, e') ↦ (
      intercept_router_output s t l,
      ground (arith, e, e'),
      intercept_router_output-Ready s t l base ready,
    )
  ]

  visited :
      (name : Text) (t : RouterTensor) (ask : Bool)
      → is_router name ask ≡ false
      → Returns (eval_named F s name t ask) base
  unfolding eval_named
  visited name t ask e = elim (Option-cases (node_layer name)) [
    | inl e' ↦ (s, ground (arith, e, e'), ready)
    | inr (l, e') ↦ elim (Bool-cases (has_key l s.layer_regions)) [
      | inl known ↦
          let (s', runs, ready') = dispatch-Returns l ask in
          (s', ground (arith, e, e', known, runs), ready')
      | inr unknown ↦ (s, ground (arith, e, e', unknown), ready)
    ]
  ]

  -- In the default mode, when the buffer is known and the pool runs, the callback returns at every
  -- node of the graph, before and after it.
  pub eval_callback-Returns :
      (t : Option GgmlTensor) (ask : Bool) → Returns (eval_callback F t ask s) base
  unfolding eval_callback
  eval_callback-Returns none ask = (s, refl, ready)
  eval_callback-Returns (some t) ask = elim (Bool-cases s.prefetch_enabled) [
    | inr off ↦ (s, ground (arith, off), ready)
    | inl on ↦ elim (Option-cases t.name) [
      | inl e ↦ (s, ground (arith, on, e), ready)
      | inr (name, e) ↦ elim (Bool-cases (is_router name ask)) [
        | inl r ↦
            let (s', runs, ready') = routed name t.router ask r in
            (s', ground (arith, on, e, runs), ready')
        | inr r ↦
            let (s', runs, ready') = visited name t.router ask r in
            (s', ground (arith, on, e, runs), ready')
      ]
    ]
  ]
