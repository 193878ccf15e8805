-- ===== src/Compute/Callback.antt =====
-- src/compute/nvme_backend.rs: the callback that ggml calls before and after the nodes of a graph.
-- It answers true in every case, so that only the state is returned; `none` is a call that panics or
-- waits forever.
pub mod Names
pub mod Router
pub mod Default
pub mod Streaming
pub mod Returns
pub mod Cold
use package.hypura.Prelude.{
  ℕ, zero, suc, ◌+◌, ◌*◌, Bool, true, false, not, ◌&&◌, Option, none, some, List, [], ◌∷◌,
  if◌then◌else◌, take, drop,
}
use package.hypura.Prelude.Keys.{◌==◌, nat_eq}
use package.hypura.Prelude.Text.{Text, codes, starts_with, find, parse_u32}
use package.hypura.Prelude.Float.{F64}
use package.hypura.Compute.Prefetch.State.{PrefetchState, has_key}
use package.hypura.Compute.Callback.Names.{parse_layer_from_name, parse_layer_from_graph_name}
use package.hypura.Compute.Callback.Router.{RouterTensor, intercept_router_output}
use package.hypura.Compute.Callback.Default.{eval_callback_layer}
use package.hypura.Compute.Callback.Streaming.{
  eval_callback_expert_streaming, eval_callback_dense_ffn_streaming,
}

-- A tensor: its name, which is `none` when it is no UTF-8, and what the router interception reads.
pub record GgmlTensor : Type 0 where
  pub name : Option Text
  pub router : RouterTensor

abbrev pub first_some : Option ℕ → Option ℕ → Option ℕ
first_some none b = b
first_some (some n) b = some n

-- The layer of a node.
unfoldable pub node_layer : Text → Option ℕ
unfolding parse_layer_from_graph_name parse_layer_from_name
node_layer name = first_some (parse_layer_from_graph_name name) (parse_layer_from_name name)

-- `ffn_moe_argsort-`, after the node ran
abbrev pub is_router : Text → Bool → Bool
unfolding starts_with
is_router name ask = not ask && starts_with name (codes "ffn_moe_argsort-")

module _ (F : F64) where
  -- The call for a layer whose regions are known.
  unfoldable pub dispatch : PrefetchState → ℕ → Bool → Option PrefetchState
  unfolding eval_callback_layer eval_callback_expert_streaming eval_callback_dense_ffn_streaming
  dispatch s layer_idx ask =
      if s.expert_streaming
      then eval_callback_expert_streaming s layer_idx ask
      else if s.dense_ffn_streaming
      then eval_callback_dense_ffn_streaming s layer_idx ask
      else eval_callback_layer F s layer_idx ask

  unfoldable pub eval_named : PrefetchState → Text → RouterTensor → Bool → Option PrefetchState
  unfolding intercept_router_output node_layer dispatch parse_layer_from_graph_name
  eval_named s name t ask =
      if is_router name ask
      then some (elim (parse_layer_from_graph_name name) [
        | none ↦ s
        | some layer_idx ↦ intercept_router_output s t layer_idx
      ])
      else elim (node_layer name) [
        | none ↦ some s
        | some layer_idx ↦
            if has_key layer_idx s.layer_regions then dispatch s layer_idx ask else some s
      ]

  -- `none` for the tensor is a null pointer.
  unfoldable pub eval_callback : Option GgmlTensor → Bool → PrefetchState → Option PrefetchState
  unfolding eval_named
  eval_callback none ask s = some s
  eval_callback (some t) ask s =
      if s.prefetch_enabled
      then elim t.name [ none ↦ some s | some name ↦ eval_named s name t.router ask ]
      else some s
