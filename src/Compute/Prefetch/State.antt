-- ===== src/Compute/Prefetch/State.antt =====
-- src/compute/nvme_backend.rs, `PrefetchState`: what the evaluation callback and the session share.
-- `tensor_data` holds the `data` pointers of the tensors in `fused_tensor_ptrs`, by the tensor's name;
-- a tensor without an entry there has no pointer. An operation that panics or waits forever gives
-- `none`.
use package.hypura.Prelude.{ℕ, ◌+◌, Bool, true, false, Option, none, some, List, [], ◌∷◌}
use package.hypura.Prelude.Keys.{nat_eq}
use package.hypura.Prelude.Dict.{Dict, lookup, insert}
use package.hypura.Prelude.Text.{Text, text_eq}
use package.hypura.Cache.Neuron.{NeuronCache}
use package.hypura.Cache.Coactivation.{CoActivationMatrix}
use package.hypura.Io.Layout.{ExpertLayout}
use package.hypura.Compute.Pool.{ExpertPool}
use package.hypura.Compute.Prefetch.{Region, IoState, TraceEvent, record_event}

pub record DenseFfnLayout : Type 0 where
  pub tensor_name : Text
  pub layer_index : ℕ
  pub file_offset : ℕ
  pub size : ℕ

-- `none` is a null pointer; `current_layer` is `none` below zero.
pub record PrefetchState : Type 0 where
  pub io : IoState
  pub current_layer : Option ℕ
  pub buffer_base : Option ℕ
  pub layer_regions : Dict ℕ (List Region)
  pub num_layers : ℕ
  pub prefetch_enabled : Bool
  pub nvme_layers : List ℕ
  pub keep_nvme_resident : Bool
  pub sorted_nvme_layers : List ℕ
  pub expert_layouts : Dict ℕ (List ExpertLayout)
  pub non_expert_regions : Dict ℕ (List Region)
  pub selected_experts : Dict ℕ (List ℕ)
  pub num_experts_used : ℕ
  pub num_experts_total : ℕ
  pub neuron_cache : NeuronCache
  pub co_activation : CoActivationMatrix
  pub prev_layer_experts : Option (ℕ × List ℕ)
  pub expert_streaming : Bool
  pub dense_ffn_streaming : Bool
  pub dense_ffn_layouts : Dict ℕ (List DenseFfnLayout)
  pub dense_ffn_lookahead : ℕ
  pub expert_pool : Option ExpertPool
  pub tensor_data : Dict Text ℕ
  pub resident_ffn_layers : List ℕ
  pub resident_ffn_base : Option ℕ
  pub resident_ffn_offsets : Dict Text ℕ

abbrev pub trace_event : PrefetchState → TraceEvent → PrefetchState
trace_event s e = record s { io = record_event s.io e }

abbrev pub regions_of : Option (List Region) → List Region
regions_of none = []
regions_of (some rs) = rs

-- `contains_key`
abbrev pub has_key {ℓ} : {V : Type ℓ} → ℕ → Dict ℕ V → Bool
has_key k m = elim (lookup k m) [ none ↦ false | some v ↦ true ]

-- `(*tensor_ptr).data = ..` for a tensor whose pointer was captured.
abbrev pub rewrite_data : Dict Text ℕ → Text → ℕ → Dict Text ℕ
rewrite_data m tensor_name address = elim (lookup tensor_name m) [
  | none ↦ m
  | some old ↦ insert tensor_name address m
]

-- The loop of a rewrite over the tensors of a layer, which stops where the offsets end.
unfoldable pub rewrite_all : ℕ → List Text → List ℕ → Dict Text ℕ → Dict Text ℕ
rewrite_all pool_base [] offsets m = m
rewrite_all pool_base (n ∷ names) [] m = m
rewrite_all pool_base (n ∷ names) (offset ∷ offsets) m =
    rewrite_all pool_base names offsets (rewrite_data m n (pool_base + offset))

-- The loop of a rewrite that indexes the offsets without a test: a tensor whose pointer was captured
-- and which has no offset is a panic, `none`.
unfoldable pub rewrite_each : ℕ → List Text → List ℕ → Dict Text ℕ → Option (Dict Text ℕ)
rewrite_each pool_base [] offsets m = some m
rewrite_each pool_base (n ∷ names) [] m =
    let rest = rewrite_each pool_base names [] m in
    elim (lookup n m) [ none ↦ rest | some old ↦ none ]
rewrite_each pool_base (n ∷ names) (offset ∷ offsets) m =
    rewrite_each pool_base names offsets (rewrite_data m n (pool_base + offset))
