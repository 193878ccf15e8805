-- ===== src/Compute/Session/Layers.antt =====
-- src/compute/inference.rs, `gpu_layers_from_placement`: how many layers llama.cpp puts on the GPU.
-- Layer numbers are below 2^31, so that the program's casts to i32 keep them; -1 is `none`.
pub mod Bounds
use package.hypura.Prelude.{
  ℕ, zero, suc, ◌+◌, ◌≤◌, min, max, Bool, true, false, not, ◌&&◌, ◌||◌, Option, none, some, List,
  [], ◌∷◌, if◌then◌else◌, ltb, leb, ◌≡◌, refl, arith, inl, inr, Bool-cases, Option-cases,
}
use package.hypura.Prelude.Keys.{◌==◌, nat_eq, retain}
use package.hypura.Prelude.Dict.{Dict, lookup}
use package.hypura.Prelude.Machine.{u64, u64_total}
use package.hypura.Prelude.Sort.{sort}
use package.hypura.Prelude.Text.{Text, text_eq}
use package.hypura.Model.Role.{from_name}
use package.hypura.Model.Gguf.{GgufFile, TensorInfo, total_tensor_bytes}
use package.hypura.Scheduler.Types.{
  StorageTier, nvme, InferenceMode, expert_streaming, dense_ffn_streaming, sparse_moe_mmap,
}
use package.hypura.Compute.Controller.{is_dense_ffn, is_fused_role}

abbrev pub Tiers : Type 0
Tiers = Dict Text StorageTier

-- The larger of a number and what was seen.
abbrev pub max_seen : Option ℕ → ℕ → Option ℕ
max_seen none l = some l
max_seen (some m) l = some (max m l)

abbrev pub min_seen : Option ℕ → ℕ → Option ℕ
min_seen none l = some l
min_seen (some m) l = some (min m l)

-- A tensor that the mode streams: it counts for neither cap.
unfoldable pub is_streamed : InferenceMode → TensorInfo → Bool
unfolding from_name
is_streamed expert_streaming t = is_fused_role (from_name t.name)
is_streamed dense_ffn_streaming t = is_dense_ffn (from_name t.name)
is_streamed _ t = false

-- `*entry(layer).or_default() += size`
abbrev pub add_size : ℕ → ℕ → Dict ℕ ℕ → Dict ℕ ℕ
add_size l n [] = (l, n) ∷ []
add_size l n ((j, k) ∷ m) = if j == l then (j, u64 (k + n)) ∷ m else (j, k) ∷ add_size l n m

-- What the loop over the tensors finds.
pub record Scan : Type 0 where
  pub max_layer : Option ℕ
  pub first_nvme_layer : Option ℕ
  pub layer_sizes : Dict ℕ ℕ

abbrev pub is_nvme_tier : Option StorageTier → Bool
is_nvme_tier (some nvme) = true
is_nvme_tier _ = false

-- A round of the loop, for a tensor of layer `l`.
unfoldable pub scan_tensor : InferenceMode → Tiers → TensorInfo → ℕ → Scan → Scan
unfolding is_streamed
scan_tensor mode tiers t l x =
    let seen = record x { max_layer = max_seen x.max_layer l } in
    if is_streamed mode t then seen else record seen {
      layer_sizes = add_size l t.size_bytes x.layer_sizes;
      first_nvme_layer =
          if is_nvme_tier (lookup t.name tiers)
          then min_seen x.first_nvme_layer l
          else x.first_nvme_layer;
    }

unfoldable pub scan : InferenceMode → Tiers → List TensorInfo → Scan → Scan
unfolding scan_tensor
scan mode tiers [] x = x
scan mode tiers (t ∷ ts) x =
    scan mode tiers ts (elim t.layer_index [ none ↦ x | some l ↦ scan_tensor mode tiers t l x ])

-- The layers in order, until the budget is spent.
unfoldable pub fitting : ℕ → ℕ → ℕ → List (ℕ × ℕ) → ℕ
fitting budget cumulative max_fitting [] = max_fitting
fitting budget cumulative max_fitting ((l, size) ∷ layers) =
    let total = u64 (cumulative + size) in
    let rest = fitting budget total (l + 1) layers in if leb total budget then rest else max_fitting

abbrev pub lower_layer : ℕ × ℕ → ℕ × ℕ → Bool
lower_layer a b = ltb a.0 b.0

abbrev pub has_no_layer : Option ℕ → Bool
has_no_layer none = true
has_no_layer (some l) = false

unfoldable pub non_layer_bytes : GgufFile → ℕ
unfolding u64_total
non_layer_bytes gguf =
    u64_total (λ (t : TensorInfo). t.size_bytes)
      (retain (λ (t : TensorInfo). has_no_layer t.layer_index) gguf.tensors)

-- `map_or`, with the layer after a given one.
abbrev pub after : ℕ → Option ℕ → ℕ
after d none = d
after d (some l) = l + 1

unfoldable pub capped_layers : InferenceMode → Tiers → GgufFile → ℕ → ℕ
unfolding scan fitting non_layer_bytes sort
capped_layers mode tiers gguf budget =
    let x =
      scan mode tiers gguf.tensors
        (record { max_layer = none; first_nvme_layer = none; layer_sizes = [] }) in
    elim x.max_layer [
      | none ↦ 0
      | some max_layer ↦
          min (after (max_layer + 2) x.first_nvme_layer)
            (fitting budget (non_layer_bytes gguf) 0 (sort lower_layer x.layer_sizes) + 1)
    ]

unfoldable pub max_layer_of : List TensorInfo → Option ℕ
max_layer_of [] = none
max_layer_of (t ∷ ts) = elim t.layer_index [
  | none ↦ max_layer_of ts
  | some l ↦ max_seen (max_layer_of ts) l
]

abbrev pub or_zero : Option ℕ → ℕ
or_zero none = 0
or_zero (some n) = n

unfoldable pub gpu_layers_from_placement : InferenceMode → Tiers → GgufFile → ℕ → ℕ
unfolding capped_layers total_tensor_bytes max_layer_of
gpu_layers_from_placement sparse_moe_mmap tiers gguf budget =
    if leb (total_tensor_bytes gguf) budget then or_zero (max_layer_of gguf.tensors) + 2 else 0
gpu_layers_from_placement mode tiers gguf budget = capped_layers mode tiers gguf budget
