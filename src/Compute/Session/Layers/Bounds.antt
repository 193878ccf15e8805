-- ===== src/Compute/Session/Layers/Bounds.antt =====
-- Layers on the GPU end before the first layer on NVMe.
use package.hypura.Prelude.{
  ℕ, zero, suc, ◌+◌, ◌≤◌, min, true, false, Option, none, some, List, [], ◌∷◌, get_elem?, ◌≡◌,
  arith, inl, inr, ◌≢◌, Bool-cases, Option-cases,
}
use package.hypura.Prelude.Keys.{nat_eq}
use package.hypura.Prelude.Dict.{lookup}
use package.hypura.Prelude.Text.{text_eq}
use package.hypura.Model.Gguf.{GgufFile, TensorInfo}
use package.hypura.Scheduler.Types.{InferenceMode, sparse_moe_mmap}
use package.hypura.Compute.Session.Layers.{
  Tiers, Scan, scan, scan_tensor, is_streamed, is_nvme_tier, capped_layers,
  gpu_layers_from_placement,
}

-- A first layer on NVMe is known, and it is at most this one.
abbrev AtMost : Option ℕ → ℕ → Type 0
AtMost o l = (m : ℕ) × (o ≡ some m) × (m ≤ l)

scan_tensor-AtMost :
    (mode : InferenceMode) (tiers : Tiers) (t : TensorInfo) (k l : ℕ) (x : Scan)
    → AtMost x.first_nvme_layer l
    → AtMost (scan_tensor mode tiers t k x).first_nvme_layer l
unfolding scan_tensor
scan_tensor-AtMost mode tiers t k l x (m, e, h) = elim (Bool-cases (is_streamed mode t)) [
  | inl s ↦ (m, ground (arith, s, e), h)
  | inr s ↦ elim (Bool-cases (is_nvme_tier (lookup t.name tiers))) [
    | inl n ↦ (min m k, ground (arith, s, n, e), omega (arith, h))
    | inr n ↦ (m, ground (arith, s, n, e), h)
  ]
]

scan-layer :
    (mode : InferenceMode) (tiers : Tiers) (t : TensorInfo) (ts : List TensorInfo) (k : ℕ)
    (x : Scan)
    → t.layer_index ≡ some k
    → scan mode tiers (t ∷ ts) x ≡ scan mode tiers ts (scan_tensor mode tiers t k x)
unfolding scan
scan-layer mode tiers t ts k x e = ground (arith, e)

scan-none :
    (mode : InferenceMode) (tiers : Tiers) (t : TensorInfo) (ts : List TensorInfo) (x : Scan)
    → t.layer_index ≡ none
    → scan mode tiers (t ∷ ts) x ≡ scan mode tiers ts x
unfolding scan
scan-none mode tiers t ts x e = ground (arith, e)

scan-AtMost :
    (mode : InferenceMode) (tiers : Tiers) (ts : List TensorInfo) (l : ℕ) (x : Scan)
    → AtMost x.first_nvme_layer l
    → AtMost (scan mode tiers ts x).first_nvme_layer l
unfolding scan
scan-AtMost mode tiers [] l x h = h
scan-AtMost mode tiers (t ∷ ts) l x h = elim (Option-cases t.layer_index) [
  | inl e ↦ rw (scan-none mode tiers t ts x e) (scan-AtMost mode tiers ts l x h)
  | inr (k, e) ↦ rw (scan-layer mode tiers t ts k x e) (
      scan-AtMost mode tiers ts l (scan_tensor mode tiers t k x)
        (scan_tensor-AtMost mode tiers t k l x h))
]

scan_tensor_nvme :
    (mode : InferenceMode) (tiers : Tiers) (t : TensorInfo) (l : ℕ) (x : Scan)
    → is_streamed mode t ≡ false
    → is_nvme_tier (lookup t.name tiers) ≡ true
    → AtMost (scan_tensor mode tiers t l x).first_nvme_layer l
unfolding scan_tensor
scan_tensor_nvme mode tiers t l x s n = elim (Option-cases x.first_nvme_layer) [
  | inl e ↦ (l, ground (arith, s, n, e), omega arith)
  | inr (m, e) ↦ (min m l, ground (arith, s, n, e), omega arith)
]

scan_nvme :
    (mode : InferenceMode) (tiers : Tiers) (ts : List TensorInfo) (i l : ℕ) (t : TensorInfo)
    (x : Scan)
    → get_elem? ts i ≡ some t
    → t.layer_index ≡ some l
    → is_streamed mode t ≡ false
    → is_nvme_tier (lookup t.name tiers) ≡ true
    → AtMost (scan mode tiers ts x).first_nvme_layer l
scan_nvme mode tiers [] i l t x at e s n = cc
scan_nvme mode tiers (u ∷ ts) zero l t x at e s n =
    let same : u ≡ t = cc in
    rw (same, scan-layer mode tiers t ts l x e)
      (scan-AtMost mode tiers ts l (scan_tensor mode tiers t l x)
        (scan_tensor_nvme mode tiers t l x s n))
scan_nvme mode tiers (u ∷ ts) (suc i) l t x at e s n = elim (Option-cases u.layer_index) [
  | inl none_there ↦
      rw (scan-none mode tiers u ts x none_there) (scan_nvme mode tiers ts i l t x at e s n)
  | inr (k, there) ↦
      rw (scan-layer mode tiers u ts k x there)
        (scan_nvme mode tiers ts i l t (scan_tensor mode tiers u k x) at e s n)
]

-- With a tensor on NVMe that the mode does not stream, at most the layers before the tensor's layer
-- are put on the GPU, besides the one that llama.cpp counts for the output; this is not said of the
-- sparse mode, where llama.cpp maps the file.
pub gpu_layers_from_placement-le :
    (mode : InferenceMode) (tiers : Tiers) (gguf : GgufFile) (budget i l : ℕ) (t : TensorInfo)
    → mode ≢ sparse_moe_mmap
    → get_elem? gguf.tensors i ≡ some t
    → t.layer_index ≡ some l
    → is_streamed mode t ≡ false
    → is_nvme_tier (lookup t.name tiers) ≡ true
    → gpu_layers_from_placement mode tiers gguf budget ≤ l + 1
unfolding gpu_layers_from_placement capped_layers
gpu_layers_from_placement-le mode tiers gguf budget i l t ne at e s n =
    let (m, first, le) =
      scan_nvme mode tiers gguf.tensors i l t
        (record { max_layer = none; first_nvme_layer = none; layer_sizes = [] }) at e s n in
    ground (arith, first, le, ne)
