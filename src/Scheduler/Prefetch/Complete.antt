-- ===== src/Scheduler/Prefetch/Complete.antt =====
-- The schedule reads what is on the drive, and nothing else.
use hypura.Prelude.{
  ℕ, zero, suc, ◌<◌, false, Option, none, some, List, [], ◌∷◌, ◌++◌, map, if◌then◌else◌, ◌==◌,
  length, get_or, replicate, length-replicate, length-set, get_or-set_self, get_or-set_ne, ◌≡◌,
  refl, sym, ◌∙◌, ap, inl, inr, arith, Bool-cases,
}
use mathlib.Core.List.{append_assoc, append-nil}
use hypura.Prelude.Keys.{retain}
use hypura.Prelude.Text.{Text}
use hypura.Prelude.Float.{F64}
use hypura.Model.Gguf.{TensorInfo}
use hypura.Scheduler.Placement.{Assignments, HardwareProfile, ModelMetadata, map_or}
use hypura.Scheduler.Prefetch.{
  PrefetchOp, on_nvme, push_at, group_layers, in_layer, layer_ops, all_ops, compute_time,
  build_prefetch_schedule,
}

length-push_at :
    (o : Option ℕ) (t : TensorInfo) (layers : List (List TensorInfo))
    → length (push_at o t layers) ≡ length layers
length-push_at none t layers = refl
length-push_at (some l) t layers =
    ground (arith, length-set layers l (get_or layers l [] ++ (t ∷ [])))

-- A layer after a push is what it was, with the tensor at its end when it is of that layer.
get_or-push_at :
    (o : Option ℕ) (t : TensorInfo) (layers : List (List TensorInfo)) (l : ℕ)
    → l < length layers
    → get_or (push_at o t layers) l [] ≡ (
        if map_or false (λ k. k == l) o then get_or layers l [] ++ (t ∷ []) else get_or layers l [])
get_or-push_at none t layers l h = refl
get_or-push_at (some k) t layers l h = ground (
  arith,
  get_or-set_self layers l (get_or layers l [] ++ (t ∷ [])) [],
  get_or-set_ne layers k l (get_or layers k [] ++ (t ∷ [])) [],
)

pub length-group_layers :
    (ts : List TensorInfo) (layers : List (List TensorInfo))
    → length (group_layers ts layers) ≡ length layers
unfolding group_layers
length-group_layers [] layers = refl
length-group_layers (t ∷ ts) layers =
    length-group_layers ts (push_at t.layer_index t layers) ∙ length-push_at t.layer_index t layers

-- Grouping keeps the order of the tensors in each layer.
pub group_layers_lem :
    (ts : List TensorInfo) (layers : List (List TensorInfo)) (l : ℕ)
    → l < length layers
    → get_or (group_layers ts layers) l [] ≡ get_or layers l [] ++ retain (in_layer l) ts
unfolding group_layers
group_layers_lem [] layers l h = sym (append-nil (get_or layers l []))
group_layers_lem (t ∷ ts) layers l h =
    let next = push_at t.layer_index t layers in
    let rest = group_layers_lem ts next l (omega (arith, length-push_at t.layer_index t layers)) in
    let here = get_or-push_at t.layer_index t layers l h in
    elim (Bool-cases (in_layer l t)) [
      | inl this ↦
          let grown : get_or next l [] ≡ get_or layers l [] ++ (t ∷ []) = rw this at here in
          rw this (
            rest
            ∙ ap (λ ys. ys ++ retain (in_layer l) ts) grown
            ∙ append_assoc (get_or layers l []) (t ∷ []) (retain (in_layer l) ts))
      | inr other ↦
          let same : get_or next l [] ≡ get_or layers l [] = rw other at here in
          rw other (rest ∙ ap (λ ys. ys ++ retain (in_layer l) ts) same)
    ]

-- What an operation is to read.
abbrev pub read_of : PrefetchOp → Text × ℕ
read_of op = (op.tensor_name, op.size_bytes)

abbrev pub entry_of : TensorInfo → Text × ℕ
entry_of t = (t.name, t.size_bytes)

module _ (F : F64) where
  read_of-layer_ops :
      (hw : HardwareProfile) (a : Assignments) (prev : Option F.Num) (ts : List TensorInfo)
      → map read_of (layer_ops F hw a prev ts) ≡ map entry_of (retain (on_nvme a) ts)
  unfolding layer_ops
  read_of-layer_ops hw a prev [] = refl
  read_of-layer_ops hw a prev (t ∷ ts) = elim (Bool-cases (on_nvme a t)) [
    | inl out ↦ rw out (ap (λ r. entry_of t ∷ r) (read_of-layer_ops hw a prev ts))
    | inr kept ↦ rw kept (read_of-layer_ops hw a prev ts)
  ]

  read_of-all_ops :
      (hw : HardwareProfile) (a : Assignments) (prev : Option F.Num)
      (layers : List (List TensorInfo)) (l : ℕ)
      → map read_of (get_or (all_ops F hw a prev layers) l [])
        ≡ map entry_of (retain (on_nvme a) (get_or layers l []))
  unfolding all_ops
  read_of-all_ops hw a prev [] l = refl
  read_of-all_ops hw a prev (layer ∷ layers) zero = read_of-layer_ops hw a prev layer
  read_of-all_ops hw a prev (layer ∷ layers) (suc l) =
      read_of-all_ops hw a (some (compute_time F hw a layer)) layers l

  -- The operations of a layer of the model read exactly the tensors of that layer that are on the
  -- drive or not assigned, in the order of the file, with their sizes.
  pub build_prefetch_schedule-reads :
      (a : Assignments) (tensors : List TensorInfo) (m : ModelMetadata) (hw : HardwareProfile)
      (l : ℕ)
      → l < m.num_layers
      → map read_of (get_or (build_prefetch_schedule F a tensors m hw) l [])
        ≡ map entry_of (retain (on_nvme a) (retain (in_layer l) tensors))
  unfolding build_prefetch_schedule
  build_prefetch_schedule-reads a tensors m hw l h =
      let empty : List (List TensorInfo) = replicate m.num_layers [] in
      let some_layers : (m.num_layers == 0) ≡ false = ground arith in
      rw some_layers (
        read_of-all_ops hw a none (group_layers tensors empty) l
        ∙ ap (λ ts. map entry_of (retain (on_nvme a) ts))
            (group_layers_lem tensors empty l
                (omega (arith, h, length-replicate {A = List TensorInfo} m.num_layers []))
              ∙ ap (λ ys. ys ++ retain (in_layer l) tensors) (get_or-replicate m.num_layers l)))
    where
      get_or-replicate : (n i : ℕ) → get_or (replicate {A = List TensorInfo} n []) i [] ≡ []
      get_or-replicate zero i = refl
      get_or-replicate (suc n) zero = refl
      get_or-replicate (suc n) (suc i) = get_or-replicate n i
