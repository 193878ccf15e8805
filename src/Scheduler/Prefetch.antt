-- ===== src/Scheduler/Prefetch.antt =====
-- src/scheduler/prefetch.rs: when the reads of the tensors on the drive begin.
mod Complete
mod Tests
use package.hypura.Prelude.{
  ℕ, zero, suc, ◌+◌, ◌-◌, ◌≤◌, ◌<◌, Bool, true, false, not, ◌&&◌, Option, none, some, List, [], ◌∷◌,
  ◌++◌, map, if◌then◌else◌, ltb, ◌==◌, length, get_or, set, replicate,
}
use package.hypura.Prelude.Keys.{retain}
use package.hypura.Prelude.Dict.{lookup}
use package.hypura.Prelude.Text.{Text, text_eq}
use package.hypura.Prelude.Float.{F64}
use package.hypura.Prelude.Machine.{u64_total}
use package.hypura.Model.Gguf.{TensorInfo}
use package.hypura.Scheduler.Types.{StorageTier, gpu, ram, nvme}
use package.hypura.Scheduler.Placement.{
  Assignments, GpuProfile, HardwareProfile, ModelMetadata, map_or, or_else,
}

pub record PrefetchOp : Type 0 where
  pub tensor_name : Text
  pub source_tier : StorageTier
  pub target_tier : StorageTier
  pub size_bytes : ℕ
  pub lead_time_layers : ℕ

abbrev pub is_gpu_tier : StorageTier → Bool
is_gpu_tier gpu = true
is_gpu_tier _ = false

abbrev pub is_nvme_tier : StorageTier → Bool
is_nvme_tier nvme = true
is_nvme_tier _ = false

-- Whether an assignment puts a tensor on the GPU.
abbrev pub on_gpu : Assignments → TensorInfo → Bool
on_gpu a t = map_or false is_gpu_tier (lookup t.name a)

-- A tensor without an assignment counts as on the drive.
abbrev pub on_nvme : Assignments → TensorInfo → Bool
on_nvme a t = is_nvme_tier (or_else (lookup t.name a) nvme)

-- Adds a tensor to the vector of its layer, when there is one.
abbrev pub push_at : Option ℕ → TensorInfo → List (List TensorInfo) → List (List TensorInfo)
push_at none t layers = layers
push_at (some l) t layers =
    if ltb l (length layers) then set layers l (get_or layers l [] ++ (t ∷ [])) else layers

unfoldable pub group_layers : List TensorInfo → List (List TensorInfo) → List (List TensorInfo)
group_layers [] layers = layers
group_layers (t ∷ ts) layers = group_layers ts (push_at t.layer_index t layers)

abbrev pub in_layer : ℕ → TensorInfo → Bool
in_layer l t = map_or false (λ k. k == l) t.layer_index

module _ (F : F64) where
  abbrev pub gpu_bandwidth : HardwareProfile → F.Num
  gpu_bandwidth hw =
      map_or (F.of_u64 1000000000) (λ (g : GpuProfile). F.of_u64 g.bandwidth_bytes_per_sec) hw.gpu

  abbrev pub nvme_bandwidth : HardwareProfile → F.Num
  nvme_bandwidth hw = map_or (F.of_u64 3000000000) F.of_u64 hw.peak_sequential

  abbrev pub tensor_bytes : TensorInfo → ℕ
  tensor_bytes t = t.size_bytes

  unfoldable pub compute_time : HardwareProfile → Assignments → List TensorInfo → F.Num
  unfolding u64_total
  compute_time hw a layer =
      F.div (F.of_u64 (u64_total tensor_bytes (retain (on_gpu a) layer))) (gpu_bandwidth hw)

  -- How many layers ahead the read of one tensor starts; `prev` is the compute time of the layer
  -- before, which the first layer does not have.
  abbrev pub lead_time : Option F.Num → F.Num → ℕ
  lead_time none load_time = 0
  lead_time (some prev) load_time =
      if not (F.lt prev load_time)
      then 1
      else if F.lt (F.of_u64 0) prev
      then F.ceil_u32 (F.div load_time prev)
      else 1

  abbrev pub prefetch_op : HardwareProfile → Option F.Num → TensorInfo → PrefetchOp
  prefetch_op hw prev t = record {
    tensor_name = t.name;
    source_tier = nvme;
    target_tier = ram;
    size_bytes = t.size_bytes;
    lead_time_layers = lead_time prev (F.div (F.of_u64 t.size_bytes) (nvme_bandwidth hw));
  }

  unfoldable pub layer_ops :
      HardwareProfile → Assignments → Option F.Num → List TensorInfo → List PrefetchOp
  layer_ops hw a prev [] = []
  layer_ops hw a prev (t ∷ ts) =
      let later = layer_ops hw a prev ts in
      if on_nvme a t then prefetch_op hw prev t ∷ later else later

  -- The loop over the layers, with the compute time of the layer before.
  unfoldable pub all_ops :
      HardwareProfile → Assignments → Option F.Num → List (List TensorInfo) → List (List PrefetchOp)
  unfolding layer_ops compute_time
  all_ops hw a prev [] = []
  all_ops hw a prev (layer ∷ layers) =
      layer_ops hw a prev layer ∷ all_ops hw a (some (compute_time hw a layer)) layers

  unfoldable pub build_prefetch_schedule :
      Assignments → List TensorInfo → ModelMetadata → HardwareProfile → List (List PrefetchOp)
  unfolding all_ops group_layers
  build_prefetch_schedule a tensors m hw =
      if m.num_layers == 0
      then []
      else all_ops hw a none (group_layers tensors (replicate m.num_layers []))
