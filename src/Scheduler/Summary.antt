-- ===== src/Scheduler/Summary.antt =====
-- `quick_estimate` and `summarize_placement` of src/scheduler/placement.rs.
mod Totals
mod Tests
use package.hypura.Prelude.{
  ℕ, zero, suc, ◌+◌, ◌%◌, ◌≤◌, ◌<◌, Bool, true, false, ◌||◌, not, Option, none, some, List, [], ◌∷◌,
  ◌++◌, map, if◌then◌else◌, ltb, length, length-append, ◌≡◌, refl, arith,
}
use package.hypura.Prelude.Keys.{nat_eq, contains, retain, ◌==◌}
use package.hypura.Prelude.Dict.{lookup}
use package.hypura.Prelude.Text.{Text, text_eq}
use package.hypura.Prelude.Float.{F64}
use package.hypura.Prelude.Sort.{total}
use package.hypura.Prelude.Machine.{u64, u64_small}
use package.hypura.Model.Gguf.{TensorInfo}
use package.hypura.Model.Role.{from_name}
use package.hypura.Scheduler.Types.{
  StorageTier, gpu, ram, nvme, PlacementSummary, from_tok_per_sec, ExperienceTier,
}
use package.hypura.Scheduler.Placement.{
  Assignments, HardwareProfile, ModelMetadata, or_else, access_frequency, effective_io_freq,
}
use package.hypura.Scheduler.Placement.Greedy.{sync_overhead}
use package.hypura.Scheduler.Prefetch.{gpu_bandwidth, nvme_bandwidth, in_layer}

-- The tier of a tensor; without an assignment, the drive.
abbrev pub tier_of : Assignments → TensorInfo → StorageTier
tier_of a t = or_else (lookup t.name a) nvme

module _ (F : F64) where
  -- The compute and the read time of the layer so far.
  abbrev pub layer_turn :
      HardwareProfile → ModelMetadata → StorageTier → TensorInfo → F.Num × F.Num → F.Num × F.Num
  layer_turn hw m tier t (compute, io) =
      let role = from_name t.name in
      let freq = access_frequency F role (or_else m.num_experts_used 1) (or_else m.num_experts 1) in
      let moved = F.mul (F.of_u64 t.size_bytes) freq in
      elim tier [
        | gpu ↦ (F.add compute (F.div moved (gpu_bandwidth F hw)), io)
        | ram ↦ (F.add compute (F.div moved (F.of_u64 hw.memory_bandwidth)), io)
        | nvme ↦ (
          compute,
          F.add io (
              F.div (F.mul (F.of_u64 t.size_bytes) (effective_io_freq F role freq m.is_moe))
                (nvme_bandwidth F hw)),
        )
      ]

  abbrev pub layer_times :
      HardwareProfile
      → ModelMetadata
      → Assignments
      → List TensorInfo
      → F.Num × F.Num
      → F.Num × F.Num
  layer_times hw m a [] acc = acc
  layer_times hw m a (t ∷ ts) acc = layer_times hw m a ts (layer_turn hw m (tier_of a t) t acc)

  -- The loop over the layers, of which `left` are left.
  abbrev pub layer_latency :
      HardwareProfile
      → ModelMetadata
      → Assignments
      → List TensorInfo
      → (left layer : ℕ) → (latency prev_compute : F.Num) → F.Num
  layer_latency hw m a tensors zero layer latency prev_compute = latency
  layer_latency hw m a tensors (suc left) layer latency prev_compute =
      let times = layer_times hw m a (retain (in_layer layer) tensors) (F.of_u64 0, F.of_u64 0) in
      let effective_io = F.maximum (F.sub times.1 prev_compute) (F.of_u64 0) in
      layer_latency hw m a tensors left (suc layer)
        (F.add latency (F.add (F.maximum times.0 effective_io) (sync_overhead F))) times.0

  abbrev pub bandwidth : HardwareProfile → StorageTier → F.Num
  bandwidth hw gpu = gpu_bandwidth F hw
  bandwidth hw ram = F.of_u64 hw.memory_bandwidth
  bandwidth hw nvme = nvme_bandwidth F hw

  abbrev pub has_layer : TensorInfo → Bool
  has_layer t = elim t.layer_index [ none ↦ false | some l ↦ true ]

  abbrev pub other_latency :
      HardwareProfile → ModelMetadata → Assignments → List TensorInfo → F.Num → F.Num
  other_latency hw m a [] latency = latency
  other_latency hw m a (t ∷ ts) latency =
      let freq =
        access_frequency F (from_name t.name) (or_else m.num_experts_used 1)
          (or_else m.num_experts 1) in
      other_latency hw m a ts
        (F.add latency (F.div (F.mul (F.of_u64 t.size_bytes) freq) (bandwidth hw (tier_of a t))))

  unfoldable pub quick_estimate :
      Assignments → List TensorInfo → ModelMetadata → HardwareProfile → F.Num
  quick_estimate a tensors m hw =
      let layers = layer_latency hw m a tensors m.num_layers 0 (F.of_u64 0) (F.of_u64 0) in
      let latency = other_latency hw m a (retain (λ t. not (has_layer t)) tensors) layers in
      if F.lt (F.of_u64 0) latency then F.div (F.of_u64 1) latency else F.of_u64 0

-- `insert` of a hash set.
abbrev pub add_layer : Option ℕ → List ℕ → List ℕ
add_layer none seen = seen
add_layer (some l) seen = if contains l seen then seen else l ∷ seen

-- The loop's state: the bytes and the layers of each tier.
pub record Tally : Type 0 where
  pub gpu_bytes : ℕ
  pub ram_bytes : ℕ
  pub nvme_bytes : ℕ
  pub gpu_layers : List ℕ
  pub ram_layers : List ℕ
  pub nvme_layers : List ℕ

unfoldable pub tally : StorageTier → TensorInfo → Tally → Tally
tally gpu t s = record s {
  gpu_bytes = u64 (s.gpu_bytes + t.size_bytes);
  gpu_layers = add_layer t.layer_index s.gpu_layers;
}
tally ram t s = record s {
  ram_bytes = u64 (s.ram_bytes + t.size_bytes);
  ram_layers = add_layer t.layer_index s.ram_layers;
}
tally nvme t s = record s {
  nvme_bytes = u64 (s.nvme_bytes + t.size_bytes);
  nvme_layers = add_layer t.layer_index s.nvme_layers;
}

unfoldable pub tally_all : Assignments → List TensorInfo → Tally → Tally
unfolding tally
tally_all a [] s = s
tally_all a (t ∷ ts) s = tally_all a ts (tally (tier_of a t) t s)

-- `len() as u32`
abbrev pub as_u32 : ℕ → ℕ
as_u32 n = n % 4294967296

unfoldable pub summarize_placement : Assignments → List TensorInfo → PlacementSummary
unfolding tally_all
summarize_placement a tensors =
    let s = tally_all a tensors (record {
      gpu_bytes = 0;
      ram_bytes = 0;
      nvme_bytes = 0;
      gpu_layers = [];
      ram_layers = [];
      nvme_layers = [];
    }) in
    record {
      layers_on_gpu = as_u32 (length s.gpu_layers);
      layers_in_ram = as_u32 (length s.ram_layers);
      layers_on_nvme = as_u32 (length s.nvme_layers);
      total_gpu_bytes = s.gpu_bytes;
      total_ram_bytes = s.ram_bytes;
      total_nvme_bytes = s.nvme_bytes;
    }

abbrev pub bytes : TensorInfo → ℕ
bytes t = t.size_bytes

abbrev pub on_tier : StorageTier → StorageTier → Bool
on_tier gpu gpu = true
on_tier ram ram = true
on_tier nvme nvme = true
on_tier _ _ = false
