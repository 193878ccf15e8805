-- ===== src/Scheduler/Placement/Greedy.antt =====
-- `greedy_assign` of src/scheduler/placement.rs: tensors outside of layers first, then the number
-- of leading layers that stay resident, chosen by cost, then the tiers layer by layer.
pub mod Room
mod Tiers
pub mod Layers
use package.hypura.Prelude.{
  ℕ, zero, suc, ◌+◌, ◌-◌, ◌*◌, ◌/◌, ◌≤◌, ◌<◌, Bool, true, false, ◌&&◌, Option, none, some, List, [],
  ◌∷◌, ◌++◌, map, if◌then◌else◌, ltb, leb, take, drop, length,
}
use package.hypura.Prelude.Keys.{nat_eq, ◌==◌}
use package.hypura.Prelude.Dict.{Dict, insert, values}
use package.hypura.Prelude.Text.{Text, text_eq}
use package.hypura.Prelude.Float.{F64}
use package.hypura.Prelude.Sort.{sort}
use package.hypura.Prelude.Machine.{u64, u64_total}
use package.hypura.Scheduler.Types.{gpu, ram, nvme}
use package.hypura.Scheduler.Placement.{
  Assignments, HardwareProfile, TierCapacities, ModelMetadata, ScoredTensor, size, by_score,
  assign_all, assign_resident, effective_io_freq,
}

module _ (F : F64) where
  -- `entry(layer).or_default().push(t)`, in a map that is ordered by its keys.
  unfoldable pub push_layer :
      ℕ → ScoredTensor F → Dict ℕ (List (ScoredTensor F)) → Dict ℕ (List (ScoredTensor F))
  push_layer l t [] = (l, t ∷ []) ∷ []
  push_layer l t ((k, ts) ∷ m) =
      let later = push_layer l t m in
      if k == l
      then (k, ts ++ (t ∷ [])) ∷ m
      else if ltb k l
      then (k, ts) ∷ later
      else (l, t ∷ []) ∷ (k, ts) ∷ m

  abbrev pub sort_out :
      Option ℕ
      → ScoredTensor F
      → Dict ℕ (List (ScoredTensor F)) × List (ScoredTensor F)
      → Dict ℕ (List (ScoredTensor F)) × List (ScoredTensor F)
  sort_out (some l) t (layers, others) = (push_layer l t layers, others)
  sort_out none t (layers, others) = (layers, others ++ (t ∷ []))

  -- The tensors of layers by layer, and the others.
  unfoldable pub separate :
      List (ScoredTensor F)
      → Dict ℕ (List (ScoredTensor F)) × List (ScoredTensor F)
      → Dict ℕ (List (ScoredTensor F)) × List (ScoredTensor F)
  unfolding push_layer
  separate [] acc = acc
  separate (t ∷ ts) acc = separate ts (sort_out t.layer_index t acc)

  -- The room left on the GPU and in all, and the assignments so far.
  pub record Ledger : Type 0 where
    pub gpu_remaining : ℕ
    pub unified_remaining : ℕ
    pub assignments : Assignments

  -- One turn of the loop over the tensors outside of layers.
  unfoldable pub assign_other : ScoredTensor F → Ledger → Ledger
  assign_other t r =
      if leb t.size_bytes r.gpu_remaining && leb t.size_bytes r.unified_remaining
      then record {
        gpu_remaining = r.gpu_remaining - t.size_bytes;
        unified_remaining = r.unified_remaining - t.size_bytes;
        assignments = insert t.name gpu r.assignments;
      }
      else if leb t.size_bytes r.unified_remaining
      then record r {
        unified_remaining = r.unified_remaining - t.size_bytes;
        assignments = insert t.name ram r.assignments;
      }
      else record r { assignments = insert t.name nvme r.assignments }

  unfoldable pub assign_others : List (ScoredTensor F) → Ledger → Ledger
  assign_others [] r = r
  assign_others (t ∷ ts) r = assign_others ts (assign_other t r)

  abbrev pub add_up : List F.Num → F.Num → F.Num
  add_up [] acc = acc
  add_up (x ∷ xs) acc = add_up xs (F.add acc x)

  abbrev pub float_sum : List F.Num → F.Num
  float_sum xs = add_up xs (F.of_u64 0)

  -- The time to move a tensor through memory.
  abbrev pub transfer : F.Num → ScoredTensor F → F.Num
  transfer ram_bw t = F.div (F.mul (F.of_u64 t.size_bytes) t.access_freq) ram_bw

  -- The time to read a tensor from the drive.
  abbrev pub read_time : F.Num → Bool → ScoredTensor F → F.Num
  read_time nvme_bw is_moe t =
      F.div (F.mul (F.of_u64 t.size_bytes) (effective_io_freq F t.role t.access_freq is_moe))
        nvme_bw

  abbrev pub sync_overhead : F.Num
  sync_overhead = F.mul (F.of_u64 50) (F.div (F.of_u64 1) (F.of_u64 1000000))

  -- The inner loop over the layers on the drive.
  abbrev pub nvme_cost :
      F.Num → Bool → List (List (ScoredTensor F)) → (prev_compute cost : F.Num) → F.Num
  nvme_cost nvme_bw is_moe [] prev_compute cost = cost
  nvme_cost nvme_bw is_moe (ts ∷ layers) prev_compute cost =
      let layer_io = float_sum (map (read_time nvme_bw is_moe) ts) in
      let effective_io = F.maximum (F.sub layer_io prev_compute) (F.of_u64 0) in
      nvme_cost nvme_bw is_moe layers (F.of_u64 0) (F.add cost (F.add effective_io sync_overhead))

  -- The last element's value, or what there is without one.
  abbrev pub last_transfer : F.Num → List (List (ScoredTensor F)) → F.Num → F.Num
  last_transfer ram_bw [] d = d
  last_transfer ram_bw (ts ∷ layers) d =
      last_transfer ram_bw layers (float_sum (map (transfer ram_bw) ts))

  abbrev pub flatten : List (List (ScoredTensor F)) → List (ScoredTensor F)
  flatten [] = []
  flatten (ts ∷ layers) = ts ++ flatten layers

  -- The cost of a cut-off.
  abbrev pub total_cost :
      HardwareProfile → TierCapacities → ModelMetadata → List (List (ScoredTensor F)) → ℕ → F.Num
  total_cost hw caps m layers cutoff =
      let ram_bw = F.of_u64 hw.memory_bandwidth in
      let nvme_bw = F.of_u64 caps.nvme_peak_bw in
      let resident = float_sum (map (transfer ram_bw) (flatten (take cutoff layers))) in
      let prev = last_transfer ram_bw (take cutoff layers) (F.of_u64 0) in
      F.add resident (nvme_cost nvme_bw m.is_moe (drop cutoff layers) prev (F.of_u64 0))

  -- The loop over the cut-offs, of which `left` are left; the least cost of those that fit.
  unfoldable pub find_cutoff :
      (ℕ → F.Num) → List (List (ScoredTensor F)) → ℕ → (left cutoff best : ℕ) → F.Num → ℕ
  unfolding u64_total
  find_cutoff cost layers unified zero cutoff best best_cost = best
  find_cutoff cost layers unified (suc left) cutoff best best_cost =
      let better = find_cutoff cost layers unified left (suc cutoff) cutoff (cost cutoff) in
      let same = find_cutoff cost layers unified left (suc cutoff) best best_cost in
      if ltb unified (u64_total (size F) (flatten (take cutoff layers)))
      then best
      else if F.lt (cost cutoff) best_cost
      then better
      else same

  -- The layers below the cut-off by score to the GPU or to memory, the others to the drive.
  unfoldable pub apply_cutoff : ℕ → List (List (ScoredTensor F)) → ℕ → Assignments → Assignments
  unfolding assign_all assign_resident sort
  apply_cutoff cutoff [] g a = a
  apply_cutoff zero (ts ∷ layers) g a = apply_cutoff zero layers g (assign_all F nvme ts a)
  apply_cutoff (suc cutoff) (ts ∷ layers) g a =
      let r = assign_resident F (sort (by_score F) ts) g a in apply_cutoff cutoff layers r.0 r.1

  unfoldable pub greedy_assign :
      List (ScoredTensor F) → TierCapacities → HardwareProfile → ModelMetadata → Assignments
  unfolding separate sort assign_others find_cutoff apply_cutoff
  greedy_assign ts caps hw m =
      let (layer_tensors, others) = separate ts ([], []) in
      let start : Ledger = record {
        gpu_remaining = caps.gpu_bytes;
        unified_remaining = caps.unified_limit;
        assignments = [];
      } in
      let r = assign_others (sort (by_score F) others) start in
      let layers = values layer_tensors in
      let cutoff =
        find_cutoff (total_cost hw caps m layers) layers r.unified_remaining (suc (length layers)) 0
          0 F.largest in
      apply_cutoff cutoff layers r.gpu_remaining r.assignments
