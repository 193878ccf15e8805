-- ===== src/Scheduler/Plan.antt =====
-- `compute_placement_with_context` of src/scheduler/placement.rs: the mode that is chosen for a model,
-- its assignment, and the plan around it. What the solver finds for the linear program that
-- `lp_assign` states is a parameter; the tiers are read from it as in the source.
mod Covers
mod Drive
mod Modes
mod Tests
use package.hypura.Prelude.{
  ℕ, ◌+◌, Bool, true, false, ◌||◌, Option, none, some, List, [], ◌∷◌, if◌then◌else◌,
}
use package.hypura.Prelude.Dict.{values, insert}
use package.hypura.Prelude.Text.{Text, text_eq, codes}
use package.hypura.Prelude.Float.{F64}
use package.hypura.Model.Gguf.{GgufFile, GgmlType, get_string}
use package.hypura.Model.Metadata.{from_gguf, unwrap_or}
use package.hypura.Scheduler.Types.{
  StorageTier, gpu, ram, nvme, InferenceMode, full_resident, full_streaming, sparse_moe_mmap,
  expert_streaming, dense_ffn_streaming, KvCachePlan, ExperienceTier, from_tok_per_sec,
}
use package.hypura.Scheduler.Placement.{
  Assignments, HardwareProfile, TierCapacities, ModelMetadata, ScoredTensor, score_tensors,
  compute_tier_capacities, planned_context, compute_kv_cache_plan, try_sparse_moe_mmap,
  try_expert_streaming_assign, try_dense_ffn_streaming_assign,
}
use package.hypura.Scheduler.Placement.Greedy.{greedy_assign}
use package.hypura.Scheduler.Prefetch.{PrefetchOp, build_prefetch_schedule}
use package.hypura.Scheduler.Summary.{quick_estimate}

-- `values().any(|t| *t == Nvme)`
abbrev pub has_nvme : List StorageTier → Bool
has_nvme [] = false
has_nvme (nvme ∷ tiers) = true
has_nvme (gpu ∷ tiers) = has_nvme tiers
has_nvme (ram ∷ tiers) = has_nvme tiers

-- What placement reads of a file's metadata.
abbrev pub planned_metadata : (GgmlType → Text) → GgufFile → ModelMetadata
unfolding from_gguf
planned_metadata debug gguf =
    let m = from_gguf debug gguf in
    record {
      context_length = m.context_length;
      embedding_dim = m.embedding_dim;
      num_layers = m.num_layers;
      num_heads = m.num_heads;
      num_kv_heads = m.num_kv_heads;
      is_moe = m.is_moe;
      num_experts = m.num_experts;
      num_experts_used = m.num_experts_used;
    }

module _ (F : F64) where
  pub record PlacementPlan : Type 0 where
    pub model_id : Text
    pub tier_assignments : Assignments
    pub prefetch_schedule : List (List PrefetchOp)
    pub estimated_tok_per_sec : F.Num
    pub estimated_time_to_first_token : F.Num
    pub kv_cache_plan : KvCachePlan
    pub experience_tier : ExperienceTier
    pub inference_mode : InferenceMode

  -- What the solver of linear programs gives for the variables `x_gpu` and `x_ram` of each tensor by
  -- its number, when it finds a solution of the program that `lp_assign` states.
  abbrev pub Solver : Type 0
  Solver =
      List (ScoredTensor F)
      → TierCapacities
      → HardwareProfile
      → ModelMetadata
      → Option (ℕ → F.Num × F.Num)

  -- The tier that a solution's two variables of a tensor stand for.
  abbrev pub tier_by : F.Num × F.Num → StorageTier
  tier_by (g, r) =
      let half = F.div (F.of_u64 1) (F.of_u64 2) in
      if F.lt half g then gpu else if F.lt half r then ram else nvme

  -- The tiers that a solution gives to the tensors from number `i` on.
  unfoldable pub extract :
      (ℕ → F.Num × F.Num) → ℕ → List (ScoredTensor F) → Assignments → Assignments
  extract x i [] a = a
  extract x i (t ∷ ts) a = extract x (i + 1) ts (insert t.name (tier_by (x i)) a)

  -- No tensors need no solver; without a solution there is no assignment.
  unfoldable pub lp_assign :
      Solver
      → List (ScoredTensor F)
      → TierCapacities
      → HardwareProfile
      → ModelMetadata
      → Option Assignments
  unfolding extract
  lp_assign solver [] caps hw m = some []
  lp_assign solver (t ∷ ts) caps hw m = elim (solver (t ∷ ts) caps hw m) [
    | none ↦ none
    | some x ↦ some (extract x 0 (t ∷ ts) [])
  ]

  -- The solver's assignment, or the greedy one.
  unfoldable pub solve :
      Solver
      → List (ScoredTensor F)
      → TierCapacities
      → HardwareProfile
      → ModelMetadata
      → Assignments
  unfolding greedy_assign lp_assign
  solve solver scored caps hw m =
      unwrap_or (greedy_assign F scored caps hw m) (lp_assign solver scored caps hw m)

  -- The first of the streaming modes that gives an assignment; without one, the solver's, whose mode
  -- is resident when nothing is on the drive.
  unfoldable pub choose :
      Solver
      → List (ScoredTensor F)
      → TierCapacities
      → HardwareProfile
      → ModelMetadata
      → Assignments × InferenceMode
  unfolding try_sparse_moe_mmap try_expert_streaming_assign try_dense_ffn_streaming_assign solve
  choose solver scored caps hw m = elim (try_sparse_moe_mmap F scored caps m) [
    | some a ↦ (a, sparse_moe_mmap)
    | none ↦ elim (try_expert_streaming_assign F scored caps m) [
      | some a ↦ (a, expert_streaming)
      | none ↦ elim (try_dense_ffn_streaming_assign F scored caps m) [
        | some a ↦ (a, dense_ffn_streaming)
        | none ↦
            let a = solve solver scored caps hw m in
            (a, if has_nvme (values a) then full_streaming else full_resident)
      ]
    ]
  ]

  -- The plan, without the hash of the machine's profile; `debug` is what `{:?}` prints of a type.
  unfoldable pub compute_placement_with_context :
      (GgmlType → Text) → Solver → GgufFile → HardwareProfile → ℕ → PlacementPlan
  unfolding planned_context compute_tier_capacities score_tensors choose build_prefetch_schedule
      compute_kv_cache_plan quick_estimate get_string
  compute_placement_with_context debug solver gguf hw context_length =
      let m = planned_metadata debug gguf in
      let context = planned_context m context_length in
      let caps = compute_tier_capacities hw m context in
      let (a, mode) = choose solver (score_tensors F gguf.tensors m) caps hw m in
      let estimated = quick_estimate F a gguf.tensors m hw in
      record {
        model_id = unwrap_or (codes "unknown") (get_string gguf (codes "general.name"));
        tier_assignments = a;
        prefetch_schedule = build_prefetch_schedule F a gguf.tensors m hw;
        estimated_tok_per_sec = estimated;
        estimated_time_to_first_token = F.div (F.of_u64 1) (F.of_u64 2);
        kv_cache_plan = compute_kv_cache_plan m context caps;
        experience_tier = from_tok_per_sec F estimated;
        inference_mode = mode;
      }
