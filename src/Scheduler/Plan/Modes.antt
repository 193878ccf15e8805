-- ===== src/Scheduler/Plan/Modes.antt =====
-- What the mode of a plan says of its assignment.
use hypura.Prelude.{
  ℕ, ◌<◌, true, false, none, some, List, [], if◌then◌else◌, ◌≡◌, arith, inl, inr, All, Bool-cases,
  Option-cases,
}
use mathlib.Core.List.{Mem}
use hypura.Prelude.Keys.{Distinct}
use hypura.Prelude.Dict.{lookup, values}
use hypura.Prelude.Text.{Text, text_eq}
use hypura.Prelude.Float.{F64}
use hypura.Model.Gguf.{GgufFile, GgmlType}
use hypura.Scheduler.Types.{
  gpu, nvme, InferenceMode, full_resident, keep_resident, full_streaming, sparse_moe_mmap,
  expert_streaming, dense_ffn_streaming,
}
use hypura.Scheduler.Placement.{
  Assignments, HardwareProfile, TierCapacities, ModelMetadata, ScoredTensor, fused, ffn, assign_all,
  score_tensors, compute_tier_capacities, planned_context, try_sparse_moe_mmap,
  try_expert_streaming_assign, try_dense_ffn_streaming_assign,
}
use hypura.Scheduler.Placement.Streaming.{names, Streams, All-assign_all}
use hypura.Scheduler.Placement.Modes.{
  bytes, try_expert_streaming_assign-Streams, try_dense_ffn_streaming_assign-Streams,
}
use hypura.Scheduler.Plan.Covers.{Adds, solve-Adds}
use hypura.Scheduler.Plan.Drive.{in_memory, All-in_memory, one_on_drive}
use hypura.Scheduler.Plan.{
  has_nvme, planned_metadata, Solver, solve, choose, compute_placement_with_context,
}

module _ (F : F64) where
  -- What a mode promises of an assignment of tensors.
  pub Promises : InferenceMode → List (ScoredTensor F) → ℕ → Assignments → Type 0
  Promises full_resident ts room a = All (λ t. in_memory (lookup t.name a) ≡ true) ts
  Promises full_streaming ts room a =
      (t : ScoredTensor F) × (Mem t ts × (lookup t.name a ≡ some nvme))
  Promises sparse_moe_mmap ts room a = All (λ t. lookup t.name a ≡ some gpu) ts
  Promises expert_streaming ts room a = Streams F (fused F) ts room a
  Promises dense_ffn_streaming ts room a = Streams F (ffn F) ts room a
  Promises keep_resident ts room a = false ≡ true

  module _ (solver : Solver F) (ts : List (ScoredTensor F)) (caps : TierCapacities)
      (hw : HardwareProfile) (m : ModelMetadata) where
    abbrev Kept : Assignments × InferenceMode → Type 0
    Kept r = Promises r.1 ts caps.gpu_bytes r.0

    solved-Kept :
        (a : Assignments)
        → Adds F ts [] a
        → Kept (a, if has_nvme (values a) then full_streaming else full_resident)
    unfolding Promises
    solved-Kept a h = elim (Bool-cases (has_nvme (values a))) [
      | inl e ↦ rw e (one_on_drive F ts a h e)
      | inr e ↦ rw e (All-in_memory F ts a h e)
    ]

    sparse-Kept :
        {a : Assignments} → try_sparse_moe_mmap F ts caps m ≡ some a → Kept (a, sparse_moe_mmap)
    unfolding try_sparse_moe_mmap Promises
    sparse-Kept {a} e =
        let same : assign_all F gpu ts [] ≡ a = ground (arith, e) in
        rw (← same) (All-assign_all F gpu ts [])

    abbrev Chosen : Assignments → InferenceMode → Type 0
    Chosen a mode = choose F solver ts caps hw m ≡ (a, mode)

    choose_sparse :
        {a : Assignments} → try_sparse_moe_mmap F ts caps m ≡ some a → Chosen a sparse_moe_mmap
    unfolding choose
    choose_sparse e = ground (arith, e)

    choose_experts :
        {a : Assignments}
        → try_sparse_moe_mmap F ts caps m ≡ none
        → try_expert_streaming_assign F ts caps m ≡ some a
        → Chosen a expert_streaming
    unfolding choose
    choose_experts e1 e2 = ground (arith, e1, e2)

    choose_dense :
        {a : Assignments}
        → try_sparse_moe_mmap F ts caps m ≡ none
        → try_expert_streaming_assign F ts caps m ≡ none
        → try_dense_ffn_streaming_assign F ts caps m ≡ some a
        → Chosen a dense_ffn_streaming
    unfolding choose
    choose_dense e1 e2 e3 = ground (arith, e1, e2, e3)

    choose_solved :
        try_sparse_moe_mmap F ts caps m ≡ none
        → try_expert_streaming_assign F ts caps m ≡ none
        → try_dense_ffn_streaming_assign F ts caps m ≡ none
        → (let a = solve F solver ts caps hw m in
            Chosen a (if has_nvme (values a) then full_streaming else full_resident))
    unfolding choose
    choose_solved e1 e2 e3 = ground (arith, e1, e2, e3)

    choose-Kept :
        Distinct (names F ts)
        → bytes F ts < 18446744073709551616
        → Kept (choose F solver ts caps hw m)
    unfolding Promises
    choose-Kept d small = elim (Option-cases (try_sparse_moe_mmap F ts caps m)) [
      | inr (a, e) ↦ rw (choose_sparse e) (sparse-Kept e)
      | inl e ↦ elim (Option-cases (try_expert_streaming_assign F ts caps m)) [
        | inr (a, e') ↦
            rw (choose_experts e e') (try_expert_streaming_assign-Streams F ts caps m d small e').0
        | inl e' ↦ elim (Option-cases (try_dense_ffn_streaming_assign F ts caps m)) [
          | inr (a, e'') ↦
              rw (choose_dense e e' e'')
                (try_dense_ffn_streaming_assign-Streams F ts caps m d small e'').0
          | inl e'' ↦
              rw (choose_solved e e' e'')
                (solved-Kept (solve F solver ts caps hw m) (solve-Adds F solver ts caps hw m))
        ]
      ]
    ]

  -- For tensors with distinct names whose sizes add up to less than 2^64, and whatever the solver
  -- answers, the plan's assignment is what its mode says. Resident: each tensor has the GPU's or
  -- the RAM's tier. Full streaming: some tensor of the model has the drive's. Sparse: every tensor is given to the GPU. Expert and dense streaming:
  -- the streamed tensors are on the drive and no others are, and the GPU holds no more than it has
  -- room for.
  pub compute_placement-Promises :
      (debug : GgmlType → Text) (solver : Solver F) (gguf : GgufFile) (hw : HardwareProfile)
      (context_length : ℕ)
      → Distinct (names F (score_tensors F gguf.tensors (planned_metadata debug gguf)))
      → bytes F (score_tensors F gguf.tensors (planned_metadata debug gguf)) < 18446744073709551616
      → (let p = compute_placement_with_context F debug solver gguf hw context_length in
          let m = planned_metadata debug gguf in
          Promises p.inference_mode
            (score_tensors F gguf.tensors m)
            (compute_tier_capacities hw m (planned_context m context_length)).gpu_bytes
            p.tier_assignments)
  unfolding compute_placement_with_context
  compute_placement-Promises debug solver gguf hw context_length d small =
      let m = planned_metadata debug gguf in
      choose-Kept solver (score_tensors F gguf.tensors m)
        (compute_tier_capacities hw m (planned_context m context_length)) hw m d small
