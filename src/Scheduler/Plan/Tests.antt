-- ===== src/Scheduler/Plan/Tests.antt =====
-- The plan of a mixture of experts that is larger than the memory, without a solver.
use package.hypura.Prelude.{none, some, [], ◌∷◌, ◌≡◌, refl, arith}
use package.hypura.Prelude.Text.{Text, codes, text_eq, text_beq}
use package.hypura.Model.Gguf.{GgufFile, GgmlType, uint32}
use package.hypura.Model.Role.{from_name}
use package.hypura.Scheduler.Samples.{whole, tensor, machine}
use package.hypura.Scheduler.Types.{expert_streaming}
use package.hypura.Scheduler.Placement.{
  score_tensors, compute_tier_capacities, planned_context, estimate_kv_bytes,
}
use package.hypura.Scheduler.Plan.{
  planned_metadata, Solver, choose, compute_placement_with_context, PlacementPlan,
}
use package.hypura.Scheduler.Plan.Modes.{Promises, compute_placement-Promises}

abbrev mixture : GgufFile
mixture = record {
  version = 3;
  metadata =
      (codes "expert_count", uint32 8)
      ∷ (codes "expert_used_count", uint32 2)
      ∷ (codes "block_count", uint32 1)
      ∷ [];
  tensors =
      tensor (codes "blk.0.attn_q.weight") 1000 (some 0)
      ∷ tensor (codes "blk.0.ffn_up_exps.weight") 20000000000 (some 0)
      ∷ [];
  data_offset = 0;
}

abbrev no_name : GgmlType → Text
no_name t = []

abbrev unsolved : Solver whole
unsolved ts caps hw m = none

abbrev plan : PlacementPlan whole
plan = compute_placement_with_context whole no_name unsolved mixture machine 0

plan_mode : plan.inference_mode ≡ expert_streaming
unfolding compute_placement_with_context choose planned_metadata text_beq estimate_kv_bytes
    from_name
plan_mode = refl

compute_placement-Promises_example :
    Promises whole plan.inference_mode
      (score_tensors whole mixture.tensors (planned_metadata no_name mixture))
      (compute_tier_capacities machine
        (planned_metadata no_name mixture)
        (planned_context (planned_metadata no_name mixture) 0)).gpu_bytes
      plan.tier_assignments
unfolding score_tensors text_beq
compute_placement-Promises_example =
    compute_placement-Promises whole no_name unsolved mixture machine 0 (refl, (refl, tt))
      (omega arith)
