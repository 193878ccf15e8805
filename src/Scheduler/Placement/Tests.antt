-- ===== src/Scheduler/Placement/Tests.antt =====
-- Placement at small models.
use hypura.Prelude.{◌+◌, ◌/◌, ◌≤◌, ◌<◌, true, false, not, List, [], ◌∷◌, some, ◌≡◌, refl, arith}
use hypura.Prelude.Keys.{retain}
use hypura.Prelude.Text.{codes, text_eq, text_beq}
use hypura.Prelude.Sort.{total}
use hypura.Model.Role.{from_name}
use hypura.Scheduler.Samples.{
  whole, dense_tensors, expert_tensors, metadata, machine, small_room, room,
}
use hypura.Scheduler.Types.{gpu, nvme}
use hypura.Scheduler.Placement.{
  Assignments, ScoredTensor, fused, ffn, score_tensors, estimate_kv_bytes, compute_tier_capacities,
  compute_kv_cache_plan, gpu_runtime_overhead, os_overhead, try_expert_streaming_assign,
  try_dense_ffn_streaming_assign,
}
use hypura.Scheduler.Placement.Capacities.{
  compute_tier_capacities-adds_up, compute_kv_cache_plan-windows,
}
use hypura.Scheduler.Placement.Streaming.{is_gpu, is_resident, Streams}
use hypura.Scheduler.Placement.Modes.{
  bytes, try_expert_streaming_assign-Streams, try_dense_ffn_streaming_assign-Streams,
}
use hypura.Scheduler.Placement.Greedy.{greedy_assign}
use hypura.Scheduler.Placement.Greedy.Room.{tier_size}
use hypura.Scheduler.Placement.Greedy.Layers.{greedy_assign-room}

compute_tier_capacities-adds_up_example :
    ((compute_tier_capacities machine (metadata false) 4096).gpu_bytes
        + (compute_tier_capacities machine (metadata false) 4096).ram_bytes
      ≡ (compute_tier_capacities machine (metadata false) 4096).unified_limit)
    × (0 < (compute_tier_capacities machine (metadata false) 4096).gpu_bytes
        → (compute_tier_capacities machine (metadata false) 4096).gpu_bytes
            + estimate_kv_bytes (metadata false) 4096
            + gpu_runtime_overhead
            + os_overhead
          ≤ machine.total_bytes)
compute_tier_capacities-adds_up_example =
    compute_tier_capacities-adds_up machine (metadata false) 4096

compute_kv_cache_plan-windows_example :
    ((compute_kv_cache_plan (metadata false) 4096 room).hot_window_tokens
        + (compute_kv_cache_plan (metadata false) 4096 room).warm_window_tokens
      ≡ 4096)
    × ((compute_kv_cache_plan (metadata false) 4096 room).hot_bytes ≤ room.gpu_bytes / 5)
    × (0 < estimate_kv_bytes (metadata false) 1 → 0 < estimate_kv_bytes (metadata false) 1 / 2)
compute_kv_cache_plan-windows_example = compute_kv_cache_plan-windows (metadata false) 4096 room

abbrev experts : List (ScoredTensor whole)
unfolding score_tensors
experts = score_tensors whole expert_tensors (metadata true)

abbrev dense : List (ScoredTensor whole)
unfolding score_tensors
dense = score_tensors whole dense_tensors (metadata false)

abbrev expert_assignment : Assignments
expert_assignment =
    (codes "blk.0.attn_q.weight", gpu) ∷ (codes "blk.0.ffn_up_exps.weight", nvme) ∷ []

experts_assigned :
    try_expert_streaming_assign whole experts room (metadata true) ≡ some expert_assignment
unfolding try_expert_streaming_assign experts from_name
experts_assigned = refl

try_expert_streaming_assign-Streams_example :
    Streams whole (fused whole) experts room.gpu_bytes expert_assignment
    × (bytes whole (retain (λ t. not (fused whole t)) experts) ≤ room.unified_limit)
    × (room.unified_limit < bytes whole experts)
unfolding experts text_beq
try_expert_streaming_assign-Streams_example =
    try_expert_streaming_assign-Streams whole experts room (metadata true) (refl, (refl, tt))
      (omega arith) experts_assigned

abbrev dense_assignment : Assignments
dense_assignment =
    (codes "blk.0.attn_q.weight", gpu)
    ∷ (codes "blk.0.ffn_up.weight", nvme)
    ∷ (codes "blk.1.ffn_up.weight", nvme)
    ∷ []

dense_assigned :
    try_dense_ffn_streaming_assign whole dense small_room (metadata false) ≡ some dense_assignment
unfolding try_dense_ffn_streaming_assign dense from_name
dense_assigned = refl

try_dense_ffn_streaming_assign-Streams_example :
    Streams whole (ffn whole) dense small_room.gpu_bytes dense_assignment
    × (bytes whole (retain (λ t. not (ffn whole t)) dense) ≤ small_room.unified_limit)
    × (small_room.unified_limit < bytes whole dense)
unfolding dense text_beq
try_dense_ffn_streaming_assign-Streams_example =
    try_dense_ffn_streaming_assign-Streams whole dense small_room (metadata false)
      (refl, (refl, (refl, tt))) (omega arith) dense_assigned

greedy_assign-room_example :
    (total
        (tier_size whole is_gpu (greedy_assign whole dense small_room machine (metadata false)))
        dense
      ≤ small_room.gpu_bytes)
    × (total
          (tier_size whole is_resident
            (greedy_assign whole dense small_room machine (metadata false)))
          dense
        ≤ small_room.unified_limit)
unfolding dense text_beq
greedy_assign-room_example =
    greedy_assign-room whole dense small_room machine (metadata false) (refl, (refl, (refl, tt)))
      (omega arith)
