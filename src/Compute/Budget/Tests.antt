-- ===== src/Compute/Budget/Tests.antt =====
-- The budget of a machine with a GPU of 12 GiB.
use hypura.Prelude.{◌+◌, ◌≤◌, ◌<◌, ◌≡◌, false, arith}
use hypura.Scheduler.Samples.{machine, metadata}
use hypura.Scheduler.Placement.{compute_tier_capacities}
use hypura.Compute.Budget.{compute_gpu_budget, compute_gpu_budget-le}

compute_gpu_budget-le_example :
    (compute_gpu_budget machine (metadata false) 4096
      ≤ (compute_tier_capacities machine (metadata false) 4096).gpu_bytes)
    × (0 < compute_gpu_budget machine (metadata false) 4096
        → compute_gpu_budget machine (metadata false) 4096 + 1073741824
          ≡ (compute_tier_capacities machine (metadata false) 4096).gpu_bytes)
compute_gpu_budget-le_example = compute_gpu_budget-le machine (metadata false) 4096 (omega arith)
