-- ===== src/Scheduler/Prefetch/Tests.antt =====
-- The schedule of a dense model.
use hypura.Prelude.{[], ◌∷◌, map, get_or, ◌≡◌, refl, arith, false}
use hypura.Prelude.Keys.{retain}
use hypura.Prelude.Text.{codes, text_beq}
use hypura.Scheduler.Samples.{whole, dense_tensors, metadata, machine}
use hypura.Scheduler.Types.{gpu, nvme}
use hypura.Scheduler.Placement.{Assignments}
use hypura.Scheduler.Prefetch.{on_nvme, in_layer, build_prefetch_schedule}
use hypura.Scheduler.Prefetch.Complete.{read_of, entry_of, build_prefetch_schedule-reads}

abbrev assignment : Assignments
assignment = (codes "blk.0.attn_q.weight", gpu) ∷ (codes "blk.0.ffn_up.weight", nvme) ∷ []

reads :
    map read_of (
      get_or (build_prefetch_schedule whole assignment dense_tensors (metadata false) machine) 0 [])
    ≡ (codes "blk.0.ffn_up.weight", 30000) ∷ []
unfolding build_prefetch_schedule text_beq
reads = refl

build_prefetch_schedule-reads_example :
    map read_of (
      get_or (build_prefetch_schedule whole assignment dense_tensors (metadata false) machine) 1 [])
    ≡ map entry_of (retain (on_nvme assignment) (retain (in_layer 1) dense_tensors))
build_prefetch_schedule-reads_example =
    build_prefetch_schedule-reads whole assignment dense_tensors (metadata false) machine 1
      (omega arith)
