-- ===== src/Scheduler/Summary/Tests.antt =====
-- The summary of a dense model.
use hypura.Prelude.{◌+◌, [], ◌∷◌, ◌≡◌, refl, arith}
use hypura.Prelude.Text.{codes, text_beq}
use hypura.Prelude.Sort.{total}
use hypura.Scheduler.Samples.{dense_tensors}
use hypura.Scheduler.Types.{gpu, ram, nvme}
use hypura.Scheduler.Placement.{Assignments}
use hypura.Scheduler.Summary.{summarize_placement, bytes}
use hypura.Scheduler.Summary.Totals.{weight, summarize_placement-totals}

abbrev assignment : Assignments
assignment = (codes "blk.0.attn_q.weight", gpu) ∷ (codes "blk.0.ffn_up.weight", nvme) ∷ []

counted : (summarize_placement assignment dense_tensors).layers_on_nvme ≡ 2
unfolding summarize_placement text_beq
counted = refl

summarize_placement-totals_example :
    ((summarize_placement assignment dense_tensors).total_gpu_bytes
      ≡ total (weight assignment gpu) dense_tensors)
    × ((summarize_placement assignment dense_tensors).total_ram_bytes
        ≡ total (weight assignment ram) dense_tensors)
    × ((summarize_placement assignment dense_tensors).total_nvme_bytes
        ≡ total (weight assignment nvme) dense_tensors)
    × ((summarize_placement assignment dense_tensors).total_gpu_bytes
          + (summarize_placement assignment dense_tensors).total_ram_bytes
          + (summarize_placement assignment dense_tensors).total_nvme_bytes
        ≡ total bytes dense_tensors)
summarize_placement-totals_example =
    summarize_placement-totals assignment dense_tensors (omega arith)
