-- ===== src/Scheduler/Summary/Totals.antt =====
-- The summary's bytes.
use hypura.Prelude.{ℕ, ◌+◌, ◌<◌, List, [], ◌∷◌, if◌then◌else◌, ◌≡◌, arith}
use hypura.Prelude.Keys.{nat_eq}
use hypura.Prelude.Sort.{total}
use hypura.Prelude.Machine.{u64_small}
use hypura.Model.Gguf.{TensorInfo}
use hypura.Scheduler.Types.{StorageTier, gpu, ram, nvme}
use hypura.Scheduler.Placement.{Assignments}
use hypura.Scheduler.Summary.{tier_of, Tally, tally, tally_all, summarize_placement, bytes, on_tier}

abbrev pub size_on : StorageTier → StorageTier → TensorInfo → ℕ
size_on tier at t = if on_tier tier at then t.size_bytes else 0

-- A tally grew by these bytes.
abbrev pub Grew : Tally → Tally → (on_gpu in_ram on_nvme : ℕ) → Type 0
Grew s r g m n =
    (r.gpu_bytes ≡ s.gpu_bytes + g)
    × (r.ram_bytes ≡ s.ram_bytes + m)
    × (r.nvme_bytes ≡ s.nvme_bytes + n)

tally-Grew :
    (at : StorageTier) (t : TensorInfo) (s : Tally)
    → s.gpu_bytes + s.ram_bytes + s.nvme_bytes + t.size_bytes < 18446744073709551616
    → Grew s (tally at t s) (size_on gpu at t) (size_on ram at t) (size_on nvme at t)
unfolding tally
tally-Grew gpu t s small = ground (arith, u64_small (s.gpu_bytes + t.size_bytes))
tally-Grew ram t s small = ground (arith, u64_small (s.ram_bytes + t.size_bytes))
tally-Grew nvme t s small = ground (arith, u64_small (s.nvme_bytes + t.size_bytes))

size_on-sum :
    (at : StorageTier) (t : TensorInfo)
    → size_on gpu at t + size_on ram at t + size_on nvme at t ≡ t.size_bytes
size_on-sum gpu t = omega arith
size_on-sum ram t = omega arith
size_on-sum nvme t = omega arith

module _ (a : Assignments) where
  abbrev pub weight : StorageTier → TensorInfo → ℕ
  weight tier t = size_on tier (tier_of a t) t

  tally_all-Grew :
      (ts : List TensorInfo) (s : Tally)
      → s.gpu_bytes + s.ram_bytes + s.nvme_bytes + total bytes ts < 18446744073709551616
      → Grew s
          (tally_all a ts s)
          (total (weight gpu) ts)
          (total (weight ram) ts)
          (total (weight nvme) ts)
  unfolding tally_all
  tally_all-Grew [] s small = (omega arith, omega arith, omega arith)
  tally_all-Grew (t ∷ ts) s small =
      let sum = size_on-sum (tier_of a t) t in
      let (g, m, n) = tally-Grew (tier_of a t) t s (omega arith) in
      let (g', m', n') =
        tally_all-Grew ts (tally (tier_of a t) t s) (omega (arith, g, m, n, sum)) in
      (omega (arith, g, g'), omega (arith, m, m'), omega (arith, n, n'))

  total-weight :
      (ts : List TensorInfo)
      → total (weight gpu) ts + total (weight ram) ts + total (weight nvme) ts ≡ total bytes ts
  total-weight [] = omega arith
  total-weight (t ∷ ts) = omega (arith, total-weight ts, size_on-sum (tier_of a t) t)

-- For tensors whose sizes add up to less than 2^64, the summary has for each tier the bytes of the
-- tensors there, where those without an assignment count as on the drive, and the three add up to
-- the bytes of all tensors.
pub summarize_placement-totals :
    (a : Assignments) (ts : List TensorInfo)
    → total bytes ts < 18446744073709551616
    → ((summarize_placement a ts).total_gpu_bytes ≡ total (weight a gpu) ts)
      × ((summarize_placement a ts).total_ram_bytes ≡ total (weight a ram) ts)
      × ((summarize_placement a ts).total_nvme_bytes ≡ total (weight a nvme) ts)
      × ((summarize_placement a ts).total_gpu_bytes
            + (summarize_placement a ts).total_ram_bytes
            + (summarize_placement a ts).total_nvme_bytes
          ≡ total bytes ts)
unfolding summarize_placement
summarize_placement-totals a ts small =
    let start : Tally = record {
      gpu_bytes = 0;
      ram_bytes = 0;
      nvme_bytes = 0;
      gpu_layers = [];
      ram_layers = [];
      nvme_layers = [];
    } in
    let (g, m, n) = tally_all-Grew a ts start (omega arith) in
    (
      omega (arith, g),
      omega (arith, m),
      omega (arith, n),
      omega (arith, g, m, n, total-weight a ts),
    )
