-- ===== src/Cli/Optimize/Tests.antt =====
-- A tensor of three experts of two bytes each.
use hypura.Prelude.{
  ℕ, zero, suc, ◌*◌, ◌<◌, List, [], ◌∷◌, some, ◌≡◌, refl, arith, length, replicate,
}
use hypura.Prelude.Text.{codes}
use hypura.Prelude.Keys.{nat_eq}
use hypura.Cache.Coactivation.{Matrix}
use hypura.Io.Layout.{ExpertLayout, map_expert_id, invert}
use hypura.Io.Layout.Inverse.{IsOrder}
use hypura.Cli.Optimize.{reorder_from, rewrite_tensor, rewritten}
use hypura.Cli.Optimize.Bytes.{byte_of, reorder_from-byte_of}
use hypura.Cli.Optimize.Order.{count_at, compute_optimal_expert_order}
use hypura.Cli.Optimize.Order.Complete.{Covers, compute_optimal_expert_order-IsOrder}

abbrev order : List ℕ
order = 2 ∷ 0 ∷ 1 ∷ []

order-IsOrder : IsOrder 3 order
order-IsOrder = record {
  size = refl;
  below = (omega arith, (omega arith, (omega arith, tt)));
  distinct = (refl, (refl, (refl, tt)));
  complete = λ e h. ground arith;
}

abbrev bytes : List ℕ
bytes = 10 ∷ 11 ∷ 20 ∷ 21 ∷ 30 ∷ 31 ∷ []

rewrites : rewrite_tensor order 3 bytes ≡ rewritten (30 ∷ 31 ∷ 10 ∷ 11 ∷ 20 ∷ 21 ∷ [])
unfolding rewrite_tensor
rewrites = refl

abbrev layout : ExpertLayout
unfolding invert
layout = record {
  tensor_name = codes "blk.0.ffn_up_exps.weight";
  layer_index = 0;
  num_experts = 3;
  expert_stride = 2;
  file_offset = 0;
  buffer_offset = 0;
  total_size = 6;
  expert_permutation = some (invert order);
}

reorder_from-byte_of_example :
    (after : List ℕ) × ((reorder_from order 0 2 bytes (replicate {A = ℕ} (length bytes) 0)
        ≡ some after)
      × ((e k : ℕ)
          → e < 3
          → k < 2
          → byte_of after (map_expert_id layout e * 2) k ≡ byte_of bytes (e * 2) k))
unfolding layout
reorder_from-byte_of_example = reorder_from-byte_of order 3 2 bytes layout order-IsOrder refl refl

abbrev counts : Matrix
counts = (5 ∷ 4 ∷ []) ∷ (4 ∷ 6 ∷ []) ∷ []

counts-Covers : Covers 2 counts
counts-Covers = record { cells = found }
  where
    found : (a b : ℕ) → a < 2 → b < 2 → (k : ℕ) × (count_at counts a b ≡ some k)
    found zero zero h k = (5, refl)
    found zero (suc zero) h k = (4, refl)
    found (suc zero) zero h k = (4, refl)
    found (suc zero) (suc zero) h k = (6, refl)
    found (suc (suc a)) b h k = absurd (omega arith)
    found a (suc (suc b)) h k = absurd (omega arith)

walk : compute_optimal_expert_order (counts ∷ []) 0 2 ≡ some (1 ∷ 0 ∷ [])
unfolding compute_optimal_expert_order
walk = refl

compute_optimal_expert_order-IsOrder_example :
    (found : List ℕ) × ((compute_optimal_expert_order (counts ∷ []) 0 2 ≡ some found)
      × IsOrder 2 found)
compute_optimal_expert_order-IsOrder_example =
    compute_optimal_expert_order-IsOrder (counts ∷ []) 0 2 (λ h. counts-Covers)
