-- ===== src/Scheduler/Placement/Greedy/Layers.antt =====
-- The choice of the cut-off, and the whole of `greedy_assign`.
use hypura.Prelude.{
  ℕ, zero, suc, ◌+◌, ◌≤◌, ◌<◌, List, [], ◌∷◌, ◌++◌, ltb, length, take, ◌≡◌, inl, inr, arith, All,
  Bool-cases,
}
use hypura.Prelude.Keys.{nat_eq, Distinct}
use hypura.Prelude.Dict.{lookup, values}
use hypura.Prelude.Text.{text_eq}
use hypura.Prelude.Float.{F64}
use hypura.Prelude.Sort.{sort, total, total-sort}
use hypura.Prelude.Machine.{u64_total, u64_total_small}
use hypura.Prelude.Named.{
  All-both, total-append, occurs, Distinct-once, once-Distinct, All-apart, Distinct-names-sort,
}
use hypura.Scheduler.Placement.{
  ScoredTensor, TierCapacities, HardwareProfile, ModelMetadata, size, by_score,
}
use hypura.Scheduler.Placement.Streaming.{is_gpu, is_resident, name, names}
use hypura.Scheduler.Placement.Greedy.{
  Ledger, assign_others, separate, flatten, find_cutoff, apply_cutoff, greedy_assign, total_cost,
}
use hypura.Scheduler.Placement.Greedy.Room.{
  tier_size, total-tier_size_same, assign_others-Paid, total-separate,
}
use hypura.Scheduler.Placement.Greedy.Tiers.{
  Distinct-append, lookup-apply_cutoff, apply_cutoff-room,
}

module _ (F : F64) where
  -- The cut-off found is one whose layers fit.
  find_cutoff-fits :
      (cost : ℕ → F.Num) (layers : List (List (ScoredTensor F))) (unified left cutoff best : ℕ)
      (best_cost : F.Num)
      → u64_total (size F) (flatten F (take best layers)) ≤ unified
      → u64_total
          (size F)
          (flatten F (take (find_cutoff F cost layers unified left cutoff best best_cost) layers))
        ≤ unified
  unfolding find_cutoff
  find_cutoff-fits cost layers unified zero cutoff best best_cost h = h
  find_cutoff-fits cost layers unified (suc left) cutoff best best_cost h =
      elim (Bool-cases (ltb unified (u64_total (size F) (flatten F (take cutoff layers))))) [
        | inl over ↦ rw over h
        | inr fits ↦ rw fits (elim (Bool-cases (F.lt (cost cutoff) best_cost)) [
          | inl less ↦ rw less (
              find_cutoff-fits cost layers unified left (suc cutoff) cutoff (cost cutoff)
                (ground (arith, fits)))
          | inr more ↦
              rw more (find_cutoff-fits cost layers unified left (suc cutoff) best best_cost h)
        ])
      ]

  total-take-le :
      (w : ScoredTensor F → ℕ) (c : ℕ) (layers : List (List (ScoredTensor F)))
      → total w (flatten F (take c layers)) ≤ total w (flatten F layers)
  total-take-le w zero layers = omega arith
  total-take-le w (suc c) [] = omega arith
  total-take-le w (suc c) (ts ∷ layers) = omega (
    arith,
    total-take-le w c layers,
    total-append w ts (flatten F (take c layers)),
    total-append w ts (flatten F layers),
  )

  -- For tensors with distinct names whose sizes add up to less than 2^64, the greedy assignment puts
  -- no more on the GPU than it has room for, and no more on the GPU and in memory together than the
  -- unified limit.
  pub greedy_assign-room :
      (ts : List (ScoredTensor F)) (caps : TierCapacities) (hw : HardwareProfile)
      (m : ModelMetadata)
      → Distinct (names F ts)
      → total (size F) ts < 18446744073709551616
      → (total (tier_size F is_gpu (greedy_assign F ts caps hw m)) ts ≤ caps.gpu_bytes)
        × (total (tier_size F is_resident (greedy_assign F ts caps hw m)) ts ≤ caps.unified_limit)
  unfolding greedy_assign
  greedy_assign-room ts caps hw m d small =
      let others = (separate F ts ([], [])).1 in
      let layers = values (separate F ts ([], [])).0 in
      let flat = flatten F layers in
      let start : Ledger F = record {
        gpu_remaining = caps.gpu_bytes;
        unified_remaining = caps.unified_limit;
        assignments = [];
      } in
      let sorted = sort (by_score F) others in
      let r = assign_others F sorted start in
      let cost = total_cost F hw caps m layers in
      let c = find_cutoff F cost layers r.unified_remaining (suc (length layers)) 0 0 F.largest in
      let a = apply_cutoff F c layers r.gpu_remaining r.assignments in
      let all : (w : ScoredTensor F → ℕ) → total w flat + total w others ≡ total w ts =
        λ w. omega (arith, total-separate F w ts ([], [])) in
      let whole = once-Distinct (name F) (others ++ flat) (λ k. omega (
        arith,
        Distinct-once (name F) ts d k,
        all (occurs (name F) k),
        total-append (occurs (name F) k) others flat,
      )) in
      let (d1, d2) = Distinct-append F others flat whole in
      let (g1, u1) =
        assign_others-Paid F sorted start (Distinct-names-sort (name F) (by_score F) others d1) in
      let (g2, u2) = apply_cutoff-room F c layers r.gpu_remaining r.assignments d2 in
      let apart = All-apart (name F) others flat whole in
      let kept : All (λ t. lookup t.name a ≡ lookup t.name r.assignments) others =
        All-both others
          (λ t absent e. lookup-apply_cutoff F t.name c layers r.gpu_remaining r.assignments absent)
          apart apart in
      let fits =
        find_cutoff-fits cost layers r.unified_remaining (suc (length layers)) 0 0 F.largest
          (omega arith) in
      let sized =
        u64_total_small (size F) (flatten F (take c layers))
          (omega (arith, small, all (size F), total-take-le (size F) c layers)) in
      (
        omega (
          arith,
          all (tier_size F is_gpu a),
          total-tier_size_same F is_gpu a r.assignments others kept,
          total-sort (by_score F) (tier_size F is_gpu r.assignments) others,
          g1,
          g2,
        ),
        omega (
          arith,
          all (tier_size F is_resident a),
          total-tier_size_same F is_resident a r.assignments others kept,
          total-sort (by_score F) (tier_size F is_resident r.assignments) others,
          u1,
          u2,
          fits,
          sized,
        ),
      )
