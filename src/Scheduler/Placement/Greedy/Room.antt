-- ===== src/Scheduler/Placement/Greedy/Room.antt =====
-- The greedy assignment keeps to the room on the GPU and in memory.
use hypura.Prelude.{
  ℕ, ◌+◌, ◌≤◌, Bool, false, Option, none, some, List, [], ◌∷◌, ◌++◌, if◌then◌else◌, ◌≡◌, refl, ap,
  arith, All,
}
use hypura.Prelude.Keys.{nat_eq, ◌==◌, beq_refl, contains, Distinct}
use hypura.Prelude.Dict.{Dict, lookup, values, lookup-insert}
use hypura.Prelude.Text.{Text, text_eq}
use hypura.Prelude.Float.{F64}
use hypura.Prelude.Sort.{total}
use hypura.Prelude.Named.{All-both, total_same, total-append}
use hypura.Scheduler.Types.{StorageTier, gpu, ram, nvme}
use hypura.Scheduler.Placement.{Assignments, ScoredTensor, size}
use hypura.Scheduler.Placement.Streaming.{is_gpu, is_resident, names, lookup-insert_absent}
use hypura.Scheduler.Placement.Greedy.{
  Ledger, assign_other, assign_others, push_layer, separate, flatten, sort_out,
}

module _ (F : F64) where
  -- The bytes of a tensor that an assignment puts where a test holds.
  abbrev pub tier_size : (Option StorageTier → Bool) → Assignments → ScoredTensor F → ℕ
  tier_size q a t = if q (lookup t.name a) then t.size_bytes else 0

  pub total-tier_size_same :
      (q : Option StorageTier → Bool) (b a : Assignments) (ts : List (ScoredTensor F))
      → All (λ t. lookup t.name b ≡ lookup t.name a) ts
      → total (tier_size q b) ts ≡ total (tier_size q a) ts
  total-tier_size_same q b a ts h =
      total_same (tier_size q b) (tier_size q a) ts
        (All-both ts (λ t e e'. ap (λ o. if q o then t.size_bytes else 0) e) h h)

  pub total-tier_size-le :
      (q : Option StorageTier → Bool) (a : Assignments) (ts : List (ScoredTensor F))
      → total (tier_size q a) ts ≤ total (size F) ts
  total-tier_size-le q a [] = omega arith
  total-tier_size-le q a (t ∷ ts) = ground (arith, total-tier_size-le q a ts)

  pub lookup-assign_other :
      (k : Text) (t : ScoredTensor F) (r : Ledger F)
      → (k == t.name) ≡ false
      → lookup k (assign_other F t r).assignments ≡ lookup k r.assignments
  unfolding assign_other
  lookup-assign_other k t r h = ground (
    arith,
    lookup-insert_absent F t k gpu r.assignments,
    lookup-insert_absent F t k ram r.assignments,
    lookup-insert_absent F t k nvme r.assignments,
  )

  pub lookup-assign_others :
      (k : Text) (ts : List (ScoredTensor F)) (r : Ledger F)
      → contains k (names F ts) ≡ false
      → lookup k (assign_others F ts r).assignments ≡ lookup k r.assignments
  unfolding assign_others
  lookup-assign_others k [] r h = refl
  lookup-assign_others k (t ∷ ts) r h =
      ground (arith, lookup-assign_others k ts (assign_other F t r), lookup-assign_other k t r)

  -- What the ledger lost is what was assigned.
  abbrev pub Paid : Ledger F → Ledger F → (gpu_bytes resident_bytes : ℕ) → Type 0
  Paid r s g u =
      (s.gpu_remaining + g ≡ r.gpu_remaining) × (s.unified_remaining + u ≡ r.unified_remaining)

  assign_other-Paid :
      (t : ScoredTensor F) (r : Ledger F)
      → Paid r
          (assign_other F t r)
          (tier_size is_gpu (assign_other F t r).assignments t)
          (tier_size is_resident (assign_other F t r).assignments t)
  unfolding assign_other
  assign_other-Paid t r = ground (
    arith,
    lookup-insert t.name t.name gpu r.assignments,
    lookup-insert t.name t.name ram r.assignments,
    lookup-insert t.name t.name nvme r.assignments,
    beq_refl t.name,
  )

  pub assign_others-Paid :
      (ts : List (ScoredTensor F)) (r : Ledger F)
      → Distinct (names F ts)
      → Paid r
          (assign_others F ts r)
          (total (tier_size is_gpu (assign_others F ts r).assignments) ts)
          (total (tier_size is_resident (assign_others F ts r).assignments) ts)
  unfolding assign_others
  assign_others-Paid [] r d = (omega arith, omega arith)
  assign_others-Paid (t ∷ ts) r d =
      let s = assign_other F t r in
      let kept = lookup-assign_others t.name ts s d.0 in
      let g = ap (λ o. if is_gpu o then t.size_bytes else 0) kept in
      let u = ap (λ o. if is_resident o then t.size_bytes else 0) kept in
      let (g1, u1) = assign_other-Paid t r in
      let (g2, u2) = assign_others-Paid ts s d.1 in
      (omega (arith, g, g1, g2), omega (arith, u, u1, u2))

  total-push_layer :
      (w : ScoredTensor F → ℕ) (l : ℕ) (t : ScoredTensor F) (m : Dict ℕ (List (ScoredTensor F)))
      → total w (flatten F (values (push_layer F l t m))) ≡ w t + total w (flatten F (values m))
  unfolding push_layer
  total-push_layer w l t [] = refl
  total-push_layer w l t ((k, ts) ∷ m) = ground (
    arith,
    total-push_layer w l t m,
    total-append w ts (t ∷ []),
    total-append w (ts ++ (t ∷ [])) (flatten F (values m)),
    total-append w ts (flatten F (values m)),
    total-append w ts (flatten F (values (push_layer F l t m))),
  )

  total-sort_out :
      (w : ScoredTensor F → ℕ) (o : Option ℕ) (t : ScoredTensor F)
      (acc : Dict ℕ (List (ScoredTensor F)) × List (ScoredTensor F))
      → total w (flatten F (values (sort_out F o t acc).0)) + total w (sort_out F o t acc).1
        ≡ w t + (total w (flatten F (values acc.0)) + total w acc.1)
  total-sort_out w (some l) t (layers, others) = omega (arith, total-push_layer w l t layers)
  total-sort_out w none t (layers, others) = omega (arith, total-append w others (t ∷ []))

  -- Sorting the tensors out loses none.
  pub total-separate :
      (w : ScoredTensor F → ℕ) (ts : List (ScoredTensor F))
      (acc : Dict ℕ (List (ScoredTensor F)) × List (ScoredTensor F))
      → total w (flatten F (values (separate F ts acc).0)) + total w (separate F ts acc).1
        ≡ total w ts + (total w (flatten F (values acc.0)) + total w acc.1)
  unfolding separate
  total-separate w [] acc = omega arith
  total-separate w (t ∷ ts) acc = omega (
    arith,
    total-separate w ts (sort_out F t.layer_index t acc),
    total-sort_out w t.layer_index t acc,
  )
