-- ===== src/Scheduler/Placement/Greedy/Tiers.antt =====
-- The loop over the layers below and above the cut-off.
use hypura.Prelude.{
  ℕ, zero, suc, ◌≤◌, false, some, List, [], ◌∷◌, ◌++◌, take, ◌≡◌, refl, ◌∙◌, arith, All,
}
use hypura.Prelude.Keys.{nat_eq, contains, Distinct}
use hypura.Prelude.Dict.{lookup}
use hypura.Prelude.Text.{Text, text_eq}
use hypura.Prelude.Float.{F64}
use hypura.Prelude.Sort.{sort, total, total-sort}
use hypura.Prelude.Named.{
  All-both, total_zero, total-append, occurs, contains-total, Distinct-once, once-Distinct,
  All-apart, contains-names-sort, Distinct-names-sort,
}
use hypura.Scheduler.Types.{nvme}
use hypura.Scheduler.Placement.{
  Assignments, ScoredTensor, size, by_score, assign_all, assign_resident,
}
use hypura.Scheduler.Placement.Streaming.{
  is_gpu, is_resident, name, names, lookup-assign_all, All-assign_all, lookup-assign_resident,
  assign_resident-Fits,
}
use hypura.Scheduler.Placement.Greedy.{flatten, apply_cutoff}
use hypura.Scheduler.Placement.Greedy.Room.{tier_size, total-tier_size_same, total-tier_size-le}

module _ (F : F64) where
  pub absent-append :
      (k : Text) (xs ys : List (ScoredTensor F))
      → contains k (names F (xs ++ ys)) ≡ false
      → (contains k (names F xs) ≡ false) × (contains k (names F ys) ≡ false)
  absent-append k xs ys h = ground (
    arith,
    contains-total (name F) k (xs ++ ys),
    contains-total (name F) k xs,
    contains-total (name F) k ys,
    total-append (occurs (name F) k) xs ys,
  )

  pub Distinct-append :
      (xs ys : List (ScoredTensor F))
      → Distinct (names F (xs ++ ys))
      → Distinct (names F xs) × Distinct (names F ys)
  Distinct-append xs ys d = (
    once-Distinct (name F) xs (λ k.
        omega
          (arith, Distinct-once (name F) (xs ++ ys) d k, total-append (occurs (name F) k) xs ys)),
    once-Distinct (name F) ys (λ k.
        omega
          (arith, Distinct-once (name F) (xs ++ ys) d k, total-append (occurs (name F) k) xs ys)),
  )

  pub lookup-apply_cutoff :
      (k : Text) (c : ℕ) (layers : List (List (ScoredTensor F))) (g : ℕ) (a : Assignments)
      → contains k (names F (flatten F layers)) ≡ false
      → lookup k (apply_cutoff F c layers g a) ≡ lookup k a
  unfolding apply_cutoff
  lookup-apply_cutoff k c [] g a h = refl
  lookup-apply_cutoff k zero (ts ∷ layers) g a h =
      let (here, later) = absent-append k ts (flatten F layers) h in
      lookup-apply_cutoff k zero layers g (assign_all F nvme ts a) later
      ∙ ground (arith, lookup-assign_all F k nvme ts a)
  lookup-apply_cutoff k (suc c) (ts ∷ layers) g a h =
      let (here, later) = absent-append k ts (flatten F layers) h in
      let r = assign_resident F (sort (by_score F) ts) g a in
      lookup-apply_cutoff k c layers r.0 r.1 later
      ∙ lookup-assign_resident F k (sort (by_score F) ts) g a
          (contains-names-sort (name F) (by_score F) k ts ∙ here)

  -- The bytes that the loop over the layers places.
  pub apply_cutoff-room :
      (c : ℕ) (layers : List (List (ScoredTensor F))) (g : ℕ) (a : Assignments)
      → Distinct (names F (flatten F layers))
      → (total (tier_size F is_gpu (apply_cutoff F c layers g a)) (flatten F layers) ≤ g)
        × (total (tier_size F is_resident (apply_cutoff F c layers g a)) (flatten F layers)
            ≤ total (size F) (flatten F (take c layers)))
  unfolding apply_cutoff
  apply_cutoff-room c [] g a d = (omega arith, omega arith)
  apply_cutoff-room zero (ts ∷ layers) g a d =
      let flat = flatten F layers in
      let b = apply_cutoff F zero layers g (assign_all F nvme ts a) in
      let (one, two) = Distinct-append ts flat d in
      let (h, k) = apply_cutoff-room zero layers g (assign_all F nvme ts a) two in
      let there : All (λ t. lookup t.name b ≡ some nvme) ts =
        All-both ts
          (λ t absent e.
            lookup-apply_cutoff t.name zero layers g (assign_all F nvme ts a) absent ∙ e)
          (All-apart (name F) ts flat d) (All-assign_all F nvme ts a) in
      let on_gpu =
        total_zero (tier_size F is_gpu b) ts (All-both ts (λ t e e'. ground arith) there there) in
      let here =
        total_zero (tier_size F is_resident b) ts
          (All-both ts (λ t e e'. ground arith) there there) in
      (
        omega (arith, on_gpu, h, total-append (tier_size F is_gpu b) ts flat),
        omega (arith, here, k, total-append (tier_size F is_resident b) ts flat),
      )
  apply_cutoff-room (suc c) (ts ∷ layers) g a d =
      let flat = flatten F layers in
      let sorted = sort (by_score F) ts in
      let r = assign_resident F sorted g a in
      let b = apply_cutoff F c layers r.0 r.1 in
      let (one, two) = Distinct-append ts flat d in
      let (h, k) = apply_cutoff-room c layers r.0 r.1 two in
      let fits =
        assign_resident-Fits F sorted g a (Distinct-names-sort (name F) (by_score F) ts one) in
      let apart = All-apart (name F) ts flat d in
      let kept : All (λ t. lookup t.name b ≡ lookup t.name r.1) ts =
        All-both ts (λ t absent e. lookup-apply_cutoff t.name c layers r.0 r.1 absent) apart
          apart in
      let moved = total-tier_size_same F is_gpu b r.1 ts kept in
      (
        omega (
          arith,
          h,
          moved,
          fits.room,
          total-sort (by_score F) (tier_size F is_gpu r.1) ts,
          total-append (tier_size F is_gpu b) ts flat,
        ),
        omega (
          arith,
          k,
          total-tier_size-le F is_resident b ts,
          total-append (tier_size F is_resident b) ts flat,
          total-append (size F) ts (flatten F (take c layers)),
        ),
      )
