-- ===== src/Scheduler/Plan/Covers.antt =====
-- The keys of the assignment that the solver or the greedy routine of src/scheduler/placement.rs
-- gives.
use hypura.Prelude.{
  ℕ, zero, suc, ◌+◌, ◌-◌, ◌||◌, none, some, List, [], ◌∷◌, ◌++◌, leb, length, ◌≡◌, refl, arith, inl,
  inr, Bool-cases, Option-cases,
}
use hypura.Prelude.Keys.{Distinct, contains, nat_eq}
use hypura.Prelude.Dict.{insert, keys, values, contains-keys-insert, Distinct-insert}
use hypura.Prelude.Text.{Text, text_eq}
use hypura.Prelude.Float.{F64}
use hypura.Prelude.Sort.{sort}
use hypura.Prelude.Named.{contains-total, occurs, total-append, contains-names-sort}
use hypura.Scheduler.Types.{StorageTier, gpu, ram, nvme}
use hypura.Scheduler.Placement.{
  Assignments, HardwareProfile, TierCapacities, ModelMetadata, ScoredTensor, by_score, assign_all,
  assign_resident,
}
use hypura.Scheduler.Placement.Streaming.{name, names}
use hypura.Scheduler.Placement.Greedy.{
  greedy_assign, separate, flatten, assign_other, assign_others, apply_cutoff, find_cutoff,
  total_cost, Ledger,
}
use hypura.Scheduler.Placement.Greedy.Room.{total-separate}
use hypura.Scheduler.Plan.{Solver, solve, lp_assign, extract}

module _ (F : F64) where
  -- The keys of an assignment are distinct, and are those of another and the names of some tensors.
  pub record Adds (ts : List (ScoredTensor F)) (a b : Assignments) : Type 0 where
    pub once : Distinct (keys a) → Distinct (keys b)
    pub same : (k : Text) → contains k (keys b) ≡ (contains k (names F ts) || contains k (keys a))

  insert-Adds :
      (t : ScoredTensor F) (ts : List (ScoredTensor F)) (tier : StorageTier) (a b : Assignments)
      → Adds ts (insert t.name tier a) b
      → Adds (t ∷ ts) a b
  insert-Adds t ts tier a b h = record {
    once = λ d. h.once (Distinct-insert t.name tier a d);
    same = λ k. ground (arith, h.same k, contains-keys-insert t.name k tier a);
  }

  assign_all-Adds :
      (tier : StorageTier) (ts : List (ScoredTensor F)) (a : Assignments)
      → Adds ts a (assign_all F tier ts a)
  unfolding assign_all
  assign_all-Adds tier [] a = record { once = λ d. d; same = λ k. refl }
  assign_all-Adds tier (t ∷ ts) a =
      insert-Adds t ts tier a _ (assign_all-Adds tier ts (insert t.name tier a))

  extract-Adds :
      (x : ℕ → F.Num × F.Num) (i : ℕ) (ts : List (ScoredTensor F)) (a : Assignments)
      → Adds ts a (extract F x i ts a)
  unfolding extract
  extract-Adds x i [] a = record { once = λ d. d; same = λ k. refl }
  extract-Adds x i (t ∷ ts) a = insert-Adds t ts _ a _ (extract-Adds x (i + 1) ts _)

  assign_resident-Adds :
      (ts : List (ScoredTensor F)) (g : ℕ) (a : Assignments)
      → Adds ts a (assign_resident F ts g a).1
  unfolding assign_resident
  assign_resident-Adds [] g a = record { once = λ d. d; same = λ k. refl }
  assign_resident-Adds (t ∷ ts) g a = elim (Bool-cases (leb t.size_bytes g)) [
    | inl fits ↦ rw fits (
        insert-Adds t ts gpu a _ (assign_resident-Adds ts (g - t.size_bytes) (insert t.name gpu a)))
    | inr over ↦
        rw over (insert-Adds t ts ram a _ (assign_resident-Adds ts g (insert t.name ram a)))
  ]

  assign_other-Adds :
      (t : ScoredTensor F) (r : Ledger F)
      → Adds (t ∷ []) r.assignments (assign_other F t r).assignments
  unfolding assign_other
  assign_other-Adds t r = record {
    once = λ d. ground (
      arith,
      Distinct-insert t.name gpu r.assignments d,
      Distinct-insert t.name ram r.assignments d,
      Distinct-insert t.name nvme r.assignments d,
    );
    same = λ k. ground (
      arith,
      contains-keys-insert t.name k gpu r.assignments,
      contains-keys-insert t.name k ram r.assignments,
      contains-keys-insert t.name k nvme r.assignments,
    );
  }

  contains-append_names :
      (k : Text) (xs ys : List (ScoredTensor F))
      → contains k (names F (xs ++ ys)) ≡ (contains k (names F xs) || contains k (names F ys))
  contains-append_names k xs ys = ground (
    arith,
    contains-total (name F) k (xs ++ ys),
    contains-total (name F) k xs,
    contains-total (name F) k ys,
    total-append (occurs (name F) k) xs ys,
  )

  Adds-then :
      {xs ys : List (ScoredTensor F)} {a b c : Assignments}
      → Adds xs a b
      → Adds ys b c
      → Adds (xs ++ ys) a c
  Adds-then {xs} {ys} h g = record {
    once = λ d. g.once (h.once d);
    same = λ k. ground (arith, h.same k, g.same k, contains-append_names k xs ys);
  }

  Adds-same :
      {xs ys : List (ScoredTensor F)} {a b : Assignments}
      → ((k : Text) → contains k (names F xs) ≡ contains k (names F ys))
      → Adds xs a b
      → Adds ys a b
  Adds-same e h = record { once = h.once; same = λ k. ground (arith, h.same k, e k) }

  assign_others-Adds :
      (ts : List (ScoredTensor F)) (r : Ledger F)
      → Adds ts r.assignments (assign_others F ts r).assignments
  unfolding assign_others
  assign_others-Adds [] r = record { once = λ d. d; same = λ k. refl }
  assign_others-Adds (t ∷ ts) r =
      Adds-then (assign_other-Adds t r) (assign_others-Adds ts (assign_other F t r))

  apply_cutoff-Adds :
      (c : ℕ) (layers : List (List (ScoredTensor F))) (g : ℕ) (a : Assignments)
      → Adds (flatten F layers) a (apply_cutoff F c layers g a)
  unfolding apply_cutoff
  apply_cutoff-Adds c [] g a = record { once = λ d. d; same = λ k. refl }
  apply_cutoff-Adds zero (ts ∷ layers) g a =
      Adds-then (assign_all-Adds nvme ts a)
        (apply_cutoff-Adds zero layers g (assign_all F nvme ts a))
  apply_cutoff-Adds (suc c) (ts ∷ layers) g a =
      let r = assign_resident F (sort (by_score F) ts) g a in
      Adds-then
        (Adds-same (λ k. contains-names-sort (name F) (by_score F) k ts)
          (assign_resident-Adds (sort (by_score F) ts) g a))
        (apply_cutoff-Adds c layers r.0 r.1)

  greedy_assign-Adds :
      (ts : List (ScoredTensor F)) (caps : TierCapacities) (hw : HardwareProfile)
      (m : ModelMetadata)
      → Adds ts [] (greedy_assign F ts caps hw m)
  unfolding greedy_assign
  greedy_assign-Adds ts caps hw m =
      let others = (separate F ts ([], [])).1 in
      let layers = values (separate F ts ([], [])).0 in
      let start : Ledger F = record {
        gpu_remaining = caps.gpu_bytes;
        unified_remaining = caps.unified_limit;
        assignments = [];
      } in
      let sorted = sort (by_score F) others in
      let r = assign_others F sorted start in
      let c =
        find_cutoff F (total_cost F hw caps m layers) layers r.unified_remaining
          (suc (length layers)) 0 0 F.largest in
      let all : (k : Text)
          → contains k (names F (sorted ++ flatten F layers)) ≡ contains k (names F ts) =
        λ k. ground (
          arith,
          contains-append_names k sorted (flatten F layers),
          contains-names-sort (name F) (by_score F) k others,
          contains-total (name F) k (flatten F layers),
          contains-total (name F) k others,
          contains-total (name F) k ts,
          total-separate F (occurs (name F) k) ts ([], []),
        ) in
      Adds-same all (
        Adds-then (assign_others-Adds sorted start)
          (apply_cutoff-Adds c layers r.gpu_remaining r.assignments))

  module _ (solver : Solver F) (t : ScoredTensor F) (ts : List (ScoredTensor F))
      (caps : TierCapacities) (hw : HardwareProfile) (m : ModelMetadata) where
    solve-greedy_assign :
        solver (t ∷ ts) caps hw m ≡ none
        → solve F solver (t ∷ ts) caps hw m ≡ greedy_assign F (t ∷ ts) caps hw m
    unfolding solve lp_assign
    solve-greedy_assign e = ground (arith, e)

    solve-extract :
        {x : ℕ → F.Num × F.Num}
        → solver (t ∷ ts) caps hw m ≡ some x
        → solve F solver (t ∷ ts) caps hw m ≡ extract F x 0 (t ∷ ts) []
    unfolding solve lp_assign
    solve-extract e = ground (arith, e)

  -- Whatever the solver gives, the keys of the assignment are the names of the tensors, each once.
  pub solve-Adds :
      (solver : Solver F) (ts : List (ScoredTensor F)) (caps : TierCapacities)
      (hw : HardwareProfile) (m : ModelMetadata)
      → Adds ts [] (solve F solver ts caps hw m)
  unfolding solve lp_assign
  solve-Adds solver [] caps hw m = record { once = λ d. d; same = λ k. refl }
  solve-Adds solver (t ∷ ts) caps hw m = elim (Option-cases (solver (t ∷ ts) caps hw m)) [
    | inl e ↦
        rw (solve-greedy_assign solver t ts caps hw m e) (greedy_assign-Adds (t ∷ ts) caps hw m)
    | inr (x, e) ↦ rw (solve-extract solver t ts caps hw m e) (extract-Adds x 0 (t ∷ ts) [])
  ]
