-- ===== src/Scheduler/Placement/Streaming.antt =====
-- The streaming modes of placement: what goes to the drive, and that the GPU is not over-filled.
use hypura.Prelude.{
  ℕ, ◌+◌, ◌-◌, ◌≤◌, Bool, true, false, not, ◌||◌, Option, some, List, [], ◌∷◌, map, if◌then◌else◌,
  leb, ◌≡◌, refl, ◌∙◌, ap, inl, inr, arith, All, Bool-cases,
}
use hypura.Prelude.Keys.{◌==◌, beq_refl, contains, Distinct, retain}
use hypura.Prelude.Dict.{lookup, insert, lookup-insert}
use hypura.Prelude.Text.{Text, text_eq}
use hypura.Prelude.Float.{F64}
use hypura.Prelude.Sort.{sort, total, total-sort, All-sort, total-retain}
use hypura.Prelude.Named.{
  All-both, total_same, total_zero, Distinct-names-retain, All-disjoint, Distinct-names-sort,
}
use hypura.Scheduler.Types.{StorageTier, gpu, ram, nvme}
use hypura.Scheduler.Placement.{
  Assignments, TierCapacities, ScoredTensor, by_score, assign_all, assign_resident, stream_assign,
}

abbrev pub is_gpu : Option StorageTier → Bool
is_gpu (some gpu) = true
is_gpu _ = false

-- On the GPU or in memory.
abbrev pub is_resident : Option StorageTier → Bool
is_resident (some gpu) = true
is_resident (some ram) = true
is_resident _ = false

module _ (F : F64) where
  abbrev pub name : ScoredTensor F → Text
  name t = t.name

  abbrev pub names : List (ScoredTensor F) → List Text
  names ts = map name ts

  -- The bytes of a tensor that an assignment puts on the GPU.
  abbrev pub gpu_size : Assignments → ScoredTensor F → ℕ
  gpu_size a t = if is_gpu (lookup t.name a) then t.size_bytes else 0

  pub lookup-assign_all :
      (k : Text) (tier : StorageTier) (ts : List (ScoredTensor F)) (a : Assignments)
      → lookup k (assign_all F tier ts a)
        ≡ (if contains k (names ts) then some tier else lookup k a)
  unfolding assign_all
  lookup-assign_all k tier [] a = refl
  lookup-assign_all k tier (t ∷ ts) a = ground (
    arith,
    lookup-assign_all k tier ts (insert t.name tier a),
    lookup-insert t.name k tier a,
    (text_eq.beq_iff k t.name).0,
    (text_eq.beq_iff k t.name).1,
    (text_eq.beq_iff t.name k).0,
    (text_eq.beq_iff t.name k).1,
  )

  pub All-assign_all :
      (tier : StorageTier) (ts : List (ScoredTensor F)) (a : Assignments)
      → All (λ t. lookup t.name (assign_all F tier ts a) ≡ some tier) ts
  unfolding assign_all
  All-assign_all tier [] a = tt
  All-assign_all tier (t ∷ ts) a = (
    ground (
      arith,
      lookup-assign_all t.name tier ts (insert t.name tier a),
      lookup-insert t.name t.name tier a,
      beq_refl t.name,
    ),
    All-assign_all tier ts (insert t.name tier a),
  )

  pub lookup-insert_absent :
      (t : ScoredTensor F) (k : Text) (tier : StorageTier) (a : Assignments)
      → (k == t.name) ≡ false
      → lookup k (insert t.name tier a) ≡ lookup k a
  lookup-insert_absent t k tier a h = ground (
    arith,
    lookup-insert t.name k tier a,
    (text_eq.beq_iff t.name k).0,
    (text_eq.beq_iff k t.name).1,
  )

  -- The names that are not among the tensors' keep their tiers.
  pub lookup-assign_resident :
      (k : Text) (ts : List (ScoredTensor F)) (g : ℕ) (a : Assignments)
      → contains k (names ts) ≡ false
      → lookup k (assign_resident F ts g a).1 ≡ lookup k a
  unfolding assign_resident
  lookup-assign_resident k [] g a h = refl
  lookup-assign_resident k (t ∷ ts) g a h =
      let (e, rest) = split_or h in
      elim (Bool-cases (leb t.size_bytes g)) [
        | inl fits ↦ rw fits (
            lookup-assign_resident k ts (g - t.size_bytes) (insert t.name gpu a) rest
            ∙ lookup-insert_absent t k gpu a e)
        | inr over ↦ rw over (
            lookup-assign_resident k ts g (insert t.name ram a) rest
            ∙ lookup-insert_absent t k ram a e)
      ]
    where
      split_or : {b c : Bool} → (b || c) ≡ false → (b ≡ false) × (c ≡ false)
      split_or {b} {c} e = ground arith

  -- Each tensor is resident, and the GPU's bytes are what was taken off the room.
  pub record Fits (ts : List (ScoredTensor F)) (g : ℕ) (r : ℕ × Assignments) : Type 0 where
    pub placed : All (λ t. is_resident (lookup t.name r.1) ≡ true) ts
    pub room : r.0 + total (gpu_size r.1) ts ≡ g

  pub assign_resident-Fits :
      (ts : List (ScoredTensor F)) (g : ℕ) (a : Assignments)
      → Distinct (names ts)
      → Fits ts g (assign_resident F ts g a)
  unfolding assign_resident
  assign_resident-Fits [] g a d = record { placed = tt; room = omega arith }
  assign_resident-Fits (t ∷ ts) g a d = elim (Bool-cases (leb t.size_bytes g)) [
    | inl fits ↦
        let b = insert t.name gpu a in
        let h = assign_resident-Fits ts (g - t.size_bytes) b d.1 in
        let at : lookup t.name (assign_resident F ts (g - t.size_bytes) b).1 ≡ some gpu = ground (
          arith,
          lookup-assign_resident t.name ts (g - t.size_bytes) b d.0,
          lookup-insert t.name t.name gpu a,
          beq_refl t.name,
        ) in
        rw fits (record { placed = (ap is_resident at, h.placed); room = ground (arith, h.room) })
    | inr over ↦
        let b = insert t.name ram a in
        let h = assign_resident-Fits ts g b d.1 in
        let at : lookup t.name (assign_resident F ts g b).1 ≡ some ram = ground (
          arith,
          lookup-assign_resident t.name ts g b d.0,
          lookup-insert t.name t.name ram a,
          beq_refl t.name,
        ) in
        rw over (record { placed = (ap is_resident at, h.placed); room = ground (arith, h.room) })
  ]

module _ (F : F64) (streamed : ScoredTensor F → Bool) where
  -- Where the tensors are: the streamed ones on the drive, each other one on the GPU or in memory,
  -- and on the GPU no more than it has room for.
  pub record Streams (ts : List (ScoredTensor F)) (room : ℕ) (a : Assignments) : Type 0 where
    pub drive : All (λ t. lookup t.name a ≡ some nvme) (retain streamed ts)
    pub resident :
        All (λ t. is_resident (lookup t.name a) ≡ true) (retain (λ t. not (streamed t)) ts)
    pub gpu_room : total (gpu_size F a) ts ≤ room

  pub stream_assign-Streams :
      (ts : List (ScoredTensor F)) (caps : TierCapacities)
      → Distinct (names F ts)
      → Streams ts caps.gpu_bytes (stream_assign F streamed ts caps)
  unfolding stream_assign
  stream_assign-Streams ts caps d =
      let kept = retain (λ t. not (streamed t)) ts in
      let sorted = sort (by_score F) kept in
      let out = retain streamed ts in
      let b = (assign_resident F sorted caps.gpu_bytes []).1 in
      let a = assign_all F nvme out b in
      let h = assign_resident-Fits F sorted caps.gpu_bytes [] (
        Distinct-names-sort (name F) (by_score F) kept
          (Distinct-names-retain (name F) (λ t. not (streamed t)) ts d)) in
      let same : All (λ t. lookup t.name a ≡ lookup t.name b) kept =
        All-both kept (λ t absent triv. ground (arith, lookup-assign_all F t.name nvme out b))
          (All-disjoint (name F) streamed ts d) (All-disjoint (name F) streamed ts d) in
      let on_drive = All-assign_all F nvme out b in
      let none_there : total (gpu_size F a) out ≡ 0 =
        total_zero (gpu_size F a) out (All-both out (λ t e e'. ground arith) on_drive on_drive) in
      let moved : total (gpu_size F a) kept ≡ total (gpu_size F b) kept =
        total_same (gpu_size F a) (gpu_size F b) kept
          (All-both kept (λ t e e'. ap (λ o. if is_gpu o then t.size_bytes else 0) e) same same) in
      record {
        drive = on_drive;
        resident =
            All-both kept (λ t e p. ap is_resident e ∙ p) same
              (All-sort (by_score F) (λ t. is_resident (lookup t.name b) ≡ true) kept h.placed);
        gpu_room = omega (
          arith,
          total-retain streamed (gpu_size F a) ts,
          total-sort (by_score F) (gpu_size F b) kept,
          h.room,
          none_there,
          moved,
        );
      }
