-- ===== src/Scheduler/Plan/Drive.antt =====
-- Which tensors an assignment that gives each of them a tier leaves on the drive.
use hypura.Prelude.{
  Bool, true, false, Option, none, some, List, [], ◌∷◌, ◌≡◌, sym, arith, inl, inr, All, Bool-cases,
}
use mathlib.Core.List.{Mem, mem-cons_self, mem-cons_of_mem}
use hypura.Prelude.Keys.{Distinct, contains, ◌==◌, beq_refl}
use hypura.Prelude.Dict.{lookup, keys, values}
use hypura.Prelude.Text.{Text, text_eq}
use hypura.Prelude.Float.{F64}
use hypura.Scheduler.Types.{StorageTier, gpu, ram, nvme}
use hypura.Scheduler.Placement.{Assignments, ScoredTensor}
use hypura.Scheduler.Placement.Streaming.{names}
use hypura.Scheduler.Plan.Covers.{Adds}
use hypura.Scheduler.Plan.{has_nvme}

-- Whether a tensor that was looked up is in memory; one without a tier counts as on the drive.
abbrev pub in_memory : Option StorageTier → Bool
in_memory none = false
in_memory (some gpu) = true
in_memory (some ram) = true
in_memory (some nvme) = false

has_nvme-in_memory :
    (a : Assignments) (k : Text)
    → has_nvme (values a) ≡ false
    → contains k (keys a) ≡ true
    → in_memory (lookup k a) ≡ true
has_nvme-in_memory [] k e h = absurd (ground arith)
has_nvme-in_memory ((j, nvme) ∷ a) k e h = absurd (ground arith)
has_nvme-in_memory ((j, gpu) ∷ a) k e h =
    ground (arith, has_nvme-in_memory a k, e, h, text_eq.beq_iff j k, text_eq.beq_iff k j)
has_nvme-in_memory ((j, ram) ∷ a) k e h =
    ground (arith, has_nvme-in_memory a k, e, h, text_eq.beq_iff j k, text_eq.beq_iff k j)

OnDrive : Assignments → Type 0
OnDrive a = (k : Text) × ((lookup k a ≡ some nvme) × (contains k (keys a) ≡ true))

OnDrive-cons :
    (j : Text) (v : StorageTier) (a : Assignments)
    → contains j (keys a) ≡ false
    → OnDrive a
    → OnDrive ((j, v) ∷ a)
unfolding OnDrive
OnDrive-cons j v a fresh (k, (at, held)) = elim (Bool-cases (j == k)) [
  | inl e ↦ absurd (ground (arith, (text_eq.beq_iff j k).0 e, fresh, held))
  | inr e ↦ (k, (ground (arith, e, at), ground (arith, held)))
]

has_nvme-OnDrive : (a : Assignments) → Distinct (keys a) → has_nvme (values a) ≡ true → OnDrive a
unfolding OnDrive
has_nvme-OnDrive [] d e = absurd (ground arith)
has_nvme-OnDrive ((j, gpu) ∷ a) d e = OnDrive-cons j gpu a d.0 (has_nvme-OnDrive a d.1 e)
has_nvme-OnDrive ((j, ram) ∷ a) d e = OnDrive-cons j ram a d.0 (has_nvme-OnDrive a d.1 e)
has_nvme-OnDrive ((j, nvme) ∷ a) d e = (j, (ground (arith, beq_refl j), ground (arith, beq_refl j)))

module _ (F : F64) where
  named :
      (ts : List (ScoredTensor F)) (k : Text)
      → contains k (names F ts) ≡ true
      → (t : ScoredTensor F) × (Mem t ts × (t.name ≡ k))
  named [] k h = absurd (ground arith)
  named (t ∷ ts) k h = elim (Bool-cases (k == t.name)) [
    | inl e ↦ (t, (mem-cons_self, sym ((text_eq.beq_iff k t.name).0 e)))
    | inr e ↦
        let (u, (member, same)) = named ts k (ground (arith, e, h)) in
        (u, (mem-cons_of_mem t member, same))
  ]

  All-named :
      (ts : List (ScoredTensor F)) (a : Assignments)
      → ((k : Text) → contains k (names F ts) ≡ true → in_memory (lookup k a) ≡ true)
      → All (λ t. in_memory (lookup t.name a) ≡ true) ts
  All-named [] a h = tt
  All-named (t ∷ ts) a h =
      (h t.name (ground (arith, beq_refl t.name)), All-named ts a (λ k e. h k (ground (arith, e))))

  pub All-in_memory :
      (ts : List (ScoredTensor F)) (a : Assignments)
      → Adds F ts [] a
      → has_nvme (values a) ≡ false
      → All (λ t. in_memory (lookup t.name a) ≡ true) ts
  All-in_memory ts a h e =
      All-named ts a (λ k held. has_nvme-in_memory a k e (ground (arith, h.same k, held)))

  pub one_on_drive :
      (ts : List (ScoredTensor F)) (a : Assignments)
      → Adds F ts [] a
      → has_nvme (values a) ≡ true
      → (t : ScoredTensor F) × (Mem t ts × (lookup t.name a ≡ some nvme))
  unfolding OnDrive
  one_on_drive ts a h e =
      let (k, (at, held)) = has_nvme-OnDrive a (h.once tt) e in
      let (t, (member, same)) = named ts k (ground (arith, h.same k, held)) in
      (t, (member, rw same at))
