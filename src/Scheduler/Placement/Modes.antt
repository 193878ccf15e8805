-- ===== src/Scheduler/Placement/Modes.antt =====
-- The streaming modes of placement: when they are chosen, and what they assign.
use hypura.Prelude.{
  ℕ, ◌+◌, ◌≤◌, ◌<◌, Bool, false, not, ◌||◌, none, some, List, if◌then◌else◌, ltb, leb, ◌≡◌, arith,
}
use hypura.Prelude.Keys.{Distinct, retain}
use hypura.Prelude.Text.{text_eq}
use hypura.Prelude.Float.{F64}
use hypura.Prelude.Sort.{total, total-retain}
use hypura.Prelude.Machine.{u64, u64_small, u64_total, u64_total_small}
use hypura.Scheduler.Placement.{
  Assignments, TierCapacities, ModelMetadata, ScoredTensor, size, fused, ffn, stream_assign,
  try_expert_streaming_assign, try_dense_ffn_streaming_assign,
}
use hypura.Scheduler.Placement.Streaming.{names, Streams, stream_assign-Streams}

module _ (F : F64) where
  abbrev pub bytes : List (ScoredTensor F) → ℕ
  bytes ts = total (size F) ts

  -- The guards of the two modes: an assignment is made when none of them holds.
  guarded :
      (b c d : Bool) (x : Assignments) {a : Assignments}
      → (if b then none else if c then none else if d then none else some x) ≡ some a
      → (c ≡ false) × (x ≡ a)
  guarded b c d x e = ground arith

  -- The guard on sizes.
  overflow :
      (p : ScoredTensor F → Bool) (ts : List (ScoredTensor F)) (limit : ℕ)
      → bytes ts < 18446744073709551616
      → (ltb limit (u64_total (size F) (retain (λ t. not (p t)) ts))
          || leb
              (u64 (
                u64_total (size F) (retain (λ t. not (p t)) ts) + u64_total (size F) (retain p ts)))
              limit)
        ≡ false
      → (bytes (retain (λ t. not (p t)) ts) ≤ limit) × (limit < bytes ts)
  overflow p ts limit small e =
      let both = total-retain p (size F) ts in
      let one = u64_total_small (size F) (retain p ts) (omega (arith, both)) in
      let two = u64_total_small (size F) (retain (λ t. not (p t)) ts) (omega (arith, both)) in
      let sum =
        u64_small
          (u64_total (size F) (retain (λ t. not (p t)) ts) + u64_total (size F) (retain p ts))
          (omega (arith, both, one, two)) in
      ground (arith, both, one, two, sum)

  -- When the assignment for a mixture of experts is made, of tensors with distinct names whose sizes
  -- add up to less than 2^64: all fused experts are on the drive, every other tensor is on the GPU or
  -- in memory, the GPU holds no more than it has room for; the resident tensors fit into memory, and
  -- all tensors together do not.
  pub try_expert_streaming_assign-Streams :
      (ts : List (ScoredTensor F)) (caps : TierCapacities) (m : ModelMetadata) {a : Assignments}
      → Distinct (names F ts)
      → bytes ts < 18446744073709551616
      → try_expert_streaming_assign F ts caps m ≡ some a
      → Streams F (fused F) ts caps.gpu_bytes a
        × (bytes (retain (λ t. not (fused F t)) ts) ≤ caps.unified_limit)
        × (caps.unified_limit < bytes ts)
  unfolding try_expert_streaming_assign
  try_expert_streaming_assign-Streams ts caps m {a} d small e =
      let (sizes, same) = guarded _ _ _ (stream_assign F (fused F) ts caps) e in
      let (fit, more) = overflow (fused F) ts caps.unified_limit small sizes in
      (rw (← same) (stream_assign-Streams F (fused F) ts caps d), fit, more)

  dense_guarded :
      (b c z d : Bool) (x : Assignments) {a : Assignments}
      → (if b then none else if c then none else if z then none else if d then none else some x)
        ≡ some a
      → (c ≡ false) × (x ≡ a)
  dense_guarded b c z d x e = ground arith

  -- When the assignment for a dense model is made, of tensors with distinct names whose sizes add up
  -- to less than 2^64: all feed-forward tensors are on the drive, every other tensor is on the GPU or
  -- in memory, the GPU holds no more than it has room for; the resident tensors fit into memory, and
  -- all tensors together do not.
  pub try_dense_ffn_streaming_assign-Streams :
      (ts : List (ScoredTensor F)) (caps : TierCapacities) (m : ModelMetadata) {a : Assignments}
      → Distinct (names F ts)
      → bytes ts < 18446744073709551616
      → try_dense_ffn_streaming_assign F ts caps m ≡ some a
      → Streams F (ffn F) ts caps.gpu_bytes a
        × (bytes (retain (λ t. not (ffn F t)) ts) ≤ caps.unified_limit)
        × (caps.unified_limit < bytes ts)
  unfolding try_dense_ffn_streaming_assign
  try_dense_ffn_streaming_assign-Streams ts caps m {a} d small e =
      let (sizes, same) = dense_guarded _ _ _ _ (stream_assign F (ffn F) ts caps) e in
      let (fit, more) = overflow (ffn F) ts caps.unified_limit small sizes in
      (rw (← same) (stream_assign-Streams F (ffn F) ts caps d), fit, more)
