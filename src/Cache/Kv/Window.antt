-- ===== src/Cache/Kv/Window.antt =====
-- What compaction keeps and what it removes.
use hypura.Prelude.{
  ℕ, ◌-◌, ◌≤◌, ◌<◌, Bool, true, false, Option, none, some, if◌then◌else◌, ltb, leb, ◌≡◌, refl, ◌∙◌,
  arith, Bool-cases, inl, inr,
}
use hypura.Prelude.Keys.{nat_eq}
use hypura.Cache.Kv.{Memory, KvCacheManager, check_and_compact}

-- Whether a removal takes a position out.
abbrev pub in_range : Option ℕ → ℕ → ℕ → Bool
in_range none before k = ltb k before
in_range (some from) before k = if leb from k then ltb k before else false

-- What the engine documents of its memory: which positions are in it, that the least is the least,
-- and that a removal that reports success takes out its range and nothing else.
pub record IsEngine (M : Memory) (holds : M.State → ℕ → Bool) : Type 0 where
  pub least :
      (s : M.State) (k : ℕ) → holds s k ≡ true → (p : ℕ) × ((M.pos_min s ≡ some p) × (p ≤ k))
  pub removed :
      (s : M.State) (from : Option ℕ) (before k : ℕ)
      → (M.seq_rm s from before).1 ≡ true
      → holds (M.seq_rm s from before).0 k ≡ (if in_range from before k then false else holds s k)
  pub refused :
      (s : M.State) (from : Option ℕ) (before k : ℕ)
      → (M.seq_rm s from before).1 ≡ false
      → holds (M.seq_rm s from before).0 k ≡ holds s k

module _ (M : Memory) (holds : M.State → ℕ → Bool) (engine : IsEngine M holds) where
  abbrev pub window_start : KvCacheManager → ℕ
  window_start m = m.current_pos - m.hot_window_tokens

  seq_rm-window :
      (s : M.State) (from : Option ℕ) (before k : ℕ)
      → before ≤ k
      → holds (M.seq_rm s from before).0 k ≡ holds s k
  seq_rm-window s from before k h = elim (Bool-cases (M.seq_rm s from before).1) [
    | inl ok ↦ engine.removed s from before k ok ∙ kept from
    | inr no_change ↦ engine.refused s from before k no_change
  ]
    where
      kept : (from : Option ℕ) → (if in_range from before k then false else holds s k) ≡ holds s k
      kept none = ground arith
      kept (some p) = ground arith

  -- Whatever compaction does, every position of the hot window that was in the memory stays in it.
  pub check_and_compact-window :
      (m : KvCacheManager) (s : M.State) (k : ℕ)
      → window_start m ≤ k
      → holds (check_and_compact M m s).0 k ≡ holds s k
  unfolding check_and_compact
  check_and_compact-window m s k h =
      ground (arith, seq_rm-window s (M.pos_min s) (window_start m) k h)

  below_least :
      (s : M.State) (before k : ℕ)
      → k < before
      → (M.seq_rm s (M.pos_min s) before).1 ≡ true
      → holds (M.seq_rm s (M.pos_min s) before).0 k ≡ false
  below_least s before k h ok = elim (Bool-cases (holds s k)) [
    | inl there ↦
        let (p, (e, le)) = engine.least s k there in
        engine.removed s (M.pos_min s) before k ok ∙ rw e (ground arith)
    | inr absent ↦
        engine.removed s (M.pos_min s) before k ok ∙ both (in_range (M.pos_min s) before k) absent
  ]
    where
      both : (b : Bool) → holds s k ≡ false → (if b then false else holds s k) ≡ false
      both true e = refl
      both false e = e

  -- After a compaction that reports success, no position before the hot window is in the memory.
  pub check_and_compact-bounded :
      (m : KvCacheManager) (s : M.State) (k : ℕ)
      → (check_and_compact M m s).1 ≡ true
      → k < window_start m
      → holds (check_and_compact M m s).0 k ≡ false
  unfolding check_and_compact
  check_and_compact-bounded m s k ok h = ground (arith, below_least s (window_start m) k h)
