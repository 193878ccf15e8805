-- ===== src/Cache/Kv.antt =====
-- src/cache/kv_cache.rs: the window of the KV cache. The cache itself is the engine's: a memory with
-- the least position of a sequence, and the removal of a range of positions.
mod Window
mod Tests
use package.hypura.Prelude.{
  ℕ, zero, suc, ◌+◌, ◌-◌, ◌≤◌, ◌<◌, ◌%◌, Bool, true, false, ◌||◌, Option, none, some, if◌then◌else◌,
  ltb, leb, ◌==◌,
}
use package.hypura.Prelude.Keys.{nat_eq}

-- The engine's calls, on its state: the least position of the sequence (none when it is empty, where
-- the call returns -1), and the removal of the positions from one up to another.
pub record Memory : Type 1 where
  pub State : Type 0
  pub is_null : State → Bool
  pub pos_min : State → Option ℕ
  pub seq_rm : State → (from : Option ℕ) → (before : ℕ) → State × Bool

pub record KvCacheManager : Type 0 where
  pub hot_window_tokens : ℕ
  pub current_pos : ℕ
  pub compact_interval : ℕ
  pub tokens_since_check : ℕ

abbrev pub new : ℕ → KvCacheManager
new hot_window_tokens = record {
  hot_window_tokens = hot_window_tokens;
  current_pos = 0;
  compact_interval = 256;
  tokens_since_check = 0;
}

abbrev pub set_position : KvCacheManager → ℕ → KvCacheManager
set_position m pos = record m { current_pos = pos }

-- `pos_min >= evict_before`, where -1 is below every position.
abbrev pub at_least : Option ℕ → ℕ → Bool
at_least none n = false
at_least (some p) n = leb n p

module _ (M : Memory) where
  unfoldable pub check_and_compact : KvCacheManager → M.State → M.State × Bool
  check_and_compact m ctx =
      if m.hot_window_tokens == 0 || leb m.current_pos m.hot_window_tokens
      then (ctx, false)
      else (let evict_before = m.current_pos - m.hot_window_tokens in
          if M.is_null ctx
          then (ctx, false)
          else if at_least (M.pos_min ctx) evict_before
          then (ctx, false)
          else M.seq_rm ctx (M.pos_min ctx) evict_before)

  unfoldable pub advance : KvCacheManager → M.State → KvCacheManager × (M.State × Bool)
  unfolding check_and_compact
  advance m ctx =
      let pos = (m.current_pos + 1) % 4294967296 in
      let since = (m.tokens_since_check + 1) % 4294967296 in
      let reset = record m { current_pos = pos; tokens_since_check = 0 } in
      let counted = record m { current_pos = pos; tokens_since_check = since } in
      if leb m.compact_interval since
      then (reset, check_and_compact reset ctx)
      else (counted, (ctx, false))
