-- ===== src/Cache/Kv/Tests.antt =====
-- A memory that holds the positions from its state on. It refuses a removal that would leave a gap.
use hypura.Prelude.{
  ℕ, Bool, true, false, Option, none, some, if◌then◌else◌, leb, max, ◌≡◌, refl, arith,
}
use hypura.Cache.Kv.{Memory, KvCacheManager, check_and_compact, advance}
use hypura.Cache.Kv.Window.{IsEngine, in_range, check_and_compact-window, check_and_compact-bounded}

abbrev take_out : ℕ → Option ℕ → ℕ → ℕ × Bool
take_out s none before = (max s before, true)
take_out s (some p) before = if leb p s then (max s before, true) else (s, false)

abbrev from_least : Memory
from_least = record { State = ℕ; is_null = λ s. false; pos_min = λ s. some s; seq_rm = take_out }

take_out_removed :
    (s : ℕ) (from : Option ℕ) (before k : ℕ)
    → (take_out s from before).1 ≡ true
    → leb (take_out s from before).0 k ≡ (if in_range from before k then false else leb s k)
take_out_removed s none before k h = ground arith
take_out_removed s (some p) before k h = ground arith

take_out_refused :
    (s : ℕ) (from : Option ℕ) (before k : ℕ)
    → (take_out s from before).1 ≡ false
    → leb (take_out s from before).0 k ≡ leb s k
take_out_refused s none before k h = ground arith
take_out_refused s (some p) before k h = ground arith

from_least-IsEngine : IsEngine from_least leb
from_least-IsEngine = record {
  least = λ s k h. (s, (refl, ground arith));
  removed = take_out_removed;
  refused = take_out_refused;
}

abbrev manager : KvCacheManager
manager = record {
  hot_window_tokens = 100;
  current_pos = 255;
  compact_interval = 256;
  tokens_since_check = 255;
}

-- The token that fills the interval: the positions before 156 go.
filled : (advance from_least manager 3).1 ≡ (156, true)
unfolding advance
filled = refl

compacted : (check_and_compact from_least manager 3).1 ≡ true
unfolding check_and_compact
compacted = refl

check_and_compact-window_example : leb (check_and_compact from_least manager 3).0 200 ≡ leb 3 200
check_and_compact-window_example =
    check_and_compact-window from_least leb from_least-IsEngine manager 3 200 (omega arith)

check_and_compact-bounded_example : leb (check_and_compact from_least manager 3).0 20 ≡ false
check_and_compact-bounded_example =
    check_and_compact-bounded from_least leb from_least-IsEngine manager 3 20 compacted
      (omega arith)
