-- ===== src/Cli/Optimize/Order.antt =====
-- `compute_optimal_expert_order` of src/cli/optimize.rs: a walk over the experts, each time to the one
-- that most often fired with the last.
mod Visits
pub mod Complete
use package.hypura.Prelude.{
  ℕ, zero, suc, ◌+◌, ◌≤◌, ◌<◌, Bool, true, false, not, ◌&&◌, ◌||◌, Option, none, some, List, [],
  ◌∷◌, ◌++◌, if◌then◌else◌, ltb, leb, ◌==◌, length, get_elem?, get_or, set, replicate,
}
use package.hypura.Prelude.Keys.{nat_eq, retain}
use package.hypura.Compute.Pool.{range_from}
use package.hypura.Cache.Coactivation.{Matrix}

-- `counts[a][b]`, which panics out of range.
abbrev pub count_at : Matrix → ℕ → ℕ → Option ℕ
count_at counts a b = elim (get_elem? counts a) [ none ↦ none | some row ↦ get_elem? row b ]

-- The later of two with the same key.
abbrev pub better : ℕ → ℕ → Option (ℕ × ℕ) → Option (ℕ × ℕ)
better e k none = some (e, k)
better e k (some (f, j)) = if leb j k then some (e, k) else some (f, j)

-- `max_by_key`, with the best so far; none where a key panics.
unfoldable pub max_by_key : (ℕ → Option ℕ) → List ℕ → Option (ℕ × ℕ) → Option (Option (ℕ × ℕ))
max_by_key key [] best = some best
max_by_key key (e ∷ es) best = elim (key e) [
  | none ↦ none
  | some k ↦ max_by_key key es (better e k best)
]

-- `unwrap_or(0)`
abbrev pub first_or_zero : Option (ℕ × ℕ) → ℕ
first_or_zero none = 0
first_or_zero (some (e, k)) = e

unfoldable pub unvisited : List Bool → ℕ → List ℕ
unvisited visited ne = retain (λ e. not (get_or visited e false)) (range_from 0 ne)

-- The loop, of which `left` turns are left, after `current`.
unfoldable pub visit : (left ne : ℕ) → Matrix → List Bool → (current : ℕ) → List ℕ → Option (List ℕ)
unfolding max_by_key unvisited
visit zero ne counts visited current order = some order
visit (suc left) ne counts visited current order =
    elim (max_by_key (count_at counts current) (unvisited visited ne) none) [
      | none ↦ none
      | some best ↦
          let next = first_or_zero best in
          visit left ne counts (set visited next true) next (order ++ (next ∷ []))
    ]

abbrev pub pred : ℕ → ℕ
pred zero = zero
pred (suc n) = n

unfoldable pub compute_optimal_expert_order :
    List Matrix → (layer num_experts : ℕ) → Option (List ℕ)
unfolding max_by_key visit
compute_optimal_expert_order layer_counts l ne =
    if leb (length layer_counts) l || ne == 0
    then some (range_from 0 ne)
    else (let counts = get_or layer_counts l [] in
        elim (max_by_key (λ e. count_at counts e e) (range_from 0 ne) none) [
          | none ↦ none
          | some best ↦
              let start = first_or_zero best in
              visit (pred ne) ne counts (set (replicate ne false) start true) start (start ∷ [])
        ])
