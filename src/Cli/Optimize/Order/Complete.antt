-- ===== src/Cli/Optimize/Order/Complete.antt =====
-- The walk visits every expert once.
use hypura.Prelude.{
  ℕ, zero, suc, ◌+◌, ◌≤◌, ◌<◌, Bool, true, false, not, ◌||◌, some, List, [], ◌∷◌, ◌++◌, leb, ◌==◌,
  length, get_or, set, replicate, length-append, length-set, length-replicate, get_or-set_self,
  get_or-set_ne, ◌≡◌, refl, sym, ◌∙◌, ap, inl, inr, arith, All, Bool-cases,
}
use hypura.Prelude.Keys.{
  nat_eq, retain, contains, Distinct, contains-append, Distinct-retain, Distinct-snoc,
  length-without,
}
use hypura.Compute.Pool.{range_from}
use hypura.Cache.Coactivation.{Matrix}
use hypura.Io.Layout.Inverse.{IsOrder}
use hypura.Cli.Optimize.Order.{count_at, unvisited, visit, pred, compute_optimal_expert_order}
use hypura.Cli.Optimize.Order.Visits.{
  contains-range_from, Distinct-range_from, length-range_from, max_by_key_first, unvisited-set,
  contains-unvisited,
}

-- Rows and columns for all experts.
pub record Covers (n : ℕ) (counts : Matrix) : Type 0 where
  pub cells : (a b : ℕ) → a < n → b < n → (k : ℕ) × (count_at counts a b ≡ some k)

contains-short : (e : ℕ) (xs : List ℕ) → length xs ≡ 0 → contains e xs ≡ false
contains-short e [] h = refl
contains-short e (x ∷ xs) h = absurd (omega arith)

All-snoc : (n k : ℕ) (xs : List ℕ) → All (λ e. e < n) xs → k < n → All (λ e. e < n) (xs ++ (k ∷ []))
All-snoc n k [] h lt = (lt, tt)
All-snoc n k (x ∷ xs) h lt = (h.0, All-snoc n k xs h.1 lt)

-- The state of the walk: who was visited stands in the order, and nobody else.
pub record Walks (left n : ℕ) (visited : List Bool) (current : ℕ) (order : List ℕ) : Type 0 where
  pub at : current < n
  pub flags : length visited ≡ n
  pub size : length order + left ≡ n
  pub rest : length (unvisited visited n) ≡ left
  pub distinct : Distinct order
  pub below : All (λ e. e < n) order
  pub same : (e : ℕ) → e < n → contains e order ≡ get_or visited e false

Walks-step :
    (left n : ℕ) (visited : List Bool) (current : ℕ) (order : List ℕ) (next : ℕ)
    → Walks (suc left) n visited current order
    → contains next (unvisited visited n) ≡ true
    → Walks left n (set visited next true) next (order ++ (next ∷ []))
unfolding unvisited
Walks-step left n visited current order next w h =
    let free = contains-unvisited visited n next in
    let lt : next < n = ground (arith, free) in
    let in_flags : next < length visited = omega (arith, w.flags) in
    let fresh : contains next order ≡ false = ground (arith, free, w.same next lt) in
    let shorter =
      length-without next (unvisited visited n)
        (Distinct-retain (λ e. not (get_or visited e false)) (range_from 0 n)
          (Distinct-range_from n 0))
        h in
    record {
      at = lt;
      flags = length-set visited next true ∙ w.flags;
      size = omega (arith, w.size, length-append order (next ∷ []));
      rest = ap length (unvisited-set visited n next in_flags) ∙ omega (arith, shorter, w.rest);
      distinct = Distinct-snoc next order w.distinct fresh;
      below = All-snoc n next order w.below lt;
      same = λ e le. ground (
        arith,
        contains-append e order (next ∷ []),
        w.same e le,
        get_or-set_self visited next true false in_flags,
        get_or-set_ne visited next e true false,
      );
    }

visit-IsOrder :
    (left n : ℕ) (counts : Matrix) (visited : List Bool) (current : ℕ) (order : List ℕ)
    → Covers n counts
    → Walks left n visited current order
    → (final : List ℕ) × ((visit left n counts visited current order ≡ some final)
        × IsOrder n final)
unfolding visit
visit-IsOrder zero n counts visited current order c w = (
  order,
  (
    refl,
    record {
      size = omega (arith, w.size);
      below = w.below;
      distinct = w.distinct;
      complete = λ e lt. ground (
        arith,
        w.same e lt,
        contains-unvisited visited n e,
        contains-short e (unvisited visited n) w.rest,
      );
    },
  ),
)
visit-IsOrder (suc left) n counts visited current order c w =
    let (next, (k, (found, inside))) =
      max_by_key_first (count_at counts current) (unvisited visited n) (omega (arith, w.rest))
        (λ x h. c.cells current x w.at (ground (arith, contains-unvisited visited n x))) in
    let (final, (e, done)) =
      visit-IsOrder left n counts (set visited next true) next (order ++ (next ∷ [])) c
        (Walks-step left n visited current order next w inside) in
    (final, (rw (found, visit) e, done))

below-range_from : (n i b : ℕ) → i + n ≤ b → All (λ e. e < b) (range_from i n)
below-range_from zero i b h = tt
below-range_from (suc n) i b h = (omega arith, below-range_from n (i + 1) b (omega arith))

get_or-replicate-false : (n i : ℕ) → get_or (replicate n false) i false ≡ false
get_or-replicate-false zero i = refl
get_or-replicate-false (suc n) zero = refl
get_or-replicate-false (suc n) (suc i) = get_or-replicate-false n i

retain_all : (p : ℕ → Bool) (xs : List ℕ) → ((x : ℕ) → p x ≡ true) → retain p xs ≡ xs
retain_all p [] h = refl
retain_all p (x ∷ xs) h = ground (arith, h x, retain_all p xs h)

unvisited-replicate : (n : ℕ) → unvisited (replicate n false) n ≡ range_from 0 n
unfolding unvisited
unvisited-replicate n =
    retain_all (λ e. not (get_or (replicate n false) e false)) (range_from 0 n)
      (λ x. ap not (get_or-replicate-false n x))

-- Before the first turn nobody is visited.
Walks-start : (n : ℕ) → 0 < n → Walks (suc (pred n)) n (replicate n false) 0 []
Walks-start n pos = record {
  at = pos;
  flags = length-replicate n false;
  size = omega (arith, suc_pred n pos);
  rest = ap length (unvisited-replicate n) ∙ length-range_from n 0 ∙ sym (suc_pred n pos);
  distinct = tt;
  below = tt;
  same = λ e lt. sym (get_or-replicate-false n e);
}
  where
    suc_pred : (n : ℕ) → 0 < n → suc (pred n) ≡ n
    suc_pred zero h = elim h [ ]
    suc_pred (suc n) h = refl

-- For a layer whose matrix has a count for every pair of experts, or none at all, the walk does not
-- panic, and its result has the number of every expert exactly once.
pub compute_optimal_expert_order-IsOrder :
    (layer_counts : List Matrix) (l n : ℕ)
    → (l < length layer_counts → Covers n (get_or layer_counts l []))
    → (order : List ℕ) × ((compute_optimal_expert_order layer_counts l n ≡ some order)
        × IsOrder n order)
unfolding compute_optimal_expert_order
compute_optimal_expert_order-IsOrder layer_counts l n c =
    elim (Bool-cases (leb (length layer_counts) l || n == 0)) [
      | inl out ↦ (
        range_from 0 n,
        (
          rw out refl,
          record {
            size = length-range_from n 0;
            below = below-range_from n 0 n (omega arith);
            distinct = Distinct-range_from n 0;
            complete = λ e lt. ground (arith, contains-range_from n 0 e);
          },
        ),
      )
      | inr fits ↦
          let counts = get_or layer_counts l [] in
          let here : l < length layer_counts = ground (arith, fits) in
          let pos : 0 < n = ground (arith, fits) in
          let (start, (k, (found, inside))) =
            max_by_key_first (λ e. count_at counts e e) (range_from 0 n)
              (omega (arith, length-range_from n 0))
              (λ x h.
                let lt : x < n = ground (arith, contains-range_from n 0 x) in
                (c here).cells x x lt lt) in
          let w =
            Walks-step (pred n) n (replicate n false) 0 [] start (Walks-start n pos)
              (ap (contains start) (unvisited-replicate n) ∙ inside) in
          let (final, (e, done)) =
            visit-IsOrder (pred n) n counts (set (replicate n false) start true) start (start ∷ [])
              (c here) w in
          (final, (rw (fits, found) e, done))
    ]
