-- ===== src/Cache/Coactivation.antt =====
-- src/cache/coactivation.rs: how often experts fire together.
mod Symmetry
mod Tests
use package.hypura.Prelude.{
  ℕ, zero, suc, ◌+◌, ◌≤◌, ◌<◌, ◌%◌, Bool, true, false, not, ◌||◌, ◌&&◌, Option, none, some, List,
  [], ◌∷◌, map, if◌then◌else◌, ltb, leb, ◌==◌, length, get_or, set, replicate, take,
}
use package.hypura.Prelude.Keys.{nat_eq, retain}
use package.hypura.Prelude.Sort.{sort}

-- Rows of counts.
abbrev pub Matrix : Type 0
Matrix = List (List ℕ)

pub record CoActivationMatrix : Type 0 where
  pub layer_counts : List Matrix
  pub cross_layer_counts : List Matrix
  pub observation_counts : List ℕ
  pub num_layers : ℕ
  pub num_experts : ℕ

abbrev pub zeros : ℕ → Matrix
zeros n = replicate n (replicate n 0)

unfoldable pub new : ℕ → ℕ → CoActivationMatrix
new nl ne = record {
  layer_counts = replicate nl (zeros ne);
  cross_layer_counts = replicate nl (zeros ne);
  observation_counts = replicate nl 0;
  num_layers = nl;
  num_experts = ne;
}

-- `+= 1` on a 32-bit word.
abbrev pub increment : ℕ → ℕ
increment n = (n + 1) % 4294967296

abbrev pub cell : Matrix → ℕ → ℕ → ℕ
cell m a b = get_or (get_or m a []) b 0

unfoldable pub bump : ℕ → ℕ → Matrix → Matrix
bump a b m = set m a (set (get_or m a []) b (increment (cell m a b)))

-- The inner loop of `record`: the experts after `a`.
unfoldable pub bump_pairs : (ne a : ℕ) → List ℕ → Matrix → Matrix
unfolding bump
bump_pairs ne a [] m = m
bump_pairs ne a (b ∷ bs) m = bump_pairs ne a bs (if ltb b ne then bump b a (bump a b m) else m)

unfoldable pub bump_all : (ne : ℕ) → List ℕ → Matrix → Matrix
unfolding bump_pairs
bump_all ne [] m = m
bump_all ne (a ∷ later) m =
    bump_all ne later (if ltb a ne then bump_pairs ne a later (bump a a m) else m)

-- `record`
unfoldable pub record_selected : CoActivationMatrix → ℕ → List ℕ → CoActivationMatrix
unfolding bump_all
record_selected c l selected = if leb c.num_layers l then c else record c {
  observation_counts = set c.observation_counts l (increment (get_or c.observation_counts l 0));
  layer_counts =
      set c.layer_counts l (bump_all c.num_experts selected (get_or c.layer_counts l []));
}

-- The inner loop of `record_cross_layer`.
unfoldable pub cross_row : (ne a : ℕ) → List ℕ → Matrix → Matrix
unfolding bump
cross_row ne a [] m = m
cross_row ne a (b ∷ bs) m = cross_row ne a bs (if ltb b ne then bump a b m else m)

unfoldable pub cross_all : (ne : ℕ) → List ℕ → List ℕ → Matrix → Matrix
unfolding cross_row
cross_all ne [] experts_n1 m = m
cross_all ne (a ∷ experts_n) experts_n1 m =
    cross_all ne experts_n experts_n1 (if ltb a ne then cross_row ne a experts_n1 m else m)

unfoldable pub record_cross_layer : CoActivationMatrix → ℕ → List ℕ → List ℕ → CoActivationMatrix
unfolding cross_all
record_cross_layer c l experts_n experts_n1 = if leb c.num_layers l then c else record c {
  cross_layer_counts =
      set c.cross_layer_counts l
        (cross_all c.num_experts experts_n experts_n1 (get_or c.cross_layer_counts l []));
}

-- `scores[i] += count`
abbrev pub add_row : List ℕ → List ℕ → List ℕ
add_row [] counts = []
add_row (s ∷ scores) [] = s ∷ scores
add_row (s ∷ scores) (c ∷ counts) = (s + c) % 4294967296 ∷ add_row scores counts

unfoldable pub add_scores : (ne : ℕ) → Matrix → List ℕ → List ℕ → List ℕ
add_scores ne m [] scores = scores
add_scores ne m (e ∷ observed) scores =
    add_scores ne m observed (if ltb e ne then add_row scores (get_or m e []) else scores)

unfoldable pub clear_observed : (ne : ℕ) → List ℕ → List ℕ → List ℕ
clear_observed ne [] scores = scores
clear_observed ne (e ∷ observed) scores =
    clear_observed ne observed (if ltb e ne then set scores e 0 else scores)

-- The numbers of the experts with a score, each with its score.
abbrev pub scored_from : ℕ → List ℕ → List (ℕ × ℕ)
scored_from i [] = []
scored_from i (s ∷ scores) =
    let later = scored_from (suc i) scores in if ltb 0 s then (i, s) ∷ later else later

abbrev pub higher : ℕ × ℕ → ℕ × ℕ → Bool
higher a b = ltb b.1 a.1

-- The best `top_k`; equal scores stand in the order of their numbers.
unfoldable pub best_of : List ℕ → ℕ → List ℕ
unfolding sort
best_of scores top_k = map (λ (p : ℕ × ℕ). p.0) (take top_k (sort higher (scored_from 0 scores)))

unfoldable pub predict_same_layer : CoActivationMatrix → ℕ → List ℕ → ℕ → List ℕ
unfolding add_scores clear_observed best_of
predict_same_layer c l observed top_k =
    if leb c.num_layers l || get_or c.observation_counts l 0 == 0
    then []
    else (let scores =
          add_scores c.num_experts (get_or c.layer_counts l []) observed
            (replicate c.num_experts 0) in
        best_of (clear_observed c.num_experts observed scores) top_k)

unfoldable pub predict_next_layer : CoActivationMatrix → ℕ → List ℕ → ℕ → List ℕ
unfolding add_scores best_of
predict_next_layer c l observed top_k =
    if leb c.num_layers l || get_or c.observation_counts l 0 == 0
    then []
    else best_of
        (add_scores c.num_experts (get_or c.cross_layer_counts l []) observed
          (replicate c.num_experts 0))
        top_k

abbrev pub any_above : ℕ → List ℕ → Bool
any_above n [] = false
any_above n (c ∷ counts) = ltb n c || any_above n counts

abbrev pub has_data : CoActivationMatrix → Bool
has_data c = any_above 10 c.observation_counts
