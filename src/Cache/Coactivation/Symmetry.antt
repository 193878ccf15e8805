-- ===== src/Cache/Coactivation/Symmetry.antt =====
-- The counts of one layer stay symmetric.
use hypura.Prelude.{
  ℕ, zero, suc, ◌<◌, ◌&&◌, List, [], ◌∷◌, if◌then◌else◌, ltb, leb, ◌==◌, length, get_or, set,
  replicate, length-set, length-replicate, get_or-set_self, get_or-set_ne, ◌≡◌, ◌≢◌, refl, sym, ◌∙◌,
  ap, arith, Bool-cases, inl, inr,
}
use hypura.Prelude.Keys.{nat_eq}
use hypura.Cache.Coactivation.{
  Matrix, CoActivationMatrix, cell, increment, bump, bump_pairs, bump_all, record_selected, new,
  zeros,
}

-- As many rows as experts, and as many counts in each; the same both ways round.
pub record IsSymmetric (n : ℕ) (m : Matrix) : Type 0 where
  pub rows : length m ≡ n
  pub columns : (a : ℕ) → a < n → length (get_or m a []) ≡ n
  pub both_ways : (a b : ℕ) → cell m a b ≡ cell m b a

length-bump : (a b : ℕ) (m : Matrix) → length (bump a b m) ≡ length m
unfolding bump
length-bump a b m = length-set m a (set (get_or m a []) b (increment (cell m a b)))

length-row-bump :
    (n a b : ℕ) (m : Matrix) (i : ℕ)
    → a < length m
    → length (get_or (bump a b m) i []) ≡ length (get_or m i [])
unfolding bump
length-row-bump n a b m i h =
    let row = set (get_or m a []) b (increment (cell m a b)) in
    ground (
      arith,
      get_or-set_self m a row [],
      get_or-set_ne m a i row [],
      length-set (get_or m a []) b (increment (cell m a b)),
    )

cell-bump :
    (a b : ℕ) (m : Matrix) (i j : ℕ)
    → a < length m
    → b < length (get_or m a [])
    → cell (bump a b m) i j ≡ (if (i == a) && (j == b) then increment (cell m a b) else cell m i j)
unfolding bump
cell-bump a b m i j h k =
    let v = increment (cell m a b) in
    let row = set (get_or m a []) b v in
    ground (
      arith,
      get_or-set_self m a row [],
      get_or-set_ne m a i row [],
      get_or-set_self (get_or m a []) b v 0,
      get_or-set_ne (get_or m a []) b j v 0,
    )

bump_self-IsSymmetric :
    (n a : ℕ) (m : Matrix) → a < n → IsSymmetric n m → IsSymmetric n (bump a a m)
bump_self-IsSymmetric n a m h s =
    let inside : a < length m = omega (arith, s.rows) in
    let wide : a < length (get_or m a []) = omega (arith, s.columns a h) in
    record {
      rows = length-bump a a m ∙ s.rows;
      columns = λ i lt. length-row-bump n a a m i inside ∙ s.columns i lt;
      both_ways = λ i j. ground (
        arith,
        cell-bump a a m i j inside wide,
        cell-bump a a m j i inside wide,
        s.both_ways i j,
      );
    }

-- The counts of a pair and of its mirror image after both were increased.
bump_both-IsSymmetric :
    (n a b : ℕ) (m : Matrix)
    → a < n
    → b < n
    → IsSymmetric n m
    → IsSymmetric n (bump b a (bump a b m))
bump_both-IsSymmetric n a b m ha hb s =
    let next = bump a b m in
    let in_a : a < length m = omega (arith, s.rows) in
    let wide_a : b < length (get_or m a []) = omega (arith, s.columns a ha) in
    let in_b : b < length next = omega (arith, s.rows, length-bump a b m) in
    let wide_b : a < length (get_or next b []) =
      omega (arith, length-row-bump n a b m b in_a, s.columns b hb) in
    record {
      rows = length-bump b a next ∙ length-bump a b m ∙ s.rows;
      columns = λ i lt.
          length-row-bump n b a next i in_b ∙ length-row-bump n a b m i in_a ∙ s.columns i lt;
      both_ways = λ i j. ground (
        arith,
        cell-bump b a next i j in_b wide_b,
        cell-bump b a next j i in_b wide_b,
        cell-bump a b m i j in_a wide_a,
        cell-bump a b m j i in_a wide_a,
        cell-bump a b m b a in_a wide_a,
        s.both_ways i j,
        s.both_ways a b,
      );
    }

bump_pairs-IsSymmetric :
    (n a : ℕ) (bs : List ℕ) (m : Matrix)
    → a < n
    → IsSymmetric n m
    → IsSymmetric n (bump_pairs n a bs m)
unfolding bump_pairs
bump_pairs-IsSymmetric n a [] m h s = s
bump_pairs-IsSymmetric n a (b ∷ bs) m h s = elim (Bool-cases (ltb b n)) [
  | inl fits ↦ rw fits (
      bump_pairs-IsSymmetric n a bs (bump b a (bump a b m)) h
        (bump_both-IsSymmetric n a b m h (ground arith) s))
  | inr out ↦ rw out (bump_pairs-IsSymmetric n a bs m h s)
]

bump_all-IsSymmetric :
    (n : ℕ) (selected : List ℕ) (m : Matrix)
    → IsSymmetric n m
    → IsSymmetric n (bump_all n selected m)
unfolding bump_all
bump_all-IsSymmetric n [] m s = s
bump_all-IsSymmetric n (a ∷ later) m s = elim (Bool-cases (ltb a n)) [
  | inl fits ↦ rw fits (
      bump_all-IsSymmetric n later (bump_pairs n a later (bump a a m)) (
        bump_pairs-IsSymmetric n a later (bump a a m) (ground arith)
          (bump_self-IsSymmetric n a m (ground arith) s)))
  | inr out ↦ rw out (bump_all-IsSymmetric n later m s)
]

-- One matrix for each layer, each of them symmetric.
pub record IsValid (c : CoActivationMatrix) : Type 0 where
  pub layers : length c.layer_counts ≡ c.num_layers
  pub observed : length c.observation_counts ≡ c.num_layers
  pub symmetric :
      (l : ℕ) → l < c.num_layers → IsSymmetric c.num_experts (get_or c.layer_counts l [])

get_or-replicate : {A : Type 0} (n i : ℕ) (a d : A) → i < n → get_or (replicate n a) i d ≡ a
get_or-replicate zero i a d h = elim h [ ]
get_or-replicate (suc n) zero a d h = refl
get_or-replicate (suc n) (suc i) a d h = get_or-replicate n i a d (omega arith)

get_or-zeros : (n i : ℕ) → get_or (replicate {A = ℕ} n 0) i 0 ≡ 0
get_or-zeros zero i = refl
get_or-zeros (suc n) zero = refl
get_or-zeros (suc n) (suc i) = get_or-zeros n i

cell-zeros : (n a b : ℕ) → cell (zeros n) a b ≡ 0
cell-zeros n a b = row n a
  where
    row : (k i : ℕ) → get_or (get_or (replicate k (replicate {A = ℕ} n 0)) i []) b 0 ≡ 0
    row zero i = refl
    row (suc k) zero = get_or-zeros n b
    row (suc k) (suc i) = row k i

pub new-IsValid : (nl ne : ℕ) → IsValid (new nl ne)
unfolding new
new-IsValid nl ne = record {
  layers = length-replicate nl (zeros ne);
  observed = length-replicate {A = ℕ} nl 0;
  symmetric = λ l h. rw (get_or-replicate nl l (zeros ne) [] h) (record {
    rows = length-replicate {A = List ℕ} ne (replicate ne 0);
    columns = λ a lt.
        ap length (get_or-replicate {A = List ℕ} ne a (replicate ne 0) [] lt)
        ∙ length-replicate {A = ℕ} ne 0;
    both_ways = λ a b. cell-zeros ne a b ∙ sym (cell-zeros ne b a);
  });
}

abbrev recorded : CoActivationMatrix → ℕ → List ℕ → CoActivationMatrix
recorded c l selected = record c {
  observation_counts = set c.observation_counts l (increment (get_or c.observation_counts l 0));
  layer_counts =
      set c.layer_counts l (bump_all c.num_experts selected (get_or c.layer_counts l []));
}

record_here-IsValid :
    (c : CoActivationMatrix) (l : ℕ) (selected : List ℕ)
    → IsValid c
    → l < c.num_layers
    → IsValid (recorded c l selected)
record_here-IsValid c l selected v fits =
    let next = bump_all c.num_experts selected (get_or c.layer_counts l []) in
    let here : l < length c.layer_counts = omega (arith, v.layers) in
    let grown =
      bump_all-IsSymmetric c.num_experts selected (get_or c.layer_counts l [])
        (v.symmetric l fits) in
    record {
      layers = length-set c.layer_counts l next ∙ v.layers;
      observed =
          length-set c.observation_counts l (increment (get_or c.observation_counts l 0))
          ∙ v.observed;
      symmetric = λ i lt. elim (Bool-cases (l == i)) [
        | inl same ↦
            let e : l ≡ i = ground arith in
            rw (← e) (rw (get_or-set_self c.layer_counts l next [] here) grown)
        | inr other ↦
            rw (get_or-set_ne c.layer_counts l i next [] (λ e. ground arith)) (v.symmetric i lt)
      ];
    }

-- What a record of a selection at a layer may change: the counts and the observations of that layer.
pub record Records (c d : CoActivationMatrix) (l : ℕ) : Type 0 where
  pub valid : IsValid d
  pub same_layers : d.num_layers ≡ c.num_layers
  pub same_experts : d.num_experts ≡ c.num_experts
  pub cross : d.cross_layer_counts ≡ c.cross_layer_counts
  pub observed_here :
      l < c.num_layers
      → get_or d.observation_counts l 0 ≡ increment (get_or c.observation_counts l 0)
  pub observed_there :
      (i : ℕ) → i ≢ l → get_or d.observation_counts i 0 ≡ get_or c.observation_counts i 0
  pub counted_there : (i : ℕ) → i ≢ l → get_or d.layer_counts i [] ≡ get_or c.layer_counts i []

-- A valid matrix is valid after a record of any selection at any layer, in range or not: the counts
-- of every layer are symmetric, with a row and a column for each expert. The numbers of layers and of
-- experts stay, so do the counts from one layer to the next and what is counted and observed at the
-- other layers; a layer in range is observed once more.
pub record_selected-IsValid :
    (c : CoActivationMatrix) (l : ℕ) (selected : List ℕ)
    → IsValid c
    → Records c (record_selected c l selected) l
unfolding record_selected
record_selected-IsValid c l selected v = elim (Bool-cases (leb c.num_layers l)) [
  | inl out ↦ rw out (record {
    valid = v;
    same_layers = refl;
    same_experts = refl;
    cross = refl;
    observed_here = λ h. absurd (ground (arith, out));
    observed_there = λ i ne. refl;
    counted_there = λ i ne. refl;
  })
  | inr fits ↦
      let next = bump_all c.num_experts selected (get_or c.layer_counts l []) in
      let here : l < length c.layer_counts = ground (arith, v.layers) in
      let seen = increment (get_or c.observation_counts l 0) in
      rw fits (record {
        valid = record_here-IsValid c l selected v (ground arith);
        same_layers = refl;
        same_experts = refl;
        cross = refl;
        observed_here =
            λ h. get_or-set_self c.observation_counts l seen 0 (omega (arith, v.observed));
        observed_there = λ i ne. get_or-set_ne c.observation_counts l i seen 0 (λ e. ne (sym e));
        counted_there = λ i ne. get_or-set_ne c.layer_counts l i next [] (λ e. ne (sym e));
      })
]
