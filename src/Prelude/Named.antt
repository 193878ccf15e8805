-- ===== src/Prelude/Named.antt =====
-- Lists whose elements carry distinct names.
use Prim.Native.Nat.{ℕ, ◌+◌, ◌≤◌}
use mathlib.Core.Path.{◌≡◌, refl, ap, ◌∙◌}
use mathlib.Core.Bool.{Bool, true, false, not, ◌||◌}
use mathlib.Core.Logic.{inl, inr}
use mathlib.Core.List.{List, [], ◌∷◌, ◌++◌, map}
use native.Mathlib.Omega.{arith}
use hypura.Prelude.Tests.{leb, if◌then◌else◌, Bool-cases}
use hypura.Prelude.Lists.{All}
use hypura.Prelude.Keys.{Eq, ◌==◌, contains, Distinct, retain, beq_comm}
use hypura.Prelude.Sort.{insert_sorted, sort, total}

module _ {ℓ} {A : Type ℓ} where
  pub All-both {κ μ ν} :
      {P : A → Type κ} {Q : A → Type μ} {R : A → Type ν} (xs : List A)
      → ((x : A) → P x → Q x → R x)
      → All P xs
      → All Q xs
      → All R xs
  All-both [] f h k = tt
  All-both (x ∷ xs) f h k = (f x h.0 k.0, All-both xs f h.1 k.1)

  pub total_same : (w v : A → ℕ) (xs : List A) → All (λ x. w x ≡ v x) xs → total w xs ≡ total v xs
  total_same w v [] h = refl
  total_same w v (x ∷ xs) h = omega (arith, h.0, total_same w v xs h.1)

  pub total_zero : (w : A → ℕ) (xs : List A) → All (λ x. w x ≡ 0) xs → total w xs ≡ 0
  total_zero w [] h = refl
  total_zero w (x ∷ xs) h = omega (arith, h.0, total_zero w xs h.1)

  pub total-append : (w : A → ℕ) (xs ys : List A) → total w (xs ++ ys) ≡ total w xs + total w ys
  total-append w [] ys = omega arith
  total-append w (x ∷ xs) ys = omega (arith, total-append w xs ys)

module _ {ℓ κ} {A : Type ℓ} {K : Type κ} ⦃e : Eq K⦄ (name : A → K) where
  pub contains-names-retain :
      (p : A → Bool) (k : K) (xs : List A)
      → contains k (map name xs) ≡ false
      → contains k (map name (retain p xs)) ≡ false
  contains-names-retain p k [] h = refl
  contains-names-retain p k (x ∷ xs) h = ground (arith, contains-names-retain p k xs)

  pub Distinct-names-retain :
      (p : A → Bool) (xs : List A) → Distinct (map name xs) → Distinct (map name (retain p xs))
  Distinct-names-retain p [] d = tt
  Distinct-names-retain p (x ∷ xs) d =
      ground (arith, Distinct-names-retain p xs d.1, contains-names-retain p (name x) xs d.0)

  -- An absent name is no element's.
  pub All-absent :
      (k : K) (xs : List A) → contains k (map name xs) ≡ false → All (λ x. (name x == k) ≡ false) xs
  All-absent k [] h = tt
  All-absent k (x ∷ xs) h = (ground (arith, beq_comm k (name x)), All-absent k xs (ground arith))

  -- The names that a test selects are not among those that it rejects.
  pub All-disjoint :
      (p : A → Bool) (xs : List A)
      → Distinct (map name xs)
      → All (λ x. contains (name x) (map name (retain p xs)) ≡ false) (retain (λ x. not (p x)) xs)
  All-disjoint p [] d = tt
  All-disjoint p (x ∷ xs) d = elim (Bool-cases (p x)) [
    | inl sel ↦ rw sel (
        All-both (retain (λ y. not (p y)) xs) (λ y ne absent. ground arith)
          (All-absent (name x) (retain (λ y. not (p y)) xs)
            (contains-names-retain (λ y. not (p y)) (name x) xs d.0))
          (All-disjoint p xs d.1))
    | inr rej ↦ rw rej (contains-names-retain p (name x) xs d.0, All-disjoint p xs d.1)
  ]

module _ {ℓ κ} {A : Type ℓ} {K : Type κ} ⦃e : Eq K⦄ (name : A → K) (before : A → A → Bool) where
  contains-names-insert_sorted :
      (k : K) (x : A) (xs : List A)
      → contains k (map name (insert_sorted before x xs))
        ≡ (k == name x || contains k (map name xs))
  unfolding insert_sorted
  contains-names-insert_sorted k x [] = refl
  contains-names-insert_sorted k x (y ∷ ys) = ground (arith, contains-names-insert_sorted k x ys)

  pub contains-names-sort :
      (k : K) (xs : List A) → contains k (map name (sort before xs)) ≡ contains k (map name xs)
  unfolding sort
  contains-names-sort k [] = refl
  contains-names-sort k (x ∷ xs) =
      contains-names-insert_sorted k x (sort before xs)
      ∙ ap (λ b. k == name x || b) (contains-names-sort k xs)

  Distinct-names-insert_sorted :
      (x : A) (xs : List A)
      → contains (name x) (map name xs) ≡ false
      → Distinct (map name xs)
      → Distinct (map name (insert_sorted before x xs))
  unfolding insert_sorted
  Distinct-names-insert_sorted x [] h d = (refl, tt)
  Distinct-names-insert_sorted x (y ∷ ys) h d = ground (
    arith,
    Distinct-names-insert_sorted x ys,
    contains-names-insert_sorted (name y) x ys,
    beq_comm (name x) (name y),
  )

  pub Distinct-names-sort :
      (xs : List A) → Distinct (map name xs) → Distinct (map name (sort before xs))
  unfolding sort
  Distinct-names-sort [] d = tt
  Distinct-names-sort (x ∷ xs) d =
      Distinct-names-insert_sorted x (sort before xs) (contains-names-sort (name x) xs ∙ d.0)
        (Distinct-names-sort xs d.1)

-- Distinct names as a bound on totals, which no change of order affects.
module _ {ℓ κ} {A : Type ℓ} {K : Type κ} ⦃e : Eq K⦄ (name : A → K) where
  -- One for each element of a name.
  abbrev pub occurs : K → A → ℕ
  occurs k x = if k == name x then 1 else 0

  pub contains-total :
      (k : K) (xs : List A)
      → contains k (map name xs) ≡ (if leb (total (occurs k) xs) 0 then false else true)
  contains-total k [] = refl
  contains-total k (x ∷ xs) = ground (arith, contains-total k xs)

  pub Distinct-once : (xs : List A) → Distinct (map name xs) → (k : K) → total (occurs k) xs ≤ 1
  Distinct-once [] d k = omega arith
  Distinct-once (x ∷ xs) d k =
      ground (arith, Distinct-once xs d.1 k, contains-total (name x) xs, (e.beq_iff k (name x)).0)

  pub once-Distinct : (xs : List A) → ((k : K) → total (occurs k) xs ≤ 1) → Distinct (map name xs)
  once-Distinct [] h = tt
  once-Distinct (x ∷ xs) h = (
    ground (arith, contains-total (name x) xs, h (name x), (e.beq_iff (name x) (name x)).1),
    once-Distinct xs (λ k. omega (arith, h k)),
  )

  -- The names of one part are not among those of the other.
  pub All-apart :
      (xs ys : List A)
      → Distinct (map name (xs ++ ys))
      → All (λ x. contains (name x) (map name ys) ≡ false) xs
  All-apart [] ys d = tt
  All-apart (x ∷ xs) ys d = (
    ground (
      arith,
      contains-total (name x) (xs ++ ys),
      contains-total (name x) ys,
      total-append (occurs (name x)) xs ys,
    ),
    All-apart xs ys d.1,
  )
