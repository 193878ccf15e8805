-- ===== src/Prelude/Sort.antt =====
-- `sort_by` on vectors: a stable sort. `before a b` says that `a` has to stand before `b`.
use Prim.Native.Nat.{ℕ, ◌+◌}
use mathlib.Core.Path.{◌≡◌, refl}
use mathlib.Core.Bool.{Bool, not}
use mathlib.Core.Logic.{inl, inr}
use mathlib.Core.List.{List, [], ◌∷◌}
use native.Mathlib.Omega.{arith}
use hypura.Prelude.Tests.{if◌then◌else◌, Bool-cases}
use hypura.Prelude.Lists.{All}
use hypura.Prelude.Keys.{retain}

-- A total of weights.
abbrev pub total {ℓ} : {A : Type ℓ} → (A → ℕ) → List A → ℕ
total w [] = 0
total w (x ∷ xs) = w x + total w xs

module _ {ℓ} {A : Type ℓ} (before : A → A → Bool) where
  unfoldable pub insert_sorted : A → List A → List A
  insert_sorted x [] = x ∷ []
  insert_sorted x (y ∷ ys) =
      let later = insert_sorted x ys in if before y x then y ∷ later else x ∷ y ∷ ys

  unfoldable pub sort : List A → List A
  unfolding insert_sorted
  sort [] = []
  sort (x ∷ xs) = insert_sorted x (sort xs)

  total-insert_sorted :
      (w : A → ℕ) (x : A) (xs : List A) → total w (insert_sorted x xs) ≡ w x + total w xs
  unfolding insert_sorted
  total-insert_sorted w x [] = refl
  total-insert_sorted w x (y ∷ ys) = ground (arith, total-insert_sorted w x ys)

  pub total-sort : (w : A → ℕ) (xs : List A) → total w (sort xs) ≡ total w xs
  unfolding sort
  total-sort w [] = refl
  total-sort w (x ∷ xs) = omega (arith, total-insert_sorted w x (sort xs), total-sort w xs)

  All-insert_sorted {κ} :
      (P : A → Type κ) (x : A) (xs : List A) → All P (insert_sorted x xs) → P x × All P xs
  unfolding insert_sorted
  All-insert_sorted P x [] h = h
  All-insert_sorted P x (y ∷ ys) h = elim (Bool-cases (before y x)) [
    | inl e ↦
        let g : P y × All P (insert_sorted x ys) = rw (e, insert_sorted) at h in
        let r = All-insert_sorted P x ys g.1 in (r.0, (g.0, r.1))
    | inr e ↦ let g : P x × (P y × All P ys) = rw (e, insert_sorted) at h in g
  ]

  -- What holds of all elements of the sorted list holds of all elements of the list.
  pub All-sort {κ} : (P : A → Type κ) (xs : List A) → All P (sort xs) → All P xs
  unfolding sort
  All-sort P [] h = h
  All-sort P (x ∷ xs) h = let r = All-insert_sorted P x (sort xs) h in (r.0, All-sort P xs r.1)

module _ {ℓ} {A : Type ℓ} (p : A → Bool) where
  pub total-retain :
      (w : A → ℕ) (xs : List A)
      → total w (retain p xs) + total w (retain (λ x. not (p x)) xs) ≡ total w xs
  total-retain w [] = refl
  total-retain w (x ∷ xs) = ground (arith, total-retain w xs)

  pub All-retain {κ} :
      (P : A → Type κ) (xs : List A)
      → All P (retain p xs)
      → All P (retain (λ x. not (p x)) xs)
      → All P xs
  All-retain P [] h k = tt
  All-retain P (x ∷ xs) h k = elim (Bool-cases (p x)) [
    | inl e ↦
        let h' : P x × All P (retain p xs) = rw e at h in
        let k' : All P (retain (λ y. not (p y)) xs) = rw e at k in (h'.0, All-retain P xs h'.1 k')
    | inr e ↦
        let h' : All P (retain p xs) = rw e at h in
        let k' : P x × All P (retain (λ y. not (p y)) xs) = rw e at k in
        (k'.0, All-retain P xs h' k'.1)
  ]
