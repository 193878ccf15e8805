-- ===== src/Prelude/Keys.antt =====
-- Lists as sets of keys: equality as an instance, membership as a test, `retain`, and lists
-- without repetition.
use hypura.Prelude.Tests.{◌==◌ as nat_beq, ==_iff, if◌then◌else◌, Bool-cases}
use hypura.Prelude.Lists.{length}
use Prim.Native.Nat.{ℕ, ◌+◌, ◌≤◌}
use mathlib.Core.Path.{◌≡◌, refl}
use mathlib.Core.Logic.{◌≢◌, ◌↔◌, inl, inr}
use mathlib.Core.Bool.{Bool, true, false, not, ◌&&◌, ◌||◌}
use mathlib.Core.List.{List, [], ◌∷◌, ◌++◌}
use native.Mathlib.Omega.{arith}

-- A test for the keys of a map that decides whether two of them are the same.
pub record Eq {ℓ} (K : Type ℓ) : Type ℓ where
  pub beq : K → K → Bool
  pub beq_iff : (k j : K) → (beq k j ≡ true) ↔ (k ≡ j)

module _ {ℓ} {A : Type ℓ} where
  -- `retain` of a vector, deque or map, and `filter` of an iterator.
  abbrev pub retain : (A → Bool) → List A → List A
  retain p [] = []
  retain p (x ∷ xs) = let rest = retain p xs in if p x then x ∷ rest else rest

  pub length-retain-le : (p : A → Bool) (xs : List A) → length (retain p xs) ≤ length xs
  length-retain-le p [] = omega arith
  length-retain-le p (x ∷ xs) = ground (arith, length-retain-le p xs)

infix 50 ◌==◌
abbrev pub ◌==◌ {ℓ} : {K : Type ℓ} ⦃same : Eq K⦄ → K → K → Bool
◌==◌ ⦃same⦄ = same.beq

instance abbrev pub nat_eq : Eq ℕ
nat_eq = record { beq = nat_beq; beq_iff = ==_iff }

module _ {ℓ} {A : Type ℓ} ⦃e : Eq A⦄ where
  pub beq_refl : (a : A) → (a == a) ≡ true
  beq_refl a = (e.beq_iff a a).1 refl

  pub beq_false : (a b : A) → a ≢ b → (a == b) ≡ false
  beq_false a b ne = elim (Bool-cases (a == b)) [
    | inl h ↦ absurd (ne ((e.beq_iff a b).0 h))
    | inr h ↦ h
  ]

  abbrev pub contains : A → List A → Bool
  contains a [] = false
  contains a (x ∷ xs) = a == x || contains a xs

  -- The list without a key.
  abbrev pub without : A → List A → List A
  without a xs = retain (λ x. not (x == a)) xs

  abbrev pub Distinct : List A → Type 0
  Distinct [] = Unit
  Distinct (x ∷ xs) = (contains x xs ≡ false) × Distinct xs

module _ {ℓ} {A : Type ℓ} ⦃e : Eq A⦄ where
  pub contains-append :
      (a : A) (xs ys : List A) → contains a (xs ++ ys) ≡ (contains a xs || contains a ys)
  contains-append a [] ys = refl
  contains-append a (x ∷ xs) ys = ground (arith, contains-append a xs ys)

  pub contains-retain :
      (p : A → Bool) (a : A) (xs : List A) → contains a (retain p xs) ≡ (p a && contains a xs)
  contains-retain p a [] = ground arith
  contains-retain p a (x ∷ xs) =
      ground (arith, contains-retain p a xs, (e.beq_iff a x).0, (e.beq_iff a x).1)

  pub Distinct-retain : (p : A → Bool) (xs : List A) → Distinct xs → Distinct (retain p xs)
  Distinct-retain p [] d = tt
  Distinct-retain p (x ∷ xs) d = ground (arith, Distinct-retain p xs d.1, contains-retain p x xs)

  pub contains-without :
      (a k : A) (xs : List A) → contains a (without k xs) ≡ (not (a == k) && contains a xs)
  contains-without a k xs = contains-retain (λ x. not (x == k)) a xs

  pub beq_comm : (a b : A) → (a == b) ≡ (b == a)
  beq_comm a b =
      ground (arith, (e.beq_iff a b).0, (e.beq_iff b a).0, (e.beq_iff a b).1, (e.beq_iff b a).1)

  pub without_absent : (k : A) (xs : List A) → contains k xs ≡ false → without k xs ≡ xs
  without_absent k [] h = refl
  without_absent k (x ∷ xs) h = ground (arith, beq_comm k x, without_absent k xs)

  -- Taking a key out of a list without repetition shortens it by one.
  pub length-without :
      (k : A) (xs : List A)
      → Distinct xs
      → contains k xs ≡ true
      → length (without k xs) + 1 ≡ length xs
  length-without k [] d h = cc
  length-without k (x ∷ xs) d h =
      ground (arith, beq_comm k x, (e.beq_iff x k).0, length-without k xs d.1, without_absent k xs)

  pub Distinct-snoc :
      (k : A) (xs : List A) → Distinct xs → contains k xs ≡ false → Distinct (xs ++ (k ∷ []))
  Distinct-snoc k [] d h = (refl, tt)
  Distinct-snoc k (x ∷ xs) d h =
      ground (arith, beq_comm k x, Distinct-snoc k xs d.1, contains-append x xs (k ∷ []))

  pub contains_none : (xs : List A) → ((k : A) → contains k xs ≡ false) → xs ≡ []
  contains_none [] h = refl
  contains_none (x ∷ xs) h = ground (arith, h x, beq_refl x)
