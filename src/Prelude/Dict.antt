-- ===== src/Prelude/Dict.antt =====
-- `HashMap` and `BTreeMap` as association lists with one entry for each key.
use hypura.Prelude.Tests.{if◌then◌else◌}
use hypura.Prelude.Keys.{Eq, ◌==◌, contains, Distinct}
use mathlib.Core.Path.{◌≡◌, refl}
use mathlib.Core.Bool.{true, ◌||◌}
use mathlib.Core.Option.{Option, none, some}
use mathlib.Core.List.{List, [], ◌∷◌}
use native.Mathlib.Omega.{arith}

abbrev pub Dict {ℓ κ} : Type ℓ → Type κ → Type (ℓ ⊔ κ)
Dict K V = List (K × V)

module _ {ℓ κ} {K : Type ℓ} {V : Type κ} ⦃e : Eq K⦄ where
  abbrev pub lookup : K → Dict K V → Option V
  lookup k [] = none
  lookup k ((j, v) ∷ m) = if j == k then some v else lookup k m

  abbrev pub insert : K → V → Dict K V → Dict K V
  insert k v [] = (k, v) ∷ []
  insert k v ((j, w) ∷ m) = if j == k then (k, v) ∷ m else (j, w) ∷ insert k v m

  -- Removes the entry of a key.
  abbrev pub remove : K → Dict K V → Dict K V
  remove k [] = []
  remove k ((j, w) ∷ m) = if j == k then m else (j, w) ∷ remove k m

  abbrev pub keys : Dict K V → List K
  keys [] = []
  keys ((j, w) ∷ m) = j ∷ keys m

  abbrev pub values : Dict K V → List V
  values [] = []
  values ((j, w) ∷ m) = w ∷ values m

module _ {ℓ κ} {K : Type ℓ} {V : Type κ} ⦃e : Eq K⦄ where
  pub lookup-insert :
      (k j : K) (v : V) (m : Dict K V)
      → lookup j (insert k v m) ≡ (if k == j then some v else lookup j m)
  lookup-insert k j v [] = refl
  lookup-insert k j v ((i, w) ∷ m) = ground (
    arith,
    (e.beq_iff k j).0,
    (e.beq_iff i k).0,
    (e.beq_iff i j).0,
    (e.beq_iff k j).1,
    (e.beq_iff i k).1,
    (e.beq_iff i j).1,
    lookup-insert k j v m,
  )

  pub contains-keys-insert :
      (k j : K) (v : V) (m : Dict K V)
      → contains j (keys (insert k v m)) ≡ (j == k || contains j (keys m))
  contains-keys-insert k j v [] = refl
  contains-keys-insert k j v ((i, w) ∷ m) =
      ground (arith, (e.beq_iff i k).0, contains-keys-insert k j v m)

  pub Distinct-insert :
      (k : K) (v : V) (m : Dict K V) → Distinct (keys m) → Distinct (keys (insert k v m))
  Distinct-insert k v [] d = (refl, tt)
  Distinct-insert k v ((i, w) ∷ m) d = ground (
    arith,
    (e.beq_iff i k).0,
    (e.beq_iff k i).0,
    (e.beq_iff i k).1,
    Distinct-insert k v m d.1,
    contains-keys-insert k i v m,
  )

  pub contains-keys-remove :
      (k j : K) (m : Dict K V) → contains j (keys (remove k m)) ≡ true → contains j (keys m) ≡ true
  contains-keys-remove k j [] h = h
  contains-keys-remove k j ((i, w) ∷ m) h = ground (arith, contains-keys-remove k j m)

  pub Distinct-remove : (k : K) (m : Dict K V) → Distinct (keys m) → Distinct (keys (remove k m))
  Distinct-remove k [] d = tt
  Distinct-remove k ((i, w) ∷ m) d =
      ground (arith, Distinct-remove k m d.1, contains-keys-remove k i m)
