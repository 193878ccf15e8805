-- ===== src/Cache/Neuron/Order.antt =====
-- The order of eviction, against a clock that the cache does not keep: each use of a loaded slice
-- stamps its key with the time of the call.
use hypura.Prelude.{
  ℕ, suc, ◌<◌, Bool, true, false, List, [], ◌∷◌, ◌++◌, ◌≡◌, inl, inr, Bool-cases, arith,
  if◌then◌else◌,
}
use hypura.Prelude.Keys.{
  contains, retain, without, contains-append, contains-retain, contains-without, beq_refl,
}
use hypura.Cache.Neuron.{CacheKey, key_eq, key_beq, promote, key_beq_iff}

-- The time of the last use of each key.
abbrev pub Stamps : Type 0
Stamps = CacheKey → ℕ

abbrev pub stamp : Stamps → CacheKey → ℕ → Stamps
stamp t k now j = if key_beq j k then now else t j

-- The keys of a queue stand in the order of their last use.
abbrev pub IsSorted : Stamps → List CacheKey → Type 0
IsSorted t [] = Unit
IsSorted t (k ∷ ks) = ((j : CacheKey) → contains j ks ≡ true → t k < t j) × IsSorted t ks

pub record Tracks (t : Stamps) (now : ℕ) (order : List CacheKey) : Type 0 where
  pub sorted : IsSorted t order
  pub past : (j : CacheKey) → contains j order ≡ true → t j < now

IsSorted-retain :
    (t : Stamps) (p : CacheKey → Bool) (ks : List CacheKey)
    → IsSorted t ks
    → IsSorted t (retain p ks)
IsSorted-retain t p [] s = tt
IsSorted-retain t p (k ∷ ks) s = elim (Bool-cases (p k)) [
  | inl h ↦
      rw h ((λ j m. s.0 j (ground (arith, contains-retain p j ks))), IsSorted-retain t p ks s.1)
  | inr h ↦ rw h (IsSorted-retain t p ks s.1)
]

-- A key that is stamped now goes to the end.
IsSorted-snoc :
    (t : Stamps) (now : ℕ) (k : CacheKey) (ks : List CacheKey)
    → IsSorted t ks
    → ((j : CacheKey) → contains j ks ≡ true → t j < now)
    → contains k ks ≡ false
    → IsSorted (stamp t k now) (ks ++ (k ∷ []))
IsSorted-snoc t now k [] s past absent = ((λ j m. cc), tt)
IsSorted-snoc t now k (x ∷ ks) s past absent = (
  (λ j m. ground (
    arith,
    contains-append j ks (k ∷ []),
    (key_beq_iff k x).1,
    (key_beq_iff x k).0,
    (key_beq_iff j k).0,
    s.0 j,
    past x,
    beq_refl x,
  )),
  IsSorted-snoc t now k ks s.1 (λ j m. past j (ground arith)) (ground arith),
)

pub Tracks-snoc :
    (t : Stamps) (now : ℕ) (k : CacheKey) (ks : List CacheKey)
    → Tracks t now ks
    → contains k ks ≡ false
    → Tracks (stamp t k now) (suc now) (ks ++ (k ∷ []))
Tracks-snoc t now k ks h absent = record {
  sorted = IsSorted-snoc t now k ks h.sorted h.past absent;
  past = λ j m. ground (arith, contains-append j ks (k ∷ []), h.past j);
}

pub Tracks-retain :
    (t : Stamps) (now : ℕ) (p : CacheKey → Bool) (ks : List CacheKey)
    → Tracks t now ks
    → Tracks t now (retain p ks)
Tracks-retain t now p ks h = record {
  sorted = IsSorted-retain t p ks h.sorted;
  past = λ j m. h.past j (ground (arith, contains-retain p j ks));
}

pub Tracks-later :
    (t : Stamps) (now : ℕ) (ks : List CacheKey) → Tracks t now ks → Tracks t (suc now) ks
Tracks-later t now ks h = record { sorted = h.sorted; past = λ j m. omega (arith, h.past j m) }

pub Tracks-promote :
    (t : Stamps) (now : ℕ) (k : CacheKey) (ks : List CacheKey)
    → Tracks t now ks
    → Tracks (stamp t k now) (suc now) (promote k ks)
Tracks-promote t now k ks h =
    Tracks-snoc t now k (without k ks) (Tracks-retain t now _ ks h)
      (ground (arith, contains-without k k ks, beq_refl k))
