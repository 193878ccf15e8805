-- ===== src/Compute/Pool/Totality.antt =====
-- When `allocate_layer` succeeds, and what it hands out.
use hypura.Prelude.{
  ℕ, zero, suc, ◌+◌, ◌≤◌, ◌<◌, false, none, some, List, [], ◌∷◌, ◌++◌, length, length-append, ◌≡◌,
  refl, ◌∙◌, ap, inl, inr, arith, Option-cases, Bool-cases, ◌==◌,
}
use hypura.Prelude.Keys.{nat_eq, contains, without_absent}
use hypura.Prelude.Dict.{Dict, lookup, remove, keys}
use hypura.Compute.Pool
use hypura.Compute.Pool.{ExpertPool, pop_from, oldest, unwrap_or, min_key, offsets}
use hypura.Compute.Pool.Slots.{held_slots, AllOccupied, IsShared, take_slot-IsShared}

-- What an allocation never changes, and the layers that it does not add.
pub record Keeps (p p' : ExpertPool) : Type 0 where
  pub base : p'.pool_base ≡ p.pool_base
  pub size : p'.pool_size ≡ p.pool_size
  pub slot : p'.slot_size ≡ p.slot_size
  pub slots : p'.num_slots ≡ p.num_slots
  pub absent : (l : ℕ) → lookup l p.layer_slots ≡ none → lookup l p'.layer_slots ≡ none

lookup-remove-none :
    (j k : ℕ) (m : Dict ℕ (List ℕ)) → lookup j m ≡ none → lookup j (remove k m) ≡ none
lookup-remove-none j k [] h = h
lookup-remove-none j k ((i, w) ∷ m) h = ground (arith, lookup-remove-none j k m)

contains-keys-none : (j : ℕ) (m : Dict ℕ (List ℕ)) → lookup j m ≡ none → contains j (keys m) ≡ false
contains-keys-none j [] h = refl
contains-keys-none j ((i, w) ∷ m) h = ground (arith, contains-keys-none j m)

Keeps-refl : (p : ExpertPool) → Keeps p p
Keeps-refl p = record { base = refl; size = refl; slot = refl; slots = refl; absent = λ l h. h }

Keeps-trans : (p q r : ExpertPool) → Keeps p q → Keeps q r → Keeps p r
Keeps-trans p q r a b = record {
  base = b.base ∙ a.base;
  size = b.size ∙ a.size;
  slot = b.slot ∙ a.slot;
  slots = b.slots ∙ a.slots;
  absent = λ l h. b.absent l (a.absent l h);
}

free_each-Keeps : (p : ExpertPool) (slots : List ℕ) → Keeps p (Pool.free_each p slots)
unfolding Pool.free_each
free_each-Keeps p [] = Keeps-refl p
free_each-Keeps p (x ∷ slots) =
    let k = free_each-Keeps (Pool.free_one p x) slots in
    record { base = k.base; size = k.size; slot = k.slot; slots = k.slots; absent = k.absent }

pub release_layer-Keeps : (p : ExpertPool) (l : ℕ) → Keeps p (Pool.release_layer p l)
unfolding Pool.release_layer
release_layer-Keeps p l = elim (Option-cases (lookup l p.layer_slots)) [
  | inl e ↦ rw (e, Pool.release_layer) (Keeps-refl p)
  | inr (slots, e) ↦
      let k = free_each-Keeps (record p { layer_slots = remove l p.layer_slots }) slots in
      rw (e, Pool.release_layer)
        (record {
          base = k.base;
          size = k.size;
          slot = k.slot;
          slots = k.slots;
          absent = λ j h. k.absent j (lookup-remove-none j l p.layer_slots h);
        })
]

length-free_each :
    (p : ExpertPool) (slots : List ℕ)
    → length (Pool.free_each p slots).free_slots ≡ length slots + length p.free_slots
unfolding Pool.free_each
length-free_each p [] = omega arith
length-free_each p (x ∷ slots) = omega (arith, length-free_each (Pool.free_one p x) slots)

pop_from-Keeps :
    (p : ExpertPool) (free : List ℕ) {s : ℕ} {p' : ExpertPool}
    → pop_from p free ≡ some (s, p')
    → Keeps p p'
pop_from-Keeps p [] got = cc
pop_from-Keeps p (x ∷ free) {s} {p'} got =
    let same : record p { free_slots = free } ≡ p' = ground arith in
    rw (← same) (record { base = refl; size = refl; slot = refl; slots = refl; absent = λ l h. h })

pub take_slot-Keeps :
    (p : ExpertPool) (l : ℕ) {s : ℕ} {p' : ExpertPool}
    → Pool.take_slot p l ≡ some (s, p')
    → Keeps p p'
unfolding Pool.take_slot
take_slot-Keeps p l {s} {p'} got = by_free p.free_slots refl
  where
    by_free : (free : List ℕ) → p.free_slots ≡ free → Keeps p p'
    by_free (x ∷ free) e = pop_from-Keeps p (x ∷ free) {s = s} (ground (arith, e))
    by_free [] e =
        let r = Pool.release_layer p (oldest p l) in
        Keeps-trans p r p' (release_layer-Keeps p (oldest p l))
          (pop_from-Keeps r r.free_slots {s = s} (ground (arith, e)))

-- The least key of a dictionary is one of its keys.
min_key-lookup :
    (m : Dict ℕ (List ℕ)) (k : ℕ)
    → min_key (keys m) ≡ some k
    → (slots : List ℕ) × (lookup k m ≡ some slots)
min_key-lookup [] k h = absurd (ground arith)
min_key-lookup ((j, w) ∷ m) k h = elim (Bool-cases (j == k)) [
  | inl here ↦ (w, rw here)
  | inr other ↦ elim (Option-cases (min_key (keys m))) [
    | inl e ↦ absurd (ground (arith, e))
    | inr (i, e) ↦
        let (slots, there) = min_key-lookup m k (ground (arith, e)) in (slots, rw other there)
  ]
]

min_key-none : (m : Dict ℕ (List ℕ)) → min_key (keys m) ≡ none → held_slots m ≡ 0
min_key-none [] h = refl
min_key-none ((j, w) ∷ m) h = absurd (ground arith)

occupied-lookup :
    (m : Dict ℕ (List ℕ)) (k : ℕ) (slots : List ℕ)
    → AllOccupied m
    → lookup k m ≡ some slots
    → 0 < length slots
occupied-lookup [] k slots a h = cc
occupied-lookup ((j, w) ∷ m) k slots a h = ground (arith, a.0, occupied-lookup m k slots a.1)

-- The layer that `take_slot` releases is one of the pool's.
oldest-lookup :
    (p : ExpertPool) (l : ℕ)
    → lookup l p.layer_slots ≡ none
    → 0 < held_slots p.layer_slots
    → (slots : List ℕ) × (lookup (oldest p l) p.layer_slots ≡ some slots)
unfolding Pool.oldest
oldest-lookup p l h some_held =
    let others = without_absent l (keys p.layer_slots) (contains-keys-none l p.layer_slots h) in
    elim (Option-cases (min_key (keys p.layer_slots))) [
      | inl e ↦ absurd (omega (arith, min_key-none p.layer_slots e))
      | inr (k, e) ↦
          let (slots, there) = min_key-lookup p.layer_slots k e in
          (slots, ap (λ j. lookup (unwrap_or 0 (min_key j)) p.layer_slots) others ∙ rw e there)
    ]

-- Where a slot belongs to a layer and none is free, the release that `take_slot` makes frees one.
release-oldest_frees :
    (p : ExpertPool) (l : ℕ)
    → AllOccupied p.layer_slots
    → lookup l p.layer_slots ≡ none
    → 0 < held_slots p.layer_slots
    → 0 < length (Pool.release_layer p (oldest p l)).free_slots
unfolding Pool.release_layer
release-oldest_frees p l a h some_held =
    let (slots, there) = oldest-lookup p l h some_held in
    rw (there, Pool.release_layer)
      (omega (
        arith,
        length-free_each (record p { layer_slots = remove (oldest p l) p.layer_slots }) slots,
        occupied-lookup p.layer_slots (oldest p l) slots a there,
      ))

pop_from-some :
    (p : ExpertPool) (free : List ℕ)
    → 0 < length free
    → (s : ℕ) × ((p' : ExpertPool) × (pop_from p free ≡ some (s, p')))
pop_from-some p [] h = absurd (omega arith)
pop_from-some p (x ∷ free) h = (x, (record p { free_slots = free }, refl))

pop_from-none : (p : ExpertPool) (free : List ℕ) → length free ≡ 0 → pop_from p free ≡ none
pop_from-none p [] h = refl
pop_from-none p (x ∷ free) h = absurd (omega arith)

take_slot_evicts :
    (p : ExpertPool) (l : ℕ)
    → p.free_slots ≡ []
    → Pool.take_slot p l ≡ Pool.pop_free (Pool.release_layer p (oldest p l))
unfolding Pool.take_slot
take_slot_evicts p l e = ground (arith, e)

-- While the allocation holds fewer slots than there are, it gets another.
take_slot-some :
    (p : ExpertPool) (l : ℕ) (held : List ℕ)
    → IsShared p held
    → lookup l p.layer_slots ≡ none
    → length held < p.num_slots
    → (s : ℕ) × ((p' : ExpertPool) × (Pool.take_slot p l ≡ some (s, p')))
unfolding Pool.take_slot
take_slot-some p l held h absent room = by_free p.free_slots refl
  where
    by_free :
        (free : List ℕ)
        → p.free_slots ≡ free
        → (s : ℕ) × ((p' : ExpertPool) × (Pool.take_slot p l ≡ some (s, p')))
    by_free (x ∷ free) e = (x, (record p { free_slots = free }, rw (e, Pool.take_slot)))
    by_free [] e =
        let r = Pool.release_layer p (oldest p l) in
        let frees =
          release-oldest_frees p l h.occupied absent (omega (arith, h.size, ap length e)) in
        let (s, (p', got)) = pop_from-some r r.free_slots frees in
        (s, (p', take_slot_evicts p l e ∙ got))

pub length-take_slots :
    (n : ℕ) (p : ExpertPool) (l : ℕ) (held : List ℕ) {p' : ExpertPool} {slots : List ℕ}
    → Pool.take_slots n p l held ≡ some (p', slots)
    → length slots ≡ length held + n
unfolding Pool.take_slots
length-take_slots zero p l held {p'} {slots} got =
    let same : held ≡ slots = ground arith in omega (arith, ap length same)
length-take_slots (suc n) p l held got = elim (Option-cases (Pool.take_slot p l)) [
  | inl e ↦ absurd (ground (arith, e))
  | inr ((s, q), e) ↦ omega (
    arith,
    length-take_slots n q l (held ++ (s ∷ [])) (rw (e, Pool.take_slots) at got),
    length-append held (s ∷ []),
  )
]

pub take_slots-Keeps :
    (n : ℕ) (p : ExpertPool) (l : ℕ) (held : List ℕ) {p' : ExpertPool} {slots : List ℕ}
    → Pool.take_slots n p l held ≡ some (p', slots)
    → Keeps p p'
unfolding Pool.take_slots
take_slots-Keeps zero p l held {p'} got =
    let same : p ≡ p' = ground arith in rw (← same) (Keeps-refl p)
take_slots-Keeps (suc n) p l held {p'} got = elim (Option-cases (Pool.take_slot p l)) [
  | inl e ↦ absurd (ground (arith, e))
  | inr ((s, q), e) ↦
      Keeps-trans p q p' (take_slot-Keeps p l e)
        (take_slots-Keeps n q l (held ++ (s ∷ [])) (rw (e, Pool.take_slots) at got))
]

-- The loop succeeds as long as there are slots for all.
pub take_slots-some :
    (n : ℕ) (p : ExpertPool) (l : ℕ) (held : List ℕ)
    → IsShared p held
    → lookup l p.layer_slots ≡ none
    → length held + n ≤ p.num_slots
    → (p' : ExpertPool) × ((slots : List ℕ) × (Pool.take_slots n p l held ≡ some (p', slots)))
unfolding Pool.take_slots
take_slots-some zero p l held h absent room = (p, (held, refl))
take_slots-some (suc n) p l held h absent room =
    let (s, (q, e)) = take_slot-some p l held h absent (omega arith) in
    let k = take_slot-Keeps p l e in
    let (p', (slots, got)) =
      take_slots-some n q l (held ++ (s ∷ [])) (take_slot-IsShared p l held h e) (k.absent l absent)
        (omega (arith, k.slots, length-append held (s ∷ []))) in
    (p', (slots, rw (e, Pool.take_slots) got))
