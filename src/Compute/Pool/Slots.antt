-- ===== src/Compute/Pool/Slots.antt =====
-- The slots of the pool are shared out: each belongs to the free list, to one layer, or to the
-- allocation that is under way.
use hypura.Prelude.{
  ℕ, zero, suc, ◌+◌, ◌<◌, none, some, List, [], ◌∷◌, ◌++◌, if◌then◌else◌, ltb, length,
  length-append, All, ◌≡◌, refl, ap, inl, inr, arith, Option-cases, ◌==◌,
}
use hypura.Prelude.Keys.{nat_eq}
use hypura.Prelude.Dict.{Dict, lookup, insert, remove}
use hypura.Compute.Pool
use hypura.Compute.Pool.{ExpertPool, pop_from, oldest, unwrap_or, min_key}

abbrev pub count : ℕ → List ℕ → ℕ
count s [] = 0
count s (x ∷ xs) = (if s == x then 1 else 0) + count s xs

-- How often a slot stands in the lists of the layers, and how many slots these hold.
abbrev pub count_layers : ℕ → Dict ℕ (List ℕ) → ℕ
count_layers s [] = 0
count_layers s ((l, slots) ∷ m) = count s slots + count_layers s m

abbrev pub held_slots : Dict ℕ (List ℕ) → ℕ
held_slots [] = 0
held_slots ((l, slots) ∷ m) = length slots + held_slots m

abbrev pub AllOccupied : Dict ℕ (List ℕ) → Type 0
AllOccupied m = All (λ (entry : ℕ × List ℕ). 0 < length entry.1) m

-- `held` are the slots of the allocation that is under way.
pub record IsShared (p : ExpertPool) (held : List ℕ) : Type 0 where
  pub once :
      (s : ℕ)
      → count s p.free_slots + count_layers s p.layer_slots + count s held
        ≡ (if ltb s p.num_slots then 1 else 0)
  pub size : length p.free_slots + held_slots p.layer_slots + length held ≡ p.num_slots
  pub occupied : AllOccupied p.layer_slots

pub count-append : (s : ℕ) (xs ys : List ℕ) → count s (xs ++ ys) ≡ count s xs + count s ys
count-append s [] ys = omega arith
count-append s (x ∷ xs) ys = omega (arith, count-append s xs ys)

count_layers-remove :
    (s l : ℕ) (m : Dict ℕ (List ℕ)) (slots : List ℕ)
    → lookup l m ≡ some slots
    → count_layers s (remove l m) + count s slots ≡ count_layers s m
count_layers-remove s l [] slots h = cc
count_layers-remove s l ((j, w) ∷ m) slots h = ground (arith, count_layers-remove s l m slots)

held_slots-remove :
    (l : ℕ) (m : Dict ℕ (List ℕ)) (slots : List ℕ)
    → lookup l m ≡ some slots
    → held_slots (remove l m) + length slots ≡ held_slots m
held_slots-remove l [] slots h = cc
held_slots-remove l ((j, w) ∷ m) slots h = ground (arith, held_slots-remove l m slots)

AllOccupied-remove : (l : ℕ) (m : Dict ℕ (List ℕ)) → AllOccupied m → AllOccupied (remove l m)
AllOccupied-remove l [] a = tt
AllOccupied-remove l ((j, w) ∷ m) a = ground (arith, AllOccupied-remove l m a.1)

pub count_layers-insert :
    (s l : ℕ) (m : Dict ℕ (List ℕ)) (slots : List ℕ)
    → lookup l m ≡ none
    → count_layers s (insert l slots m) ≡ count_layers s m + count s slots
count_layers-insert s l [] slots h = omega arith
count_layers-insert s l ((j, w) ∷ m) slots h = ground (arith, count_layers-insert s l m slots)

pub held_slots-insert :
    (l : ℕ) (m : Dict ℕ (List ℕ)) (slots : List ℕ)
    → lookup l m ≡ none
    → held_slots (insert l slots m) ≡ held_slots m + length slots
held_slots-insert l [] slots h = omega arith
held_slots-insert l ((j, w) ∷ m) slots h = ground (arith, held_slots-insert l m slots)

pub AllOccupied-insert :
    (l : ℕ) (m : Dict ℕ (List ℕ)) (slots : List ℕ)
    → 0 < length slots
    → AllOccupied m
    → AllOccupied (insert l slots m)
AllOccupied-insert l [] slots n a = (n, tt)
AllOccupied-insert l ((j, w) ∷ m) slots n a = ground (arith, AllOccupied-insert l m slots n a.1)

-- `release_layer` after the removal of the layer: the slots go from `held` to the free list.
free_each-IsShared :
    (p : ExpertPool) (slots held : List ℕ)
    → IsShared p (slots ++ held)
    → IsShared (Pool.free_each p slots) held
unfolding Pool.free_each
free_each-IsShared p [] held h = h
free_each-IsShared p (x ∷ slots) held h =
    free_each-IsShared (Pool.free_one p x) slots held (record {
      once = λ s. omega (arith, h.once s);
      size = omega (arith, h.size);
      occupied = h.occupied;
    })

-- Releasing a layer keeps the slots shared out.
pub release_layer-IsShared :
    (p : ExpertPool) (l : ℕ) (held : List ℕ)
    → IsShared p held
    → IsShared (Pool.release_layer p l) held
unfolding Pool.release_layer
release_layer-IsShared p l held h = elim (Option-cases (lookup l p.layer_slots)) [
  | inl absent ↦ rw (absent, Pool.release_layer) h
  | inr (slots, there) ↦
      rw (there, Pool.release_layer)
        (free_each-IsShared _ slots held (record {
          once = λ s. omega (
            arith,
            h.once s,
            count-append s slots held,
            count_layers-remove s l p.layer_slots slots there,
          );
          size = omega (
            arith,
            h.size,
            length-append slots held,
            held_slots-remove l p.layer_slots slots there,
          );
          occupied = AllOccupied-remove l p.layer_slots h.occupied;
        }))
]

pop_from-IsShared :
    (p : ExpertPool) (free held : List ℕ) {s : ℕ} {p' : ExpertPool}
    → p.free_slots ≡ free
    → IsShared p held
    → pop_from p free ≡ some (s, p')
    → IsShared p' (held ++ (s ∷ []))
pop_from-IsShared p [] held e h got = cc
pop_from-IsShared p (x ∷ free) held {s} {p'} e h got =
    let popped : record p { free_slots = free } ≡ p' = ground arith in
    let same : x ≡ s = ground arith in
    rw (← popped, ← same)
      (record {
        once = λ j. omega (arith, h.once j, ap (count j) e, count-append j held (x ∷ []));
        size = omega (arith, h.size, ap length e, length-append held (x ∷ []));
        occupied = h.occupied;
      })

-- Taking a slot moves it to `held`, whether or not a layer had to go.
pub take_slot-IsShared :
    (p : ExpertPool) (l : ℕ) (held : List ℕ) {s : ℕ} {p' : ExpertPool}
    → IsShared p held
    → Pool.take_slot p l ≡ some (s, p')
    → IsShared p' (held ++ (s ∷ []))
unfolding Pool.take_slot
take_slot-IsShared p l held {s} {p'} h got = by_free p.free_slots refl
  where
    by_free : (free : List ℕ) → p.free_slots ≡ free → IsShared p' (held ++ (s ∷ []))
    by_free (x ∷ free) e = pop_from-IsShared p (x ∷ free) held e h (ground (arith, e))
    by_free [] e =
        let r = Pool.release_layer p (oldest p l) in
        pop_from-IsShared r r.free_slots held refl (release_layer-IsShared p (oldest p l) held h)
          (ground (arith, e))

pub take_slots-IsShared :
    (n : ℕ) (p : ExpertPool) (l : ℕ) (held : List ℕ) {p' : ExpertPool} {slots : List ℕ}
    → IsShared p held
    → Pool.take_slots n p l held ≡ some (p', slots)
    → IsShared p' slots
unfolding Pool.take_slots
take_slots-IsShared zero p l held {p'} {slots} h got =
    let same_pool : p ≡ p' = ground arith in
    let same_slots : held ≡ slots = ground arith in rw (← same_pool, ← same_slots) h
take_slots-IsShared (suc n) p l held {p'} {slots} h got = elim (Option-cases (Pool.take_slot p l)) [
  | inl e ↦ absurd (ground (arith, e))
  | inr ((s, q), e) ↦
      take_slots-IsShared n q l (held ++ (s ∷ [])) (take_slot-IsShared p l held h e)
        (rw (e, Pool.take_slots) at got)
]
