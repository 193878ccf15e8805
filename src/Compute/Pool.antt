-- ===== src/Compute/Pool.antt =====
-- src/compute/nvme_backend.rs, `ExpertPool`: a buffer cut into slots that the layers share.
-- The head of `free_slots` is the end of the vector, where the program pushes and pops. `advised`
-- is not a field of the program's: it logs the calls of madvise, as an address and a length.
pub mod Slots
pub mod Totality
pub mod Allocate
mod Tests
use package.hypura.Prelude.{
  ℕ, zero, suc, ◌+◌, ◌*◌, ◌/◌, min, Option, none, some, List, [], ◌∷◌, ◌++◌, map, if◌then◌else◌,
}
use package.hypura.Prelude.Keys.{◌==◌, nat_eq, without}
use package.hypura.Prelude.Dict.{Dict, lookup, insert, remove, keys}

pub record ExpertPool : Type 0 where
  pub pool_base : ℕ
  pub pool_size : ℕ
  pub slot_size : ℕ
  pub num_slots : ℕ
  pub layer_slots : Dict ℕ (List ℕ)
  pub free_slots : List ℕ
  pub advised : List (ℕ × ℕ)

-- i, i + 1, …, i + n - 1
abbrev pub range_from : ℕ → ℕ → List ℕ
range_from i zero = []
range_from i (suc n) = i ∷ range_from (i + 1) n

-- `none` is the panic on a division by zero.
unfoldable pub new : ℕ → ℕ → ℕ → Option ExpertPool
new pool_base pool_size slot_size =
    if slot_size == 0
    then none
    else some (record {
      pool_base = pool_base;
      pool_size = pool_size;
      slot_size = slot_size;
      num_slots = pool_size / slot_size;
      layer_slots = [];
      free_slots = range_from 0 (pool_size / slot_size);
      advised = [];
    })

unfoldable pub slot_offset : ExpertPool → ℕ → ℕ
slot_offset p slot_idx = slot_idx * p.slot_size

-- `keys().min()`
abbrev pub min_key : List ℕ → Option ℕ
min_key [] = none
min_key (k ∷ ks) = elim (min_key ks) [ none ↦ some k | some j ↦ some (min k j) ]

abbrev pub unwrap_or {ℓ} : {A : Type ℓ} → A → Option A → A
unwrap_or d none = d
unwrap_or d (some a) = a

-- One slot goes back to the free list, and its pages are given up.
abbrev pub free_one : ExpertPool → ℕ → ExpertPool
free_one p s = record p {
  advised = (p.pool_base + s * p.slot_size, p.slot_size) ∷ p.advised;
  free_slots = s ∷ p.free_slots;
}

-- The loop of `release_layer` over the slots of the layer.
unfoldable pub free_each : ExpertPool → List ℕ → ExpertPool
free_each p [] = p
free_each p (s ∷ slots) = free_each (free_one p s) slots

unfoldable pub release_layer : ExpertPool → ℕ → ExpertPool
unfolding free_each
release_layer p layer_idx = elim (lookup layer_idx p.layer_slots) [
  | none ↦ p
  | some slots ↦ free_each (record p { layer_slots = remove layer_idx p.layer_slots }) slots
]

-- `free_slots.pop()`
abbrev pub pop_from : ExpertPool → List ℕ → Option (ℕ × ExpertPool)
pop_from p [] = none
pop_from p (s ∷ free) = some (s, record p { free_slots = free })

abbrev pub pop_free : ExpertPool → Option (ℕ × ExpertPool)
pop_free p = pop_from p p.free_slots

unfoldable pub oldest : ExpertPool → ℕ → ℕ
oldest p layer_idx = unwrap_or 0 (min_key (without layer_idx (keys p.layer_slots)))

-- One round of the loop of `allocate_layer`; `none` is the panic of `expect`.
unfoldable pub take_slot : ExpertPool → ℕ → Option (ℕ × ExpertPool)
unfolding release_layer oldest
take_slot p layer_idx = elim (pop_free p) [
  | some taken ↦ some taken
  | none ↦ pop_free (release_layer p (oldest p layer_idx))
]

-- The loop of `allocate_layer`, for the tensors that are left.
unfoldable pub take_slots : ℕ → ExpertPool → ℕ → List ℕ → Option (ExpertPool × List ℕ)
unfolding take_slot
take_slots zero p layer_idx slots = some (p, slots)
take_slots (suc n) p layer_idx slots = elim (take_slot p layer_idx) [
  | none ↦ none
  | some (s, p') ↦ take_slots n p' layer_idx (slots ++ (s ∷ []))
]

abbrev pub offsets : ExpertPool → List ℕ → List ℕ
offsets p slots = map (λ s. s * p.slot_size) slots

unfoldable pub allocate_layer : ExpertPool → ℕ → ℕ → Option (ExpertPool × List ℕ)
unfolding take_slots
allocate_layer p layer_idx num_tensors = elim (lookup layer_idx p.layer_slots) [
  | some existing ↦ some (p, offsets p existing)
  | none ↦ elim (take_slots num_tensors p layer_idx []) [
    | none ↦ none
    | some (p', slots) ↦
        some (record p' { layer_slots = insert layer_idx slots p'.layer_slots }, offsets p' slots)
  ]
]
