-- ===== src/Cache/Neuron/Bounds.antt =====
-- The map and the queue of the cache stay the same set, and the set stays within its capacity.
use hypura.Prelude.{
  ℕ, ◌+◌, ◌≤◌, max, true, false, not, ◌||◌, List, [], ◌∷◌, leb, length, ◌≡◌, refl, sym, ap, ◌∙◌,
  inl, inr, Bool-cases, arith, ◌==◌ as nat_beq,
}
use hypura.Prelude.Keys.{
  contains, without, Distinct, contains-append, contains-retain, contains-without, Distinct-retain,
  Distinct-snoc, length-without, length-retain-le, contains_none, beq_refl,
}
use hypura.Cache.Neuron
use hypura.Cache.Neuron.{NeuronCache, CacheKey, key_eq, key_beq, promote, key_beq_iff}

-- Map and queue hold the same keys, each once, and no more than the capacity (one, at capacity 0).
pub record IsValid (c : NeuronCache) : Type 0 where
  pub distinct_entries : Distinct c.entries
  pub distinct_order : Distinct c.lru_order
  pub same : (k : CacheKey) → contains k c.entries ≡ contains k c.lru_order
  pub bounded : length c.entries ≤ max 1 c.capacity

Distinct-promote : (k : CacheKey) (xs : List CacheKey) → Distinct xs → Distinct (promote k xs)
Distinct-promote k xs d =
    Distinct-snoc k (without k xs) (Distinct-retain _ xs d)
      (ground (arith, contains-without k k xs, beq_refl k))

contains-promote :
    (j k : CacheKey) (xs : List CacheKey)
    → contains j (promote k xs) ≡ (key_beq j k || contains j xs)
contains-promote j k xs =
    ground (arith, contains-append j (without k xs) (k ∷ []), contains-without j k xs)

same-promote :
    (c : NeuronCache) (k : CacheKey)
    → IsValid c
    → contains k c.entries ≡ true
    → (j : CacheKey) → contains j c.entries ≡ contains j (promote k c.lru_order)
same-promote c k v h j =
    ground (arith, contains-promote j k c.lru_order, v.same j, (key_beq_iff j k).0)

-- A lookup keeps the invariant.
pub is_loaded-IsValid :
    (c : NeuronCache) (k : CacheKey) → IsValid c → IsValid (Neuron.is_loaded c k).0
unfolding Neuron.is_loaded
is_loaded-IsValid c k v = elim (Bool-cases (contains k c.entries)) [
  | inl hit ↦
      rw (hit, Neuron.is_loaded)
        (record {
          distinct_entries = v.distinct_entries;
          distinct_order = Distinct-promote k c.lru_order v.distinct_order;
          same = same-promote c k v hit;
          bounded = v.bounded;
        })
  | inr miss ↦
      rw (miss, Neuron.is_loaded)
        (record {
          distinct_entries = v.distinct_entries;
          distinct_order = v.distinct_order;
          same = v.same;
          bounded = v.bounded;
        })
]

-- Dropping a layer keeps the invariant.
pub evict_layer-IsValid : (c : NeuronCache) (l : ℕ) → IsValid c → IsValid (Neuron.evict_layer c l)
unfolding Neuron.evict_layer
evict_layer-IsValid c l v = record {
  distinct_entries = Distinct-retain _ c.entries v.distinct_entries;
  distinct_order = Distinct-retain _ c.lru_order v.distinct_order;
  same = λ k. ground (
    arith,
    contains-retain (λ (j : CacheKey). not (nat_beq j.layer l)) k c.entries,
    contains-retain (λ (j : CacheKey). not (nat_beq j.layer l)) k c.lru_order,
    v.same k,
  );
  bounded =
      omega
        (arith, v.bounded, length-retain-le (λ (j : CacheKey). not (nat_beq j.layer l)) c.entries);
}

-- The cache with an absent key added at the recent end.
add-IsValid :
    (c : NeuronCache) (k : CacheKey)
    → Distinct c.entries
    → Distinct c.lru_order
    → ((j : CacheKey) → contains j c.entries ≡ contains j c.lru_order)
    → contains k c.entries ≡ false
    → length c.entries + 1 ≤ max 1 c.capacity
    → IsValid (Neuron.add c k)
add-IsValid c k de dq same absent room = rw absent (record {
  distinct_entries = (absent, de);
  distinct_order = Distinct-snoc k c.lru_order dq (sym (same k) ∙ absent);
  same = λ j. ground (arith, contains-append j c.lru_order (k ∷ []), same j);
  bounded = omega arith;
})

-- The state that `evict_lru` leaves, where the queue is not empty.
evicted-same :
    (c : NeuronCache) (v : CacheKey) (order : List CacheKey)
    → IsValid c
    → c.lru_order ≡ v ∷ order
    → (j : CacheKey) → contains j (without v c.entries) ≡ contains j order
evicted-same c v order i e j =
    let d : Distinct (v ∷ order) = rw e at i.distinct_order in
    let s : contains j c.entries ≡ (key_beq j v || contains j order) = i.same j ∙ rw e in
    ground (arith, contains-without j v c.entries, (key_beq_iff j v).0)

-- An insertion into a full cache.
pub make_room-IsValid :
    (c : NeuronCache) (k : CacheKey)
    → IsValid c
    → contains k c.entries ≡ false
    → IsValid (Neuron.add (Neuron.evict_lru c).0 k)
unfolding Neuron.evict_lru
make_room-IsValid c k i absent = by_order c.lru_order refl
  where
    by_order :
        (order : List CacheKey)
        → c.lru_order ≡ order
        → IsValid (Neuron.add (Neuron.evict_lru c).0 k)
    by_order [] e =
        let empty = contains_none c.entries (λ j. i.same j ∙ rw e) in
        rw (e, Neuron.evict_lru)
          (add-IsValid c k i.distinct_entries i.distinct_order i.same absent
            (rw empty (omega arith)))
    by_order (v ∷ order) e =
        let d : Distinct (v ∷ order) = rw e at i.distinct_order in
        let there : contains v c.entries ≡ true = i.same v ∙ rw e (ground (arith, beq_refl v)) in
        rw (e, Neuron.evict_lru, ap Neuron.rest e)
          (add-IsValid (record c { entries = without v c.entries; lru_order = order }) k
            (Distinct-retain _ c.entries i.distinct_entries) d.1 (evicted-same c v order i e)
            (ground (arith, contains-without k v c.entries))
            (omega (arith, length-without v c.entries i.distinct_entries there, i.bounded)))

-- Marking a slice keeps the invariant, the bound included.
pub mark_loaded-IsValid :
    (c : NeuronCache) (k : CacheKey) → IsValid c → IsValid (Neuron.mark_loaded c k).0
unfolding Neuron.mark_loaded
mark_loaded-IsValid c k i = elim (Bool-cases (contains k c.entries)) [
  | inl there ↦
      rw (there, Neuron.mark_loaded)
        (record {
          distinct_entries = i.distinct_entries;
          distinct_order = Distinct-promote k c.lru_order i.distinct_order;
          same = same-promote c k i there;
          bounded = i.bounded;
        })
  | inr absent ↦ elim (Bool-cases (leb c.capacity (length c.entries))) [
    | inl full ↦ rw (absent, full, Neuron.mark_loaded) (make_room-IsValid c k i absent)
    | inr room ↦
        rw (absent, room, Neuron.mark_loaded)
          (add-IsValid c k i.distinct_entries i.distinct_order i.same absent (ground arith))
  ]
]
