-- ===== src/Cache/Neuron/Reads.antt =====
-- What a lookup answers after the other operations.
use hypura.Prelude.{
  ℕ, Bool, false, not, ◌&&◌, ◌||◌, Option, none, some, List, [], ◌∷◌, ◌≡◌, refl, arith,
  ◌==◌ as nat_beq,
}
use hypura.Prelude.Keys.{contains, contains-retain, contains-without}
use hypura.Cache.Neuron
use hypura.Cache.Neuron.{NeuronCache, CacheKey, key_eq, key_beq, key_beq_iff}

-- Whether an eviction took the key.
abbrev pub took : Option CacheKey → CacheKey → Bool
took none j = false
took (some v) j = key_beq j v

contains-add :
    (c : NeuronCache) (j k : CacheKey)
    → contains j (Neuron.add c k).entries ≡ (key_beq j k || contains j c.entries)
contains-add c j k = ground (arith, (key_beq_iff j k).0)

contains-evict_lru :
    (c : NeuronCache) (j : CacheKey)
    → contains j (Neuron.evict_lru c).0.entries
      ≡ (not (took (Neuron.evict_lru c).1 j) && contains j c.entries)
unfolding Neuron.evict_lru
contains-evict_lru c j = by_order c.lru_order refl
  where
    by_order :
        (order : List CacheKey)
        → c.lru_order ≡ order
        → contains j (Neuron.evict_lru c).0.entries
          ≡ (not (took (Neuron.evict_lru c).1 j) && contains j c.entries)
    by_order [] e = ground (arith, e)
    by_order (x ∷ order) e = ground (arith, e, contains-without j x c.entries)

-- After `mark_loaded`, a lookup finds the marked key and every key that was loaded, less the key
-- that the call reported as evicted, and no other key.
pub is_loaded-mark_loaded :
    (c : NeuronCache) (j k : CacheKey)
    → (Neuron.is_loaded (Neuron.mark_loaded c k).0 j).1
      ≡ (key_beq j k || not (took (Neuron.mark_loaded c k).1 j) && contains j c.entries)
unfolding Neuron.mark_loaded Neuron.is_loaded
is_loaded-mark_loaded c j k = ground (
  arith,
  contains-add c j k,
  contains-add (Neuron.evict_lru c).0 j k,
  contains-evict_lru c j,
  (key_beq_iff j k).0,
)

-- After `evict_layer`, a lookup finds the loaded keys of the other layers, and no key of the layer.
is_loaded-evict_layer :
    (c : NeuronCache) (l : ℕ) (j : CacheKey)
    → (Neuron.is_loaded (Neuron.evict_layer c l) j).1
      ≡ (not (nat_beq j.layer l) && contains j c.entries)
unfolding Neuron.evict_layer Neuron.is_loaded
is_loaded-evict_layer c l j =
    ground (arith, contains-retain (λ (k : CacheKey). not (nat_beq k.layer l)) j c.entries)
