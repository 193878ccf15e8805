-- ===== src/Cache/Neuron/Tests.antt =====
-- Runs of the cache: the program's own unit tests, and the theorems at concrete states.
use hypura.Prelude.{ℕ, not, ◌&&◌, ◌||◌, some, List, [], ◌∷◌, ◌≡◌, refl, arith}
use hypura.Prelude.Keys.{contains}
use hypura.Cache.Neuron
use hypura.Cache.Neuron.{NeuronCache, CacheKey, key_eq, key_beq, gate, up, down}
use hypura.Cache.Neuron.Bounds.{IsValid}
use hypura.Cache.Neuron.Order.{Stamps, Tracks}
use hypura.Cache.Neuron.Run.{
  Call, is_loaded, mark_loaded, run, stamps_of, IsOldest, run-IsValid-Tracks,
  mark_loaded-evicts-IsOldest,
}
use hypura.Cache.Neuron.Reads.{took, is_loaded-mark_loaded}

program : Unit {0}
unfolding Neuron.new Neuron.is_loaded Neuron.mark_loaded Neuron.evict_layer
program = tt

abbrev slice : ℕ → CacheKey
slice e = record { layer = 0; expert_id = e; tensor_type = gate }

abbrev three : List Call
three = mark_loaded (slice 0) ∷ mark_loaded (slice 1) ∷ mark_loaded (slice 2) ∷ []

-- `test_cache_lru_promotion`
promotion :
    (Neuron.mark_loaded (run (run (Neuron.new 3) three) (is_loaded (slice 0) ∷ [])) (slice 3)).1
    ≡ some (slice 1)
unfolding program
promotion = refl

-- `test_cache_eviction`
eviction : (Neuron.mark_loaded (run (Neuron.new 3) three) (slice 3)).1 ≡ some (slice 0)
unfolding program
eviction = refl

abbrev full : NeuronCache
full = record {
  entries = slice 1 ∷ slice 0 ∷ [];
  lru_order = slice 0 ∷ slice 1 ∷ [];
  capacity = 2;
  hits = 0;
  misses = 0;
}

full-IsValid : IsValid full
full-IsValid = record {
  distinct_entries = (refl, (refl, tt));
  distinct_order = (refl, (refl, tt));
  same = λ k. ground arith;
  bounded = omega arith;
}

abbrev times : Stamps
times k = k.expert_id

full-Tracks : Tracks times 2 full.lru_order
full-Tracks = record {
  sorted = ((λ j m. ground arith), ((λ j m. cc), tt));
  past = λ j m. ground arith;
}

run-IsValid-Tracks_example :
    IsValid (run full three)
    × ((end : ℕ) × Tracks (stamps_of full times 2 three) end (run full three).lru_order)
run-IsValid-Tracks_example = run-IsValid-Tracks three full times 2 full-IsValid full-Tracks

mark_loaded-evicts-IsOldest_example :
    IsOldest times full (Neuron.mark_loaded full (slice 7)).0 (slice 0)
unfolding program
mark_loaded-evicts-IsOldest_example =
    mark_loaded-evicts-IsOldest full times 2 (slice 7) (slice 0) full-IsValid full-Tracks refl

is_loaded-mark_loaded_example :
    (Neuron.is_loaded (Neuron.mark_loaded full (slice 7)).0 (slice 1)).1 ≡ (
      key_beq (slice 1) (slice 7)
      || not (took (Neuron.mark_loaded full (slice 7)).1 (slice 1))
        && contains (slice 1) full.entries)
is_loaded-mark_loaded_example = is_loaded-mark_loaded full (slice 1) (slice 7)

-- `test_cache_hit_rate`: three lookups of four are hits.
hits_counted :
    (run (Neuron.new 10) (
      mark_loaded (slice 0)
      ∷ is_loaded (slice 0)
      ∷ is_loaded (slice 0)
      ∷ is_loaded (slice 0)
      ∷ is_loaded (slice 1)
      ∷ [])).hits
    ≡ 3
unfolding program
hits_counted = refl
