-- ===== src/Cache/Neuron.antt =====
-- src/cache/neuron_cache.rs: the LRU cache of loaded expert slices. `entries`, a map to the unit
-- type, is the list of its keys; the front of `lru_order` is the least recently used key.
pub mod Order
pub mod Bounds
pub mod Run
pub mod Reads
mod Tests
use package.hypura.Prelude.{
  ℕ, ◌+◌, Bool, true, false, not, ◌&&◌, Option, none, some, List, [], ◌∷◌, ◌++◌, if◌then◌else◌, leb,
  length, ◌≡◌, refl, ◌↔◌, arith,
}
use package.hypura.Prelude.Keys.{Eq, ◌==◌, nat_eq, contains, retain, without}
use package.hypura.Prelude.Float.{F64}
use package.hypura.Prelude.Machine.{u64}

-- `ExpertTensorType` of src/io/expert_layout.rs.
pub data ExpertTensorType : Type 0 where
  gate up down gate_up : ExpertTensorType

abbrev pub tensor_type_beq : ExpertTensorType → ExpertTensorType → Bool
tensor_type_beq gate gate = true
tensor_type_beq up up = true
tensor_type_beq down down = true
tensor_type_beq gate_up gate_up = true
tensor_type_beq _ _ = false

-- (layer_index, expert_id, tensor_type)
pub record CacheKey : Type 0 where
  pub layer : ℕ
  pub expert_id : ℕ
  pub tensor_type : ExpertTensorType

abbrev pub key_beq : CacheKey → CacheKey → Bool
key_beq a b =
    a.layer == b.layer && a.expert_id == b.expert_id && tensor_type_beq a.tensor_type b.tensor_type

tensor_type_beq_iff : (a b : ExpertTensorType) → (tensor_type_beq a b ≡ true) ↔ (a ≡ b)
tensor_type_beq_iff a b = ground arith

pub key_beq_iff : (a b : CacheKey) → (key_beq a b ≡ true) ↔ (a ≡ b)
key_beq_iff a b = ground (arith, tensor_type_beq_iff a.tensor_type b.tensor_type)

instance abbrev pub key_eq : Eq CacheKey
key_eq = record { beq = key_beq; beq_iff = key_beq_iff }

pub record NeuronCache : Type 0 where
  pub entries : List CacheKey
  pub lru_order : List CacheKey
  pub capacity : ℕ
  pub hits : ℕ
  pub misses : ℕ

unfoldable pub new : ℕ → NeuronCache
new capacity = record { entries = []; lru_order = []; capacity = capacity; hits = 0; misses = 0 }

-- Moves a key to the most recently used end.
abbrev pub promote : CacheKey → List CacheKey → List CacheKey
promote k order = without k order ++ (k ∷ [])

-- Returns whether the slice is loaded; a hit is promoted.
unfoldable pub is_loaded : NeuronCache → CacheKey → NeuronCache × Bool
is_loaded c k =
    if contains k c.entries
    then (record c { hits = c.hits + 1; lru_order = promote k c.lru_order }, true)
    else (record c { misses = c.misses + 1 }, false)

abbrev pub pop_front : List CacheKey → Option CacheKey
pop_front [] = none
pop_front (k ∷ order) = some k

abbrev pub rest : List CacheKey → List CacheKey
rest [] = []
rest (k ∷ order) = order

-- The front of the queue is popped; its entry is removed.
unfoldable pub evict_lru : NeuronCache → NeuronCache × Option CacheKey
evict_lru c = elim (pop_front c.lru_order) [
  | none ↦ (c, none)
  | some k ↦ (record c { entries = without k c.entries; lru_order = rest c.lru_order }, some k)
]

abbrev pub add : NeuronCache → CacheKey → NeuronCache
add c k = record c {
  entries = if contains k c.entries then c.entries else k ∷ c.entries;
  lru_order = c.lru_order ++ (k ∷ []);
}

-- Returns the evicted key, if one made room.
unfoldable pub mark_loaded : NeuronCache → CacheKey → NeuronCache × Option CacheKey
unfolding evict_lru
mark_loaded c k =
    if contains k c.entries
    then (record c { lru_order = promote k c.lru_order }, none)
    else let (c', evicted) = if leb c.capacity (length c.entries) then evict_lru c else (c, none) in
      (add c' k, evicted)

unfoldable pub evict_layer : NeuronCache → ℕ → NeuronCache
evict_layer c layer = record c {
  entries = retain (λ k. not (k.layer == layer)) c.entries;
  lru_order = retain (λ k. not (k.layer == layer)) c.lru_order;
}

unfoldable pub len : NeuronCache → ℕ
len c = length c.entries

-- The share of lookups that found their key.
module _ (F : F64) where
  unfoldable pub hit_rate : NeuronCache → F.Num
  hit_rate c =
      let lookups = u64 (c.hits + c.misses) in
      if lookups == 0 then F.of_u64 0 else F.div (F.of_u64 c.hits) (F.of_u64 lookups)
