-- ===== src/Cache/Neuron/Run.antt =====
-- Sequences of calls on the cache, and what each call can observe of the earlier ones.
use hypura.Prelude.{
  ℕ, suc, ◌<◌, true, false, some, List, [], ◌∷◌, leb, length, ◌≡◌, ◌≢◌, refl, sym, ap, ◌∙◌, inl,
  inr, Bool-cases, arith, if◌then◌else◌,
}
use hypura.Prelude.Keys.{contains, contains-without, beq_refl}
use hypura.Cache.Neuron
use hypura.Cache.Neuron.{NeuronCache, CacheKey, key_eq, key_beq, key_beq_iff}
use hypura.Cache.Neuron.Bounds.{
  IsValid, is_loaded-IsValid, mark_loaded-IsValid, evict_layer-IsValid,
}
use hypura.Cache.Neuron.Order.{
  Stamps, stamp, Tracks, Tracks-snoc, Tracks-retain, Tracks-later, Tracks-promote,
}

-- The calls that clients make.
pub data Call : Type 0 where
  is_loaded : CacheKey → Call
  mark_loaded : CacheKey → Call
  evict_layer : ℕ → Call

abbrev pub step : NeuronCache → Call → NeuronCache
step c (is_loaded k) = (Neuron.is_loaded c k).0
step c (mark_loaded k) = (Neuron.mark_loaded c k).0
step c (evict_layer l) = Neuron.evict_layer c l

abbrev pub run : NeuronCache → List Call → NeuronCache
run c [] = c
run c (x ∷ xs) = run (step c x) xs

-- A call is a use of its key: a lookup if the key is loaded, and every mark.
abbrev pub note : NeuronCache → Stamps → ℕ → Call → Stamps
note c t now (is_loaded k) = if contains k c.entries then stamp t k now else t
note c t now (mark_loaded k) = stamp t k now
note c t now (evict_layer l) = t

abbrev pub stamps_of : NeuronCache → Stamps → ℕ → List Call → Stamps
stamps_of c t now [] = t
stamps_of c t now (x ∷ xs) = stamps_of (step c x) (note c t now x) (suc now) xs

is_loaded-Tracks :
    (c : NeuronCache) (t : Stamps) (now : ℕ) (k : CacheKey)
    → Tracks t now c.lru_order
    → Tracks (note c t now (is_loaded k)) (suc now) (Neuron.is_loaded c k).0.lru_order
unfolding Neuron.is_loaded
is_loaded-Tracks c t now k h = elim (Bool-cases (contains k c.entries)) [
  | inl hit ↦ rw (hit, Neuron.is_loaded) (Tracks-promote t now k c.lru_order h)
  | inr miss ↦ rw (miss, Neuron.is_loaded) (Tracks-later t now c.lru_order h)
]

make_room-Tracks :
    (c : NeuronCache) (t : Stamps) (now : ℕ) (k : CacheKey)
    → contains k c.lru_order ≡ false
    → Tracks t now c.lru_order
    → Tracks (stamp t k now) (suc now) (Neuron.add (Neuron.evict_lru c).0 k).lru_order
unfolding Neuron.evict_lru
make_room-Tracks c t now k absent h = by_order c.lru_order refl
  where
    by_order :
        (order : List CacheKey)
        → c.lru_order ≡ order
        → Tracks (stamp t k now) (suc now) (Neuron.add (Neuron.evict_lru c).0 k).lru_order
    by_order [] e = rw (e, Neuron.evict_lru) (Tracks-snoc t now k c.lru_order h absent)
    by_order (v ∷ order) e =
        let g : Tracks t now (v ∷ order) = rw e at h in
        let other : contains k (v ∷ order) ≡ false = rw e at absent in
        rw (e, Neuron.evict_lru, ap Neuron.rest e)
          (Tracks-snoc t now k order
            (record { sorted = g.sorted.1; past = λ j m. g.past j (ground arith) }) (ground arith))

mark_loaded-Tracks :
    (c : NeuronCache) (t : Stamps) (now : ℕ) (k : CacheKey)
    → IsValid c
    → Tracks t now c.lru_order
    → Tracks (stamp t k now) (suc now) (Neuron.mark_loaded c k).0.lru_order
unfolding Neuron.mark_loaded
mark_loaded-Tracks c t now k i h = elim (Bool-cases (contains k c.entries)) [
  | inl there ↦ rw (there, Neuron.mark_loaded) (Tracks-promote t now k c.lru_order h)
  | inr absent ↦
      let out : contains k c.lru_order ≡ false = sym (i.same k) ∙ absent in
      elim (Bool-cases (leb c.capacity (length c.entries))) [
        | inl full ↦ rw (absent, full, Neuron.mark_loaded) (make_room-Tracks c t now k out h)
        | inr room ↦ rw (absent, room, Neuron.mark_loaded) (Tracks-snoc t now k c.lru_order h out)
      ]
]

step-IsValid : (c : NeuronCache) (x : Call) → IsValid c → IsValid (step c x)
step-IsValid c (is_loaded k) i = is_loaded-IsValid c k i
step-IsValid c (mark_loaded k) i = mark_loaded-IsValid c k i
step-IsValid c (evict_layer l) i = evict_layer-IsValid c l i

step-Tracks :
    (c : NeuronCache) (t : Stamps) (now : ℕ) (x : Call)
    → IsValid c
    → Tracks t now c.lru_order
    → Tracks (note c t now x) (suc now) (step c x).lru_order
unfolding Neuron.evict_layer
step-Tracks c t now (is_loaded k) i h = is_loaded-Tracks c t now k h
step-Tracks c t now (mark_loaded k) i h = mark_loaded-Tracks c t now k i h
step-Tracks c t now (evict_layer l) i h = Tracks-later t now _ (Tracks-retain t now _ c.lru_order h)

-- After any calls on a valid cache whose queue is in the order of the last uses, the cache is
-- valid again, its capacity bound included, and its queue is again in the order of the last uses.
pub run-IsValid-Tracks :
    (xs : List Call) (c : NeuronCache) (t : Stamps) (now : ℕ)
    → IsValid c
    → Tracks t now c.lru_order
    → IsValid (run c xs) × ((end : ℕ) × Tracks (stamps_of c t now xs) end (run c xs).lru_order)
run-IsValid-Tracks [] c t now i h = (i, (now, h))
run-IsValid-Tracks (x ∷ xs) c t now i h =
    run-IsValid-Tracks xs (step c x) (note c t now x) (suc now) (step-IsValid c x i)
      (step-Tracks c t now x i h)

-- The victim is a loaded key that is no longer loaded, and every other loaded key was used later.
abbrev pub IsOldest : Stamps → NeuronCache → NeuronCache → CacheKey → Type 0
IsOldest t c c' v =
    (contains v c.entries ≡ true)
    × (contains v c'.entries ≡ false)
    × ((j : CacheKey) → contains j c.entries ≡ true → j ≢ v → t v < t j)

evict_lru-IsOldest :
    (c : NeuronCache) (t : Stamps) (now : ℕ) (k v : CacheKey)
    → IsValid c
    → Tracks t now c.lru_order
    → contains k c.entries ≡ false
    → (Neuron.evict_lru c).1 ≡ some v
    → IsOldest t c (Neuron.add (Neuron.evict_lru c).0 k) v
unfolding Neuron.evict_lru
evict_lru-IsOldest c t now k v i h absent got = by_order c.lru_order refl
  where
    by_order :
        (order : List CacheKey)
        → c.lru_order ≡ order
        → IsOldest t c (Neuron.add (Neuron.evict_lru c).0 k) v
    by_order [] e = absurd (ground (arith, e))
    by_order (x ∷ order) e =
        let g : Tracks t now (x ∷ order) = rw e at h in
        let same : x ≡ v = ground (arith, e) in
        (
          ground (arith, i.same v, e, beq_refl v),
          ground (
            arith,
            e,
            same,
            i.same v,
            beq_refl v,
            (key_beq_iff v k).0,
            contains-without v v c.entries,
            contains-without k v c.entries,
          ),
          (λ j m ne. rw (← same) (g.sorted.0 j (ground (arith, i.same j, e, (key_beq_iff j x).0)))),
        )

-- On a valid cache whose queue is in the order of the last uses, the key that `mark_loaded` reports
-- as evicted was loaded, is no longer loaded, and was used before every other loaded key.
pub mark_loaded-evicts-IsOldest :
    (c : NeuronCache) (t : Stamps) (now : ℕ) (k v : CacheKey)
    → IsValid c
    → Tracks t now c.lru_order
    → (Neuron.mark_loaded c k).1 ≡ some v
    → IsOldest t c (Neuron.mark_loaded c k).0 v
unfolding Neuron.mark_loaded
mark_loaded-evicts-IsOldest c t now k v i h got = elim (Bool-cases (contains k c.entries)) [
  | inl there ↦ absurd (ground arith)
  | inr absent ↦ elim (Bool-cases (leb c.capacity (length c.entries))) [
    | inl full ↦
        rw (absent, full, Neuron.mark_loaded)
          (evict_lru-IsOldest c t now k v i h absent (ground (arith, absent, full)))
    | inr room ↦ absurd (ground arith)
  ]
]
