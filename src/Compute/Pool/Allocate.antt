-- ===== src/Compute/Pool/Allocate.antt =====
-- `allocate_layer` and `release_layer` as clients see them: one call, any sequence of calls, and
-- the byte ranges that are handed out.
use hypura.Prelude.{
  ℕ, zero, suc, ◌+◌, ◌*◌, ◌/◌, ◌≤◌, ◌<◌, Option, none, some, List, [], ◌∷◌, ◌++◌, if◌then◌else◌,
  ltb, length, length-append, ◌≡◌, ◌≢◌, ◌↔◌, refl, ◌∙◌, ◌⊎◌, inl, inr, arith, Option-cases,
  Bool-cases, ◌==◌, All,
}
use hypura.Prelude.Keys.{nat_eq}
use hypura.Prelude.Dict.{Dict, lookup, insert, lookup-insert}
use hypura.Compute.Pool
use hypura.Compute.Pool.{ExpertPool, offsets, range_from}
use hypura.Compute.Pool.Slots.{
  count, count_layers, IsShared, release_layer-IsShared, take_slot-IsShared, take_slots-IsShared,
  count_layers-insert, held_slots-insert, AllOccupied-insert,
}
use hypura.Compute.Pool.Totality.{
  take_slots-some, take_slot-Keeps, take_slots-Keeps, length-take_slots, release_layer-Keeps,
}

count-range_from :
    (n i s : ℕ) → count s (range_from i n) ≡ (if ltb s i then 0 else if ltb s (i + n) then 1 else 0)
count-range_from zero i s = ground arith
count-range_from (suc n) i s = ground (arith, count-range_from n (i + 1) s)

length-range_from : (n i : ℕ) → length (range_from i n) ≡ n
length-range_from zero i = refl
length-range_from (suc n) i = omega (arith, length-range_from n (i + 1))

-- A new pool has all its slots free, each once; they fit into the buffer.
pub new-IsShared :
    (base size slot : ℕ) {p : ExpertPool}
    → Pool.new base size slot ≡ some p
    → IsShared p [] × (p.num_slots * p.slot_size ≤ p.pool_size)
unfolding Pool.new
new-IsShared base size slot {p} e = elim (Bool-cases (slot == 0)) [
  | inl z ↦ absurd (ground arith)
  | inr pos ↦
      let q : ExpertPool = record {
        pool_base = base;
        pool_size = size;
        slot_size = slot;
        num_slots = size / slot;
        layer_slots = [];
        free_slots = range_from 0 (size / slot);
        advised = [];
      } in
      let same : q ≡ p = ground arith in
      rw (← same) (
        record {
          once = λ s. ground (arith, count-range_from (size / slot) 0 s);
          size = omega (arith, length-range_from (size / slot) 0);
          occupied = tt;
        },
        grind arith,
      )
]

insert-IsShared :
    (p : ExpertPool) (l : ℕ) (slots : List ℕ)
    → IsShared p slots
    → lookup l p.layer_slots ≡ none
    → 0 < length slots
    → IsShared (record p { layer_slots = insert l slots p.layer_slots }) []
insert-IsShared p l slots h absent n = record {
  once = λ s. omega (arith, h.once s, count_layers-insert s l p.layer_slots slots absent);
  size = omega (arith, h.size, held_slots-insert l p.layer_slots slots absent);
  occupied = AllOccupied-insert l p.layer_slots slots n h.occupied;
}

-- The pool after a request was met: the slots are shared out, the layer has slots, as many as asked
-- for if it had none before, and the offsets are those of its slots.
pub record Serves (p : ExpertPool) (l n : ℕ) (r : Option (ExpertPool × List ℕ)) : Type 0 where
  pub out : ExpertPool
  pub slots : List ℕ
  pub returns : r ≡ some (out, offsets out slots)
  pub owned : lookup l out.layer_slots ≡ some slots
  pub asked : lookup l p.layer_slots ≡ none → length slots ≡ n
  pub kept : (s : List ℕ) → lookup l p.layer_slots ≡ some s → out ≡ p
  pub shared : IsShared out []
  pub frame : (out.slot_size ≡ p.slot_size) × (out.num_slots ≡ p.num_slots)

-- In a pool whose slots are shared out, a request for at least one slot and for no more than the
-- pool has is met, by eviction if need be; the result is shared out again.
pub allocate_layer-Serves :
    (p : ExpertPool) (l n : ℕ)
    → IsShared p []
    → 0 < n
    → n ≤ p.num_slots
    → Serves p l n (Pool.allocate_layer p l n)
unfolding Pool.allocate_layer
allocate_layer-Serves p l n h pos room = elim (Option-cases (lookup l p.layer_slots)) [
  | inr (slots, there) ↦ record {
    out = p;
    slots = slots;
    returns = rw (there, Pool.allocate_layer);
    owned = there;
    asked = λ absent. cc;
    kept = λ s e. refl;
    shared = h;
    frame = (refl, refl);
  }
  | inl absent ↦
      let (q, (slots, got)) = take_slots-some n p l [] h absent (omega arith) in
      let k = take_slots-Keeps n p l [] got in
      let many = length-take_slots n p l [] got in
      record {
        out = record q { layer_slots = insert l slots q.layer_slots };
        slots = slots;
        returns = rw (absent, got, Pool.allocate_layer);
        owned = lookup-insert l l slots q.layer_slots ∙ ground arith;
        asked = λ e. omega arith;
        kept = λ s e. cc;
        shared =
            insert-IsShared q l slots (take_slots-IsShared n p l [] h got) (k.absent l absent)
              (omega arith);
        frame = (k.slot, k.slots);
      }
]

take_slots-none :
    (n : ℕ) (p : ExpertPool) (l : ℕ) (held : List ℕ)
    → IsShared p held
    → p.num_slots < length held + n
    → Pool.take_slots n p l held ≡ none
unfolding Pool.take_slots
take_slots-none zero p l held h over = absurd (omega (arith, h.size))
take_slots-none (suc n) p l held h over = elim (Option-cases (Pool.take_slot p l)) [
  | inl e ↦ rw (e, Pool.take_slots)
  | inr ((s, q), e) ↦
      let r = take_slot-IsShared p l held h e in
      let same = (take_slot-Keeps p l e).slots in
      rw (e, Pool.take_slots)
        (take_slots-none n q l (held ++ (s ∷ [])) r
          (omega (arith, same, length-append held (s ∷ []))))
]

-- In a pool whose slots are shared out, a request of a new layer for at least one slot panics exactly
-- when it asks for more slots than the pool has, whatever the other layers hold.
pub allocate_layer_exhausted :
    (p : ExpertPool) (l n : ℕ)
    → IsShared p []
    → lookup l p.layer_slots ≡ none
    → 0 < n
    → (Pool.allocate_layer p l n ≡ none) ↔ (p.num_slots < n)
unfolding Pool.allocate_layer
allocate_layer_exhausted p l n h absent pos = (
  λ e. elim (Bool-cases (ltb p.num_slots n)) [
    | inl over ↦ ground (arith, over)
    | inr room ↦
        let served = allocate_layer-Serves p l n h pos (ground (arith, room)) in
        absurd (ground (arith, e, served.returns))
  ],
  λ over. rw (absent, take_slots-none n p l [] h (omega arith), Pool.allocate_layer),
)

count_layers-lookup :
    (s l : ℕ) (m : Dict ℕ (List ℕ)) (slots : List ℕ)
    → lookup l m ≡ some slots
    → count s slots ≤ count_layers s m
count_layers-lookup s l [] slots h = cc
count_layers-lookup s l ((j, w) ∷ m) slots h = ground (arith, count_layers-lookup s l m slots)

count_layers-lookup_two :
    (s a b : ℕ) (m : Dict ℕ (List ℕ)) (xs ys : List ℕ)
    → a ≢ b
    → lookup a m ≡ some xs
    → lookup b m ≡ some ys
    → count s xs + count s ys ≤ count_layers s m
count_layers-lookup_two s a b [] xs ys ne ha hb = cc
count_layers-lookup_two s a b ((j, w) ∷ m) xs ys ne ha hb = ground (
  arith,
  count_layers-lookup_two s a b m xs ys ne,
  count_layers-lookup s a m xs,
  count_layers-lookup s b m ys,
)

slots_apart : (s u size : ℕ) → s ≢ u → (s * size + size ≤ u * size) ⊎ (u * size + size ≤ s * size)
slots_apart s u size ne = elim (Bool-cases (ltb s u)) [
  | inl lt ↦ inl (let h : s + 1 ≤ u = ground arith in grind arith)
  | inr ge ↦ inr (let h : u + 1 ≤ s = ground arith in grind arith)
]

-- Slots of two layers of a pool whose slots are shared out cover byte ranges that do not overlap,
-- and that lie within the first `num_slots * slot_size` bytes.
pub slot_offset_disjoint :
    (p : ExpertPool) (a b s u : ℕ) (xs ys : List ℕ)
    → IsShared p []
    → a ≢ b
    → lookup a p.layer_slots ≡ some xs
    → lookup b p.layer_slots ≡ some ys
    → 0 < count s xs
    → 0 < count u ys
    → ((Pool.slot_offset p s + p.slot_size ≤ Pool.slot_offset p u)
        ⊎ (Pool.slot_offset p u + p.slot_size ≤ Pool.slot_offset p s))
      × (Pool.slot_offset p s + p.slot_size ≤ p.num_slots * p.slot_size)
unfolding Pool.slot_offset
slot_offset_disjoint p a b s u xs ys h ne ha hb hs hu =
    let other : s ≢ u = λ e.
      absurd
        (ground (arith, h.once s, count_layers-lookup_two s a b p.layer_slots xs ys ne ha hb)) in
    let inside : s + 1 ≤ p.num_slots =
      ground (arith, h.once s, count_layers-lookup s a p.layer_slots xs ha) in
    (slots_apart s u p.slot_size other, grind arith)

pub data Request : Type 0 where
  allocate : ℕ → ℕ → Request
  release : ℕ → Request

-- Fits into a pool of the given number of slots.
abbrev pub Fits : ℕ → Request → Type 0
Fits slots (allocate l n) = (0 < n) × (n ≤ slots)
Fits slots (release l) = Unit

abbrev pub serve : ExpertPool → Request → Option ExpertPool
serve p (allocate l n) = elim (Pool.allocate_layer p l n) [ none ↦ none | some (q, o) ↦ some q ]
serve p (release l) = some (Pool.release_layer p l)

abbrev pub serve_all : ExpertPool → List Request → Option ExpertPool
serve_all p [] = some p
serve_all p (x ∷ xs) = elim (serve p x) [ none ↦ none | some q ↦ serve_all q xs ]

serve_all-allocate :
    (p q : ExpertPool) (l n : ℕ) (o : List ℕ) (xs : List Request)
    → Pool.allocate_layer p l n ≡ some (q, o)
    → serve_all p (allocate l n ∷ xs) ≡ serve_all q xs
serve_all-allocate p q l n o xs e = ground (arith, e)

-- A sequence of requests, each for at least one slot and for no more than the pool has, never makes
-- a pool panic whose slots are shared out, and leaves them shared out.
pub serve_all-IsShared :
    (xs : List Request) (p : ExpertPool)
    → IsShared p []
    → All (Fits p.num_slots) xs
    → (q : ExpertPool) × (serve_all p xs ≡ some q) × IsShared q []
serve_all-IsShared [] p h fit = (p, refl, h)
serve_all-IsShared (release l ∷ xs) p h fit =
    serve_all-IsShared xs (Pool.release_layer p l) (release_layer-IsShared p l [] h)
      (rw ((release_layer-Keeps p l).slots) fit.1)
serve_all-IsShared (allocate l n ∷ xs) p h fit =
    let s = allocate_layer-Serves p l n h fit.0.0 fit.0.1 in
    let (q, got, shared) = serve_all-IsShared xs s.out s.shared (rw (s.frame.1) fit.1) in
    (q, serve_all-allocate p s.out l n (offsets s.out s.slots) xs s.returns ∙ got, shared)
