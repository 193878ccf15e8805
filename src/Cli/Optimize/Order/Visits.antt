-- ===== src/Cli/Optimize/Order/Visits.antt =====
-- The range of the experts, the maximum by a key, and who is not yet visited.
use hypura.Prelude.{
  ℕ, zero, suc, ◌+◌, ◌<◌, Bool, true, false, not, ◌&&◌, ◌||◌, Option, none, some, List, [], ◌∷◌,
  ltb, leb, ◌==◌, length, get_or, set, get_or-set_self, get_or-set_ne, ◌≡◌, refl, inl, inr, arith,
  Bool-cases,
}
use hypura.Prelude.Keys.{nat_eq, retain, contains, Distinct, without, contains-retain, beq_refl}
use hypura.Compute.Pool.{range_from}
use hypura.Cli.Optimize.Order.{max_by_key, unvisited}

pub contains-range_from : (n i e : ℕ) → contains e (range_from i n) ≡ (leb i e && ltb e (i + n))
contains-range_from zero i e = ground arith
contains-range_from (suc n) i e = ground (arith, contains-range_from n (i + 1) e)

pub Distinct-range_from : (n i : ℕ) → Distinct (range_from i n)
Distinct-range_from zero i = tt
Distinct-range_from (suc n) i =
    (ground (arith, contains-range_from n (i + 1) i), Distinct-range_from n (i + 1))

pub length-range_from : (n i : ℕ) → length (range_from i n) ≡ n
length-range_from zero i = refl
length-range_from (suc n) i = omega (arith, length-range_from n (i + 1))

-- A maximum is found, among the elements or what there was before.
pub max_by_key-some :
    (key : ℕ → Option ℕ) (es : List ℕ) (e k : ℕ)
    → ((x : ℕ) → contains x es ≡ true → (j : ℕ) × (key x ≡ some j))
    → (m : ℕ) × ((j : ℕ) × ((max_by_key key es (some (e, k)) ≡ some (some (m, j)))
          × ((m == e || contains m es) ≡ true)))
unfolding max_by_key
max_by_key-some key [] e k h = (e, (k, (refl, ground (arith, beq_refl e))))
max_by_key-some key (x ∷ es) e k h =
    let (j, found) = h x (ground (arith, beq_refl x)) in
    elim (Bool-cases (leb k j)) [
      | inl more ↦
          let (m, (i, (at, inside))) =
            max_by_key-some key es x j (λ y c. h y (ground (arith, c))) in
          (m, (i, (rw (found, more, max_by_key) at, ground arith)))
      | inr less ↦
          let (m, (i, (at, inside))) =
            max_by_key-some key es e k (λ y c. h y (ground (arith, c))) in
          (m, (i, (rw (found, less, max_by_key) at, ground arith)))
    ]

pub max_by_key_first :
    (key : ℕ → Option ℕ) (es : List ℕ)
    → 0 < length es
    → ((x : ℕ) → contains x es ≡ true → (j : ℕ) × (key x ≡ some j))
    → (m : ℕ) × ((j : ℕ) × ((max_by_key key es none ≡ some (some (m, j))) × (contains m es ≡ true)))
unfolding max_by_key
max_by_key_first key [] h keys = elim h [ ]
max_by_key_first key (x ∷ es) h keys =
    let (j, found) = keys x (ground (arith, beq_refl x)) in
    let (m, (i, (at, inside))) = max_by_key-some key es x j (λ y c. keys y (ground (arith, c))) in
    (m, (i, (rw (found, max_by_key) at, inside)))

pub retain_again :
    (p q : ℕ → Bool) (k : ℕ) (xs : List ℕ)
    → ((x : ℕ) → q x ≡ (p x && not (x == k)))
    → retain q xs ≡ without k (retain p xs)
retain_again p q k [] h = refl
retain_again p q k (x ∷ xs) h = ground (arith, h x, retain_again p q k xs h)

-- Marking an expert takes it out of those that are not visited.
pub unvisited-set :
    (visited : List Bool) (n k : ℕ)
    → k < length visited
    → unvisited (set visited k true) n ≡ without k (unvisited visited n)
unfolding unvisited
unvisited-set visited n k h =
    retain_again (λ e. not (get_or visited e false))
      (λ e. not (get_or (set visited k true) e false)) k (range_from 0 n)
      (λ x.
        ground
          (arith, get_or-set_self visited k true false h, get_or-set_ne visited k x true false))

pub contains-unvisited :
    (visited : List Bool) (n e : ℕ)
    → contains e (unvisited visited n) ≡ (not (get_or visited e false) && ltb e n)
unfolding unvisited
contains-unvisited visited n e = ground (
  arith,
  contains-retain (λ x. not (get_or visited x false)) e (range_from 0 n),
  contains-range_from n 0 e,
)
