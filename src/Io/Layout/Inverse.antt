-- ===== src/Io/Layout/Inverse.antt =====
-- Inverting a permutation.
use hypura.Prelude.{
  ℕ, zero, suc, ◌+◌, ◌<◌, true, false, List, [], ◌∷◌, if◌then◌else◌, ltb, ◌==◌, length, get_or, set,
  replicate, length-replicate, length-set, get_or-set_self, get_or-set_ne, ◌≡◌, refl, ◌∙◌, inl, inr,
  arith, All, Bool-cases,
}
use hypura.Prelude.Keys.{nat_eq, contains, Distinct}
use hypura.Io.Layout.{invert_from, invert}

-- A list of the numbers below `n`, each once.
pub record IsOrder (n : ℕ) (order : List ℕ) : Type 0 where
  pub size : length order ≡ n
  pub below : All (λ e. e < n) order
  pub distinct : Distinct order
  pub complete : (e : ℕ) → e < n → contains e order ≡ true

length-invert_from :
    (fwd : List ℕ) (phys : ℕ) (inv : List ℕ) → length (invert_from fwd phys inv) ≡ length inv
unfolding invert_from
length-invert_from [] phys inv = refl
length-invert_from (l ∷ fwd) phys inv =
    length-invert_from fwd (suc phys) (if ltb l (length inv) then set inv l phys else inv)
    ∙ ground (arith, length-set inv l phys)

invert_from_absent :
    (fwd : List ℕ) (phys : ℕ) (inv : List ℕ) (e : ℕ)
    → contains e fwd ≡ false
    → get_or (invert_from fwd phys inv) e 0 ≡ get_or inv e 0
unfolding invert_from
invert_from_absent [] phys inv e h = refl
invert_from_absent (l ∷ fwd) phys inv e h =
    invert_from_absent fwd (suc phys) (if ltb l (length inv) then set inv l phys else inv) e
      (ground arith)
    ∙ ground (arith, get_or-set_ne inv l e phys 0)

-- At a number, the inverse has the place where the permutation has that number.
invert_from_at :
    (fwd : List ℕ) (phys : ℕ) (inv : List ℕ) (q : ℕ)
    → Distinct fwd
    → All (λ e. e < length inv) fwd
    → q < length fwd
    → get_or (invert_from fwd phys inv) (get_or fwd q 0) 0 ≡ phys + q
unfolding invert_from
invert_from_at [] phys inv q d h lt = elim lt [ ]
invert_from_at (l ∷ fwd) phys inv zero d h lt =
    invert_from_absent fwd (suc phys) (if ltb l (length inv) then set inv l phys else inv) l d.0
    ∙ ground (arith, h.0, get_or-set_self inv l phys 0)
invert_from_at (l ∷ fwd) phys inv (suc q) d h lt =
    let next = if ltb l (length inv) then set inv l phys else inv in
    let same : length next ≡ length inv = ground (arith, length-set inv l phys) in
    invert_from_at fwd (suc phys) next q d.1 (rw same h.1) (omega arith) ∙ omega arith

pub length-invert : (fwd : List ℕ) → length (invert fwd) ≡ length fwd
unfolding invert
length-invert fwd =
    length-invert_from fwd 0 (replicate (length fwd) 0) ∙ length-replicate {A = ℕ} (length fwd) 0

pub invert_at :
    (n : ℕ) (fwd : List ℕ) (q : ℕ)
    → IsOrder n fwd
    → q < n
    → get_or (invert fwd) (get_or fwd q 0) 0 ≡ q
unfolding invert
invert_at n fwd q h lt =
    let zeros : List ℕ = replicate (length fwd) 0 in
    let long : length zeros ≡ n = length-replicate {A = ℕ} (length fwd) 0 ∙ h.size in
    invert_from_at fwd 0 zeros q h.distinct (rw long h.below) (omega (arith, h.size)) ∙ omega arith

-- The place of a number in a list that contains it.
pub place :
    (fwd : List ℕ) (e : ℕ)
    → contains e fwd ≡ true
    → (q : ℕ) × ((q < length fwd) × (get_or fwd q 0 ≡ e))
place [] e h = absurd (ground arith)
place (l ∷ fwd) e h = elim (Bool-cases (e == l)) [
  | inl here ↦ (0, (omega arith, ground arith))
  | inr there ↦ let (q, (lt, at)) = place fwd e (ground arith) in (suc q, (omega arith, at))
]
