-- ===== src/Compute/Prefetch/Store.antt =====
-- The tasks that a counter waits for, and the store of the counters.
use package.hypura.Prelude.{
  ℕ, zero, suc, ◌+◌, ◌<◌, false, some, List, [], ◌∷◌, ◌++◌, map, if◌then◌else◌, length, get_elem?,
  set, All, ◌≡◌, refl, arith,
}
use package.hypura.Prelude.Keys.{◌==◌, nat_eq}
use package.hypura.Compute.Prefetch.{Region, IoPoolTask, drop_at}

abbrev pub waits_for : ℕ → IoPoolTask → ℕ
waits_for k t = if t.completion == k then 1 else 0

-- The tasks of a counter that no worker has finished.
abbrev pub pending : ℕ → List IoPoolTask → ℕ
pending k [] = 0
pending k (t ∷ ts) = waits_for k t + pending k ts

abbrev pub Known : ℕ → List IoPoolTask → Type 0
Known n ts = All (λ t. t.completion < n) ts

pub pending-append :
    (k : ℕ) (ts us : List IoPoolTask) → pending k (ts ++ us) ≡ pending k ts + pending k us
pending-append k [] us = omega arith
pending-append k (t ∷ ts) us = omega (arith, pending-append k ts us)

pub pending-drop_at :
    (k i : ℕ) (ts : List IoPoolTask) (t : IoPoolTask)
    → get_elem? ts i ≡ some t
    → pending k (drop_at i ts) + waits_for k t ≡ pending k ts
pending-drop_at k i [] t h = cc
pending-drop_at k zero (u ∷ ts) t h = ground arith
pending-drop_at k (suc i) (u ∷ ts) t h = omega (arith, pending-drop_at k i ts t h)

pub pending_unknown : (n : ℕ) (ts : List IoPoolTask) → Known n ts → pending n ts ≡ 0
pending_unknown n [] h = refl
pending_unknown n (t ∷ ts) h = ground (arith, pending_unknown n ts h.1)

pub Known-drop_at : (n i : ℕ) (ts : List IoPoolTask) → Known n ts → Known n (drop_at i ts)
Known-drop_at n i [] h = tt
Known-drop_at n zero (t ∷ ts) h = h.1
Known-drop_at n (suc i) (t ∷ ts) h = (h.0, Known-drop_at n i ts h.1)

pub Known-succ : (n : ℕ) (ts : List IoPoolTask) → Known n ts → Known (n + 1) ts
Known-succ n [] h = tt
Known-succ n (t ∷ ts) h = (omega (arith, h.0), Known-succ n ts h.1)

pub Known-append : (n : ℕ) (ts us : List IoPoolTask) → Known n ts → Known n us → Known n (ts ++ us)
Known-append n [] us h g = g
Known-append n (t ∷ ts) us h g = (h.0, Known-append n ts us h.1 g)

pub length-drop_at {ℓ} :
    {A : Type ℓ} (i : ℕ) (xs : List A) (x : A)
    → get_elem? xs i ≡ some x
    → length (drop_at i xs) + 1 ≡ length xs
length-drop_at i [] x h = cc
length-drop_at zero (y ∷ ys) x h = omega arith
length-drop_at (suc i) (y ∷ ys) x h = omega (arith, length-drop_at i ys x h)

-- The tasks of one load.
abbrev pub tasks_of : ℕ → ℕ → List (List Region) → List IoPoolTask
tasks_of base k rs = map (λ regions. record { regions = regions; base = base; completion = k }) rs

pub pending-tasks_of :
    (base k : ℕ) (rs : List (List Region)) → pending k (tasks_of base k rs) ≡ length rs
pending-tasks_of base k [] = refl
pending-tasks_of base k (r ∷ rs) = ground (arith, pending-tasks_of base k rs)

pub pending-tasks_of_ne :
    (base k j : ℕ) (rs : List (List Region)) → (k == j) ≡ false → pending j (tasks_of base k rs) ≡ 0
pending-tasks_of_ne base k j [] h = refl
pending-tasks_of_ne base k j (r ∷ rs) h = ground (arith, pending-tasks_of_ne base k j rs h)

pub Known-tasks_of : (base k : ℕ) (rs : List (List Region)) → Known (k + 1) (tasks_of base k rs)
Known-tasks_of base k [] = tt
Known-tasks_of base k (r ∷ rs) = (omega arith, Known-tasks_of base k rs)

module _ {ℓ} {A : Type ℓ} where
  pub get_elem?-set :
      (xs : List A) (i j : ℕ) (v x : A)
      → get_elem? xs i ≡ some x
      → get_elem? (set xs i v) j ≡ (if i == j then some v else get_elem? xs j)
  get_elem?-set [] i j v x h = cc
  get_elem?-set (y ∷ ys) zero zero v x h = refl
  get_elem?-set (y ∷ ys) zero (suc j) v x h = ground arith
  get_elem?-set (y ∷ ys) (suc i) zero v x h = ground arith
  get_elem?-set (y ∷ ys) (suc i) (suc j) v x h = ground (arith, get_elem?-set ys i j v x h)

  -- What stands in a list with one more element.
  pub get_elem?-append_one :
      (xs : List A) (v : A) (j : ℕ)
      → get_elem? (xs ++ (v ∷ [])) j ≡ (if length xs == j then some v else get_elem? xs j)
  get_elem?-append_one [] v zero = refl
  get_elem?-append_one [] v (suc j) = ground arith
  get_elem?-append_one (y ∷ ys) v zero = ground arith
  get_elem?-append_one (y ∷ ys) v (suc j) = ground (arith, get_elem?-append_one ys v j)

  pub get_elem?_below : (xs : List A) (i : ℕ) → i < length xs → (x : A) × (get_elem? xs i ≡ some x)
  get_elem?_below [] i h = absurd (omega arith)
  get_elem?_below (y ∷ ys) zero h = (y, refl)
  get_elem?_below (y ∷ ys) (suc i) h = get_elem?_below ys i (omega arith)

pub Known-get_elem? :
    (n i : ℕ) (ts : List IoPoolTask) (t : IoPoolTask)
    → Known n ts
    → get_elem? ts i ≡ some t
    → t.completion < n
Known-get_elem? n i [] t h e = cc
Known-get_elem? n zero (u ∷ ts) t h e = ground arith
Known-get_elem? n (suc i) (u ∷ ts) t h e = Known-get_elem? n i ts t h.1 e

pub has_task : (ts : List IoPoolTask) (k : ℕ) → 0 < pending k ts → 0 < length ts
has_task [] k h = h
has_task (t ∷ ts) k h = omega arith
