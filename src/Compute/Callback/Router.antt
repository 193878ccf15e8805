-- ===== src/Compute/Callback/Router.antt =====
-- src/compute/nvme_backend.rs, `intercept_router_output`: the experts that the router chose, read
-- from the sorted indices that ggml computed.
use package.hypura.Prelude.{
  ℕ, zero, suc, ◌+◌, ◌*◌, ◌<◌, min, max, ◌||◌, Option, none, some, List, [], ◌∷◌, ◌++◌,
  if◌then◌else◌, ltb, All, ◌≡◌, refl, ◌∙◌, ◌≢◌, arith, ltb→lt, ◌≤◌, inl, inr, Bool-cases,
}
use package.hypura.Prelude.Keys.{◌==◌, nat_eq, contains}
use package.hypura.Prelude.Dict.{lookup, insert, lookup-insert}
use package.hypura.Prelude.Sort.{sort, insert_sorted}
use package.hypura.Compute.Prefetch.State.{PrefetchState}

-- `at_place` (`data` in the program) is `none` for a null pointer; it gives the 32-bit number at a place, `none` below zero.
pub record RouterTensor : Type 0 where
  pub ne0 : ℕ
  pub ne1 : ℕ
  pub at_place : Option (ℕ → Option ℕ)

-- A number below zero, or beyond the experts of the model, is left out.
abbrev pub valid_id : ℕ → Option ℕ → List ℕ
valid_id num_experts_total none = []
valid_id num_experts_total (some id) = if ltb id num_experts_total then id ∷ [] else []

-- The loop over `k` entries of a row, from place `i`.
unfoldable pub row_ids : (ℕ → Option ℕ) → ℕ → ℕ → ℕ → List ℕ
row_ids at_place num_experts_total i zero = []
row_ids at_place num_experts_total i (suc k) =
    valid_id num_experts_total (at_place i) ++ row_ids at_place num_experts_total (i + 1) k

-- The loop over the tokens, from token `token`.
unfoldable pub token_ids : (ℕ → Option ℕ) → (total n_experts k token left : ℕ) → List ℕ
unfolding row_ids
token_ids at_place total n_experts k token zero = []
token_ids at_place total n_experts k token (suc left) =
    row_ids at_place total (token * n_experts) k
    ++ token_ids at_place total n_experts k (token + 1) left

-- `dedup`: of equal neighbours one stays.
unfoldable pub dedup : List ℕ → List ℕ
dedup [] = []
dedup (x ∷ []) = x ∷ []
dedup (x ∷ y ∷ ys) = let rest = dedup (y ∷ ys) in if x == y then rest else x ∷ rest

-- `sort_unstable` and `dedup`
unfoldable pub sorted_once : List ℕ → List ℕ
unfolding sort dedup
sorted_once ids = dedup (sort ltb ids)

unfoldable pub select : PrefetchState → ℕ → List ℕ → PrefetchState
unfolding sorted_once
select s layer_idx [] = s
select s layer_idx (id ∷ ids) = record s {
  selected_experts = insert layer_idx (sorted_once (id ∷ ids)) s.selected_experts;
}

-- How many entries of each row are read; 0 where nothing is.
unfoldable pub top_k : PrefetchState → RouterTensor → ℕ
top_k s t = if t.ne0 == 0 || ltb 64 t.ne0 then 0 else min s.num_experts_used t.ne0

unfoldable pub intercept_router_output : PrefetchState → RouterTensor → ℕ → PrefetchState
unfolding top_k token_ids select
intercept_router_output s t layer_idx = elim t.at_place [
  | none ↦ s
  | some at_place ↦
      if top_k s t == 0
      then s
      else select s layer_idx
          (token_ids at_place s.num_experts_total t.ne0 (top_k s t) 0 (max t.ne1 1))
]

abbrev pub Ascending : List ℕ → Type 0
Ascending [] = Unit
Ascending (x ∷ xs) = All (λ y. x < y) xs × Ascending xs

abbrev NotFalling : List ℕ → Type 0
NotFalling [] = Unit
NotFalling (x ∷ xs) = All (λ y. x ≤ y) xs × NotFalling xs

All-weaken : (P Q : ℕ → Type 0) → ((n : ℕ) → P n → Q n) → (xs : List ℕ) → All P xs → All Q xs
All-weaken P Q f [] h = tt
All-weaken P Q f (x ∷ xs) h = (f x h.0, All-weaken P Q f xs h.1)

insert_sorted-All :
    (P : ℕ → Type 0) (x : ℕ) (xs : List ℕ) → P x → All P xs → All P (insert_sorted ltb x xs)
unfolding insert_sorted
insert_sorted-All P x [] p h = (p, tt)
insert_sorted-All P x (y ∷ ys) p h = ground (arith, insert_sorted-All P x ys p h.1)

insert_sorted-NotFalling :
    (x : ℕ) (xs : List ℕ) → NotFalling xs → NotFalling (insert_sorted ltb x xs)
unfolding insert_sorted
insert_sorted-NotFalling x [] h = (tt, tt)
insert_sorted-NotFalling x (y ∷ ys) h = elim (Bool-cases (ltb y x)) [
  | inl less ↦ rw less (
    insert_sorted-All (λ z. y ≤ z) x ys (omega (arith, ltb→lt y x less)) h.0,
    insert_sorted-NotFalling x ys h.1,
  )
  | inr more ↦
      let le : x ≤ y = ground arith in
      rw more ((le, All-weaken (λ z. y ≤ z) (λ z. x ≤ z) (λ n q. omega arith) ys h.0), h)
]

sort-All : (P : ℕ → Type 0) (xs : List ℕ) → All P xs → All P (sort ltb xs)
unfolding sort
sort-All P [] h = tt
sort-All P (x ∷ xs) h = insert_sorted-All P x (sort ltb xs) h.0 (sort-All P xs h.1)

sort-NotFalling : (xs : List ℕ) → NotFalling (sort ltb xs)
unfolding sort
sort-NotFalling [] = tt
sort-NotFalling (x ∷ xs) = insert_sorted-NotFalling x (sort ltb xs) (sort-NotFalling xs)

dedup-All : (P : ℕ → Type 0) (xs : List ℕ) → All P xs → All P (dedup xs)
unfolding dedup
dedup-All P [] h = tt
dedup-All P (x ∷ []) h = h
dedup-All P (x ∷ y ∷ ys) h = ground (arith, dedup-All P (y ∷ ys) h.1)

dedup-Ascending : (xs : List ℕ) → NotFalling xs → Ascending (dedup xs)
unfolding dedup
dedup-Ascending [] h = tt
dedup-Ascending (x ∷ []) h = (tt, tt)
dedup-Ascending (x ∷ y ∷ ys) h = elim (Bool-cases (x == y)) [
  | inl same ↦ rw same (dedup-Ascending (y ∷ ys) h.1)
  | inr differ ↦
      let less : x < y = ground (arith, h.0.0) in
      rw differ (
        dedup-All (λ z. x < z) (y ∷ ys)
            (less, All-weaken (λ z. y ≤ z) (λ z. x < z) (λ n q. omega arith) ys h.1.0),
        dedup-Ascending (y ∷ ys) h.1,
      )
]

contains-insert_sorted :
    (a x : ℕ) (xs : List ℕ) → contains a (insert_sorted ltb x xs) ≡ (a == x || contains a xs)
unfolding insert_sorted
contains-insert_sorted a x [] = refl
contains-insert_sorted a x (y ∷ ys) = ground (arith, contains-insert_sorted a x ys)

contains-sort : (a : ℕ) (xs : List ℕ) → contains a (sort ltb xs) ≡ contains a xs
unfolding sort
contains-sort a [] = refl
contains-sort a (x ∷ xs) =
    ground (arith, contains-insert_sorted a x (sort ltb xs), contains-sort a xs)

contains-dedup : (a : ℕ) (xs : List ℕ) → contains a (dedup xs) ≡ contains a xs
unfolding dedup
contains-dedup a [] = refl
contains-dedup a (x ∷ []) = refl
contains-dedup a (x ∷ y ∷ ys) = ground (arith, contains-dedup a (y ∷ ys))

valid_id-All : (total : ℕ) (v : Option ℕ) → All (λ e. e < total) (valid_id total v)
valid_id-All total none = tt
valid_id-All total (some id) = ground arith

All-append : (P : ℕ → Type 0) (xs ys : List ℕ) → All P xs → All P ys → All P (xs ++ ys)
All-append P [] ys h g = g
All-append P (x ∷ xs) ys h g = (h.0, All-append P xs ys h.1 g)

row_ids-All : (f : ℕ → Option ℕ) (total i k : ℕ) → All (λ e. e < total) (row_ids f total i k)
unfolding row_ids
row_ids-All f total i zero = tt
row_ids-All f total i (suc k) =
    All-append _ (valid_id total (f i)) _ (valid_id-All total (f i)) (row_ids-All f total (i + 1) k)

token_ids-All :
    (f : ℕ → Option ℕ) (total n_experts k token left : ℕ)
    → All (λ e. e < total) (token_ids f total n_experts k token left)
unfolding token_ids
token_ids-All f total n_experts k token zero = tt
token_ids-All f total n_experts k token (suc left) =
    All-append _ (row_ids f total (token * n_experts) k) _
      (row_ids-All f total (token * n_experts) k)
      (token_ids-All f total n_experts k (token + 1) left)

-- What the interception reads from a tensor.
unfoldable pub read_ids : PrefetchState → RouterTensor → (ℕ → Option ℕ) → List ℕ
unfolding token_ids top_k
read_ids s t f = token_ids f s.num_experts_total t.ne0 (top_k s t) 0 (max t.ne1 1)

stored :
    (s : PrefetchState) (l : ℕ) (ids : List ℕ)
    → ids ≢ []
    → lookup l (select s l ids).selected_experts ≡ some (sorted_once ids)
unfolding select
stored s l [] h = absurd (h refl)
stored s l (id ∷ ids) h =
    ground (arith, lookup-insert l l (sorted_once (id ∷ ids)) s.selected_experts)

-- When the router's indices name an expert of the model, the selection that is stored for the layer
-- holds the experts that were read, in ascending order and each once, and all of them are experts of
-- the model.
pub intercept_router_output-Ascending :
    (s : PrefetchState) (t : RouterTensor) (l : ℕ) (f : ℕ → Option ℕ)
    → t.at_place ≡ some f
    → top_k s t ≢ 0
    → read_ids s t f ≢ []
    → (ids : List ℕ) × (lookup l (intercept_router_output s t l).selected_experts ≡ some ids)
      × Ascending ids
      × All (λ e. e < s.num_experts_total) ids
      × ((e : ℕ) → contains e ids ≡ contains e (read_ids s t f))
unfolding intercept_router_output sorted_once read_ids
intercept_router_output-Ascending s t l f there some_k some_ids = (
  sorted_once (read_ids s t f),
  ground (arith, there, some_k, stored s l (read_ids s t f) some_ids),
  dedup-Ascending (sort ltb (read_ids s t f)) (sort-NotFalling (read_ids s t f)),
  dedup-All _ (sort ltb (read_ids s t f)) (
      sort-All _ (read_ids s t f)
        (token_ids-All f s.num_experts_total t.ne0 (top_k s t) 0 (max t.ne1 1))),
  λ e. contains-dedup e (sort ltb (read_ids s t f)) ∙ contains-sort e (read_ids s t f),
)
