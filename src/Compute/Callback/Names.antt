-- ===== src/Compute/Callback/Names.antt =====
-- src/compute/nvme_backend.rs: the layer that the name of a tensor or of a graph node tells, and the
-- patterns that name the tensors of the custom buffer.
use package.hypura.Prelude.{
  ℕ, ◌<◌, Bool, ◌||◌, Option, none, some, [], ◌∷◌, ◌++◌, if◌then◌else◌, drop, ◌≡◌, refl, arith,
}
use package.hypura.Prelude.Keys.{◌==◌, nat_eq}
use package.hypura.Prelude.Text.{Text, codes, starts_with, parse_u32, u32_mod}
use package.hypura.Prelude.Decimal.{decimal, parse_u32-decimal, decimal-Avoids, Avoids}

-- What follows the last occurrence of a character.
unfoldable pub after_last : ℕ → Text → Option Text
after_last c [] = none
after_last c (x ∷ s) = elim (after_last c s) [
  | some t ↦ some t
  | none ↦ if x == c then some s else none
]

unfoldable pub parse_layer_from_graph_name : Text → Option ℕ
unfolding after_last parse_u32
parse_layer_from_graph_name name = elim (after_last b'-' name) [
  | none ↦ none
  | some suffix ↦ parse_u32 suffix
]

-- What stands before the first occurrence of a character.
unfoldable pub before_first : ℕ → Text → Option Text
before_first c [] = none
before_first c (x ∷ s) =
    let rest = before_first c s in
    if x == c then some [] else elim rest [ none ↦ none | some t ↦ some (x ∷ t) ]

unfoldable pub parse_layer_from_name : Text → Option ℕ
unfolding starts_with before_first parse_u32
parse_layer_from_name name =
    if starts_with name (codes "blk.")
    then elim (before_first b'.' (drop 4 name)) [ none ↦ none | some t ↦ parse_u32 t ]
    else none

-- . * + ? ( ) [ ] { } | ^ $ \
abbrev pub is_special : ℕ → Bool
is_special c =
    c == b'.'
    || c == b'*'
    || c == b'+'
    || c == b'?'
    || c == b'('
    || c == b')'
    || c == b'['
    || c == b']'
    || c == b'{'
    || c == b'}'
    || c == b'|'
    || c == b'^'
    || c == b'$'
    || c == b'\\'

unfoldable pub regex_escape : Text → Text
regex_escape [] = []
regex_escape (c ∷ s) =
    let rest = regex_escape s in if is_special c then b'\\' ∷ c ∷ rest else c ∷ rest

after_last-Avoids : (c : ℕ) (s : Text) → Avoids c s → after_last c s ≡ none
unfolding after_last
after_last-Avoids c [] h = refl
after_last-Avoids c (x ∷ s) h = ground (arith, after_last-Avoids c s)

after_last-append : (c : ℕ) (s t : Text) → Avoids c t → after_last c (s ++ (c ∷ t)) ≡ some t
unfolding after_last
after_last-append c [] t h = ground (arith, after_last-Avoids c t h)
after_last-append c (x ∷ s) t h = ground (arith, after_last-append c s t h)

-- The number after the last dash of a node's name is read back.
pub parse_layer_from_graph_name-decimal :
    (prefix : Text) (n : ℕ)
    → n < u32_mod
    → parse_layer_from_graph_name (prefix ++ (b'-' ∷ decimal n)) ≡ some n
unfolding parse_layer_from_graph_name
parse_layer_from_graph_name-decimal prefix n h =
    rw
      (
        parse_layer_from_graph_name,
        after_last-append b'-' prefix (decimal n) (decimal-Avoids n b'-' (omega arith)),
      )
      (parse_u32-decimal n h)

before_first-append : (c : ℕ) (s t : Text) → Avoids c s → before_first c (s ++ (c ∷ t)) ≡ some s
unfolding before_first
before_first-append c [] t h = ground arith
before_first-append c (x ∷ s) t h = ground (arith, before_first-append c s t)

-- The number of a layer in the name of one of its tensors is read back.
pub parse_layer_from_name-decimal :
    (rest : Text) (n : ℕ)
    → n < u32_mod
    → parse_layer_from_name (codes "blk." ++ (decimal n ++ (b'.' ∷ rest))) ≡ some n
unfolding parse_layer_from_name starts_with
parse_layer_from_name-decimal rest n h =
    rw (before_first-append b'.' (decimal n) rest (decimal-Avoids n b'.' (omega arith)))
      (parse_u32-decimal n h)
