-- ===== src/Compute/Controller/Patterns/Matching.antt =====
-- What the patterns of single tensors match, by the grammar of ECMAScript's regular expressions, in
-- which llama.cpp reads them: text is searched for a match, and `^` and `$` stand for its ends.
use package.hypura.Prelude.{
  ℕ, Bool, true, false, not, ◌&&◌, ◌||◌, Option, none, some, List, [], ◌∷◌, ◌++◌, if◌then◌else◌,
  ◌≡◌, refl, sym, ap, ◌∙◌, arith, Bool-cases, inl, inr,
}
use package.hypura.Prelude.Keys.{◌==◌, nat_eq, contains, beq_comm}
use package.hypura.Prelude.Text.{Text, text_eq, text_beq, codes}
use package.hypura.Compute.Callback.Names.{regex_escape, is_special}
use package.hypura.Compute.Controller.Patterns.{exact_pattern}

pub data Token : Type 0 where
  char : ℕ → Token
  any_char line_start line_end : Token

-- The characters that do not stand for themselves.
abbrev syntax_characters : Text
syntax_characters = codes "^$\\.*+?()[]{}|"

abbrev then_token : Token → Option (List Token) → Option (List Token)
then_token t none = none
then_token t (some ts) = some (t ∷ ts)

-- The tokens of a pattern, behind a backslash or not. `none` is a pattern with a quantifier, a group,
-- a class, an alternative or an escape of another kind, or one that ends in a backslash.
unfoldable tokens : (escaped : Bool) → Text → Option (List Token)
tokens true [] = none
tokens false [] = some []
tokens true (c ∷ s) =
    let rest = tokens false s in
    if contains c syntax_characters then then_token (char c) rest else none
tokens false (c ∷ s) =
    let rest = tokens false s in
    let quoted = tokens true s in
    if c == b'\\'
    then quoted
    else if c == b'^'
    then then_token line_start rest
    else if c == b'$'
    then then_token line_end rest
    else if c == b'.'
    then then_token any_char rest
    else if contains c syntax_characters
    then none
    else then_token (char c) rest

abbrev is_end : Text → Bool
is_end [] = true
is_end (c ∷ s) = false

-- Whether tokens match at the start of a text; `start` is whether that is the start of the whole.
unfoldable match_at : (start : Bool) → List Token → Text → Bool
match_at start [] s = true
match_at start (line_start ∷ ts) s = start && match_at start ts s
match_at start (line_end ∷ ts) s = is_end s && match_at start ts s
match_at start (char c ∷ ts) [] = false
match_at start (char c ∷ ts) (x ∷ s) = c == x && match_at false ts s
match_at start (any_char ∷ ts) [] = false
match_at start (any_char ∷ ts) (x ∷ s) = not (x == 10) && match_at false ts s

-- `regex_search`
unfoldable search : (start : Bool) → List Token → Text → Bool
unfolding match_at
search start ts [] = match_at start ts []
search start ts (x ∷ s) = match_at start ts (x ∷ s) || search false ts s

-- Whether a pattern matches a text.
unfoldable pub matches : Text → Text → Option Bool
unfolding tokens search
matches pattern text = elim (tokens false pattern) [
  | none ↦ none
  | some ts ↦ some (search true ts text)
]

abbrev name_tokens : Text → List Token
name_tokens [] = line_end ∷ []
name_tokens (c ∷ s) = char c ∷ name_tokens s

special_lem : (c : ℕ) → is_special c ≡ contains c syntax_characters
special_lem c = ground arith

tokens_escaped :
    (c : ℕ) (s : Text)
    → contains c syntax_characters ≡ true
    → tokens false (b'\\' ∷ c ∷ s) ≡ then_token (char c) (tokens false s)
unfolding tokens
tokens_escaped c s h = rw h refl

tokens_plain :
    (c : ℕ) (s : Text)
    → contains c syntax_characters ≡ false
    → tokens false (c ∷ s) ≡ then_token (char c) (tokens false s)
unfolding tokens
tokens_plain c s h = ground (arith, h)

escape_special :
    (c : ℕ) (s t : Text)
    → is_special c ≡ true
    → regex_escape (c ∷ s) ++ t ≡ b'\\' ∷ c ∷ (regex_escape s ++ t)
unfolding regex_escape
escape_special c s t h = ground (arith, h)

escape_plain :
    (c : ℕ) (s t : Text)
    → is_special c ≡ false
    → regex_escape (c ∷ s) ++ t ≡ c ∷ (regex_escape s ++ t)
unfolding regex_escape
escape_plain c s t h = ground (arith, h)

tokens-end : tokens false (b'$' ∷ []) ≡ some (line_end ∷ [])
unfolding tokens
tokens-end = refl

tokens-regex_escape :
    (name : Text) → tokens false (regex_escape name ++ (b'$' ∷ [])) ≡ some (name_tokens name)
unfolding regex_escape
tokens-regex_escape [] = tokens-end
tokens-regex_escape (c ∷ s) = elim (Bool-cases (is_special c)) [
  | inl h ↦
      ap (tokens false) (escape_special c s (b'$' ∷ []) h)
      ∙ tokens_escaped c (regex_escape s ++ (b'$' ∷ [])) (sym (special_lem c) ∙ h)
      ∙ ap (then_token (char c)) (tokens-regex_escape s)
  | inr h ↦
      ap (tokens false) (escape_plain c s (b'$' ∷ []) h)
      ∙ tokens_plain c (regex_escape s ++ (b'$' ∷ [])) (sym (special_lem c) ∙ h)
      ∙ ap (then_token (char c)) (tokens-regex_escape s)
]

match_at-name : (start : Bool) (name s : Text) → match_at start (name_tokens name) s ≡ (s == name)
unfolding match_at text_beq
match_at-name start [] [] = refl
match_at-name start [] (x ∷ s) = refl
match_at-name start (c ∷ name) [] = refl
match_at-name start (c ∷ name) (x ∷ s) = ground (arith, beq_comm c x, match_at-name false name s)

search_past_start : (ts : List Token) (s : Text) → search false (line_start ∷ ts) s ≡ false
unfolding search match_at
search_past_start ts [] = refl
search_past_start ts (x ∷ s) = search_past_start ts s

search_start : (ts : List Token) (s : Text) → search true (line_start ∷ ts) s ≡ match_at true ts s
unfolding search match_at
search_start ts [] = refl
search_start ts (x ∷ s) = ground (arith, search_past_start ts s)

tokens-start : (s : Text) → tokens false (b'^' ∷ s) ≡ then_token line_start (tokens false s)
unfolding tokens
tokens-start s = refl

tokens-exact_pattern :
    (name : Text) → tokens false (exact_pattern name) ≡ some (line_start ∷ name_tokens name)
unfolding exact_pattern
tokens-exact_pattern name =
    tokens-start (regex_escape name ++ (b'$' ∷ []))
    ∙ ap (then_token line_start) (tokens-regex_escape name)

-- The pattern that is built for the name of a tensor matches that name and no other text.
pub matches-exact_pattern :
    (name text : Text) → matches (exact_pattern name) text ≡ some (text == name)
unfolding matches text_beq
matches-exact_pattern name text =
    rw (matches, tokens-exact_pattern name)
      (ap some (search_start (name_tokens name) text ∙ match_at-name true name text))
