-- ===== src/Prelude/Text.antt =====
-- Text as its bytes, with the operations of the standard library that the program uses on names.
use Prim.Native.String.{String}
use Prim.Native.Char.{code}
use Prim.Native.Nat.{ℕ, suc, ◌+◌, ◌-◌, ◌*◌}
use mathlib.Core.Path.{◌≡◌, refl}
use mathlib.Core.Logic.{◌↔◌}
use mathlib.Core.Bool.{Bool, true, false, ◌&&◌}
use mathlib.Core.Option.{Option, none, some}
use mathlib.Core.List.{List, [], ◌∷◌}
use native.Mathlib.Omega.{arith}
use hypura.Prelude.Tests.{ltb, leb, ◌==◌ as nat_beq, if◌then◌else◌}
use hypura.Prelude.Keys.{Eq}

abbrev pub Text : Type 0
Text = List ℕ

-- The code points of a literal: its bytes, as all literals here are ASCII.
abbrev pub codes : String → Text
codes String.[] = []
codes (String.◌∷◌ c s) = code c ∷ codes s

unfoldable pub text_beq : Text → Text → Bool
text_beq [] [] = true
text_beq [] (b ∷ t) = false
text_beq (a ∷ s) [] = false
text_beq (a ∷ s) (b ∷ t) = nat_beq a b && text_beq s t

text_beq_sound : (s t : Text) → text_beq s t ≡ true → s ≡ t
unfolding text_beq
text_beq_sound [] [] h = refl
text_beq_sound [] (b ∷ t) h = cc
text_beq_sound (a ∷ s) [] h = cc
text_beq_sound (a ∷ s) (b ∷ t) h = ground (arith, text_beq_sound s t)

text_beq_refl : (s : Text) → text_beq s s ≡ true
unfolding text_beq
text_beq_refl [] = refl
text_beq_refl (a ∷ s) = ground (arith, text_beq_refl s)

pub text_beq_iff : (s t : Text) → (text_beq s t ≡ true) ↔ (s ≡ t)
text_beq_iff s t = (text_beq_sound s t, λ e. rw e (text_beq_refl t))

instance abbrev pub text_eq : Eq Text
text_eq = record { beq = text_beq; beq_iff = text_beq_iff }

-- `s.starts_with(pat)`
unfoldable pub starts_with : Text → Text → Bool
starts_with s [] = true
starts_with [] (p ∷ pat) = false
starts_with (a ∷ s) (p ∷ pat) = nat_beq a p && starts_with s pat

-- `s.find(pat)`
unfoldable pub find : Text → Text → Option ℕ
unfolding starts_with
find [] pat = if starts_with [] pat then some 0 else none
find (a ∷ s) pat =
    let later = find s pat in
    if starts_with (a ∷ s) pat then some 0 else elim later [ none ↦ none | some i ↦ some (suc i) ]

-- `s.contains(pat)`
unfoldable pub has : Text → Text → Bool
unfolding find
has s pat = elim (find s pat) [ none ↦ false | some i ↦ true ]

abbrev cons_head : ℕ → List Text → List Text
cons_head a [] = (a ∷ []) ∷ []
cons_head a (w ∷ ws) = (a ∷ w) ∷ ws

-- `s.split(c)`
unfoldable pub split : Text → ℕ → List Text
split [] c = [] ∷ []
split (a ∷ s) c = let later = split s c in if nat_beq a c then [] ∷ later else cons_head a later

-- `c.is_ascii_digit()`
abbrev pub is_digit : ℕ → Bool
is_digit c = leb 48 c && leb c 57

abbrev pub u32_mod : ℕ
u32_mod = 4294967296

-- The digits of a number below 2^32, after the ones already read; `none` is an error.
unfoldable pub parse_digits : ℕ → Text → Option ℕ
parse_digits acc [] = some acc
parse_digits acc (c ∷ s) =
    let later = parse_digits (acc * 10 + (c - 48)) s in
    if is_digit c && ltb (acc * 10 + (c - 48)) u32_mod then later else none

-- `s.parse::<u32>().ok()`: digits, after at most one plus sign.
unfoldable pub parse_u32 : Text → Option ℕ
unfolding parse_digits
parse_u32 [] = none
parse_u32 (c ∷ []) = parse_digits 0 (c ∷ [])
parse_u32 (c ∷ d ∷ s) = if nat_beq c 43 then parse_digits 0 (d ∷ s) else parse_digits 0 (c ∷ d ∷ s)
