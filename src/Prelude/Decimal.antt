-- ===== src/Prelude/Decimal.antt =====
-- Numbers in decimal, and that the parser reads them back.
use Prim.Native.Nat.{ℕ, zero, suc, ◌+◌, ◌-◌, ◌*◌, ◌/◌, ◌%◌, ◌<◌}
use mathlib.Core.Path.{◌≡◌, refl, ap, ◌∙◌}
use mathlib.Core.Bool.{false}
use mathlib.Core.Logic.{◌≢◌, inl, inr}
use mathlib.Core.Option.{some}
use mathlib.Core.List.{[], ◌∷◌, ◌++◌}
use native.Mathlib.Omega.{arith}
use hypura.Prelude.Tests.{ltb, ◌==◌, if◌then◌else◌, Bool-cases}
use hypura.Prelude.Text.{Text, u32_mod, parse_digits, parse_u32, split}
use hypura.Prelude.Lists.{All}

-- `format!("{n}")`, on fuel; `suc n` is enough, since each round divides by ten.
unfoldable pub decimal_on : ℕ → ℕ → Text
decimal_on zero n = []
decimal_on (suc f) n =
    let higher = decimal_on f (n / 10) in
    if ltb n 10 then (48 + n) ∷ [] else higher ++ ((48 + n % 10) ∷ [])

unfoldable pub decimal : ℕ → Text
unfolding decimal_on
decimal n = decimal_on (suc n) n

parse_digits-snoc :
    (acc : ℕ) (s : Text) (m d : ℕ)
    → parse_digits acc s ≡ some m
    → d < 10
    → m * 10 + d < u32_mod
    → parse_digits acc (s ++ ((48 + d) ∷ [])) ≡ some (m * 10 + d)
unfolding parse_digits
parse_digits-snoc acc [] m d h small fits = ground arith
parse_digits-snoc acc (c ∷ s) m d h small fits =
    ground (arith, parse_digits-snoc (acc * 10 + (c - 48)) s m d)

parse_digits_one : (n : ℕ) → n < 10 → parse_digits 0 ((48 + n) ∷ []) ≡ some n
unfolding parse_digits
parse_digits_one n h = ground arith

parse_digits-decimal_on : (f n : ℕ) → n < f → n < u32_mod → parse_digits 0 (decimal_on f n) ≡ some n
unfolding decimal_on
parse_digits-decimal_on zero n h fits = absurd (omega arith)
parse_digits-decimal_on (suc f) n h fits = elim (Bool-cases (ltb n 10)) [
  | inl small ↦ rw small (parse_digits_one n (ground arith))
  | inr large ↦
      let e : n / 10 * 10 + n % 10 ≡ n = omega arith in
      rw large (
        parse_digits-snoc 0 (decimal_on f (n / 10)) (n / 10) (n % 10)
          (parse_digits-decimal_on f (n / 10) (ground arith) (omega arith)) (omega arith)
          (omega arith)
        ∙ ap some e)
]

parse_u32-digits : (s : Text) (m : ℕ) → s ≢ [] → parse_digits 0 s ≡ some m → parse_u32 s ≡ some m
unfolding parse_u32
parse_u32-digits [] m ne h = absurd (ne refl)
parse_u32-digits (c ∷ []) m ne h = h
parse_u32-digits (c ∷ d ∷ s) m ne h = ground arith

snoc_ne : (s : Text) (c : ℕ) → s ++ (c ∷ []) ≢ []
snoc_ne [] c q = cc
snoc_ne (a ∷ s) c q = cc

decimal_on_ne : (f n : ℕ) → n < f → decimal_on f n ≢ []
unfolding decimal_on
decimal_on_ne zero n h = absurd (omega arith)
decimal_on_ne (suc f) n h = elim (Bool-cases (ltb n 10)) [
  | inl small ↦ rw small (λ e. cc)
  | inr large ↦ rw large (snoc_ne (decimal_on f (n / 10)) (48 + n % 10))
]

-- The parser reads back every 32-bit number that is printed in decimal.
pub parse_u32-decimal : (n : ℕ) → n < u32_mod → parse_u32 (decimal n) ≡ some n
unfolding decimal
parse_u32-decimal n h =
    parse_u32-digits (decimal_on (suc n) n) n (decimal_on_ne (suc n) n (omega arith))
      (parse_digits-decimal_on (suc n) n (omega arith) h)

abbrev pub Avoids : ℕ → Text → Type 0
Avoids c s = All (λ a. (a == c) ≡ false) s

Avoids-snoc : (c a : ℕ) (s : Text) → Avoids c s → (a == c) ≡ false → Avoids c (s ++ (a ∷ []))
Avoids-snoc c a [] h e = (e, tt)
Avoids-snoc c a (b ∷ s) h e = (h.0, Avoids-snoc c a s h.1 e)

decimal_on-Avoids : (f n c : ℕ) → c < 48 → Avoids c (decimal_on f n)
unfolding decimal_on
decimal_on-Avoids zero n c h = tt
decimal_on-Avoids (suc f) n c h = elim (Bool-cases (ltb n 10)) [
  | inl small ↦ rw small (ground arith, tt)
  | inr large ↦ rw large (
      Avoids-snoc c (48 + n % 10) (decimal_on f (n / 10)) (decimal_on-Avoids f (n / 10) c h)
        (ground arith))
]

pub decimal-Avoids : (n c : ℕ) → c < 48 → Avoids c (decimal n)
unfolding decimal
decimal-Avoids n c h = decimal_on-Avoids (suc n) n c h

-- A split finds the part before a separator.
pub split-append : (s t : Text) (c : ℕ) → Avoids c s → split (s ++ (c ∷ t)) c ≡ s ∷ split t c
unfolding split
split-append [] t c h = ground arith
split-append (a ∷ s) t c h = rw (h.0, split-append s t c h.1)
