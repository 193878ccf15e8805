-- ===== src/Model/Gguf/Reader.antt =====
-- src/model/gguf.rs: the reads from the file. A reader is the bytes that are left, and how many were
-- read. A read past the end is the I/O error of `read_exact`.
use package.hypura.Prelude.{
  ℕ, zero, suc, ◌+◌, ◌*◌, Bool, true, false, ◌&&◌, Option, none, some, List, [], ◌∷◌, if◌then◌else◌,
  ltb, leb, length, take, drop, ◌==◌,
}
use package.hypura.Prelude.Text.{Text}
use hypura.Model.Gguf.{GgufError, io, invalid_string}

pub record Reader : Type 0 where
  pub bytes : List ℕ
  pub position : ℕ

pub data Result {ℓ} (A : Type ℓ) : Type ℓ where
  ok : A → Result A
  err : GgufError → Result A

abbrev pub Read : Type 0 → Type 0
Read A = Reader → Result (A × Reader)

infixl 5 ◌>>=◌
abbrev pub ◌>>=◌ : {A B : Type 0} → Read A → (A → Read B) → Read B
◌>>=◌ m f r = elim (m r) [ err e ↦ err e | ok (a, r') ↦ f a r' ]

abbrev pub return : {A : Type 0} → A → Read A
return a r = ok (a, r)

abbrev pub fail : {A : Type 0} → GgufError → Read A
fail e r = err e

abbrev pub byte_of : List ℕ → ℕ → Result (ℕ × Reader)
byte_of [] n = err io
byte_of (b ∷ bs) n = ok (b, record { bytes = bs; position = n + 1 })

-- `read_u8`
unfoldable pub read_u8 : Read ℕ
read_u8 r = byte_of r.bytes r.position

-- `read_u16`, `read_u32` and `read_u64` of little-endian numbers, by their number of bytes.
unfoldable pub read_le : ℕ → Read ℕ
unfolding read_u8
read_le zero = return 0
read_le (suc n) = do b ← read_u8; v ← read_le n; return (b + 256 * v)

unfoldable pub read_exact : ℕ → Read (List ℕ)
read_exact n r =
    if ltb (length r.bytes) n
    then err io
    else ok (take n r.bytes, record { bytes = drop n r.bytes; position = r.position + n })

abbrev between : ℕ → ℕ → ℕ → Bool
between lo b hi = leb lo b && leb b hi

abbrev tail : ℕ × ℕ
tail = (128, 191)

-- The ranges of the bytes that have to follow a first byte of UTF-8: no overlong form, no surrogate,
-- nothing above U+10FFFF.
unfoldable pub lead : ℕ → Option (List (ℕ × ℕ))
lead b =
    if ltb b 128
    then some []
    else if between 194 b 223
    then some (tail ∷ [])
    else if b == 224
    then some ((160, 191) ∷ tail ∷ [])
    else if b == 237
    then some ((128, 159) ∷ tail ∷ [])
    else if between 225 b 239
    then some (tail ∷ tail ∷ [])
    else if b == 240
    then some ((144, 191) ∷ tail ∷ tail ∷ [])
    else if between 241 b 243
    then some (tail ∷ tail ∷ tail ∷ [])
    else if b == 244
    then some ((128, 143) ∷ tail ∷ tail ∷ [])
    else none

-- `String::from_utf8`: whether the bytes are well formed, with the ranges that are still expected.
unfoldable pub is_utf8_from : List (ℕ × ℕ) → List ℕ → Bool
unfolding lead
is_utf8_from [] [] = true
is_utf8_from (x ∷ pending) [] = false
is_utf8_from [] (b ∷ s) = elim (lead b) [ none ↦ false | some pending ↦ is_utf8_from pending s ]
is_utf8_from ((lo, hi) ∷ pending) (b ∷ s) =
    let later = is_utf8_from pending s in if between lo b hi then later else false

abbrev pub utf8_or_error : List ℕ → Read Text
utf8_or_error buf = if is_utf8_from [] buf then return buf else fail invalid_string

unfoldable pub read_string : Read Text
unfolding read_le read_exact is_utf8_from
read_string = do len ← read_le 8; buf ← read_exact len; utf8_or_error buf
