-- ===== src/Model/Gguf/Parse/Fuel.antt =====
-- The fuel of the parser is enough: no read grows what is left to read, and a level of nesting
-- shortens it.
use hypura.Prelude.{
  ℕ, zero, suc, Bool, true, false, not, ◌||◌, List, [], ◌∷◌, if◌then◌else◌, ltb, length,
  length-drop, ◌≡◌, ◌≢◌, refl, inl, inr, Bool-cases, arith, ◌==◌,
}
use hypura.Prelude.Text.{Text, text_eq}
use hypura.Prelude.Dict.{Dict, insert}
use hypura.Model.Gguf.{GgufFile, GgufValue, Values, TensorInfo, GgufError}
use hypura.Model.Gguf.Reader.{
  Reader, Result, ok, err, Read, ◌>>=◌, return, fail, read_u8, read_le, read_exact, read_string,
  utf8_or_error, is_utf8_from,
}
use hypura.Model.Gguf.Parse
use hypura.Model.Gguf.Parse.{
  read_many, read_case, read_value_of_type, read_value, read_metadata, read_dimensions, read_tensor,
  read_tensors, parse_body, check_version, check_magic, parse_on, parse, read_array,
}
use hypura.Model.Gguf.Parse.Reads.{
  Good, Reads, Reads-bind, Reads-then, Reads-return, Reads-fail, Reads-u8, Reads-weaken, Reads-le,
  Reads-le_suc,
}

Reads-exact : (k n : ℕ) → Reads 0 n (read_exact k)
unfolding read_exact
Reads-exact k n r le = elim (Bool-cases (ltb (length r.bytes) k)) [
  | inl short ↦ rw short (λ e. cc)
  | inr enough ↦ rw enough (omega (arith, length-drop k r.bytes))
]

Reads-utf8 : (buf : List ℕ) (n : ℕ) → Reads 0 n (utf8_or_error buf)
Reads-utf8 buf n = elim (Bool-cases (is_utf8_from [] buf)) [
  | inl good ↦ rw good (Reads-return n buf)
  | inr bad ↦ rw bad (Reads-fail Text n GgufError.invalid_string (λ e. cc))
]

Reads-string : (n : ℕ) → Reads 0 n read_string
unfolding read_string
Reads-string n =
    Reads-then n (read_le 8) _ (Reads-le 8 n)
      (λ len. Reads-then n (read_exact len) _ (Reads-exact len n) (λ buf. Reads-utf8 buf n))

Reads-many : (read : Read GgufValue) (k n : ℕ) → Reads 0 n read → Reads 0 n (read_many read k)
unfolding read_many
Reads-many read zero n h = Reads-return n Values.nil
Reads-many read (suc k) n h = Reads-then n read _ h (λ v.
    Reads-then n (read_many read k) _ (Reads-many read k n h)
      (λ vs. Reads-return n (Values.cons v vs)))

-- An array of elements that are read well from fewer bytes.
Reads-array :
    (read : ℕ → Read GgufValue) (n : ℕ)
    → ((p t : ℕ) → n ≡ suc p → Reads 0 p (read t))
    → Reads 0 n (read_array read)
Reads-array read zero h =
    Reads-bind 1 0 0 0 (read_le 4) _ (omega arith) (Reads-le_suc 3 0)
      (λ t pos. absurd (omega arith))
Reads-array read (suc p) h =
    Reads-bind 1 0 0 (suc p) (read_le 4) _ (omega arith) (Reads-le_suc 3 (suc p))
      (λ t pos r le. rest t r (omega arith))
  where
    rest :
        (t : ℕ)
        → Reads 0 p
            (do count ← read_le 8; arr ← read_many (read t) count; return (GgufValue.array arr))
    rest t = Reads-then p (read_le 8) _ (Reads-le 8 p) (λ count.
        Reads-then p (read_many (read t) count) _ (Reads-many (read t) count p (h p t refl))
          (λ arr. Reads-return p (GgufValue.array arr)))

Reads-num : (make : ℕ → GgufValue) (k n : ℕ) → Reads 0 n (Parse.read_num make k)
Reads-num make k n = Reads-then n (read_le k) _ (Reads-le k n) (λ v. Reads-return n (make v))

Reads-if :
    {A : Type 0} (n : ℕ) (b : Bool) (x y : Read A)
    → Reads 0 n x
    → Reads 0 n y
    → Reads 0 n (if b then x else y)
Reads-if n true x y hx hy = hx
Reads-if n false x y hx hy = hy

Reads-case :
    (read : ℕ → Read GgufValue) (t n : ℕ)
    → ((p u : ℕ) → n ≡ suc p → Reads 0 p (read u))
    → Reads 0 n (read_case read t)
unfolding read_case
Reads-case read t n h = Reads-if n (t == 0) _ _ (Reads-num GgufValue.uint8 1 n) (
    Reads-if n (t == 1) _ _ (Reads-num GgufValue.int8 1 n) (
      Reads-if n (t == 2) _ _ (Reads-num GgufValue.uint16 2 n) (
        Reads-if n (t == 3) _ _ (Reads-num GgufValue.int16 2 n) (
          Reads-if n (t == 4) _ _ (Reads-num GgufValue.uint32 4 n) (
            Reads-if n (t == 5) _ _ (Reads-num GgufValue.int32 4 n)
              (Reads-if n (t == 6) _ _ (Reads-num GgufValue.float32 4 n) rest))))))
  where
    text : Reads 0 n (read_string >>= λ s. return (GgufValue.string s))
    text = Reads-then n read_string _ (Reads-string n) (λ s. Reads-return n (GgufValue.string s))

    flag : Reads 0 n Parse.read_bool
    flag =
        Reads-then n read_u8 _ (Reads-weaken 1 n read_u8 (Reads-u8 n))
          (λ v. Reads-return n (GgufValue.bool (not (v == 0))))

    rest : Reads 0 n (
        if t == 7
        then Parse.read_bool
        else if t == 8
        then (read_string >>= λ s. return (GgufValue.string s))
        else if t == 9
        then read_array read
        else if t == 10
        then Parse.read_num GgufValue.uint64 8
        else if t == 11
        then Parse.read_num GgufValue.int64 8
        else if t == 12
        then Parse.read_num GgufValue.float64 8
        else fail (GgufError.unknown_value_type t))
    rest = Reads-if n (t == 7) _ _ flag (
        Reads-if n (t == 8) _ _ text (
          Reads-if n (t == 9) _ _ (Reads-array read n h) (
            Reads-if n (t == 10) _ _ (Reads-num GgufValue.uint64 8 n) (
              Reads-if n (t == 11) _ _ (Reads-num GgufValue.int64 8 n) (
                Reads-if n (t == 12) _ _ (Reads-num GgufValue.float64 8 n)
                  (Reads-fail GgufValue n (GgufError.unknown_value_type t) (λ e. cc)))))))

-- Fuel above the number of bytes that are left is enough for a value.
Reads-value_of_type : (n t : ℕ) → Reads 0 n (read_value_of_type (suc n) t)
unfolding read_value_of_type
Reads-value_of_type zero t =
    Reads-case (λ u. read_value_of_type zero u) t zero (λ p u e. absurd (omega arith))
Reads-value_of_type (suc n) t =
    Reads-case (λ u. read_value_of_type (suc n) u) t (suc n)
      (λ p u e. let same : n ≡ p = omega arith in rw (← same) (Reads-value_of_type n u))

Reads-value : (n : ℕ) → Reads 0 n (read_value (suc n))
unfolding read_value
Reads-value n = Reads-then n (read_le 4) _ (Reads-le 4 n) (λ t. Reads-value_of_type n t)

Reads-metadata : (n k : ℕ) (m : Dict Text GgufValue) → Reads 0 n (read_metadata (suc n) k m)
unfolding read_metadata
Reads-metadata n zero m = Reads-return n m
Reads-metadata n (suc k) m = Reads-then n read_string _ (Reads-string n) (λ key.
    Reads-then n (read_value (suc n)) _ (Reads-value n)
      (λ value. Reads-metadata n k (insert key value m)))

Reads-dimensions : (n k : ℕ) → Reads 0 n (read_dimensions k)
unfolding read_dimensions
Reads-dimensions n zero = Reads-return {A = List ℕ} n []
Reads-dimensions n (suc k) =
    Reads-then n (read_le 8) _ (Reads-le 8 n) (λ d.
      Reads-then n (read_dimensions k) _ (Reads-dimensions n k) (λ ds. Reads-return n (d ∷ ds)))

Reads-tensor : (n : ℕ) → Reads 0 n read_tensor
unfolding read_tensor
Reads-tensor n = Reads-then n read_string _ (Reads-string n) (λ name.
    Reads-then n (read_le 4) _ (Reads-le 4 n) (λ dims.
      Reads-then n (read_dimensions dims) _ (Reads-dimensions n dims) (λ ds.
        Reads-then n (read_le 4) _ (Reads-le 4 n)
          (λ dtype. Reads-then n (read_le 8) _ (Reads-le 8 n) (λ offset r le. omega arith)))))

Reads-tensors : (n k : ℕ) → Reads 0 n (read_tensors k)
unfolding read_tensors
Reads-tensors n zero = Reads-return {A = List TensorInfo} n []
Reads-tensors n (suc k) =
    Reads-then n read_tensor _ (Reads-tensor n)
      (λ t. Reads-then n (read_tensors k) _ (Reads-tensors n k) (λ ts. Reads-return n (t ∷ ts)))

Reads-body : (n v : ℕ) → Reads 0 n (parse_body (suc n) v)
unfolding parse_body
Reads-body n v = Reads-then n (read_le 8) _ (Reads-le 8 n) (λ tc.
    Reads-then n (read_le 8) _ (Reads-le 8 n) (λ kc.
      Reads-then n (read_metadata (suc n) kc []) _ (Reads-metadata n kc [])
        (λ m. Reads-then n (read_tensors tc) _ (Reads-tensors n tc) (λ ts r le. omega arith))))

Reads-parse_on : (n : ℕ) → Reads 0 n (parse_on (suc n))
unfolding parse_on
Reads-parse_on n = Reads-then n (read_le 4) _ (Reads-le 4 n) (λ magic. by_magic magic)
  where
    by_version : (v : ℕ) → Reads 0 n (check_version (suc n) v)
    by_version v =
        Reads-if n (ltb v 2 || ltb 3 v) _ _
          (Reads-fail GgufFile n (GgufError.unsupported_version v) (λ e. cc)) (Reads-body n v)

    by_magic : (magic : ℕ) → Reads 0 n (check_magic (suc n) magic)
    by_magic magic =
        Reads-if n (magic == Parse.gguf_magic) _ _
          (Reads-then n (read_le 4) _ (Reads-le 4 n) by_version)
          (Reads-fail GgufFile n (GgufError.invalid_magic magic) (λ e. cc))

-- The parser never runs out of the fuel that it is given.
parse-ne-out_of_fuel : (input : List ℕ) → parse input ≢ err GgufError.out_of_fuel
unfolding parse
parse-ne-out_of_fuel input =
    by_result (parse_on (suc (length input)) start)
      (Reads-parse_on (length input) start (omega arith))
  where
    start : Reader
    start = record { bytes = input; position = 0 }

    by_result :
        (x : Result (GgufFile × Reader))
        → Good 0 (length input) x
        → Parse.drop_reader x ≢ err GgufError.out_of_fuel
    by_result (ok (g, r)) h e = cc
    by_result (err e') h e = h (ground (arith, e))
