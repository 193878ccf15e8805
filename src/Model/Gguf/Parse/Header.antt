-- ===== src/Model/Gguf/Parse/Header.antt =====
-- What the parser makes of a file's header, and of the layer number in a tensor's name.
use hypura.Prelude.{
  ℕ, zero, suc, refl, ap, sym, ◌∙◌, inl, inr, Bool, if◌then◌else◌, false, ◌≤◌, length, length-drop,
  drop, [], ◌+◌, ◌*◌, ◌<◌, ◌%◌, true, false, ◌||◌, some, List, ◌∷◌, ◌++◌, ltb, ◌≡◌, ◌≢◌, ◌⊎◌, arith,
  ◌==◌,
}
use hypura.Prelude.Text.{Text, codes, u32_mod, text_eq}
use hypura.Prelude.Decimal.{decimal, parse_u32-decimal, split-append, decimal-Avoids}
use hypura.Model.Gguf
use hypura.Model.Gguf.{GgufError, GgufFile, GgufValue, TensorInfo}
use hypura.Prelude.Dict.{Dict, insert}
use hypura.Model.Gguf.Reader.{
  Reader, Result, ok, err, Read, ◌>>=◌, read_le, read_u8, return, fail, read_string,
}
use hypura.Model.Gguf.Parse.{
  parse, gguf_magic, read_value, read_metadata, read_tensors, read_tensor, parse_body, align_32,
  stream_position, check_version, check_magic, parse_on, drop_reader,
}

-- The number in the first bytes, the lowest first; a byte that is missing counts as 0.
abbrev pub little_endian : ℕ → List ℕ → ℕ
little_endian zero bytes = 0
little_endian (suc n) [] = 0
little_endian (suc n) (b ∷ bytes) = b + 256 * little_endian n bytes

err_ne : {A : Type 0} {e : GgufError} {a : A} → err e ≢ ok a
err_ne h = cc

bind-ok :
    {A B : Type 0} (read : Read A) (next : A → Read B) (r r' : Reader) (b : B)
    → (read >>= next) r ≡ ok (b, r')
    → (a : A) × (q : Reader) × (read r ≡ ok (a, q)) × (next a q ≡ ok (b, r'))
bind-ok {A} {B} read next r r' b e = go (read r) refl
  where
    go :
        (x : Result (A × Reader))
        → read r ≡ x
        → (a : A) × (q : Reader) × (read r ≡ ok (a, q)) × (next a q ≡ ok (b, r'))
    go (err e') same = absurd (ground (arith, e, same))
    go (ok (a, q)) same = (a, q, same, ground (arith, e, same))

read_le-ok :
    (n : ℕ) (bs : List ℕ) (p : ℕ) (r' : Reader) (v : ℕ)
    → read_le n (record { bytes = bs; position = p }) ≡ ok (v, r')
    → (n ≤ length bs) × (v ≡ little_endian n bs) × (r'.bytes ≡ drop n bs)
unfolding read_le read_u8
read_le-ok zero bs p r' v e = (omega arith, ground (arith, e), ground (arith, e))
read_le-ok (suc n) [] p r' v e = absurd (ground (arith, e))
read_le-ok (suc n) (b ∷ bs) p r' v e =
    let (w, q, first, last) =
      bind-ok (read_le n) (λ w. return (b + 256 * w)) (record { bytes = bs; position = p + 1 }) r' v
        e in
    let (long, low, left) = read_le-ok n bs (p + 1) q w first in
    (omega (arith, long), ground (arith, last, low), ground (arith, last, left))

length-insert :
    (k : Text) (v : GgufValue) (m : Dict Text GgufValue) → length (insert k v m) ≤ length m + 1
length-insert k v [] = omega arith
length-insert k v ((j, w) ∷ m) = ground (arith, length-insert k v m)

read_metadata-ok :
    (fuel n : ℕ) (m m' : Dict Text GgufValue) (r r' : Reader)
    → read_metadata fuel n m r ≡ ok (m', r')
    → length m' ≤ length m + n
unfolding read_metadata
read_metadata-ok fuel zero m m' r r' e =
    let same : m ≡ m' = ground (arith, e) in rw (← same) (omega arith)
read_metadata-ok fuel (suc n) m m' r r' e =
    let (key, q, named, rest) =
      bind-ok read_string
        (λ key. read_value fuel >>= λ value. read_metadata fuel n (insert key value m)) r r' m' e in
    let (value, q', read, later) =
      bind-ok (read_value fuel) (λ value. read_metadata fuel n (insert key value m)) q r' m' rest in
    omega (
      arith,
      read_metadata-ok fuel n (insert key value m) m' q' r' later,
      length-insert key value m,
    )

read_tensors-ok :
    (n : ℕ) (ts : List TensorInfo) (r r' : Reader) → read_tensors n r ≡ ok (ts, r') → length ts ≡ n
unfolding read_tensors
read_tensors-ok zero ts r r' e = ground (arith, e)
read_tensors-ok (suc n) ts r r' e =
    let (t, q, one, rest) =
      bind-ok read_tensor (λ t. read_tensors n >>= λ ts. return (t ∷ ts)) r r' ts e in
    let (us, q', others, last) = bind-ok (read_tensors n) (λ ts. return (t ∷ ts)) q r' ts rest in
    ground (arith, last, read_tensors-ok n us q q' others)

-- What the first 24 bytes of a file say of the parser's result.
pub record Accepted (input : List ℕ) (f : GgufFile) : Type 0 where
  pub long : 24 ≤ length input
  pub magic : little_endian 4 input ≡ gguf_magic
  pub version : f.version ≡ little_endian 4 (drop 4 input)
  pub versions : (2 ≤ f.version) × (f.version ≤ 3)
  pub tensors : length f.tensors ≡ little_endian 8 (drop 8 input)
  pub metadata : length f.metadata ≤ little_endian 8 (drop 16 input)
  pub aligned : f.data_offset % 32 ≡ 0

drop_nil : (n : ℕ) → drop {A = ℕ} n [] ≡ []
drop_nil zero = refl
drop_nil (suc n) = refl

drop-drop : (m n : ℕ) (xs : List ℕ) → drop n (drop m xs) ≡ drop (m + n) xs
drop-drop zero n xs = ap (λ k. drop k xs) (omega arith)
drop-drop (suc m) n [] = drop_nil n ∙ sym (drop_nil (suc m + n))
drop-drop (suc m) n (x ∷ xs) = drop-drop m n xs ∙ sym (ap (λ k. drop k (x ∷ xs)) (suc_plus m n))
  where
    suc_plus : (a b : ℕ) → suc a + b ≡ suc (a + b)
    suc_plus a b = omega arith

-- The parser behind the version, step by step.
abbrev finish_file : ℕ → Dict Text GgufValue → List TensorInfo → ℕ → Read GgufFile
finish_file v m ts pos =
    return (record { version = v; metadata = m; tensors = ts; data_offset = align_32 pos })

abbrev behind_metadata : ℕ → ℕ → Dict Text GgufValue → Read GgufFile
behind_metadata v tensor_count m =
    read_tensors tensor_count >>= λ ts. stream_position >>= finish_file v m ts

abbrev behind_count : ℕ → ℕ → ℕ → Read GgufFile
behind_count fuel v tensor_count =
    read_le 8 >>= λ kv_count. read_metadata fuel kv_count [] >>= behind_metadata v tensor_count

align_32_lem : (n : ℕ) → align_32 n % 32 ≡ 0
align_32_lem n = omega arith

parse_body-ok :
    (fuel v : ℕ) (bs : List ℕ) (p : ℕ) (f : GgufFile) (r' : Reader)
    → parse_body fuel v (record { bytes = bs; position = p }) ≡ ok (f, r')
    → (16 ≤ length bs)
      × (f.version ≡ v)
      × (length f.tensors ≡ little_endian 8 bs)
      × (length f.metadata ≤ little_endian 8 (drop 8 bs))
      × (f.data_offset % 32 ≡ 0)
unfolding parse_body
parse_body-ok fuel v bs p f r' e =
    let r : Reader = record { bytes = bs; position = p } in
    let (tc, q1, one, e1) = bind-ok (read_le 8) (behind_count fuel v) r r' f e in
    let (kc, q2, two, e2) =
      bind-ok (read_le 8) (λ kc. read_metadata fuel kc [] >>= behind_metadata v tc) q1 r' f e1 in
    let (m, q3, three, e3) = bind-ok (read_metadata fuel kc []) (behind_metadata v tc) q2 r' f e2 in
    let (ts, q4, four, e4) =
      bind-ok (read_tensors tc) (λ ts. stream_position >>= finish_file v m ts) q3 r' f e3 in
    let same : f
        ≡ record { version = v; metadata = m; tensors = ts; data_offset = align_32 q4.position } =
      ground (arith, e4) in
    let (long1, low1, left1) = read_le-ok 8 bs p q1 tc one in
    let (long2, low2, left2) = read_le-ok 8 q1.bytes q1.position q2 kc two in
    let few = read_metadata-ok fuel kc [] m q2 q3 three in
    rw same (
      omega (arith, long1, long2, ap length left1, length-drop 8 bs),
      refl,
      read_tensors-ok tc ts q3 q4 four ∙ low1,
      omega (arith, few, low2, ap (little_endian 8) left1),
      align_32_lem q4.position,
    )

if-ok :
    {A : Type 0} (b : Bool) (x y : Read A) (r : Reader) (z : Result (A × Reader))
    → (if b then x else y) r ≡ z
    → ((b ≡ true) × (x r ≡ z)) ⊎ ((b ≡ false) × (y r ≡ z))
if-ok true x y r z e = inl (refl, e)
if-ok false x y r z e = inr (refl, e)

check_magic-ok :
    (fuel magic : ℕ) (r r' : Reader) (f : GgufFile)
    → check_magic fuel magic r ≡ ok (f, r')
    → (magic ≡ gguf_magic) × ((read_le 4 >>= check_version fuel) r ≡ ok (f, r'))
check_magic-ok fuel magic r r' f e =
    elim (if-ok (magic == gguf_magic) (read_le 4 >>= check_version fuel)
      (fail (GgufError.invalid_magic magic)) r (ok (f, r')) e) [
        | inl (good, rest) ↦ (ground (arith, good), rest)
        | inr (bad, failed) ↦ absurd (err_ne failed)
      ]

check_version-ok :
    (fuel v : ℕ) (r r' : Reader) (f : GgufFile)
    → check_version fuel v r ≡ ok (f, r')
    → (2 ≤ v) × (v ≤ 3) × (parse_body fuel v r ≡ ok (f, r'))
check_version-ok fuel v r r' f e =
    elim (if-ok (ltb v 2 || ltb 3 v) (fail (GgufError.unsupported_version v)) (parse_body fuel v) r
      (ok (f, r')) e) [
        | inl (bad, failed) ↦ absurd (err_ne failed)
        | inr (known, rest) ↦ (ground (arith, known), ground (arith, known), rest)
      ]

parse_on-ok :
    (input : List ℕ) (x : Result (GgufFile × Reader)) (f : GgufFile)
    → drop_reader x ≡ ok f
    → (r' : Reader) × (x ≡ ok (f, r'))
parse_on-ok input (err e') f e = absurd (ground (arith, e))
parse_on-ok input (ok (g, r)) f e = (r, ground (arith, e))

-- A file that the parser accepts has a header of at least 24 bytes: the magic number, a version from
-- 2 to 3, which is the result's, the number of the result's tensors, and a number of keys that the
-- result's metadata do not exceed. The result's data start at a multiple of 32.
pub parse-Accepted : (input : List ℕ) (f : GgufFile) → parse input ≡ ok f → Accepted input f
unfolding parse parse_on
parse-Accepted input f e =
    let fuel = suc (length input) in
    let start : Reader = record { bytes = input; position = 0 } in
    let (r', whole) = parse_on-ok input (parse_on fuel start) f e in
    let (magic, q1, one, e1) = bind-ok (read_le 4) (check_magic fuel) start r' f whole in
    let (long1, low1, left1) = read_le-ok 4 input 0 q1 magic one in
    let (good, e2) = check_magic-ok fuel magic q1 r' f e1 in
    let (v, q2, two, e3) = bind-ok (read_le 4) (check_version fuel) q1 r' f e2 in
    let (long2, low2, left2) = read_le-ok 4 q1.bytes q1.position q2 v two in
    let (least, most, e4) = check_version-ok fuel v q2 r' f e3 in
    let (long3, version, tensors, metadata, aligned) =
      parse_body-ok fuel v q2.bytes q2.position f r' e4 in
    let left : q2.bytes ≡ drop 8 input = left2 ∙ ap (drop 4) left1 ∙ drop-drop 4 4 input in
    let keys : drop 8 q2.bytes ≡ drop 16 input = ap (drop 8) left ∙ drop-drop 8 8 input in
    record {
      long = omega (arith, long3, ap length left, length-drop 8 input);
      magic = sym low1 ∙ good;
      version = version ∙ low2 ∙ ap (little_endian 4) left1;
      versions = (omega (arith, version, least), omega (arith, version, most));
      tensors = tensors ∙ ap (little_endian 8) left;
      metadata = omega (arith, metadata, ap (little_endian 8) keys);
      aligned = aligned;
    }

-- The layer of a tensor is the number behind `blk.` in its name, for every 32-bit number in decimal
-- and whatever stands behind the next dot.
pub parse_layer_index-decimal :
    (n : ℕ) (rest : Text)
    → n < u32_mod
    → Gguf.parse_layer_index (codes "blk." ++ (decimal n ++ (codes "." ++ rest))) ≡ some n
unfolding Gguf.parse_layer_index
parse_layer_index-decimal n rest h =
    rw (split-append (decimal n) rest b'.' (decimal-Avoids n b'.' (omega arith)))
      (parse_u32-decimal n h)
