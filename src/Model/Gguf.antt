-- ===== src/Model/Gguf.antt =====
-- src/model/gguf.rs: the data of a GGUF header and how the rest of the program reads it. Signed
-- integers are held by their two's complement patterns and floats by their IEEE patterns, so that
-- a cast between integers of one width changes nothing.
pub mod Reader
pub mod Parse
mod Tests
use package.hypura.Prelude.{
  ℕ, zero, suc, ◌+◌, ◌*◌, ◌%◌, ◌^◌, Bool, Option, none, some, List, [], ◌∷◌, ◌++◌, if◌then◌else◌,
  map,
}
use package.hypura.Prelude.Keys.{nat_eq, ◌==◌}
use package.hypura.Prelude.Text.{Text, codes, text_eq, text_beq, split, parse_u32}
use package.hypura.Prelude.Dict.{Dict, lookup}

pub data GgufError : Type 0 where
  invalid_magic unsupported_version : ℕ → GgufError
  io invalid_string : GgufError
  unknown_value_type : ℕ → GgufError
  -- The model's own: the fuel for nested arrays ran out.
  out_of_fuel : GgufError

mutual
  pub data GgufValue : Type 0 where
    uint8 int8 uint16 int16 uint32 int32 float32 : ℕ → GgufValue
    bool : Bool → GgufValue
    string : Text → GgufValue
    uint64 int64 float64 : ℕ → GgufValue
    array : Values → GgufValue

  pub data Values : Type 0 where
    nil : Values
    cons : GgufValue → Values → Values

unfoldable pub as_str : GgufValue → Option Text
as_str (string s) = some s
as_str _ = none

unfoldable pub as_u32 : GgufValue → Option ℕ
as_u32 (uint32 v) = some v
as_u32 (int32 v) = some v
as_u32 (uint64 v) = some (v % 2 ^ 32)
as_u32 _ = none

unfoldable pub as_u64 : GgufValue → Option ℕ
as_u64 (uint64 v) = some v
as_u64 (uint32 v) = some v
as_u64 (int64 v) = some v
as_u64 _ = none

unfoldable pub collect_u32 : Values → Option (List ℕ)
unfolding as_u32
collect_u32 nil = some []
collect_u32 (cons v vs) =
    let later = collect_u32 vs in
    elim (as_u32 v) [ none ↦ none | some n ↦ elim later [ none ↦ none | some l ↦ some (n ∷ l) ] ]

unfoldable pub as_u32_array : GgufValue → Option (List ℕ)
unfolding collect_u32
as_u32_array (array elems) = collect_u32 elems
as_u32_array _ = none

pub data GgmlType : Type 0 where
  f32 f16 q4_0 q4_1 q5_0 q5_1 q8_0 q8_1 q2k q3k q4k q5k q6k q8k : GgmlType
  iq2xxs iq2xs iq3xxs iq1s iq4nl iq3s iq2s iq4xs i8 i16 i32 i64 f64 iq1m bf16 : GgmlType
  unknown : ℕ → GgmlType

abbrev ggml_types : Dict ℕ GgmlType
ggml_types =
    (0, f32)
    ∷ (1, f16)
    ∷ (2, q4_0)
    ∷ (3, q4_1)
    ∷ (6, q5_0)
    ∷ (7, q5_1)
    ∷ (8, q8_0)
    ∷ (9, q8_1)
    ∷ (10, q2k)
    ∷ (11, q3k)
    ∷ (12, q4k)
    ∷ (13, q5k)
    ∷ (14, q6k)
    ∷ (15, q8k)
    ∷ (16, iq2xxs)
    ∷ (17, iq2xs)
    ∷ (18, iq3xxs)
    ∷ (19, iq1s)
    ∷ (20, iq4nl)
    ∷ (21, iq3s)
    ∷ (22, iq2s)
    ∷ (23, iq4xs)
    ∷ (24, i8)
    ∷ (25, i16)
    ∷ (26, i32)
    ∷ (27, i64)
    ∷ (28, f64)
    ∷ (29, iq1m)
    ∷ (30, bf16)
    ∷ []

-- The match on the number: the table of its cases, and the rest.
unfoldable pub from_u32 : ℕ → GgmlType
from_u32 v = elim (lookup v ggml_types) [ none ↦ unknown v | some t ↦ t ]

-- Elements and bytes of a block.
unfoldable pub block_size : GgmlType → ℕ × ℕ
block_size f32 = (1, 4)
block_size f16 = (1, 2)
block_size bf16 = (1, 2)
block_size f64 = (1, 8)
block_size i8 = (1, 1)
block_size i16 = (1, 2)
block_size i32 = (1, 4)
block_size i64 = (1, 8)
block_size q4_0 = (32, 18)
block_size q4_1 = (32, 20)
block_size q5_0 = (32, 22)
block_size q5_1 = (32, 24)
block_size q8_0 = (32, 34)
block_size q8_1 = (32, 36)
block_size q2k = (256, 84)
block_size q3k = (256, 110)
block_size q4k = (256, 144)
block_size q5k = (256, 176)
block_size q6k = (256, 210)
block_size q8k = (256, 292)
block_size iq2xxs = (256, 66)
block_size iq2xs = (256, 74)
block_size iq3xxs = (256, 98)
block_size iq1s = (256, 50)
block_size iq4nl = (32, 18)
block_size iq3s = (256, 110)
block_size iq2s = (256, 82)
block_size iq4xs = (32, 18)
block_size iq1m = (256, 56)
block_size (unknown v) = (1, 1)

pub record TensorInfo : Type 0 where
  pub name : Text
  pub dimensions : List ℕ
  pub dtype : GgmlType
  pub offset : ℕ
  pub size_bytes : ℕ
  pub layer_index : Option ℕ

pub record GgufFile : Type 0 where
  pub version : ℕ
  pub metadata : Dict Text GgufValue
  pub tensors : List TensorInfo
  pub data_offset : ℕ

abbrev u64_mod : ℕ
u64_mod = 18446744073709551616

-- `iter().sum()` and `iter().product()` on u64, in a release build, wrap around.
abbrev pub wrapping_sum : List ℕ → ℕ
wrapping_sum [] = 0
wrapping_sum (x ∷ xs) = (x + wrapping_sum xs) % u64_mod

abbrev pub wrapping_product : List ℕ → ℕ
wrapping_product [] = 1
wrapping_product (x ∷ xs) = (x * wrapping_product xs) % u64_mod

unfoldable pub total_tensor_bytes : GgufFile → ℕ
total_tensor_bytes g = wrapping_sum (map (λ (t : TensorInfo). t.size_bytes) g.tensors)

-- `or_else` and `and_then` of options.
abbrev pub or_else {ℓ} : {A : Type ℓ} → Option A → Option A → Option A
or_else none b = b
or_else (some a) b = some a

infixl 5 ◌>>=◌
abbrev pub ◌>>=◌ {ℓ κ} : {A : Type ℓ} {B : Type κ} → Option A → (A → Option B) → Option B
none >>= f = none
some a >>= f = f a

unfoldable pub get_metadata : GgufFile → Text → Option GgufValue
get_metadata g key = lookup key g.metadata

unfoldable pub get_string : GgufFile → Text → Option Text
unfolding as_str
get_string g key =
    or_else (lookup key g.metadata >>= as_str)
      (lookup (codes "general." ++ key) g.metadata >>= as_str)

-- A key as it stands, and else behind the name of the architecture and a dot.
abbrev with_arch {ℓ} : {A : Type ℓ} → GgufFile → Text → (GgufValue → Option A) → Option A
unfolding get_string
with_arch g key read = or_else (lookup key g.metadata >>= read) (
    get_string g (codes "general.architecture") >>= λ arch.
    lookup (arch ++ (codes "." ++ key)) g.metadata >>= read)

unfoldable pub get_u32 : GgufFile → Text → Option ℕ
unfolding get_string as_u32
get_u32 g key = with_arch g key as_u32

unfoldable pub get_u32_array : GgufFile → Text → Option (List ℕ)
unfolding get_string as_u32_array
get_u32_array g key = with_arch g key as_u32_array

-- The layer number in `blk.5.xxx` or `layers.5.xxx`.
abbrev layer_of_parts : List Text → Option ℕ
layer_of_parts [] = none
layer_of_parts (a ∷ []) = none
layer_of_parts (a ∷ b ∷ parts) =
    if a == codes "blk" then parse_u32 b else if a == codes "layers" then parse_u32 b else none

unfoldable pub parse_layer_index : Text → Option ℕ
unfolding split text_beq parse_u32
parse_layer_index name = layer_of_parts (split name b'.')
