-- ===== src/Model/Metadata.antt =====
-- src/model/metadata.rs: what the rest of the program knows of a model, read from its file.
use package.hypura.Prelude.{
  ℕ, ◌+◌, ◌≤◌, max, Bool, false, Option, none, some, List, [], ◌∷◌, ◌++◌, map, if◌then◌else◌, ltb,
  leb, All, ◌≡◌, refl, arith, ◌≢◌, inl, inr, Option-cases,
}
use package.hypura.Prelude.Keys.{◌==◌, nat_eq}
use package.hypura.Prelude.Dict.{Dict}
use package.hypura.Prelude.Text.{Text, text_eq, codes}
use package.hypura.Model.Gguf.{
  GgufFile, TensorInfo, GgmlType, get_string, get_u32, get_u32_array, wrapping_sum,
  wrapping_product, or_else,
}

pub record ModelMetadata : Type 0 where
  pub architecture : Text
  pub parameter_count : ℕ
  pub context_length : ℕ
  pub embedding_dim : ℕ
  pub num_layers : ℕ
  pub num_heads : ℕ
  pub num_kv_heads : ℕ
  pub vocab_size : ℕ
  pub quantization : Option Text
  pub is_moe : Bool
  pub num_experts : Option ℕ
  pub num_experts_used : Option ℕ

abbrev pub unwrap_or {ℓ} : {A : Type ℓ} → A → Option A → A
unwrap_or d none = d
unwrap_or d (some a) = a

-- `iter().max()`
abbrev pub max_of : List ℕ → Option ℕ
max_of [] = none
max_of (n ∷ ns) = elim (max_of ns) [ none ↦ some n | some m ↦ some (max n m) ]

abbrev pub and_max : Option (List ℕ) → Option ℕ
and_max none = none
and_max (some ns) = max_of ns

-- A number under the name of the architecture, and else by itself.
unfoldable pub arch_u32 : GgufFile → Text → Text → Option ℕ
unfolding get_u32
arch_u32 gguf arch key = or_else (get_u32 gguf (arch ++ (codes "." ++ key))) (get_u32 gguf key)

unfoldable pub architecture_of : GgufFile → Text
unfolding get_string
architecture_of gguf = unwrap_or (codes "unknown") (get_string gguf (codes "general.architecture"))

-- The heads of keys and values: a number, the largest of a number for each layer, or the heads.
unfoldable pub kv_heads : GgufFile → Text → ℕ → ℕ
unfolding arch_u32 get_u32_array
kv_heads gguf arch num_heads = unwrap_or num_heads (
    or_else (arch_u32 gguf arch (codes "attention.head_count_kv"))
      (and_max (get_u32_array gguf (codes "attention.head_count_kv"))))

-- Counts of the types of the tensors above one MiB, by the names that `{:?}` prints.
abbrev pub count_name : Text → Dict Text ℕ → Dict Text ℕ
count_name name [] = (name, 1) ∷ []
count_name name ((k, n) ∷ m) = if k == name then (k, n + 1) ∷ m else (k, n) ∷ count_name name m

unfoldable pub type_counts : (GgmlType → Text) → List TensorInfo → Dict Text ℕ → Dict Text ℕ
type_counts debug [] m = m
type_counts debug (t ∷ ts) m =
    type_counts debug ts (if ltb 1048576 t.size_bytes then count_name (debug t.dtype) m else m)

-- `max_by_key`: the last of the largest, in the order of the map.
unfoldable pub most_common : Dict Text ℕ → Option (Text × ℕ)
most_common [] = none
most_common ((name, n) ∷ m) = elim (most_common m) [
  | none ↦ some (name, n)
  | some best ↦ if leb n best.1 then some best else some (name, n)
]

abbrev pub name_of : Option (Text × ℕ) → Option Text
name_of none = none
name_of (some (name, n)) = some name

unfoldable pub detect_quantization : (GgmlType → Text) → GgufFile → Option Text
unfolding type_counts most_common
detect_quantization debug gguf = name_of (most_common (type_counts debug gguf.tensors []))

unfoldable pub estimate_parameters : GgufFile → ℕ
estimate_parameters gguf =
    wrapping_sum (map (λ (t : TensorInfo). wrapping_product t.dimensions) gguf.tensors)

abbrev pub above_one : Option ℕ → Bool
above_one none = false
above_one (some n) = ltb 1 n

-- `debug` is what `{:?}` prints of a type.
unfoldable pub from_gguf : (GgmlType → Text) → GgufFile → ModelMetadata
unfolding architecture_of arch_u32 kv_heads detect_quantization estimate_parameters
from_gguf debug gguf =
    let arch = architecture_of gguf in
    let num_heads = unwrap_or 0 (arch_u32 gguf arch (codes "attention.head_count")) in
    let num_experts = arch_u32 gguf arch (codes "expert_count") in
    record {
      architecture = arch;
      parameter_count = estimate_parameters gguf;
      context_length = unwrap_or 0 (arch_u32 gguf arch (codes "context_length"));
      embedding_dim = unwrap_or 0 (arch_u32 gguf arch (codes "embedding_length"));
      num_layers = unwrap_or 0 (arch_u32 gguf arch (codes "block_count"));
      num_heads = num_heads;
      num_kv_heads = kv_heads gguf arch num_heads;
      vocab_size = unwrap_or 0 (arch_u32 gguf arch (codes "vocab_size"));
      quantization = detect_quantization debug gguf;
      is_moe = above_one num_experts;
      num_experts = num_experts;
      num_experts_used = arch_u32 gguf arch (codes "expert_used_count");
    }

cons_ne : {n : ℕ} {ns : List ℕ} → (n ∷ ns) ≢ []
cons_ne e = cc

max_of-none : (ns : List ℕ) → max_of ns ≡ none → ns ≡ []
max_of-none [] e = refl
max_of-none (n ∷ ns) e = absurd (ground arith)

All-le : (xs : List ℕ) (a b : ℕ) → a ≤ b → All (λ x. x ≤ a) xs → All (λ x. x ≤ b) xs
All-le [] a b h g = tt
All-le (x ∷ xs) a b h g = (omega (arith, g.0), All-le xs a b h g.1)

max_of-All : (ns : List ℕ) (m : ℕ) → max_of ns ≡ some m → All (λ k. k ≤ m) ns
max_of-All [] m e = cc
max_of-All (n ∷ ns) m e = elim (Option-cases (max_of ns)) [
  | inl h ↦ (ground (arith, h, e), rw (max_of-none ns h) tt)
  | inr (k, h) ↦ (ground (arith, h, e), All-le ns k m (ground (arith, h, e)) (max_of-All ns k h))
]

-- When the file gives a number of key and value heads for each layer, and none for the model, no
-- layer has more of them than the metadata says.
pub from_gguf-All :
    (debug : GgmlType → Text) (gguf : GgufFile) (n : ℕ) (ns : List ℕ)
    → arch_u32 gguf (architecture_of gguf) (codes "attention.head_count_kv") ≡ none
    → get_u32_array gguf (codes "attention.head_count_kv") ≡ some (n ∷ ns)
    → All (λ k. k ≤ (from_gguf debug gguf).num_kv_heads) (n ∷ ns)
unfolding from_gguf kv_heads
from_gguf-All debug gguf n ns no_number array = elim (Option-cases (max_of (n ∷ ns))) [
  | inl h ↦ absurd (cons_ne (max_of-none (n ∷ ns) h))
  | inr (m, h) ↦ All-le (n ∷ ns) m _ (ground (arith, no_number, array, h)) (max_of-All (n ∷ ns) m h)
]
