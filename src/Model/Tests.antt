-- ===== src/Model/Tests.antt =====
-- The metadata of a file whose layers differ in their heads.
use package.hypura.Prelude.{◌≤◌, [], ◌∷◌, All, refl}
use package.hypura.Prelude.Text.{Text, codes, text_beq}
use package.hypura.Model.Gguf.{
  GgufFile, GgmlType, array, uint32, string, nil, cons, get_u32, get_u32_array, get_string, as_u32,
  as_str, as_u32_array, collect_u32,
}
use package.hypura.Model.Metadata.{from_gguf, from_gguf-All, architecture_of, arch_u32}

abbrev mixed : GgufFile
mixed = record {
  version = 3;
  metadata =
      (codes "general.architecture", string (codes "gemma4"))
      ∷ (
        codes "gemma4.attention.head_count_kv",
        array (cons (uint32 8) (cons (uint32 2) (cons (uint32 4) nil))),
      )
      ∷ [];
  tensors = [];
  data_offset = 0;
}

abbrev no_name : GgmlType → Text
no_name t = []

from_gguf-All_example : All (λ k. k ≤ (from_gguf no_name mixed).num_kv_heads) (8 ∷ 2 ∷ 4 ∷ [])
unfolding architecture_of get_u32 get_u32_array get_string as_u32 as_str as_u32_array collect_u32
    arch_u32 text_beq
from_gguf-All_example = from_gguf-All no_name mixed 8 (2 ∷ 4 ∷ []) refl refl
