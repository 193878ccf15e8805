-- ===== src/Model/Gguf/Tests.antt =====
-- Runs of the parser.
use hypura.Prelude.{ℕ, arith, List, [], ◌∷◌, ◌++◌, some, none, ◌≡◌, refl}
use hypura.Prelude.Text.{codes}
use hypura.Model.Gguf
use hypura.Model.Gguf.{GgufFile, GgufValue, GgufError}
use hypura.Model.Gguf.Reader.{ok, err}
use hypura.Prelude.Decimal.{decimal}
use hypura.Model.Gguf.Parse.{parse}
use hypura.Model.Gguf.Parse.Header.{Accepted, parse-Accepted, parse_layer_index-decimal}

abbrev header : List ℕ
header = 0x47 ∷ 0x47 ∷ 0x55 ∷ 0x46 ∷ 3 ∷ 0 ∷ 0 ∷ 0 ∷ []

abbrev word64 : ℕ → List ℕ
word64 n = n ∷ 0 ∷ 0 ∷ 0 ∷ 0 ∷ 0 ∷ 0 ∷ 0 ∷ []

abbrev one_key : List ℕ
one_key =
    header
    ++ (word64 0
        ++ (word64 1
            ++ (word64 1
                ++ (97 ∷ 9 ∷ 0 ∷ 0 ∷ 0 ∷ (4 ∷ 0 ∷ 0 ∷ 0 ∷ (word64 1 ++ (5 ∷ 1 ∷ 0 ∷ 0 ∷ [])))))))

abbrev one_key_file : GgufFile
one_key_file = record {
  version = 3;
  metadata =
      (codes "a", GgufValue.array (Gguf.Values.cons (GgufValue.uint32 261) Gguf.Values.nil)) ∷ [];
  tensors = [];
  data_offset = 64;
}

parse-one_key : parse one_key ≡ ok one_key_file
unfolding parse
parse-one_key = refl

parse_empty : parse [] ≡ err GgufError.io
unfolding parse
parse_empty = refl

layer_index :
    (Gguf.parse_layer_index (codes "blk.15.ffn_gate.weight") ≡ some 15)
    × (Gguf.parse_layer_index (codes "output.weight") ≡ none)
unfolding Gguf.parse_layer_index
layer_index = (refl, refl)

parse-Accepted_example : Accepted one_key one_key_file
parse-Accepted_example = parse-Accepted one_key one_key_file parse-one_key

parse_layer_index-decimal_example :
    Gguf.parse_layer_index (codes "blk." ++ (decimal 15 ++ (codes "." ++ codes "attn_q.weight")))
    ≡ some 15
parse_layer_index-decimal_example =
    parse_layer_index-decimal 15 (codes "attn_q.weight") (omega arith)
