-- ===== src/Model/Role.antt =====
-- src/model/tensor_role.rs: the role of a tensor, read off its name.
mod Tests
use package.hypura.Prelude.{
  ℕ, zero, suc, ◌+◌, Bool, true, false, not, ◌||◌, Option, none, some, List, [], ◌∷◌, if◌then◌else◌,
  drop,
}
use package.hypura.Prelude.Text.{
  Text, codes, text_beq, starts_with, find, has, split, is_digit, parse_u32,
}

pub data TensorRole : Type 0 where
  embedding attention_query attention_key attention_value attention_output : TensorRole
  ffn_gate ffn_up ffn_down moe_router : TensorRole
  moe_expert : ℕ → TensorRole
  moe_fused_experts norm output_head : TensorRole
  other : Text → TensorRole

abbrev starts_with_digit : Text → Bool
starts_with_digit [] = false
starts_with_digit (c ∷ s) = is_digit c

-- All experts in one tensor: no digit follows `_exps.`.
unfoldable pub is_fused_expert_tensor : Text → Bool
unfolding find
is_fused_expert_tensor name = elim (find name (codes "_exps.")) [
  | some pos ↦ not (starts_with_digit (drop (pos + 6) name))
  | none ↦ false
]

-- The numbers among the parts of a name.
unfoldable pub numbers : List Text → List ℕ
unfolding parse_u32
numbers [] = []
numbers (part ∷ parts) =
    let later = numbers parts in elim (parse_u32 part) [ none ↦ later | some n ↦ n ∷ later ]

abbrev nth_1 : List ℕ → Option ℕ
nth_1 [] = none
nth_1 (a ∷ []) = none
nth_1 (a ∷ b ∷ l) = some b

-- The second number of the name.
unfoldable pub parse_expert_id : Text → Option ℕ
unfolding numbers split
parse_expert_id name = nth_1 (numbers (split name b'.'))

abbrev or_zero : Option ℕ → ℕ
or_zero none = 0
or_zero (some n) = n

unfoldable pub from_name : Text → TensorRole
unfolding has is_fused_expert_tensor parse_expert_id text_beq
from_name name =
    if has name (codes "token_embd")
    then embedding
    else if text_beq name (codes "output.weight") || text_beq name (codes "lm_head.weight")
    then output_head
    else if has name (codes "_norm") || has name (codes ".norm")
    then norm
    else if has name (codes "ffn_gate_inp") || has name (codes "ffn_gate_shexp")
    then moe_router
    else if has name (codes "_exps.")
    then (if is_fused_expert_tensor name
        then moe_fused_experts
        else moe_expert (or_zero (parse_expert_id name)))
    else if has name (codes "attn_q") || has name (codes "attn.q")
    then attention_query
    else if has name (codes "attn_k") || has name (codes "attn.k")
    then attention_key
    else if has name (codes "attn_v") || has name (codes "attn.v")
    then attention_value
    else if has name (codes "attn_output") || has name (codes "attn.o")
    then attention_output
    else if has name (codes "ffn_gate")
    then ffn_gate
    else if has name (codes "ffn_up")
    then ffn_up
    else if has name (codes "ffn_down")
    then ffn_down
    else other name

-- `matches!(role, MoeFusedExperts)`
abbrev pub is_fused : TensorRole → Bool
is_fused moe_fused_experts = true
is_fused _ = false

-- `matches!(role, FfnGate | FfnUp | FfnDown)`
abbrev pub is_ffn : TensorRole → Bool
is_ffn ffn_gate = true
is_ffn ffn_up = true
is_ffn ffn_down = true
is_ffn _ = false
