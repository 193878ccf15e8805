-- ===== src/Model/Role/Tests.antt =====
-- `test_role_classification` of src/model/tensor_role.rs.
use hypura.Prelude.{◌≡◌, refl}
use hypura.Prelude.Text.{codes}
use hypura.Model.Role
use hypura.Model.Role.{TensorRole}

classification :
    (Role.from_name (codes "token_embd.weight") ≡ TensorRole.embedding)
    × (Role.from_name (codes "blk.0.attn_q.weight") ≡ TensorRole.attention_query)
    × (Role.from_name (codes "blk.5.ffn_gate.weight") ≡ TensorRole.ffn_gate)
    × (Role.from_name (codes "blk.3.attn_norm.weight") ≡ TensorRole.norm)
    × (Role.from_name (codes "output.weight") ≡ TensorRole.output_head)
    × (Role.from_name (codes "blk.0.ffn_gate_inp.weight") ≡ TensorRole.moe_router)
    × (Role.from_name (codes "blk.0.ffn_gate_exps.weight") ≡ TensorRole.moe_fused_experts)
    × (Role.from_name (codes "blk.0.ffn_gate_exps.7.weight") ≡ TensorRole.moe_expert 7)
unfolding Role.from_name
classification = (refl, refl, refl, refl, refl, refl, refl, refl)
