-- ===== src/Io/Layout.antt =====
-- src/io/expert_layout.rs, and the inverse of a stored permutation, which
-- src/compute/nvme_backend.rs computes when it loads a model.
pub mod Inverse
use package.hypura.Prelude.{
  ℕ, zero, suc, ◌+◌, ◌*◌, ◌<◌, Bool, true, false, Option, none, some, List, [], ◌∷◌, if◌then◌else◌,
  ltb, length, get_elem?, set, replicate,
}
use package.hypura.Prelude.Text.{Text, codes, has}
use package.hypura.Prelude.Machine.{u64}
use package.hypura.Cache.Neuron.{ExpertTensorType, gate, up, down, gate_up}

pub record ExpertLayout : Type 0 where
  pub tensor_name : Text
  pub layer_index : ℕ
  pub num_experts : ℕ
  pub expert_stride : ℕ
  pub file_offset : ℕ
  pub buffer_offset : ℕ
  pub total_size : ℕ
  pub expert_permutation : Option (List ℕ)

-- `ExpertTensorType::from_name`
unfoldable pub tensor_type : Text → Option ExpertTensorType
unfolding has
tensor_type name =
    if has name (codes "ffn_gate_up_exps")
    then some gate_up
    else if has name (codes "ffn_gate_exps")
    then some gate
    else if has name (codes "ffn_up_exps")
    then some up
    else if has name (codes "ffn_down_exps")
    then some down
    else none

abbrev pub copied_or : Option ℕ → ℕ → ℕ
copied_or none d = d
copied_or (some n) d = n

-- Beyond the end of the permutation the number stays as it is.
unfoldable pub map_expert_id : ExpertLayout → ℕ → ℕ
map_expert_id x expert_id = elim x.expert_permutation [
  | none ↦ expert_id
  | some perm ↦ copied_or (get_elem? perm expert_id) expert_id
]

unfoldable pub expert_file_offset : ExpertLayout → ℕ → ℕ
unfolding map_expert_id
expert_file_offset x expert_id =
    u64 (x.file_offset + u64 (map_expert_id x expert_id * x.expert_stride))

unfoldable pub expert_buffer_offset : ExpertLayout → ℕ → ℕ
unfolding map_expert_id
expert_buffer_offset x expert_id =
    u64 (x.buffer_offset + u64 (map_expert_id x expert_id * x.expert_stride))

-- The loop of the inversion, at position `phys`.
unfoldable pub invert_from : List ℕ → ℕ → List ℕ → List ℕ
invert_from [] phys inv = inv
invert_from (logical ∷ fwd) phys inv =
    invert_from fwd (suc phys) (if ltb logical (length inv) then set inv logical phys else inv)

unfoldable pub invert : List ℕ → List ℕ
unfolding invert_from
invert fwd = invert_from fwd 0 (replicate (length fwd) 0)
