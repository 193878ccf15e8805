-- ===== src/Compute/Controller.antt =====
-- src/compute/nvme_backend.rs, `HypuraBuftController`: what it records while llama.cpp loads the
-- tensors, the `PrefetchState` that it builds, and the pools that replace its buffer.
pub mod Build
pub mod Ready
pub mod Patterns
use package.hypura.Prelude.{
  ℕ, zero, suc, ◌+◌, ◌-◌, ◌*◌, ◌/◌, max, Bool, true, false, not, ◌&&◌, ◌||◌, Option, none, some,
  List, [], ◌∷◌, ◌++◌, map, if◌then◌else◌, ltb, length,
}
use package.hypura.Prelude.Keys.{◌==◌, nat_eq, retain, contains}
use package.hypura.Prelude.Dict.{Dict, lookup, insert, keys, values}
use package.hypura.Prelude.Machine.{u64}
use package.hypura.Prelude.Sort.{sort}
use package.hypura.Prelude.Text.{Text, text_eq, codes}
use package.hypura.Model.Role.{
  TensorRole, from_name, is_ffn, moe_fused_experts, ffn_gate, ffn_up, ffn_down,
}
use package.hypura.Model.Gguf.{GgufFile, TensorInfo, get_u32}
use package.hypura.Cache.Neuron.{new as new_cache}
use package.hypura.Cache.Coactivation.{CoActivationMatrix, new as new_matrix}
use package.hypura.Io.Layout.{ExpertLayout, invert}
use package.hypura.Compute.Pool.{ExpertPool, new as new_pool}
use package.hypura.Compute.Prefetch.{LayerStatus, not_loaded, Region, IoState}
use package.hypura.Compute.Prefetch.State.{PrefetchState, DenseFfnLayout, has_key, rewrite_data}
use package.hypura.Compute.Prefetch.Dense.{page_align}

pub record TensorLocation : Type 0 where
  pub offset_in_buffer : ℕ
  pub size : ℕ
  pub file_offset : ℕ
  pub layer_index : Option ℕ

-- `tensor_data` holds the `data` pointers of the tensors in `tensor_ptrs`; `loading_scratch` is the
-- address and the size of the scratch buffer.
pub record HypuraBuftController : Type 0 where
  pub tensor_map : Dict Text TensorLocation
  pub gguf_data_offset : ℕ
  pub buffer_base : Option ℕ
  pub tensor_data : Dict Text ℕ
  pub loading_scratch : Option (ℕ × ℕ)

unfoldable pub new : GgufFile → HypuraBuftController
new gguf = record {
  tensor_map = [];
  gguf_data_offset = gguf.data_offset;
  buffer_base = none;
  tensor_data = [];
  loading_scratch = none;
}

abbrev pub first_some {ℓ} : {A : Type ℓ} → Option A → Option A → Option A
first_some none b = b
first_some (some a) b = some a

-- The name is empty when it is no UTF-8.
unfoldable pub on_tensor_loaded_cb :
    HypuraBuftController → Text → ℕ → ℕ → Option ℕ → HypuraBuftController
on_tensor_loaded_cb c name offset size base = record c {
  tensor_map = elim name [
    | [] ↦ c.tensor_map
    | x ∷ rest ↦
        insert (x ∷ rest)
          (record { offset_in_buffer = offset; size = size; file_offset = 0; layer_index = none })
          c.tensor_map
  ];
  buffer_base = first_some base c.buffer_base;
}

abbrev pub is_dense_ffn : TensorRole → Bool
is_dense_ffn ffn_gate = true
is_dense_ffn ffn_up = true
is_dense_ffn ffn_down = true
is_dense_ffn _ = false

abbrev pub is_fused_role : TensorRole → Bool
is_fused_role moe_fused_experts = true
is_fused_role _ = false

abbrev pub address_or : Option (ℕ × ℕ) → ℕ → ℕ
address_or none address = address
address_or (some (scratch, size)) address = scratch

-- `address` is the tensor's `data` before the call.
unfoldable pub on_tensor_init_cb : HypuraBuftController → Text → ℕ → HypuraBuftController
unfolding from_name
on_tensor_init_cb c name address =
    let role = from_name name in
    let redirected = address_or c.loading_scratch address in
    if is_dense_ffn role
    then record c { tensor_data = insert name redirected c.tensor_data }
    else if is_fused_role role
    then record c { tensor_data = insert name address c.tensor_data }
    else c

abbrev pub max_of : List ℕ → ℕ
max_of [] = 0
max_of (n ∷ ns) = max n (max_of ns)

-- The largest tensor whose role passes a test, 0 without one.
unfoldable pub largest : (TensorRole → Bool) → GgufFile → ℕ
unfolding from_name
largest test gguf = max_of (
    map (λ (t : TensorInfo). t.size_bytes)
      (retain (λ (t : TensorInfo). test (from_name t.name)) gguf.tensors))

-- `mmap` answers a size with an address, or fails.
unfoldable pub enable_dense_ffn_scratch :
    (ℕ → Option ℕ) → HypuraBuftController → GgufFile → HypuraBuftController
unfolding largest page_align
enable_dense_ffn_scratch mmap c gguf =
    let aligned = page_align (largest is_dense_ffn gguf) in
    if largest is_dense_ffn gguf == 0 then c else elim (mmap aligned) [
      | none ↦ c
      | some address ↦ record c { loading_scratch = some (address, aligned) }
    ]

-- The buffer that is unmapped, if any, is returned.
unfoldable pub release_scratch : HypuraBuftController → HypuraBuftController × Option (ℕ × ℕ)
release_scratch c = (record c { loading_scratch = none }, c.loading_scratch)

-- Every captured tensor whose name passes a test, pointed at the pool's base.
unfoldable pub point_all : (Text → Bool) → ℕ → Dict Text ℕ → Dict Text ℕ
point_all test base m = map (λ (e : Text × ℕ). (e.0, if test e.0 then base else e.1)) m

-- `init_pool` answers a size with the base of the pool, or fails as the custom buffer does.
unfoldable pub activate_expert_pool :
    (ℕ → Option ℕ)
    → HypuraBuftController
    → GgufFile
    → ℕ
    → Option (HypuraBuftController × ExpertPool)
unfolding largest point_all new_pool
activate_expert_pool init_pool c gguf num_slots =
    let slot_size = largest is_fused_role gguf in
    let pool_size = u64 (num_slots * slot_size) in
    if slot_size == 0 then none else elim (init_pool pool_size) [
      | none ↦ none
      | some base ↦ elim (new_pool base pool_size slot_size) [
        | none ↦ none
        | some p ↦ some (record c { tensor_data = point_all (λ name. true) base c.tensor_data }, p)
      ]
    ]

unfoldable pub activate_dense_ffn_pool :
    (ℕ → Option ℕ)
    → HypuraBuftController
    → GgufFile
    → ℕ
    → Option (HypuraBuftController × ExpertPool)
unfolding largest point_all new_pool release_scratch from_name
activate_dense_ffn_pool init_pool c gguf num_slots =
    let slot_size = largest is_dense_ffn gguf in
    let pool_size = u64 (num_slots * slot_size) in
    if slot_size == 0 then none else elim (init_pool pool_size) [
      | none ↦ none
      | some base ↦ elim (new_pool base pool_size slot_size) [
        | none ↦ none
        | some p ↦ some (
          (release_scratch (record c {
            tensor_data = point_all (λ name. is_dense_ffn (from_name name)) base c.tensor_data;
          })).0,
          p,
        )
      ]
    ]

unfoldable pub take_tensor_ptrs : HypuraBuftController → HypuraBuftController × Dict Text ℕ
take_tensor_ptrs c = (record c { tensor_data = [] }, c.tensor_data)
