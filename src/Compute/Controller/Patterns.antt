-- ===== src/Compute/Controller/Patterns.antt =====
-- src/compute/nvme_backend.rs, `build_override_patterns`: the regular expressions that send tensors to
-- the custom buffer. The list of overrides that llama.cpp takes pairs each with the buffer's type.
pub mod Matching
use package.hypura.Prelude.{
  ℕ, ◌+◌, ◌-◌, ◌<◌, Bool, true, false, ◌&&◌, Option, none, some, List, [], ◌∷◌, ◌++◌, map, leb,
  ◌||◌, if◌then◌else◌, ltb, All, ◌≡◌, refl, ap, ◌∙◌, arith, inl, inr, Bool-cases, Option-cases,
}
use package.hypura.Prelude.Keys.{◌==◌, nat_eq, contains, Distinct}
use package.hypura.Prelude.Dict.{Dict, lookup, keys}
use package.hypura.Prelude.Text.{Text, text_eq, codes}
use package.hypura.Prelude.Decimal.{decimal}
use package.hypura.Model.Gguf.{GgufFile, TensorInfo}
use package.hypura.Scheduler.Types.{
  StorageTier, nvme, InferenceMode, expert_streaming, dense_ffn_streaming,
}
use package.hypura.Compute.Callback.Names.{regex_escape}

abbrev pub is_nvme : Option StorageTier → Bool
is_nvme (some nvme) = true
is_nvme _ = false

-- ^…$ around the escaped name
unfoldable pub exact_pattern : Text → Text
unfolding regex_escape
exact_pattern name = b'^' ∷ regex_escape name ++ (b'$' ∷ [])

-- ^blk\.5\.
abbrev pub layer_pattern : ℕ → Text
unfolding decimal
layer_pattern layer = codes "^blk\\." ++ (decimal layer ++ codes "\\.")

-- In the streaming modes: the tensors that the plan puts on NVMe.
unfoldable pub nvme_patterns : Dict Text StorageTier → List TensorInfo → List Text
unfolding exact_pattern
nvme_patterns assignments [] = []
nvme_patterns assignments (t ∷ tensors) =
    let rest = nvme_patterns assignments tensors in
    if is_nvme (lookup t.name assignments) then exact_pattern t.name ∷ rest else rest

-- `layer_counts`: how many tensors of a layer are not on the GPU, and how many it has.
abbrev pub count_one : ℕ → Dict ℕ (ℕ × ℕ) → Dict ℕ (ℕ × ℕ)
count_one l [] = (l, (1, 1)) ∷ []
count_one l ((j, (non_gpu, total)) ∷ m) =
    if j == l then (j, (non_gpu + 1, total + 1)) ∷ m else (j, (non_gpu, total)) ∷ count_one l m

unfoldable pub layer_counts : ℕ → List TensorInfo → Dict ℕ (ℕ × ℕ) → Dict ℕ (ℕ × ℕ)
layer_counts first [] m = m
layer_counts first (t ∷ tensors) m =
    layer_counts first tensors
      (elim t.layer_index [ none ↦ m | some l ↦ if ltb l first then m else count_one l m ])

unfoldable pub whole_layers : Dict ℕ (ℕ × ℕ) → List Text
whole_layers [] = []
whole_layers ((l, (non_gpu, total)) ∷ m) =
    let rest = whole_layers m in
    if non_gpu == total && ltb 0 non_gpu then layer_pattern l ∷ rest else rest

-- The tensors of the layers that are not whole.
unfoldable pub split_layers : ℕ → Dict ℕ (ℕ × ℕ) → List TensorInfo → List Text
unfolding exact_pattern
split_layers first m [] = []
split_layers first m (t ∷ tensors) =
    let rest = split_layers first m tensors in
    elim t.layer_index [
      | none ↦ rest
      | some l ↦ if ltb l first then rest else elim (lookup l m) [
        | none ↦ rest
        | some (non_gpu, total) ↦ if ltb non_gpu total then exact_pattern t.name ∷ rest else rest
      ]
    ]

-- The patterns of the standard mode; `first` is the first layer that is not on the GPU.
unfoldable pub standard_patterns : ℕ → List TensorInfo → List Text
unfolding layer_counts whole_layers split_layers
standard_patterns first tensors =
    let m = layer_counts first tensors [] in whole_layers m ++ split_layers first m tensors

-- A negative `n_gpu_layers` counts as 0.
unfoldable pub build_override_patterns :
    InferenceMode → Dict Text StorageTier → GgufFile → ℕ → List Text
unfolding nvme_patterns standard_patterns
build_override_patterns expert_streaming assignments gguf n_gpu_layers =
    nvme_patterns assignments gguf.tensors
build_override_patterns dense_ffn_streaming assignments gguf n_gpu_layers =
    nvme_patterns assignments gguf.tensors
build_override_patterns mode assignments gguf n_gpu_layers =
    standard_patterns (n_gpu_layers - 1) gguf.tensors

abbrev IsWhole : ℕ × (ℕ × ℕ) → Type 0
IsWhole e = (e.1.0 ≡ e.1.1) × (0 < e.1.0)

count_one-All : (l : ℕ) (m : Dict ℕ (ℕ × ℕ)) → All IsWhole m → All IsWhole (count_one l m)
count_one-All l [] h = ((refl, omega arith), tt)
count_one-All l ((j, (a, b)) ∷ m) h = ground (arith, h.0, h.1, count_one-All l m h.1)

layer_counts-All :
    (first : ℕ) (ts : List TensorInfo) (m : Dict ℕ (ℕ × ℕ))
    → All IsWhole m
    → All IsWhole (layer_counts first ts m)
unfolding layer_counts
layer_counts-All first [] m h = h
layer_counts-All first (t ∷ ts) m h = elim (Option-cases t.layer_index) [
  | inl e ↦ rw e (layer_counts-All first ts m h)
  | inr (l, e) ↦ elim (Bool-cases (ltb l first)) [
    | inl below ↦ rw (e, below) (layer_counts-All first ts m h)
    | inr above ↦ rw (e, above) (layer_counts-All first ts (count_one l m) (count_one-All l m h))
  ]
]

whole_layers-map :
    (m : Dict ℕ (ℕ × ℕ)) → All IsWhole m → whole_layers m ≡ map layer_pattern (keys m)
unfolding whole_layers
whole_layers-map [] h = refl
whole_layers-map ((l, (a, b)) ∷ m) h = ground (arith, h.0, whole_layers-map m h.1)

lookup-IsWhole :
    (l : ℕ) (m : Dict ℕ (ℕ × ℕ)) (c : ℕ × ℕ) → All IsWhole m → lookup l m ≡ some c → c.0 ≡ c.1
lookup-IsWhole l [] c h e = cc
lookup-IsWhole l ((j, p) ∷ m) c h e = ground (arith, h.0, lookup-IsWhole l m c h.1)

split_layers-nil :
    (first : ℕ) (m : Dict ℕ (ℕ × ℕ)) (ts : List TensorInfo)
    → All IsWhole m
    → split_layers first m ts ≡ []
unfolding split_layers
split_layers-nil first m [] h = refl
split_layers-nil first m (t ∷ ts) h = elim (Option-cases t.layer_index) [
  | inl e ↦ ground (arith, e, split_layers-nil first m ts h)
  | inr (l, e) ↦ elim (Option-cases (lookup l m)) [
    | inl e' ↦ ground (arith, e, e', split_layers-nil first m ts h)
    | inr (c, e') ↦ ground (arith, e, e', lookup-IsWhole l m c h e', split_layers-nil first m ts h)
  ]
]

append_nil {ℓ} : {A : Type ℓ} (xs : List A) → xs ++ [] ≡ xs
append_nil [] = refl
append_nil (x ∷ xs) = ap (λ ys. x ∷ ys) (append_nil xs)

-- Whether a tensor belongs to a layer.
abbrev pub has_tensor : ℕ → List TensorInfo → Bool
has_tensor l [] = false
has_tensor l (t ∷ ts) = elim t.layer_index [ none ↦ false | some k ↦ k == l ] || has_tensor l ts

contains-count_one :
    (l k : ℕ) (m : Dict ℕ (ℕ × ℕ))
    → contains l (keys (count_one k m)) ≡ (l == k || contains l (keys m))
contains-count_one l k [] = refl
contains-count_one l k ((j, c) ∷ m) = ground (arith, contains-count_one l k m)

count_one-Distinct :
    (k : ℕ) (m : Dict ℕ (ℕ × ℕ)) → Distinct (keys m) → Distinct (keys (count_one k m))
count_one-Distinct k [] d = (refl, tt)
count_one-Distinct k ((j, c) ∷ m) d =
    ground (arith, d.0, d.1, contains-count_one j k m, count_one-Distinct k m d.1)

layer_counts-Distinct :
    (first : ℕ) (ts : List TensorInfo) (m : Dict ℕ (ℕ × ℕ))
    → Distinct (keys m)
    → Distinct (keys (layer_counts first ts m))
unfolding layer_counts
layer_counts-Distinct first [] m d = d
layer_counts-Distinct first (t ∷ ts) m d = elim (Option-cases t.layer_index) [
  | inl e ↦ rw e (layer_counts-Distinct first ts m d)
  | inr (l, e) ↦ elim (Bool-cases (ltb l first)) [
    | inl below ↦ rw (e, below) (layer_counts-Distinct first ts m d)
    | inr above ↦
        rw (e, above) (layer_counts-Distinct first ts (count_one l m) (count_one-Distinct l m d))
  ]
]

contains-layer_counts :
    (first : ℕ) (ts : List TensorInfo) (m : Dict ℕ (ℕ × ℕ)) (l : ℕ)
    → contains l (keys (layer_counts first ts m))
      ≡ (contains l (keys m) || (leb first l && has_tensor l ts))
unfolding layer_counts
contains-layer_counts first [] m l = ground arith
contains-layer_counts first (t ∷ ts) m l = elim (Option-cases t.layer_index) [
  | inl e ↦ ground (arith, e, contains-layer_counts first ts m l)
  | inr (k, e) ↦ elim (Bool-cases (ltb k first)) [
    | inl below ↦ ground (arith, e, below, contains-layer_counts first ts m l)
    | inr above ↦ ground (
      arith,
      e,
      above,
      contains-layer_counts first ts (count_one k m) l,
      contains-count_one l k m,
    )
  ]
]

-- In the standard mode the patterns are those of whole layers: each layer with a tensor, from the
-- first that is not on the GPU, has exactly one, no other layer has one, and no single tensor has.
pub standard_patterns-layers :
    (first : ℕ) (ts : List TensorInfo)
    → (ls : List ℕ) × (standard_patterns first ts ≡ map layer_pattern ls)
      × Distinct ls
      × ((l : ℕ) → contains l ls ≡ (leb first l && has_tensor l ts))
unfolding standard_patterns
standard_patterns-layers first ts =
    let m = layer_counts first ts [] in
    let whole = layer_counts-All first ts [] tt in
    (
      keys m,
      ap (λ ps. whole_layers m ++ ps) (split_layers-nil first m ts whole)
          ∙ append_nil (whole_layers m)
          ∙ whole_layers-map m whole,
      layer_counts-Distinct first ts [] tt,
      λ l. contains-layer_counts first ts [] l,
    )
