-- ===== src/Compute/Prefetch/Dense.antt =====
-- src/compute/nvme_backend.rs, `PrefetchState`: the feed-forward tensors of a dense model, in the
-- slots of the pool or in a buffer of their own.
pub mod Placed
use package.hypura.Prelude.{
  ℕ, ◌+◌, ◌*◌, ◌/◌, Bool, true, false, Option, none, some, List, [], ◌∷◌, ◌++◌, map, if◌then◌else◌,
  length,
}
use package.hypura.Prelude.Keys.{◌==◌, nat_eq}
use package.hypura.Prelude.Dict.{Dict, lookup, insert, remove}
use package.hypura.Prelude.Machine.{u64}
use package.hypura.Prelude.Text.{Text, text_eq}
use package.hypura.Compute.Pool.{allocate_layer, range_from}
use package.hypura.Compute.Prefetch.{loading, Region, layer_hit, status_of, is_loaded, submit}
use package.hypura.Compute.Prefetch.State.{
  PrefetchState, DenseFfnLayout, trace_event, rewrite_data, rewrite_all, rewrite_each,
}
use package.hypura.Compute.Prefetch.Load.{with_status}
use package.hypura.Compute.Prefetch.Experts.{load_and_wait, held_offsets, then_stall}

abbrev pub dense_names : List DenseFfnLayout → List Text
dense_names xs = map (λ (x : DenseFfnLayout). x.tensor_name) xs

-- A task for each tensor; `none` is the panic where a tensor has no slot.
unfoldable pub dense_tasks : List DenseFfnLayout → List ℕ → Option (List (List Region))
dense_tasks [] slot_offsets = some []
dense_tasks (x ∷ layouts) [] = none
dense_tasks (x ∷ layouts) (slot_offset ∷ slot_offsets) = elim (dense_tasks layouts slot_offsets) [
  | none ↦ none
  | some rs ↦
      some ((record { offset = slot_offset; size = x.size; file_offset = x.file_offset } ∷ []) ∷ rs)
]

-- The layer's slots, its tensors pointed at them, and the tasks; `none` is a panic.
unfoldable pub place_dense :
    PrefetchState → ℕ → List DenseFfnLayout → Option (PrefetchState × (ℕ × List (List Region)))
unfolding allocate_layer rewrite_each dense_tasks
place_dense s layer_idx layouts = elim s.expert_pool [
  | none ↦ none
  | some p ↦ elim (allocate_layer p layer_idx (length layouts)) [
    | none ↦ none
    | some (p', slot_offsets) ↦
        elim (rewrite_each p'.pool_base (dense_names layouts) slot_offsets s.tensor_data) [
          | none ↦ none
          | some rewritten ↦ elim (dense_tasks layouts slot_offsets) [
            | none ↦ none
            | some rs ↦
                some
                  (record s { expert_pool = some p'; tensor_data = rewritten }, (p'.pool_base, rs))
          ]
        ]
  ]
]

unfoldable pub rewrite_dense_ffn_ptrs : PrefetchState → ℕ → PrefetchState
unfolding rewrite_all
rewrite_dense_ffn_ptrs s layer_idx = elim (lookup layer_idx s.dense_ffn_layouts) [
  | none ↦ s
  | some layouts ↦ elim s.expert_pool [
    | none ↦ s
    | some p ↦ elim (lookup layer_idx p.layer_slots) [
      | none ↦ s
      | some slots ↦ record s {
        tensor_data =
            rewrite_all p.pool_base (dense_names layouts) (held_offsets p slots) s.tensor_data;
      }
    ]
  ]
]

abbrev pub has_none {ℓ} : {A : Type ℓ} → List A → Bool
has_none [] = true
has_none (x ∷ xs) = false

-- The layouts of a layer that has feed-forward tensors.
abbrev pub some_layouts : Option (List DenseFfnLayout) → List DenseFfnLayout
some_layouts none = []
some_layouts (some xs) = xs

unfoldable pub ensure_dense_ffn_loaded : PrefetchState → ℕ → Option PrefetchState
unfolding rewrite_dense_ffn_ptrs place_dense load_and_wait
ensure_dense_ffn_loaded s layer_idx =
    let layouts = some_layouts (lookup layer_idx s.dense_ffn_layouts) in
    if has_none layouts
    then some s
    else if is_loaded (status_of s.io layer_idx)
    then some (trace_event (rewrite_dense_ffn_ptrs s layer_idx) (layer_hit layer_idx))
    else elim (place_dense s layer_idx layouts) [
      | none ↦ none
      | some (s', (pool_base, task_regions)) ↦
          then_stall (load_and_wait s' layer_idx pool_base task_regions) layer_idx
    ]

-- The tasks are sent and not waited for.
abbrev pub load_without_wait : PrefetchState → ℕ → ℕ → List (List Region) → PrefetchState
unfolding submit
load_without_wait s layer_idx base [] = s
load_without_wait s layer_idx base (r ∷ rs) = record s {
  io = submit (with_status s layer_idx loading).io layer_idx true base (r ∷ rs);
}

unfoldable pub prefetch_dense_ffn : PrefetchState → ℕ → Option PrefetchState
unfolding place_dense submit
prefetch_dense_ffn s layer_idx =
    let layouts = some_layouts (lookup layer_idx s.dense_ffn_layouts) in
    if has_none layouts then some s else elim (place_dense s layer_idx layouts) [
      | none ↦ none
      | some (s', (pool_base, task_regions)) ↦
          some (load_without_wait s' layer_idx pool_base task_regions)
    ]

-- The offsets in the resident buffer, and its size: each tensor starts on a page.
unfoldable pub page_align : ℕ → ℕ
page_align n = u64 (n + 4095) / 4096 * 4096

unfoldable pub place_resident : List DenseFfnLayout → ℕ → Dict Text ℕ → ℕ × Dict Text ℕ
unfolding page_align
place_resident [] total_size offs = (total_size, offs)
place_resident (x ∷ layouts) total_size offs =
    place_resident layouts (page_align (u64 (total_size + x.size)))
      (insert x.tensor_name total_size offs)

-- The layouts of the layers of a list, in order, and the layers that have any.
unfoldable pub layouts_of : PrefetchState → List ℕ → List DenseFfnLayout
layouts_of s [] = []
layouts_of s (l ∷ ls) = some_layouts (lookup l s.dense_ffn_layouts) ++ layouts_of s ls

unfoldable pub layers_with_ffn : PrefetchState → List ℕ → List ℕ
layers_with_ffn s [] = []
layers_with_ffn s (l ∷ ls) =
    let rest = layers_with_ffn s ls in
    elim (lookup l s.dense_ffn_layouts) [ none ↦ rest | some xs ↦ l ∷ rest ]

unfoldable pub resident_tasks : List DenseFfnLayout → Dict Text ℕ → List (List Region)
resident_tasks [] offs = []
resident_tasks (x ∷ layouts) offs =
    let rest = resident_tasks layouts offs in
    elim (lookup x.tensor_name offs) [
      | none ↦ rest
      | some offset ↦
          (record { offset = offset; size = x.size; file_offset = x.file_offset } ∷ []) ∷ rest
    ]

-- Each entry of the offset map, written to its tensor.
unfoldable pub rewrite_entries : ℕ → Dict Text ℕ → Dict Text ℕ → Dict Text ℕ
rewrite_entries base [] m = m
rewrite_entries base ((name, offset) ∷ offs) m =
    rewrite_entries base offs (rewrite_data m name (base + offset))

-- What `activate_resident_ffn` returns.
pub record ResidentFfn : Type 0 where
  pub base : ℕ
  pub total_size : ℕ
  pub resident_layers : List ℕ
  pub offsets : Dict Text ℕ

-- `mmap` answers a size with an address, or fails.
unfoldable pub activate_resident_ffn :
    (ℕ → Option ℕ) → PrefetchState → ℕ → Option (PrefetchState × Option ResidentFfn)
unfolding place_resident layouts_of layers_with_ffn resident_tasks load_and_wait rewrite_entries
activate_resident_ffn mmap s num_resident =
    let layouts = layouts_of s (range_from 0 num_resident) in
    let (total_size, offs) = place_resident layouts 0 [] in
    let sentinel_layer = s.num_layers + 1 in
    if total_size == 0 then some (s, none) else elim (mmap total_size) [
      | none ↦ some (s, none)
      | some base ↦ elim (load_and_wait s sentinel_layer base (resident_tasks layouts offs)) [
        | none ↦ none
        | some s' ↦ some (
          record s' {
            io = record s'.io { layer_status = remove sentinel_layer s'.io.layer_status };
            tensor_data = rewrite_entries base offs s'.tensor_data;
          },
          some (record {
            base = base;
            total_size = total_size;
            resident_layers = layers_with_ffn s (range_from 0 num_resident);
            offsets = offs;
          }),
        )
      ]
    ]

-- The loop of `rewrite_resident_ffn_ptrs`.
unfoldable pub rewrite_resident : ℕ → Dict Text ℕ → List Text → Dict Text ℕ → Dict Text ℕ
rewrite_resident base offs [] m = m
rewrite_resident base offs (n ∷ names) m =
    rewrite_resident base offs names
      (elim (lookup n offs) [ none ↦ m | some offset ↦ rewrite_data m n (base + offset) ])

unfoldable pub rewrite_resident_ffn_ptrs : PrefetchState → ℕ → PrefetchState
unfolding rewrite_resident
rewrite_resident_ffn_ptrs s layer_idx = elim (lookup layer_idx s.dense_ffn_layouts) [
  | none ↦ s
  | some layouts ↦ elim s.resident_ffn_base [
    | none ↦ s
    | some base ↦ record s {
      tensor_data =
          rewrite_resident base s.resident_ffn_offsets (dense_names layouts) s.tensor_data;
    }
  ]
]
