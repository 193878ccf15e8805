-- ===== src/Compute/Session/Warm.antt =====
-- src/compute/nvme_backend.rs, `warm_cache_from_coactivation`: the experts that were chosen most are
-- loaded before the first token.
use package.hypura.Prelude.{
  ℕ, Option, none, some, List, [], ◌∷◌, map, if◌then◌else◌, ltb, leb, length, take, get_or,
}
use package.hypura.Prelude.Keys.{nat_eq, retain}
use package.hypura.Prelude.Dict.{insert, keys}
use package.hypura.Prelude.Sort.{sort}
use package.hypura.Cache.Coactivation.{Matrix, has_data, cell, higher}
use package.hypura.Compute.Pool.{range_from}
use package.hypura.Compute.Prefetch.State.{PrefetchState}
use package.hypura.Compute.Prefetch.Experts.{ensure_experts_loaded}

-- How often each expert was chosen: the diagonal of the layer's counts.
unfoldable pub frequencies : Matrix → List ℕ → List (ℕ × ℕ)
frequencies m [] = []
frequencies m (e ∷ es) =
    let rest = frequencies m es in (e, if ltb e (length m) then cell m e e else 0) ∷ rest

unfoldable pub top_experts : PrefetchState → Matrix → List ℕ
unfolding frequencies sort
top_experts s m =
    map (λ (p : ℕ × ℕ). p.0)
      (retain (λ (p : ℕ × ℕ). ltb 0 p.1)
        (take s.num_experts_used (sort higher (frequencies m (range_from 0 s.num_experts_total)))))

-- One layer: its experts are noted as selected, and loaded.
unfoldable pub warm_layer : PrefetchState → ℕ → List ℕ → Option PrefetchState
unfolding ensure_experts_loaded
warm_layer s layer_idx [] = some s
warm_layer s layer_idx (e ∷ es) =
    ensure_experts_loaded
      (record s { selected_experts = insert layer_idx (e ∷ es) s.selected_experts }) layer_idx
      (e ∷ es)

unfoldable pub warm_each : PrefetchState → List ℕ → Option PrefetchState
unfolding warm_layer top_experts
warm_each s [] = some s
warm_each s (l ∷ ls) =
    let counts = s.co_activation.layer_counts in
    elim (warm_layer s l
      (if leb (length counts) l then [] else top_experts s (get_or counts l []))) [
        | none ↦ none
        | some s' ↦ warm_each s' ls
      ]

unfoldable pub warm_cache_from_coactivation : PrefetchState → Option PrefetchState
unfolding warm_each
warm_cache_from_coactivation s =
    if has_data s.co_activation then warm_each s (keys s.expert_layouts) else some s
