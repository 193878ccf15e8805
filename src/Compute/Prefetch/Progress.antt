-- ===== src/Compute/Prefetch/Progress.antt =====
-- Every wait for a layer ends, whichever calls and whichever workers ran before it.
mod Begins
unfoldable pub use Begins.*
use package.hypura.Prelude.{
  ℕ, true, false, Option, none, some, List, [], ◌∷◌, ◌≡◌, refl, ◌∙◌, ◌≢◌, ◌⊎◌, inl, inr, arith,
  Option-cases,
}
use package.hypura.Prelude.Keys.{nat_eq}
use package.hypura.Prelude.Dict.{lookup, lookup-insert}
use package.hypura.Cache.Neuron.{evict_layer}
use package.hypura.Io.Layout.{ExpertLayout}
use package.hypura.Compute.Prefetch.{
  LayerStatus, not_loaded, loading, loaded, PrefetchRequest, layer, expert_slices, Region, IoState,
  IoPool, set_status, status_of, submit, layer_hit, layer_stall, released,
}
use package.hypura.Compute.Prefetch.Waits.{IsSound, Started, wait_loaded-loaded}
use package.hypura.Compute.Prefetch.Submit.{
  set_status-IsSound, set_loaded-IsSound, submit-IsSound, submit_quiet-IsSound,
  record_event-IsSound, freed-IsSound, submit_form,
}
use package.hypura.Compute.Prefetch.State.{PrefetchState, trace_event}
use package.hypura.Compute.Prefetch.Load.{
  submit_or_set, layer_tasks, submit_layer_load, submit_silent, expert_tasks, submit_expert_load,
  await, ensure_layer_loaded, release_layer, request_prefetch, with_status, prefetch_each,
  free_regions,
}

await-loaded :
    (s : PrefetchState) (l : ℕ)
    → Begun s l
    → (s' : PrefetchState) × (await s l ≡ some s')
      × (s'.buffer_base ≡ s.buffer_base)
      × IsSound s'.io
      × (status_of s'.io l ≡ some loaded)
unfolding await
await-loaded s l h =
    let (io, e, inv, st) = wait_loaded-loaded l s.io h.0 h.1 in
    (
      trace_event (record s { io = io }) (layer_stall l),
      ground (arith, e),
      refl,
      record_event-IsSound inv (layer_stall l),
      ground (arith, st),
    )

status_cases :
    (o : Option LayerStatus)
    → (o ≡ some loaded) ⊎ ((o ≡ some loading) ⊎ ((o ≢ some loaded) × (o ≢ some loading)))
status_cases o = ground arith

-- With a buffer and a running pool, `ensure_layer_loaded` returns, and the layer is loaded.
pub ensure_layer_loaded-loaded :
    (s : PrefetchState) (l base : ℕ)
    → s.buffer_base ≡ some base
    → IsSound s.io
    → (s' : PrefetchState) × (ensure_layer_loaded s l ≡ some s')
      × Ready s' base
      × (status_of s'.io l ≡ some loaded)
unfolding ensure_layer_loaded
ensure_layer_loaded-loaded s l base e inv = elim (status_cases (status_of s.io l)) [
  | inl e0 ↦ (
    trace_event s (layer_hit l),
    ground (arith, e0),
    (e, record_event-IsSound inv (layer_hit l)),
    ground (arith, e0),
  )
  | inr (inl e0) ↦
      let (s', runs, same, inv', st) = await-loaded s l (inv, inl e0) in
      (
        trace_event s' (layer_hit l),
        ground (arith, e0, runs),
        (same ∙ e, record_event-IsSound inv' (layer_hit l)),
        ground (arith, st),
      )
  | inr (inr e0) ↦
      let (s', runs, same, inv', st) =
        await-loaded (submit_layer_load (with_status s l loading) l) l
          (submit_layer_load-Begun s l base e inv) in
      (
        s',
        ground (arith, e0, runs),
        (same ∙ (submit_layer_load-Ready s l base (e, inv)).0, inv'),
        st,
      )
]

submit_silent-Ready :
    (s : PrefetchState) (l base b : ℕ) (rs : List (List Region))
    → Ready s base
    → Ready (submit_silent s l b rs) base
unfolding submit_silent
submit_silent-Ready s l base b [] h = h
submit_silent-Ready s l base b (r ∷ rs) (e, inv) = (e, submit_quiet-IsSound inv l b false (r ∷ rs))

submit_expert_load-Ready :
    (s : PrefetchState) (l base : ℕ) (ids : List ℕ)
    → Ready s base
    → Ready (submit_expert_load s l ids) base
unfolding submit_expert_load
submit_expert_load-Ready s l base ids (e, inv) = elim (Option-cases (lookup l s.expert_layouts)) [
  | inl none_there ↦ rw (same none_there) (e, inv)
  | inr (xs, there) ↦ rw (loads xs there) (
      submit_silent-Ready (record s { neuron_cache = (expert_tasks s l xs ids).cache }) l base base
        (expert_tasks s l xs ids).task_regions (e, inv))
]
  where
    same : lookup l s.expert_layouts ≡ none → submit_expert_load s l ids ≡ s
    same h = ground (arith, h)

    loads :
        (xs : List ExpertLayout)
        → lookup l s.expert_layouts ≡ some xs
        → submit_expert_load s l ids
          ≡ submit_silent
              (record s { neuron_cache = (expert_tasks s l xs ids).cache })
              l
              base
              (expert_tasks s l xs ids).task_regions
    loads xs h = ground (arith, h, e)

pub request_prefetch-Ready :
    (s : PrefetchState) (r : PrefetchRequest) (base : ℕ)
    → Ready s base
    → Ready (request_prefetch s r) base
unfolding request_prefetch
request_prefetch-Ready s (expert_slices l ids) base h = submit_expert_load-Ready s l base ids h
request_prefetch-Ready s (layer l) base h = elim (status_cases (status_of s.io l)) [
  | inl e0 ↦ rw (unchanged (inl e0)) h
  | inr (inl e0) ↦ rw (unchanged (inr e0)) h
  | inr (inr e0) ↦ rw (loads e0.0 e0.1) (submit_layer_load-Ready s l base h)
]
  where
    unchanged :
        (status_of s.io l ≡ some loaded) ⊎ (status_of s.io l ≡ some loading)
        → request_prefetch s (layer l) ≡ s
    unchanged e0 = ground (arith, e0)

    loads :
        status_of s.io l ≢ some loaded
        → status_of s.io l ≢ some loading
        → request_prefetch s (layer l) ≡ submit_layer_load (with_status s l loading) l
    loads a b = ground (arith, a, b)

pub prefetch_each-Ready :
    (s : PrefetchState) (ls : List ℕ) (base : ℕ) → Ready s base → Ready (prefetch_each s ls) base
unfolding prefetch_each
prefetch_each-Ready s [] base h = h
prefetch_each-Ready s (l ∷ ls) base h =
    prefetch_each-Ready (request_prefetch s (layer l)) ls base
      (request_prefetch-Ready s (layer l) base h)

pub release_layer-Ready :
    (s : PrefetchState) (l base : ℕ) → Ready s base → Ready (release_layer s l) base
unfolding release_layer
release_layer-Ready s l base (e, inv) = elim (Option-cases (lookup l s.layer_regions)) [
  | inl absent ↦ rw (same absent) (e, inv)
  | inr (rs, there) ↦ rw (frees rs there) (
    e,
    record_event-IsSound
        (set_status-IsSound (freed-IsSound inv (free_regions base rs s.io.freed)) l not_loaded
          (λ q. cc))
        (released l),
  )
]
  where
    same : lookup l s.layer_regions ≡ none → release_layer s l ≡ s
    same h = ground (arith, h)

    frees :
        (rs : List Region)
        → lookup l s.layer_regions ≡ some rs
        → release_layer s l
          ≡ trace_event
              (with_status
                (record s {
                  io = record s.io { freed = free_regions base rs s.io.freed };
                  neuron_cache = evict_layer s.neuron_cache l;
                })
                l
                not_loaded)
              (released l)
    frees rs h = ground (arith, h, e)

-- A call that returns has left the buffer where it was.
pub ensure_layer_loaded_base :
    (s s' : PrefetchState) (l base : ℕ)
    → Ready s base
    → ensure_layer_loaded s l ≡ some s'
    → Ready s' base
ensure_layer_loaded_base s s' l base (e, inv) runs =
    let (t, same, ready, st) = ensure_layer_loaded-loaded s l base e inv in
    let agree : s' ≡ t = cc in rw agree ready
