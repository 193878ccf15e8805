-- ===== src/Compute/Prefetch/Streams.antt =====
-- The loads of the streaming modes end as well.
use package.hypura.Prelude.{
  ℕ, true, Option, none, some, List, ◌∷◌, ◌++◌, ◌≡◌, inl, inr, arith, Bool-cases,
}
use package.hypura.Prelude.Keys.{nat_eq}
use package.hypura.Prelude.Dict.{lookup, lookup-insert}
use package.hypura.Io.Layout.{ExpertLayout}
use package.hypura.Compute.Prefetch.{
  loading, loaded, Region, IoState, set_status, status_of, submit, layer_hit, layer_stall,
}
use package.hypura.Compute.Prefetch.Waits.{IsSound, Started, wait_loaded-loaded}
use package.hypura.Compute.Prefetch.Submit.{
  submit-IsSound, record_event-IsSound, freed-IsSound, submit_form,
}
use package.hypura.Compute.Prefetch.State.{PrefetchState, trace_event}
use package.hypura.Compute.Prefetch.Load.{with_status, expert_tasks, submit_or_set}
use package.hypura.Compute.Prefetch.Progress.{Begun, submit_or_set-Begun}
use package.hypura.Compute.Prefetch.Experts.{
  load_and_wait, then_stall, submit_expert_load_with_status, load_in_place, ensure_experts_loaded,
  evicted_pages, any_missing,
}

-- The outcome of a call that returned with the layer loaded.
abbrev pub LoadedAfter : Option PrefetchState → ℕ → Type 0
LoadedAfter o l =
    (s' : PrefetchState) × (o ≡ some s') × IsSound s'.io × (status_of s'.io l ≡ some loaded)

submit_loading-Started :
    {s : IoState}
    → IsSound s
    → (l base : ℕ) (rs : List (List Region))
    → Started (submit (set_status s l loading) l true base rs) l
submit_loading-Started {s} inv l base rs = inl (
    ground (
      arith,
      submit_form (set_status s l loading) inv.pool inv.running inv.workers l base true rs,
      lookup-insert l l loading s.layer_status,
    ))

-- A load of at least one task that is waited for returns; only the workers' state changes.
pub load_and_wait-loaded :
    (s : PrefetchState) (l base : ℕ) (r : List Region) (rs : List (List Region))
    → IsSound s.io
    → (io : IoState) × (load_and_wait s l base (r ∷ rs) ≡ some (record s { io = io }))
      × IsSound io
      × (status_of io l ≡ some loaded)
unfolding load_and_wait
load_and_wait-loaded s l base r rs inv =
    let (io, e, inv', st) =
      wait_loaded-loaded l (submit (set_status s.io l loading) l true base (r ∷ rs))
        (submit-IsSound inv l base r rs) (submit_loading-Started inv l base (r ∷ rs)) in
    (io, ground (arith, e), inv', st)

pub then_stall-loaded :
    (o : Option PrefetchState) (l : ℕ) → LoadedAfter o l → LoadedAfter (then_stall o l) l
then_stall-loaded o l (s', e, inv, st) = (
  trace_event s' (layer_stall l),
  ground (arith, e),
  record_event-IsSound inv (layer_stall l),
  ground (arith, st),
)

submit_expert_load_with_status_lem :
    (s : PrefetchState) (l base : ℕ) (ids : List ℕ) (layouts : List ExpertLayout)
    → s.buffer_base ≡ some base
    → lookup l s.expert_layouts ≡ some layouts
    → submit_expert_load_with_status s l ids
      ≡ submit_or_set
          (record s {
            neuron_cache = (expert_tasks s l layouts ids).cache;
            io = record s.io {
              freed = evicted_pages s base (expert_tasks s l layouts ids).evicted ++ s.io.freed;
            };
          })
          l
          base
          (expert_tasks s l layouts ids).task_regions
unfolding submit_expert_load_with_status
submit_expert_load_with_status_lem s l base ids layouts e here = ground (arith, e, here)

-- With a buffer and a running pool, the load of experts into the main buffer returns.
pub load_in_place-loaded :
    (s : PrefetchState) (l base : ℕ) (ids : List ℕ) (layouts : List ExpertLayout)
    → s.buffer_base ≡ some base
    → lookup l s.expert_layouts ≡ some layouts
    → IsSound s.io
    → LoadedAfter (load_in_place s l ids) l
unfolding load_in_place
load_in_place-loaded s l base ids layouts e here inv =
    let t = expert_tasks (with_status s l loading) l layouts ids in
    let s1 : PrefetchState = record s {
      neuron_cache = t.cache;
      io = record s.io {
        freed = evicted_pages (with_status s l loading) base t.evicted ++ s.io.freed;
      };
    } in
    let begun : Begun (submit_or_set (with_status s1 l loading) l base t.task_regions) l =
      submit_or_set-Begun s1 l base t.task_regions (freed-IsSound inv _) in
    let (io, runs, inv', st) =
      wait_loaded-loaded l (submit_or_set (with_status s1 l loading) l base t.task_regions).io
        begun.0 begun.1 in
    (
      record (submit_or_set (with_status s1 l loading) l base t.task_regions) { io = io },
      ground (
        arith,
        runs,
        submit_expert_load_with_status_lem (with_status s l loading) l base ids layouts e here,
      ),
      inv',
      st,
    )

-- With a buffer and a running pool, and no pool of slots, `ensure_experts_loaded` returns.
pub ensure_experts_loaded-IsSound :
    (s : PrefetchState) (l eid base : ℕ) (ids : List ℕ) (layouts : List ExpertLayout)
    → s.buffer_base ≡ some base
    → lookup l s.expert_layouts ≡ some layouts
    → s.expert_pool ≡ none
    → IsSound s.io
    → (s' : PrefetchState) × (ensure_experts_loaded s l (eid ∷ ids) ≡ some s') × IsSound s'.io
unfolding ensure_experts_loaded
ensure_experts_loaded-IsSound s l eid base ids layouts e here no_pool inv =
    let seen = (any_missing l (eid ∷ ids) layouts s.neuron_cache).0 in
    let s1 : PrefetchState = record s { neuron_cache = seen } in
    elim (Bool-cases (any_missing l (eid ∷ ids) layouts s.neuron_cache).1) [
      | inl h ↦
          let (s', runs, inv', st) =
            then_stall-loaded _ l (load_in_place-loaded s1 l base (eid ∷ ids) layouts e here inv) in
          (s', ground (arith, here, no_pool, h, runs), inv')
      | inr h ↦ (
        trace_event s1 (layer_hit l),
        ground (arith, here, no_pool, h),
        record_event-IsSound inv (layer_hit l),
      )
    ]
