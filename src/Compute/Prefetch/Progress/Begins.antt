-- ===== src/Compute/Prefetch/Progress/Begins.antt =====
-- A load that begins: its layer is on its way, and the counters are right.
use package.hypura.Prelude.{ℕ, true, some, List, [], ◌∷◌, ◌≡◌, refl, inl, inr, arith}
use package.hypura.Prelude.Keys.{nat_eq}
use package.hypura.Prelude.Dict.{lookup-insert}
use package.hypura.Compute.Prefetch.{
  LayerStatus, loading, loaded, Region, IoState, IoPool, set_status, status_of, submit,
}
use package.hypura.Compute.Prefetch.Waits.{IsSound, Started}
use package.hypura.Compute.Prefetch.Submit.{set_loaded-IsSound, submit-IsSound, submit_form}
use package.hypura.Compute.Prefetch.State.{PrefetchState}
use package.hypura.Compute.Prefetch.Load.{
  submit_or_set, layer_tasks, submit_layer_load, with_status,
}

-- What a load leaves: counters that are right, and the layer on its way.
abbrev pub Begun : PrefetchState → ℕ → Type 0
Begun s l = IsSound s.io × Started s.io l

pub Started_loading :
    (s : IoState) (l : ℕ) (st : LayerStatus) → status_of (set_status s l st) l ≡ some st
Started_loading s l st = ground (arith, lookup-insert l l st s.layer_status)

submit_or_set_pool :
    (s : PrefetchState) (l base : ℕ) (r : List Region) (rs : List (List Region)) (p : IoPool)
    → s.io.io_pool ≡ some p
    → submit_or_set s l base (r ∷ rs) ≡ record s { io = submit s.io l true base (r ∷ rs) }
unfolding submit_or_set
submit_or_set_pool s l base r rs p e = ground (arith, e)

pub submit_or_set-Begun :
    (s : PrefetchState) (l base : ℕ) (rs : List (List Region))
    → IsSound s.io
    → Begun (submit_or_set (with_status s l loading) l base rs) l
unfolding submit_or_set
submit_or_set-Begun s l base [] inv =
    (set_loaded-IsSound inv l, inr (Started_loading (set_status s.io l loading) l loaded))
submit_or_set-Begun s l base (r ∷ rs) inv =
    rw (submit_or_set_pool (with_status s l loading) l base r rs inv.pool inv.running) (
      submit-IsSound inv l base r rs,
      inl (
          ground (
            arith,
            submit_form (set_status s.io l loading) inv.pool inv.running inv.workers l base true
                (r ∷ rs),
            Started_loading s.io l loading,
          )),
    )

-- With a buffer, the load of a layer that was marked begins.
pub submit_layer_load_base :
    (s : PrefetchState) (l base : ℕ)
    → s.buffer_base ≡ some base
    → submit_layer_load s l
      ≡ submit_or_set
          (record s { neuron_cache = (layer_tasks s l).cache })
          l
          base
          (layer_tasks s l).task_regions
unfolding submit_layer_load
submit_layer_load_base s l base e = ground (arith, e)

pub submit_layer_load-Begun :
    (s : PrefetchState) (l base : ℕ)
    → s.buffer_base ≡ some base
    → IsSound s.io
    → Begun (submit_layer_load (with_status s l loading) l) l
unfolding submit_layer_load
submit_layer_load-Begun s l base e inv =
    rw (submit_layer_load_base (with_status s l loading) l base e) (
      submit_or_set-Begun
        (record s { neuron_cache = (layer_tasks (with_status s l loading) l).cache }) l base
        (layer_tasks (with_status s l loading) l).task_regions inv)

-- A buffer and sound counters.
abbrev pub Ready : PrefetchState → ℕ → Type 0
Ready s base = (s.buffer_base ≡ some base) × IsSound s.io

pub submit_or_set_base :
    (s : PrefetchState) (l base : ℕ) (rs : List (List Region))
    → (submit_or_set s l base rs).buffer_base ≡ s.buffer_base
unfolding submit_or_set
submit_or_set_base s l base [] = refl
submit_or_set_base s l base (r ∷ rs) = ground arith

pub submit_layer_load-Ready :
    (s : PrefetchState) (l base : ℕ)
    → Ready s base
    → Ready (submit_layer_load (with_status s l loading) l) base
submit_layer_load-Ready s l base (e, inv) = (
  ground (
    arith,
    e,
    submit_layer_load_base (with_status s l loading) l base e,
    submit_or_set_base
        (record (with_status s l loading) {
          neuron_cache = (layer_tasks (with_status s l loading) l).cache;
        })
        l base (layer_tasks (with_status s l loading) l).task_regions,
  ),
  (submit_layer_load-Begun s l base e inv).0,
)
