-- ===== src/Compute/Prefetch/Steps.antt =====
-- The calls on a `PrefetchState` and the workers' rounds, in any order.
use package.hypura.Prelude.{ℕ, none, some, [], ◌≡◌, ◌≢◌, arith}
use package.hypura.Prelude.Keys.{nat_eq}
use package.hypura.Prelude.Dict.{lookup-insert}
use package.hypura.Compute.Prefetch.{
  loaded, loading, PrefetchRequest, IoState, io_worker, status_of, wait_rounds, wait_loaded,
}
use package.hypura.Compute.Prefetch.Waits.{io_worker-IsSound}
use package.hypura.Compute.Prefetch.State.{PrefetchState}
use package.hypura.Compute.Prefetch.Load.{
  ensure_layer_loaded, request_prefetch, release_layer, prefetch_all_nvme, await, submit_layer_load,
}
use package.hypura.Compute.Prefetch.Progress.{
  Ready, ensure_layer_loaded-loaded, request_prefetch-Ready, prefetch_each-Ready,
  release_layer-Ready, ensure_layer_loaded_base,
}

-- `worker` is a round of any worker; the other steps are calls that returned.
pub data Step (s : PrefetchState) : PrefetchState → Type 0 where
  worker : (i : ℕ) {io : IoState} → io_worker i s.io ≡ some io → Step s (record s { io = io })
  ensure : (l : ℕ) {s' : PrefetchState} → ensure_layer_loaded s l ≡ some s' → Step s s'
  request : (r : PrefetchRequest) → Step s (request_prefetch s r)
  release : (l : ℕ) → Step s (release_layer s l)
  prefetch_all : Step s (prefetch_all_nvme s)

pub data Reach (s : PrefetchState) : PrefetchState → Type 0 where
  start : Reach s s
  later : {t u : PrefetchState} → Reach s t → Step t u → Reach s u

pub Step-Ready : {s t : PrefetchState} {base : ℕ} → Step s t → Ready s base → Ready t base
unfolding prefetch_all_nvme
Step-Ready (worker i e) h = (h.0, io_worker-IsSound h.1 i e)
Step-Ready {s} {t} {base} (ensure l e) h = ensure_layer_loaded_base s t l base h e
Step-Ready {s} {base} (request r) h = request_prefetch-Ready s r base h
Step-Ready {s} {base} (release l) h = release_layer-Ready s l base h
Step-Ready {s} {base} prefetch_all h = prefetch_each-Ready s s.sorted_nvme_layers base h

pub Reach-Ready : {s t : PrefetchState} {base : ℕ} → Reach s t → Ready s base → Ready t base
Reach-Ready start h = h
Reach-Ready (later r st) h = Step-Ready st (Reach-Ready r h)

-- From a state with a buffer and a pool whose counters are right, whatever calls and workers' rounds
-- come in between, a call of `ensure_layer_loaded` returns, and the layer is loaded.
pub ensure_layer_loaded_returns :
    {s t : PrefetchState} {base : ℕ}
    → Ready s base
    → Reach s t
    → (l : ℕ)
    → (u : PrefetchState) × (ensure_layer_loaded t l ≡ some u) × (status_of u.io l ≡ some loaded)
ensure_layer_loaded_returns {t} {base} h r l =
    let (e, inv) = Reach-Ready r h in
    let (u, runs, ready, st) = ensure_layer_loaded-loaded t l base e inv in (u, runs, st)

-- Before the buffer is known, a call of `ensure_layer_loaded` for a layer that is not loaded waits
-- forever, unless other tasks are under way.
pub ensure_layer_loaded-none :
    (s : PrefetchState) (l : ℕ)
    → s.buffer_base ≡ none
    → s.io.tasks ≡ []
    → status_of s.io l ≢ some loaded
    → ensure_layer_loaded s l ≡ none
unfolding ensure_layer_loaded await submit_layer_load wait_loaded wait_rounds
ensure_layer_loaded-none s l e quiet ne =
    ground (arith, e, quiet, ne, lookup-insert l l loading s.io.layer_status)
