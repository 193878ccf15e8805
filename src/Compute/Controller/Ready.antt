-- ===== src/Compute/Controller/Ready.antt =====
-- A state that was built, once its pool runs, lets no call wait forever.
use package.hypura.Prelude.{
  ℕ, ◌<◌, Bool, false, Option, some, List, [], ◌∷◌, map, ◌≡◌, refl, ◌≢◌, arith,
}
use package.hypura.Prelude.Keys.{nat_eq}
use package.hypura.Prelude.Dict.{Dict, lookup}
use package.hypura.Prelude.Float.{F64}
use package.hypura.Model.Gguf.{GgufFile}
use package.hypura.Cache.Coactivation.{CoActivationMatrix}
use package.hypura.Compute.Prefetch.{
  not_loaded, loaded, loading, Region, start_io_pool, new as new_pool, status_of,
}
use package.hypura.Compute.Prefetch.State.{PrefetchState}
use package.hypura.Compute.Prefetch.Waits.{IsSound}
use package.hypura.Compute.Prefetch.Progress.{Ready, ensure_layer_loaded-loaded}
use package.hypura.Compute.Prefetch.Steps.{Step, Step-Ready}
use package.hypura.Compute.Prefetch.Load.{ensure_layer_loaded}
use package.hypura.Compute.Callback.{GgmlTensor, eval_callback}
use package.hypura.Compute.Callback.Returns.{Returns, eval_callback-Returns}
use package.hypura.Compute.Controller.{HypuraBuftController}
use package.hypura.Compute.Controller.Build.{build_prefetch_state, fresh_io}

fresh_status :
    (l : ℕ) (m : Dict ℕ (List Region))
    → lookup l (map (λ (e : ℕ × List Region). (e.0, not_loaded)) m) ≢ some loading
fresh_status l [] e = cc
fresh_status l ((j, rs) ∷ m) e = ground (arith, fresh_status l m)

-- The pool that the session starts.
unfoldable pub started : PrefetchState → ℕ → (ℕ → ℕ → ℕ) → PrefetchState
unfolding start_io_pool
started s num_workers pread = record s { io = start_io_pool s.io num_workers pread }

pub fresh-IsSound :
    (m : Dict ℕ (List Region)) (n : ℕ) (pread : ℕ → ℕ → ℕ)
    → 0 < n
    → IsSound (start_io_pool (fresh_io m) n pread)
unfolding start_io_pool new_pool
fresh-IsSound m n pread h = record {
  pool = new_pool n pread;
  running = refl;
  workers = h;
  counted = λ k c e. cc;
  known = tt;
  owned = λ l e. absurd (fresh_status l m e);
}

-- A state that is built when the buffer is known, with a pool of at least one worker, has a buffer
-- and sound counters: the calls on it and the callback return.
pub build_prefetch_state-Ready :
    (c : HypuraBuftController) (gguf : GgufFile) (num_layers : ℕ) (nvme : List ℕ)
    (forward : Dict ℕ (List ℕ)) (saved : Option CoActivationMatrix) (n base : ℕ) (pread : ℕ → ℕ → ℕ)
    → c.buffer_base ≡ some base
    → 0 < n
    → Ready (started (build_prefetch_state c gguf num_layers nvme forward saved) n pread) base
unfolding build_prefetch_state started
build_prefetch_state-Ready c gguf num_layers nvme forward saved n base pread e h =
    (e, fresh-IsSound _ n pread h)

-- A session in the default mode: calls, workers' rounds and callbacks in any order.
pub data Run (F : F64) (s : PrefetchState) : PrefetchState → Type 0 where
  begun : Run F s s
  step : {t u : PrefetchState} → Run F s t → Step t u → Run F s u
  visit :
      {t u : PrefetchState} (x : Option GgmlTensor) (ask : Bool)
      → Run F s t
      → t.expert_streaming ≡ false
      → t.dense_ffn_streaming ≡ false
      → eval_callback F x ask t ≡ some u
      → Run F s u

pub Run-Ready : {F : F64} {s t : PrefetchState} {base : ℕ} → Run F s t → Ready s base → Ready t base
Run-Ready begun h = h
Run-Ready (step r st) h = Step-Ready st (Run-Ready r h)
Run-Ready {F} {t = u} {base} (visit {t} x ask r no_experts no_dense e) h =
    let (u', same, ready) =
      eval_callback-Returns F t base no_experts no_dense (Run-Ready r h) x ask in
    let agree : u ≡ u' = cc in rw agree ready

-- From a state that is built when the buffer is known, with a pool of at least one worker: whatever
-- calls, workers' rounds and callbacks ran before, the callback of the default mode returns at any
-- node, and so does a call that waits for a layer, which is then loaded.
pub session_returns :
    (F : F64) (c : HypuraBuftController) (gguf : GgufFile) (num_layers : ℕ) (nvme : List ℕ)
    (forward : Dict ℕ (List ℕ)) (saved : Option CoActivationMatrix) (n base : ℕ) (pread : ℕ → ℕ → ℕ)
    (t : PrefetchState)
    → c.buffer_base ≡ some base
    → 0 < n
    → Run F (started (build_prefetch_state c gguf num_layers nvme forward saved) n pread) t
    → ((x : Option GgmlTensor) (ask : Bool)
        → t.expert_streaming ≡ false
        → t.dense_ffn_streaming ≡ false
        → Returns (eval_callback F x ask t) base)
      × ((l : ℕ)
          → (u : PrefetchState) × (ensure_layer_loaded t l ≡ some u)
            × (status_of u.io l ≡ some loaded))
session_returns F c gguf num_layers nvme forward saved n base pread t e h run =
    let ready =
      Run-Ready run
        (build_prefetch_state-Ready c gguf num_layers nvme forward saved n base pread e h) in
    (
      λ x ask no_experts no_dense. eval_callback-Returns F t base no_experts no_dense ready x ask,
      λ l.
          let (u, runs, ready', st) = ensure_layer_loaded-loaded t l base ready.0 ready.1 in
          (u, runs, st),
    )
