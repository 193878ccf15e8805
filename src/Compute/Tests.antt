-- ===== src/Compute/Tests.antt =====
-- The prefetch state machine, its controller and the session, run on a small file.
use package.hypura.Prelude.{
  ℕ, zero, suc, ◌≤◌, ◌<◌, Bool, false, Option, none, some, List, [], ◌∷◌, map, All, ◌≡◌, refl,
  length, arith, leb, ◌&&◌,
}
use package.hypura.Prelude.Keys.{nat_eq, contains, Distinct}
use package.hypura.Prelude.Dict.{lookup}
use package.hypura.Prelude.Text.{codes, text_eq, text_beq}
use package.hypura.Scheduler.Samples.{whole}
use package.hypura.Scheduler.Types.{nvme, full_streaming}
use package.hypura.Compute.Samples.{
  full_pread, file, up_1, loaded_controller, regions_0, idle, running, with_experts, fused_1,
}
use package.hypura.Compute.Prefetch.{
  IoPool, new as new_pool, Region, IoState, io_worker, status_of, loaded, loading, pread_region,
  start_io_pool, layer,
}
use package.hypura.Compute.Prefetch.State.{PrefetchState}
use package.hypura.Compute.Prefetch.Load.{ensure_layer_loaded, whole_layer, request_prefetch}
use package.hypura.Compute.Prefetch.Waits.{IsSound, io_worker-IsSound}
use package.hypura.Compute.Prefetch.Whole.{whole_layer_lem, copy, copy-pread_region, concat}
use package.hypura.Compute.Prefetch.Refines.{LayerRead, ensure_layer_loaded-LayerRead}
use package.hypura.Compute.Prefetch.Steps.{ensure_layer_loaded-none}
use package.hypura.Compute.Prefetch.Progress.{request_prefetch-Ready}
use package.hypura.Compute.Prefetch.Streams.{ensure_experts_loaded-IsSound}
use package.hypura.Compute.Prefetch.Experts.{ensure_experts_loaded}
use package.hypura.Compute.Prefetch.Dense.Placed.{Placed}
use package.hypura.Compute.Callback.{GgmlTensor, eval_callback}
use package.hypura.Compute.Callback.Names.{
  regex_escape, parse_layer_from_graph_name, parse_layer_from_name,
}
use package.hypura.Compute.Callback.Router.{
  RouterTensor, intercept_router_output, intercept_router_output-Ascending, Ascending, read_ids,
  token_ids, top_k,
}
use package.hypura.Compute.Callback.Cold.{before_experts_cold}
use package.hypura.Compute.Callback.Streaming.{before_experts}
use package.hypura.Compute.Callback.Returns.{Returns}
use package.hypura.Compute.Controller.{new, on_tensor_loaded_cb}
use package.hypura.Compute.Controller.Build.{build_prefetch_state}
use package.hypura.Compute.Controller.Ready.{started, fresh-IsSound, Run, session_returns}
use package.hypura.Compute.Controller.Patterns.{
  standard_patterns, standard_patterns-layers, layer_pattern, has_tensor, exact_pattern,
}
use package.hypura.Compute.Controller.Patterns.Matching.{matches, matches-exact_pattern}
use package.hypura.Compute.Session.Layers.{Tiers, is_streamed, gpu_layers_from_placement}
use package.hypura.Compute.Session.Layers.Bounds.{gpu_layers_from_placement-le}

running-IsSound : IsSound running.io
unfolding running idle start_io_pool
running-IsSound = fresh-IsSound ((0, regions_0) ∷ []) 2 full_pread (omega arith)

-- A request for layer 0: two tasks wait.
abbrev requested : PrefetchState
unfolding request_prefetch
requested = request_prefetch running (layer 0)

requested_tasks : (length requested.io.tasks ≡ 2) × (status_of requested.io 0 ≡ some loading)
unfolding requested request_prefetch running idle start_io_pool
requested_tasks = (refl, refl)

-- The second task finishes first.
abbrev one_left : Option IoState
unfolding io_worker requested
one_left = io_worker 1 requested.io

abbrev or_idle : Option IoState → IoState
or_idle none = idle.io
or_idle (some s) = s

io_worker-IsSound_example : IsSound (or_idle one_left)
unfolding io_worker requested one_left request_prefetch running idle start_io_pool
io_worker-IsSound_example =
    io_worker-IsSound (request_prefetch-Ready running (layer 0) 65536 (refl, running-IsSound)).1 1
      refl

loads_layer_0 :
    (s : PrefetchState) × (ensure_layer_loaded running 0 ≡ some s)
    × (length s.io.reads ≡ 3)
    × (status_of s.io 0 ≡ some loaded)
unfolding ensure_layer_loaded running idle start_io_pool
loads_layer_0 = (_, refl, refl, refl)

abbrev slot : Region
slot = record { offset = 0; size = 64; file_offset = 4096 }

whole_layer_lem_example :
    (concat (whole_layer regions_0 2) ≡ regions_0) × (length (whole_layer regions_0 2) ≤ 2)
whole_layer_lem_example =
    whole_layer_lem slot
      (record { offset = 64; size = 128; file_offset = 4160 }
        ∷ record { offset = 192; size = 32; file_offset = 4288 }
        ∷ [])
      1

copy-pread_region_example :
    copy (λ at. at) (pread_region full_pread 65536 slot) (λ a. 0) 65540 ≡ 4100
copy-pread_region_example =
    copy-pread_region full_pread 8192 (λ at want h g. (h, omega arith)) (λ at. at) 65536 slot
      (λ a. 0) 65540 (omega arith)

abbrev two_workers : IoPool
two_workers = record { num_workers = 2; bytes_loaded = 0; load_time_ns = 0; pread = full_pread }

ensure_experts_loaded-IsSound_example :
    (s : PrefetchState) × (ensure_experts_loaded with_experts 1 (3 ∷ 5 ∷ []) ≡ some s)
    × IsSound s.io
unfolding with_experts running idle start_io_pool
ensure_experts_loaded-IsSound_example =
    ensure_experts_loaded-IsSound with_experts 1 3 65536 (5 ∷ []) (fused_1 ∷ []) refl refl refl
      running-IsSound

ensure_layer_loaded-none_example : ensure_layer_loaded (record idle { buffer_base = none }) 0 ≡ none
unfolding idle
ensure_layer_loaded-none_example =
    ensure_layer_loaded-none (record idle { buffer_base = none }) 0 refl refl (λ e. cc)

names :
    (parse_layer_from_graph_name (codes "ffn_moe_argsort-12") ≡ some 12)
    × (parse_layer_from_name (codes "blk.15.ffn_gate.weight") ≡ some 15)
    × (parse_layer_from_name (codes "token_embd.weight") ≡ none)
    × (regex_escape (codes "blk.0.attn_q.weight") ≡ codes "blk\\.0\\.attn_q\\.weight")
unfolding parse_layer_from_graph_name parse_layer_from_name regex_escape
names = (refl, refl, refl, refl)

matches-exact_pattern_example :
    matches (exact_pattern (codes "blk.0.attn_q")) (codes "blk.0_attn_q") ≡ some false
unfolding text_beq
matches-exact_pattern_example = matches-exact_pattern (codes "blk.0.attn_q") (codes "blk.0_attn_q")

-- The router's indices for one token: 5, 2, -1 and 5.
abbrev indices : ℕ → Option ℕ
indices zero = some 5
indices (suc zero) = some 2
indices (suc (suc n)) = none

abbrev argsort : RouterTensor
argsort = record { ne0 = 8; ne1 = 1; at_place = some indices }

intercept_router_output-Ascending_example :
    (ids : List ℕ) × (lookup 1 (intercept_router_output with_experts argsort 1).selected_experts
      ≡ some ids)
    × Ascending ids
    × All (λ e. e < 8) ids
    × ((e : ℕ) → contains e ids ≡ contains e (read_ids with_experts argsort indices))
unfolding with_experts running idle start_io_pool read_ids token_ids top_k
intercept_router_output-Ascending_example =
    intercept_router_output-Ascending with_experts argsort 1 indices refl (λ e. cc) (λ e. cc)

before_experts_cold_example : before_experts with_experts 1 ≡ ensure_layer_loaded with_experts 1
unfolding with_experts running idle
before_experts_cold_example = before_experts_cold with_experts 1 (fused_1 ∷ []) refl refl

session_returns_example :
    let built =
      started (build_prefetch_state loaded_controller file 2 (1 ∷ []) [] none) 2 full_pread in
    ((x : Option GgmlTensor) (ask : Bool)
      → built.expert_streaming ≡ false
      → built.dense_ffn_streaming ≡ false
      → Returns (eval_callback whole x ask built) 65536)
    × ((l : ℕ)
        → (u : PrefetchState) × (ensure_layer_loaded built l ≡ some u)
          × (status_of u.io l ≡ some loaded))
unfolding loaded_controller on_tensor_loaded_cb new started build_prefetch_state
session_returns_example =
    session_returns whole loaded_controller file 2 (1 ∷ []) [] none 2 65536 full_pread _ refl
      (omega arith) Run.begun

standard_patterns-layers_example :
    (ls : List ℕ) × (standard_patterns 1 file.tensors ≡ map layer_pattern ls)
    × Distinct ls
    × ((l : ℕ) → contains l ls ≡ (leb 1 l && has_tensor l file.tensors))
standard_patterns-layers_example = standard_patterns-layers 1 file.tensors

abbrev tiers : Tiers
tiers = (codes "blk.1.ffn_up.weight", nvme) ∷ []

gpu_layers_from_placement-le_example : gpu_layers_from_placement full_streaming tiers file 1000 ≤ 2
unfolding is_streamed
gpu_layers_from_placement-le_example =
    gpu_layers_from_placement-le full_streaming tiers file 1000 2 1 up_1 (λ e. cc) refl refl refl
      refl

ensure_layer_loaded-LayerRead_example :
    LayerRead (ensure_layer_loaded running 0) running 0 65536 two_workers regions_0
unfolding running idle start_io_pool new_pool
ensure_layer_loaded-LayerRead_example =
    ensure_layer_loaded-LayerRead running 0 65536 two_workers slot
      (record { offset = 64; size = 128; file_offset = 4160 }
        ∷ record { offset = 192; size = 32; file_offset = 4288 }
        ∷ [])
      (record {
        base_known = refl;
        pool_runs = refl;
        workers = omega arith;
        no_task = refl;
        not_started = ((λ e. cc), (λ e. cc));
        regions = refl;
        unselected = refl;
      })
