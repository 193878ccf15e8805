-- ===== src/Lib.antt =====
-- Verification of hypura, a program that runs language models larger than the machine's memory: it
-- keeps part of a model's tensors on the GPU and in memory, and reads the rest from the drive while
-- the model runs.
--
-- The parts, and how they interact. The parser reads a model file's header: metadata, and the
-- names, shapes and places of the tensors. Placement gives each tensor a role, a score and a tier,
-- out of what the machine has beside the KV cache; the prefetch schedule says when the tensors on
-- the drive are read. At run time a cache remembers which slices of experts are loaded, a pool
-- hands out the slots of a small buffer to the layers, and a matrix counts which experts fire
-- together. A session records where llama.cpp puts the tensors, builds the state of the layers, and
-- starts workers that read layers from the drive; ggml calls back before and after each node of the
-- graph, and the callback waits for the layer, releases the one before and asks for later ones. From
-- the counts, `hypura optimize` stores the experts in another order, which the
-- loader undoes when it looks an expert up.
--
-- Which file models which part. Functions keep their names; a method takes its object first and
-- returns the new one.
--   * Model/Gguf: src/model/gguf.rs. Bytes are numbers below 256, a reader is the bytes that are
--     left and the position; an error is a value. An array nests, so that the parser runs on fuel:
--     the number of bytes and one more.
--   * Model/Role: src/model/tensor_role.rs.
--   * Cache/Neuron: src/cache/neuron_cache.rs. The counts of hits and misses do not wrap.
--   * Cache/Coactivation: src/cache/coactivation.rs, without its file. A matrix that `new` made
--     has no index out of range. In one from a file with rows of other lengths the program panics
--     at such an index, which is passed over here.
--   * Cache/Kv: src/cache/kv_cache.rs. The engine's memory is a parameter, and its documented
--     behaviour is the hypothesis `IsEngine`. Positions are below 2^31, so that a position is the
--     same number in the engine's signed words.
--   * Io/Layout: src/io/expert_layout.rs, and the inverse of a stored order in
--     `build_prefetch_state` of src/compute/nvme_backend.rs.
--   * Cli/Optimize: the rewriting of one tensor in `run` of src/cli/optimize.rs, and
--     `compute_optimal_expert_order`. An index out of range is `none`.
--   * Compute/Pool: `ExpertPool` of src/compute/nvme_backend.rs. A panic is `none`; the calls
--     of `madvise` are a log in the state.
--   * Compute/Prefetch: `PrefetchState`, `IoPool` and `io_worker` of
--     src/compute/nvme_backend.rs. The workers' tasks are a list, of which a worker finishes any one;
--     shared counters are places in a list. A call that waits runs the workers, task by task, until
--     the layer is loaded: the tasks that are left are enough rounds, since each round finishes one;
--     `none` is a wait that no task can end, or a panic. State and Load are the state and its
--     calls, Experts and Dense those of the streaming modes; Waits, Progress and Streams
--     are about waits, Steps about calls and workers in any order, Refines about what is read.
--   * Compute/Callback: `eval_callback` and what it calls, in src/compute/nvme_backend.rs.
--   * Compute/Controller: `HypuraBuftController` and `build_override_patterns` of
--     src/compute/nvme_backend.rs. The functions of the custom buffer and `mmap` are parameters.
--   * Compute/Session: `gpu_layers_from_placement` and the set-up in
--     `generate_with_nvme_scheduling` of src/compute/inference.rs, and
--     `warm_cache_from_coactivation`.
--   * Compute/Stale: two runs of `PrefetchState` that return too early.
--   * Model/Metadata: src/model/metadata.rs.
--   * Compute/Budget: `compute_gpu_budget` of src/compute/inference.rs.
--   * Scheduler/Types: src/scheduler/types.rs.
--   * Scheduler/Placement, Scheduler/Summary and Scheduler/Plan: src/scheduler/placement.rs; the plan
--     takes the solver's solution in `lp_assign` as a parameter.
--   * Scheduler/Prefetch: src/scheduler/prefetch.rs.
--   * Scheduler/Estimator: src/scheduler/estimator.rs.
--   * Prelude: lists, dictionaries, text, sorting and machine words, which the parts share.
--
-- Numbers. Machine words wrap around as in a release build (Prelude/Machine). Floating-point numbers
-- are a parameter with the operations that the program uses and no laws (Prelude/Float): nothing
-- proved depends on rounding. A decimal literal is the quotient of two whole numbers.
--
-- Order. A dictionary keeps its entries in the order of their first insertion, where the program's
-- hash maps have none; what is read from the drive after a crash of a worker is not modelled, and a
-- worker's read and its countdown are one step. Before a wait the workers finish tasks in any order;
-- within a wait, in the order of the queue.
--
-- Time. What a read takes is not measured: `load_time_ns` stays 0, so that the lookahead of the
-- default mode sees the bandwidth that the program takes for granted.
--
-- Not modelled: the linear program that `lp_assign` of src/scheduler/placement.rs states for a solver
-- of another package; the decoding, the sampling and the summary of the trace in src/compute; the
-- engine's bindings, the profiler, the server, the telemetry, and what the commands print. These call
-- foreign code or the operating system, or print.
pub mod Prelude
pub mod Model
pub mod Io
pub mod Cache
pub mod Scheduler
pub mod Compute
pub mod Cli
