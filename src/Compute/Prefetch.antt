-- ===== src/Compute/Prefetch.antt =====
-- src/compute/nvme_backend.rs: the I/O pool, its tasks and completions, and the status of the
-- layers. A shared `IoCompletion` is named by its place in `completions`, and `tasks` holds the tasks
-- that were sent and that no worker has finished, in the order of the channel. A task is read and
-- counted down in one step. `reads` and `freed` log what pread wrote and what madvise gave up;
-- events carry no times.
pub mod Store
pub mod Waits
pub mod Submit
pub mod State
pub mod Load
pub mod Whole
pub mod Quiet
pub mod Refines
pub mod Progress
pub mod Streams
pub mod Steps
pub mod Experts
pub mod Dense
use package.hypura.Prelude.{
  ℕ, zero, suc, ◌+◌, ◌-◌, ◌<◌, Bool, true, false, not, ◌&&◌, Option, none, some, List, [], ◌∷◌,
  ◌++◌, map, if◌then◌else◌, ltb, length, get_elem?, set,
}
use package.hypura.Prelude.Keys.{◌==◌, nat_eq}
use package.hypura.Prelude.Dict.{Dict, lookup, insert}
use package.hypura.Prelude.Machine.{u64}
use package.hypura.Prelude.Sort.{total}

pub data LayerStatus : Type 0 where
  not_loaded loading loaded : LayerStatus

pub data PrefetchRequest : Type 0 where
  layer : ℕ → PrefetchRequest
  expert_slices : ℕ → List ℕ → PrefetchRequest

-- (offset_in_buffer, size, file_offset)
pub record Region : Type 0 where
  pub offset : ℕ
  pub size : ℕ
  pub file_offset : ℕ

pub record IoCompletion : Type 0 where
  pub remaining : ℕ
  pub layer_idx : ℕ
  pub update_status : Bool

-- `completion` is the place of the shared counter.
pub record IoPoolTask : Type 0 where
  pub regions : List Region
  pub base : ℕ
  pub completion : ℕ

pub data TraceEvent : Type 0 where
  layer_hit layer_stall released : ℕ → TraceEvent
  load_complete : ℕ → ℕ → TraceEvent

-- `num_workers` descriptors of the model file. `pread` is what a descriptor answers to an offset and
-- a length: the number of bytes that it wrote, 0 for the end of the file and for an error.
pub record IoPool : Type 0 where
  pub num_workers : ℕ
  pub bytes_loaded : ℕ
  pub load_time_ns : ℕ
  pub pread : ℕ → ℕ → ℕ

-- An address, the bytes that were read to it, and where in the file they start.
pub record Read : Type 0 where
  pub address : ℕ
  pub bytes : ℕ
  pub from_offset : ℕ

pub record IoState : Type 0 where
  pub io_pool : Option IoPool
  pub layer_status : Dict ℕ LayerStatus
  pub completions : List IoCompletion
  pub tasks : List IoPoolTask
  pub reads : List Read
  pub freed : List (ℕ × ℕ)
  pub trace_enabled : Bool
  pub trace : List TraceEvent

-- `IoPool::new`
unfoldable pub new : ℕ → (ℕ → ℕ → ℕ) → IoPool
new num_workers pread = record {
  num_workers = num_workers;
  bytes_loaded = 0;
  load_time_ns = 0;
  pread = pread;
}

unfoldable pub start_io_pool : IoState → ℕ → (ℕ → ℕ → ℕ) → IoState
unfolding new
start_io_pool s num_workers pread = record s { io_pool = some (new num_workers pread) }

-- The loop of `pread_region` to the address `dst`, with the bytes that are read so far: what each
-- round writes. A round that goes on reads at least one byte, so that `size` rounds are enough.
unfoldable pub pread_rounds : ℕ → (ℕ → ℕ → ℕ) → (dst : ℕ) → Region → (read : ℕ) → List Read
pread_rounds zero pread dst r read = []
pread_rounds (suc fuel) pread dst r read =
    let n = pread (r.file_offset + read) (r.size - read) in
    let more = pread_rounds fuel pread dst r (read + n) in
    if ltb read r.size
    then if n == 0
      then []
      else record { address = dst + read; bytes = n; from_offset = r.file_offset + read } ∷ more
    else []

unfoldable pub pread_region : (ℕ → ℕ → ℕ) → ℕ → Region → List Read
unfolding pread_rounds
pread_region pread base r = pread_rounds r.size pread (base + r.offset) r 0

-- The rounds of one region together.
abbrev pub read_of : (ℕ → ℕ → ℕ) → ℕ → Region → Read
unfolding pread_region
read_of pread base r = record {
  address = base + r.offset;
  bytes = total (λ (x : Read). x.bytes) (pread_region pread base r);
  from_offset = r.file_offset;
}

-- `fetch_sub(1)` on an `AtomicUsize`
abbrev pub fetch_sub : ℕ → ℕ
fetch_sub zero = 18446744073709551615
fetch_sub (suc n) = n

-- The bytes that a worker counts for a task.
unfoldable pub task_bytes : List Region → ℕ → ℕ
unfolding u64
task_bytes [] total = total
task_bytes (r ∷ rs) total = task_bytes rs (u64 (total + r.size))

abbrev pub record_event : IoState → TraceEvent → IoState
record_event s e = if s.trace_enabled then record s { trace = e ∷ s.trace } else s

abbrev pub set_status : IoState → ℕ → LayerStatus → IoState
set_status s layer_idx st = record s { layer_status = insert layer_idx st s.layer_status }

abbrev pub is_loaded : Option LayerStatus → Bool
is_loaded (some loaded) = true
is_loaded _ = false

abbrev pub status_of : IoState → ℕ → Option LayerStatus
status_of s layer_idx = lookup layer_idx s.layer_status

-- What a worker does after its last task of a load.
unfoldable pub complete : IoState → IoCompletion → ℕ → IoState
complete s c total =
    let s' = record_event s (load_complete c.layer_idx total) in
    if c.update_status then set_status s' c.layer_idx loaded else s'

-- A worker's round for a task: it reads the regions, counts the bytes and the load down.
unfoldable pub finish : IoState → IoPool → IoPoolTask → IoState
unfolding task_bytes complete
finish s pool task =
    let s' = record s {
      io_pool =
          some (record pool { bytes_loaded = u64 (pool.bytes_loaded + task_bytes task.regions 0) });
      reads = map (read_of pool.pread task.base) task.regions ++ s.reads;
    } in
    elim (get_elem? s.completions task.completion) [
      | none ↦ s'
      | some c ↦
          let s'' = record s' {
            completions =
                set s.completions task.completion (record c { remaining = fetch_sub c.remaining });
          } in
          if c.remaining == 1 then complete s'' c (task_bytes task.regions 0) else s''
    ]

abbrev pub drop_at {ℓ} : {A : Type ℓ} → ℕ → List A → List A
drop_at i [] = []
drop_at zero (x ∷ xs) = xs
drop_at (suc i) (x ∷ xs) = x ∷ drop_at i xs

-- `io_worker`: the tasks finish in any order, so that `i` says which one does.
unfoldable pub io_worker : ℕ → IoState → Option IoState
unfolding finish
io_worker i s = elim s.io_pool [
  | none ↦ none
  | some pool ↦ elim (get_elem? s.tasks i) [
    | none ↦ none
    | some task ↦ some (finish (record s { tasks = drop_at i s.tasks }) pool task)
  ]
]

-- `for regions in task_regions { tx.send(..) }`; without a worker nobody holds the receiver, and
-- the send fails.
unfoldable pub send_all : IoState → ℕ → ℕ → List (List Region) → IoState
send_all s base completion task_regions = elim s.io_pool [
  | none ↦ s
  | some pool ↦ if pool.num_workers == 0 then s else record s {
    tasks =
        s.tasks
        ++ map (λ regions. record { regions = regions; base = base; completion = completion })
            task_regions;
  }
]

-- A new counter for the tasks of a load, and the tasks sent.
unfoldable pub submit : IoState → ℕ → Bool → ℕ → List (List Region) → IoState
unfolding send_all
submit s layer_idx update_status base task_regions =
    let c : IoCompletion = record {
      remaining = length task_regions;
      layer_idx = layer_idx;
      update_status = update_status;
    } in
    send_all (record s { completions = s.completions ++ (c ∷ []) }) base (length s.completions)
      task_regions

-- The wait for a layer while the workers finish tasks; `none` is a wait that no task can end.
unfoldable pub wait_rounds : ℕ → ℕ → IoState → Option IoState
unfolding io_worker
wait_rounds zero layer_idx s = if is_loaded (status_of s layer_idx) then some s else none
wait_rounds (suc fuel) layer_idx s =
    if is_loaded (status_of s layer_idx)
    then some s
    else elim (io_worker 0 s) [ none ↦ none | some s' ↦ wait_rounds fuel layer_idx s' ]

unfoldable pub wait_loaded : ℕ → IoState → Option IoState
unfolding wait_rounds
wait_loaded layer_idx s = wait_rounds (length s.tasks) layer_idx s

-- The workers empty the channel before they leave it.
unfoldable pub drain : ℕ → IoState → IoState
unfolding io_worker
drain zero s = s
drain (suc fuel) s = elim (io_worker 0 s) [ none ↦ s | some s' ↦ drain fuel s' ]

unfoldable pub stop_io_pool : IoState → IoState
unfolding drain
stop_io_pool s = record (drain (length s.tasks) s) { io_pool = none }
