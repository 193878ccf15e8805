-- ===== src/Compute/Prefetch/Waits.antt =====
-- Every wait ends: a layer that is being loaded has a counter, and the counter has tasks.
mod Counters
unfoldable pub use Counters.*
use package.hypura.Prelude.{
  ℕ, zero, suc, ◌+◌, ◌<◌, ◌≤◌, true, some, if◌then◌else◌, length, get_elem?, set, length-set, ◌≡◌,
  refl, ◌⊎◌, inl, inr, arith, Bool-cases, Option-cases,
}
use package.hypura.Prelude.Keys.{◌==◌, nat_eq}
use package.hypura.Prelude.Dict.{insert, lookup-insert}
use package.hypura.Compute.Prefetch.{
  loading, loaded, IoPool, IoCompletion, IoPoolTask, IoState, fetch_sub, status_of, complete,
  finish, drop_at, io_worker, wait_rounds, wait_loaded, task_bytes,
}
use package.hypura.Prelude.Machine.{u64}
use package.hypura.Compute.Prefetch.Store.{
  pending, Known, pending-drop_at, Known-drop_at, length-drop_at, get_elem?-set, get_elem?_below,
  Known-get_elem?, has_task,
}

io_worker_taken :
    {s s' : IoState} (inv : IsSound s) (i : ℕ)
    → io_worker i s ≡ some s'
    → (t : IoPoolTask) × (get_elem? s.tasks i ≡ some t)
      × (s' ≡ finish (record s { tasks = drop_at i s.tasks }) inv.pool t)
unfolding io_worker
io_worker_taken {s} inv i e = elim (Option-cases (get_elem? s.tasks i)) [
  | inl h ↦ absurd (ground (arith, h, inv.running))
  | inr (t, h) ↦ (t, h, ground (arith, h, inv.running))
]

-- From a state in which each counter counts its unfinished tasks and every layer that is loading has
-- a counter above zero, a worker that finishes any of the tasks leaves such a state.
pub io_worker-IsSound :
    {s s' : IoState} → IsSound s → (i : ℕ) → io_worker i s ≡ some s' → IsSound s'
io_worker-IsSound inv i e =
    let (t, taken, same) = io_worker_taken inv i e in rw same (finish-IsSound inv i t taken).0

-- A layer that is loading has a task left.
pub loading_task :
    {s : IoState}
    → IsSound s
    → (l : ℕ) → status_of s l ≡ some loading
    → (t : IoPoolTask) × (get_elem? s.tasks 0 ≡ some t)
loading_task {s} inv l e =
    let o = inv.owned l e in
    get_elem?_below s.tasks 0
      (has_task s.tasks o.place (omega (arith, inv.counted o.place o.counter o.stored, o.busy)))

wait_rounds-loaded :
    (fuel l : ℕ) (s : IoState)
    → IsSound s
    → Started s l
    → length s.tasks ≤ fuel
    → (s' : IoState) × (wait_rounds fuel l s ≡ some s')
      × IsSound s'
      × (status_of s' l ≡ some loaded)
unfolding wait_rounds
wait_rounds-loaded zero l s inv (inr e) h = (s, ground (arith, e), inv, e)
wait_rounds-loaded (suc fuel) l s inv (inr e) h = (s, ground (arith, e), inv, e)
wait_rounds-loaded zero l s inv (inl e) h =
    let (t, taken) = loading_task inv l e in
    absurd (omega (arith, length-drop_at 0 s.tasks t taken, h))
wait_rounds-loaded (suc fuel) l s inv (inl e) h =
    let (t, taken) = loading_task inv l e in
    let (sound, started, left) = finish-IsSound inv 0 t taken in
    let s1 = finish (record s { tasks = drop_at 0 s.tasks }) inv.pool t in
    let (s', runs, inv', e') =
      wait_rounds-loaded fuel l s1 sound (started l (inl e))
        (ground (arith, left, length-drop_at 0 s.tasks t taken, h)) in
    (s', ground (arith, e, taken, inv.running, runs), inv', e')

-- The wait for a layer that is being loaded ends, and then the layer is loaded.
pub wait_loaded-loaded :
    (l : ℕ) (s : IoState)
    → IsSound s
    → Started s l
    → (s' : IoState) × (wait_loaded l s ≡ some s') × IsSound s' × (status_of s' l ≡ some loaded)
unfolding wait_loaded
wait_loaded-loaded l s inv h = wait_rounds-loaded (length s.tasks) l s inv h (omega arith)
