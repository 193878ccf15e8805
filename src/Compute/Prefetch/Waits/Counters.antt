-- ===== src/Compute/Prefetch/Waits/Counters.antt =====
-- The counters of the loads, and what a finished task does to them.
use package.hypura.Prelude.{
  ℕ, suc, ◌+◌, ◌<◌, true, some, if◌then◌else◌, length, get_elem?, set, length-set, ◌≡◌, refl, ◌⊎◌,
  inl, inr, arith, Bool-cases,
}
use package.hypura.Prelude.Keys.{◌==◌, nat_eq}
use package.hypura.Prelude.Dict.{insert, lookup-insert}
use package.hypura.Compute.Prefetch.{
  loading, loaded, IoPool, IoCompletion, IoPoolTask, IoState, fetch_sub, status_of, complete,
  finish, drop_at, task_bytes,
}
use package.hypura.Prelude.Machine.{u64}
use package.hypura.Compute.Prefetch.Store.{
  pending, Known, pending-drop_at, Known-drop_at, get_elem?-set, get_elem?_below, Known-get_elem?,
}

-- The layer is being loaded by the load with this counter.
pub record Owner (s : IoState) (layer_idx : ℕ) : Type 0 where
  pub place : ℕ
  pub counter : IoCompletion
  pub stored : get_elem? s.completions place ≡ some counter
  pub same : counter.layer_idx ≡ layer_idx
  pub updates : counter.update_status ≡ true
  pub busy : 0 < counter.remaining

-- A layer on its way to memory, or there.
abbrev pub Started : IoState → ℕ → Type 0
Started s l = (status_of s l ≡ some loading) ⊎ (status_of s l ≡ some loaded)

-- Each counter counts its unfinished tasks, each layer that is loading has a counter above zero, and
-- there are workers.
pub record IsSound (s : IoState) : Type 0 where
  pub pool : IoPool
  pub running : s.io_pool ≡ some pool
  pub workers : 0 < pool.num_workers
  pub counted :
      (k : ℕ) (c : IoCompletion)
      → get_elem? s.completions k ≡ some c
      → c.remaining ≡ pending k s.tasks
  pub known : Known (length s.completions) s.tasks
  pub owned : (l : ℕ) → status_of s l ≡ some loading → Owner s l

-- The counter of a task that a worker takes is above zero.
counter_positive :
    {s : IoState}
    → IsSound s
    → (i : ℕ) (t : IoPoolTask) (c : IoCompletion) → get_elem? s.tasks i ≡ some t
    → get_elem? s.completions t.completion ≡ some c
    → c.remaining ≡ suc (pending t.completion (drop_at i s.tasks))
counter_positive {s} inv i t c taken stored =
    ground
      (arith, pending-drop_at t.completion i s.tasks t taken, inv.counted t.completion c stored)

module _ {s : IoState} (inv : IsSound s) (i : ℕ) (t : IoPoolTask) where
  open inv use {pool, running, workers, counted, known, owned}

  abbrev after : IoState
  after = finish (record s { tasks = drop_at i s.tasks }) pool t

  module _ (c : IoCompletion) (taken : get_elem? s.tasks i ≡ some t) where
    after_tasks : get_elem? s.completions t.completion ≡ some c → after.tasks ≡ drop_at i s.tasks
    unfolding finish complete
    after_tasks stored = ground arith

    after_completions :
        get_elem? s.completions t.completion ≡ some c
        → after.completions
          ≡ set s.completions t.completion (record c { remaining = fetch_sub c.remaining })
    unfolding finish complete
    after_completions stored = ground arith

    after_status :
        get_elem? s.completions t.completion ≡ some c
        → after.layer_status ≡ (
            if c.remaining == 1
            then if c.update_status
              then insert c.layer_idx loaded s.layer_status
              else s.layer_status
            else s.layer_status)
    unfolding finish complete
    after_status stored = ground arith

    after_pool :
        get_elem? s.completions t.completion ≡ some c
        → (p : IoPool) × (after.io_pool ≡ some p) × (p.num_workers ≡ pool.num_workers)
    unfolding finish complete
    after_pool stored = (
      record pool { bytes_loaded = u64 (pool.bytes_loaded + task_bytes t.regions 0) },
      ground arith,
      refl,
    )

    after_counted :
        get_elem? s.completions t.completion ≡ some c
        → (k : ℕ) (d : IoCompletion) → get_elem? after.completions k ≡ some d
        → d.remaining ≡ pending k after.tasks
    after_counted stored k d e = ground (
      arith,
      after_completions stored,
      after_tasks stored,
      get_elem?-set s.completions t.completion k (record c { remaining = fetch_sub c.remaining }) c
          stored,
      counter_positive inv i t c taken stored,
      pending-drop_at k i s.tasks t taken,
      counted k d,
    )

    after-Known :
        get_elem? s.completions t.completion ≡ some c → Known (length after.completions) after.tasks
    after-Known stored =
        rw (after_completions stored, after_tasks stored)
          (rw
            (length-set s.completions t.completion (record c { remaining = fetch_sub c.remaining }))
            (Known-drop_at (length s.completions) i s.tasks known))

    after_owned :
        get_elem? s.completions t.completion ≡ some c
        → (l : ℕ) → status_of after l ≡ some loading
        → status_of s l ≡ some loading
    after_owned stored l e =
        ground (arith, after_status stored, lookup-insert c.layer_idx l loaded s.layer_status)

    -- The layer of the last task is no longer being loaded.
    after_last :
        get_elem? s.completions t.completion ≡ some c
        → c.remaining ≡ 1
        → c.update_status ≡ true
        → status_of after c.layer_idx ≡ some loaded
    after_last stored one up =
        ground
          (arith, after_status stored, lookup-insert c.layer_idx c.layer_idx loaded s.layer_status)

    after-Owner :
        get_elem? s.completions t.completion ≡ some c
        → (l : ℕ) → status_of after l ≡ some loading
        → Owner s l
        → Owner after l
    after-Owner stored l e o =
        let placed =
          get_elem?-set s.completions t.completion o.place
            (record c { remaining = fetch_sub c.remaining }) c stored in
        elim (Bool-cases (t.completion == o.place)) [
          | inl own ↦ record {
            place = o.place;
            counter = record c { remaining = fetch_sub c.remaining };
            stored = ground (arith, placed, after_completions stored);
            same = ground (arith, o.stored, o.same);
            updates = ground (arith, o.stored, o.updates);
            busy = ground (
              arith,
              o.stored,
              o.same,
              o.updates,
              o.busy,
              after_last stored,
              counter_positive inv i t c taken stored,
            );
          }
          | inr other ↦ record {
            place = o.place;
            counter = o.counter;
            stored = ground (arith, placed, o.stored, after_completions stored);
            same = o.same;
            updates = o.updates;
            busy = o.busy;
          }
        ]

    after-Started :
        get_elem? s.completions t.completion ≡ some c → (l : ℕ) → Started s l → Started after l
    after-Started stored l h =
        ground (arith, h, after_status stored, lookup-insert c.layer_idx l loaded s.layer_status)

    after-IsSound : get_elem? s.completions t.completion ≡ some c → IsSound after
    after-IsSound stored = record {
      pool = (after_pool stored).0;
      running = (after_pool stored).1;
      workers = ground (arith, (after_pool stored).2, workers);
      counted = after_counted stored;
      known = after-Known stored;
      owned = λ l e. after-Owner stored l e (owned l (after_owned stored l e));
    }

-- Whatever task a worker finishes, every layer that is loading keeps a counter.
pub finish-IsSound :
    {s : IoState} (inv : IsSound s) (i : ℕ) (t : IoPoolTask)
    → get_elem? s.tasks i ≡ some t
    → IsSound (finish (record s { tasks = drop_at i s.tasks }) inv.pool t)
      × ((l : ℕ)
          → Started s l
          → Started (finish (record s { tasks = drop_at i s.tasks }) inv.pool t) l)
      × ((finish (record s { tasks = drop_at i s.tasks }) inv.pool t).tasks ≡ drop_at i s.tasks)
finish-IsSound {s} inv i t taken =
    let below = Known-get_elem? (length s.completions) i s.tasks t inv.known taken in
    let (c, stored) = get_elem?_below s.completions t.completion below in
    (
      after-IsSound inv i t c taken stored,
      after-Started inv i t c taken stored,
      after_tasks inv i t c taken stored,
    )
