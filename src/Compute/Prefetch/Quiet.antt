-- ===== src/Compute/Prefetch/Quiet.antt =====
-- A load that is alone: what it reads, against the regions of its layer.
use package.hypura.Prelude.{
  ℕ, ◌+◌, true, false, Option, some, List, [], ◌∷◌, ◌++◌, map, length, get_elem?, set, ◌≡◌, refl,
  ◌∙◌, ap, arith,
}
use package.hypura.Prelude.Keys.{nat_eq}
use package.hypura.Prelude.Dict.{lookup-insert}
use package.hypura.Prelude.Machine.{u64}
use package.hypura.Prelude.Sort.{total}
use package.hypura.Prelude.Named.{total-append}
use package.hypura.Compute.Prefetch.{
  loaded, Region, Read, IoPool, IoCompletion, IoPoolTask, IoState, read_of, finish, complete,
  drop_at, io_worker, is_loaded, status_of, wait_rounds, task_bytes,
}
use package.hypura.Compute.Prefetch.Store.{tasks_of, get_elem?-set}
use package.hypura.Compute.Prefetch.Whole.{concat}

abbrev pub load_counter : ℕ → ℕ → IoCompletion
load_counter l n = record { remaining = n; layer_idx = l; update_status = true }

-- Only the load of layer `l` is under way, with these tasks left; `reads` is what was read before.
pub record Alone (s : IoState) (pread : ℕ → ℕ → ℕ) (l base k : ℕ) (rss : List (List Region))
    : Type 0 where
  pub pool : IoPool
  pub running : s.io_pool ≡ some pool
  pub same : pool.pread ≡ pread
  pub left : s.tasks ≡ tasks_of base k rss
  pub stored : get_elem? s.completions k ≡ some (load_counter l (length rss))

task_of : ℕ → ℕ → List Region → IoPoolTask
task_of base k rs = record { regions = rs; base = base; completion = k }

module _ (s : IoState) (pread : ℕ → ℕ → ℕ) (l base k : ℕ) (rs : List Region)
    (rss : List (List Region)) (alone : Alone s pread l base k (rs ∷ rss)) where
  open alone use {pool, running, same, left, stored}

  abbrev after : IoState
  after =
      finish (record s { tasks = drop_at 0 s.tasks }) pool
        (record { regions = rs; base = base; completion = k })

  worker_after : io_worker 0 s ≡ some after
  unfolding io_worker
  worker_after = ground (arith, running, left)

  after_left : after.tasks ≡ tasks_of base k rss
  unfolding finish complete
  after_left = ground (arith, stored, left)

  after_reads : after.reads ≡ map (read_of pread base) rs ++ s.reads
  unfolding finish complete
  after_reads = ground (arith, stored, same)

  after_completions : after.completions ≡ set s.completions k (load_counter l (length rss))
  unfolding finish complete
  after_completions = ground (arith, stored)

  after-Alone : Alone after pread l base k rss
  unfolding finish complete
  after-Alone = record {
    pool = record pool { bytes_loaded = u64 (pool.bytes_loaded + task_bytes rs 0) };
    running = ground (arith, stored);
    same = same;
    left = after_left;
    stored = ground (
      arith,
      after_completions,
      get_elem?-set s.completions k k (load_counter l (length rss))
          (load_counter l (length (rs ∷ rss))) stored,
    );
  }

  after_last : rss ≡ [] → status_of after l ≡ some loaded
  unfolding finish complete
  after_last e = ground (arith, stored, e, lookup-insert l l loaded s.layer_status)

  after_waits :
      (q : List Region) (qs : List (List Region)) → rss ≡ q ∷ qs → status_of after l ≡ status_of s l
  unfolding finish complete
  after_waits q qs e = ground (arith, stored, e)

-- What was read, weighed: the regions of the tasks, and what was there.
abbrev pub Weighs : (ℕ → ℕ → ℕ) → ℕ → List (List Region) → List Read → List Read → Type 0
Weighs pread base rss before after =
    (w : Read → ℕ)
    → total w after ≡ total w (map (read_of pread base) (concat rss)) + total w before

pub record Done (o : Option IoState) (s : IoState) (pread : ℕ → ℕ → ℕ) (l base : ℕ)
    (rss : List (List Region)) : Type 0 where
  pub final : IoState
  pub runs : o ≡ some final
  pub status : status_of final l ≡ some loaded
  pub no_task : final.tasks ≡ []
  pub weighs : Weighs pread base rss s.reads final.reads

map-append_read :
    (f : Region → Read) (xs ys : List Region) → map f (xs ++ ys) ≡ map f xs ++ map f ys
map-append_read f [] ys = refl
map-append_read f (x ∷ xs) ys = ap (λ zs. f x ∷ zs) (map-append_read f xs ys)

weigh-append :
    (w : Read → ℕ) (f : Region → Read) (xs ys : List Region)
    → total w (map f (xs ++ ys)) ≡ total w (map f xs) + total w (map f ys)
weigh-append w f xs ys =
    ap (total w) (map-append_read f xs ys) ∙ total-append w (map f xs) (map f ys)

-- The rounds of a wait finish the tasks of the load one by one.
pub wait_rounds-Done :
    (s : IoState) (pread : ℕ → ℕ → ℕ) (l base k : ℕ) (rs : List Region) (rss : List (List Region))
    → Alone s pread l base k (rs ∷ rss)
    → is_loaded (status_of s l) ≡ false
    → Done (wait_rounds (length (rs ∷ rss)) l s) s pread l base (rs ∷ rss)
unfolding wait_rounds
wait_rounds-Done s pread l base k rs [] alone waiting = record {
  final = after s pread l base k rs [] alone;
  runs = ground (
    arith,
    waiting,
    worker_after s pread l base k rs [] alone,
    after_last s pread l base k rs [] alone refl,
  );
  status = after_last s pread l base k rs [] alone refl;
  no_task = after_left s pread l base k rs [] alone;
  weighs = λ w. omega (
    arith,
    ap (total w) (after_reads s pread l base k rs [] alone),
    total-append w (map (read_of pread base) rs) s.reads,
    weigh-append w (read_of pread base) rs [],
  );
}
wait_rounds-Done s pread l base k rs (qs ∷ rss) alone waiting =
    let s1 = after s pread l base k rs (qs ∷ rss) alone in
    let d =
      wait_rounds-Done s1 pread l base k qs rss (after-Alone s pread l base k rs (qs ∷ rss) alone)
        (ap is_loaded (after_waits s pread l base k rs (qs ∷ rss) alone qs rss refl) ∙ waiting) in
    record {
      final = d.final;
      runs = ground (arith, waiting, worker_after s pread l base k rs (qs ∷ rss) alone, d.runs);
      status = d.status;
      no_task = d.no_task;
      weighs = λ w. omega (
        arith,
        d.weighs w,
        ap (total w) (after_reads s pread l base k rs (qs ∷ rss) alone),
        total-append w (map (read_of pread base) rs) s.reads,
        weigh-append w (read_of pread base) rs (concat (qs ∷ rss)),
      );
    }
