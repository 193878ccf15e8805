-- ===== src/Compute/Prefetch/Refines.antt =====
-- A load of a whole layer when nothing else is under way refines one read of each of its regions.
use package.hypura.Prelude.{
  ℕ, suc, ◌+◌, ◌-◌, ◌<◌, true, false, Option, none, some, List, [], ◌∷◌, ◌++◌, map, length, ◌≡◌,
  refl, ap, ◌≢◌, arith,
}
use package.hypura.Prelude.Keys.{nat_eq}
use package.hypura.Prelude.Dict.{lookup, insert, lookup-insert}
use package.hypura.Prelude.Sort.{total}
use package.hypura.Compute.Prefetch.{
  loading, loaded, Region, Read, IoPool, IoState, read_of, is_loaded, status_of, set_status, submit,
  wait_rounds, wait_loaded, layer_stall,
}
use package.hypura.Compute.Prefetch.Store.{tasks_of, get_elem?-append_one}
use package.hypura.Compute.Prefetch.Submit.{submit_form}
use package.hypura.Compute.Prefetch.Whole.{whole_layer_lem}
use package.hypura.Compute.Prefetch.State.{PrefetchState, trace_event}
use package.hypura.Compute.Prefetch.Load.{
  chunks, ensure_layer_loaded, await, submit_layer_load, submit_or_set, layer_tasks, whole_layer,
  with_status,
}
use package.hypura.Compute.Prefetch.Quiet.{Alone, Done, load_counter, wait_rounds-Done}

-- The state of a call of `ensure_layer_loaded` for a layer of which nothing is loaded or under way.
pub record IsQuiet (s : PrefetchState) (l base : ℕ) (pool : IoPool) (r : Region) (rs : List Region)
    : Type 0 where
  pub base_known : s.buffer_base ≡ some base
  pub pool_runs : s.io.io_pool ≡ some pool
  pub workers : 0 < pool.num_workers
  pub no_task : s.io.tasks ≡ []
  pub not_started : (status_of s.io l ≢ some loaded) × (status_of s.io l ≢ some loading)
  pub regions : lookup l s.layer_regions ≡ some (r ∷ rs)
  pub unselected : lookup l s.selected_experts ≡ none

-- The abstract load of a layer: it is then loaded, no task is left, and of each region what the
-- device answers has been read to the region's place, once, besides what was read before. Reads are
-- compared by the totals of every weight, so that their order does not count.
pub record LayerRead (o : Option PrefetchState) (s : PrefetchState) (l base : ℕ) (pool : IoPool)
    (regions : List Region) : Type 0 where
  pub final : PrefetchState
  pub returns : o ≡ some final
  pub status : status_of final.io l ≡ some loaded
  pub no_task : final.io.tasks ≡ []
  pub weighs :
      (w : Read → ℕ)
      → total w final.io.reads
        ≡ total w (map (read_of pool.pread base) regions) + total w s.io.reads

whole_layer-cons :
    (r : Region) (rs : List Region) (n : ℕ)
    → (q : List Region) × (qss : List (List Region)) × (whole_layer (r ∷ rs) n ≡ q ∷ qss)
unfolding whole_layer chunks
whole_layer-cons r rs n = (_, _, refl)

length-tasks_of :
    (base k : ℕ) (rss : List (List Region)) → length (tasks_of base k rss) ≡ length rss
length-tasks_of base k [] = refl
length-tasks_of base k (rs ∷ rss) = ap suc (length-tasks_of base k rss)

module _ (s : PrefetchState) (l base : ℕ) (pool : IoPool) (r : Region) (rs : List Region)
    (q : List Region) (qss : List (List Region)) (quiet : IsQuiet s l base pool r rs) where
  -- The state in which the wait begins.
  abbrev begun : IoState
  begun = submit (set_status s.io l loading) l true base (q ∷ qss)

  submit_layer_load-whole :
      whole_layer (r ∷ rs) pool.num_workers ≡ q ∷ qss
      → submit_layer_load (with_status s l loading) l ≡ record s { io = begun }
  unfolding submit_layer_load layer_tasks submit_or_set
  submit_layer_load-whole split = ground (
    arith, split, quiet.base_known, quiet.pool_runs, quiet.workers, quiet.regions, quiet.unselected,
  )

  begun_form : begun ≡ record s.io {
    layer_status = insert l loading s.io.layer_status;
    completions = s.io.completions ++ (load_counter l (length (q ∷ qss)) ∷ []);
    tasks = s.io.tasks ++ tasks_of base (length s.io.completions) (q ∷ qss);
  }
  begun_form =
      submit_form (set_status s.io l loading) pool quiet.pool_runs quiet.workers l base true
        (q ∷ qss)

  begun-Alone : Alone begun pool.pread l base (length s.io.completions) (q ∷ qss)
  begun-Alone = rw begun_form (record {
    pool = pool;
    running = quiet.pool_runs;
    same = refl;
    left = ground (arith, quiet.no_task);
    stored = ground (
      arith,
      get_elem?-append_one s.io.completions (load_counter l (length (q ∷ qss)))
          (length s.io.completions),
    );
  })

  begun_waits : is_loaded (status_of begun l) ≡ false
  begun_waits = ground (arith, begun_form, lookup-insert l l loading s.io.layer_status)

  submitted_reads : begun.reads ≡ s.io.reads
  submitted_reads = ground (arith, begun_form)

  submitted-Done : Done (wait_rounds (length (q ∷ qss)) l begun) begun pool.pread l base (q ∷ qss)
  submitted-Done =
      wait_rounds-Done begun pool.pread l base (length s.io.completions) q qss begun-Alone
        begun_waits

  wait_submitted : wait_loaded l begun ≡ wait_rounds (length (q ∷ qss)) l begun
  unfolding wait_loaded
  wait_submitted =
      let as_many : length begun.tasks ≡ length (q ∷ qss) =
        ground
          (arith, begun_form, quiet.no_task, length-tasks_of base (length s.io.completions) qss) in
      ap (λ n. wait_rounds n l begun) as_many

-- When nothing is under way, the buffer is known and the pool runs, a call of `ensure_layer_loaded`
-- for a layer with regions and no selected experts refines the abstract load, however many workers
-- share the layer: every region is read exactly once.
pub ensure_layer_loaded-LayerRead :
    (s : PrefetchState) (l base : ℕ) (pool : IoPool) (r : Region) (rs : List Region)
    → IsQuiet s l base pool r rs
    → LayerRead (ensure_layer_loaded s l) s l base pool (r ∷ rs)
unfolding ensure_layer_loaded await
ensure_layer_loaded-LayerRead s l base pool r rs quiet =
    let (q, qss, split) = whole_layer-cons r rs pool.num_workers in
    let d = submitted-Done s l base pool r rs q qss quiet in
    record {
      final = trace_event (record s { io = d.final }) (layer_stall l);
      returns = ground (
        arith,
        quiet.not_started,
        submit_layer_load-whole s l base pool r rs q qss quiet split,
        wait_submitted s l base pool r rs q qss quiet,
        d.runs,
      );
      status = ground (arith, d.status);
      no_task = ground (arith, d.no_task);
      weighs = λ w. ground (
        arith,
        d.weighs w,
        (whole_layer_lem r rs (pool.num_workers - 1)).0,
        split,
        submitted_reads s l base pool r rs q qss quiet,
      );
    }
