-- ===== src/Compute/Prefetch/Submit.antt =====
-- The calls that start a load keep the counters right.
use package.hypura.Prelude.{
  ℕ, zero, suc, ◌+◌, ◌<◌, Bool, true, some, List, [], ◌∷◌, ◌++◌, length, length-append, get_elem?,
  ◌≡◌, refl, sym, ◌∙◌, ◌≢◌, inl, inr, arith, Bool-cases,
}
use package.hypura.Prelude.Keys.{◌==◌, nat_eq}
use package.hypura.Prelude.Dict.{insert, lookup-insert}
use package.hypura.Compute.Prefetch.{
  LayerStatus, loading, loaded, IoPool, IoCompletion, IoState, set_status, status_of, send_all,
  submit, Region, TraceEvent, record_event,
}
use package.hypura.Compute.Prefetch.Store.{
  pending, Known, pending-append, pending_unknown, Known-succ, Known-append, tasks_of,
  pending-tasks_of, pending-tasks_of_ne, Known-tasks_of, get_elem?-append_one,
}
use package.hypura.Compute.Prefetch.Waits.{Owner, IsSound, Started}

-- What has the same pool, counters and tasks is sound when no more layers are loading.
IsSound-same :
    {s t : IoState}
    → IsSound s
    → t.io_pool ≡ s.io_pool
    → t.completions ≡ s.completions
    → t.tasks ≡ s.tasks
    → ((l : ℕ) → status_of t l ≡ some loading → status_of s l ≡ some loading)
    → IsSound t
IsSound-same {s} inv p c ts h = record {
  pool = inv.pool;
  running = p ∙ inv.running;
  workers = inv.workers;
  counted = λ k d e. rw ts (inv.counted k d (rw (sym c) e));
  known = rw (c, ts) inv.known;
  owned = λ j e.
      let o = inv.owned j (h j e) in
      record {
        place = o.place;
        counter = o.counter;
        stored = rw c o.stored;
        same = o.same;
        updates = o.updates;
        busy = o.busy;
      };
}

-- A status other than `loading` needs no counter.
pub set_status-IsSound :
    {s : IoState}
    → IsSound s
    → (l : ℕ) (st : LayerStatus) → st ≢ loading
    → IsSound (set_status s l st)
set_status-IsSound {s} inv l st ne =
    IsSound-same inv refl refl refl
      (λ j e. ground (arith, lookup-insert l j st s.layer_status, e, ne))

-- A layer that turned out to have nothing to load.
pub set_loaded-IsSound :
    {s : IoState} → IsSound s → (l : ℕ) → IsSound (set_status (set_status s l loading) l loaded)
set_loaded-IsSound {s} inv l = IsSound-same inv refl refl refl (λ j e. ground (
  arith,
  lookup-insert l j loaded (insert l loading s.layer_status),
  lookup-insert l j loading s.layer_status,
  e,
))

-- An event changes no counter.
pub record_event-IsSound : {s : IoState} → IsSound s → (e : TraceEvent) → IsSound (record_event s e)
record_event-IsSound inv e =
    IsSound-same inv (ground arith) (ground arith) (ground arith) (λ j h. ground arith)

-- Nor does what madvise gives up.
pub freed-IsSound :
    {s : IoState} → IsSound s → (freed : List (ℕ × ℕ)) → IsSound (record s { freed = freed })
freed-IsSound inv freed = IsSound-same inv refl refl refl (λ j h. h)

pub submit_form :
    (s : IoState) (pool : IoPool)
    → s.io_pool ≡ some pool
    → 0 < pool.num_workers
    → (l base : ℕ) (up : Bool) (rs : List (List Region))
    → submit s l up base rs ≡ record s {
      completions =
          s.completions
          ++ (record { remaining = length rs; layer_idx = l; update_status = up } ∷ []);
      tasks = s.tasks ++ tasks_of base (length s.completions) rs;
    }
unfolding submit send_all
submit_form s pool running workers l base up rs = ground (arith, running, workers)

module _ {s : IoState} (inv : IsSound s) (l base : ℕ) (up : Bool) (rs : List (List Region)) where
  abbrev place : ℕ
  place = length s.completions

  abbrev counter : IoCompletion
  counter = record { remaining = length rs; layer_idx = l; update_status = up }

  submitted_counted :
      (k : ℕ) (c : IoCompletion)
      → get_elem? (s.completions ++ (counter ∷ [])) k ≡ some c
      → c.remaining ≡ pending k (s.tasks ++ tasks_of base place rs)
  submitted_counted k c e = ground (
    arith,
    get_elem?-append_one s.completions counter k,
    e,
    inv.counted k c,
    pending-append k s.tasks (tasks_of base place rs),
    pending-tasks_of base place rs,
    pending-tasks_of_ne base place k rs,
    pending_unknown place s.tasks inv.known,
  )

  submitted-Known :
      Known (length (s.completions ++ (counter ∷ []))) (s.tasks ++ tasks_of base place rs)
  submitted-Known = rw (length-append s.completions (counter ∷ [])) (
      Known-append (place + 1) s.tasks (tasks_of base place rs) (Known-succ place s.tasks inv.known)
        (Known-tasks_of base place rs))

get_elem?_bound {ℓ} :
    {A : Type ℓ} (xs : List A) (i : ℕ) (x : A) → get_elem? xs i ≡ some x → i < length xs
get_elem?_bound [] i x h = cc
get_elem?_bound (y ∷ ys) zero x h = omega arith
get_elem?_bound (y ∷ ys) (suc i) x h = omega (arith, get_elem?_bound ys i x h)

kept :
    (s : IoState) (c : IoCompletion) (k : ℕ) (d : IoCompletion)
    → get_elem? s.completions k ≡ some d
    → get_elem? (s.completions ++ (c ∷ [])) k ≡ some d
kept s c k d e =
    ground (arith, get_elem?-append_one s.completions c k, get_elem?_bound s.completions k d e)

-- A load without a status leaves every layer that is loading its counter.
pub submit_quiet-IsSound :
    {s : IoState}
    → IsSound s
    → (l base : ℕ) (up : Bool) (rs : List (List Region)) → IsSound (submit s l up base rs)
submit_quiet-IsSound {s} inv l base up rs =
    rw (submit_form s inv.pool inv.running inv.workers l base up rs) (record {
      pool = inv.pool;
      running = inv.running;
      workers = inv.workers;
      counted = submitted_counted inv l base up rs;
      known = submitted-Known inv l base up rs;
      owned = λ j e.
          let o = inv.owned j e in
          record {
            place = o.place;
            counter = o.counter;
            stored = kept s (counter inv l base up rs) o.place o.counter o.stored;
            same = o.same;
            updates = o.updates;
            busy = o.busy;
          };
    })

-- A layer that is marked as loading has the counter of the load that is then submitted.
pub submit-IsSound :
    {s : IoState}
    → IsSound s
    → (l base : ℕ) (r : List Region) (rs : List (List Region))
    → IsSound (submit (set_status s l loading) l true base (r ∷ rs))
submit-IsSound {s} inv l base r rs =
    rw (submit_form (set_status s l loading) inv.pool inv.running inv.workers l base true (r ∷ rs))
      (record {
        pool = inv.pool;
        running = inv.running;
        workers = inv.workers;
        counted = submitted_counted inv l base true (r ∷ rs);
        known = submitted-Known inv l base true (r ∷ rs);
        owned = owner;
      })
  where
    c : IoCompletion
    c = counter inv l base true (r ∷ rs)

    s1 : IoState
    s1 = record s {
      layer_status = insert l loading s.layer_status;
      completions = s.completions ++ (c ∷ []);
      tasks = s.tasks ++ tasks_of base (length s.completions) (r ∷ rs);
    }

    owner : (j : ℕ) → status_of s1 j ≡ some loading → Owner s1 j
    owner j e = elim (Bool-cases (l == j)) [
      | inl h ↦ record {
        place = length s.completions;
        counter = c;
        stored = ground (arith, get_elem?-append_one s.completions c (length s.completions));
        same = ground arith;
        updates = refl;
        busy = omega arith;
      }
      | inr h ↦
          let o = inv.owned j (ground (arith, lookup-insert l j loading s.layer_status)) in
          record {
            place = o.place;
            counter = o.counter;
            stored = kept s c o.place o.counter o.stored;
            same = o.same;
            updates = o.updates;
            busy = o.busy;
          }
    ]

pub submit-Started :
    {s : IoState}
    → IsSound s
    → (l base : ℕ) (up : Bool) (rs : List (List Region)) (j : ℕ) → Started s j
    → Started (submit s l up base rs) j
submit-Started {s} inv l base up rs j h =
    rw (submit_form s inv.pool inv.running inv.workers l base up rs) h
