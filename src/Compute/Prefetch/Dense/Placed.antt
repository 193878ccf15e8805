-- ===== src/Compute/Prefetch/Dense/Placed.antt =====
-- A dense layer that is loaded into slots of the pool: the call ends, and the layer's tensors point at
-- the layer's own slots.
use package.hypura.Prelude.{
  ℕ, ◌+◌, true, false, Option, none, some, List, [], ◌∷◌, length, ◌≡◌, ◌≢◌,
}
use package.hypura.Prelude.Keys.{nat_eq}
use package.hypura.Prelude.Dict.{Dict, lookup}
use package.hypura.Prelude.Text.{Text, text_eq}
use package.hypura.Compute.Pool.{ExpertPool, offsets}
use package.hypura.Compute.Pool.Slots.{IsShared}
use package.hypura.Compute.Prefetch.{loaded, status_of}
use package.hypura.Compute.Prefetch.Waits.{IsSound}
use package.hypura.Compute.Prefetch.State.{PrefetchState, DenseFfnLayout}
use package.hypura.Compute.Prefetch.Dense.{dense_names}

-- The tensors of some names whose pointers were captured point at the addresses of their offsets.
abbrev pub PointsAt : ℕ → List Text → List ℕ → (before after : Dict Text ℕ) → Type 0
PointsAt base [] os before after = Unit
PointsAt base (n ∷ ns) [] before after = false ≡ true
PointsAt base (n ∷ ns) (o ∷ os) before after =
    (lookup n before ≢ none → lookup n after ≡ some (base + o)) × PointsAt base ns os before after

-- The outcome of a load of a dense layer: the call returned, the layer is loaded, the pool's slots are
-- shared out and the layer has one for each tensor, to which the tensor points.
pub record Placed (s : PrefetchState) (l : ℕ) (layouts : List DenseFfnLayout)
    (r : Option PrefetchState) : Type 0 where
  pub after : PrefetchState
  pub pool : ExpertPool
  pub slots : List ℕ
  pub returns : r ≡ some after
  pub sound : IsSound after.io
  pub status : status_of after.io l ≡ some loaded
  pub held : after.expert_pool ≡ some pool
  pub shared : IsShared pool []
  pub owned : lookup l pool.layer_slots ≡ some slots
  pub each : length slots ≡ length layouts
  pub points :
      PointsAt pool.pool_base
        (dense_names layouts)
        (offsets pool slots)
        s.tensor_data
        after.tensor_data
