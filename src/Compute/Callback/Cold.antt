-- ===== src/Compute/Callback/Cold.antt =====
-- The expert-streaming mode before the router has spoken: nothing is ever predicted from no experts.
use package.hypura.Prelude.{ℕ, zero, suc, none, some, List, [], replicate, ◌≡◌, refl, arith}
use package.hypura.Prelude.Keys.{nat_eq}
use package.hypura.Prelude.Dict.{lookup}
use package.hypura.Prelude.Sort.{sort}
use package.hypura.Cache.Coactivation.{
  CoActivationMatrix, predict_next_layer, add_scores, best_of, scored_from,
}
use package.hypura.Io.Layout.{ExpertLayout}
use package.hypura.Compute.Prefetch.State.{PrefetchState}
use package.hypura.Compute.Prefetch.Load.{ensure_layer_loaded}
use package.hypura.Compute.Callback.Streaming.{cold_prediction, load_cold, before_experts}

scored_from-replicate : (i n : ℕ) → scored_from i (replicate n 0) ≡ []
scored_from-replicate i zero = refl
scored_from-replicate i (suc n) = ground (arith, scored_from-replicate (suc i) n)

best_of-replicate : (n k : ℕ) → best_of (replicate n 0) k ≡ []
unfolding best_of sort
best_of-replicate n zero = refl
best_of-replicate n (suc k) = rw (scored_from-replicate 0 n) refl

-- From no observed experts no expert is predicted.
predict_next_layer-nil : (c : CoActivationMatrix) (l k : ℕ) → predict_next_layer c l [] k ≡ []
unfolding predict_next_layer add_scores
predict_next_layer-nil c l k = ground (arith, best_of-replicate c.num_experts k)

cold_prediction-nil : (s : PrefetchState) (l : ℕ) → cold_prediction s l ≡ []
unfolding cold_prediction
cold_prediction-nil s l =
    ground (arith, predict_next_layer-nil s.co_activation l s.num_experts_used)

-- Whatever the co-activation matrix holds, a mixture-of-experts layer for which the router has not
-- yet spoken is loaded whole: the branch that loads predicted experts is never taken.
pub before_experts_cold :
    (s : PrefetchState) (l : ℕ) (layouts : List ExpertLayout)
    → lookup l s.expert_layouts ≡ some layouts
    → lookup l s.selected_experts ≡ none
    → before_experts s l ≡ ensure_layer_loaded s l
unfolding before_experts load_cold
before_experts_cold s l layouts here silent = ground (arith, here, silent, cold_prediction-nil s l)
