-- ===== src/Cache/Coactivation/Tests.antt =====
-- Runs of the matrix.
use hypura.Prelude.{[], ◌∷◌, ◌≡◌, refl}
use hypura.Cache.Coactivation
use hypura.Cache.Coactivation.{CoActivationMatrix, record_selected, predict_same_layer}
use hypura.Cache.Coactivation.Symmetry.{Records, new-IsValid, record_selected-IsValid}

abbrev seen : CoActivationMatrix
unfolding Coactivation.new Coactivation.record_selected
seen = record_selected (record_selected (Coactivation.new 2 4) 0 (0 ∷ 1 ∷ [])) 0 (0 ∷ 1 ∷ 2 ∷ [])

predicted : predict_same_layer seen 0 (0 ∷ []) 2 ≡ 1 ∷ 2 ∷ []
unfolding Coactivation.predict_same_layer seen
predicted = refl

record_selected-IsValid_example :
    Records (Coactivation.new 2 4) (record_selected (Coactivation.new 2 4) 0 (0 ∷ 1 ∷ 9 ∷ [])) 0
record_selected-IsValid_example =
    record_selected-IsValid (Coactivation.new 2 4) 0 (0 ∷ 1 ∷ 9 ∷ []) (new-IsValid 2 4)
