-- ===== src/Compute/Pool/Tests.antt =====
-- Runs of the pool, and its theorems at a pool of three slots.
use hypura.Prelude.{◌+◌, ◌*◌, ◌≤◌, ◌<◌, ◌↔◌, none, some, [], ◌∷◌, ◌≡◌, ◌⊎◌, refl, arith}
use hypura.Compute.Pool
use hypura.Compute.Pool.{ExpertPool}
use hypura.Compute.Pool.Slots.{IsShared}
use hypura.Compute.Pool.Allocate.{
  Serves, allocate, release, serve_all, new-IsShared, allocate_layer-Serves,
  allocate_layer_exhausted, slot_offset_disjoint, serve_all-IsShared,
}

program : Unit {0}
unfolding Pool.new Pool.allocate_layer Pool.slot_offset
program = tt

abbrev fresh : ExpertPool
fresh = record {
  pool_base = 4096;
  pool_size = 350;
  slot_size = 100;
  num_slots = 3;
  layer_slots = [];
  free_slots = 0 ∷ 1 ∷ 2 ∷ [];
  advised = [];
}

fresh-new : Pool.new 4096 350 100 ≡ some fresh
unfolding program
fresh-new = refl

fresh-IsShared : IsShared fresh []
fresh-IsShared = (new-IsShared 4096 350 100 fresh-new).0

-- Layers 5 and 6 hold a slot each.
abbrev two_layers : ExpertPool
two_layers = record fresh { layer_slots = (5, 0 ∷ []) ∷ (6, 1 ∷ []) ∷ []; free_slots = 2 ∷ [] }

two_layers-IsShared : IsShared two_layers []
two_layers-IsShared = record {
  once = λ s. ground arith;
  size = refl;
  occupied = (omega arith, (omega arith, tt));
}

allocate_layer-Serves_example : Serves two_layers 7 3 (Pool.allocate_layer two_layers 7 3)
allocate_layer-Serves_example =
    allocate_layer-Serves two_layers 7 3 two_layers-IsShared (omega arith) (omega arith)

allocate_layer_exhausted_example : (Pool.allocate_layer two_layers 7 4 ≡ none) ↔ (3 < 4)
allocate_layer_exhausted_example =
    allocate_layer_exhausted two_layers 7 4 two_layers-IsShared refl (omega arith)

slot_offset_disjoint_example :
    ((Pool.slot_offset two_layers 0 + 100 ≤ Pool.slot_offset two_layers 1)
      ⊎ (Pool.slot_offset two_layers 1 + 100 ≤ Pool.slot_offset two_layers 0))
    × (Pool.slot_offset two_layers 0 + 100 ≤ 3 * 100)
slot_offset_disjoint_example =
    slot_offset_disjoint two_layers 5 6 0 1 (0 ∷ []) (1 ∷ []) two_layers-IsShared (omega arith) refl
      refl (omega arith) (omega arith)

serve_all-IsShared_example :
    (q : ExpertPool) × (serve_all fresh (allocate 4 2 ∷ allocate 5 3 ∷ release 5 ∷ []) ≡ some q)
    × IsShared q []
serve_all-IsShared_example =
    serve_all-IsShared (allocate 4 2 ∷ allocate 5 3 ∷ release 5 ∷ []) fresh fresh-IsShared
      ((omega arith, omega arith), ((omega arith, omega arith), (tt, tt)))

-- Layer 9 came before layer 2, and layer 2 is the one to go: the least layer, not the oldest.
evicts_least :
    Pool.allocate_layer
      (record fresh { layer_slots = (9, 0 ∷ 1 ∷ []) ∷ (2, 2 ∷ []) ∷ []; free_slots = [] })
      5
      1
    ≡ some (
      record fresh {
        layer_slots = (9, 0 ∷ 1 ∷ []) ∷ (5, 2 ∷ []) ∷ [];
        free_slots = [];
        advised = (4296, 100) ∷ [];
      },
      200 ∷ [],
    )
unfolding program
evicts_least = refl
