-- ===== src/Tests/Rebalance.antt =====
-- controllers/clustering/rebalance.go on small inputs.
use rediscluster_operator.Base.Int.{pos, negsuc, ◌+ℤ◌}
use rediscluster_operator.Base.{suc, true, false, ◌≡◌, refl, List, [], ◌∷◌, none, some, arith}
use rediscluster_operator.Nodes.{Node}
use rediscluster_operator.Slots.Build.{range_from}
use rediscluster_operator.Rebalance.{Command, total_balance, spread}
use rediscluster_operator.Rebalance.Allocation.{Alloc, alloc_slots}
use rediscluster_operator.Rebalance.Spread.{has_negative, spread-ends, spread-endless}
use rediscluster_operator.Rebalance.Allocation.Covers.{all_of, alloc_slots-covers}
use rediscluster_operator.Tests.{node_a, node_b, node_c, works}

never_fails : (s : List Command) (c : Command) → works s c ≡ false
never_fails s c = refl

-- Seven slots on three masters, two for each: one is over.
abbrev uneven : List Node
uneven =
    record node_a { balance = pos 3 }
    ∷ record node_b { balance = negsuc 0 }
    ∷ record node_c { balance = negsuc 0 }
    ∷ []

uneven-negative : has_negative uneven ≡ true
unfolding has_negative
uneven-negative = refl

uneven-total : total_balance uneven ≡ pos 1
unfolding total_balance ◌+ℤ◌
uneven-total = refl

spread-ends_example :
    (nodes' : List Node) × (spread (suc 1) uneven (pos 1) ≡ some nodes')
    × (total_balance nodes' ≡ pos 0)
spread-ends_example = spread-ends uneven 1 uneven-negative uneven-total

-- Seven slots on two masters that hold three and four of them.
abbrev level : List Node
level = record node_a { balance = pos 0 } ∷ record node_b { balance = pos 1 } ∷ []

level-negative : has_negative level ≡ false
unfolding has_negative
level-negative = refl

spread-endless_example : spread 50 level (pos (suc 0)) ≡ none
spread-endless_example = spread-endless 50 level 0 level-negative

alloc_slots-covers_example :
    (a : Alloc) × (alloc_slots works 16384 (node_a ∷ node_b ∷ node_c ∷ []) ≡ some a)
    × (a.failed ≡ false)
    × (all_of a.masters ≡ range_from 0 16384)
alloc_slots-covers_example =
    alloc_slots-covers works 16384 node_a (node_b ∷ node_c ∷ []) never_fails (omega arith)
      (omega arith)
