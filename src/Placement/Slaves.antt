-- ===== src/Placement/Slaves.antt =====
-- PlaceSlaves of controllers/clustering/placement_v2.go.
use rediscluster_operator.Base.{
  Bool, true, false, ◌≡◌, List, [], ◌∷◌, ◌++◌, Option, none, some, Text, same, lookup, keep,
  if◌then◌else◌, Option-cases, inl, inr, arith,
}
use rediscluster_operator.Nodes.{Node}
use rediscluster_operator.Placement.{
  Ctx, needs_attach, place_slaves_of, place_slaves_loop, place_slaves,
}

-- Some stateful set has nodes and no new master.
unfoldable pub orphaned : List (Text × Node) → List (Text × List Node) → Bool
orphaned masters [] = false
orphaned masters ((sts, []) ∷ m) = orphaned masters m
orphaned masters ((sts, n ∷ nodes) ∷ m) = elim (lookup sts masters) [
  | none ↦ true
  | some _ ↦ orphaned masters m
]

-- The nodes of one stateful set that are to be attached to the master with the id.
abbrev attached_of : Text → Option Node → List Node → List Node
attached_of id none nodes = []
attached_of id (some m) nodes = if same m.id id then keep (needs_attach m) nodes else []

-- The same for all stateful sets, in the order of the visit.
unfoldable pub attached : Text → List (Text × Node) → List (Text × List Node) → List Node
attached id masters [] = []
attached id masters ((sts, nodes) ∷ m) =
    attached_of id (lookup sts masters) nodes ++ attached id masters m

loop_panics :
    (masters : List (Text × Node)) (m : List (Text × List Node)) (best_effort : Bool)
    (slaves : List (Text × List Node))
    → orphaned masters m ≡ true
    → place_slaves_loop masters best_effort slaves m ≡ none
unfolding place_slaves_loop orphaned
loop_panics masters [] b slaves h = absurd (cc)
loop_panics masters ((sts, []) ∷ m) b slaves h = loop_panics masters m b slaves h
loop_panics masters ((sts, n ∷ nodes) ∷ m) b slaves h = elim (Option-cases (lookup sts masters)) [
  | inl e ↦ ground arith
  | inr (master, e) ↦
      let acc = place_slaves_of master b slaves (n ∷ nodes) in
      ground (arith, loop_panics masters m acc.0 acc.1)
]

-- When a stateful set has a node and no new master, PlaceSlaves panics: it reads the IP of nil.
place_slaves_panics :
    (c : Ctx) → orphaned c.new_masters_by_sts c.nodes ≡ true → place_slaves c ≡ none
unfolding place_slaves
place_slaves_panics c h =
    ground (arith, loop_panics c.new_masters_by_sts c.nodes true c.slaves_by_master)
