-- ===== src/Reconcile/Redistribute.antt =====
-- getListofNodestoDelete and PlaceMastersbySTS of
-- controllers/distributedrediscluster/distributedrediscluster_controller.go.
-- The replicas are not negative here, and the counts (int32) are ℕ: `numNodesToDelete` and what is
-- taken from it are counted apart, since only their difference with 0 is tested.
pub mod Single
use rediscluster_operator.Base.Int.{ℤ}
use rediscluster_operator.Base.Parse.{sort_texts}
use rediscluster_operator.Base.{
  ℕ, zero, suc, ◌+◌, ◌-◌, ◌*◌, ◌/◌, Bool, true, false, ◌||◌, List, [], ◌∷◌, ◌++◌, Option, none,
  some, Text, txt, same, insert, slice_at, ltb, ◌==◌, if◌then◌else◌, length, keep,
}
use rediscluster_operator.Nodes.{Node, redis_master_role, redis_slave_role, get_nodes_by_func}
use rediscluster_operator.Placement.{cluster_statefulset_name}
use rediscluster_operator.Status.{get_sts_index, zone_at}
use rediscluster_operator.Reconcile.{
  Step, History, failed_over, M, ◌>>=◌, ◌>>◌, pure, return, emit, ask, return_if, or_panic,
  or_return,
}
use rediscluster_operator.Reconcile.Errors.{Err, Library, foreign}

-- The nodes of a stateful set, with too few of them as an error.
unfoldable pub nodes_of_set : List Node → ℕ → Text → Option (List Node)
nodes_of_set nodes replicas sts = elim (get_nodes_by_func nodes (λ n. same n.stateful_set sts)) [
  | none ↦ none
  | some set_nodes ↦ if ltb (length set_nodes) (replicas + 1) then none else some set_nodes
]

-- Every node has one of the two roles.
unfoldable pub valid_roles : List Node → Bool
valid_roles [] = true
valid_roles (n ∷ nodes) =
    if same n.role redis_master_role || same n.role redis_slave_role
    then valid_roles nodes
    else false

abbrev pub in_zone : Text → List Node → List Node
in_zone zone nodes = keep (λ n. same n.zone_name zone) nodes

-- The nodes of a stateful set by zone, and the number that the zones lack; `none` is an invalid role.
unfoldable pub split_zones : ℕ → List Node → List Text → Option (List (Text × List Node) × ℕ)
split_zones least nodes [] = some ([], 0)
split_zones least nodes (zone ∷ zones) =
    let here = in_zone zone nodes in
    if valid_roles here
    then elim (split_zones least nodes zones) [
      | none ↦ none
      | some (rest, lacking) ↦ some ((zone, here) ∷ rest, (least - length here) + lacking)
    ]
    else none

-- The first loop of getListofNodestoDelete from index `i`: the sets by zone and what they lack.
unfoldable pub survey :
    List Node → ℕ → Text → List Text → ℕ → ℕ → ℕ → Option (List (List (Text × List Node)) × ℕ)
survey nodes replicas name zones least zero i = some ([], 0)
survey nodes replicas name zones least (suc rounds) i =
    elim (nodes_of_set nodes replicas (cluster_statefulset_name name i)) [
      | none ↦ none
      | some set_nodes ↦ elim (split_zones least set_nodes zones) [
        | none ↦ none
        | some (by_zone, lacking) ↦ elim (survey nodes replicas name zones least rounds (suc i)) [
          | none ↦ none
          | some (rest, more) ↦ some (by_zone ∷ rest, lacking + more)
        ]
      ]
    ]

-- The map of the nodes to delete by stateful set, and how many were put in.
abbrev pub Chosen : Type 0
Chosen = List (Text × List Node) × ℕ

-- The inner loop of the second loop, over the nodes of a zone: the entry of the stateful set becomes
-- the entry under the name of the zone, with the slave after it.
unfoldable pub choose_slaves : Text → Chosen → List Node → Chosen
choose_slaves zone chosen [] = chosen
choose_slaves zone chosen (n ∷ nodes) =
    choose_slaves zone
      (if same n.role redis_slave_role
        then (insert n.stateful_set (slice_at zone chosen.0 ++ n ∷ []) chosen.0, chosen.1 + 1)
        else chosen)
      nodes

-- The loop over the zones of a stateful set: only a zone with too many nodes counts.
unfoldable pub choose_zones : ℕ → Chosen → List (Text × List Node) → Chosen
choose_zones most chosen [] = chosen
choose_zones most chosen ((zone, nodes) ∷ by_zone) =
    choose_zones most (if ltb most (length nodes) then choose_slaves zone chosen nodes else chosen)
      by_zone

-- The second loop of getListofNodestoDelete.
unfoldable pub choose_sets : ℕ → Chosen → List (List (Text × List Node)) → Chosen
choose_sets most chosen [] = chosen
choose_sets most chosen (by_zone ∷ sets) = choose_sets most (choose_zones most chosen by_zone) sets

-- How getListofNodestoDelete ends; with no zones it divides by 0.
pub data ToDelete : Type 0 where
  divides_by_zero not_identified : ToDelete
  to_delete : ℕ → List (Text × List Node) → ToDelete

-- getListofNodestoDelete on the zones of the HA configuration.
unfoldable pub get_list_of_nodes_to_delete : List Text → List Node → Text → ℕ → ℕ → ToDelete
get_list_of_nodes_to_delete zone_names nodes name replicas master_size =
    let zones = sort_texts zone_names in
    let least = (1 + replicas) / length zones in
    let most = ((1 + replicas) + (length zones - 1)) / length zones in
    if length zones == 0
    then divides_by_zero
    else elim (survey nodes replicas name zones least master_size 0) [
      | none ↦ not_identified
      | some (sets, lacking) ↦
          let chosen = choose_sets most ([], 0) sets in
          if lacking == 0
          then to_delete 0 []
          else if lacking == chosen.1
          then to_delete lacking chosen.0
          else not_identified
    ]

module _ {Q E : Type 0} (lib : Library E) (failover : History Q → Node → Option (Err E)) where
  abbrev pub failure : Text → Option (Err E)
  failure msg = some (foreign (lib.new msg))

  -- The inner loop of PlaceMastersbySTS: the slaves in the zone are promoted.
  unfoldable pub promote : Text → List Node → M Q (Option (Err E)) (Unit {0})
  promote zone [] = pure tt
  promote zone (n ∷ nodes) =
      if same n.zone_name zone
      then (if same n.role redis_master_role
          then promote zone nodes
          else if same n.role redis_slave_role
          then (do
            err ← ask (λ h. failover h n)
            emit (failed_over n)
            return_if err (λ e. some e)
            promote zone nodes)
          else return (failure (txt "invalid Role " ++ n.role)))
      else promote zone nodes

  -- PlaceMastersbySTS
  unfoldable pub place_masters_by_sts :
      List Text → List Node → ℕ → List Node → M Q (Option (Err E)) (Option (Err E))
  place_masters_by_sts zones nodes replicas [] = pure none
  place_masters_by_sts zones nodes replicas (m ∷ displaced) = do
    set_nodes ←
        or_return (nodes_of_set nodes replicas m.stateful_set)
          (failure (txt "invalid number of nodes in sts " ++ m.stateful_set))
    index ← or_return (get_sts_index m.stateful_set) (failure (txt "unable to retrieve STS index"))
    zone ← or_panic (zone_at zones index)
    promote zone set_nodes
    place_masters_by_sts zones nodes replicas displaced
