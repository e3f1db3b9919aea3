-- ===== src/Placement.antt =====
-- controllers/clustering/placement_v2.go and roles.go: which node of each stateful set is its master,
-- and which nodes are attached to it.
-- The nodes are only read here, so a pointer is the node itself. A map that is visited is a list in
-- the order of the visit; `zones` are the keys of ZonesInfo.
pub mod Names
pub mod Choice
pub mod Masters
pub mod Slaves
pub mod Attach
use rediscluster_operator.Base.Parse.{sort_texts}
use rediscluster_operator.Base.Strings.{format_uint}
use rediscluster_operator.Base.{
  ℕ, zero, suc, ◌+◌, ◌%◌, Bool, true, false, ◌&&◌, ◌||◌, not, List, [], ◌∷◌, ◌++◌, Option, none,
  some, Text, txt, same, lookup, insert, slice_at, append_at, ltb, ◌==◌, if◌then◌else◌, length,
  get_elem?, keep,
}
use rediscluster_operator.Nodes.{
  Node, is_master_with_slot, is_role_master, is_role_slave, get_role, total_slots,
  get_nodes_by_func,
}

abbrev pub unknown_vm_name : Text
unknown_vm_name = txt "unknown"

-- The HaStatus of api/v1alpha1, with the empty string.
pub data HaStatus : Type 0 where
  ha_unset ha_creating ha_healthy ha_redistribute ha_failed : HaStatus

abbrev pub is_creating : HaStatus → Bool
is_creating ha_creating = true
is_creating _ = false

-- Ctx. `cluster` is the map of the nodes of the Cluster by id.
pub record Ctx : Type 0 where
  pub expected_master_num : ℕ
  pub cluster_name : Text
  pub cluster : List (Text × Node)
  pub nodes : List (Text × List Node)
  pub current_masters : List Node
  pub new_masters_by_sts : List (Text × Node)
  pub slaves_by_master : List (Text × List Node)
  pub best_effort : Bool
  pub ha_enabled : Bool
  pub zones : List Text
  pub ha_status : HaStatus

-- The name of the stateful set that a node is filed under.
abbrev pub statefulset_of : Node → Text
statefulset_of n = if same n.stateful_set [] then unknown_vm_name else n.stateful_set

-- One round of sortRedisNodeByStatefulSet; an id that the cluster does not know is skipped.
unfoldable pub sort_node :
    List (Text × Node)
    → List (Text × List Node) × List Node
    → Node
    → List (Text × List Node) × List Node
sort_node cluster (by_sts, masters) r = elim (lookup r.id cluster) [
  | none ↦ (by_sts, masters)
  | some c ↦ (
    append_at (statefulset_of c) (r ∷ []) by_sts,
    if is_role_master (get_role r) && ltb 0 (total_slots r) then masters ++ r ∷ [] else masters,
  )
]

unfoldable pub sort_loop :
    List (Text × Node)
    → List (Text × List Node) × List Node
    → List Node
    → List (Text × List Node) × List Node
sort_loop cluster acc [] = acc
sort_loop cluster acc (r ∷ nodes) = sort_loop cluster (sort_node cluster acc r) nodes

-- NewCtx, with sortRedisNodeByStatefulSet.
unfoldable pub new_ctx :
    Bool → List Text → List (Text × Node) → HaStatus → List Node → ℕ → Text → Ctx
unfolding sort_loop
new_ctx ha_enabled zones cluster ha_status nodes master_num cluster_name =
    let (by_sts, masters) = sort_loop cluster ([], []) nodes in
    record {
      expected_master_num = master_num;
      cluster_name = cluster_name;
      cluster = cluster;
      nodes = by_sts;
      current_masters = masters;
      new_masters_by_sts = [];
      slaves_by_master = [];
      best_effort = false;
      ha_enabled = ha_enabled;
      zones = zones;
      ha_status = ha_status;
    }

-- ClusterStatefulSetName of resources/statefulsets/statefulset.go.
unfoldable pub cluster_statefulset_name : Text → ℕ → Text
cluster_statefulset_name cluster_name i = txt "drc-" ++ (cluster_name ++ (b'-' ∷ format_uint i))

-- The loop of PlaceMastersHA.
unfoldable pub first_in_zone : Text → List Node → Option Node
first_in_zone zone [] = none
first_in_zone zone (n ∷ nodes) = if same n.zone_name zone then some n else first_in_zone zone nodes

-- PlaceMastersHA. The outer `none` is the panic of a remainder by zero, the inner one is nil.
unfoldable pub place_masters_ha : Ctx → ℕ → Text → Option (Option Node)
unfolding first_in_zone
place_masters_ha c i sts =
    if length c.zones == 0
    then none
    else elim (get_elem? (sort_texts c.zones) (i % length c.zones)) [
      | none ↦ none
      | some zone ↦ some (first_in_zone zone (slice_at sts c.nodes))
    ]

unfoldable pub masters_of : List (Text × Node) → List Node
masters_of [] = []
masters_of ((sts, m) ∷ masters) = m ∷ masters_of masters

-- Some node of the list runs on the VM.
unfoldable pub on_vm : Text → List Node → Bool
on_vm vm [] = false
on_vm vm (n ∷ nodes) = if same n.node_name vm then true else on_vm vm nodes

-- The loop of PlaceMasters: the first node on a VM with no master.
unfoldable pub first_spread : List Node → List Node → Option Node
first_spread masters [] = none
first_spread masters (n ∷ nodes) =
    if on_vm n.node_name masters then first_spread masters nodes else some n

-- PlaceMasters, with whether it sets `bestEffort`. `none` is the panic of `nodes[0]` on an empty slice.
unfoldable pub place_masters : Ctx → Text → Option (Node × Bool)
unfolding masters_of on_vm first_spread
place_masters c sts =
    let nodes = slice_at sts c.nodes in
    elim (first_spread (c.current_masters ++ masters_of c.new_masters_by_sts) nodes) [
      | some n ↦ some (n, c.best_effort)
      | none ↦ elim nodes [ [] ↦ none | n ∷ _ ↦ some (n, true) ]
    ]

-- How DispatchMasters ends.
pub data Dispatched : Type 0 where
  placed : Ctx → Dispatched
  missing_statefulset unable_to_place split_brain : Text → Dispatched
  panicked : Dispatched

abbrev pub place_at : Ctx → Text → Node → Ctx
place_at c sts m = record c { new_masters_by_sts = insert sts m c.new_masters_by_sts }

-- A stateful set with no master that holds slots.
unfoldable pub place_new : Ctx → ℕ → Text → Dispatched
unfolding place_masters_ha place_masters
place_new c i sts =
    if c.ha_enabled && is_creating c.ha_status
    then elim (place_masters_ha c i sts) [
      | none ↦ panicked
      | some none ↦ unable_to_place sts
      | some (some m) ↦ placed (place_at c sts m)
    ]
    else elim (place_masters c sts) [
      | none ↦ panicked
      | some (m, best_effort) ↦ placed (place_at (record c { best_effort = best_effort }) sts m)
    ]

-- One round of DispatchMasters.
unfoldable pub dispatch_master : Ctx → ℕ → Dispatched
dispatch_master c i =
    let sts = cluster_statefulset_name c.cluster_name i in
    elim (lookup sts c.nodes) [
      | none ↦ missing_statefulset sts
      | some nodes ↦ elim (keep is_master_with_slot nodes) [
        | [] ↦ place_new c i sts
        | m ∷ [] ↦ placed (place_at c sts m)
        | m ∷ m' ∷ _ ↦ split_brain sts
      ]
    ]

-- The loop of DispatchMasters at index `i`, with `rounds` of it left.
unfoldable pub dispatch_masters_loop : ℕ → ℕ → Ctx → Dispatched
dispatch_masters_loop zero i c = placed c
dispatch_masters_loop (suc rounds) i c = elim (dispatch_master c i) [
  | placed c' ↦ dispatch_masters_loop rounds (suc i) c'
  | other ↦ other
]

-- DispatchMasters
unfoldable pub dispatch_masters : Ctx → Dispatched
dispatch_masters c = dispatch_masters_loop c.expected_master_num 0 c

-- Whether PlaceSlaves attaches the node to the master.
unfoldable pub needs_attach : Node → Node → Bool
needs_attach m n =
    not (same n.ip m.ip) && not (is_role_slave (get_role n) && same n.master_referent m.id)

-- The inner loop of PlaceSlaves: `bestEffort` and the slaves of the master.
unfoldable pub place_slaves_of :
    Node → Bool → List (Text × List Node) → List Node → Bool × List (Text × List Node)
place_slaves_of m best_effort slaves [] = (best_effort, slaves)
place_slaves_of m best_effort slaves (n ∷ nodes) =
    place_slaves_of m
      (if same n.ip m.ip || same n.node_name m.node_name then best_effort else false)
      (if needs_attach m n then append_at m.id (n ∷ []) slaves else slaves) nodes

-- The outer loop of PlaceSlaves. `none` is the panic on the master of a stateful set that has none.
unfoldable pub place_slaves_loop :
    List (Text × Node)
    → Bool
    → List (Text × List Node)
    → List (Text × List Node)
    → Option (Bool × List (Text × List Node))
place_slaves_loop masters best_effort slaves [] = some (best_effort, slaves)
place_slaves_loop masters best_effort slaves ((sts, []) ∷ m) =
    place_slaves_loop masters best_effort slaves m
place_slaves_loop masters best_effort slaves ((sts, n ∷ nodes) ∷ m) = elim (lookup sts masters) [
  | none ↦ none
  | some master ↦
      let r = place_slaves_of master best_effort slaves (n ∷ nodes) in
      place_slaves_loop masters r.0 r.1 m
]

-- PlaceSlaves
unfoldable pub place_slaves : Ctx → Option Ctx
place_slaves c = elim (place_slaves_loop c.new_masters_by_sts true c.slaves_by_master c.nodes) [
  | none ↦ none
  | some (best_effort, slaves) ↦
      some (record c { best_effort = best_effort; slaves_by_master = slaves })
]
