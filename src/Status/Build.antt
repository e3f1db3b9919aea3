-- ===== src/Status/Build.antt =====
-- buildClusterStatus of controllers/distributedrediscluster/status.go: the status of a cluster from
-- its pods and the nodes that Redis reports.
-- `nodes` is what GetNodes gives; its elements are pointers that updateClusterInfo writes through, so
-- the new nodes are returned with the status. `labels` asks for the labels of a machine (GetNode),
-- `none` on an error.
pub mod Counts
pub mod Replication
use rediscluster_operator.Base.{
  ℕ, ◌+◌, ◌^◌, ◌-◌, Bool, true, false, ◌&&◌, not, List, [], ◌∷◌, ◌++◌, Option, none, some, Text,
  txt, same, lookup, insert, ltb, ◌==◌, if◌then◌else◌, length, keep, map,
}
use rediscluster_operator.Slots.{slot_ranges_from_slots}
use rediscluster_operator.Slots.Decode.{range_string}
use rediscluster_operator.Nodes.{Node, get_role, is_slave, is_master_with_slot}
use rediscluster_operator.Status.{StatusNode, ClusterStatus}

-- What is read of a pod; `owner` is the kind and the name of its first owner.
pub record Pod : Type 0 where
  pub name : Text
  pub node_name : Text
  pub pod_ip : Text
  pub owner : Option (Text × Text)

abbrev pub zone_label : Text
zone_label = txt "topology.kubernetes.io/zone"

-- GetZoneLabel of utils/k8sutil/node.go, "unknown" where GetNode fails.
unfoldable pub zone_of : Option (List (Text × Text)) → Text
zone_of none = txt "unknown"
zone_of (some labels) = elim (lookup zone_label labels) [ none ↦ txt "unknown" | some zone ↦ zone ]

-- `m[k]` on a map of counts.
unfoldable pub count_at : Text → List (Text × ℕ) → ℕ
count_at k m = elim (lookup k m) [ none ↦ 0 | some c ↦ c ]

-- What the loop over the pods has made so far.
pub record Building : Type 0 where
  pub nodes : List Node
  pub status_nodes : List StatusNode
  pub nb_master : ℕ
  pub nb_slave_by_master : List (Text × ℕ)

abbrev statefulset_of : Option (Text × Text) → Text
statefulset_of none = []
statefulset_of (some (kind, name)) = if same kind (txt "StatefulSet") then name else []

-- The fields of a node that updateClusterInfo sets.
unfoldable pub place_on : Pod → Text → Node → Node
place_on pod zone n = record n {
  node_name = pod.node_name;
  pod_name = pod.name;
  zone_name = zone;
  stateful_set = statefulset_of pod.owner;
}

abbrev pub is_counted_slave : Node → Bool
is_counted_slave n = is_slave n && not (same n.master_referent [])

-- The entry of a pod and its node.
unfoldable pub entry_of : Pod → Text → Node → StatusNode
entry_of pod zone n = record {
  id = n.id;
  role = get_role n;
  ip = pod.pod_ip;
  port = n.port;
  slots = if ltb 0 (length n.slots) then map range_string (slot_ranges_from_slots n.slots) else [];
  master_ref = if is_counted_slave n then n.master_referent else [];
  pod_name = pod.name;
  node_name = pod.node_name;
  zone_name = zone;
  stateful_set = statefulset_of pod.owner;
}

-- A master that holds slots has a count, from 0.
unfoldable pub count_master : Node → List (Text × ℕ) → List (Text × ℕ)
count_master n counts =
    if is_master_with_slot n
    then (elim (lookup n.id counts) [ none ↦ insert n.id 0 counts | some _ ↦ counts ])
    else counts

-- A slave that names its master is counted there.
unfoldable pub count_slave : Node → List (Text × ℕ) → List (Text × ℕ)
count_slave n counts =
    if is_counted_slave n
    then insert n.master_referent (count_at n.master_referent counts + 1) counts
    else counts

abbrev pub on_pod : Pod → Node → Bool
on_pod pod n = same n.ip pod.pod_ip

-- The body of the loop over the pods, on the nodes with the address of the pod: only a pod with
-- exactly one node has an entry.
abbrev pub add_matching :
    (Text → Option (List (Text × Text))) → Bool → Building → Pod → List Node → Building
add_matching labels update b pod (n ∷ []) =
    let zone = zone_of (labels pod.node_name) in
    record {
      nodes =
          if update
          then map (λ m. if on_pod pod m then place_on pod zone m else m) b.nodes
          else b.nodes;
      status_nodes = b.status_nodes ++ entry_of pod zone n ∷ [];
      nb_master = b.nb_master + (if is_master_with_slot n then 1 else 0);
      nb_slave_by_master = count_slave n (count_master n b.nb_slave_by_master);
    }
add_matching labels update b pod _ = b

-- One round of the loop over the pods.
unfoldable pub add_pod : (Text → Option (List (Text × Text))) → Bool → Building → Pod → Building
add_pod labels update b pod = add_matching labels update b pod (keep (on_pod pod) b.nodes)

unfoldable pub add_pods :
    (Text → Option (List (Text × Text))) → Bool → Building → List Pod → Building
add_pods labels update b [] = b
add_pods labels update b (pod ∷ pods) = add_pods labels update (add_pod labels update b pod) pods

abbrev pub max_int32 : ℕ
max_int32 = 2 ^ 31 - 1

-- The loop over the counts, from the least and the greatest so far.
unfoldable pub replication_bounds : ℕ → ℕ → List (Text × ℕ) → ℕ × ℕ
replication_bounds least greatest [] = (least, greatest)
replication_bounds least greatest ((id, counter) ∷ counts) =
    replication_bounds (if ltb counter least then counter else least)
      (if ltb greatest counter then counter else greatest) counts

-- buildClusterStatus: the status, and the nodes as it leaves them.
unfoldable pub build_cluster_status :
    (Text → Option (List (Text × Text)))
    → List Node
    → List Pod
    → ClusterStatus
    → Bool
    → ClusterStatus × List Node
build_cluster_status labels nodes pods old update =
    let b =
      add_pods labels update
        (record { nodes = nodes; status_nodes = []; nb_master = 0; nb_slave_by_master = [] })
        pods in
    let (least, greatest) = replication_bounds max_int32 0 b.nb_slave_by_master in
    (
      record old {
        nodes = b.status_nodes;
        number_of_master = b.nb_master;
        max_replication_factor = greatest;
        min_replication_factor = if length b.nb_slave_by_master == 0 then 0 else least;
      },
      b.nodes,
    )
