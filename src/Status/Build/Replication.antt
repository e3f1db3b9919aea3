-- ===== src/Status/Build/Replication.antt =====
-- The replication factors of buildClusterStatus against the entries of the status.
use rediscluster_operator.Base.{
  ℕ, ◌+◌, ◌≡◌, refl, sym, ◌∙◌, ◌≤◌, inl, inr, Bool, true, ◌&&◌, not, List, [], ◌∷◌, ◌++◌, Option,
  Text, same, lookup, ltb, if◌then◌else◌, length, keep, arith, All, All-snoc, All-map, Bool-cases,
}
use rediscluster_operator.Nodes.{Node, is_role_master, is_master_with_slot}
use rediscluster_operator.Status.Build.Counts.{
  has_count, count_at-count_master, count_at-count_slave, has_count-count_node,
  has_count-count_slave, has_count-master, bounds_hold, empty_bounds,
}
use rediscluster_operator.Status.{StatusNode, ClusterStatus}
use rediscluster_operator.Status.Build.{
  Pod, Building, count_at, is_counted_slave, entry_of, count_master, count_slave, on_pod,
  add_matching, add_pod, add_pods, zone_of, build_cluster_status, max_int32,
}

-- The entries that name the node with the id as their master.
unfoldable pub replicas : Text → List StatusNode → ℕ
replicas id [] = 0
replicas id (s ∷ nodes) =
    (if same s.master_ref id && not (same s.master_ref []) then 1 else 0) + replicas id nodes

-- A master that holds slots.
abbrev pub is_master_entry : StatusNode → Bool
is_master_entry s = is_role_master s.role && ltb 0 (length s.slots)

replicas-snoc :
    (id : Text) (nodes : List StatusNode) (s : StatusNode)
    → replicas id (nodes ++ s ∷ [])
      ≡ replicas id nodes + (if same s.master_ref id && not (same s.master_ref []) then 1 else 0)
unfolding replicas
replicas-snoc id [] s = ground arith
replicas-snoc id (t ∷ nodes) s = ground (arith, replicas-snoc id nodes s)

-- The counts are the numbers of entries, and each master that holds slots has one.
abbrev Counted : Building → Type 0
Counted b =
    ((id : Text) → count_at id b.nb_slave_by_master ≡ replicas id b.status_nodes)
    × All (λ s. is_master_entry s ≡ true → has_count s.id b.nb_slave_by_master ≡ true)
        b.status_nodes

entry-replica :
    (id zone : Text) (pod : Pod) (n : Node)
    → (same (entry_of pod zone n).master_ref id && not (same (entry_of pod zone n).master_ref []))
      ≡ (is_counted_slave n && same n.master_referent id)
unfolding entry_of same
entry-replica id zone pod n = ground arith

entry-master :
    (zone : Text) (pod : Pod) (n : Node)
    → is_master_entry (entry_of pod zone n) ≡ true
    → is_master_with_slot n ≡ true
unfolding entry_of is_master_with_slot
entry-master zone pod n h = elim (Bool-cases (ltb 0 (length n.slots))) [
  | inl e ↦ ground arith
  | inr e ↦ absurd (ground arith)
]

add_matching-Counted :
    (labels : Text → Option (List (Text × Text))) (update : Bool) (b : Building) (pod : Pod)
    (ns : List Node)
    → Counted b
    → Counted (add_matching labels update b pod ns)
unfolding entry_of
add_matching-Counted labels update b pod [] h = h
add_matching-Counted labels update b pod (n ∷ n' ∷ ns) h = h
add_matching-Counted labels update b pod (n ∷ []) h =
    let zone = zone_of (labels pod.node_name) in
    let counts = b.nb_slave_by_master in
    let entry = entry_of pod zone n in
    (
      λ id.
          count_at-count_slave id n (count_master n counts)
          ∙ ground (
            arith,
            count_at-count_master id n counts,
            h.0 id,
            replicas-snoc id b.status_nodes entry,
            entry-replica id zone pod n,
          ),
      All-snoc
          (λ s.
            is_master_entry s ≡ true
            → has_count s.id (count_slave n (count_master n counts)) ≡ true)
          b.status_nodes entry
          (All-map b.status_nodes (λ s k m. has_count-count_node s.id n counts (k m)) h.1)
          (λ m.
            has_count-count_slave n.id n (count_master n counts)
              (has_count-master n counts (entry-master zone pod n m))),
    )

add_pods-Counted :
    (labels : Text → Option (List (Text × Text))) (update : Bool) (b : Building) (pods : List Pod)
    → Counted b
    → Counted (add_pods labels update b pods)
unfolding add_pods add_pod
add_pods-Counted labels update b [] h = h
add_pods-Counted labels update b (pod ∷ pods) h =
    add_pods-Counted labels update (add_pod labels update b pod) pods
      (add_matching-Counted labels update b pod (keep (on_pod pod) b.nodes) h)

no_replicas : (id : Text) → count_at id [] ≡ replicas id []
unfolding count_at lookup replicas
no_replicas id = refl

-- The replicas of an entry lie between the bounds of the status.
abbrev pub WithinBounds : ClusterStatus → StatusNode → Type 0
WithinBounds status s =
    (status.min_replication_factor ≤ replicas s.id status.nodes)
    × (replicas s.id status.nodes ≤ status.max_replication_factor)

-- In the status that buildClusterStatus makes, for every entry of a master that holds slots the number
-- of entries that name it as their master lies between MinReplicationFactor and
-- MaxReplicationFactor, whatever the pods, the nodes and their machines.
pub build_cluster_status-WithinBounds :
    (labels : Text → Option (List (Text × Text))) (nodes : List Node) (pods : List Pod)
    (old : ClusterStatus) (update : Bool)
    → All
        (λ s.
          is_master_entry s ≡ true
          → WithinBounds (build_cluster_status labels nodes pods old update).0 s)
        (build_cluster_status labels nodes pods old update).0.nodes
unfolding build_cluster_status
build_cluster_status-WithinBounds labels nodes pods old update =
    let b0 : Building = record {
      nodes = nodes;
      status_nodes = [];
      nb_master = 0;
      nb_slave_by_master = [];
    } in
    let b = add_pods labels update b0 pods in
    let counted = add_pods-Counted labels update b0 pods (no_replicas, tt) in
    All-map b.status_nodes
      (λ s known m.
        let bounds = bounds_hold max_int32 0 b.nb_slave_by_master s.id (known m) in
        let some_count = empty_bounds b.nb_slave_by_master s.id (known m) in
        rw (some_count, sym (counted.0 s.id)) bounds)
      counted.1
