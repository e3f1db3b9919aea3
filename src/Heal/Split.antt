-- ===== src/Heal/Split.antt =====
-- controllers/heal/clustersplit.go: the repair of a cluster that is split.
pub mod Main
pub mod Disjoint
pub mod Spared
use rediscluster_operator.Base.{
  ℕ, suc, ◌+◌, Bool, true, false, List, [], ◌∷◌, ◌++◌, Option, none, some, Text, same, ltb, ◌==◌,
  if◌then◌else◌, length, erase_idx, get_elem?,
}
use rediscluster_operator.Nodes.{Node, ip_port}
use rediscluster_operator.Heal.{
  NodeInfos, Cluster, Repair, replace_all, flush_and_reset, attach, Admin, Repairs, send,
}

-- `addr` is one of the addresses.
unfoldable pub in_cluster : Text → Cluster → Bool
in_cluster addr [] = false
in_cluster addr (a ∷ c) = if same addr a then true else in_cluster addr c

-- findInCluster
unfoldable pub find_in_cluster : Text → List Cluster → Bool
unfolding in_cluster
find_in_cluster addr [] = false
find_in_cluster addr (c ∷ clusters) =
    if in_cluster addr c then true else find_in_cluster addr clusters

-- The addresses of the nodes with no failure flag.
unfoldable pub healthy_addresses : List Node → Cluster
healthy_addresses [] = []
healthy_addresses (n ∷ nodes) =
    if length n.fail_status == 0
    then ip_port n ∷ healthy_addresses nodes
    else healthy_addresses nodes

-- `overlap` of buildClustersLists.
unfoldable pub overlaps : Cluster → List Cluster → Bool
overlaps [] clusters = false
overlaps (a ∷ c) clusters = if find_in_cluster a clusters then true else overlaps c clusters

-- buildClustersLists, from the clusters found so far.
unfoldable pub clusters_loop : List Cluster → List NodeInfos → List Cluster
clusters_loop clusters [] = clusters
clusters_loop clusters (i ∷ infos) =
    let c = healthy_addresses (i.friends ++ i.node ∷ []) in
    clusters_loop (if overlaps c clusters then clusters else clusters ++ c ∷ []) infos

-- buildClustersLists
unfoldable pub build_clusters_lists : List NodeInfos → List Cluster
build_clusters_lists infos = clusters_loop [] infos

-- The loop of splitMainCluster at index `i`: `maincluster`, where `none` is -1, and `maxSize`.
unfoldable pub main_loop : ℕ → Option ℕ → ℕ → List Cluster → Option ℕ
main_loop i main_cluster max_size [] = main_cluster
main_loop i main_cluster max_size (c ∷ clusters) =
    let bigger = ltb max_size (length c) in
    main_loop (suc i) (if bigger then some i else main_cluster)
      (if bigger then length c else max_size) clusters

-- The end of splitMainCluster.
unfoldable pub split_at : List Cluster → Option ℕ → Cluster × List Cluster
split_at [] main = ([], [])
split_at (c ∷ clusters) none = (c, [])
split_at (c ∷ clusters) (some i) =
    (elim (get_elem? (c ∷ clusters) i) [ none ↦ [] | some m ↦ m ], erase_idx (c ∷ clusters) i)

-- splitMainCluster
unfoldable pub split_main_cluster : List Cluster → Cluster × List Cluster
unfolding main_loop split_at
split_main_cluster clusters = split_at clusters (main_loop 0 none 0 clusters)

-- The loops of reassignClusters over the bad clusters: each node is flushed, then attached.
unfoldable pub reassign_nodes : Admin → Repairs → Cluster → Repairs
reassign_nodes admin s [] = s
reassign_nodes admin s (addr ∷ c) =
    reassign_nodes admin (send admin (attach addr) (send admin (flush_and_reset addr) s)) c

unfoldable pub reassign_loop : Admin → Repairs → List Cluster → Repairs
reassign_loop admin s [] = s
reassign_loop admin s (c ∷ bad) = reassign_loop admin (reassign_nodes admin s c) bad

-- reassignClusters: without a main cluster nothing is sent and the one error is its own.
-- ReplaceAll returns no error.
unfoldable pub reassign_clusters : Admin → List Cluster → Repairs
reassign_clusters admin clusters =
    let (main, bad) = split_main_cluster clusters in
    if length main == 0
    then record { sent = []; errs = 1 }
    else reassign_loop admin (record { sent = replace_all main ∷ []; errs = 0 }) bad

-- FixClusterSplit: whether it acts, with the calls made.
unfoldable pub fix_cluster_split : Bool → Admin → List NodeInfos → Bool × Repairs
unfolding reassign_clusters
fix_cluster_split dry_run admin infos =
    let clusters = build_clusters_lists infos in
    if ltb 1 (length clusters)
    then (
      true,
      if dry_run then record { sent = []; errs = 0 } else reassign_clusters admin clusters,
    )
    else (false, record { sent = []; errs = 0 })
