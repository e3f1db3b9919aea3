-- ===== src/Tests/Heal.antt =====
-- controllers/heal on small inputs.
use rediscluster_operator.Base.{◌≤◌, true, false, ◌≡◌, refl, List, [], ◌∷◌, txt, same}
use rediscluster_operator.Base.Strings.{join_host_port, contains_byte}
use rediscluster_operator.Nodes.{ip_port, node_status_fail, node_status_handshake}
use rediscluster_operator.Heal.{NodeInfos, Cluster, send}
use rediscluster_operator.Heal.Split.{
  split_main_cluster, build_clusters_lists, fix_cluster_split, in_cluster, find_in_cluster,
  clusters_loop, overlaps, healthy_addresses, reassign_loop, reassign_nodes,
}
use rediscluster_operator.Heal.Split.Main.{has_nodes, FirstLargest, split_main_cluster-FirstLargest}
use rediscluster_operator.Heal.Split.Disjoint.{holders, build_clusters_lists-disjoint}
use rediscluster_operator.Heal.Split.Spared.{flushed, fix_cluster_split-spares}
use rediscluster_operator.Heal.Untrusted.{Pod, fix_untrusted_nodes, list_untrusted_nodes}
use rediscluster_operator.Heal.Untrusted.Pods.{deleted, some_due, deleted-fix_untrusted_nodes}
use rediscluster_operator.Tests.{node_a, node_b, node_c, works}

-- `a` and `b` see each other, and `c` is alone.
abbrev views : List NodeInfos
views =
    record { node = node_a; friends = node_b ∷ [] }
    ∷ record { node = node_b; friends = node_a ∷ [] }
    ∷ record { node = node_c; friends = [] }
    ∷ []

abbrev clusters : List Cluster
clusters = (txt "c" ∷ []) ∷ (txt "a" ∷ txt "b" ∷ []) ∷ []

clusters-has_nodes : has_nodes clusters ≡ true
unfolding has_nodes
clusters-has_nodes = refl

split_main_cluster-FirstLargest_example : FirstLargest clusters (split_main_cluster clusters)
split_main_cluster-FirstLargest_example =
    split_main_cluster-FirstLargest clusters clusters-has_nodes

build_clusters_lists-disjoint_example :
    holders (txt "10.0.0.1:6379") (build_clusters_lists views) ≤ 1
build_clusters_lists-disjoint_example = build_clusters_lists-disjoint (txt "10.0.0.1:6379") views

flushes_c : flushed (txt "10.0.0.3:6379") (fix_cluster_split false works views).1.sent ≡ true
unfolding flushed fix_cluster_split build_clusters_lists clusters_loop overlaps healthy_addresses
    find_in_cluster same ip_port join_host_port contains_byte split_main_cluster reassign_loop
    reassign_nodes send
flushes_c = refl

fix_cluster_split-spares_example :
    (false ≡ false)
    × (in_cluster (txt "10.0.0.3:6379") (split_main_cluster (build_clusters_lists views)).0 ≡ false)
fix_cluster_split-spares_example =
    fix_cluster_split-spares false works views (txt "10.0.0.3:6379") flushes_c

-- `a` and `b` both see `c` fail.
abbrev failing : List NodeInfos
failing =
    record { node = node_a; friends = record node_c { fail_status = node_status_fail ∷ [] } ∷ [] }
    ∷ record { node = node_b; friends = record node_c { fail_status = node_status_fail ∷ [] } ∷ [] }
    ∷ []

-- `a` sees `c` in a handshake; the pod that `c` notes has another address now.
abbrev shaking : List NodeInfos
shaking =
    record {
      node = node_a;
      friends =
          record node_c { fail_status = node_status_handshake ∷ []; pod_name = txt "p2" } ∷ [];
    }
    ∷ []

abbrev moved_pod : Pod
moved_pod = record { name = txt "p2"; pod_ip = txt "10.0.0.9" }

deleted-fix_untrusted_nodes_example :
    deleted (txt "p2") (fix_untrusted_nodes true works (λ m. m) (moved_pod ∷ []) shaking).1.sent
    ≡ some_due (txt "p2") (moved_pod ∷ []) shaking (list_untrusted_nodes [] shaking)
deleted-fix_untrusted_nodes_example =
    deleted-fix_untrusted_nodes (txt "p2") true works (λ m. m) (moved_pod ∷ []) shaking
