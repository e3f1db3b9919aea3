-- ===== src/Tests/Status.antt =====
-- controllers/distributedrediscluster/status.go on small inputs.
use rediscluster_operator.Base.{
  ◌≡◌, refl, ◌⊎◌, ◌↔◌, ◌≢◌, true, false, List, [], ◌∷◌, Option, none, some, Text, txt, same, length,
  keep, slice_at, All, arith,
}
use rediscluster_operator.Base.Strings.{format_uint}
use rediscluster_operator.Base.Parse.{sort_texts, leb_text}
use rediscluster_operator.Nodes.{Node}
use rediscluster_operator.Placement.{
  Ctx, ha_creating, ha_healthy, ha_redistribute, cluster_statefulset_name, place_masters_ha,
  first_in_zone,
}
use rediscluster_operator.View.{consistent}
use rediscluster_operator.Status.{
  ClusterStatus, ClusterState, cluster_status_ok, ha_built, not_suitable, build_ha_status,
}
use rediscluster_operator.Status.Zones.{
  masters_in, misplaced_in, IsFiled, build_ha_status_lem, place_masters_ha-in_zone,
}
use rediscluster_operator.Status.Build.{Pod, build_cluster_status}
use rediscluster_operator.Status.Build.Replication.{
  is_master_entry, WithinBounds, build_cluster_status-WithinBounds,
}
use rediscluster_operator.Status.Compare.{compare_status}
use rediscluster_operator.Status.Compare.Exact.{SameHead, Kept, compare_status_iff}
use rediscluster_operator.Tests.{node_a, node_b}

abbrev pub old_status : ClusterStatus
old_status = record {
  status = cluster_status_ok;
  ha_status = ha_healthy;
  secret_status = [];
  secrets_ver = some ((txt "s", txt "1") ∷ []);
  reason = [];
  number_of_master = 1;
  min_replication_factor = 1;
  max_replication_factor = 1;
  nodes = [];
  restore_phase = [];
}

abbrev unhealthy : ClusterState
unhealthy = record {
  infos_status = consistent;
  cluster_state = txt "NOK";
  cluster_nok_reason = (txt "10.0.0.1", txt "10.0.0.1-fail") ∷ [];
}

abbrev two_zones : List Text
two_zones = txt "z2" ∷ txt "z1" ∷ []

abbrev filed : Node
filed = record node_a { stateful_set = cluster_statefulset_name (txt "c") 1; zone_name = txt "z2" }

one_master : length (masters_in (filed ∷ [])) ≡ 1
unfolding same
one_master = refl

one_filed : All (IsFiled (txt "c")) (masters_in (filed ∷ []))
unfolding same
one_filed = ((1, refl, omega arith), tt)

build_ha_status_lem_example :
    ((keep (misplaced_in two_zones) (masters_in (filed ∷ [])) ≡ [])
      × (build_ha_status two_zones (filed ∷ []) 1 ≡ ha_built ha_healthy [] none))
    ⊎ ((keep (misplaced_in two_zones) (masters_in (filed ∷ [])) ≢ [])
        × (build_ha_status two_zones (filed ∷ []) 1
            ≡ ha_built ha_redistribute
                (keep (misplaced_in two_zones) (masters_in (filed ∷ [])))
                (some not_suitable)))
build_ha_status_lem_example =
    build_ha_status_lem two_zones (txt "c") (filed ∷ []) 1 (omega arith) (omega arith) one_master
      one_filed

abbrev ha_ctx : Ctx
ha_ctx = record {
  expected_master_num = 2;
  cluster_name = txt "c";
  cluster = [];
  nodes = (txt "drc-c-1", node_b ∷ filed ∷ []) ∷ [];
  current_masters = [];
  new_masters_by_sts = [];
  slaves_by_master = [];
  best_effort = false;
  ha_enabled = true;
  zones = two_zones;
  ha_status = ha_creating;
}

picks_filed : place_masters_ha ha_ctx 1 filed.stateful_set ≡ some (some filed)
unfolding place_masters_ha first_in_zone same cluster_statefulset_name format_uint sort_texts
    leb_text slice_at
picks_filed = refl

place_masters_ha-in_zone_example : misplaced_in two_zones filed ≡ false
place_masters_ha-in_zone_example =
    place_masters_ha-in_zone ha_ctx 1 filed (omega arith) refl picks_filed

abbrev some_pod : Pod
some_pod = record {
  name = txt "p";
  node_name = txt "vm";
  pod_ip = node_a.ip;
  owner = some (txt "StatefulSet", txt "drc-c-0");
}

abbrev no_labels : Text → Option (List (Text × Text))
no_labels vm = none

build_cluster_status-WithinBounds_example :
    All
      (λ s.
        is_master_entry s ≡ true
        → WithinBounds
            (build_cluster_status no_labels
              (node_a ∷ node_b ∷ [])
              (some_pod ∷ [])
              old_status
              true).0
            s)
      (build_cluster_status no_labels
        (node_a ∷ node_b ∷ [])
        (some_pod ∷ [])
        old_status
        true).0.nodes
build_cluster_status-WithinBounds_example =
    build_cluster_status-WithinBounds no_labels (node_a ∷ node_b ∷ []) (some_pod ∷ []) old_status
      true

compare_status_iff_example :
    (compare_status old_status old_status ≡ false)
    ↔ (SameHead old_status old_status × All (Kept old_status.nodes) old_status.nodes)
compare_status_iff_example = compare_status_iff old_status old_status
