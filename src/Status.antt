-- ===== src/Status.antt =====
-- controllers/distributedrediscluster/status.go: the status of a cluster, its health, and whether the
-- masters stand in the zones due to them.
-- The counts of nodes (int32) are ℕ: there is at most one for each pod. The secrets are `none` where
-- the map is nil.
pub mod Health
pub mod Zones
pub mod Build
pub mod Compare
use rediscluster_operator.Base.Int.{ℤ, pos, negsuc}
use rediscluster_operator.Base.Parse.{cut_last, after_last, parse_int, sort_texts}
use rediscluster_operator.Base.{
  ℕ, ◌+◌, ◌%◌, Bool, true, false, ◌&&◌, ◌||◌, not, List, [], ◌∷◌, ◌++◌, Option, none, some, Text,
  txt, same, ltb, ◌==◌, if◌then◌else◌, length, get_elem?,
}
use rediscluster_operator.Nodes.{Node, RedisRole, redis_master_role, get_nodes_by_func}
use rediscluster_operator.Placement.{HaStatus, ha_healthy, ha_redistribute, ha_failed}
use rediscluster_operator.View.{InfosStatus, inconsistent}

-- RedisClusterNode of api/v1alpha1.
pub record StatusNode : Type 0 where
  pub id : Text
  pub role : RedisRole
  pub ip : Text
  pub port : Text
  pub slots : List Text
  pub master_ref : Text
  pub pod_name : Text
  pub node_name : Text
  pub zone_name : Text
  pub stateful_set : Text

-- DistributedRedisClusterStatus of api/v1alpha1.
pub record ClusterStatus : Type 0 where
  pub status : Text
  pub ha_status : HaStatus
  pub secret_status : Text
  pub secrets_ver : Option (List (Text × Text))
  pub reason : Text
  pub number_of_master : ℕ
  pub min_replication_factor : ℕ
  pub max_replication_factor : ℕ
  pub nodes : List StatusNode
  pub restore_phase : Text

abbrev pub cluster_status_ok : Text
cluster_status_ok = txt "Healthy"

abbrev pub cluster_status_nok : Text
cluster_status_nok = txt "NotHealthy"

abbrev pub cluster_status_ko : Text
cluster_status_ko = txt "Failed"

abbrev pub cluster_status_rebalancing : Text
cluster_status_rebalancing = txt "Rebalancing"

abbrev pub cluster_status_scaling : Text
cluster_status_scaling = txt "Scaling"

abbrev pub cluster_status_on_delete : Text
cluster_status_on_delete = txt "OnDelete"

abbrev pub cluster_status_reset_password : Text
cluster_status_reset_password = txt "ResetPassword"

-- SetClusterFailed
unfoldable pub set_cluster_failed : ClusterStatus → Text → ClusterStatus
set_cluster_failed s reason = record s { status = cluster_status_ko; reason = reason }

-- SetClusterOK
unfoldable pub set_cluster_ok : ClusterStatus → Text → ClusterStatus
set_cluster_ok s reason = record s { status = cluster_status_ok; reason = reason }

-- SetClusterNOK
unfoldable pub set_cluster_nok : ClusterStatus → Text → ClusterStatus
set_cluster_nok s reason = record s { status = cluster_status_nok; reason = reason }

-- SetClusterRebalancing
unfoldable pub set_cluster_rebalancing : ClusterStatus → Text → ClusterStatus
set_cluster_rebalancing s reason = record s { status = cluster_status_rebalancing; reason = reason }

-- SetClusterScaling
unfoldable pub set_cluster_scaling : ClusterStatus → Text → ClusterStatus
set_cluster_scaling s reason = record s { status = cluster_status_scaling; reason = reason }

-- SetClusterUpdating
unfoldable pub set_cluster_updating : ClusterStatus → Text → ClusterStatus
set_cluster_updating s reason = record s { status = cluster_status_on_delete; reason = reason }

-- SetSecretStatus
unfoldable pub set_secret_status : ClusterStatus → Text → ClusterStatus
set_secret_status s secret_state = record s { secret_status = secret_state }

-- SetHAStatus
unfoldable pub set_ha_status : ClusterStatus → HaStatus → ClusterStatus
set_ha_status s ha_state = record s { ha_status = ha_state }

-- SetClusterResetPassword
unfoldable pub set_cluster_reset_password : ClusterStatus → Text → ClusterStatus
set_cluster_reset_password s reason = record s {
  status = cluster_status_reset_password;
  reason = reason;
}

-- What CheackandUpdateClusterHealth reads of a ClusterInfos.
pub record ClusterState : Type 0 where
  pub infos_status : InfosStatus
  pub cluster_state : Text
  pub cluster_nok_reason : List (Text × Text)

-- The loop of CheackandUpdateClusterHealth that looks for a reason.
unfoldable pub has_reason : Text → List Text → Bool
has_reason reason [] = false
has_reason reason (r ∷ reasons) = same r reason || has_reason reason reasons

-- The loop over the reasons of the nodes: each is taken once, without what stands before the dash.
unfoldable pub collect_reasons : List Text → List (Text × Text) → List Text
collect_reasons found [] = found
collect_reasons found ((ip, value) ∷ reasons) =
    let reason = after_last b'-' value in
    collect_reasons (if has_reason reason found then found else found ++ reason ∷ []) reasons

-- strings.Join
unfoldable pub join : Text → List Text → Text
join sep [] = []
join sep (s ∷ []) = s
join sep (s ∷ t ∷ texts) = s ++ (sep ++ join sep (t ∷ texts))

abbrev pub is_inconsistent : InfosStatus → Bool
is_inconsistent inconsistent = true
is_inconsistent _ = false

-- CheackandUpdateClusterHealth
unfoldable pub check_and_update_cluster_health :
    ClusterStatus → ClusterState → ℕ → ClusterStatus × Bool
check_and_update_cluster_health s infos cluster_replicas =
    if is_inconsistent infos.infos_status
    then (set_cluster_nok s (txt "Cluster view is inconsistent"), false)
    else if ltb s.min_replication_factor cluster_replicas
    then (set_cluster_nok s (txt "Cluster Replication Factor is not met"), false)
    else if same infos.cluster_state (txt "NOK") && ltb 0 (length infos.cluster_nok_reason)
    then (set_cluster_nok s (join (txt ",") (collect_reasons [] infos.cluster_nok_reason)), false)
    else (set_cluster_ok s (txt "Cluster is healthy"), true)

-- The loop of CheckallZonesActive, from the zones active so far. `none` is an error.
unfoldable pub count_active_zones : (Text → Option Bool) → ℕ → List Text → Option ℕ
count_active_zones check active [] = some active
count_active_zones check active (zone ∷ zones) = elim (check zone) [
  | none ↦ none
  | some is_active ↦ count_active_zones check (if is_active then active + 1 else active) zones
]

-- CheckallZonesActive, with whether it returns an error.
unfoldable pub check_all_zones_active : (Text → Option Bool) → List Text → Bool × ℕ × Bool
check_all_zones_active check zones = elim (count_active_zones check 0 zones) [
  | none ↦ (false, 0, true)
  | some active ↦ (active == length zones, active, false)
]

-- getSTSindex
unfoldable pub get_sts_index : Text → Option ℤ
get_sts_index name = elim (cut_last b'-' name) [
  | none ↦ none
  | some (before, after) ↦ parse_int after
]

-- The errors of buildHAStatus.
pub data HaError : Type 0 where
  no_masters bad_index not_suitable : HaError

-- How buildHAStatus ends: in a panic of the index, or with a status, misplaced masters and an error.
pub data HaBuilt : Type 0 where
  ha_panicked : HaBuilt
  ha_built : HaStatus → List Node → Option HaError → HaBuilt

-- The rest of buildHAStatus after its loop.
unfoldable pub finish_ha_status : ℕ → ℕ → List Node → HaBuilt
finish_ha_status master_size placed misplaced =
    if placed == master_size
    then ha_built ha_healthy [] none
    else ha_built ha_redistribute misplaced (some not_suitable)

-- The zone at an offset of the sorted names. `none` is a panic.
unfoldable pub zone_at : List Text → ℤ → Option Text
zone_at zones (pos i) =
    if length zones == 0 then none else get_elem? (sort_texts zones) (i % length zones)
zone_at zones (negsuc i) =
    if length zones == 0
    then none
    else if (i + 1) % length zones == 0
    then get_elem? (sort_texts zones) 0
    else none

-- The loop of buildHAStatus over the masters, from the number placed and the misplaced ones.
unfoldable pub build_ha_loop : List Text → ℕ → ℕ → List Node → List Node → HaBuilt
build_ha_loop zones master_size placed misplaced [] = finish_ha_status master_size placed misplaced
build_ha_loop zones master_size placed misplaced (n ∷ masters) =
    elim (get_sts_index n.stateful_set) [
      | none ↦ ha_built ha_failed [] (some bad_index)
      | some index ↦ elim (zone_at zones index) [
        | none ↦ ha_panicked
        | some zone ↦
            let here = same n.zone_name zone in
            build_ha_loop zones master_size (if here then placed + 1 else placed)
              (if here then misplaced else misplaced ++ n ∷ []) masters
      ]
    ]

-- buildHAStatus on the nodes of the ClusterInfos.
unfoldable pub build_ha_status : List Text → List Node → ℕ → HaBuilt
build_ha_status zones nodes master_size =
    elim (get_nodes_by_func nodes (λ n. same n.role redis_master_role)) [
      | none ↦ ha_built ha_failed [] (some no_masters)
      | some masters ↦
          if length masters == master_size
          then build_ha_loop zones master_size 0 [] masters
          else ha_built ha_failed [] none
    ]
