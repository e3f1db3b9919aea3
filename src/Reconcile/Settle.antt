-- ===== src/Reconcile/Settle.antt =====
-- The second half of Reconcile: the status, clustering, the health of the cluster, the update of its
-- pods, and the redistribution over the zones.
use rediscluster_operator.Base.Int.{pos, pos_part}
use rediscluster_operator.Base.{
  ℕ, zero, suc, Bool, true, false, ◌&&◌, List, [], ◌∷◌, none, some, Text, txt, same, slice_at, ltb,
  ◌==◌, if◌then◌else◌, length, map,
}
use rediscluster_operator.Nodes.{Node}
use rediscluster_operator.Admin.Infos.{ClusterInfos}
use rediscluster_operator.Placement.{
  HaStatus, ha_healthy, ha_redistribute, ha_failed, cluster_statefulset_name,
}
use rediscluster_operator.Api.{Cluster}
use rediscluster_operator.Status.{
  ClusterStatus, ClusterState, cluster_status_on_delete, set_cluster_failed,
  set_cluster_rebalancing, set_cluster_updating, set_ha_status, build_ha_status, HaBuilt,
  ha_panicked, ha_built,
}
use rediscluster_operator.Status.Build.{build_cluster_status}
use rediscluster_operator.Reconcile.{
  History, deleted_pod, wrote_annotation, set_config, M, ◌>>=◌, ◌>>◌, pure, return, panic, emit,
  ask, return_if, call,
}
use rediscluster_operator.Reconcile.Errors.{redis, wrap}
use rediscluster_operator.Reconcile.Passwords.{update_cluster_if_need}
use rediscluster_operator.Reconcile.Pods.{Pod, check_and_update_pods, succeeds}
use rediscluster_operator.Reconcile.Sync.{sync_cluster, need_cluster_operation, zones_of}
use rediscluster_operator.Reconcile.Redistribute.{place_masters_by_sts}
use rediscluster_operator.Reconcile.World.{Answer, World, requeue_after, failed}
use rediscluster_operator.Reconcile.Round.{report, nodes_of}

-- What buildHAStatus returns; its error is not looked at.
abbrev pub ha_or_panic : {Q R : Type 0} → HaBuilt → M Q R (HaStatus × List Node)
ha_or_panic ha_panicked = panic
ha_or_panic (ha_built status misplaced err) = pure (status, misplaced)

abbrev pub health_of : ClusterInfos → ClusterState
health_of infos = record {
  infos_status = infos.status;
  cluster_state = infos.cluster_state;
  cluster_nok_reason = infos.cluster_nok_reason;
}

abbrev pub is_failed : HaStatus → Bool
is_failed ha_failed = true
is_failed _ = false

abbrev pub is_redistribute : HaStatus → Bool
is_redistribute ha_redistribute = true
is_redistribute _ = false

abbrev pub is_healthy : HaStatus → Bool
is_healthy ha_healthy = true
is_healthy _ = false

-- The size and the replicas of a cluster with defaults.
abbrev pub size_of : {Q : Type 0} → Cluster Q → ℕ
size_of c = pos_part c.spec.master_size

abbrev pub replicas_of : {Q : Type 0} → Cluster Q → ℕ
replicas_of c = pos_part c.spec.cluster_replicas

module _ {Q E : Type 0} (w : World Q E) where
  -- isScalingDown
  unfoldable pub is_scaling_down : Cluster Q → History Q → Bool
  is_scaling_down c h = elim (w.count_statefulsets h) [
    | none ↦ false
    | some sets ↦ ltb (size_of c) sets
  ]

  -- Reconcile from SetConfigIfNeed to the status: the cluster, and the nodes with their places.
  unfoldable pub status_phase :
      Cluster Q → ClusterInfos → List Pod → M Q (Answer E) (Cluster Q × List Node)
  status_phase c infos pods = do
    err ← ask (λ h. w.set_config_if_need h c.spec.config)
    emit (set_config c.spec.config)
    return_if err (λ e. failed (wrap w.lib redis (some e) (txt "SetConfigIfNeed")))
    labels ← ask w.node_labels
    let built =
        build_cluster_status labels (nodes_of infos.infos) (map (λ p. p.built) pods) c.status true
    down ← ask (is_scaling_down c)
    let s = if down then set_cluster_rebalancing built.0 (txt "scaling down") else built.0
    c' ← update_cluster_if_need c s
    pure (record c' { status = s }, built.1)

  -- syncCluster in Reconcile, where the status asks for it.
  unfoldable pub cluster_phase : Cluster Q → List Node → M Q (Answer E) (Cluster Q)
  cluster_phase c nodes =
      if need_cluster_operation c
      then (do
        r ← call (sync_cluster w.lib w.clustering c nodes)
        elim r.error [
          | none ↦ pure r.cluster
          | some e ↦ report w r.cluster (set_cluster_failed r.cluster.status) e (failed e)
        ])
      else pure c

  -- The update of the pods in Reconcile; `s` is the status built last.
  unfoldable pub update_phase : Cluster Q → ClusterStatus → List Pod → M Q (Answer E) (Unit {0})
  update_phase c s pods = do
    r ← call (check_and_update_pods w.lib w.pod_clients c.name (size_of c) pods)
    elim r.1 [
      | some e ↦ report w c (set_cluster_failed c.status) e (requeue_after w.reconcile_time)
      | none ↦
          if r.0
          then (do
            (if same s.status cluster_status_on_delete
                then pure c
                else update_cluster_if_need c
                    (set_cluster_updating c.status (txt "Cluster Upgrade in Progress")))
            return (requeue_after (pos 10)))
          else pure tt
    ]

  -- The loop that deletes the pods of a stateful set.
  unfoldable pub delete_pods : List Node → M Q (Answer E) (Unit {0})
  delete_pods [] = pure tt
  delete_pods (n ∷ nodes) = do
    err ← ask (λ h. w.pod_clients.delete_pod h n.pod_name)
    emit (deleted_pod n.pod_name (succeeds err))
    return_if err (λ e. requeue_after w.reconcile_time)
    delete_pods nodes

  -- The loop over the stateful sets, from index `i`.
  unfoldable pub delete_sets : Text → List (Text × List Node) → ℕ → ℕ → M Q (Answer E) (Unit {0})
  delete_sets name chosen zero i = pure tt
  delete_sets name chosen (suc rounds) i = do
    delete_pods (slice_at (cluster_statefulset_name name i) chosen)
    delete_sets name chosen rounds (suc i)

  abbrev pub later : {A : Type 0} → M Q (Answer E) A
  later = return (requeue_after w.reconcile_time)

  -- The redistribution of the masters, where no pod is to be deleted.
  unfoldable pub move_masters : Cluster Q → List Node → M Q (Answer E) (Answer E)
  move_masters c nodes = do
    let zones = zones_of c.spec.ha_config
    ha ← ha_or_panic (build_ha_status zones nodes (size_of c))
    (if is_redistribute ha.0 && ltb 0 (length ha.1)
        then (do
          call (place_masters_by_sts w.lib w.failover zones nodes (replicas_of c) ha.1)
          err ← ask (λ h. w.annotate h c (txt "reDistributeNode") (txt "false"))
          emit (wrote_annotation (txt "reDistributeNode") (txt "false"))
          return_if err failed
          later)
        else if is_healthy ha.0 && (length ha.1 == 0)
        then (do update_cluster_if_need c (set_ha_status c.status ha_healthy); later)
        else later)
