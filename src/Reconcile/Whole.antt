-- ===== src/Reconcile/Whole.antt =====
-- The end of Reconcile, and Reconcile as a whole.
pub mod Ends
pub mod Requeued
use rediscluster_operator.Base.Int.{pos}
use rediscluster_operator.Base.{
  ℕ, Bool, true, false, ◌&&◌, List, [], ◌∷◌, Option, none, some, Text, txt, same, lookup, ltb, ◌⊎◌,
  inl, inr, if◌then◌else◌, length, map,
}
use rediscluster_operator.Nodes.{Node}
use rediscluster_operator.Admin.Infos.{ClusterInfos}
use rediscluster_operator.Placement.{HaStatus}
use rediscluster_operator.Api.{Cluster}
use rediscluster_operator.Status.{
  ClusterStatus, set_ha_status, check_and_update_cluster_health, check_all_zones_active,
  build_ha_status,
}
use rediscluster_operator.Status.Build.{build_cluster_status}
use rediscluster_operator.Reconcile.{History, M, ◌>>=◌, ◌>>◌, pure, return, panic, ask, return_if}
use rediscluster_operator.Reconcile.Passwords.{update_cluster_if_need}
use rediscluster_operator.Reconcile.Pods.{Pod}
use rediscluster_operator.Reconcile.Sync.{zones_of}
use rediscluster_operator.Reconcile.Redistribute.{
  ToDelete, divides_by_zero, not_identified, to_delete, get_list_of_nodes_to_delete,
}
use rediscluster_operator.Reconcile.World.{
  Answer, World, Fetched, not_found, not_read, fetched, done, requeue_after, failed,
}
use rediscluster_operator.Reconcile.Round.{
  ensure_phase, pods_phase, heal_phase, join_phase, restoring_phase, nodes_of, is_partial,
}
use rediscluster_operator.Reconcile.Settle.{
  ha_or_panic, health_of, is_failed, is_redistribute, size_of, replicas_of, status_phase,
  cluster_phase, update_phase, delete_sets, move_masters, later,
}

-- The annotation asks for a redistribution.
unfoldable pub asks_redistribution : {Q : Type 0} → Cluster Q → Bool
asks_redistribution c = elim (lookup (txt "reDistributeNode") c.annotations) [
  | none ↦ false
  | some v ↦ same v (txt "true")
]

module _ {Q E : Type 0} (w : World Q E) where
  -- The redistribution, by what getListofNodestoDelete gives.
  unfoldable pub apply_deletions : Cluster Q → List Node → ToDelete → M Q (Answer E) (Answer E)
  apply_deletions c nodes divides_by_zero = panic
  apply_deletions c nodes not_identified = later w
  apply_deletions c nodes (to_delete number chosen) =
      if ltb 0 number
      then (do delete_sets w c.name chosen (size_of c) 0; later w)
      else move_masters w c nodes

  -- The redistribution where all the zones are active and the annotation asks for it.
  unfoldable pub redistribute : Cluster Q → List Node → M Q (Answer E) (Answer E)
  redistribute c nodes = do
    listed ← ask w.list_pods
    elim listed [
      | inl e ↦ later w
      | inr pods ↦ apply_deletions c nodes (
          get_list_of_nodes_to_delete (zones_of c.spec.ha_config) nodes c.name (replicas_of c)
            (size_of c))
    ]

  -- The redistribution, with its conditions.
  unfoldable pub redistribute_if_active : Cluster Q → List Node → M Q (Answer E) (Answer E)
  redistribute_if_active c nodes = do
    active ← ask w.zone_active
    let zones = check_all_zones_active active (zones_of c.spec.ha_config)
    return_if (if zones.2 then some tt else none) (λ u. requeue_after (pos 20))
    (if zones.0 && asks_redistribution c then redistribute c nodes else later w)

  -- The HA part of Reconcile.
  unfoldable pub ha_phase : Cluster Q → List Node → HaStatus → M Q (Answer E) (Answer E)
  ha_phase c nodes ha =
      if is_failed ha
      then later w
      else if is_redistribute ha
      then redistribute_if_active c nodes
      else later w

  -- Reconcile after clustering.
  unfoldable pub health_phase : Cluster Q → ClusterInfos → List Pod → M Q (Answer E) (Answer E)
  health_phase c infos pods = do
    answer ← ask w.get_cluster_infos
    return_if (if is_partial infos.status then answer.1 else none) (λ e. requeue_after (pos 10))
    labels ← ask w.node_labels
    let built =
        build_cluster_status labels (nodes_of answer.0.infos) (map (λ p. p.built) pods) c.status
          true
    ha ← ha_or_panic (build_ha_status (zones_of c.spec.ha_config) built.1 (size_of c))
    let health =
        check_and_update_cluster_health (set_ha_status built.0 ha.0) (health_of answer.0)
          (replicas_of c)
    c' ← update_cluster_if_need c health.0
    return_if (if health.1 then none else some tt) (λ u. requeue_after (pos 20))
    update_phase w c' health.0 pods
    ha_phase c' built.1 ha.0

  -- Reconcile from the pods on.
  unfoldable pub pods_on : Cluster Q → M Q (Answer E) (Answer E)
  pods_on c = do
    pods ← pods_phase w c
    healed ← heal_phase w c
    join_phase w healed.0 healed.1
    restoring_phase w healed.0
    placed ← status_phase w healed.0 healed.1 pods
    c' ← cluster_phase w placed.0 placed.1
    health_phase c' healed.1 pods

  -- Reconcile on what Get returns.
  unfoldable pub reconcile_fetched : Fetched Q E → M Q (Answer E) (Answer E)
  reconcile_fetched not_found = return done
  reconcile_fetched (not_read e) = return (failed e)
  reconcile_fetched (fetched c) = do c' ← ensure_phase w c; pods_on c'

  -- Reconcile
  unfoldable pub reconcile : M Q (Answer E) (Answer E)
  reconcile = reconcile_fetched w.get_cr
