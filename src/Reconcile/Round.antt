-- ===== src/Reconcile/Round.antt =====
-- Reconcile of controllers/distributedrediscluster/distributedrediscluster_controller.go, in phases.
-- The clients of Kubernetes, Heal, AttachNodeToCluster, GetClusterInfos, SetConfigIfNeed and
-- FailoverSlaveToMaster stand as parameters. newRedisAdmin returns no error. A status is kept also
-- where its write fails, as in the source.
use rediscluster_operator.Base.Int.{pos}
use rediscluster_operator.Base.{
  Bool, true, false, ◌&&◌, ◌||◌, List, [], ◌∷◌, Option, none, some, Text, txt, same, inl, inr,
  if◌then◌else◌,
}
use rediscluster_operator.Nodes.{Node, ip_port}
use rediscluster_operator.Heal.{NodeInfos}
use rediscluster_operator.View.{InfosStatus, partial}
use rediscluster_operator.Admin.Infos.{ClusterInfos}
use rediscluster_operator.Placement.{HaStatus, ha_unset, ha_creating}
use rediscluster_operator.Api.{
  Cluster, is_restore_from_backup, is_restore_running, is_restore_restarting, restore_phase_restart,
  restore_phase_succeeded,
}
use rediscluster_operator.Status.{
  ClusterStatus, set_cluster_scaling, set_cluster_failed, set_ha_status, set_secret_status,
}
use rediscluster_operator.Reconcile.{
  wrote_status, fixed_terminating, healed, met, updated_statefulsets, awaited, M, ◌>>=◌, ◌>>◌, pure,
  return, emit, ask, return_if, or_panic, call,
}
use rediscluster_operator.Reconcile.Errors.{
  Err, ErrorType, requeue, kubernetes, redis, stop_retry, wrap, get_type, error_text,
}
use rediscluster_operator.Reconcile.Ensure.{Ensured, ensure_cluster}
use rediscluster_operator.Reconcile.Passwords.{
  Versions, update_cluster_if_need, reconcile_passwords,
}
use rediscluster_operator.Reconcile.Pods.{Pod, cluster_pods}
use rediscluster_operator.Reconcile.World.{Answer, World, done, requeue_now, requeue_after, failed}

abbrev pub is_stop : ErrorType → Bool
is_stop stop_retry = true
is_stop _ = false

abbrev pub is_requeue : ErrorType → Bool
is_requeue requeue = true
is_requeue _ = false

abbrev pub is_partial : InfosStatus → Bool
is_partial partial = true
is_partial _ = false

-- The HA status is set to creating where it is not set, or where a stateful set was created.
abbrev pub is_unset : HaStatus → Bool
is_unset ha_unset = true
is_unset _ = false

unfoldable pub mark_creating : Bool → ClusterStatus → ClusterStatus
mark_creating created s = if is_unset s.ha_status || created then set_ha_status s ha_creating else s

-- The secret status of a new cluster.
unfoldable pub mark_secrets : Option Versions → ClusterStatus → ClusterStatus
mark_secrets versions s =
    if same s.secret_status []
    then elim versions [
      | none ↦ set_secret_status s (txt "aclconferror")
      | some v ↦ record (set_secret_status s (txt "aclconfdone")) { secrets_ver = some v }
    ]
    else s

-- GetNodes of the infos.
abbrev pub nodes_of : List (Text × NodeInfos) → List Node
nodes_of [] = []
nodes_of ((addr, i) ∷ infos) = i.node ∷ nodes_of infos

abbrev pub first_node : List Node → Option Node
first_node [] = none
first_node (n ∷ nodes) = some n

module _ {Q E : Type 0} (w : World Q E) where
  -- Writes the status that tells of an error, and returns.
  unfoldable pub report :
      {A : Type 0} → Cluster Q → (Text → ClusterStatus) → Err E → Answer E → M Q (Answer E) A
  report c status e answer = do
    text ← or_panic (error_text w.lib e)
    update_cluster_if_need c (status text)
    return answer

  -- Reconcile where ensureCluster fails.
  unfoldable pub not_ensured : Ensured Q E → Err E → M Q (Answer E) (Cluster Q)
  not_ensured r e =
      if is_stop (get_type e)
      then return done
      else report r.cluster (set_cluster_scaling (mark_creating r.created r.cluster.status)) e
          (requeue_after (pos 10))

  -- Reconcile where ensureCluster succeeds.
  unfoldable pub is_ensured : Ensured Q E → M Q (Answer E) (Cluster Q)
  is_ensured r = do
    versions ← ask w.secret_versions
    update_cluster_if_need r.cluster
        (mark_creating r.created (mark_secrets versions r.cluster.status))

  -- Reconcile up to the pods.
  unfoldable pub ensure_phase : Cluster Q → M Q (Answer E) (Cluster Q)
  ensure_phase c = do
    r ← call (ensure_cluster w.lib w.ensurer c)
    elim r.error [ some e ↦ not_ensured r e | none ↦ is_ensured r ]

  -- waitPodReady with what Reconcile makes of its error.
  unfoldable pub pods_phase : Cluster Q → M Q (Answer E) (List Pod)
  pods_phase c = do
    listed ← ask w.list_pods
    pods ← elim listed [
      | inl e ↦ return (failed (wrap w.lib kubernetes (some e) (txt "GetStatefulSetPods")))
      | inr pods ↦ pure (cluster_pods pods)
    ]
    fixed ← ask w.fix_terminating
    emit fixed_terminating
    return_if fixed (λ e. failed (wrap w.lib kubernetes (some e) (txt "FixTerminatingPods")))
    counted ← ask w.secrets.check_node_num
    elim counted [
      | some e ↦
          report c (set_cluster_scaling c.status)
            (wrap w.lib requeue (some e) (txt "CheckRedisNodeNum")) (requeue_after (pos 10))
      | none ↦ pure pods
    ]

  -- Reconcile from the password to Heal.
  unfoldable pub heal_phase : Cluster Q → M Q (Answer E) (Cluster Q × ClusterInfos)
  heal_phase c = do
    password ← ask w.admin_password
    return_if password (λ e. failed (wrap w.lib kubernetes (some e) (txt "getClusterPassword")))
    c' ← reconcile_passwords w.secrets c
    answer ← ask w.get_cluster_infos
    return_if (if is_partial answer.0.status then answer.1 else none)
        (λ e. failed (wrap w.lib redis (some e) (txt "GetClusterInfos")))
    acted ← ask (λ h. w.heal h c' answer.0)
    emit (healed acted.0)
    return_if acted.1 (λ e. failed (wrap w.lib redis (some e) (txt "Heal")))
    return_if (if acted.0 then some tt else none) (λ u. requeue_after (pos 10))
    pure (c', answer.0)

  -- waitForClusterJoin: the error.
  unfoldable pub wait_for_cluster_join : ClusterInfos → M Q (Option (Err E)) (Option (Err E))
  wait_for_cluster_join infos = do
    answer ← ask w.get_cluster_infos
    elim answer.1 [
      | none ↦ pure none
      | some _ ↦ do
        n ← or_panic (first_node (nodes_of infos.infos))
        err ← ask (λ h. w.attach_node h (ip_port n))
        emit (met (ip_port n))
        return_if err (λ e. some (wrap w.lib redis (some e) (txt "AttachNodeToCluster")))
        again ← ask w.get_cluster_infos
        return_if again.1 (λ e. some (wrap w.lib requeue (some e) (txt "wait for cluster join")))
        pure none
    ]

  -- waitForClusterJoin in Reconcile.
  unfoldable pub join_phase : Cluster Q → ClusterInfos → M Q (Answer E) (Unit {0})
  join_phase c infos = do
    err ← call (wait_for_cluster_join infos)
    elim err [
      | none ↦ pure tt
      | some e ↦
          if is_requeue (get_type e)
          then return (requeue_after (pos 10))
          else report c (set_cluster_failed c.status) e (failed e)
    ]

  abbrev pub with_phase : Cluster Q → Text → ClusterStatus
  with_phase c phase = record c.status { restore_phase = phase }

  -- Reconcile while a restore runs: the masters are restarted.
  unfoldable pub restart_masters : Cluster Q → M Q (Answer E) (Unit {0})
  restart_masters c =
      let s = with_phase c restore_phase_restart in
      let c' = record c { status = s } in
      (do
        written ← ask (λ h. w.write_status h s)
        emit (wrote_status s)
        return_if written failed
        err ← ask (λ h. w.update_statefulsets h c')
        emit (updated_statefulsets c')
        return_if err failed
        waited ← ask (λ h. w.pod_clients.await h (txt "waitMasterNodeRestarting"))
        emit (awaited (txt "waitMasterNodeRestarting"))
        return_if waited failed
        return requeue_now)

  -- Reconcile when the masters restart: the restore is over.
  unfoldable pub finish_restore : Cluster Q → M Q (Answer E) (Unit {0})
  finish_restore c = do
    let s = with_phase c restore_phase_succeeded
    written ← ask (λ h. w.write_status h s)
    emit (wrote_status s)
    return_if written failed
    return done

  -- The restore phases of Reconcile.
  unfoldable pub restoring_phase : Cluster Q → M Q (Answer E) (Unit {0})
  restoring_phase c =
      if is_restore_from_backup c && is_restore_running c
      then restart_masters c
      else if is_restore_from_backup c && is_restore_restarting c
      then finish_restore c
      else pure tt
