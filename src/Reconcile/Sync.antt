-- ===== src/Reconcile/Sync.antt =====
-- syncCluster and scalingDown of controllers/distributedrediscluster/sync_handler.go, with helper.go.
-- The slots are moved by AllocSlots, RebalancedCluster and DispatchSlotToNewMasters, which stand here
-- as parameters, as the methods of IAdmin and of the Kubernetes clients do. The size of the cluster
-- and its replicas are not negative here: ensureCluster has set the defaults.
pub mod Emptied
use rediscluster_operator.Base.Int.{ℤ, pos, pos_part, ltb_ℤ}
use rediscluster_operator.Base.Strings.{format_uint}
use rediscluster_operator.Base.{
  ℕ, zero, suc, ◌+◌, ◌-◌, Bool, true, false, ◌||◌, List, [], ◌∷◌, ◌++◌, Option, none, some, Text,
  txt, same, insert, slice_at, ltb, ◌==◌, if◌then◌else◌, length, keep, map,
}
use rediscluster_operator.Nodes.{Node, ip_port}
use rediscluster_operator.Placement.{
  Ctx, Dispatched, placed, missing_statefulset, unable_to_place, split_brain, panicked, new_ctx,
  cluster_statefulset_name, masters_of, dispatch_masters, place_slaves,
}
use rediscluster_operator.Placement.Attach.{attaching_slaves_to_master}
use rediscluster_operator.Status.{set_cluster_rebalancing}
use rediscluster_operator.Api.{Cluster, HaSpec, compare_int_value}
use rediscluster_operator.Reconcile.{
  Step, History, wrote_status, attached, allocated, rebalanced, moved_slots, disconnected, forgot,
  deleted_statefulset, deleted_service, deleted_disruption_budget, deleted_claims, awaited, M,
  ◌>>=◌, ◌>>◌, pure, return, panic, emit, ask, return_if, or_return, next,
}
use rediscluster_operator.Reconcile.Errors.{
  Err, Library, kubernetes, redis, cluster, wrap, new_error, foreign,
}

-- needClusterOperation
unfoldable pub need_cluster_operation : {Q : Type 0} → Cluster Q → Bool
need_cluster_operation c =
    if compare_int_value (some (pos c.status.number_of_master)) (some c.spec.master_size)
    then true
    else if compare_int_value (some (pos c.status.min_replication_factor))
        (some c.spec.cluster_replicas)
    then true
    else compare_int_value (some (pos c.status.max_replication_factor))
        (some c.spec.cluster_replicas)

-- newRedisCluster: the nodes by id, `none` where a node has no zone. The message of its error leaves
-- out the name of the machine here, and that of scalingDown names a node by its id alone.
unfoldable pub new_redis_cluster : List (Text × Node) → List Node → Option (List (Text × Node))
new_redis_cluster known [] = some known
new_redis_cluster known (n ∷ nodes) =
    if same n.zone_name [] || same n.zone_name (txt "unknown")
    then none
    else new_redis_cluster (insert n.id n known) nodes

-- ClusterHeadlessSvcName of resources/statefulsets/statefulset.go.
unfoldable pub cluster_headless_svc_name : Text → ℕ → Text
cluster_headless_svc_name name i = name ++ (b'-' ∷ format_uint i)

-- What syncCluster calls. `visit` is the order in which GetNewMasters ranges over its map. A call that
-- moves slots changes the notes that the operator keeps of the nodes.
pub record Clustering (Q E : Type 0) : Type 0 where
  pub visit : List (Text × Node) → List (Text × Node)
  pub attach_slave : History Q → Node → Text → Option (Err E)
  pub alloc_slots : History Q → List Node → Option (Err E)
  pub rebalanced_cluster : History Q → List Node → Option (Err E)
  pub dispatch_slots : History Q → List Node → List Node → List Node → Option (Err E)
  pub noted : History Q → Node → Node
  pub get_statefulset : History Q → Text → Option (Err E)
  pub forget : History Q → Text → Option (Err E)

-- The result of syncCluster: the cluster, whose status may be set, and the error.
pub record Synced (Q E : Type 0) : Type 0 where
  pub cluster : Cluster Q
  pub error : Option (Err E)

abbrev pub is_none : {A : Type 0} → Option A → Bool
is_none none = true
is_none (some x) = false

abbrev pub zones_of : Option HaSpec → List Text
zones_of none = []
zones_of (some ha) = elim ha.zones_info [ none ↦ [] | some zones ↦ map (λ z. z.0) zones ]

abbrev pub ha_enabled_of : Option HaSpec → Bool
ha_enabled_of none = false
ha_enabled_of (some ha) = ha.ha_enabled

-- `f` on every node of the sets.
unfoldable pub note_all : (Node → Node) → List (Text × List Node) → List (Text × List Node)
note_all f [] = []
note_all f ((sts, nodes) ∷ sets) = (sts, map f nodes) ∷ note_all f sets

module _ {Q E : Type 0} (lib : Library E) (w : Clustering Q E) where
  abbrev pub failed : Cluster Q → Err E → Synced Q E
  failed c e = record { cluster = c; error = some e }

  -- The first loop of scalingDown for the nodes of a stateful set.
  unfoldable pub disconnect_nodes : {R : Type 0} → List Node → M Q R (Unit {0})
  disconnect_nodes [] = pure tt
  disconnect_nodes (n ∷ nodes) = do emit (disconnected (ip_port n)); disconnect_nodes nodes

  -- The first loop of scalingDown, from the last stateful set.
  unfoldable pub disconnect_loop :
      {R : Type 0} → List (Text × List Node) → Text → ℕ → ℕ → M Q R (Unit {0})
  disconnect_loop sets name expected zero = pure tt
  disconnect_loop sets name expected (suc rounds) = do
    disconnect_nodes (slice_at (cluster_statefulset_name name (expected + rounds)) sets)
    disconnect_loop sets name expected rounds

  -- The error on a node that holds slots.
  unfoldable pub not_empty : Node → Err E
  not_empty n =
      new_error lib redis
        (txt "node " ++ (n.id ++ txt " is not empty! Reshard data away and try again"))

  -- The inner loop of scalingDown over the nodes of a stateful set.
  unfoldable pub forget_nodes : Cluster Q → List Node → M Q (Synced Q E) (Unit {0})
  forget_nodes c [] = pure tt
  forget_nodes c (n ∷ nodes) = do
    return_if (if ltb 0 (length n.slots) then some (not_empty n) else none) (failed c)
    err ← ask (λ h. w.forget h n.id)
    emit (forgot n.id (is_none err))
    return_if err (λ e. failed c (wrap lib redis (some e) (txt "ForgetNode")))
    forget_nodes c nodes

  -- One round of the second loop of scalingDown. The errors of the deletions are only logged.
  unfoldable pub remove_statefulset :
      Cluster Q → List (Text × List Node) → ℕ → M Q (Synced Q E) (Unit {0})
  remove_statefulset c sets i = do
    let sts = cluster_statefulset_name c.name i
    err ← ask (λ h. w.get_statefulset h sts)
    return_if err (λ e. failed c (wrap lib kubernetes (some e) (txt "GetStatefulSet")))
    forget_nodes c (slice_at sts sets)
    emit (deleted_statefulset sts)
    emit (deleted_service (cluster_headless_svc_name c.name i))
    emit (deleted_disruption_budget sts)
    emit (deleted_claims sts)
    emit (awaited sts)

  -- The second loop of scalingDown, from the last stateful set.
  unfoldable pub remove_loop :
      Cluster Q → List (Text × List Node) → ℕ → ℕ → M Q (Synced Q E) (Unit {0})
  remove_loop c sets expected zero = pure tt
  remove_loop c sets expected (suc rounds) = do
    remove_statefulset c sets (expected + rounds)
    remove_loop c sets expected rounds

  -- scalingDown
  unfoldable pub scaling_down :
      Cluster Q → ℕ → List (Text × List Node) → M Q (Synced Q E) (Synced Q E)
  scaling_down c current sets = do
    let expected = pos_part c.spec.master_size
    let c' = record c {
      status = set_cluster_rebalancing c.status (
          txt "scale down, currentMasterSize: "
          ++ (format_uint current ++ (txt ", expectMasterSize " ++ format_uint expected)));
    }
    emit (wrote_status c'.status)
    disconnect_loop sets c.name expected (current - expected)
    remove_loop c' sets expected (current - expected)
    pure (record { cluster = c'; error = none })

  -- PlaceSlaves and AttachingSlavesToMaster, as three branches of syncCluster make them.
  unfoldable pub place_and_attach : Cluster Q → Ctx → M Q (Synced Q E) (Unit {0})
  place_and_attach c ctx = elim (place_slaves ctx) [
    | none ↦ panic
    | some ctx' ↦ do
      err ← (λ h.
          let r =
            attaching_slaves_to_master
              (λ n master s. (attached n master ∷ s, w.attach_slave s n master)) ctx'.cluster
              ctx'.slaves_by_master h in
          (next r.1, r.0))
      return_if err (λ e. failed c (wrap lib cluster (some e) (txt "AttachingSlavesToMaster")))
  ]

  -- What DispatchMasters gives; its error is wrapped.
  unfoldable pub dispatched : Cluster Q → Dispatched → M Q (Synced Q E) Ctx
  dispatched c (placed ctx) = pure ctx
  dispatched c (missing_statefulset sts) = return (
      failed c (
        wrap lib cluster (some (foreign (lib.new (txt "missing statefulset " ++ sts))))
          (txt "DispatchMasters")))
  dispatched c (unable_to_place sts) = return (
      failed c (
        wrap lib cluster
          (some (foreign (lib.new (txt "unable to place master for statefulset " ++ sts))))
          (txt "DispatchMasters")))
  dispatched c (split_brain sts) = return (
      failed c (
        wrap lib cluster (some (foreign (lib.new (txt "split brain: " ++ sts))))
          (txt "DispatchMasters")))
  dispatched c panicked = panic

  -- The error of a call of Ctx, wrapped.
  abbrev pub unless_error : Cluster Q → Option (Err E) → Text → M Q (Synced Q E) (Unit {0})
  unless_error c err msg = return_if err (λ e. failed c (wrap lib cluster (some e) msg))

  abbrev pub synced : Cluster Q → M Q (Synced Q E) (Synced Q E)
  synced c = pure (record { cluster = c; error = none })

  -- The branch of syncCluster that creates the cluster.
  unfoldable pub create_cluster : Cluster Q → Ctx → List Node → M Q (Synced Q E) (Synced Q E)
  create_cluster c ctx new = do
    place_and_attach c ctx
    err ← ask (λ h. w.alloc_slots h new)
    emit (allocated new)
    unless_error c err (txt "AllocSlots")
    synced c

  -- The branch of syncCluster that scales up.
  unfoldable pub scale_up : Cluster Q → Ctx → List Node → M Q (Synced Q E) (Synced Q E)
  scale_up c ctx new = do
    place_and_attach c ctx
    err ← ask (λ h. w.rebalanced_cluster h new)
    emit (rebalanced new)
    unless_error c err (txt "RebalancedCluster")
    synced c

  -- The branch of syncCluster that scales the slaves.
  unfoldable pub scale_slaves : Cluster Q → Ctx → M Q (Synced Q E) (Synced Q E)
  scale_slaves c ctx = do place_and_attach c ctx; synced c

  -- The branch of syncCluster that scales down.
  unfoldable pub scale_down :
      Cluster Q → Ctx → List Node → List Node → M Q (Synced Q E) (Synced Q E)
  scale_down c ctx new cur = do
    err ← ask (λ h. w.dispatch_slots h new cur (new ++ cur))
    emit (moved_slots new cur (new ++ cur))
    return_if err (failed c)
    noted ← ask (λ h. w.noted h)
    scaling_down c (length cur) (note_all noted ctx.nodes)

  -- The choice of syncCluster.
  unfoldable pub sync_branch :
      Cluster Q → Ctx → List Node → List Node → M Q (Synced Q E) (Synced Q E)
  sync_branch c ctx cur new =
      if length cur == 0
      then create_cluster c ctx new
      else if ltb (length cur) (length new)
      then scale_up c ctx new
      else if ltb_ℤ (pos c.status.min_replication_factor) c.spec.cluster_replicas
      then scale_slaves c ctx
      else if ltb (pos_part c.spec.master_size) (length cur)
      then scale_down c ctx new cur
      else synced c

  -- syncCluster
  unfoldable pub sync_cluster : Cluster Q → List Node → M Q (Synced Q E) (Synced Q E)
  sync_cluster c nodes = do
    known ← or_return (new_redis_cluster [] nodes) (
        failed c (
          wrap lib cluster (some (foreign (lib.new (txt "zone label not found in node"))))
            (txt "newRedisCluster")))
    let ha = ha_enabled_of c.spec.ha_config
    let ctx =
        new_ctx ha (zones_of c.spec.ha_config) known c.status.ha_status nodes
          (pos_part c.spec.master_size) c.name
    ctx' ← dispatched c (dispatch_masters ctx)
    sync_branch c ctx' ctx'.current_masters (masters_of (w.visit ctx'.new_masters_by_sts))
