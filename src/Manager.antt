-- ===== src/Manager.antt =====
-- controllers/manager: the repairs of one round (healer.go) and the checks before them (checker.go),
-- with controllers/heal/terminatingpod.go.
-- A map that is visited is a list in the order of the visit.
pub mod Healed
pub mod Checked
use rediscluster_operator.Base.{
  ℕ, zero, suc, ◌+◌, Bool, true, false, ◌&&◌, not, List, [], ◌∷◌, ◌++◌, Option, none, some, Text,
  same, lookup, ltb, ◌==◌, if◌then◌else◌,
}
use rediscluster_operator.Nodes.{Node}
use rediscluster_operator.Placement.{cluster_statefulset_name}
use rediscluster_operator.Heal.{NodeInfos, Admin, Repairs, delete_pod, send}
use rediscluster_operator.Heal.Failed.{fix_failed_nodes}
use rediscluster_operator.Heal.Untrusted.{Pod, fix_untrusted_nodes}

-- What Heal is given; the two visits are the orders of the sets that are ranged over.
pub record Round : Type 0 where
  pub dry_run : Bool
  pub admin : Admin
  pub visit_ghosts : List Text → List Text
  pub visit_untrusted : List (Text × Node) → List (Text × Node)
  pub pods : List Pod
  pub cluster_replicas : ℕ
  pub master_size : ℕ

-- Heal: whether an action is done, the calls and the errors. Before FixUntrustedNodes no call has
-- been made, since FixFailedNodes reports an action with every call.
unfoldable pub heal : Round → List NodeInfos → Bool × Repairs
heal r infos =
    let failed =
      fix_failed_nodes r.dry_run r.admin r.visit_ghosts r.cluster_replicas r.master_size infos in
    let untrusted = fix_untrusted_nodes r.dry_run r.admin r.visit_untrusted r.pods infos in
    if ltb 0 failed.1.errs
    then failed
    else if failed.0
    then failed
    else if ltb 0 untrusted.1.errs
    then untrusted
    else if untrusted.0
    then untrusted
    else (false, untrusted.1)

-- What FixTerminatingPods reads of a pod; the times are seconds.
pub record DeletedPod : Type 0 where
  pub name : Text
  pub deletion_timestamp : Option ℕ

-- The pod should be gone already.
unfoldable pub is_overdue : ℕ → ℕ → DeletedPod → Bool
is_overdue now max_duration pod = elim pod.deletion_timestamp [
  | none ↦ false
  | some t ↦ ltb (t + max_duration) now
]

-- The loop of FixTerminatingPods: whether an action is done, the calls and the errors.
unfoldable pub terminating_loop :
    Bool → Admin → ℕ → ℕ → Bool → Repairs → List DeletedPod → Bool × Repairs
terminating_loop dry_run admin now max_duration done s [] = (done, s)
terminating_loop dry_run admin now max_duration done s (pod ∷ pods) =
    let overdue = is_overdue now max_duration pod in
    terminating_loop dry_run admin now max_duration (if overdue then true else done)
      (if overdue && not dry_run then send admin (delete_pod pod.name) s else s) pods

-- FixTerminatingPods
unfoldable pub fix_terminating_pods : Bool → Admin → ℕ → ℕ → List DeletedPod → Bool × Repairs
fix_terminating_pods dry_run admin now max_duration pods =
    if max_duration == 0
    then (false, record { sent = []; errs = 0 })
    else terminating_loop dry_run admin now max_duration false (record { sent = []; errs = 0 }) pods

-- What checkRedisNodeNum reads of a stateful set.
pub record StatefulSet : Type 0 where
  pub replicas : ℕ
  pub ready_replicas : ℕ

-- The errors of CheckRedisNodeNum.
pub data NodeNumError : Type 0 where
  statefulset_not_read pods_differ pods_not_ready : NodeNumError

-- checkRedisNodeNum
unfoldable pub check_statefulset : ℕ → StatefulSet → Option NodeNumError
check_statefulset expected ss =
    if not (expected == ss.replicas)
    then some pods_differ
    else if not (expected == ss.ready_replicas)
    then some pods_not_ready
    else none

-- The loop of CheckRedisNodeNum from index `i`, with `rounds` of it left. `read` is
-- GetStatefulSet, `none` on an error.
unfoldable pub check_node_num_loop :
    (Text → Option StatefulSet) → Text → ℕ → ℕ → ℕ → Option NodeNumError
check_node_num_loop read cluster replicas zero i = none
check_node_num_loop read cluster replicas (suc rounds) i =
    let rest = check_node_num_loop read cluster replicas rounds (suc i) in
    elim (read (cluster_statefulset_name cluster i)) [
      | none ↦ some statefulset_not_read
      | some ss ↦ elim (check_statefulset (replicas + 1) ss) [ some e ↦ some e | none ↦ rest ]
    ]

-- CheckRedisNodeNum
unfoldable pub check_redis_node_num :
    (Text → Option StatefulSet) → Text → ℕ → ℕ → Option NodeNumError
check_redis_node_num read cluster replicas master_size =
    check_node_num_loop read cluster replicas master_size 0

-- A loop of IsdiffAclVerions: some key of the first map is not in the second.
unfoldable pub some_key_missing : List (Text × Text) → List (Text × Text) → Bool
some_key_missing [] other = false
some_key_missing ((k, v) ∷ m) other = elim (lookup k other) [
  | none ↦ true
  | some w ↦ some_key_missing m other
]

-- The last loop of IsdiffAclVerions.
unfoldable pub some_value_differs : List (Text × Text) → List (Text × Text) → Bool
some_value_differs [] other = false
some_value_differs ((k, v) ∷ m) other = elim (lookup k other) [
  | none ↦ some_value_differs m other
  | some w ↦ if not (same v w) then true else some_value_differs m other
]

-- IsdiffAclVerions
unfoldable pub is_diff_acl_versions : List (Text × Text) → List (Text × Text) → Bool
is_diff_acl_versions current latest =
    if some_key_missing current latest
    then true
    else if some_key_missing latest current
    then true
    else some_value_differs current latest
