-- ===== src/Reconcile/World.antt =====
-- What Reconcile calls, and what it answers to the controller runtime.
use rediscluster_operator.Base.{ℕ, zero, suc, true, false, Bool, List, Option, Text, ◌⊎◌}
use rediscluster_operator.Base.Int.{ℤ, pos, negsuc}
use rediscluster_operator.Nodes.{Node}
use rediscluster_operator.Admin.Infos.{ClusterInfos}
use rediscluster_operator.Api.{Cluster}
use rediscluster_operator.Status.{ClusterStatus}
use rediscluster_operator.Reconcile.{History}
use rediscluster_operator.Reconcile.Errors.{Err, Library}
use rediscluster_operator.Reconcile.Ensure.{Ensurer}
use rediscluster_operator.Reconcile.Passwords.{Secrets, Versions}
use rediscluster_operator.Reconcile.Pods.{Pod, PodClients}
use rediscluster_operator.Reconcile.Sync.{Clustering}

-- Get of the custom resource.
pub data Fetched (Q E : Type 0) : Type 0 where
  not_found : Fetched Q E
  not_read : Err E → Fetched Q E
  fetched : Cluster Q → Fetched Q E

-- The result and the error of Reconcile; times are seconds. `reconcile_time` is a flag that is not
-- checked.
pub data Answer (E : Type 0) : Type 0 where
  done requeue_now : Answer E
  requeue_after : ℤ → Answer E
  failed : Err E → Answer E

-- The controller runtime makes no further round: there is no error, and neither Requeue nor a
-- RequeueAfter above 0.
abbrev pub is_last : {E : Type 0} → Answer E → Bool
is_last done = true
is_last requeue_now = false
is_last (requeue_after (pos zero)) = true
is_last (requeue_after (pos (suc n))) = false
is_last (requeue_after (negsuc n)) = true
is_last (failed e) = false

-- The calls of Reconcile. `none` of a call is success, where no value is asked for.
pub record World (Q E : Type 0) : Type 0 where
  pub lib : Library E
  pub ensurer : Ensurer Q E
  pub clustering : Clustering Q E
  pub secrets : Secrets Q E
  pub pod_clients : PodClients Q E
  pub get_cr : Fetched Q E
  pub secret_versions : History Q → Option Versions
  pub list_pods : History Q → Err E ⊎ List Pod
  pub fix_terminating : History Q → Option (Err E)
  pub admin_password : History Q → Option (Err E)
  pub get_cluster_infos : History Q → ClusterInfos × Option (Err E)
  pub heal : History Q → Cluster Q → ClusterInfos → Bool × Option (Err E)
  pub attach_node : History Q → Text → Option (Err E)
  pub write_status : History Q → ClusterStatus → Option (Err E)
  pub update_statefulsets : History Q → Cluster Q → Option (Err E)
  pub set_config_if_need : History Q → Option (List (Text × Text)) → Option (Err E)
  pub node_labels : History Q → Text → Option (List (Text × Text))
  pub count_statefulsets : History Q → Option ℕ
  pub zone_active : History Q → Text → Option Bool
  pub failover : History Q → Node → Option (Err E)
  pub annotate : History Q → Cluster Q → Text → Text → Option (Err E)
  pub reconcile_time : ℤ
