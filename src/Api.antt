-- ===== src/Api.antt =====
-- api/v1alpha1: the custom resource of a cluster, its defaults (default.go) and the checks of the
-- webhook (distributedrediscluster_webhook.go).
-- A pointer or a map that may be nil is an Option, int32 is ℤ. Quantities, their parser, the encoded
-- size of the resources, DeepEqual on them and IsDNS1035Label are of Kubernetes: parameters.
pub mod Defaults
pub mod Updates
use rediscluster_operator.Base.Int.{ℤ, pos, ltb_ℤ}
use rediscluster_operator.Base.{
  ℕ, Bool, true, false, ◌&&◌, ◌||◌, not, List, [], ◌∷◌, Option, none, some, Text, txt, same, ltb,
  ◌==◌, if◌then◌else◌, length,
}
use rediscluster_operator.Status.{ClusterStatus, cluster_status_ok}
use rediscluster_operator.Status.Compare.{compare_string_value}

-- HAspec
pub record HaSpec : Type 0 where
  pub ha_enabled : Bool
  pub zones_info : Option (List (Text × Text))

-- What is read of an AgentSpec; `prometheus` is the port of its PrometheusSpec.
pub record AgentSpec : Type 0 where
  pub image : Text
  pub prometheus : Option ℤ

-- BackupSourceSpec
pub record BackupSource : Type 0 where
  pub namespace : Text
  pub name : Text

-- RestoreSpec
pub record RestoreSpec : Type 0 where
  pub backup_source : Option BackupSource

-- The resources of a container, over a type of quantities.
pub record Resources (Q : Type 0) : Type 0 where
  pub requests : List (Text × Q)
  pub limits : List (Text × Q)

-- What is read of a DistributedRedisClusterSpec.
pub record Spec (Q : Type 0) : Type 0 where
  pub image : Text
  pub master_size : ℤ
  pub cluster_replicas : ℤ
  pub service_name : Text
  pub config : Option (List (Text × Text))
  pub ha_config : Option HaSpec
  pub resources : Option (Resources Q)
  pub admin_secret : Option Text
  pub monitor : Option (List AgentSpec)
  pub restore : Option RestoreSpec

-- DistributedRedisCluster
pub record Cluster (Q : Type 0) : Type 0 where
  pub name : Text
  pub namespace : Text
  pub annotations : List (Text × Text)
  pub spec : Spec Q
  pub status : ClusterStatus

abbrev pub min_master_size : ℤ
min_master_size = pos 3

abbrev pub default_redis_image : Text
default_redis_image = txt "redis:5.0.4-alpine"

abbrev pub restore_phase_running : Text
restore_phase_running = txt "Running"

abbrev pub restore_phase_restart : Text
restore_phase_restart = txt "Restart"

abbrev pub restore_phase_succeeded : Text
restore_phase_succeeded = txt "Succeeded"

-- CompareInt32
unfoldable pub compare_sizes : ℤ → ℤ → Bool
compare_sizes old new = ltb_ℤ old new || ltb_ℤ new old

-- CompareIntValue of commonutils/compare.go: two nil pointers are reported as different, one alone
-- is not.
unfoldable pub compare_int_value : Option ℤ → Option ℤ → Bool
compare_int_value none none = true
compare_int_value none (some new) = false
compare_int_value (some old) none = false
compare_int_value (some old) (some new) = compare_sizes old new

module _ {Q : Type 0} (quantity : Text → Q) where
  -- defaultResource
  unfoldable pub default_resource : Resources Q
  default_resource = record {
    requests = (txt "cpu", quantity (txt "200m")) ∷ (txt "memory", quantity (txt "2Gi")) ∷ [];
    limits = (txt "cpu", quantity (txt "1000m")) ∷ (txt "memory", quantity (txt "4Gi")) ∷ [];
  }

module _ {Q : Type 0} where
  -- IsRestoreFromBackup
  unfoldable pub is_restore_from_backup : Cluster Q → Bool
  is_restore_from_backup c = elim c.spec.restore [
    | none ↦ false
    | some r ↦ elim r.backup_source [ none ↦ false | some source ↦ true ]
  ]

  -- IsRestored
  unfoldable pub is_restored : Cluster Q → Bool
  is_restored c = same c.status.restore_phase restore_phase_succeeded

  -- ShouldInitRestorePhase
  unfoldable pub should_init_restore_phase : Cluster Q → Bool
  should_init_restore_phase c = same c.status.restore_phase []

  -- IsRestoreRunning
  unfoldable pub is_restore_running : Cluster Q → Bool
  is_restore_running c = same c.status.restore_phase restore_phase_running

  -- IsRestoreRestarting
  unfoldable pub is_restore_restarting : Cluster Q → Bool
  is_restore_restarting c = same c.status.restore_phase restore_phase_restart

-- `in.Spec.Resources == nil || in.Spec.Resources.Size() == 0`
abbrev pub is_unset : {Q : Type 0} → (Resources Q → ℕ) → Option (Resources Q) → Bool
is_unset size none = true
is_unset size (some r) = size r == 0

module _ {Q : Type 0} (quantity : Text → Q) (size : Resources Q → ℕ) where
  abbrev pub small : Spec Q → Bool
  small s = ltb_ℤ s.master_size min_master_size

  -- DefaultSpec: the spec, and whether it is another one.
  unfoldable pub default_spec : Text → Spec Q → Spec Q × Bool
  unfolding default_resource
  default_spec name s = (
    record s {
      master_size = if small s then min_master_size else s.master_size;
      image = if same s.image [] then default_redis_image else s.image;
      service_name = if same s.service_name [] then name else s.service_name;
      resources =
          if is_unset size s.resources then some (default_resource quantity) else s.resources;
    },
    small s || (same s.image [] || (same s.service_name [] || is_unset size s.resources)),
  )

-- DeepEqual on the references to a secret.
abbrev pub same_secret : Option Text → Option Text → Bool
same_secret none none = true
same_secret (some a) (some b) = same a b
same_secret _ _ = false

-- The answers of the webhook.
pub data Admission : Type 0 where
  admitted invalid_object : Admission
  invalid_service not_settled : Text → Admission

module _ {Q : Type 0} (is_label : Text → Bool) where
  -- The check of the custom service name, which may be empty.
  abbrev pub bad_service : Spec Q → Bool
  bad_service s = ltb 0 (length s.service_name) && not (is_label s.service_name)

  -- ValidateCreate
  unfoldable pub validate_create : Cluster Q → Admission
  validate_create c = if bad_service c.spec then invalid_service c.spec.service_name else admitted

module _ {Q : Type 0} (deep_equal : Option (Resources Q) → Option (Resources Q) → Bool) where
  -- compareObj
  unfoldable pub compare_obj : Cluster Q → Cluster Q → Bool
  compare_obj new old =
      if compare_sizes new.spec.master_size old.spec.master_size
      then true
      else if compare_string_value new.spec.image old.spec.image
      then true
      else if not (deep_equal new.spec.resources old.spec.resources)
      then true
      else not (same_secret new.spec.admin_secret old.spec.admin_secret)

  -- ValidateUpdate; `none` is an old object of another type.
  unfoldable pub validate_update : (Text → Bool) → Cluster Q → Option (Cluster Q) → Admission
  validate_update is_label new none = invalid_object
  validate_update is_label new (some old) =
      if bad_service is_label new.spec
      then invalid_service new.spec.service_name
      else if same old.status.status []
      then admitted
      else if compare_obj new old && not (same old.status.status cluster_status_ok)
      then not_settled old.status.status
      else admitted
