-- ===== src/Reconcile/Ensure.antt =====
-- ensureCluster and what it calls, of controllers/distributedrediscluster/sync_handler.go.
-- The methods of IEnsureResource, UpdateCR and IsRequestRetryable are parameters.
pub mod Lost
use rediscluster_operator.Base.Int.{ℤ, pos}
use rediscluster_operator.Base.{
  ℕ, Bool, true, false, ◌&&◌, ◌||◌, not, List, [], ◌∷◌, Option, none, some, Text, txt, same, insert,
  ◌==◌, if◌then◌else◌, length,
}
use rediscluster_operator.Api.{
  Resources, HaSpec, AgentSpec, Spec, Cluster, compare_sizes, default_spec, is_restore_from_backup,
  is_restored, should_init_restore_phase, is_restore_running, is_restore_restarting,
}
use rediscluster_operator.Reconcile.{
  Step, History, wrote_cr, ensured_config_map, ensured_statefulsets, ensured_shard_services,
  ensured_service, ensured_rclone_secret, M, ◌>>=◌, ◌>>◌, pure, panic, emit, ask, return_if,
}
use rediscluster_operator.Reconcile.Errors.{Err, Library, kubernetes, stop_retry, wrap, foreign}

-- The check of HaConfig in validateAndSetDefault: the error.
unfoldable pub check_ha : {Q : Type 0} → Spec Q → Option Text
check_ha s = elim s.ha_config [
  | none ↦ some (txt "ha config expected missing")
  | some ha ↦
      if ha.ha_enabled
      then elim ha.zones_info [
        | none ↦ some (txt "haspec missing zone info or incorrect zone info")
        | some zones ↦
            if not (length zones == 3)
            then some (txt "haspec missing zone info or incorrect zone info")
            else if compare_sizes s.cluster_replicas (pos 2)
            then some (txt "cluster replicas should be equal to availabilty zones")
            else none
      ]
      else none
]

abbrev no_port : Option ℤ → Bool
no_port none = true
no_port (some (pos p)) = p == 0
no_port (some _) = false

-- The loop over the monitoring containers: whether a required field is missing.
unfoldable pub lacks_monitor_field : List AgentSpec → Bool
lacks_monitor_field [] = false
lacks_monitor_field (a ∷ agents) =
    (same a.image [] || no_port a.prometheus) || lacks_monitor_field agents

-- How the checks and defaults of validateAndSetDefault end.
pub data Validation (Q : Type 0) : Type 0 where
  derefs_nil : Validation Q
  refuses : Text → Validation Q
  sets : Cluster Q → Bool → Validation Q

-- The cluster while a restore runs: no slaves.
unfoldable pub without_slaves : {Q : Type 0} → Cluster Q → Cluster Q
without_slaves c =
    if is_restore_from_backup c && (is_restore_running c || is_restore_restarting c)
    then record c { spec = record c.spec { cluster_replicas = pos 0 } }
    else c

-- dbLoadedFromDiskWhenRestore
unfoldable pub db_loaded_from_disk_when_restore : {Q : Type 0} → Cluster Q → Cluster Q
db_loaded_from_disk_when_restore c =
    if is_restore_from_backup c && not (is_restored c)
    then elim c.spec.config [
      | none ↦ c
      | some config ↦ record c {
        spec = record c.spec { config = some (insert (txt "appendonly") (txt "no") config) };
      }
    ]
    else c

-- IEnsureResource, UpdateCR and IsRequestRetryable. A method returns its error; the configuration
-- also whether a custom secret is missing, the stateful sets whether one is created.
pub record Ensurer (Q E : Type 0) : Type 0 where
  pub update_cr : History Q → Cluster Q → Option (Err E)
  pub config_map : History Q → Cluster Q → Option (Err E × Bool)
  pub statefulsets : History Q → Cluster Q → Bool × Option (Err E)
  pub shard_services : History Q → Cluster Q → Option (Err E)
  pub service : History Q → Cluster Q → Option (Err E)
  pub rclone_secret : History Q → Cluster Q → Option (Err E)
  pub is_request_retryable : Option (Err E) → Bool
  pub quantity : Text → Q
  pub size : Resources Q → ℕ

-- The result of ensureCluster, with the cluster as it leaves it.
pub record Ensured (Q E : Type 0) : Type 0 where
  pub cluster : Cluster Q
  pub created : Bool
  pub error : Option (Err E)

module _ {Q E : Type 0} (lib : Library E) (w : Ensurer Q E) where
  -- The checks and defaults of validateAndSetDefault, up to UpdateCR.
  unfoldable pub validate : Cluster Q → Validation Q
  validate c = elim (check_ha c.spec) [
    | some e ↦ refuses e
    | none ↦ elim c.spec.monitor [
      | none ↦ derefs_nil
      | some agents ↦
          if lacks_monitor_field agents
          then refuses (txt "required fields missing for monitor")
          else if is_restore_from_backup c && should_init_restore_phase c
          then refuses (txt "restore Not supported yet")
          else (let c' = without_slaves c in
              let d = default_spec w.quantity w.size c'.name c'.spec in
              sets (record c' { spec = d.0 }) d.1)
    ]
  ]

  -- validateAndSetDefault: the cluster and the error.
  unfoldable pub validate_and_set_default :
      {R : Type 0} → Cluster Q → M Q R (Cluster Q × Option (Err E))
  validate_and_set_default c = elim (validate c) [
    | derefs_nil ↦ panic
    | refuses e ↦ pure (c, some (foreign (lib.new e)))
    | sets c' false ↦ pure (c', none)
    | sets c' true ↦ (do err ← ask (λ h. w.update_cr h c'); emit (wrote_cr c'); pure (c', err))
  ]

  -- The error of ensureCluster for one of validateAndSetDefault.
  unfoldable pub invalid : Err E → Err E
  invalid e =
      if w.is_request_retryable (some e)
      then wrap lib kubernetes (some e) (txt "Validate")
      else wrap lib stop_retry (some e) (txt "stop retry")

  -- The error for one of EnsureRedisConfigMap.
  unfoldable pub unconfigured : Err E × Bool → Err E
  unconfigured (e, true) = wrap lib stop_retry (some e) (txt "AdminSecretMissing")
  unconfigured (e, false) = wrap lib kubernetes (some e) (txt "EnsureRedisConfigMap")

  -- The result where a call fails, with the error that the code makes of it.
  abbrev pub failed : Cluster Q → Bool → Err E → Ensured Q E
  failed c created e = record { cluster = c; created = created; error = some e }

  -- ensureCluster up to EnsureRedisStatefulsets.
  unfoldable pub ensure_statefulsets : Cluster Q → M Q (Ensured Q E) (Cluster Q × Bool)
  ensure_statefulsets c = do
    v ← validate_and_set_default c
    return_if v.1 (λ e. failed v.0 false (invalid e))
    let c' = db_loaded_from_disk_when_restore v.0
    conf ← ask (λ h. w.config_map h c')
    emit (ensured_config_map c')
    return_if conf (λ e. failed c' false (unconfigured e))
    made ← ask (λ h. w.statefulsets h c')
    emit (ensured_statefulsets c')
    return_if made.1
        (λ e. failed c' false (wrap lib kubernetes (some e) (txt "EnsureRedisStatefulSets")))
    pure (c', made.0)

  -- The error of ensureCluster for one of EnsureRedisRCloneSecret; `err` of the source is nil there.
  unfoldable pub no_rclone : Err E
  no_rclone =
      if w.is_request_retryable none
      then wrap lib kubernetes none (txt "EnsureRedisRCloneSecret")
      else wrap lib stop_retry none (txt "stop retry")

  -- The rest of ensureCluster. The errors of the first two calls are wrapped as the nil `err`.
  unfoldable pub ensure_services : Cluster Q → Bool → M Q (Ensured Q E) (Ensured Q E)
  ensure_services c created = do
    shards ← ask (λ h. w.shard_services h c)
    emit (ensured_shard_services c)
    return_if shards
        (λ e. failed c created (wrap lib kubernetes none (txt "EnsureRedisHeadLessSvcs")))
    service ← ask (λ h. w.service h c)
    emit (ensured_service c)
    return_if service (λ e. failed c created (wrap lib kubernetes none (txt "EnsureRedisSvc")))
    rclone ← ask (λ h. w.rclone_secret h c)
    emit (ensured_rclone_secret c)
    return_if rclone (λ e. failed c created no_rclone)
    pure (record { cluster = c; created = created; error = none })

  -- ensureCluster
  unfoldable pub ensure_cluster : Cluster Q → M Q (Ensured Q E) (Ensured Q E)
  ensure_cluster c = do r ← ensure_statefulsets c; ensure_services r.0 r.1
