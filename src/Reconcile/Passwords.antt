-- ===== src/Reconcile/Passwords.antt =====
-- checkandUpdatePassword of controllers/distributedrediscluster/sync_handler.go with
-- CheckPasswordChanged of controllers/manager/checker.go, and what Reconcile writes of it.
-- GenerateAclconf, the configuration map and Redis are parameters; a map that is ranged over is a list
-- in the order of the visit.
pub mod Recorded
use rediscluster_operator.Base.{
  ℕ, Bool, true, false, List, [], ◌∷◌, Option, none, some, Text, txt, ◌==◌, if◌then◌else◌, length,
  ◌⊎◌, inl, inr,
}
use rediscluster_operator.Acl.{generate_acl_commands}
use rediscluster_operator.Manager.{is_diff_acl_versions}
use rediscluster_operator.Status.{ClusterStatus, set_cluster_reset_password, set_secret_status}
use rediscluster_operator.Status.Compare.{compare_status, no_secrets}
use rediscluster_operator.Api.{Cluster}
use rediscluster_operator.Reconcile.{
  Step, History, wrote_status, set_acl, M, ◌>>=◌, ◌>>◌, pure, return, emit, ask, return_if, call,
}
use rediscluster_operator.Reconcile.Errors.{Err, foreign}

abbrev pub Versions : Type 0
Versions = List (Text × Text)

-- What CheckPasswordChanged returns.
pub record PasswordCheck (E : Type 0) : Type 0 where
  pub changed : Bool
  pub acl_conf : Text
  pub versions : Versions
  pub error : Option (Err E)

-- What checkandUpdatePassword returns, with the cluster as it leaves it; nil versions are `none`.
pub record PasswordUpdate (Q E : Type 0) : Type 0 where
  pub cluster : Cluster Q
  pub versions : Option Versions
  pub error : Option (Err E)

-- GetConfigMap with whether its error is IsNotFound, the functions that read the secrets (none is an
-- error), fmt.Errorf of a text, the order in which the commands are visited, CheckRedisNodeNum, the
-- connections and the command to one of them.
pub record Secrets (Q E : Type 0) : Type 0 where
  pub get_config_map : History Q → Option (Err E × Bool)
  pub generate_acl_conf : History Q → Option (Text × Versions)
  pub errorf : Text → E
  pub visited : History Q → List (Text × Text) → List (Text × Text)
  pub check_node_num : History Q → Option (Err E)
  pub connections : History Q → List Text
  pub send_acl : History Q → Text → Text → Option (Err E)

module _ {Q E : Type 0} (w : Secrets Q E) where
  abbrev pub unchanged : Option (Err E) → PasswordCheck E
  unchanged err = record { changed = false; acl_conf = []; versions = []; error = err }

  -- CheckPasswordChanged from its second test on, with the error of GetConfigMap.
  unfoldable pub check_versions : Cluster Q → Option (Err E) → History Q → PasswordCheck E
  check_versions c err h = elim c.status.secrets_ver [
    | none ↦ unchanged err
    | some current ↦ if length current == 0 then unchanged err else elim (w.generate_acl_conf h) [
      | none ↦ unchanged err
      | some (conf, latest) ↦ record {
        changed = is_diff_acl_versions current latest;
        acl_conf = conf;
        versions = latest;
        error = none;
      }
    ]
  ]

  -- CheckPasswordChanged
  unfoldable pub check_password_changed : Cluster Q → History Q → PasswordCheck E
  check_password_changed c h = elim (w.get_config_map h) [
    | none ↦ check_versions c none h
    | some (e, true) ↦ unchanged (some e)
    | some (e, false) ↦ check_versions c (some e) h
  ]

  -- The loop over the connections for one command.
  unfoldable pub send_to_all : Cluster Q → Text → List Text → M Q (PasswordUpdate Q E) (Unit {0})
  send_to_all c acl [] = pure tt
  send_to_all c acl (addr ∷ addrs) = do
    err ← ask (λ h. w.send_acl h addr acl)
    emit (set_acl addr acl)
    return_if err (λ e. record { cluster = c; versions = none; error = some e })
    send_to_all c acl addrs

  -- The loop over the commands.
  unfoldable pub send_commands :
      Cluster Q → List (Text × Text) → M Q (PasswordUpdate Q E) (Unit {0})
  send_commands c [] = pure tt
  send_commands c ((key, acl) ∷ commands) = do
    addrs ← ask w.connections
    send_to_all c acl addrs
    send_commands c commands

  -- The commands in the order of the visit, or the error of GenerateAclcommands.
  unfoldable pub commands_of :
      Option Versions → Text → Versions → History Q → Err E ⊎ List (Text × Text)
  commands_of current conf latest h = elim (generate_acl_commands current conf latest) [
    | inl msg ↦ inl (foreign (w.errorf msg))
    | inr commands ↦ inr (w.visited h commands)
  ]

  -- The commands of checkandUpdatePassword, where the nodes are as they should be.
  unfoldable pub send_generated :
      Cluster Q → Versions → Err E ⊎ List (Text × Text) → M Q (PasswordUpdate Q E) (Unit {0})
  send_generated c versions (inl e) =
      return (record { cluster = c; versions = some versions; error = some e })
  send_generated c versions (inr commands) = send_commands c commands

  -- checkandUpdatePassword after the check.
  unfoldable pub update_passwords :
      Cluster Q → PasswordCheck E → M Q (PasswordUpdate Q E) (PasswordUpdate Q E)
  update_passwords c k =
      let c' = record c { status = set_cluster_reset_password c.status (txt "Updating ACL's") } in
      let done : PasswordUpdate Q E = record {
        cluster = c';
        versions = some k.versions;
        error = none;
      } in
      (do
        emit (wrote_status c'.status)
        nodes ← ask w.check_node_num
        return_if nodes (λ e. done)
        commands ← ask (commands_of c.status.secrets_ver k.acl_conf k.versions)
        send_generated c' k.versions commands
        pure done)

  -- checkandUpdatePassword
  unfoldable pub check_and_update_password :
      Cluster Q → M Q (PasswordUpdate Q E) (PasswordUpdate Q E)
  check_and_update_password c = do
    k ← ask (check_password_changed c)
    return_if k.error (λ e. record { cluster = c; versions = none; error = some e })
    (if k.changed
        then update_passwords c k
        else pure (record { cluster = c; versions = none; error = none }))

-- updateClusterIfNeed of controllers/distributedrediscluster/status.go.
unfoldable pub update_cluster_if_need :
    {Q R : Type 0} → Cluster Q → ClusterStatus → M Q R (Cluster Q)
update_cluster_if_need c s =
    if compare_status c.status s
    then (do emit (wrote_status s); pure (record c { status = s }))
    else pure c

-- The secret status that Reconcile makes of the result.
unfoldable pub secret_status_of :
    {E : Type 0} → ClusterStatus → Option Versions → Option (Err E) → ClusterStatus
secret_status_of s (some versions) err = record (set_secret_status s (txt "ACLupdateSuccess")) {
  secrets_ver = some versions;
}
secret_status_of s none none = set_secret_status s (txt "ACLintact")
secret_status_of s none (some e) = set_secret_status s (txt "ACLupdateERR")

-- The part of Reconcile that checks and updates the passwords.
unfoldable pub reconcile_passwords : {Q E R : Type 0} → Secrets Q E → Cluster Q → M Q R (Cluster Q)
reconcile_passwords w c = do
  u ← call (check_and_update_password w c)
  update_cluster_if_need u.cluster (secret_status_of u.cluster.status u.versions u.error)
