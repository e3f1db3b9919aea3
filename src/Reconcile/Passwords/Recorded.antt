-- ===== src/Reconcile/Passwords/Recorded.antt =====
-- What the status says of secrets that were not sent to Redis.
use rediscluster_operator.Base.{
  ◌≡◌, ◌≢◌, refl, true, false, ◌∷◌, Option, none, some, Text, txt, same, same_iff, ◌⊎◌, inl, inr,
  arith,
}
use rediscluster_operator.Status.{ClusterStatus, set_cluster_reset_password, set_secret_status}
use rediscluster_operator.Status.Compare.{compare_status, compare_string_value}
use rediscluster_operator.Api.{Cluster}
use rediscluster_operator.Reconcile.{History, next, wrote_status}
use rediscluster_operator.Reconcile.Errors.{Err}
use rediscluster_operator.Reconcile.Passwords.{
  Secrets, Versions, PasswordCheck, check_password_changed, check_and_update_password,
  update_passwords, send_generated, commands_of, update_cluster_if_need, secret_status_of,
  reconcile_passwords,
}

abbrev pub success : Text
success = txt "ACLupdateSuccess"

compare_status-secret :
    (s : ClusterStatus) (v : Option Versions)
    → s.secret_status ≢ success
    → compare_status s (record s { secret_status = success; secrets_ver = v }) ≡ true
unfolding compare_status compare_string_value
compare_status-secret s v h =
    let e : same s.secret_status success ≡ false =
      ground (arith, h, same_iff s.secret_status success) in
    ground (arith, e)

module _ {Q E : Type 0} (w : Secrets Q E) (c : Cluster Q) (h : History Q) where
  -- The status while the passwords are updated, and the history then.
  abbrev pub resetting : ClusterStatus
  resetting = set_cluster_reset_password c.status (txt "Updating ACL's")

  abbrev pub k : PasswordCheck E
  k = check_password_changed w c h

  abbrev pub log : History Q
  log = wrote_status resetting ∷ h

  -- Nothing can be sent: the nodes are not as they should be, or the commands cannot be made.
  abbrev pub CannotSend : Err E → Type 0
  CannotSend e =
      (w.check_node_num log ≡ some e)
      ⊎ ((w.check_node_num log ≡ none)
          × (commands_of w c.status.secrets_ver k.acl_conf k.versions log ≡ inl e))

  abbrev pub recorded : ClusterStatus
  recorded = record resetting { secret_status = success; secrets_ver = some k.versions }

  recorded_lem :
      {R : Type 0}
      → c.status.secret_status ≢ success
      → update_cluster_if_need {R = R} (record c { status = resetting }) recorded log
        ≡ (next (record c { status = recorded }), wrote_status recorded ∷ log)
  unfolding update_cluster_if_need set_cluster_reset_password
  recorded_lem n =
      rw (update_cluster_if_need, compare_status-secret resetting (some k.versions) n) refl

  -- Where the secrets have changed and nothing can be sent to Redis, Reconcile sends no command and
  -- records the new versions as sent, unless the status says so already.
  pub reconcile_passwords-records :
      {R : Type 0} (e : Err E)
      → k.error ≡ none
      → k.changed ≡ true
      → CannotSend e
      → c.status.secret_status ≢ success
      → reconcile_passwords {R = R} w c h
        ≡ (next (record c { status = recorded }), wrote_status recorded ∷ log)
  unfolding reconcile_passwords check_and_update_password update_passwords secret_status_of
      send_generated set_secret_status
  reconcile_passwords-records e a b (inl f) n = rw (a, b, f) (recorded_lem n)
  reconcile_passwords-records e a b (inr (f, g)) n = rw (a, b, f, g) (recorded_lem n)
