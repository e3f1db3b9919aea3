-- ===== src/Tests/Reconcile.antt =====
-- The controller on small inputs. An error of another package is its text.
use rediscluster_operator.Base.{
  ◌≡◌, ◌≢◌, ◌≤◌, refl, Bool, true, false, List, [], ◌∷◌, Option, none, some, Text, txt, length,
  slice_at, inl, inr, lookup, same,
}
use rediscluster_operator.Nodes.{Node, redis_slave_role}
use rediscluster_operator.Admin.Infos.{new_cluster_infos}
use rediscluster_operator.Placement.{cluster_statefulset_name}
use rediscluster_operator.Api.{
  Cluster, default_resource, default_redis_image, compare_sizes, is_restore_from_backup,
  default_spec,
}
use rediscluster_operator.Reconcile.{
  History, wrote_cr, wrote_status, ensured_config_map, ensured_statefulsets, ensured_shard_services,
  ensured_service, next, stop, returned,
}
use rediscluster_operator.Reconcile.Errors.{
  Err, Library, foreign, custom, kubernetes, wrap, get_type,
}
use rediscluster_operator.Reconcile.Round.{ensure_phase, not_ensured}
use rediscluster_operator.Reconcile.Ensure.{
  invalid, Ensurer, Ensured, ensure_cluster, ensure_statefulsets, ensure_services,
  validate_and_set_default, validate, check_ha, lacks_monitor_field, without_slaves,
  db_loaded_from_disk_when_restore,
}
use rediscluster_operator.Reconcile.Ensure.Lost.{IsLost, ensure_cluster-IsLost}
use rediscluster_operator.Reconcile.Sync.{Clustering, scaling_down}
use rediscluster_operator.Reconcile.Sync.Emptied.{DeletesForgotten, scaling_down-DeletesForgotten}
use rediscluster_operator.Reconcile.Passwords.{
  Secrets, reconcile_passwords, check_password_changed, check_versions,
}
use rediscluster_operator.Manager.{is_diff_acl_versions, some_key_missing, some_value_differs}
use rediscluster_operator.Base.Int.{pos}
use rediscluster_operator.Reconcile.Passwords.Recorded.{
  success, recorded, log, reconcile_passwords-records,
}
use rediscluster_operator.Reconcile.Pods.{PodClients}
use rediscluster_operator.Reconcile.Redistribute.{choose_sets}
use rediscluster_operator.Reconcile.Redistribute.Single.{AllByZone, choose_sets-one_each}
use rediscluster_operator.Reconcile.World.{Answer, World, fetched, not_found, done}
use rediscluster_operator.Reconcile.Whole.{reconcile, reconcile_fetched}
use rediscluster_operator.Reconcile.Whole.Requeued.{Ends, reconcile-Ends}
use rediscluster_operator.Tests.{node_a, node_c}
use rediscluster_operator.Tests.Api.{bare_cluster}

abbrev wrapped : Option (Err Text) → Text → Option Text
wrapped none msg = none
wrapped (some e) msg = some msg

abbrev texts : Library Text
texts = record { new = λ t. t; wrapf = wrapped; text = λ t. t }

wrapped_nil : (msg : Text) → wrapped none msg ≡ none
wrapped_nil msg = refl

abbrev never : Option (Err Text) → Bool
never e = false

-- Kubernetes, where only the last service cannot be made.
abbrev ensurer : Ensurer Text Text
ensurer = record {
  update_cr = λ h c. none;
  config_map = λ h c. none;
  statefulsets = λ h c. (true, none);
  shard_services = λ h c. none;
  service = λ h c. some (foreign (txt "timeout"));
  rclone_secret = λ h c. none;
  is_request_retryable = never;
  quantity = λ t. t;
  size = λ r. length r.requests;
}

abbrev clustering : Clustering Text Text
clustering = record {
  visit = λ m. m;
  attach_slave = λ h n m. none;
  alloc_slots = λ h n. none;
  rebalanced_cluster = λ h n. none;
  dispatch_slots = λ h n c a. none;
  noted = λ h n. n;
  get_statefulset = λ h t. none;
  forget = λ h t. none;
}

-- The secrets have a new version, and the nodes are not as they should be.
abbrev secrets : Secrets Text Text
secrets = record {
  get_config_map = λ h. none;
  generate_acl_conf = λ h. some (txt "acl", (txt "s", txt "2") ∷ []);
  errorf = λ t. t;
  visited = λ h m. m;
  check_node_num = λ h. some (foreign (txt "not ready"));
  connections = λ h. [];
  send_acl = λ h a c. none;
}

abbrev pod_clients : PodClients Text Text
pod_clients = record {
  connections = λ h. [];
  connect = λ h a. none;
  info = λ h a. inr [];
  revision = λ h t. inr [];
  delete_pod = λ h t. none;
  label_pod = λ h t r. none;
  await = λ h t. none;
}

abbrev gone : World Text Text
gone = record {
  lib = texts;
  ensurer = ensurer;
  clustering = clustering;
  secrets = secrets;
  pod_clients = pod_clients;
  get_cr = not_found;
  secret_versions = λ h. none;
  list_pods = λ h. inr [];
  fix_terminating = λ h. none;
  admin_password = λ h. none;
  get_cluster_infos = λ h. (new_cluster_infos, none);
  heal = λ h c i. (false, none);
  attach_node = λ h a. none;
  write_status = λ h s. none;
  update_statefulsets = λ h c. none;
  set_config_if_need = λ h c. none;
  node_labels = λ h t. none;
  count_statefulsets = λ h. none;
  zone_active = λ h z. none;
  failover = λ h n. none;
  annotate = λ h c k v. none;
  reconcile_time = pos 60;
}

-- A cluster whose monitor has no image is refused for good.
abbrev no_image : Cluster Text
no_image = record bare_cluster {
  spec = record bare_cluster.spec {
    monitor = some (record { image = []; prometheus = none } ∷ []);
  };
}

abbrev refusing : World Text Text
refusing = record gone { get_cr = fetched no_image }

refused_ends : returned {S = Answer Text} (reconcile refusing []) ≡ (next done, [])
unfolding reconcile reconcile_fetched ensure_phase ensure_cluster ensure_statefulsets
    validate_and_set_default validate check_ha compare_sizes lacks_monitor_field same not_ensured
    get_type invalid wrap
refused_ends = refl

reconcile-Ends_example : Ends refusing refusing.get_cr [] []
reconcile-Ends_example = reconcile-Ends refusing 59 [] [] done refl refused_ends refl

abbrev two_sets : List (Text × List Node)
two_sets =
    (cluster_statefulset_name (txt "c") 3, record node_c { id = txt "d" } ∷ [])
    ∷ (cluster_statefulset_name (txt "c") 4, node_a ∷ [])
    ∷ []

scaling_down-DeletesForgotten_example :
    DeletesForgotten two_sets (scaling_down texts clustering bare_cluster 4 two_sets []).1
scaling_down-DeletesForgotten_example =
    scaling_down-DeletesForgotten texts clustering two_sets bare_cluster 4 [] tt

abbrev not_ready : Err Text
not_ready = foreign (txt "not ready")

no_error : (check_password_changed secrets bare_cluster []).error ≡ none
unfolding check_password_changed check_versions
no_error = refl

new_version : (check_password_changed secrets bare_cluster []).changed ≡ true
unfolding check_password_changed check_versions is_diff_acl_versions some_key_missing
    some_value_differs lookup same
new_version = refl

no_secret_status : bare_cluster.status.secret_status ≢ success
no_secret_status e = cc

reconcile_passwords-records_example :
    reconcile_passwords {R = Answer Text} secrets bare_cluster [] ≡ (
      next (record bare_cluster { status = recorded secrets bare_cluster [] }),
      wrote_status (recorded secrets bare_cluster []) ∷ log secrets bare_cluster [],
    )
reconcile_passwords-records_example =
    reconcile_passwords-records secrets bare_cluster [] {R = Answer Text} not_ready no_error
      new_version (inl refl) no_secret_status

abbrev defaulted : Cluster Text
defaulted = record bare_cluster {
  spec = record bare_cluster.spec {
    master_size = pos 3;
    image = default_redis_image;
    service_name = txt "c";
    resources = some (default_resource (λ t. t));
  };
}

abbrev ensured_sets : History Text
ensured_sets =
    ensured_statefulsets defaulted ∷ ensured_config_map defaulted ∷ wrote_cr defaulted ∷ []

sets_ensured :
    ensure_statefulsets texts ensurer bare_cluster [] ≡ (next (defaulted, true), ensured_sets)
unfolding ensure_statefulsets validate_and_set_default validate check_ha lacks_monitor_field
    compare_sizes is_restore_from_backup default_spec without_slaves
    db_loaded_from_disk_when_restore same
sets_ensured = refl

abbrev lost : Ensured Text Text
lost = record { cluster = defaulted; created = true; error = some (custom kubernetes none) }

abbrev services_ensured : History Text
services_ensured = ensured_service defaulted ∷ ensured_shard_services defaulted ∷ ensured_sets

service_lost : ensure_cluster texts ensurer bare_cluster [] ≡ (stop lost, services_ensured)
unfolding ensure_cluster ensure_services wrap
service_lost = rw sets_ensured refl

ensure_cluster-IsLost_example : IsLost texts ensurer wrapped_nil refl lost
ensure_cluster-IsLost_example =
    ensure_cluster-IsLost texts ensurer wrapped_nil refl bare_cluster defaulted true [] ensured_sets
      services_ensured lost sets_ensured service_lost

abbrev slave_named : Text → Node
slave_named id = record node_c { id = id; role = redis_slave_role; stateful_set = txt "drc-c-0" }

-- Two slaves stand in the first zone.
abbrev crowded : List (List (Text × List Node))
crowded = ((txt "z1", slave_named (txt "s") ∷ slave_named (txt "t") ∷ []) ∷ []) ∷ []

abbrev is_z1 : Text → Bool
is_z1 t = same t (txt "z1")

crowded_by_zone : AllByZone is_z1 crowded
unfolding same
crowded_by_zone = ((refl, (refl, (refl, tt)), tt), tt)

choose_sets-one_each_example :
    length (slice_at (txt "drc-c-0") (choose_sets 1 ([], 0) crowded).0) ≤ 1
choose_sets-one_each_example = choose_sets-one_each is_z1 1 crowded crowded_by_zone (txt "drc-c-0")
