-- ===== src/Admin/Infos.antt =====
-- GetClusterInfos, CheckandUpdateClusterState and GetSlaveStatus of utils/redisutil/admin.go.
-- What a node answers to CLUSTER NODES (decoded), CLUSTER INFO (its cluster_state) and INFO is a
-- parameter, `none` on an error; the map of connections is a list of addresses in the order of the
-- visit. A node's own entry is never nil here: DecodeNodeInfos starts from one.
pub mod Reasons
pub mod Answered
use rediscluster_operator.Base.{
  ℕ, Bool, true, false, ◌&&◌, ◌||◌, not, List, [], ◌∷◌, ◌++◌, Option, none, some, Text, txt, same,
  insert, ltb, length, ◌==◌, if◌then◌else◌,
}
use rediscluster_operator.Nodes.{Node, ip_port, redis_slave_role}
use rediscluster_operator.Heal.{NodeInfos}
use rediscluster_operator.Status.{join}
use rediscluster_operator.View.{InfosStatus, unset, partial, has_prefix, compute_status}

abbrev pub cluster_state_unknown : Text
cluster_state_unknown = txt "Unknown"

abbrev pub cluster_state_nok : Text
cluster_state_nok = txt "NOK"

abbrev pub cluster_state_ok : Text
cluster_state_ok = txt "OK"

-- ClusterInfos
pub record ClusterInfos : Type 0 where
  pub infos : List (Text × NodeInfos)
  pub status : InfosStatus
  pub cluster_state : Text
  pub cluster_nok_reason : List (Text × Text)

-- NewClusterInfos
abbrev pub new_cluster_infos : ClusterInfos
new_cluster_infos = record {
  infos = [];
  status = unset;
  cluster_state = cluster_state_unknown;
  cluster_nok_reason = [];
}

-- CheckandUpdateClusterState, and whether it returns an error.
unfoldable pub check_and_update_cluster_state :
    ClusterInfos → Text → Text → Text → Text → ClusterInfos × Bool
check_and_update_cluster_state c cs from_ip ip reason =
    if same cs cluster_state_unknown
    then (c, true)
    else if same c.cluster_state cluster_state_unknown
    then (
      record c {
        cluster_state = cs;
        cluster_nok_reason =
            if same cs cluster_state_nok
            then insert from_ip (ip ++ (txt "-" ++ reason)) c.cluster_nok_reason
            else c.cluster_nok_reason;
      },
      false,
    )
    else if same cs cluster_state_nok
        && (same c.cluster_state cluster_state_ok || same c.cluster_state cluster_state_nok)
    then (
      record c {
        cluster_state = cs;
        cluster_nok_reason = insert from_ip (ip ++ (txt "- " ++ reason)) c.cluster_nok_reason;
      },
      false,
    )
    else (c, false)

-- strings.Contains
unfoldable pub contains_text : Text → Text → Bool
contains_text [] part = has_prefix [] part
contains_text (c ∷ s) part = has_prefix (c ∷ s) part || contains_text s part

-- GetSlaveStatus on the answer to INFO, with whether it returns an error.
unfoldable pub get_slave_status : Option Text → Text × Bool
get_slave_status none = (txt "unknown", true)
get_slave_status (some info) =
    if contains_text info (txt "master_sync_in_progress:1")
    then (txt "ReplicaSyncing", false)
    else if contains_text info (txt "master_host:127.0.0.1")
    then (txt "ReplicaMasterNil", false)
    else if contains_text info (txt "master_link_status:up")
    then (txt "ready", false)
    else (txt "unknown", false)

-- The three answers of a node.
pub record Answers : Type 0 where
  pub node_infos : Text → Option NodeInfos
  pub cluster_state_of : Text → Option Text
  pub replication_info : Text → Option Text

-- A reason against a node, when the test holds.
unfoldable pub report_if : Bool → Text → Text → Text → ClusterInfos → ClusterInfos
report_if test from_ip ip reason c =
    if test then (check_and_update_cluster_state c cluster_state_nok from_ip ip reason).0 else c

unfoldable pub report_state : Option Text → Text → ClusterInfos → ClusterInfos
report_state none ip c =
    report_if true ip ip (txt "ClusterStatusFail")
      (report_if true ip ip (txt "ClusterStatusNotRetrived") c)
report_state (some state) ip c =
    report_if (not (same state (txt "ok"))) ip ip (txt "ClusterStatusFail") c

unfoldable pub report_replica : Option Text → Node → ClusterInfos → ClusterInfos
report_replica info n c =
    if same n.role redis_slave_role
    then (let s = get_slave_status info in
        report_if (not (same s.0 (txt "ready"))) n.ip n.ip s.0
          (report_if s.1 n.ip n.ip (txt "unknown") c))
    else c

unfoldable pub report_friends : Text → List Node → ClusterInfos → ClusterInfos
report_friends from_ip [] c = c
report_friends from_ip (f ∷ friends) c =
    report_friends from_ip friends
      (report_if (ltb 0 (length f.fail_status)) from_ip f.ip (join (txt ",") f.fail_status) c)

-- What GetClusterInfos does for one view.
unfoldable pub report_node : Answers → Text → NodeInfos → ClusterInfos → ClusterInfos
report_node a addr i c =
    let n = i.node in
    let known = record c { infos = insert addr i c.infos } in
    let replica =
      report_replica (a.replication_info addr) n
        (report_state (a.cluster_state_of addr) n.ip known) in
    let moving = not (length n.migrating_slots == 0) || not (length n.importing_slots == 0) in
    report_if moving n.ip n.ip (txt "SlotsMigrating") (report_friends n.ip i.friends replica)

-- The loop of GetClusterInfos, with whether some node has not answered.
unfoldable pub gather : Answers → List Text → ClusterInfos → Bool → ClusterInfos × Bool
gather a [] c failed = (c, failed)
gather a (addr ∷ addrs) c failed = elim (a.node_infos addr) [
  | none ↦ gather a addrs (record c { status = partial }) true
  | some i ↦
      gather a addrs (if same (ip_port i.node) addr then report_node a addr i c else c) failed
]

unfoldable pub views_of : List (Text × NodeInfos) → List NodeInfos
views_of [] = []
views_of ((addr, i) ∷ infos) = i ∷ views_of infos

-- The end of GetClusterInfos: the status, and whether it returns an error.
unfoldable pub conclude : ClusterInfos → Bool → ClusterInfos × Bool
conclude c true = (c, true)
conclude c false =
    let r = compute_status c.status (views_of c.infos) in (record c { status = r.0 }, not r.1)

-- GetClusterInfos
unfoldable pub get_cluster_infos : Answers → List Text → ClusterInfos × Bool
get_cluster_infos a addrs = let r = gather a addrs new_cluster_infos false in conclude r.0 r.1
