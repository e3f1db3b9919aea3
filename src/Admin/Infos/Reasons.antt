-- ===== src/Admin/Infos/Reasons.antt =====
-- The state and the reasons that GetClusterInfos of utils/redisutil/admin.go gathers, and its error.
use rediscluster_operator.Base.{
  ◌≡◌, refl, ◌⊎◌, ◌<◌, Bool, true, false, ◌||◌, not, List, [], ◌∷◌, ◌++◌, Option, none, some, Text,
  txt, same, insert, ltb, length, ◌==◌, arith, Bool-cases, Option-cases, inl, inr,
}
use rediscluster_operator.Nodes.{Node, ip_port, redis_slave_role}
use rediscluster_operator.Heal.{NodeInfos}
use rediscluster_operator.Status.{join}
use rediscluster_operator.View.{partial}
use rediscluster_operator.Admin.Infos.{
  ClusterInfos, Answers, new_cluster_infos, cluster_state_unknown, cluster_state_nok,
  check_and_update_cluster_state, get_slave_status, report_if, report_state, report_replica,
  report_friends, report_node, gather, conclude, get_cluster_infos,
}

-- The state is unknown with no reason, or not OK with some reason.
abbrev pub IsExplained : ClusterInfos → Type 0
IsExplained c =
    ((c.cluster_state ≡ cluster_state_unknown) × (length c.cluster_nok_reason ≡ 0))
    ⊎ ((c.cluster_state ≡ cluster_state_nok) × (0 < length c.cluster_nok_reason))

length-insert : (k v : Text) (m : List (Text × Text)) → 0 < length (insert k v m)
unfolding insert
length-insert k v [] = omega arith
length-insert k v ((j, w) ∷ m) = elim (Bool-cases (same j k)) [
  | inl e ↦ rw e (omega arith)
  | inr e ↦ rw e (omega arith)
]

report_if-IsExplained :
    (test : Bool) (from_ip ip reason : Text) (c : ClusterInfos)
    → IsExplained c
    → IsExplained (report_if test from_ip ip reason c)
unfolding report_if check_and_update_cluster_state same
report_if-IsExplained false from_ip ip reason c h = h
report_if-IsExplained true from_ip ip reason c (inl (e, z)) =
    rw e (inr (refl, length-insert from_ip (ip ++ (txt "-" ++ reason)) c.cluster_nok_reason))
report_if-IsExplained true from_ip ip reason c (inr (e, z)) =
    rw e (inr (refl, length-insert from_ip (ip ++ (txt "- " ++ reason)) c.cluster_nok_reason))

-- A property of the infos that each report keeps is kept by what is done for a node.
module _ (P : ClusterInfos → Type 0)
    (keeps : (test : Bool) (from_ip ip reason : Text) (c : ClusterInfos)
      → P c
      → P (report_if test from_ip ip reason c)) where
  keep_state : (o : Option Text) (ip : Text) (c : ClusterInfos) → P c → P (report_state o ip c)
  unfolding report_state
  keep_state none ip c h =
      keeps true ip ip (txt "ClusterStatusFail")
        (report_if true ip ip (txt "ClusterStatusNotRetrived") c)
        (keeps true ip ip (txt "ClusterStatusNotRetrived") c h)
  keep_state (some s) ip c h = keeps (not (same s (txt "ok"))) ip ip (txt "ClusterStatusFail") c h

  keep_replica : (o : Option Text) (n : Node) (c : ClusterInfos) → P c → P (report_replica o n c)
  unfolding report_replica
  keep_replica o n c h = elim (Bool-cases (same n.role redis_slave_role)) [
    | inr e ↦ rw (report_replica, e) h
    | inl e ↦
        let s = get_slave_status o in
        rw (report_replica, e)
          (keeps (not (same s.0 (txt "ready"))) n.ip n.ip s.0
            (report_if s.1 n.ip n.ip (txt "unknown") c) (keeps s.1 n.ip n.ip (txt "unknown") c h))
  ]

  keep_friends :
      (from_ip : Text) (friends : List Node) (c : ClusterInfos)
      → P c
      → P (report_friends from_ip friends c)
  unfolding report_friends
  keep_friends from_ip [] c h = h
  keep_friends from_ip (f ∷ friends) c h =
      let test = ltb 0 (length f.fail_status) in
      let reason = join (txt ",") f.fail_status in
      keep_friends from_ip friends (report_if test from_ip f.ip reason c)
        (keeps test from_ip f.ip reason c h)

  pub keep_node :
      (a : Answers) (addr : Text) (i : NodeInfos) (c : ClusterInfos)
      → P (record c { infos = insert addr i c.infos })
      → P (report_node a addr i c)
  unfolding report_node
  keep_node a addr i c h =
      let n = i.node in
      let known = record c { infos = insert addr i c.infos } in
      let state = report_state (a.cluster_state_of addr) n.ip known in
      let replica = report_replica (a.replication_info addr) n state in
      keeps (not (length n.migrating_slots == 0) || not (length n.importing_slots == 0)) n.ip n.ip
        (txt "SlotsMigrating") (report_friends n.ip i.friends replica)
        (keep_friends n.ip i.friends replica (
          keep_replica (a.replication_info addr) n state
            (keep_state (a.cluster_state_of addr) n.ip known h)))

gather-IsExplained :
    (a : Answers) (addrs : List Text) (c : ClusterInfos) (failed : Bool)
    → IsExplained c
    → IsExplained (gather a addrs c failed).0
unfolding gather
gather-IsExplained a [] c failed h = h
gather-IsExplained a (addr ∷ addrs) c failed h = elim (Option-cases (a.node_infos addr)) [
  | inl e ↦ rw (gather, e) (gather-IsExplained a addrs (record c { status = partial }) true h)
  | inr (i, e) ↦ elim (Bool-cases (same (ip_port i.node) addr)) [
    | inl f ↦
        rw (gather, e, f)
          (gather-IsExplained a addrs (report_node a addr i c) failed
            (keep_node IsExplained report_if-IsExplained a addr i c h))
    | inr f ↦ rw (gather, e, f) (gather-IsExplained a addrs c failed h)
  ]
]

conclude-IsExplained :
    (c : ClusterInfos) (failed : Bool) → IsExplained c → IsExplained (conclude c failed).0
unfolding conclude
conclude-IsExplained c true h = h
conclude-IsExplained c false h = h

-- In what GetClusterInfos returns, whatever the nodes answer, the state is unknown and there is no
-- reason, or it is not OK and there is some reason; so it is never OK.
pub get_cluster_infos-IsExplained :
    (a : Answers) (addrs : List Text) → IsExplained (get_cluster_infos a addrs).0
unfolding get_cluster_infos
get_cluster_infos-IsExplained a addrs =
    let r = gather a addrs new_cluster_infos false in
    conclude-IsExplained r.0 r.1
      (gather-IsExplained a addrs new_cluster_infos false (inl (refl, refl)))
