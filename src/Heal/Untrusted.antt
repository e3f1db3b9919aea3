-- ===== src/Heal/Untrusted.antt =====
-- controllers/heal/untrustenodes.go: nodes that the others do not trust are forgotten.
-- The map of untrusted nodes is visited in the order that `visit` gives.
pub mod Pods
use rediscluster_operator.Base.{
  Bool, true, false, ◌&&◌, not, List, [], ◌∷◌, none, some, Text, same, lookup, insert,
  if◌then◌else◌,
}
use rediscluster_operator.Nodes.{Node, has_status, node_status_handshake, get_nodes_by_func}
use rediscluster_operator.Heal.{NodeInfos, forget, delete_pod, Admin, Repairs, send}

-- listUntrustedNodes
unfoldable pub untrusted_friends : List (Text × Node) → List Node → List (Text × Node)
untrusted_friends m [] = m
untrusted_friends m (n ∷ friends) =
    untrusted_friends
      (if has_status n node_status_handshake
        then elim (lookup n.id m) [ none ↦ insert n.id n m | some _ ↦ m ]
        else m)
      friends

unfoldable pub list_untrusted_nodes : List (Text × Node) → List NodeInfos → List (Text × Node)
list_untrusted_nodes m [] = m
list_untrusted_nodes m (i ∷ infos) = list_untrusted_nodes (untrusted_friends m i.friends) infos

-- What the operator reads of a pod.
pub record Pod : Type 0 where
  pub name : Text
  pub pod_ip : Text

-- The loop of checkIfPodNameExistAndIsReused, from `exist`.
unfoldable pub reuse_loop : Node → Bool → List Pod → Bool × Bool
reuse_loop n exist [] = (exist, false)
reuse_loop n exist (p ∷ pods) =
    let rest = reuse_loop n exist pods in
    let rest' = reuse_loop n true pods in
    if same p.name n.pod_name then (if same p.pod_ip n.ip then (true, true) else rest') else rest

-- checkIfPodNameExistAndIsReused
unfoldable pub check_if_pod_name_exist_and_is_reused : Node → List Pod → Bool × Bool
check_if_pod_name_exist_and_is_reused n pods =
    if same n.pod_name [] then (false, false) else reuse_loop n false pods

-- GetNodes of utils/redisutil/clusterinfo.go
unfoldable pub get_nodes : List NodeInfos → List Node
get_nodes [] = []
get_nodes (i ∷ infos) = i.node ∷ get_nodes infos

-- getByIPFunc
unfoldable pub shares_ip : Node → Node → Bool
shares_ip u n = same n.ip u.ip && not (same n.id u.id)

-- One round of the loop of FixUntrustedNodes. The only error of GetNodesByFunc is that no node is
-- found, which the source does not count as one.
unfoldable pub fix_untrusted_node :
    Bool → Admin → List Pod → List NodeInfos → Bool × Repairs → Text × Node → Bool × Repairs
unfolding shares_ip
fix_untrusted_node dry_run admin pods infos (done, s) (id, u) =
    elim (get_nodes_by_func (get_nodes infos) (shares_ip u)) [
      | some _ ↦ (done, s)
      | none ↦
          let (exist, reused) = check_if_pod_name_exist_and_is_reused u pods in
          let s' = if exist && not reused then send admin (delete_pod u.pod_name) s else s in
          (true, if dry_run then s' else send admin (forget id) s')
    ]

unfoldable pub fix_untrusted_loop :
    Bool → Admin → List Pod → List NodeInfos → Bool × Repairs → List (Text × Node) → Bool × Repairs
fix_untrusted_loop dry_run admin pods infos r [] = r
fix_untrusted_loop dry_run admin pods infos r (u ∷ untrusted) =
    fix_untrusted_loop dry_run admin pods infos (fix_untrusted_node dry_run admin pods infos r u)
      untrusted

-- FixUntrustedNodes
unfoldable pub fix_untrusted_nodes :
    Bool
    → Admin
    → (List (Text × Node) → List (Text × Node))
    → List Pod
    → List NodeInfos
    → Bool × Repairs
fix_untrusted_nodes dry_run admin visit pods infos =
    fix_untrusted_loop dry_run admin pods infos (false, record { sent = []; errs = 0 })
      (visit (list_untrusted_nodes [] infos))
