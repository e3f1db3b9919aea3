-- ===== src/Heal/Untrusted/Pods.antt =====
-- The pods that FixUntrustedNodes of controllers/heal/untrustenodes.go deletes.
use rediscluster_operator.Base.{
  Bool, true, false, ◌&&◌, ◌||◌, not, ◌≡◌, refl, List, [], ◌∷◌, none, some, Text, same,
  if◌then◌else◌, arith,
}
use rediscluster_operator.Nodes.{Node, get_nodes_by_func}
use rediscluster_operator.Heal.{NodeInfos, Repair, delete_pod, Admin, Repairs, send}
use rediscluster_operator.Heal.Untrusted.{
  Pod, reuse_loop, check_if_pod_name_exist_and_is_reused, get_nodes, shares_ip,
  list_untrusted_nodes, fix_untrusted_node, fix_untrusted_loop, fix_untrusted_nodes,
}

-- A pod of that name is deleted by one of the calls.
unfoldable pub deleted : Text → List Repair → Bool
deleted name [] = false
deleted name (delete_pod p ∷ sent) = if same name p then true else deleted name sent
deleted name (_ ∷ sent) = deleted name sent

-- A pod has the name that the node notes.
unfoldable pub has_pod : Node → List Pod → Bool
has_pod u [] = false
has_pod u (p ∷ pods) = if same p.name u.pod_name then true else has_pod u pods

-- That pod has the address of the node, too.
unfoldable pub runs_on_pod : Node → List Pod → Bool
runs_on_pod u [] = false
runs_on_pod u (p ∷ pods) =
    if same p.name u.pod_name && same p.pod_ip u.ip then true else runs_on_pod u pods

-- A node with another id has its address.
unfoldable pub replaced : Node → List NodeInfos → Bool
replaced u [] = false
replaced u (i ∷ infos) =
    if same i.node.ip u.ip && not (same i.node.id u.id) then true else replaced u infos

-- The node is the reason to delete the pod.
unfoldable pub due : Text → List Pod → List NodeInfos → Node → Bool
due name pods infos u =
    same name u.pod_name
    && (not (same u.pod_name [])
        && (has_pod u pods && (not (runs_on_pod u pods) && not (replaced u infos))))

unfoldable pub some_due : Text → List Pod → List NodeInfos → List (Text × Node) → Bool
some_due name pods infos [] = false
some_due name pods infos ((id, u) ∷ untrusted) =
    if due name pods infos u then true else some_due name pods infos untrusted

reuse_loop_lem :
    (u : Node) (exist : Bool) (pods : List Pod)
    → reuse_loop u exist pods ≡ (exist || has_pod u pods, runs_on_pod u pods)
unfolding reuse_loop has_pod runs_on_pod
reuse_loop_lem u exist [] = ground arith
reuse_loop_lem u exist (p ∷ pods) =
    ground (arith, reuse_loop_lem u exist pods, reuse_loop_lem u true pods)

nodes_by_ip :
    (u : Node) (infos : List NodeInfos)
    → replaced u infos
      ≡ (elim (get_nodes_by_func (get_nodes infos) (shares_ip u)) [ none ↦ false | some _ ↦ true ])
unfolding replaced get_nodes get_nodes_by_func shares_ip
nodes_by_ip u [] = refl
nodes_by_ip u (i ∷ infos) = ground (arith, nodes_by_ip u infos)

deleted-node :
    (name : Text) (dry_run : Bool) (admin : Admin) (pods : List Pod) (infos : List NodeInfos)
    (done : Bool) (s : Repairs) (id : Text) (u : Node)
    → deleted name (fix_untrusted_node dry_run admin pods infos (done, s) (id, u)).1.sent
      ≡ (deleted name s.sent || due name pods infos u)
unfolding deleted fix_untrusted_node due check_if_pod_name_exist_and_is_reused send
deleted-node name dry_run admin pods infos done s id u =
    ground (arith, reuse_loop_lem u false pods, nodes_by_ip u infos)

deleted-loop :
    (name : Text) (dry_run : Bool) (admin : Admin) (pods : List Pod) (infos : List NodeInfos)
    (done : Bool) (s : Repairs) (untrusted : List (Text × Node))
    → deleted name (fix_untrusted_loop dry_run admin pods infos (done, s) untrusted).1.sent
      ≡ (deleted name s.sent || some_due name pods infos untrusted)
unfolding fix_untrusted_loop some_due
deleted-loop name dry_run admin pods infos done s [] = ground arith
deleted-loop name dry_run admin pods infos done s ((id, u) ∷ untrusted) =
    let r = fix_untrusted_node dry_run admin pods infos (done, s) (id, u) in
    ground (
      arith,
      deleted-node name dry_run admin pods infos done s id u,
      deleted-loop name dry_run admin pods infos r.0 r.1 untrusted,
    )

-- FixUntrustedNodes deletes the pod of that name, in a dry run too, exactly when some untrusted
-- node notes the name, which is not empty, a pod with it exists, none with it has the node's
-- address, and no view's own node with another id has that address. This is so for each order of
-- the visit and whatever calls fail.
pub deleted-fix_untrusted_nodes :
    (name : Text) (dry_run : Bool) (admin : Admin) (visit : List (Text × Node) → List (Text × Node))
    (pods : List Pod) (infos : List NodeInfos)
    → deleted name (fix_untrusted_nodes dry_run admin visit pods infos).1.sent
      ≡ some_due name pods infos (visit (list_untrusted_nodes [] infos))
unfolding fix_untrusted_nodes deleted
deleted-fix_untrusted_nodes name dry_run admin visit pods infos =
    deleted-loop name dry_run admin pods infos false (record { sent = []; errs = 0 })
      (visit (list_untrusted_nodes [] infos))
