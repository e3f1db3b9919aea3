-- ===== src/Heal/Failed.antt =====
-- controllers/heal/failednodes.go: nodes that are gone are forgotten.
-- The threshold is a product of two int32 here below 2 ^ 31; a set that is visited in some order is
-- what `visit` makes of the list of its keys.
pub mod Ghosts
use rediscluster_operator.Base.{
  ℕ, ◌+◌, ◌*◌, ◌/◌, Bool, true, false, List, [], ◌∷◌, Option, none, some, Text, lookup, insert, leb,
  if◌then◌else◌,
}
use rediscluster_operator.Nodes.{Node, has_status, node_status_no_addr, node_status_fail}
use rediscluster_operator.Heal.{NodeInfos, forget, Admin, Repairs, send}

-- `ghostNodesDetect[id] += 1`; a missing key counts as 0. The counters stay below 2 ^ 31.
unfoldable pub bump : Text → List (Text × ℕ) → List (Text × ℕ)
bump id m = elim (lookup id m) [ none ↦ insert id 1 m | some c ↦ insert id (c + 1) m ]

-- One friend of listGhostNodes: each of the two flags counts.
unfoldable pub detect_friend : List (Text × ℕ) → Node → List (Text × ℕ)
detect_friend m n =
    let m' = if has_status n node_status_no_addr then bump n.id m else m in
    if has_status n node_status_fail then bump n.id m' else m'

unfoldable pub detect_friends : List (Text × ℕ) → List Node → List (Text × ℕ)
detect_friends m [] = m
detect_friends m (n ∷ friends) = detect_friends (detect_friend m n) friends

unfoldable pub detect : List (Text × ℕ) → List NodeInfos → List (Text × ℕ)
detect m [] = m
detect m (i ∷ infos) = detect (detect_friends m i.friends) infos

-- The last loop of listGhostNodes; the order of the visit does not matter for a set.
unfoldable pub ghosts_of : ℕ → List (Text × ℕ) → List Text
ghosts_of threshold [] = []
ghosts_of threshold ((id, c) ∷ m) =
    if leb threshold c then id ∷ ghosts_of threshold m else ghosts_of threshold m

-- listGhostNodes: the keys of the set.
unfoldable pub list_ghost_nodes : ℕ → ℕ → List NodeInfos → List Text
list_ghost_nodes cluster_replicas master_size infos =
    ghosts_of ((cluster_replicas + 1) * master_size / 2) (detect [] infos)

-- The loop of FixFailedNodes.
unfoldable pub forget_all : Bool → Admin → Bool → Repairs → List Text → Bool × Repairs
forget_all dry_run admin done s [] = (done, s)
forget_all dry_run admin done s (id ∷ ids) =
    forget_all dry_run admin true (if dry_run then s else send admin (forget id) s) ids

-- FixFailedNodes
unfoldable pub fix_failed_nodes :
    Bool → Admin → (List Text → List Text) → ℕ → ℕ → List NodeInfos → Bool × Repairs
fix_failed_nodes dry_run admin visit cluster_replicas master_size infos =
    forget_all dry_run admin false (record { sent = []; errs = 0 })
      (visit (list_ghost_nodes cluster_replicas master_size infos))
