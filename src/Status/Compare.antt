-- ===== src/Status/Compare.antt =====
-- compareStatus and compareNodes of controllers/distributedrediscluster/status.go, with
-- utils/commonutils/compare.go: whether the status has to be written.
-- Slices of slots are never nil: buildClusterStatus makes them.
pub mod Exact
use rediscluster_operator.Base.{
  ℕ, ◌≡◌, refl, sym, ap, ◌∙◌, ◌↔◌, ◌≢◌, ◌<◌, Bool, true, false, ◌&&◌, ◌||◌, not, List, [], ◌∷◌,
  Option, none, some, Text, same, same_iff, same_refl, ◌==◌, if◌then◌else◌, length, arith, All,
  Bool-cases, inl, inr,
}
use rediscluster_operator.Nodes.{RedisRole, role_master, role_slave, role_none}
use rediscluster_operator.Placement.{
  HaStatus, ha_unset, ha_creating, ha_healthy, ha_redistribute, ha_failed,
}
use rediscluster_operator.Status.{StatusNode, ClusterStatus}

-- CompareStringValue
unfoldable pub compare_string_value : Text → Text → Bool
compare_string_value old new = not (same old new)

-- CompareInt32
unfoldable pub compare_int32 : ℕ → ℕ → Bool
compare_int32 old new = not (old == new)

-- A number for each HaStatus, and for each RedisRole: they are compared by their strings, which differ.
abbrev pub ha_code : HaStatus → ℕ
ha_code ha_unset = 0
ha_code ha_creating = 1
ha_code ha_healthy = 2
ha_code ha_redistribute = 3
ha_code ha_failed = 4

abbrev pub role_code : RedisRole → ℕ
role_code role_master = 0
role_code role_slave = 1
role_code role_none = 2

-- reflect.DeepEqual of two slices of strings.
unfoldable pub same_texts : List Text → List Text → Bool
same_texts [] [] = true
same_texts [] (t ∷ ts) = false
same_texts (s ∷ ss) [] = false
same_texts (s ∷ ss) (t ∷ ts) = same s t && same_texts ss ts

-- compareNodes
unfoldable pub compare_nodes : StatusNode → StatusNode → Bool
unfolding compare_string_value
compare_nodes a b =
    if compare_string_value a.ip b.ip
    then true
    else if compare_string_value a.master_ref b.master_ref
    then true
    else if compare_string_value a.pod_name b.pod_name
    then true
    else if compare_string_value a.port b.port
    then true
    else if not (role_code a.role == role_code b.role)
    then true
    else if not (length a.slots == length b.slots)
    then true
    else not (length a.slots == 0) && not (same_texts a.slots b.slots)

-- The inner loop over the new nodes: whether it returns true, and whether it finds the id.
unfoldable pub compare_with : StatusNode → Bool → List StatusNode → Bool × Bool
compare_with a found [] = (false, found)
compare_with a found (b ∷ nodes) =
    if same a.id b.id
    then (if compare_nodes a b then (true, true) else compare_with a true nodes)
    else compare_with a found nodes

-- The loop over the old nodes.
unfoldable pub compare_all : List StatusNode → List StatusNode → Bool
compare_all [] new = false
compare_all (a ∷ old) new =
    let r = compare_with a false new in
    if r.0 then true else if r.1 then compare_all old new else true

-- A map of secret versions that is nil or empty.
abbrev pub no_secrets : Option (List (Text × Text)) → Bool
no_secrets none = true
no_secrets (some m) = length m == 0

-- compareStatus
unfoldable pub compare_status : ClusterStatus → ClusterStatus → Bool
unfolding compare_string_value compare_int32
compare_status old new =
    if compare_string_value old.status new.status
    then true
    else if not (ha_code old.ha_status == ha_code new.ha_status)
    then true
    else if compare_string_value old.secret_status new.secret_status
    then true
    else if no_secrets old.secrets_ver
    then true
    else if compare_string_value old.reason new.reason
    then true
    else if compare_int32 old.number_of_master new.number_of_master
    then true
    else if compare_int32 (length old.nodes) (length new.nodes)
    then true
    else if compare_string_value old.restore_phase new.restore_phase
    then true
    else compare_all old.nodes new.nodes
