-- ===== src/Nodes.antt =====
-- utils/redisutil/node.go: what one Redis node is known by, and the filters on slices of nodes.
-- ServerStartTime is left out: it is only printed.
pub mod Roles
pub mod Heap
use rediscluster_operator.Base.Int.{ℤ, pos}
use rediscluster_operator.Base.Strings.{split, join_host_port}
use rediscluster_operator.Base.{
  ℕ, zero, suc, ◌+◌, Bool, true, false, ◌&&◌, ◌||◌, not, List, [], ◌∷◌, ◌++◌, Option, none, some,
  Text, txt, same, if◌then◌else◌, length, keep, ltb, ◌==◌,
}

abbrev pub default_redis_port : Text
default_redis_port = txt "6379"

abbrev pub redis_master_role : Text
redis_master_role = txt "master"

abbrev pub redis_slave_role : Text
redis_slave_role = txt "slave"

abbrev pub redis_link_state_connected : Text
redis_link_state_connected = txt "connected"

abbrev pub redis_link_state_disconnected : Text
redis_link_state_disconnected = txt "disconnected"

abbrev pub node_status_pfail : Text
node_status_pfail = txt "fail?"

abbrev pub node_status_fail : Text
node_status_fail = txt "fail"

abbrev pub node_status_handshake : Text
node_status_handshake = txt "handshake"

abbrev pub node_status_no_addr : Text
node_status_no_addr = txt "noaddr"

abbrev pub node_status_no_flags : Text
node_status_no_flags = txt "noflags"

-- Node. The maps of migrating and importing slots are association lists.
pub record Node : Type 0 where
  pub id : Text
  pub ip : Text
  pub port : Text
  pub role : Text
  pub link_state : Text
  pub master_referent : Text
  pub fail_status : List Text
  pub ping_sent : ℤ
  pub pong_recv : ℤ
  pub config_epoch : ℤ
  pub slots : List ℕ
  pub balance : ℤ
  pub migrating_slots : List (ℕ × Text)
  pub importing_slots : List (ℕ × Text)
  pub node_name : Text
  pub zone_name : Text
  pub pod_name : Text
  pub stateful_set : Text

-- NewDefaultNode
abbrev pub new_default_node : Node
new_default_node = record {
  id = [];
  ip = [];
  port = default_redis_port;
  role = [];
  link_state = [];
  master_referent = [];
  fail_status = [];
  ping_sent = pos 0;
  pong_recv = pos 0;
  config_epoch = pos 0;
  slots = [];
  balance = pos 0;
  migrating_slots = [];
  importing_slots = [];
  node_name = [];
  zone_name = [];
  pod_name = [];
  stateful_set = [];
}

-- The roles of api/v1alpha1.
pub data RedisRole : Type 0 where
  role_master role_slave role_none : RedisRole

-- The loop of SetRole over the flags, from the role set so far.
unfoldable pub role_of_flags : Text → List Text → Text
role_of_flags role [] = role
role_of_flags role (val ∷ vals) =
    role_of_flags
      (if same val redis_master_role
        then redis_master_role
        else if same val redis_slave_role
        then redis_slave_role
        else role)
      vals

-- SetRole: the new node, and whether it returns an error.
unfoldable pub set_role : Node → Text → Node × Bool
set_role n flags =
    let role = role_of_flags [] (split b',' flags) in (record n { role = role }, same role [])

-- GetRole
unfoldable pub get_role : Node → RedisRole
get_role n =
    if same n.role redis_master_role
    then role_master
    else if same n.role redis_slave_role
    then role_slave
    else if not (same n.master_referent [])
    then role_slave
    else if ltb 0 (length n.slots)
    then role_master
    else role_none

-- SetLinkStatus: the new node, and whether it returns an error.
unfoldable pub set_link_status : Node → Text → Node × Bool
set_link_status n status =
    let link =
      if same status redis_link_state_connected
      then redis_link_state_connected
      else if same status redis_link_state_disconnected
      then redis_link_state_disconnected
      else [] in
    (record n { link_state = link }, same link [])

-- The cases of the switch of SetFailureStatus.
abbrev pub is_failure_flag : Text → Bool
is_failure_flag val =
    same val node_status_fail
    || (same val node_status_pfail
        || (same val node_status_handshake
            || (same val node_status_no_addr || same val node_status_no_flags)))

-- SetFailureStatus: each case appends the flag that it names.
unfoldable pub set_failure_status : Node → Text → Node
set_failure_status n flags = record n { fail_status = keep is_failure_flag (split b',' flags) }

-- SetReferentMaster
unfoldable pub set_referent_master : Node → Text → Node
set_referent_master n ref = record n { master_referent = if same ref (txt "-") then [] else ref }

-- IPPort
unfoldable pub ip_port : Node → Text
ip_port n = join_host_port n.ip n.port

-- TotalSlots
abbrev pub total_slots : Node → ℕ
total_slots n = length n.slots

-- The loop of HasStatus.
unfoldable pub has_flag : List Text → Text → Bool
has_flag [] flag = false
has_flag (status ∷ rest) flag = if same status flag then true else has_flag rest flag

-- HasStatus
abbrev pub has_status : Node → Text → Bool
has_status n flag = has_flag n.fail_status flag

abbrev pub is_role_master : RedisRole → Bool
is_role_master role_master = true
is_role_master _ = false

abbrev pub is_role_slave : RedisRole → Bool
is_role_slave role_slave = true
is_role_slave _ = false

-- IsMasterWithNoSlot
unfoldable pub is_master_with_no_slot : Node → Bool
is_master_with_no_slot n = is_role_master (get_role n) && total_slots n == 0

-- IsMasterWithSlot
unfoldable pub is_master_with_slot : Node → Bool
is_master_with_slot n = is_role_master (get_role n) && ltb 0 (total_slots n)

-- IsSlave
unfoldable pub is_slave : Node → Bool
is_slave n = is_role_slave (get_role n)

-- FilterByFunc
abbrev pub filter_by_func : List Node → (Node → Bool) → List Node
filter_by_func n f = keep f n

-- GetNodesByFunc: `none` is nodeNotFoundedError.
unfoldable pub get_nodes_by_func : List Node → (Node → Bool) → Option (List Node)
get_nodes_by_func n f = elim (keep f n) [ [] ↦ none | x ∷ xs ↦ some (x ∷ xs) ]

-- GetNodeByID: `none` is nodeNotFoundedError.
unfoldable pub get_node_by_id : List Node → Text → Option Node
get_node_by_id [] id = none
get_node_by_id (node ∷ nodes) id = if same node.id id then some node else get_node_by_id nodes id

-- CountByFunc
unfoldable pub count_by_func : List Node → (Node → Bool) → ℕ
count_by_func [] f = 0
count_by_func (v ∷ n) f = (if f v then 1 else 0) + count_by_func n f
