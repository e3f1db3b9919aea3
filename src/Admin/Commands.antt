-- ===== src/Admin/Commands.antt =====
-- utils/redisutil/admin.go: the commands that change the cluster.
-- A Node that a method is given is returned with the fields that the method sets. A map of clients
-- that is visited is a list of addresses in the order of the visit: the
-- loops end at the first error, so the map does not change before.
pub mod Roles
pub mod Slots
use rediscluster_operator.Base.Strings.{format_uint}
use rediscluster_operator.Base.{
  ℕ, zero, suc, ◌+◌, Bool, true, false, not, List, [], ◌∷◌, ◌++◌, Option, none, some, Text, txt,
  same, if◌then◌else◌,
}
use rediscluster_operator.Nodes.{
  Node, set_role, set_referent_master, ip_port, redis_master_role, redis_slave_role,
}
use rediscluster_operator.View.{net_split_host_port}
use rediscluster_operator.Admin.{
  Fault, Reply, refused, answered_text, answered_list, answered_other, AdminError, from_redis,
  bad_address, no_connection, cannot_set_slots, cannot_reset, Redis, Cnx, get, update,
  validate_resp, validate_pipe_resp, send,
}

abbrev pub fault_of : Reply → Option Fault
fault_of (refused e) = some e
fault_of _ = none

-- The outcome of a command: the state and the error.
abbrev pub Outcome : Type 0 → Type 0
Outcome S = Cnx S × Option AdminError

abbrev pub as_master : Node → Node
as_master n = (set_role (set_referent_master n []) redis_master_role).0

abbrev pub as_slave_of : Text → Node → Node
as_slave_of master n = (set_role (set_referent_master n master) redis_slave_role).0

abbrev pub changed_unless : Option AdminError → Node → Node → Node
changed_unless none old new = new
changed_unless (some e) old new = old

abbrev pub last_of : ℕ → List ℕ → ℕ
last_of d [] = d
last_of d (s ∷ slots) = last_of s slots

abbrev pub set_slot_words : Text → ℕ → Text → List Text
set_slot_words action slot node_id =
    txt "CLUSTER"
    ∷ txt "SETSLOT"
    ∷ format_uint slot
    ∷ action
    ∷ (if same node_id [] then [] else node_id ∷ [])

unfoldable pub set_slots_words : Text → List ℕ → Text → List (List Text)
set_slots_words action [] node_id = []
set_slots_words action (slot ∷ slots) node_id =
    set_slot_words action slot node_id ∷ set_slots_words action slots node_id

module _ {S : Type 0} (redis : Redis S) where
  -- A command followed by ValidateResp.
  unfoldable pub do_valid : Text → List Text → Cnx S → Outcome S
  do_valid addr words cnx = let r = send redis addr words cnx in validate_resp redis addr r.1 r.0

  -- Get, then the rest of a method unless it fails.
  unfoldable pub with_client : Text → Cnx S → (Cnx S → Outcome S) → Outcome S
  with_client addr cnx rest =
      let g = get redis addr cnx in elim g.1 [ some e ↦ (g.0, some e) | none ↦ rest g.0 ]

  -- FailoverSlaveToMaster; `option` is empty for RedisFailoverDefault.
  unfoldable pub failover_slave_to_master : Node → Text → Cnx S → Outcome S × Node
  failover_slave_to_master slave option cnx =
      let words = txt "CLUSTER" ∷ txt "FAILOVER" ∷ (if same option [] then [] else option ∷ []) in
      let r = with_client (ip_port slave) cnx (do_valid (ip_port slave) words) in
      (r, changed_unless r.1 slave (as_master slave))

  -- AttachSlaveToMaster
  unfoldable pub attach_slave_to_master : Node → Text → Cnx S → Outcome S × Node
  attach_slave_to_master slave master cnx =
      let words = txt "CLUSTER" ∷ txt "REPLICATE" ∷ master ∷ [] in
      let r = with_client (ip_port slave) cnx (do_valid (ip_port slave) words) in
      (r, changed_unless r.1 slave (as_slave_of master slave))

  -- AttachNodeToCluster: its loop over the connections.
  unfoldable pub meet_all : Text → Text → Text → List Text → Cnx S → Outcome S
  meet_all addr ip port [] cnx = (cnx, none)
  meet_all addr ip port (c ∷ addrs) cnx =
      if same c addr
      then meet_all addr ip port addrs cnx
      else (let words = txt "CLUSTER" ∷ txt "MEET" ∷ ip ∷ port ∷ [] in
          let sent = send redis c words cnx in
          let r = validate_resp redis addr sent.1 sent.0 in
          elim r.1 [ some e ↦ (r.0, some e) | none ↦ meet_all addr ip port addrs r.0 ])

  -- AttachNodeToCluster
  unfoldable pub attach_node_to_cluster : Text → Cnx S → Outcome S
  attach_node_to_cluster addr cnx = elim (net_split_host_port addr) [
    | none ↦ (cnx, some (bad_address addr))
    | some (ip, port) ↦ elim cnx.clients [
      | [] ↦ (cnx, some no_connection)
      | _ ∷ _ ↦
          let r = meet_all addr ip port cnx.clients cnx in
          elim r.1 [ some e ↦ r | none ↦ ((update redis addr r.0).0, none) ]
    ]
  ]

  -- DetachSlave
  unfoldable pub detach_slave : Node → Cnx S → Outcome S × Node
  detach_slave slave cnx =
      let addr = ip_port slave in
      let r = with_client addr cnx (λ c.
        let reset = do_valid addr (txt "CLUSTER" ∷ txt "RESET" ∷ txt "SOFT" ∷ []) c in
        elim reset.1 [ some e ↦ reset | none ↦ attach_node_to_cluster addr reset.0 ]) in
      (r, changed_unless r.1 slave (as_master slave))

  -- AddSlots: CLUSTER ADDSLOTSRANGE from the first slot to the last.
  unfoldable pub add_slots : Text → List ℕ → Cnx S → Outcome S
  add_slots addr [] cnx = (cnx, none)
  add_slots addr (s ∷ slots) cnx = with_client addr cnx (λ c.
      let words =
        txt "CLUSTER" ∷ txt "ADDSLOTSRANGE" ∷ format_uint s ∷ format_uint (last_of s slots) ∷ [] in
      let r = send redis addr words c in
      elim r.1 [ refused e ↦ (r.0, some (from_redis e)) | _ ↦ (r.0, none) ])

  -- A pipe of commands: the error of Exec.
  unfoldable pub exec_pipe : Text → List (List Text) → Cnx S → Cnx S × Option Fault
  exec_pipe addr words cnx =
      let r = redis.pipe addr words cnx.world in (record cnx { world = r.0 }, r.1)

  -- SetSlots
  unfoldable pub set_slots : Text → Text → List ℕ → Text → Cnx S → Outcome S
  set_slots addr action [] node_id cnx = (cnx, none)
  set_slots addr action (slot ∷ slots) node_id cnx = with_client addr cnx (λ c.
      let out = exec_pipe addr (set_slots_words action (slot ∷ slots) node_id) c in
      elim out.1 [
        | some e ↦ (out.0, some (from_redis e))
        | none ↦
            let valid = validate_pipe_resp redis addr none out.0 in
            (valid.0, if valid.1 then none else some cannot_set_slots)
      ])

  -- SetSlot
  unfoldable pub set_slot : Text → Text → ℕ → Text → Cnx S → Outcome S
  set_slot addr action slot node_id cnx = with_client addr cnx (λ c.
      let out = exec_pipe addr (set_slot_words action slot node_id ∷ []) c in
      let valid = validate_pipe_resp redis addr out.1 out.0 in
      (valid.0, if valid.1 then none else some cannot_set_slots))

  -- SetConfigEpoch: its loop from an epoch.
  unfoldable pub set_config_epoch_loop : ℕ → List Text → Cnx S → Outcome S
  set_config_epoch_loop epoch [] cnx = (cnx, none)
  set_config_epoch_loop epoch (addr ∷ addrs) cnx =
      let r = do_valid addr (txt "CLUSTER" ∷ txt "SET-CONFIG-EPOCH" ∷ format_uint epoch ∷ []) cnx in
      elim r.1 [ some e ↦ r | none ↦ set_config_epoch_loop (epoch + 1) addrs r.0 ]

  -- SetConfigEpoch
  unfoldable pub set_config_epoch : Cnx S → Outcome S
  set_config_epoch cnx = set_config_epoch_loop 1 cnx.clients cnx

  -- FlushAndReset
  unfoldable pub flush_and_reset : Text → Text → Cnx S → Outcome S
  flush_and_reset addr mode cnx = with_client addr cnx (λ c.
      let words = (txt "FLUSHALL" ∷ []) ∷ (txt "CLUSTER" ∷ txt "RESET" ∷ mode ∷ []) ∷ [] in
      let out = exec_pipe addr words c in
      let valid = validate_pipe_resp redis addr out.1 out.0 in
      (valid.0, if valid.1 then none else some cannot_reset))

  -- ResetPassword: its loop over the connections.
  unfoldable pub reset_password_loop : Text → List Text → Cnx S → Outcome S
  reset_password_loop password [] cnx = (cnx, none)
  reset_password_loop password (addr ∷ addrs) cnx =
      let config = (λ (key : Text) (c : Cnx S).
        do_valid addr (txt "CONFIG" ∷ txt "SET" ∷ key ∷ password ∷ []) c) in
      let auth = config (txt "masterauth") cnx in
      elim auth.1 [
        | some e ↦ auth
        | none ↦
            let pass = config (txt "requirepass") auth.0 in
            elim pass.1 [ some e ↦ pass | none ↦ reset_password_loop password addrs pass.0 ]
      ]

  -- ResetPassword
  unfoldable pub reset_password : Text → Cnx S → Outcome S
  reset_password password cnx = elim cnx.clients [
    | [] ↦ (cnx, some no_connection)
    | _ ∷ _ ↦ reset_password_loop password cnx.clients cnx
  ]
