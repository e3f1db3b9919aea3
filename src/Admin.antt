-- ===== src/Admin.antt =====
-- utils/redisutil/connections.go: the connections of the operator to the Redis nodes.
-- A client is known by its address. What Redis answers, and whether a new client is made (NewClient,
-- whose Ping is of the library), is a parameter with a state of its own. Closing a client is left out.
pub mod Connected
pub mod Commands
pub mod Migrate
pub mod Infos
pub mod Forget
pub mod Config
use rediscluster_operator.Base.{
  ℕ, Bool, true, false, ◌||◌, not, List, [], ◌∷◌, ◌++◌, Option, none, some, Text, same, keep,
  if◌then◌else◌, ltb, length,
}
use rediscluster_operator.Nodes.{Node}

-- An error of the library: its text, and whether it is a timeout or a net.OpError.
pub record Fault : Type 0 where
  pub message : Text
  pub network : Bool

-- The answer to a command.
pub data Reply : Type 0 where
  refused : Fault → Reply
  answered_text : Text → Reply
  answered_list : List Text → Reply
  answered_other : Reply

-- The errors of the package.
pub data AdminError : Type 0 where
  from_redis : Fault → AdminError
  unexpected_error : Text → Fault → AdminError
  unable_to_ping : Text → AdminError
  bad_address : Text → AdminError
  no_connection unexpected_type unknown_state cannot_set_slots not_found cannot_reset : AdminError

-- The Redis nodes: a command that is sent to an address, a pipe of commands with the
-- error of Exec, MIGRATE, whose arguments the source gives as one slice (the client may fail to marshal
-- it, and then sends nothing), and whether a ping of it returns.
pub record Redis (S : Type 0) : Type 0 where
  pub exec : Text → List Text → S → S × Reply
  pub pipe : Text → List (List Text) → S → S × Option Fault
  pub migrate : Text → List Text → S → S × Reply
  pub pings : S → Text → Bool

-- AdminConnections, with the state of the Redis nodes.
pub record Cnx (S : Type 0) : Type 0 where
  pub clients : List Text
  pub password : Text
  pub world : S

unfoldable pub has_client : Text → List Text → Bool
has_client addr [] = false
has_client addr (c ∷ clients) = same c addr || has_client addr clients

-- `cnx.clients[addr] = c`
unfoldable pub put_client : Text → List Text → List Text
put_client addr clients = if has_client addr clients then clients else clients ++ addr ∷ []

-- GetAUTH
unfoldable pub get_auth : {S : Type 0} → Cnx S → Option Text
get_auth cnx = if ltb 0 (length cnx.password) then some cnx.password else none

module _ {S : Type 0} (redis : Redis S) where
  -- NewClient and connect: the error.
  unfoldable pub connect : Text → Cnx S → Option AdminError
  connect addr cnx = if redis.pings cnx.world addr then none else some (unable_to_ping addr)

  -- Update, and Add, which drops the client.
  unfoldable pub update : Text → Cnx S → Cnx S × Option AdminError
  update addr cnx = elim (connect addr cnx) [
    | none ↦ (record cnx { clients = put_client addr cnx.clients }, none)
    | some e ↦ (cnx, some e)
  ]

  -- Get
  unfoldable pub get : Text → Cnx S → Cnx S × Option AdminError
  get addr cnx = if has_client addr cnx.clients then (cnx, none) else (elim (connect addr cnx) [
    | none ↦ (record cnx { clients = put_client addr cnx.clients }, none)
    | some e ↦ (cnx, some e)
  ])

  -- Remove
  unfoldable pub remove : Text → Cnx S → Cnx S
  remove addr cnx = record cnx { clients = keep (λ c. not (same c addr)) cnx.clients }

  -- Reconnect
  unfoldable pub reconnect : Text → Cnx S → Cnx S × Option AdminError
  reconnect addr cnx = update addr (remove addr cnx)

  -- AddAll, which fails silently.
  unfoldable pub add_all : List Text → Cnx S → Cnx S
  add_all [] cnx = cnx
  add_all (addr ∷ addrs) cnx = add_all addrs (update addr cnx).0

  -- Reset
  unfoldable pub reset : Cnx S → Cnx S
  reset cnx = record cnx { clients = [] }

  -- ReplaceAll
  unfoldable pub replace_all : List Text → Cnx S → Cnx S
  replace_all addrs cnx = add_all addrs (reset cnx)

  -- GetSelected: the clients of a list of addresses, as a map.
  unfoldable pub get_selected : List Text → List Text → Cnx S → List Text
  get_selected selected [] cnx = selected
  get_selected selected (addr ∷ addrs) cnx =
      get_selected (if has_client addr cnx.clients then put_client addr selected else selected)
        addrs cnx

  -- handleError: whether it reconnects.
  unfoldable pub handle_error : Text → Option Fault → Cnx S → Cnx S × Bool
  handle_error addr none cnx = (cnx, false)
  handle_error addr (some e) cnx =
      if e.network then ((reconnect addr cnx).0, true) else (cnx, false)

  -- ValidateResp
  unfoldable pub validate_resp : Text → Reply → Cnx S → Cnx S × Option AdminError
  validate_resp addr (refused e) cnx =
      ((handle_error addr (some e) cnx).0, some (unexpected_error addr e))
  validate_resp addr _ cnx = (cnx, none)

  -- ValidatePipeResp, on the answers of a pipe and its error: whether they are valid.
  unfoldable pub validate_pipe_resp : Text → Option Fault → Cnx S → Cnx S × Bool
  validate_pipe_resp addr err cnx = let r = handle_error addr err cnx in (r.0, not r.1)

  -- `c.Do(ctx, words...)` at an address.
  unfoldable pub send : Text → List Text → Cnx S → Cnx S × Reply
  send addr words cnx = let r = redis.exec addr words cnx.world in (record cnx { world = r.0 }, r.1)
