-- ===== src/Admin/Commands/Roles.antt =====
-- The errors of the commands of utils/redisutil/admin.go, and what they do to the node.
use rediscluster_operator.Base.{
  ℕ, ◌≡◌, refl, ap, ◌∙◌, ◌⊎◌, ◌≢◌, Bool, true, false, ◌||◌, List, [], ◌∷◌, Option, none, some, Text,
  txt, same, if◌then◌else◌, Bool-cases, inl, inr,
}
use rediscluster_operator.Base.Strings.{split}
use rediscluster_operator.Nodes.{
  Node, set_role, role_of_flags, set_referent_master, ip_port, redis_slave_role,
}
use rediscluster_operator.Admin.{
  Fault, Reply, refused, answered_text, answered_list, answered_other, AdminError, unable_to_ping,
  unexpected_error, Redis, Cnx, has_client, connect, get, validate_resp, send,
}
use rediscluster_operator.Admin.Commands.{
  do_valid, with_client, attach_slave_to_master, as_slave_of, changed_unless, fault_of,
  set_slot_words,
}

-- The node as a slave of the master with the id.
abbrev pub slave_of : Text → Node → Node
slave_of master n = record n {
  role = redis_slave_role;
  master_referent = if same master (txt "-") then [] else master;
}

as_slave_of_lem : (master : Text) (n : Node) → as_slave_of master n ≡ slave_of master n
unfolding set_role set_referent_master role_of_flags split same
as_slave_of_lem master n = refl

abbrev pub is_network : Option Fault → Bool
is_network none = false
is_network (some e) = e.network

module _ {S : Type 0} (redis : Redis S) where
  -- A connection to the address is there or can be made.
  abbrev pub can_connect : Text → Cnx S → Bool
  can_connect addr cnx = has_client addr cnx.clients || redis.pings cnx.world addr

  pub get_lem :
      (addr : Text) (cnx : Cnx S)
      → ((can_connect addr cnx ≡ true)
          × ((get redis addr cnx).1 ≡ none)
          × ((get redis addr cnx).0.world ≡ cnx.world))
        ⊎ ((can_connect addr cnx ≡ false) × (e : AdminError) × ((get redis addr cnx).1 ≡ some e))
  unfolding get connect
  get_lem addr cnx = elim (Bool-cases (has_client addr cnx.clients)) [
    | inl e ↦ inl (rw e refl, rw (get, e) refl, rw (get, e) refl)
    | inr e ↦ elim (Bool-cases (redis.pings cnx.world addr)) [
      | inl f ↦ inl (rw (e, f) refl, rw (get, connect, e, f) refl, rw (get, connect, e, f) refl)
      | inr f ↦ inr (rw (e, f) refl, unable_to_ping addr, rw (get, connect, e, f) refl)
    ]
  ]

  do_valid_lem :
      (addr : Text) (words : List Text) (cnx : Cnx S)
      → ((fault_of (redis.exec addr words cnx.world).1 ≡ none)
          × ((do_valid redis addr words cnx).1 ≡ none))
        ⊎ ((fault_of (redis.exec addr words cnx.world).1 ≢ none)
            × (e : AdminError) × ((do_valid redis addr words cnx).1 ≡ some e))
  unfolding do_valid validate_resp send
  do_valid_lem addr words cnx = go (redis.exec addr words cnx.world).1 refl
    where
      go :
          (r : Reply)
          → (redis.exec addr words cnx.world).1 ≡ r
          → ((fault_of r ≡ none)
              × ((validate_resp redis addr r (send redis addr words cnx).0).1 ≡ none))
            ⊎ ((fault_of r ≢ none)
                × (e : AdminError) × ((validate_resp redis addr r (send redis addr words cnx).0).1
                    ≡ some e))
      go (refused f) e = inr ((λ h. absurd (cc)), unexpected_error addr f, refl)
      go (answered_text t) e = inl (refl, refl)
      go (answered_list t) e = inl (refl, refl)
      go answered_other e = inl (refl, refl)

  -- One command at an address: the connection can be made and Redis accepts, and there is no error;
  -- or there is an error.
  abbrev pub Accepts : Text → List Text → Cnx S → Type 0
  Accepts addr words cnx =
      (can_connect addr cnx ≡ true) × (fault_of (redis.exec addr words cnx.world).1 ≡ none)

  with_client_lem :
      (addr : Text) (words : List Text) (cnx : Cnx S)
      → (Accepts addr words cnx
          × ((with_client redis addr cnx (do_valid redis addr words)).1 ≡ none))
        ⊎ (¬ Accepts addr words cnx
            × (e : AdminError) × ((with_client redis addr cnx (do_valid redis addr words)).1
                ≡ some e))
  unfolding with_client
  with_client_lem addr words cnx = elim (get_lem addr cnx) [
    | inr (f, e, g) ↦ inr ((λ a. absurd (cc)), e, rw (with_client, g) refl)
    | inl (f, g, w) ↦ elim (do_valid_lem addr words (get redis addr cnx).0) [
      | inl (k, v) ↦ inl ((f, rw⁻¹ w k), rw (with_client, g) v)
      | inr (k, e, v) ↦ inr ((λ a. k (rw w a.1)), e, rw (with_client, g) v)
    ]
  ]

  -- AttachSlaveToMaster returns no error exactly when a connection to the slave is there or can be made
  -- and Redis accepts CLUSTER REPLICATE; then the node is a slave of that master (of none where its id
  -- is "-"). On an error the node stays as it was.
  pub attach_slave_to_master_lem :
      (slave : Node) (master : Text) (cnx : Cnx S)
      → (Accepts (ip_port slave) (txt "CLUSTER" ∷ txt "REPLICATE" ∷ master ∷ []) cnx
          × ((attach_slave_to_master redis slave master cnx).0.1 ≡ none)
          × ((attach_slave_to_master redis slave master cnx).1 ≡ slave_of master slave))
        ⊎ (¬ Accepts (ip_port slave) (txt "CLUSTER" ∷ txt "REPLICATE" ∷ master ∷ []) cnx
            × (e : AdminError) × ((attach_slave_to_master redis slave master cnx).0.1 ≡ some e)
            × ((attach_slave_to_master redis slave master cnx).1 ≡ slave))
  unfolding attach_slave_to_master
  attach_slave_to_master_lem slave master cnx =
      let words = txt "CLUSTER" ∷ txt "REPLICATE" ∷ master ∷ [] in
      let change = λ (r : Option AdminError). changed_unless r slave (as_slave_of master slave) in
      elim (with_client_lem (ip_port slave) words cnx) [
        | inl (a, h) ↦ inl (a, h, ap change h ∙ as_slave_of_lem master slave)
        | inr (a, e, h) ↦ inr (a, e, h, ap change h)
      ]

  -- The answer of the pipe that SetSlot and SetSlots send for one slot.
  abbrev pub slot_answer : Text → Text → ℕ → Text → Cnx S → Option Fault
  slot_answer addr action slot node_id cnx =
      (redis.pipe addr (set_slot_words action slot node_id ∷ []) cnx.world).1
