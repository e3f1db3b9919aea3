-- ===== src/Admin/Commands/Slots.antt =====
-- The errors of SetSlot and SetSlots of utils/redisutil/admin.go.
use rediscluster_operator.Base.{
  ℕ, ◌≡◌, refl, ◌↔◌, Bool, true, false, not, [], ◌∷◌, Option, none, some, Text, if◌then◌else◌,
  Bool-cases, Option-cases, inl, inr,
}
use rediscluster_operator.Admin.{
  Fault, AdminError, cannot_set_slots, from_redis, Redis, Cnx, get, handle_error,
  validate_pipe_resp,
}
use rediscluster_operator.Admin.Commands.{
  with_client, exec_pipe, set_slot, set_slots, set_slot_words, set_slots_words,
}
use rediscluster_operator.Admin.Commands.Roles.{can_connect, get_lem, is_network, slot_answer}

if_not :
    (b : Bool)
    → (if not b then none else some cannot_set_slots) ≡ (if b then some cannot_set_slots else none)
if_not true = refl
if_not false = refl

-- The error of Exec as SetSlots returns it.
abbrev returned : Option Fault → Option AdminError
returned none = none
returned (some e) = some (from_redis e)

returned_iff : (o : Option Fault) → (returned o ≡ none) ↔ (o ≡ none)
returned_iff none = ((λ h. refl), (λ h. refl))
returned_iff (some e) = ((λ h. absurd (cc)), (λ h. absurd (cc)))

raised_iff : (b : Bool) → ((if b then some cannot_set_slots else none) ≡ none) ↔ (b ≡ false)
raised_iff true = ((λ h. absurd (cc)), (λ h. absurd (cc)))
raised_iff false = ((λ h. refl), (λ h. refl))

module _ {S : Type 0} (redis : Redis S) where
  validity :
      (addr : Text) (err : Option Fault) (cnx : Cnx S)
      → (validate_pipe_resp redis addr err cnx).1 ≡ not (is_network err)
  unfolding validate_pipe_resp handle_error
  validity addr none cnx = refl
  validity addr (some e) cnx = elim (Bool-cases e.network) [
    | inl n ↦ rw (validate_pipe_resp, handle_error, n) refl
    | inr n ↦ rw (validate_pipe_resp, handle_error, n) refl
  ]

  set_slot_lem :
      (addr action node_id : Text) (slot : ℕ) (cnx : Cnx S)
      → (get redis addr cnx).1 ≡ none
      → (get redis addr cnx).0.world ≡ cnx.world
      → (set_slot redis addr action slot node_id cnx).1 ≡ (
          if is_network (slot_answer redis addr action slot node_id cnx)
          then some cannot_set_slots
          else none)
  unfolding set_slot with_client exec_pipe
  set_slot_lem addr action node_id slot cnx g w =
      let words = set_slot_words action slot node_id ∷ [] in
      let out = exec_pipe redis addr words (get redis addr cnx).0 in
      rw (set_slot, with_client, g, validity addr out.1 out.0, exec_pipe, w)
        (if_not (is_network (slot_answer redis addr action slot node_id cnx)))

  set_slots_lem :
      (addr action node_id : Text) (slot : ℕ) (cnx : Cnx S)
      → (get redis addr cnx).1 ≡ none
      → (get redis addr cnx).0.world ≡ cnx.world
      → (set_slots redis addr action (slot ∷ []) node_id cnx).1
        ≡ returned (slot_answer redis addr action slot node_id cnx)
  unfolding set_slots with_client exec_pipe set_slots_words validate_pipe_resp handle_error
  set_slots_lem addr action node_id slot cnx g w =
      elim (Option-cases (slot_answer redis addr action slot node_id cnx)) [
        | inl e ↦
            rw
              (
                set_slots, with_client, g, set_slots_words, exec_pipe, w, e, validate_pipe_resp,
                handle_error,
              )
              refl
        | inr (f, e) ↦ rw (set_slots, with_client, g, set_slots_words, exec_pipe, w, e) refl
      ]

  -- For one slot and a connection that can be made, SetSlot returns an error exactly when the pipe
  -- fails on the network, so an error by which Redis refuses the command is lost, while SetSlots
  -- returns an error exactly when the pipe fails at all.
  pub set_slot-errors :
      (addr action node_id : Text) (slot : ℕ) (cnx : Cnx S)
      → can_connect redis addr cnx ≡ true
      → (((set_slot redis addr action slot node_id cnx).1 ≡ none)
          ↔ (is_network (slot_answer redis addr action slot node_id cnx) ≡ false))
        × (((set_slots redis addr action (slot ∷ []) node_id cnx).1 ≡ none)
            ↔ (slot_answer redis addr action slot node_id cnx ≡ none))
  set_slot-errors addr action node_id slot cnx h = elim (get_lem redis addr cnx) [
    | inr (f, e, g) ↦ absurd (cc)
    | inl (f, g, w) ↦ (
      rw (set_slot_lem addr action node_id slot cnx g w)
          (raised_iff (is_network (slot_answer redis addr action slot node_id cnx))),
      rw (set_slots_lem addr action node_id slot cnx g w)
          (returned_iff (slot_answer redis addr action slot node_id cnx)),
    )
  ]
