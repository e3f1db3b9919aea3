-- ===== src/Admin/Forget.antt =====
-- ForgetNode of utils/redisutil/admin.go.
-- `infos` is what GetClusterInfos has gathered, in the order of the visit. `unknown_node` tells whether
-- the text of an error matches forgetnodeUnknownRE.
use rediscluster_operator.Base.{
  ◌≡◌, refl, sym, ◌∙◌, ◌⊎◌, Bool, true, false, ◌&&◌, List, [], ◌∷◌, Option, none, some, Text, txt,
  same, if◌then◌else◌, Bool-cases, Option-cases, inl, inr,
}
use rediscluster_operator.Nodes.{Node, is_slave}
use rediscluster_operator.Heal.{NodeInfos}
use rediscluster_operator.Admin.{
  Fault, AdminError, from_redis, Redis, Cnx, get, validate_resp, send,
}
use rediscluster_operator.Admin.Commands.{Outcome, fault_of, detach_slave}

module _ {S : Type 0} (redis : Redis S) (unknown_node : Text → Bool) where
  -- A slave of the node is detached; an error is only printed.
  unfoldable pub detach_first : Text → Node → Cnx S → Cnx S
  detach_first id n cnx =
      if is_slave n && same n.master_referent id then (detach_slave redis n cnx).0.0 else cnx

  -- An error of Redis, unless it says that the node is unknown.
  abbrev fatal : Option Fault → Option AdminError
  fatal none = none
  fatal (some e) = if unknown_node e.message then none else some (from_redis e)

  -- CLUSTER FORGET at one address: the error that ends ForgetNode.
  unfoldable pub forget_at : Text → Text → Cnx S → Outcome S
  forget_at id addr cnx =
      let g = get redis addr cnx in
      elim g.1 [
        | some e ↦ (g.0, none)
        | none ↦
            let sent = send redis addr (txt "CLUSTER" ∷ txt "FORGET" ∷ id ∷ []) g.0 in
            let valid = validate_resp redis addr sent.1 sent.0 in (valid.0, fatal (fault_of sent.1))
      ]

  -- The loop of ForgetNode.
  unfoldable pub forget_node : Text → List (Text × NodeInfos) → Cnx S → Outcome S
  forget_node id [] cnx = (cnx, none)
  forget_node id ((addr, i) ∷ infos) cnx =
      if same i.node.id id
      then forget_node id infos cnx
      else (let r = forget_at id addr (detach_first id i.node cnx) in
          elim r.1 [ some e ↦ r | none ↦ forget_node id infos r.0 ])

  abbrev pub IsRefusal : AdminError → Type 0
  IsRefusal e = (f : Fault) × (e ≡ from_redis f) × (unknown_node f.message ≡ false)

  fatal-IsRefusal : (o : Option Fault) (e : AdminError) → fatal o ≡ some e → IsRefusal e
  fatal-IsRefusal none e h = absurd (cc)
  fatal-IsRefusal (some f) e h = elim (Bool-cases (unknown_node f.message)) [
    | inl u ↦ let silent : fatal (some f) ≡ none = rw u refl in absurd (cc)
    | inr u ↦ let raised : fatal (some f) ≡ some (from_redis f) = rw u refl in (f, cc, u)
  ]

  forget_at_lem :
      (id addr : Text) (cnx : Cnx S)
      → ((forget_at id addr cnx).1 ≡ none)
        ⊎ ((o : Option Fault) × ((forget_at id addr cnx).1 ≡ fatal o))
  unfolding forget_at
  forget_at_lem id addr cnx = elim (Option-cases (get redis addr cnx).1) [
    | inr (e, g) ↦ inl (rw (forget_at, g) refl)
    | inl g ↦
        let words = txt "CLUSTER" ∷ txt "FORGET" ∷ id ∷ [] in
        inr (fault_of (send redis addr words (get redis addr cnx).0).1, rw (forget_at, g) refl)
  ]

  module _ (id addr : Text) (i : NodeInfos) (infos : List (Text × NodeInfos)) (cnx : Cnx S) where
    skips :
        same i.node.id id ≡ true
        → (forget_node id infos cnx).1 ≡ (forget_node id ((addr, i) ∷ infos) cnx).1
    unfolding forget_node
    skips t = rw (forget_node, t) refl

    goes_on :
        same i.node.id id ≡ false
        → (forget_at id addr (detach_first id i.node cnx)).1 ≡ none
        → (forget_node id infos (forget_at id addr (detach_first id i.node cnx)).0).1
          ≡ (forget_node id ((addr, i) ∷ infos) cnx).1
    unfolding forget_node
    goes_on t q = rw (forget_node, t, q) refl

    stops :
        same i.node.id id ≡ false
        → (e : AdminError) → (forget_at id addr (detach_first id i.node cnx)).1 ≡ some e
        → (forget_at id addr (detach_first id i.node cnx)).1
          ≡ (forget_node id ((addr, i) ∷ infos) cnx).1
    unfolding forget_node
    stops t e q = rw (forget_node, t, q) (sym q)

  -- When ForgetNode returns an error, it is one by which Redis refuses CLUSTER FORGET at some node, and
  -- it does not say that the node is unknown; no connection that fails, and no slave that cannot be
  -- detached, is reported.
  pub forget_node-IsRefusal :
      (id : Text) (infos : List (Text × NodeInfos)) (cnx : Cnx S) (e : AdminError)
      → (forget_node id infos cnx).1 ≡ some e
      → IsRefusal e
  unfolding forget_node
  forget_node-IsRefusal id [] cnx e h = absurd (cc)
  forget_node-IsRefusal id ((addr, i) ∷ infos) cnx e h =
      let ready = detach_first id i.node cnx in
      elim (Bool-cases (same i.node.id id)) [
        | inl t ↦ forget_node-IsRefusal id infos cnx e (skips id addr i infos cnx t ∙ h)
        | inr t ↦ elim (Option-cases (forget_at id addr ready).1) [
          | inl q ↦
              forget_node-IsRefusal id infos (forget_at id addr ready).0 e
                (goes_on id addr i infos cnx t q ∙ h)
          | inr (f, q) ↦ elim (forget_at_lem id addr ready) [
            | inl z ↦ absurd (cc)
            | inr (o, z) ↦ fatal-IsRefusal o e (sym z ∙ stops id addr i infos cnx t f q ∙ h)
          ]
        ]
      ]
