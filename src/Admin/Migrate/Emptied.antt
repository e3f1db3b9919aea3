-- ===== src/Admin/Migrate/Emptied.antt =====
-- MigrateKeysInSlot and MigrateKeys of utils/redisutil/admin.go against what Redis documents of the
-- keys of a slot, and against what the client makes of a slice as one argument.
use rediscluster_operator.Base.{
  ℕ, suc, ◌+◌, ◌≡◌, refl, ap, sym, ◌∙◌, Bool, List-cases, ◌<◌, min, true, false, List, ◌∷◌, Option,
  none, some, Text, length, arith, inl, inr,
}
use rediscluster_operator.Admin.{
  AdminError, unexpected_error, handle_error, Fault, Reply, refused, answered_list, Redis, Cnx, get,
  get_auth, validate_resp, send,
}
use rediscluster_operator.Admin.Commands.{Outcome}
use rediscluster_operator.Admin.Commands.Roles.{can_connect, get_lem}
use rediscluster_operator.Admin.Migrate.{
  Move, Counted, get_keys_words, migrate_cmd_args, send_migrate, in_slot_loop, migrate_keys_in_slot,
  keys_loop, slots_loop, migrate_keys,
}

module _ {S : Type 0} (redis : Redis S) (left : S → ℕ) where
  -- CLUSTER GETKEYSINSLOT gives up to `batch` keys of the slot, all of them where there are fewer, and
  -- moves none.
  abbrev pub Lists : Move → ℕ → Type 0
  Lists m slot =
      (s : S)
      → (keys : List Text) × ((redis.exec m.addr (get_keys_words slot m.batch) s).1
          ≡ answered_list keys)
        × (length keys ≡ min m.batch (left s))
        × (left (redis.exec m.addr (get_keys_words slot m.batch) s).0 ≡ left s)

  -- The client cannot marshal a slice that is one argument of a command: it returns an error that is
  -- not of the network, and nothing is sent.
  abbrev pub Refuses : Type 0
  Refuses =
      (addr : Text) (args : List Text) (s : S)
      → (e : Fault) × ((redis.migrate addr args s ≡ (s, refused e)) × (e.network ≡ false))

  -- The state after the keys are asked for, and after they are migrated.
  abbrev pub asked_of : Move → ℕ → Cnx S → Cnx S
  asked_of m slot cnx = (send redis m.addr (get_keys_words slot m.batch) cnx).0

  abbrev result : Cnx S → ℕ → Option AdminError → Option (Counted S)
  result c n e = some (c, n, e)

  -- The state, the count and the error after the keys are asked for and MIGRATE is not sent.
  in_slot-refused :
      (fuel : ℕ) (m : Move) (slot count : ℕ) (cnx : Cnx S) (k : Text) (ks : List Text) (e : Fault)
      → (redis.exec m.addr (get_keys_words slot m.batch) cnx.world).1 ≡ answered_list (k ∷ ks)
      → send_migrate redis m (k ∷ ks) (asked_of m slot cnx) ≡ (asked_of m slot cnx, refused e)
      → e.network ≡ false
      → in_slot_loop redis (suc fuel) m slot count cnx
        ≡ some (asked_of m slot cnx, count + length (k ∷ ks), some (unexpected_error m.addr e))
  unfolding in_slot_loop send validate_resp handle_error
  in_slot-refused fuel m slot count cnx k ks e keys refuses local =
      let checked : validate_resp redis m.addr (refused e) (asked_of m slot cnx)
          ≡ (asked_of m slot cnx, some (unexpected_error m.addr e)) =
        rw (validate_resp, handle_error, local) refl in
      let count1 = count + length (k ∷ ks) in
      let closed : Outcome S → Option (Counted S) = λ v. elim v.1 [
        | some e ↦ some (v.0, count1, some e)
        | none ↦ in_slot_loop redis fuel m slot count1 v.0
      ] in
      rw (in_slot_loop, send, keys)
        (ap (λ (x : Cnx S × Reply). closed (validate_resp redis m.addr x.1 x.0)) refuses
          ∙ ap closed checked)

  keys-refused :
      (fuel : ℕ) (m : Move) (slot count : ℕ) (cnx : Cnx S) (k : Text) (ks : List Text) (e : Fault)
      → (redis.exec m.addr (get_keys_words slot m.batch) cnx.world).1 ≡ answered_list (k ∷ ks)
      → send_migrate redis m (k ∷ ks) (asked_of m slot cnx) ≡ (asked_of m slot cnx, refused e)
      → keys_loop redis (suc fuel) m slot count cnx
        ≡ some (false, (asked_of m slot cnx, count + length (k ∷ ks), none))
  unfolding keys_loop send
  keys-refused fuel m slot count cnx k ks e keys refuses =
      let count1 = count + length (k ∷ ks) in
      let closed : Cnx S × Reply → Option (Bool × Counted S) = λ x. elim x.1 [
        | refused e ↦ some (false, (x.0, count1, none))
        | _ ↦ keys_loop redis fuel m slot count1 x.0
      ] in
      rw (keys_loop, send, keys) (ap closed refuses)

  slots_loop-stop :
      (fuel : ℕ) (m : Move) (slot : ℕ) (slots : List ℕ) (cnx c : Cnx S) (n : ℕ)
      (err : Option AdminError)
      → keys_loop redis fuel m slot 0 cnx ≡ some (false, (c, n, err))
      → slots_loop redis fuel m (slot ∷ slots) 0 cnx ≡ some (c, n, err)
  unfolding slots_loop
  slots_loop-stop fuel m slot slots cnx c n err h = rw (slots_loop, h) refl

  refused_of :
      (m : Move) (keys : List Text) (cnx : Cnx S) (r : S × Reply)
      → redis.migrate m.addr (migrate_cmd_args m (get_auth cnx) keys) cnx.world ≡ r
      → send_migrate redis m keys cnx ≡ (record cnx { world = r.0 }, r.1)
  unfolding send_migrate
  refused_of m keys cnx r h = ap (λ (x : S × Reply). (record cnx { world = x.0 }, x.1)) h

  -- MigrateKeysInSlot returns an error and MigrateKeys none, and the keys are still in the slot.
  abbrev pub MovesNone : ℕ → Move → ℕ → List ℕ → Cnx S → Type 0
  MovesNone fuel m slot slots cnx =
      (n : ℕ) × (c : Cnx S) × (e : AdminError) × (migrate_keys_in_slot redis (suc fuel) m slot cnx
        ≡ some (c, n, some e))
      × (migrate_keys redis (suc fuel) m (slot ∷ slots) cnx ≡ some (c, n, none))
      × (n ≡ min m.batch (left cnx.world))
      × (left c.world ≡ left cnx.world)

  -- When a connection to the source is there or can be made, the batch is not 0, the slot has keys,
  -- and the client cannot marshal the slice that is given as the argument of MIGRATE, no key is moved:
  -- MigrateKeysInSlot returns an error in its first round, and MigrateKeys returns none, in its first
  -- round too, whatever slots come after. Both return the number of keys of one batch, as if they were
  -- moved.
  pub migrate_keys-MovesNone :
      (fuel : ℕ) (m : Move) (slot : ℕ) (slots : List ℕ) (cnx : Cnx S)
      → can_connect redis m.addr cnx ≡ true
      → 0 < m.batch
      → 0 < left cnx.world
      → Lists m slot
      → Refuses
      → MovesNone fuel m slot slots cnx
  unfolding migrate_keys_in_slot migrate_keys slots_loop send
  migrate_keys-MovesNone fuel m slot slots cnx h b some_left lists refuses =
      elim (get_lem redis m.addr cnx) [
        | inr (f, e, g) ↦ absurd (cc)
        | inl (f, g, w) ↦
            let c0 = (get redis m.addr cnx).0 in
            let (keys, a, l, same_left) = lists c0.world in
            let world_left : left c0.world ≡ left cnx.world = ap left w in
            elim (List-cases keys) [
              | inl none_left ↦
                  absurd (omega (arith, b, some_left, l, world_left, ap length none_left))
              | inr (k, ks, p) ↦
                  let c = asked_of m slot c0 in
                  let (e, (r, local)) =
                    refuses m.addr (migrate_cmd_args m (get_auth c) (k ∷ ks)) c.world in
                  let a' = a ∙ ap answered_list p in
                  let sent = refused_of m (k ∷ ks) c (c.world, refused e) r in
                  (
                    length (k ∷ ks),
                    c,
                    unexpected_error m.addr e,
                    rw (migrate_keys_in_slot, g)
                        (in_slot-refused fuel m slot 0 c0 k ks e a' sent local
                          ∙ ap (λ n. result c n (some (unexpected_error m.addr e))) (omega arith)),
                    rw (migrate_keys, g)
                        (slots_loop-stop (suc fuel) m slot slots c0 c (0 + length (k ∷ ks)) none
                            (keys-refused fuel m slot 0 c0 k ks e a' sent)
                          ∙ ap (λ n. result c n none) (omega arith)),
                    ap length (sym p) ∙ l ∙ ap (min m.batch) world_left,
                    same_left ∙ world_left,
                  )
            ]
      ]
