-- ===== src/Admin/Migrate.antt =====
-- MigrateKeys and MigrateKeysInSlot of utils/redisutil/admin.go.
-- `none` means that the loop has not ended within the fuel, which counts its rounds. A key that is not
-- a string is an answer of another type.
pub mod Emptied
use rediscluster_operator.Base.Strings.{format_uint}
use rediscluster_operator.Base.{
  ℕ, zero, suc, ◌+◌, Bool, true, false, List, [], ◌∷◌, ◌++◌, Option, none, some, Text, txt,
  if◌then◌else◌, length,
}
use rediscluster_operator.Nodes.{Node}
use rediscluster_operator.Admin.{
  Fault, Reply, refused, answered_text, answered_list, answered_other, AdminError, from_redis,
  unexpected_type, Redis, Cnx, get, get_auth, validate_resp, send,
}

-- What the methods are asked for: the source, the destination, and the options.
pub record Move : Type 0 where
  pub addr : Text
  pub dest : Node
  pub batch : ℕ
  pub timeout : ℕ
  pub replace : Bool

-- How a method returns: the state, the count of keys and the error.
abbrev pub Counted : Type 0 → Type 0
Counted S = Cnx S × ℕ × Option AdminError

abbrev pub get_keys_words : ℕ → ℕ → List Text
get_keys_words slot batch =
    txt "CLUSTER" ∷ txt "GETKEYSINSLOT" ∷ format_uint slot ∷ format_uint batch ∷ []

-- migrateCmdArgs
unfoldable pub migrate_cmd_args : Move → Option Text → List Text → List Text
migrate_cmd_args m auth keys =
    (m.dest.ip ∷ m.dest.port ∷ [] ∷ txt "0" ∷ format_uint m.timeout ∷ [])
    ++ ((elim auth [ none ↦ [] | some password ↦ txt "AUTH" ∷ password ∷ [] ])
        ++ ((if m.replace then txt "REPLACE" ∷ txt "KEYS" ∷ [] else txt "KEYS" ∷ []) ++ keys))

module _ {S : Type 0} (redis : Redis S) where
  -- `c.Do(ctx, "MIGRATE", args)`: the slice is one argument, which go-redis cannot marshal; what the
  -- client returns for it is a parameter.
  unfoldable pub send_migrate : Move → List Text → Cnx S → Cnx S × Reply
  send_migrate m keys cnx =
      let r = redis.migrate m.addr (migrate_cmd_args m (get_auth cnx) keys) cnx.world in
      (record cnx { world = r.0 }, r.1)

  -- The loop of MigrateKeysInSlot, from the count so far.
  unfoldable pub in_slot_loop : ℕ → Move → ℕ → ℕ → Cnx S → Option (Counted S)
  in_slot_loop zero m slot count cnx = none
  in_slot_loop (suc fuel) m slot count cnx =
      let asked = send redis m.addr (get_keys_words slot m.batch) cnx in
      elim asked.1 [
        | refused e ↦ some (asked.0, 0, some (from_redis e))
        | answered_text t ↦ some (asked.0, count, some unexpected_type)
        | answered_other ↦ some (asked.0, count, some unexpected_type)
        | answered_list keys ↦ elim keys [
          | [] ↦ some (asked.0, count, none)
          | k ∷ ks ↦
              let sent = send_migrate m (k ∷ ks) asked.0 in
              let valid = validate_resp redis m.addr sent.1 sent.0 in
              let count1 = count + length (k ∷ ks) in
              let rest = in_slot_loop fuel m slot count1 valid.0 in
              elim valid.1 [ some e ↦ some (valid.0, count1, some e) | none ↦ rest ]
        ]
      ]

  -- MigrateKeysInSlot
  unfoldable pub migrate_keys_in_slot : ℕ → Move → ℕ → Cnx S → Option (Counted S)
  migrate_keys_in_slot fuel m slot cnx =
      let g = get redis m.addr cnx in
      elim g.1 [ some e ↦ some (g.0, 0, some e) | none ↦ in_slot_loop fuel m slot 0 g.0 ]

  -- The inner loop of MigrateKeys: whether it goes on to the next slot, with what it returns. An
  -- error of MIGRATE ends it with the error of the answer before, which is nil.
  unfoldable pub keys_loop : ℕ → Move → ℕ → ℕ → Cnx S → Option (Bool × Counted S)
  keys_loop zero m slot count cnx = none
  keys_loop (suc fuel) m slot count cnx =
      let asked = send redis m.addr (get_keys_words slot m.batch) cnx in
      elim asked.1 [
        | refused e ↦ some (false, (asked.0, 0, some (from_redis e)))
        | answered_text t ↦ some (false, (asked.0, count, some unexpected_type))
        | answered_other ↦ some (false, (asked.0, count, some unexpected_type))
        | answered_list keys ↦ elim keys [
          | [] ↦ some (true, (asked.0, count, none))
          | k ∷ ks ↦
              let sent = send_migrate m (k ∷ ks) asked.0 in
              let count1 = count + length (k ∷ ks) in
              let rest = keys_loop fuel m slot count1 sent.0 in
              elim sent.1 [ refused e ↦ some (false, (sent.0, count1, none)) | _ ↦ rest ]
        ]
      ]

  -- The outer loop of MigrateKeys.
  unfoldable pub slots_loop : ℕ → Move → List ℕ → ℕ → Cnx S → Option (Counted S)
  slots_loop fuel m [] count cnx = some (cnx, count, none)
  slots_loop fuel m (slot ∷ slots) count cnx = elim (keys_loop fuel m slot count cnx) [
    | none ↦ none
    | some (more, (c, n, err)) ↦ if more then slots_loop fuel m slots n c else some (c, n, err)
  ]

  -- MigrateKeys
  unfoldable pub migrate_keys : ℕ → Move → List ℕ → Cnx S → Option (Counted S)
  migrate_keys fuel m [] cnx = some (cnx, 0, none)
  migrate_keys fuel m (slot ∷ slots) cnx =
      let g = get redis m.addr cnx in
      elim g.1 [ some e ↦ some (g.0, 0, some e) | none ↦ slots_loop fuel m (slot ∷ slots) 0 g.0 ]
