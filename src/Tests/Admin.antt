-- ===== src/Tests/Admin.antt =====
-- utils/redisutil/connections.go and admin.go on small inputs.
use rediscluster_operator.Base.{
  Bool, ℕ, zero, suc, ◌≡◌, refl, ◌↔◌, min, true, false, List, [], ◌∷◌, none, some, Text, txt, same,
  if◌then◌else◌, length, arith,
}
use rediscluster_operator.Nodes.{is_slave, get_role}
use rediscluster_operator.Heal.{NodeInfos}
use rediscluster_operator.Admin.Forget.{forget_node, forget_at, detach_first}
use rediscluster_operator.Admin.{
  Fault, refused, from_redis, get, connect, send, Redis, Cnx, answered_list, answered_other,
  has_client,
}
use rediscluster_operator.Admin.Commands.{set_slot, set_slots}
use rediscluster_operator.Admin.Commands.Roles.{can_connect, is_network, slot_answer}
use rediscluster_operator.Admin.Commands.Slots.{set_slot-errors}
use rediscluster_operator.Admin.Migrate.{Move}
use rediscluster_operator.Admin.Migrate.Emptied.{Lists, Refuses, MovesNone, migrate_keys-MovesNone}
use rediscluster_operator.Admin.Infos.{Answers, get_cluster_infos}
use rediscluster_operator.Admin.Infos.Reasons.{IsExplained, get_cluster_infos-IsExplained}
use rediscluster_operator.Tests.{node_a, node_b}

abbrev copies : ℕ → List Text
copies zero = []
copies (suc n) = txt "k" ∷ copies n

length-copies : (n : ℕ) → length (copies n) ≡ n
length-copies zero = refl
length-copies (suc n) = ground (arith, length-copies n)

abbrev cannot_marshal : Fault
cannot_marshal = record {
  message = txt "redis: can't marshal []string (implement encoding.BinaryMarshaler)";
  network = false;
}

-- A Redis node of which only the number of keys in a slot is known.
abbrev counted_redis : Redis ℕ
counted_redis = record {
  exec = λ addr words s. (s, answered_list (copies (min 2 s)));
  pipe = λ addr words s. (s, none);
  migrate = λ addr args s. (s, refused cannot_marshal);
  pings = λ s addr. true;
}

abbrev five_keys : Cnx ℕ
five_keys = record { clients = []; password = []; world = 5 }

abbrev keys_left : ℕ → ℕ
keys_left s = s

abbrev some_move : Move
some_move = record {
  addr = txt "10.0.0.1:6379";
  dest = node_b;
  batch = 2;
  timeout = 1;
  replace = false;
}

gives_two : Lists counted_redis keys_left some_move 3
gives_two s = (copies (min 2 s), refl, length-copies (min 2 s), refl)

refuses_slices : Refuses counted_redis keys_left
refuses_slices addr args s = (cannot_marshal, (refl, refl))

connected : can_connect counted_redis (txt "10.0.0.1:6379") five_keys ≡ true
unfolding has_client
connected = refl

migrate_keys-MovesNone_example : MovesNone counted_redis keys_left 5 some_move 3 (7 ∷ []) five_keys
migrate_keys-MovesNone_example =
    migrate_keys-MovesNone counted_redis keys_left 5 some_move 3 (7 ∷ []) five_keys connected
      (omega arith) (omega arith) gives_two refuses_slices

set_slot-errors_example :
    (((set_slot counted_redis (txt "10.0.0.1:6379") (txt "NODE") 3 (txt "a") five_keys).1 ≡ none)
      ↔ (is_network
            (slot_answer counted_redis (txt "10.0.0.1:6379") (txt "NODE") 3 (txt "a") five_keys)
          ≡ false))
    × (((set_slots counted_redis (txt "10.0.0.1:6379") (txt "NODE") (3 ∷ []) (txt "a") five_keys).1
          ≡ none)
        ↔ (slot_answer counted_redis (txt "10.0.0.1:6379") (txt "NODE") 3 (txt "a") five_keys
            ≡ none))
set_slot-errors_example =
    set_slot-errors counted_redis (txt "10.0.0.1:6379") (txt "NODE") (txt "a") 3 five_keys connected

-- Two nodes; one fails.
abbrev some_answers : Answers
some_answers = record {
  node_infos = λ addr.
      if same addr (txt "10.0.0.1:6379")
      then some (record { node = node_a; friends = node_b ∷ [] })
      else none;
  cluster_state_of = λ addr. some (txt "fail");
  replication_info = λ addr. none;
}

abbrev two_addrs : List Text
two_addrs = txt "10.0.0.1:6379" ∷ txt "10.0.0.9:6379" ∷ []

get_cluster_infos-IsExplained_example : IsExplained (get_cluster_infos some_answers two_addrs).0
get_cluster_infos-IsExplained_example = get_cluster_infos-IsExplained some_answers two_addrs

abbrev busy_fault : Fault
busy_fault = record { message = txt "ERR I know you"; network = false }

-- A Redis node that refuses every command.
abbrev refusing_redis : Redis ℕ
refusing_redis = record {
  exec = λ addr words s. (s, refused busy_fault);
  pipe = λ addr words s. (s, none);
  migrate = λ addr args s. (s, answered_other);
  pings = λ s addr. true;
}

abbrev none_unknown : Text → Bool
none_unknown message = false

abbrev one_view : List (Text × NodeInfos)
one_view = (txt "10.0.0.1:6379", record { node = node_a; friends = [] }) ∷ []

forget_refused :
    (forget_node refusing_redis none_unknown (txt "c") one_view five_keys).1
    ≡ some (from_redis busy_fault)
unfolding forget_node forget_at detach_first is_slave get_role get has_client connect send same
forget_refused = refl
