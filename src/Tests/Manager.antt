-- ===== src/Tests/Manager.antt =====
-- controllers/manager on small inputs.
use rediscluster_operator.Base.{
  ℕ, ◌<◌, ◌≡◌, ◌⊎◌, ◌↔◌, ◌≢◌, true, false, List, [], ◌∷◌, Option, none, some, Text, txt,
}
use rediscluster_operator.Heal.{NodeInfos}
use rediscluster_operator.Manager.{Round, StatefulSet, heal, check_redis_node_num}
use rediscluster_operator.Manager.Healed.{ghosts, failed_repair, untrusted_repair, heal_lem}
use rediscluster_operator.Manager.Checked.{IsReady, check_redis_node_num_iff}
use rediscluster_operator.Nodes.{node_status_fail}
use rediscluster_operator.Tests.{node_a, node_b, node_c, works}

abbrev some_round : Round
some_round = record {
  dry_run = false;
  admin = works;
  visit_ghosts = λ ids. ids;
  visit_untrusted = λ nodes. nodes;
  pods = [];
  cluster_replicas = 1;
  master_size = 1;
}

abbrev failing : List NodeInfos
failing =
    record { node = node_a; friends = record node_c { fail_status = node_status_fail ∷ [] } ∷ [] }
    ∷ record { node = node_b; friends = [] }
    ∷ []

heal_lem_example :
    ((ghosts some_round failing ≢ [])
      × (heal some_round failing ≡ failed_repair some_round failing)
      × ((heal some_round failing).0 ≡ true))
    ⊎ ((ghosts some_round failing ≡ [])
        × (heal some_round failing ≡ untrusted_repair some_round failing))
heal_lem_example = heal_lem some_round failing

abbrev read_sets : Text → Option StatefulSet
read_sets name = some (record { replicas = 2; ready_replicas = 2 })

check_redis_node_num_iff_example :
    (check_redis_node_num read_sets (txt "c") 1 3 ≡ none)
    ↔ ((i : ℕ) → i < 3 → IsReady read_sets (txt "c") 1 i)
check_redis_node_num_iff_example = check_redis_node_num_iff read_sets (txt "c") 1 3
