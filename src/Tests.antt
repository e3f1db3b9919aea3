-- ===== src/Tests.antt =====
-- Two masters with three slots each, and one that comes: the data of the tests.
pub mod Slots
pub mod Nodes
pub mod Migration
pub mod Rebalance
pub mod Heal
pub mod Placement
pub mod View
pub mod Status
pub mod Admin
pub mod Manager
pub mod Api
pub mod Config
pub mod Acl
pub mod Reconcile
use rediscluster_operator.Base.{ℕ, zero, suc, Bool, false, List, [], ◌∷◌, Text, txt}
use rediscluster_operator.Nodes.{Node, new_default_node, redis_master_role}
use rediscluster_operator.Nodes.Heap.{Heap}

abbrev pub master_named : Text → Text → List ℕ → Node
master_named id ip slots = record new_default_node {
  id = id;
  ip = ip;
  role = redis_master_role;
  slots = slots;
}

abbrev pub node_a : Node
node_a = master_named (txt "a") (txt "10.0.0.1") (0 ∷ 1 ∷ 2 ∷ [])

abbrev pub node_b : Node
node_b = master_named (txt "b") (txt "10.0.0.2") (3 ∷ 4 ∷ 5 ∷ [])

abbrev pub node_c : Node
node_c = master_named (txt "c") (txt "10.0.0.3") []

abbrev pub three : Heap
three zero = node_a
three (suc zero) = node_b
three (suc (suc _)) = node_c

-- An admin whose commands never fail.
abbrev pub works {ℓ κ} : {A : Type ℓ} {B : Type κ} → A → B → Bool
works _ _ = false
