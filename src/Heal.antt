-- ===== src/Heal.antt =====
-- controllers/heal: the repairs that the operator makes, and what they read and send. `infos.Infos`
-- is a list of views in the order in which the map is visited. Its entries are made by
-- NewNodeInfos, so neither they nor their nodes are nil.
pub mod Split
pub mod Failed
pub mod Untrusted
use rediscluster_operator.Base.{ℕ, ◌+◌, Bool, List, ◌∷◌, Text, if◌then◌else◌}
use rediscluster_operator.Nodes.{Node}

-- NodeInfos of utils/redisutil/clusterinfo.go: a node's view of itself and of the others.
pub record NodeInfos : Type 0 where
  pub node : Node
  pub friends : List Node

-- A cluster of clustersplit.go: the addresses of its nodes.
abbrev pub Cluster : Type 0
Cluster = List Text

-- The calls of IAdmin, of its connections and of PodControl that the repairs make.
pub data Repair : Type 0 where
  replace_all : Cluster → Repair
  flush_and_reset attach forget delete_pod : Text → Repair

-- Whether the next call fails, after those made so far (the latest first).
abbrev pub Admin : Type 0
Admin = List Repair → Repair → Bool

-- The calls made (the latest first), and how many errors were collected: NewAggregate returns an
-- error when there is one.
pub record Repairs : Type 0 where
  pub sent : List Repair
  pub errs : ℕ

-- A call whose error is collected.
unfoldable pub send : Admin → Repair → Repairs → Repairs
send admin r s = record { sent = r ∷ s.sent; errs = if admin s.sent r then s.errs + 1 else s.errs }
