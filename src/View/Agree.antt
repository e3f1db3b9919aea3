-- ===== src/View/Agree.antt =====
-- ComputeStatus of utils/redisutil/clusterinfo.go: when the views of all the nodes agree.
use rediscluster_operator.Base.Maps.{deep_equal}
use rediscluster_operator.Base.{ℕ, ◌≡◌, List, [], ◌∷◌, Text, lookup, All, if◌then◌else◌, Sorted}
use rediscluster_operator.Nodes.{Node}
use rediscluster_operator.Heal.{NodeInfos}
use rediscluster_operator.View.{InfosStatus, inconsistent, view_signature}

-- A view gives every address the slots that the consolidated signature gives it.
abbrev pub Agrees : List (Text × List ℕ) → NodeInfos → Type 0
Agrees consolidated i = (k : Text) → lookup k consolidated ≡ lookup k (view_signature i)

-- The slots of a node ascend, as in the answer to CLUSTER NODES.
abbrev Ascends : Node → Type 0
Ascends n = Sorted n.slots

-- The slots of every node of the view ascend.
abbrev pub AscendingView : NodeInfos → Type 0
AscendingView i = Ascends i.node × All Ascends i.friends

-- The loop when nothing is sorted: the consolidated signature stays.
compare_all : List (Text × List ℕ) → InfosStatus → List NodeInfos → InfosStatus
compare_all c status [] = status
compare_all c status (i ∷ infos) =
    compare_all c (if deep_equal c (view_signature i) then status else inconsistent) infos
