-- ===== src/Admin/Infos/Answered.antt =====
-- When GetClusterInfos of utils/redisutil/admin.go returns no error.
use rediscluster_operator.Base.{◌≡◌, Bool, true, false, ◌&&◌, List, [], ◌∷◌, none, some, Text, All}
use rediscluster_operator.Heal.{NodeInfos}
use rediscluster_operator.View.{InfosStatus, consolidated_signature}
use rediscluster_operator.View.Agree.{Agrees}
use rediscluster_operator.Admin.Infos.{ClusterInfos, Answers, new_cluster_infos, gather, views_of}

-- Every node answers CLUSTER NODES.
unfoldable pub all_answer : Answers → List Text → Bool
all_answer a [] = true
all_answer a (addr ∷ addrs) =
    (elim (a.node_infos addr) [ none ↦ false | some i ↦ true ]) && all_answer a addrs

abbrev HasStatus : InfosStatus → ClusterInfos → Type 0
HasStatus s c = c.status ≡ s

-- The views that GetClusterInfos gathers.
abbrev pub gathered : Answers → List Text → List NodeInfos
gathered a addrs = views_of (gather a addrs new_cluster_infos false).0.infos

-- Every view gathered gives every address the slots that the nodes give it themselves.
abbrev pub AllAgree : List NodeInfos → Type 0
AllAgree views = All (λ i. Agrees (consolidated_signature views) i) views

abbrev errs : ClusterInfos × Bool → Bool
errs q = q.1

abbrev status_of : ClusterInfos × Bool → InfosStatus
status_of q = q.0.status
