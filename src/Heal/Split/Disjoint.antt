-- ===== src/Heal/Split/Disjoint.antt =====
-- The clusters that buildClustersLists of controllers/heal/clustersplit.go tells apart.
use rediscluster_operator.Base.{
  ℕ, ◌+◌, ◌≤◌, true, false, ◌≡◌, refl, List, [], ◌∷◌, ◌++◌, Text, same_iff, if◌then◌else◌,
  Bool-cases, inl, inr, arith,
}
use rediscluster_operator.Heal.{NodeInfos, Cluster}
use rediscluster_operator.Heal.Split.{
  in_cluster, find_in_cluster, healthy_addresses, overlaps, clusters_loop, build_clusters_lists,
}

-- How many of the clusters hold the address.
unfoldable pub holders : Text → List Cluster → ℕ
holders addr [] = 0
holders addr (c ∷ clusters) = (if in_cluster addr c then 1 else 0) + holders addr clusters

holders-snoc :
    (addr : Text) (clusters : List Cluster) (c : Cluster)
    → holders addr (clusters ++ c ∷ [])
      ≡ holders addr clusters + (if in_cluster addr c then 1 else 0)
unfolding holders
holders-snoc addr [] c = omega arith
holders-snoc addr (d ∷ clusters) c = omega (arith, holders-snoc addr clusters c)

holders-none :
    (addr : Text) (clusters : List Cluster)
    → find_in_cluster addr clusters ≡ false
    → holders addr clusters ≡ 0
unfolding holders find_in_cluster
holders-none addr [] h = refl
holders-none addr (c ∷ clusters) h = ground (arith, holders-none addr clusters)

apart :
    (addr : Text) (c : Cluster) (clusters : List Cluster)
    → overlaps c clusters ≡ false
    → in_cluster addr c ≡ true
    → find_in_cluster addr clusters ≡ false
unfolding overlaps in_cluster
apart addr [] clusters h m = cc
apart addr (a ∷ c) clusters h m = ground (arith, same_iff addr a, apart addr c clusters)

clusters_loop-disjoint :
    (addr : Text) (infos : List NodeInfos) (clusters : List Cluster)
    → holders addr clusters ≤ 1
    → holders addr (clusters_loop clusters infos) ≤ 1
unfolding clusters_loop
clusters_loop-disjoint addr [] clusters h = h
clusters_loop-disjoint addr (i ∷ infos) clusters h =
    let c = healthy_addresses (i.friends ++ i.node ∷ []) in
    elim (Bool-cases (overlaps c clusters)) [
      | inl e ↦ rw e (clusters_loop-disjoint addr infos clusters h)
      | inr e ↦ rw e (
          clusters_loop-disjoint addr infos (clusters ++ c ∷ []) (
            ground (
              arith,
              holders-snoc addr clusters c,
              holders-none addr clusters,
              apart addr c clusters e,
            )))
    ]

-- No address is in two of the clusters that buildClustersLists returns, in whatever order the views
-- are visited.
pub build_clusters_lists-disjoint :
    (addr : Text) (infos : List NodeInfos) → holders addr (build_clusters_lists infos) ≤ 1
unfolding build_clusters_lists holders
build_clusters_lists-disjoint addr infos = clusters_loop-disjoint addr infos [] (omega arith)
