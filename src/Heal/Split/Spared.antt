-- ===== src/Heal/Split/Spared.antt =====
-- The nodes that FixClusterSplit of controllers/heal/clustersplit.go flushes.
use rediscluster_operator.Base.{
  ℕ, suc, ◌+◌, ◌<◌, ◌≤◌, Bool, true, false, ◌||◌, ◌≡◌, refl, ap, List, [], ◌∷◌, ◌++◌, none, Text,
  same, ltb, if◌then◌else◌, length, Bool-cases, arith,
}
use rediscluster_operator.Heal.{
  NodeInfos, Cluster, Repair, replace_all, flush_and_reset, attach, Admin, Repairs, send,
}
use rediscluster_operator.Heal.Split.{
  in_cluster, find_in_cluster, split_main_cluster, build_clusters_lists, reassign_nodes,
  reassign_loop, reassign_clusters, fix_cluster_split, main_loop, split_at,
}
use rediscluster_operator.Heal.Split.Main.{has_nodes, split_main_cluster-FirstLargest}
use rediscluster_operator.Heal.Split.Disjoint.{holders, build_clusters_lists-disjoint}

-- The address is flushed by one of the calls.
unfoldable pub flushed : Text → List Repair → Bool
flushed addr [] = false
flushed addr (flush_and_reset a ∷ sent) = if same addr a then true else flushed addr sent
flushed addr (_ ∷ sent) = flushed addr sent

flushed-nodes :
    (addr : Text) (admin : Admin) (c : Cluster) (s : Repairs)
    → flushed addr (reassign_nodes admin s c).sent ≡ (flushed addr s.sent || in_cluster addr c)
unfolding reassign_nodes flushed in_cluster send
flushed-nodes addr admin [] s = ground arith
flushed-nodes addr admin (a ∷ c) s =
    ground
      (arith, flushed-nodes addr admin c (send admin (attach a) (send admin (flush_and_reset a) s)))

flushed-loop :
    (addr : Text) (admin : Admin) (bad : List Cluster) (s : Repairs)
    → flushed addr (reassign_loop admin s bad).sent
      ≡ (flushed addr s.sent || find_in_cluster addr bad)
unfolding reassign_loop find_in_cluster
flushed-loop addr admin [] s = ground arith
flushed-loop addr admin (c ∷ bad) s =
    ground
      (arith, flushed-nodes addr admin c s, flushed-loop addr admin bad (reassign_nodes admin s c))

-- Only the bad clusters are flushed.
flushed-reassign :
    (addr : Text) (admin : Admin) (clusters : List Cluster)
    → flushed addr (reassign_clusters admin clusters).sent ≡ true
    → (ltb 0 (length (split_main_cluster clusters).0) ≡ true)
      × (find_in_cluster addr (split_main_cluster clusters).1 ≡ true)
unfolding reassign_clusters flushed
flushed-reassign addr admin clusters h = ground (
  arith,
  flushed-loop addr admin (split_main_cluster clusters).1
      (record { sent = replace_all (split_main_cluster clusters).0 ∷ []; errs = 0 }),
)

holders-append :
    (addr : Text) (xs ys : List Cluster)
    → holders addr (xs ++ ys) ≡ holders addr xs + holders addr ys
unfolding holders
holders-append addr [] ys = omega arith
holders-append addr (x ∷ xs) ys = omega (arith, holders-append addr xs ys)

holders-some :
    (addr : Text) (clusters : List Cluster)
    → find_in_cluster addr clusters ≡ true
    → 0 < holders addr clusters
unfolding holders find_in_cluster
holders-some addr [] h = cc
holders-some addr (c ∷ clusters) h = ground (arith, holders-some addr clusters)

main_loop-none :
    (i : ℕ) (clusters : List Cluster)
    → has_nodes clusters ≡ false
    → main_loop i none 0 clusters ≡ none
unfolding has_nodes main_loop
main_loop-none i [] h = refl
main_loop-none i (c ∷ clusters) h = ground (arith, main_loop-none (suc i) clusters)

without_nodes :
    (clusters : List Cluster)
    → has_nodes clusters ≡ false
    → ltb 0 (length (split_main_cluster clusters).0) ≡ false
unfolding split_main_cluster split_at has_nodes
without_nodes [] h = ground arith
without_nodes (c ∷ clusters) h = rw (main_loop-none 0 (c ∷ clusters) h) (ground arith)

spared :
    (addr : Text) (clusters : List Cluster)
    → holders addr clusters ≤ 1
    → has_nodes clusters ≡ true
    → find_in_cluster addr (split_main_cluster clusters).1 ≡ true
    → in_cluster addr (split_main_cluster clusters).0 ≡ false
unfolding holders
spared addr clusters once h bad =
    let (before, after, parts, others, _, _, _) = split_main_cluster-FirstLargest clusters h in
    let main = (split_main_cluster clusters).0 in
    ground (
      arith,
      ap (holders addr) parts,
      ap (holders addr) others,
      holders-append addr before (main ∷ after),
      holders-append addr before after,
      holders-some addr (split_main_cluster clusters).1 bad,
    )

-- FixClusterSplit flushes no node of the main cluster that it elects, whatever the views, the order
-- in which they are visited, and the calls that fail. In a dry run it flushes nothing.
pub fix_cluster_split-spares :
    (dry_run : Bool) (admin : Admin) (infos : List NodeInfos) (addr : Text)
    → flushed addr (fix_cluster_split dry_run admin infos).1.sent ≡ true
    → (dry_run ≡ false)
      × (in_cluster addr (split_main_cluster (build_clusters_lists infos)).0 ≡ false)
unfolding fix_cluster_split flushed
fix_cluster_split-spares dry_run admin infos addr h =
    let clusters = build_clusters_lists infos in
    ground (
      arith,
      flushed-reassign addr admin clusters,
      without_nodes clusters,
      spared addr clusters (build_clusters_lists-disjoint addr infos),
      Bool-cases (has_nodes clusters),
    )
