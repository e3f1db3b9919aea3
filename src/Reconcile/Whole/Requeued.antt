-- ===== src/Reconcile/Whole/Requeued.antt =====
-- Reconcile asks for another round, but in three cases.
use rediscluster_operator.Base.Int.{pos}
use rediscluster_operator.Base.{
  ◌≡◌, ℕ, suc, false, refl, true, ◌&&◌, List, Option, none, some, txt, ltb, ◌⊎◌, inl, inr,
  if◌then◌else◌, length, ◌==◌, map, Bool-cases, Option-cases,
}
use rediscluster_operator.Nodes.{Node}
use rediscluster_operator.Admin.Infos.{ClusterInfos}
use rediscluster_operator.Placement.{HaStatus}
use rediscluster_operator.Api.{Cluster}
use rediscluster_operator.Status.{
  HaBuilt, ha_panicked, ha_built, build_ha_status, check_all_zones_active,
  check_and_update_cluster_health, set_ha_status,
}
use rediscluster_operator.Status.Build.{build_cluster_status}
use rediscluster_operator.Reconcile.{History, Flow, next, continue, returned}
use rediscluster_operator.Reconcile.Errors.{
  Err, ErrorType, no_type, requeue, kubernetes, redis, cluster, stop_retry, get_type,
}
use rediscluster_operator.Reconcile.Ensure.{Ensured, ensure_cluster}
use rediscluster_operator.Reconcile.Pods.{Pod}
use rediscluster_operator.Reconcile.Sync.{zones_of}
use rediscluster_operator.Reconcile.Redistribute.{
  ToDelete, divides_by_zero, not_identified, to_delete, place_masters_by_sts,
}
use rediscluster_operator.Reconcile.Rules.{
  Post, goes_on, returns, panics, continue-Post, returned-Post, return_if-Post, Anything,
  trivial-Post, sum_cases, returned-exact, Post-returned, weaken, weaken_return,
}
use rediscluster_operator.Reconcile.World.{
  Answer, World, Fetched, not_found, not_read, fetched, is_last, requeue_after,
}
use rediscluster_operator.Reconcile.Round.{
  ensure_phase, not_ensured, is_ensured, is_stop, nodes_of, is_partial,
}
use rediscluster_operator.Reconcile.Settle.{
  ha_or_panic, size_of, replicas_of, is_failed, is_redistribute, is_healthy, move_masters,
  health_of,
}
use rediscluster_operator.Reconcile.Whole.{
  asks_redistribution, redistribute_if_active, apply_deletions, redistribute, ha_phase,
  health_phase, pods_on, reconcile, reconcile_fetched,
}
use rediscluster_operator.Reconcile.Whole.Ends.{
  Restored, update-Post, report-Post, pods-GoesOn, heal-GoesOn, join-GoesOn, restore-GoesOn,
  status-GoesOn, cluster-GoesOn, pods_update-Post, delete_sets-GoesOn,
}

module _ {Q E : Type 0} (w : World Q E) where
  abbrev called : {A : Type 0} → Flow A A × History Q → Flow (Answer E) A × History Q
  called x = returned x

  -- ensureCluster returns an error that is not to be tried again.
  abbrev pub Stopped : Cluster Q → History Q → Type 0
  Stopped c h =
      (r : Ensured Q E) × (h' : History Q) × (e : Err E) × (called
          (ensure_cluster w.lib w.ensurer c h)
        ≡ (next r, h'))
      × (r.error ≡ some e)
      × (get_type e ≡ stop_retry)

  -- The reasons for which Reconcile asks for no further round, by what Get returns.
  abbrev pub Ends : Fetched Q E → History Q → History Q → Type 0
  Ends f h h' = (f ≡ not_found) ⊎ ((c : Cluster Q) × (f ≡ fetched c) × (Stopped c h ⊎ Restored h'))

module _ {Q E : Type 0} (w : World Q E)
    (waits : is_last {E = E} (requeue_after w.reconcile_time) ≡ false) where
  -- A part that answers `done` only after a restore.
  abbrev Final : Flow (Answer E) (Answer E) × History Q → Type 0
  Final x =
      Post (λ a h. is_last a ≡ true → Restored h) (λ a h. is_last a ≡ true → Restored h)
        (λ h. Unit {0}) x

  ha_or_panic-GoesOn :
      (b : HaBuilt) (h : History Q)
      → Post {R = Answer E} Anything
          (λ a h. is_last a ≡ true → Restored h)
          (λ h. Unit {0})
          (ha_or_panic b h)
  ha_or_panic-GoesOn ha_panicked h = panics tt
  ha_or_panic-GoesOn (ha_built s m e) h = goes_on tt

  moves-Final :
      (c : Cluster Q) (nodes : List Node) (h : History Q) → Final (move_masters w c nodes h)
  unfolding move_masters
  moves-Final c nodes h =
      continue-Post {A = HaStatus × List Node} _
        (ha_or_panic-GoesOn (build_ha_status (zones_of c.spec.ha_config) nodes (size_of c)) h)
        λ ha h' t. elim (Bool-cases (is_redistribute ha.0 && ltb 0 (length ha.1))) [
          | inl f ↦ rw f (
              continue-Post {A = Option (Err E)} _
                (returned-Post (
                  trivial-Post (
                    place_masters_by_sts w.lib w.failover (zones_of c.spec.ha_config) nodes
                      (replicas_of c) ha.1 h')))
                λ r h'' t.
                  return_if-Post (w.annotate h'' c (txt "reDistributeNode") (txt "false")) _ _ _
                    (λ e x. absurd (cc)) (returns (λ x. absurd (cc))))
          | inr f ↦ elim (Bool-cases (is_healthy ha.0 && (length ha.1 == 0))) [
            | inl g ↦
                rw (f, g)
                  (continue-Post _ (update-Post w waits c _ h')
                    λ u h'' t. returns (λ x. absurd (cc)))
            | inr g ↦ rw (f, g) (returns (λ x. absurd (cc)))
          ]
        ]

  deletions-Final :
      (c : Cluster Q) (nodes : List Node) (d : ToDelete) (h : History Q)
      → Final (apply_deletions w c nodes d h)
  unfolding apply_deletions
  deletions-Final c nodes divides_by_zero h = panics tt
  deletions-Final c nodes not_identified h = returns (λ x. absurd (cc))
  deletions-Final c nodes (to_delete number chosen) h = elim (Bool-cases (ltb 0 number)) [
    | inl f ↦ rw f (
        continue-Post _ (delete_sets-GoesOn w waits c.name chosen (size_of c) 0 h)
          λ u h' t. returns (λ x. absurd (cc)))
    | inr f ↦ rw f (moves-Final c nodes h)
  ]

  redistribute-Final :
      (c : Cluster Q) (nodes : List Node) (h : History Q) → Final (redistribute w c nodes h)
  unfolding redistribute
  redistribute-Final c nodes h = elim (sum_cases (w.list_pods h)) [
    | inl (e, f) ↦ rw f (returns (λ x. absurd (cc)))
    | inr (pods, f) ↦ rw f (deletions-Final c nodes _ h)
  ]

  active-Final :
      (c : Cluster Q) (nodes : List Node) (h : History Q)
      → Final (redistribute_if_active w c nodes h)
  unfolding redistribute_if_active
  active-Final c nodes h =
      let zones = check_all_zones_active (w.zone_active h) (zones_of c.spec.ha_config) in
      return_if-Post (if zones.2 then some tt else none) _ _ _ (λ e x. absurd (cc))
        (elim (Bool-cases (zones.0 && asks_redistribution c)) [
          | inl f ↦ rw f (redistribute-Final c nodes h)
          | inr f ↦ rw f (returns (λ x. absurd (cc)))
        ])

  ha-Final :
      (c : Cluster Q) (nodes : List Node) (ha : HaStatus) (h : History Q)
      → Final (ha_phase w c nodes ha h)
  unfolding ha_phase
  ha-Final c nodes ha h = elim (Bool-cases (is_failed ha)) [
    | inl f ↦ rw f (returns (λ x. absurd (cc)))
    | inr f ↦ elim (Bool-cases (is_redistribute ha)) [
      | inr g ↦ rw (f, g) (returns (λ x. absurd (cc)))
      | inl g ↦ rw (f, g) (active-Final c nodes h)
    ]
  ]

  health-Final :
      (c : Cluster Q) (infos : ClusterInfos) (pods : List Pod) (h : History Q)
      → Final (health_phase w c infos pods h)
  unfolding health_phase
  health-Final c infos pods h =
      let answer = w.get_cluster_infos h in
      let built =
        build_cluster_status (w.node_labels h) (nodes_of answer.0.infos) (map (λ p. p.built) pods)
          c.status true in
      return_if-Post (if is_partial infos.status then answer.1 else none) _ _ _ (λ e x. absurd (cc))
        (continue-Post {A = HaStatus × List Node} _
          (ha_or_panic-GoesOn (build_ha_status (zones_of c.spec.ha_config) built.1 (size_of c)) h)
          λ ha h' t.
            let health =
              check_and_update_cluster_health (set_ha_status built.0 ha.0) (health_of answer.0)
                (replicas_of c) in
            continue-Post {A = Cluster Q} _ (update-Post w waits c health.0 h') λ c' h'' t.
              return_if-Post (if health.1 then none else some tt) _ _ _ (λ e x. absurd (cc))
                (continue-Post _ (pods_update-Post w waits c' health.0 pods h'')
                  λ u h3 t. ha-Final c' built.1 ha.0 h3))

  pods_on-Final : (c : Cluster Q) (h : History Q) → Final (pods_on w c h)
  unfolding pods_on
  pods_on-Final c h = continue-Post {A = List Pod} _ (pods-GoesOn w waits c h) λ pods h t.
      continue-Post {A = Cluster Q × ClusterInfos} _ (heal-GoesOn w waits c h) λ r h t.
        continue-Post _ (join-GoesOn w waits r.0 r.1 h) λ u h t.
          continue-Post _ (restore-GoesOn w waits r.0 h) λ u h t.
            continue-Post {A = Cluster Q × List Node} _ (status-GoesOn w waits r.0 r.1 pods h)
              λ p h t.
                continue-Post {A = Cluster Q} _ (cluster-GoesOn w waits p.0 p.1 h)
                  λ c' h t. health-Final c' r.1 pods h

  stop_retry_of : (t : ErrorType) → is_stop t ≡ true → t ≡ stop_retry
  stop_retry_of stop_retry h = refl
  stop_retry_of no_type h = absurd (cc)
  stop_retry_of requeue h = absurd (cc)
  stop_retry_of kubernetes h = absurd (cc)
  stop_retry_of redis h = absurd (cc)
  stop_retry_of cluster h = absurd (cc)

  ensure-Stopped :
      (c : Cluster Q) (h : History Q)
      → Post Anything
          (λ a h'. is_last a ≡ true → Stopped w c h)
          (λ h. Unit {0})
          (ensure_phase w c h)
  unfolding ensure_phase not_ensured is_ensured
  ensure-Stopped c h =
      continue-Post {A = Ensured Q E} _ (returned-exact (ensure_cluster w.lib w.ensurer c h))
        λ r h' x. elim (Option-cases r.error) [
          | inl e ↦ rw e (update-Post w waits r.cluster _ h')
          | inr (err, e) ↦ elim (Bool-cases (is_stop (get_type err))) [
            | inl f ↦ rw (e, f) (returns (λ d. (r, h', err, x, e, stop_retry_of (get_type err) f)))
            | inr f ↦ rw (e, f) (report-Post w waits r.cluster _ err _ h' (λ h y. absurd (cc)))
          ]
        ]

  ensured-Ends :
      (c : Cluster Q) (h : History Q)
      → Post
          (λ a h'. is_last a ≡ true → Stopped w c h ⊎ Restored h')
          (λ a h'. is_last a ≡ true → Stopped w c h ⊎ Restored h')
          (λ h. Unit {0})
          (continue (ensure_phase w c h) (pods_on w))
  ensured-Ends c h =
      continue-Post {A = Cluster Q} _ (weaken_return (ensure-Stopped c h) (λ a h' k d. inl (k d)))
        λ c' h' t.
          weaken (weaken_return (pods_on-Final c' h') (λ a h'' k d. inr (k d)))
            (λ a h'' k d. inr (k d))

  fetched-Ends :
      (f : Fetched Q E) (h h' : History Q) (a : Answer E)
      → returned {S = Answer E} (reconcile_fetched w f h) ≡ (next a, h')
      → is_last a ≡ true
      → Ends w f h h'
  unfolding reconcile_fetched
  fetched-Ends not_found h h' a x l = inl refl
  fetched-Ends (not_read e) h h' a x l = absurd (cc)
  fetched-Ends (fetched c) h h' a x l = inr (c, refl, Post-returned _ (ensured-Ends c h) x l)

-- Where the delay between rounds is above 0, Reconcile ends with no error and asks for no further
-- round only where the custom resource is gone, where ensureCluster says that it is of no use to try
-- again, or where its last call has written that a restore has succeeded.
pub reconcile-Ends :
    {Q E : Type 0} (w : World Q E) (n : ℕ) (h h' : History Q) (a : Answer E)
    → w.reconcile_time ≡ pos (suc n)
    → returned {S = Answer E} (reconcile w h) ≡ (next a, h')
    → is_last a ≡ true
    → Ends w w.get_cr h h'
unfolding reconcile
reconcile-Ends w n h h' a delay x last = fetched-Ends w (rw delay refl) w.get_cr h h' a x last
