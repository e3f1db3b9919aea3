-- ===== src/Status/Health.antt =====
-- CheackandUpdateClusterHealth and CheckallZonesActive of
-- controllers/distributedrediscluster/status.go.
use rediscluster_operator.Base.Parse.{after_last}
use rediscluster_operator.Base.{
  ℕ, ◌+◌, ◌≡◌, refl, ◌≤◌, ◌<◌, ◌⊎◌, ◌↔◌, ◌≢◌, inl, inr, true, false, ◌||◌, List, [], ◌∷◌, ◌++◌,
  Text, txt, same, same_iff, same_refl, ltb, if◌then◌else◌, arith, map, Bool-cases, List-cases,
}
use rediscluster_operator.Status.{
  ClusterStatus, ClusterState, cluster_status_ok, cluster_status_nok, is_inconsistent, has_reason,
  collect_reasons, set_cluster_ok, set_cluster_nok, join, check_and_update_cluster_health,
}

-- A cluster that is to be reported healthy.
abbrev pub IsHealthy : ClusterStatus → ClusterState → ℕ → Type 0
IsHealthy s infos cluster_replicas =
    (is_inconsistent infos.infos_status ≡ false)
    × (cluster_replicas ≤ s.min_replication_factor)
    × ((infos.cluster_state ≢ txt "NOK") ⊎ (infos.cluster_nok_reason ≡ []))

-- CheackandUpdateClusterHealth returns true and sets the status to healthy when the views are not
-- inconsistent, each master has the replicas asked for, and the state is not NOK with some reason;
-- otherwise it returns false and sets the status to not healthy. It changes the status and the reason
-- only.
pub check_health_lem :
    (s : ClusterStatus) (infos : ClusterState) (cluster_replicas : ℕ)
    → (IsHealthy s infos cluster_replicas
        × (check_and_update_cluster_health s infos cluster_replicas
            ≡ (record s { status = cluster_status_ok; reason = txt "Cluster is healthy" }, true)))
      ⊎ (¬ IsHealthy s infos cluster_replicas
          × (reason : Text) × (check_and_update_cluster_health s infos cluster_replicas
              ≡ (record s { status = cluster_status_nok; reason = reason }, false)))
unfolding check_and_update_cluster_health set_cluster_ok set_cluster_nok
check_health_lem s infos k = elim (Bool-cases (is_inconsistent infos.infos_status)) [
  | inl e ↦ inr ((λ h. absurd (cc)), txt "Cluster view is inconsistent", rw e refl)
  | inr e ↦ elim (Bool-cases (ltb s.min_replication_factor k)) [
    | inl f ↦ inr (
      (λ h. absurd (ground (arith, h.1))),
      txt "Cluster Replication Factor is not met",
      rw (e, f) refl,
    )
    | inr f ↦ elim (Bool-cases (same infos.cluster_state (txt "NOK"))) [
      | inr g ↦
          inl
            ((e, ground arith, inl (λ q. ground (arith, same_refl (txt "NOK")))), rw (e, f, g) refl)
      | inl g ↦ elim (List-cases infos.cluster_nok_reason) [
        | inl z ↦ inl ((e, ground arith, inr z), rw (e, f, g, z) refl)
        | inr (x, xs, z) ↦ inr (
          (λ h. elim (h.2) [
            | inl q ↦ q ((same_iff infos.cluster_state (txt "NOK")).0 g)
            | inr q ↦ absurd (cc)
          ]),
          join (txt ",") (collect_reasons [] infos.cluster_nok_reason),
          rw (e, f, g, z) (ground arith),
        )
      ]
    ]
  ]
]

-- How often a reason stands in a list.
unfoldable pub occurrences : Text → List Text → ℕ
occurrences reason [] = 0
occurrences reason (r ∷ reasons) = (if same r reason then 1 else 0) + occurrences reason reasons

-- The reason of a node, without what stands before the dash.
abbrev pub bare_reason : Text × Text → Text
bare_reason (ip, value) = after_last b'-' value

occurrences-snoc :
    (e r : Text) (xs : List Text)
    → occurrences e (xs ++ r ∷ []) ≡ occurrences e xs + (if same r e then 1 else 0)
unfolding occurrences
occurrences-snoc e r [] = ground arith
occurrences-snoc e r (x ∷ xs) = ground (arith, occurrences-snoc e r xs)

has_reason-occurrences :
    (e : Text) (xs : List Text) → (has_reason e xs ≡ true) ↔ (0 < occurrences e xs)
unfolding has_reason occurrences
has_reason-occurrences e [] = ((λ h. absurd (cc)), (λ h. absurd (omega arith)))
has_reason-occurrences e (x ∷ xs) = (
  (λ h. ground (arith, has_reason-occurrences e xs)),
  (λ h. ground (arith, has_reason-occurrences e xs)),
)

collect_from :
    (e : Text) (found : List Text) (reasons : List (Text × Text))
    → occurrences e found ≤ 1
    → occurrences e (collect_reasons found reasons)
      ≡ (if has_reason e found || has_reason e (map bare_reason reasons) then 1 else 0)
unfolding collect_reasons has_reason
collect_from e found [] h = ground (arith, has_reason-occurrences e found)
collect_from e found ((ip, value) ∷ reasons) h =
    let r = after_last b'-' value in
    ground (
      arith,
      collect_from e found reasons h,
      collect_from e (found ++ r ∷ []) reasons,
      occurrences-snoc e r found,
      has_reason-occurrences e found,
      has_reason-occurrences r found,
      has_reason-occurrences e (found ++ r ∷ []),
      same_iff r e,
    )

-- In the reason of an unhealthy cluster each reason that some node gives stands exactly once, and no
-- other, whatever the order in which the nodes are visited.
collect_reasons_lem :
    (e : Text) (reasons : List (Text × Text))
    → occurrences e (collect_reasons [] reasons)
      ≡ (if has_reason e (map bare_reason reasons) then 1 else 0)
unfolding occurrences has_reason
collect_reasons_lem e reasons = collect_from e [] reasons (omega arith)
