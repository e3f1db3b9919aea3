-- ===== src/Reconcile/Whole/Ends.antt =====
-- When Reconcile asks for no further round.
use rediscluster_operator.Base.Int.{pos}
use rediscluster_operator.Base.{
  ℕ, zero, suc, ◌≡◌, true, false, refl, Bool, ◌&&◌, List, [], ◌∷◌, Option, none, some, Text, txt,
  same, inl, inr, if◌then◌else◌, Bool-cases, Option-cases, slice_at,
}
use rediscluster_operator.Nodes.{Node}
use rediscluster_operator.Admin.Infos.{ClusterInfos}
use rediscluster_operator.Placement.{cluster_statefulset_name}
use rediscluster_operator.Api.{
  Cluster, restore_phase_succeeded, restore_phase_restart, is_restore_from_backup,
  is_restore_running, is_restore_restarting,
}
use rediscluster_operator.Status.{ClusterStatus, set_cluster_failed, cluster_status_on_delete}
use rediscluster_operator.Status.Compare.{compare_status}
use rediscluster_operator.Reconcile.{
  History, Flow, M, wrote_status, pure, return, fixed_terminating,
}
use rediscluster_operator.Reconcile.Errors.{Err, get_type, error_text}
use rediscluster_operator.Reconcile.Passwords.{
  PasswordUpdate, check_and_update_password, update_cluster_if_need, reconcile_passwords,
}
use rediscluster_operator.Reconcile.Pods.{Pod, check_and_update_pods}
use rediscluster_operator.Reconcile.Sync.{Synced, sync_cluster, need_cluster_operation}
use rediscluster_operator.Reconcile.Rules.{
  Post, goes_on, returns, continue-Post, returned-Post, return_if-Post, or_panic-Post, Anything,
  trivial-Post, sum_cases,
}
use rediscluster_operator.Reconcile.World.{Answer, World, is_last, requeue_after, failed}
use rediscluster_operator.Reconcile.Round.{
  report, pods_phase, heal_phase, join_phase, restoring_phase, restart_masters, finish_restore,
  is_requeue, is_partial, with_phase,
}
use rediscluster_operator.Reconcile.Settle.{
  size_of, status_phase, cluster_phase, update_phase, delete_pods, delete_sets,
}

-- The last call wrote that the restore has succeeded.
abbrev pub Restored : {Q : Type 0} → History Q → Type 0
Restored {Q} h =
    (s : ClusterStatus) × (t : History Q) × (h ≡ wrote_status s ∷ t)
    × (s.restore_phase ≡ restore_phase_succeeded)

abbrev partial_error : {E : Type 0} → ClusterInfos × Option (Err E) → Option (Err E)
partial_error answer = if is_partial answer.0.status then answer.1 else none

module _ {Q E : Type 0} (w : World Q E)
    (waits : is_last {E = E} (requeue_after w.reconcile_time) ≡ false) where
  -- A part ends the rounds only after a restore.
  abbrev pub GoesOn : {A : Type 0} → Flow (Answer E) A × History Q → Type 0
  GoesOn x = Post Anything (λ a h. is_last a ≡ true → Restored h) (λ h. Unit {0}) x

  pub update-Post :
      {K : Answer E → History Q → Type 0} (c : Cluster Q) (s : ClusterStatus) (h : History Q)
      → Post Anything K (λ h. Unit {0}) (update_cluster_if_need {R = Answer E} c s h)
  unfolding update_cluster_if_need
  update-Post c s h = elim (Bool-cases (compare_status c.status s)) [
    | inl e ↦ rw e (goes_on tt)
    | inr e ↦ rw e (goes_on tt)
  ]

  pub passwords-GoesOn :
      (c : Cluster Q) (h : History Q) → GoesOn (reconcile_passwords {R = Answer E} w.secrets c h)
  unfolding reconcile_passwords
  passwords-GoesOn c h =
      continue-Post {A = PasswordUpdate Q E} _
        (returned-Post (trivial-Post (check_and_update_password w.secrets c h)))
        λ u h' t. update-Post u.cluster _ h'

  pub report-Post :
      {A : Type 0} {K : Answer E → History Q → Type 0} (c : Cluster Q)
      (status : Text → ClusterStatus) (e : Err E) (a : Answer E) (h : History Q)
      → ((h : History Q) → K a h)
      → Post Anything K (λ h. Unit {0}) (report w {A = A} c status e a h)
  unfolding report
  report-Post c status e a h k =
      or_panic-Post (error_text w.lib e) _ h tt
        λ text. continue-Post _ (update-Post c (status text) h) λ u h' t. returns (k h')

  pub pods-GoesOn : (c : Cluster Q) (h : History Q) → GoesOn (pods_phase w c h)
  unfolding pods_phase
  pods-GoesOn c h = elim (sum_cases (w.list_pods h)) [
    | inl (e, f) ↦ rw f (returns (λ x. absurd (cc)))
    | inr (pods, f) ↦ rw f (
        return_if-Post (w.fix_terminating h) _ _ _ (λ e x. absurd (cc))
          (elim (Option-cases (w.secrets.check_node_num (fixed_terminating ∷ h))) [
            | inl g ↦ rw g (goes_on tt)
            | inr (e, g) ↦ rw g (report-Post c _ _ _ _ (λ h x. absurd (cc)))
          ]))
  ]

  pub heal-GoesOn : (c : Cluster Q) (h : History Q) → GoesOn (heal_phase w c h)
  unfolding heal_phase reconcile_passwords
  heal-GoesOn c h =
      return_if-Post (w.admin_password h) _ _ _ (λ e x. absurd (cc))
        (continue-Post _ (passwords-GoesOn c h) λ c' h' t.
          return_if-Post (partial_error (w.get_cluster_infos h')) _ _ _ (λ e x. absurd (cc))
            (return_if-Post (w.heal h' c' (w.get_cluster_infos h').0).1 _ _ _ (λ e x. absurd (cc))
              (elim (Bool-cases (w.heal h' c' (w.get_cluster_infos h').0).0) [
                | inl g ↦ rw g (returns (λ x. absurd (cc)))
                | inr g ↦ rw g (goes_on tt)
              ])))

  join_end :
      (c : Cluster Q) (err : Option (Err E)) (h : History Q)
      → GoesOn (
          elim err as (λ o. M Q (Answer E) (Unit {0})) [
            | none ↦ pure tt
            | some e ↦
                if is_requeue (get_type e)
                then return (requeue_after (pos 10))
                else report w c (set_cluster_failed c.status) e (failed e)
          ]
            h)
  join_end c none h = goes_on tt
  join_end c (some e) h = elim (Bool-cases (is_requeue (get_type e))) [
    | inl f ↦ rw f (returns (λ x. absurd (cc)))
    | inr f ↦ rw f (report-Post c _ e _ h (λ h x. absurd (cc)))
  ]

  pub join-GoesOn :
      (c : Cluster Q) (infos : ClusterInfos) (h : History Q) → GoesOn (join_phase w c infos h)
  unfolding join_phase
  join-GoesOn c infos h =
      continue-Post _ (returned-Post (trivial-Post _)) λ err h' t. join_end c err h'

  pub restore-GoesOn : (c : Cluster Q) (h : History Q) → GoesOn (restoring_phase w c h)
  unfolding restoring_phase restart_masters finish_restore
  restore-GoesOn c h = elim (Bool-cases (is_restore_from_backup c && is_restore_running c)) [
    | inl f ↦
        let s = with_phase w c restore_phase_restart in
        rw f (
          return_if-Post (w.write_status h s) _ _ _ (λ e x. absurd (cc))
            (return_if-Post (w.update_statefulsets _ (record c { status = s })) _ _ _
              (λ e x. absurd (cc))
              (return_if-Post (w.pod_clients.await _ (txt "waitMasterNodeRestarting")) _ _ _
                (λ e x. absurd (cc)) (returns (λ x. absurd (cc))))))
    | inr f ↦ elim (Bool-cases (is_restore_from_backup c && is_restore_restarting c)) [
      | inl g ↦
          let s = with_phase w c restore_phase_succeeded in
          rw (f, g)
            (return_if-Post (w.write_status h s) _ _ _ (λ e x. absurd (cc))
              (returns (λ x. (s, h, refl, refl))))
      | inr g ↦ rw (f, g) (goes_on tt)
    ]
  ]

  pub status-GoesOn :
      (c : Cluster Q) (infos : ClusterInfos) (pods : List Pod) (h : History Q)
      → GoesOn (status_phase w c infos pods h)
  unfolding status_phase
  status-GoesOn c infos pods h =
      return_if-Post (w.set_config_if_need h c.spec.config) _ _ _ (λ e x. absurd (cc))
        (continue-Post _ (update-Post c _ _) λ c' h' t. goes_on tt)

  pub cluster-GoesOn :
      (c : Cluster Q) (nodes : List Node) (h : History Q) → GoesOn (cluster_phase w c nodes h)
  unfolding cluster_phase
  cluster-GoesOn c nodes h = elim (Bool-cases (need_cluster_operation c)) [
    | inl f ↦ rw f (
        continue-Post {A = Synced Q E} _
          (returned-Post (trivial-Post (sync_cluster w.lib w.clustering c nodes h)))
          λ r h' t. elim (Option-cases r.error) [
            | inl g ↦ rw g (goes_on tt)
            | inr (e, g) ↦ rw g (report-Post r.cluster _ e _ h' (λ h x. absurd (cc)))
          ])
    | inr f ↦ rw f (goes_on tt)
  ]

  pub pods_update-Post :
      (c : Cluster Q) (s : ClusterStatus) (pods : List Pod) (h : History Q)
      → GoesOn (update_phase w c s pods h)
  unfolding update_phase
  pods_update-Post c s pods h =
      continue-Post {A = Bool × Option (Err E)} _
        (returned-Post
          (trivial-Post (check_and_update_pods w.lib w.pod_clients c.name (size_of c) pods h)))
        λ r h' t. elim (Option-cases r.1) [
          | inr (e, g) ↦ rw g (report-Post c _ e _ h' (λ h x. absurd (cc)))
          | inl g ↦ elim (Bool-cases r.0) [
            | inr f ↦ rw (g, f) (goes_on tt)
            | inl f ↦ elim (Bool-cases (same s.status cluster_status_on_delete)) [
              | inl k ↦ rw (g, f, k) (returns (λ x. absurd (cc)))
              | inr k ↦
                  rw (g, f, k)
                    (continue-Post _ (update-Post c _ h') λ u h'' t. returns (λ x. absurd (cc)))
            ]
          ]
        ]

  pub delete_pods-GoesOn : (nodes : List Node) (h : History Q) → GoesOn (delete_pods w nodes h)
  unfolding delete_pods
  delete_pods-GoesOn [] h = goes_on tt
  delete_pods-GoesOn (n ∷ nodes) h =
      return_if-Post (w.pod_clients.delete_pod h n.pod_name) _ _ _ (λ e x. absurd (cc))
        (delete_pods-GoesOn nodes _)

  pub delete_sets-GoesOn :
      (name : Text) (chosen : List (Text × List Node)) (rounds i : ℕ) (h : History Q)
      → GoesOn (delete_sets w name chosen rounds i h)
  unfolding delete_sets
  delete_sets-GoesOn name chosen zero i h = goes_on tt
  delete_sets-GoesOn name chosen (suc rounds) i h =
      continue-Post _ (delete_pods-GoesOn (slice_at (cluster_statefulset_name name i) chosen) h)
        λ u h' t. delete_sets-GoesOn name chosen rounds (suc i) h'
