-- ===== src/Reconcile/Ensure/Lost.antt =====
-- The errors of the last calls of ensureCluster.
use rediscluster_operator.Base.{◌≡◌, refl, Bool, false, none, some, Text, txt}
use rediscluster_operator.Api.{Cluster}
use rediscluster_operator.Reconcile.{History, next, stop}
use rediscluster_operator.Reconcile.Errors.{
  Err, Library, custom, kubernetes, stop_retry, wrap, error_text, ErrorType,
}
use rediscluster_operator.Reconcile.Ensure.{
  Ensurer, Ensured, failed, no_rclone, ensure_services, ensure_statefulsets, ensure_cluster,
}
use rediscluster_operator.Reconcile.Rules.{Post, goes_on, return_if-Post, returned_lem}

module _ {Q E : Type 0} (lib : Library E) (w : Ensurer Q E)
    (nil_stays : (msg : Text) → lib.wrapf none msg ≡ none)
    (nil_final : w.is_request_retryable none ≡ false) where
  -- The result carries an error, and its text cannot be asked for.
  abbrev pub IsLost : Ensured Q E → Type 0
  IsLost r = (e : Err E) × (r.error ≡ some e) × (error_text lib e ≡ none)

  wrapped-IsLost :
      (c : Cluster Q) (created : Bool) (t : ErrorType) (msg : Text)
      → IsLost (failed lib w c created (wrap lib t none msg))
  unfolding wrap error_text
  wrapped-IsLost c created t msg = (custom t none, rw (wrap, nil_stays msg) refl, refl)

  rclone_lem : no_rclone lib w ≡ custom stop_retry none
  unfolding no_rclone wrap
  rclone_lem = rw (no_rclone, nil_final, wrap, nil_stays (txt "stop retry")) refl

  rclone-IsLost :
      (c : Cluster Q) (created : Bool) → IsLost (failed lib w c created (no_rclone lib w))
  unfolding error_text
  rclone-IsLost c created = (custom stop_retry none, rw rclone_lem refl, refl)

  services-Post :
      (c : Cluster Q) (created : Bool) (h : History Q)
      → Post (λ a h. Unit {0}) (λ r h. IsLost r) (λ h. Unit {0}) (ensure_services lib w c created h)
  unfolding ensure_services
  services-Post c created h =
      return_if-Post (w.shard_services h c) _ _ _ (λ e. wrapped-IsLost c created kubernetes _)
        (return_if-Post (w.service _ c) _ _ _ (λ e. wrapped-IsLost c created kubernetes _)
          (return_if-Post (w.rclone_secret _ c) _ _ _ (λ e. rclone-IsLost c created) (goes_on tt)))

  -- Where Wrapf of nil is nil and nil is not retryable: once the stateful sets are ensured, every
  -- error that ensureCluster returns has lost its cause, so that asking for its text panics.
  pub ensure_cluster-IsLost :
      (c c' : Cluster Q) (created : Bool) (h h' h'' : History Q) (r : Ensured Q E)
      → ensure_statefulsets lib w c h ≡ (next (c', created), h')
      → ensure_cluster lib w c h ≡ (stop r, h'')
      → IsLost r
  unfolding ensure_cluster
  ensure_cluster-IsLost c c' created h h' h'' r e f =
      let rest : ensure_services lib w c' created h' ≡ (stop r, h'') =
        rw (ensure_cluster, e) at f in
      returned_lem (services-Post c' created h') rest
