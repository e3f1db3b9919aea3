-- ===== src/Api/Updates.antt =====
-- ValidateUpdate of api/v1alpha1/distributedrediscluster_webhook.go.
use rediscluster_operator.Base.Int.{ℤ, eq_of_parts}
use rediscluster_operator.Base.{
  ◌≡◌, ◌↔◌, ◌⊎◌, refl, Bool, true, false, ◌&&◌, not, ◌∷◌, [], Option, none, some, Text, same,
  same_iff, arith, Bool-cases, inl, inr, length, ltb,
}
use rediscluster_operator.Status.{cluster_status_ok}
use rediscluster_operator.Status.Compare.{compare_string_value}
use rediscluster_operator.Api.{
  Resources, Cluster, compare_sizes, same_secret, compare_obj, validate_update, admitted,
  bad_service,
}

-- The four fields that the webhook guards are the same.
pub record AgreesWith {Q : Type 0} (new old : Cluster Q) : Type 0 where
  pub masters : new.spec.master_size ≡ old.spec.master_size
  pub image : new.spec.image ≡ old.spec.image
  pub resources : new.spec.resources ≡ old.spec.resources
  pub secret : new.spec.admin_secret ≡ old.spec.admin_secret

compare_sizes_iff : (a b : ℤ) → (compare_sizes a b ≡ false) ↔ (a ≡ b)
unfolding compare_sizes
compare_sizes_iff a b = (λ h. ground (arith, eq_of_parts a b), λ h. rw h (ground arith))

same_secret_iff : (a b : Option Text) → (same_secret a b ≡ true) ↔ (a ≡ b)
same_secret_iff none none = (λ h. refl, λ h. refl)
same_secret_iff none (some b) = (λ h. cc, λ h. cc)
same_secret_iff (some a) none = (λ h. cc, λ h. cc)
same_secret_iff (some a) (some b) =
    (λ h. ground (arith, same_iff a b), λ h. ground (arith, same_iff a b))

compare_string_value_iff : (a b : Text) → (compare_string_value a b ≡ false) ↔ (a ≡ b)
unfolding compare_string_value
compare_string_value_iff a b =
    (λ h. ground (arith, same_iff a b), λ h. ground (arith, same_iff a b))

bad_name_iff :
    (t : Text) (b : Bool) → ((ltb 0 (length t) && not b) ≡ false) ↔ ((t ≡ []) ⊎ (b ≡ true))
bad_name_iff [] b = (λ h. inl refl, λ h. refl)
bad_name_iff (x ∷ t) true = (λ h. inr refl, λ h. ground arith)
bad_name_iff (x ∷ t) false =
    (λ h. absurd (ground arith), λ h. elim h [ inl e ↦ absurd (cc) | inr e ↦ absurd (cc) ])

module _ {Q : Type 0} (deep_equal : Option (Resources Q) → Option (Resources Q) → Bool)
    (is_label : Text → Bool)
    (equal : (a b : Option (Resources Q)) → (deep_equal a b ≡ true) ↔ (a ≡ b)) where
  compare_obj_iff :
      (new old : Cluster Q) → (compare_obj deep_equal new old ≡ false) ↔ AgreesWith new old
  unfolding compare_obj
  compare_obj_iff new old =
      let a = compare_sizes_iff new.spec.master_size old.spec.master_size in
      let b = compare_string_value_iff new.spec.image old.spec.image in
      let c = equal new.spec.resources old.spec.resources in
      let d = same_secret_iff new.spec.admin_secret old.spec.admin_secret in
      (
        λ h. record {
          masters = ground (arith, a);
          image = ground (arith, a, b);
          resources = ground (arith, a, b, c);
          secret = ground (arith, a, b, c, d);
        },
        λ k. rw (compare_obj, a.1 k.masters, b.1 k.image, c.1 k.resources, d.1 k.secret) refl,
      )

  -- The old cluster has no status, is healthy, or is not changed where the webhook looks.
  abbrev pub Settled : Cluster Q → Cluster Q → Type 0
  Settled new old =
      (old.status.status ≡ []) ⊎ ((old.status.status ≡ cluster_status_ok) ⊎ AgreesWith new old)

  Settled-of :
      (new old : Cluster Q)
      → bad_service is_label new.spec ≡ false
      → validate_update deep_equal is_label new (some old) ≡ admitted
      → Settled new old
  unfolding validate_update
  Settled-of new old named h = elim (Bool-cases (same old.status.status [])) [
    | inl e ↦ inl ((same_iff old.status.status []).0 e)
    | inr e ↦ elim (Bool-cases (same old.status.status cluster_status_ok)) [
      | inl f ↦ inr (inl ((same_iff old.status.status cluster_status_ok).0 f))
      | inr f ↦ elim (Bool-cases (compare_obj deep_equal new old)) [
        | inl g ↦ absurd (ground (arith, named, e, f, g))
        | inr g ↦ inr (inr ((compare_obj_iff new old).0 g))
      ]
    ]
  ]

  admitted_of :
      (new old : Cluster Q)
      → bad_service is_label new.spec ≡ false
      → Settled new old
      → validate_update deep_equal is_label new (some old) ≡ admitted
  unfolding validate_update
  admitted_of new old named (inl e) =
      rw (validate_update, named, (same_iff old.status.status []).1 e) refl
  admitted_of new old named (inr (inl e)) =
      let f : same old.status.status cluster_status_ok ≡ true =
        (same_iff old.status.status cluster_status_ok).1 e in
      ground (arith, named, f)
  admitted_of new old named (inr (inr k)) =
      let f = (compare_obj_iff new old).1 k in ground (arith, named, f)

  -- Where DeepEqual tells whether two values are equal, ValidateUpdate admits an update exactly when
  -- the service name, if one is given, is a label, and the old cluster has no status yet, is healthy, or
  -- has the same number of masters, image, resources and admin secret.
  pub validate_update_iff :
      (new old : Cluster Q)
      → (validate_update deep_equal is_label new (some old) ≡ admitted) ↔ (
          ((new.spec.service_name ≡ []) ⊎ (is_label new.spec.service_name ≡ true))
          × Settled new old)
  unfolding validate_update
  validate_update_iff new old =
      let name = bad_name_iff new.spec.service_name (is_label new.spec.service_name) in
      (
        λ h.
            let named : bad_service is_label new.spec ≡ false = ground arith in
            (name.0 named, Settled-of new old named h),
        λ h. admitted_of new old (name.1 h.0) h.1,
      )
