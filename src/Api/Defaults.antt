-- ===== src/Api/Defaults.antt =====
-- DefaultSpec of api/v1alpha1/default.go.
use mathlib.Core.Path.{subst}
use rediscluster_operator.Base.Int.{pos, ◌≤ℤ◌}
use rediscluster_operator.Base.{
  ℕ, ◌≡◌, ◌≢◌, ◌↔◌, refl, ap, Bool, false, [], some, Text, same, same_iff, arith, ◌==◌, Bool-cases,
  inl, inr, Option-cases,
}
use rediscluster_operator.Api.{Resources, Spec, default_spec, default_resource, is_unset, small}

-- The resources are given and not empty.
abbrev pub Sized : {Q : Type 0} → (Resources Q → ℕ) → Spec Q → Type 0
Sized {Q} size s = (r : Resources Q) × (s.resources ≡ some r) × (size r ≢ 0)

-- The spec needs no default.
pub record IsComplete {Q : Type 0} (size : Resources Q → ℕ) (s : Spec Q) : Type 0 where
  pub masters : pos 3 ≤ℤ s.master_size
  pub image : s.image ≢ []
  pub service : s.service_name ≢ []
  pub resources : Sized size s

module _ {Q : Type 0} (quantity : Text → Q) (size : Resources Q → ℕ) where
  Sized-default_spec :
      (name : Text) (s : Spec Q)
      → size (default_resource quantity) ≢ 0
      → Sized size (default_spec quantity size name s).0
  unfolding default_spec
  Sized-default_spec name s h = elim (Option-cases s.resources) [
    | inl e ↦ (default_resource quantity, rw (default_spec, e) refl, h)
    | inr (r, e) ↦ elim (Bool-cases (size r == 0)) [
      | inl z ↦ (default_resource quantity, rw (default_spec, e, z) refl, h)
      | inr z ↦ (r, rw (default_spec, e, z) refl, ground arith)
    ]
  ]

  default_spec-IsComplete :
      (name : Text) (s : Spec Q)
      → name ≢ []
      → size (default_resource quantity) ≢ 0
      → IsComplete size (default_spec quantity size name s).0
  unfolding default_spec
  default_spec-IsComplete name s named sized = record {
    masters = ground arith;
    image = ground (arith, same_iff s.image []);
    service = ground (arith, same_iff s.service_name []);
    resources = Sized-default_spec name s sized;
  }

  unchanged :
      (name : Text) (s : Spec Q)
      → IsComplete size s
      → default_spec quantity size name s ≡ (s, false)
  unfolding default_spec
  unchanged name s k =
      let a : small quantity size s ≡ false = ground (arith, k.masters) in
      let b : same s.image [] ≡ false = ground (arith, k.image, same_iff s.image []) in
      let c : same s.service_name [] ≡ false =
        ground (arith, k.service, same_iff s.service_name []) in
      let d : is_unset size s.resources ≡ false =
        rw k.resources.1 (ground (arith, k.resources.2)) in
      rw (default_spec, a, b, c, d) refl

  -- For a cluster with a name and default resources that are not empty, DefaultSpec gives a spec that
  -- needs no default; it reports no update and leaves the spec alone exactly when the spec needs none,
  -- so that a second run does nothing.
  pub default_spec_settles :
      (name : Text) (s : Spec Q)
      → name ≢ []
      → size (default_resource quantity) ≢ 0
      → IsComplete size (default_spec quantity size name s).0
        × ((default_spec quantity size name s ≡ (s, false)) ↔ IsComplete size s)
        × (default_spec quantity size name (default_spec quantity size name s).0
            ≡ ((default_spec quantity size name s).0, false))
  default_spec_settles name s named sized =
      let complete = default_spec-IsComplete name s named sized in
      (
        complete,
        (
          λ h. subst (IsComplete size) (ap (λ (p : Spec Q × Bool). p.0) h) complete,
          unchanged name s,
        ),
        unchanged name (default_spec quantity size name s).0 complete,
      )
