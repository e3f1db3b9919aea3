-- ===== src/Tests/Api.antt =====
-- api/v1alpha1 on small inputs.
use native.Mathlib.Decide.{ℕ_discrete}
use rediscluster_operator.Base.Int.{pos}
use rediscluster_operator.Base.{
  ℕ, ◌≡◌, ◌≢◌, ◌↔◌, ◌⊎◌, refl, Bool, true, false, [], ◌∷◌, Option, none, some, Text, txt, length,
  arith,
}
use rediscluster_operator.Api.{
  Resources, Spec, Cluster, default_resource, default_spec, validate_update, admitted,
}
use rediscluster_operator.Api.Defaults.{IsComplete, default_spec_settles}
use rediscluster_operator.Api.Updates.{Settled, validate_update_iff}
use rediscluster_operator.Tests.Status.{old_status}

-- Quantities are texts here.
abbrev as_text : Text → Text
as_text t = t

abbrev nb_requests : Resources Text → ℕ
nb_requests r = length r.requests

abbrev pub bare_spec : Spec Text
bare_spec = record {
  image = [];
  master_size = pos 1;
  cluster_replicas = pos 2;
  service_name = [];
  config = none;
  ha_config = some (record {
    ha_enabled = true;
    zones_info = some ((txt "z1", []) ∷ (txt "z2", []) ∷ (txt "z3", []) ∷ []);
  });
  resources = none;
  admin_secret = some (txt "admin");
  monitor = some (record { image = txt "exporter"; prometheus = some (pos 9121) } ∷ []);
  restore = none;
}

abbrev pub bare_cluster : Cluster Text
bare_cluster = record {
  name = txt "c";
  namespace = txt "ns";
  annotations = [];
  spec = bare_spec;
  status = old_status;
}

some_requests : nb_requests (default_resource as_text) ≢ 0
unfolding default_resource
some_requests = ground arith

named : txt "c" ≢ []
named e = cc

default_spec_settles_example :
    IsComplete nb_requests (default_spec as_text nb_requests (txt "c") bare_spec).0
    × ((default_spec as_text nb_requests (txt "c") bare_spec ≡ (bare_spec, false))
        ↔ IsComplete nb_requests bare_spec)
    × (default_spec as_text nb_requests
          (txt "c")
          (default_spec as_text nb_requests (txt "c") bare_spec).0
        ≡ ((default_spec as_text nb_requests (txt "c") bare_spec).0, false))
default_spec_settles_example =
    default_spec_settles as_text nb_requests (txt "c") bare_spec named some_requests

resources_discrete : Discrete (Option (Resources Text))
resources_discrete = hlevel (ℕ_discrete)

deep_equal : Option (Resources Text) → Option (Resources Text) → Bool
deep_equal a b = elim (resources_discrete a b) [ yes p ↦ true | no p ↦ false ]

deep_equal_iff : (a b : Option (Resources Text)) → (deep_equal a b ≡ true) ↔ (a ≡ b)
unfolding deep_equal
deep_equal_iff a b =
    elim (resources_discrete a b)
      as (λ d. ((elim d [ yes p ↦ true | no p ↦ false ]) ≡ true) ↔ (a ≡ b)) [
        | yes p ↦ (λ h. p, λ h. refl)
        | no p ↦ (λ h. absurd (cc), λ h. absurd (p h))
      ]

abbrev is_label : Text → Bool
is_label t = true

validate_update_iff_example :
    (validate_update deep_equal is_label bare_cluster (some bare_cluster) ≡ admitted) ↔ (
      ((bare_cluster.spec.service_name ≡ []) ⊎ (is_label bare_cluster.spec.service_name ≡ true))
      × Settled deep_equal is_label deep_equal_iff bare_cluster bare_cluster)
validate_update_iff_example =
    validate_update_iff deep_equal is_label deep_equal_iff bare_cluster bare_cluster
