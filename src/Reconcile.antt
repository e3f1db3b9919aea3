-- ===== src/Reconcile.antt =====
-- controllers/distributedrediscluster: the controller as a program over the calls that it makes.
-- A history holds the writing calls made so far, the newest first. What the services answer is a
-- function of the history, so that an answer may depend on all that was written before it.
pub mod Errors
pub mod Rules
pub mod Ensure
pub mod Sync
pub mod Passwords
pub mod Pods
pub mod Redistribute
pub mod World
pub mod Round
pub mod Settle
pub mod Whole
use rediscluster_operator.Base.{Bool, true, false, List, ◌∷◌, Option, none, some, Text}
use rediscluster_operator.Nodes.{Node}
use rediscluster_operator.Status.{ClusterStatus}
use rediscluster_operator.Api.{Cluster}

-- The calls of Kubernetes and of Redis that write; `healed` says whether Heal has acted,
-- `forgot` and `deleted_pod` whether the call succeeds.
pub data Step (Q : Type 0) : Type 0 where
  wrote_cr : Cluster Q → Step Q
  wrote_status : ClusterStatus → Step Q
  wrote_annotation : Text → Text → Step Q
  ensured_config_map ensured_statefulsets ensured_shard_services ensured_service :
      Cluster Q → Step Q
  ensured_rclone_secret updated_statefulsets : Cluster Q → Step Q
  fixed_terminating : Step Q
  healed : Bool → Step Q
  met : Text → Step Q
  set_config : Option (List (Text × Text)) → Step Q
  set_acl : Text → Text → Step Q
  attached : Node → Text → Step Q
  allocated rebalanced : List Node → Step Q
  moved_slots : List Node → List Node → List Node → Step Q
  disconnected : Text → Step Q
  forgot : Text → Bool → Step Q
  deleted_statefulset deleted_service deleted_disruption_budget deleted_claims : Text → Step Q
  awaited : Text → Step Q
  deleted_pod : Text → Bool → Step Q
  labelled_pod annotated_pod : Text → Text → Step Q
  failed_over : Node → Step Q

abbrev pub History : Type 0 → Type 0
History Q = List (Step Q)

-- How a part of a function ends: it goes on, it returns from the function, or it panics.
pub data Flow (R A : Type 0) : Type 0 where
  next : A → Flow R A
  stop : R → Flow R A
  crash : Flow R A

-- A part of a function that returns an R.
abbrev pub M : Type 0 → Type 0 → Type 0 → Type 0
M Q R A = History Q → Flow R A × History Q

module _ {Q R A B : Type 0} where
  abbrev pub continue : Flow R A × History Q → (A → M Q R B) → Flow R B × History Q
  continue (next a, h) f = f a h
  continue (stop r, h) f = (stop r, h)
  continue (crash, h) f = (crash, h)

  infixl 5 ◌>>=◌ ◌>>◌
  abbrev pub ◌>>=◌ : M Q R A → (A → M Q R B) → M Q R B
  ◌>>=◌ m f h = continue (m h) f

  abbrev pub ◌>>◌ : M Q R A → M Q R B → M Q R B
  m >> n = m >>= λ _. n

module _ {Q R : Type 0} where
  abbrev pub pure : {A : Type 0} → A → M Q R A
  pure a h = (next a, h)

  abbrev pub return : {A : Type 0} → R → M Q R A
  return r h = (stop r, h)

  abbrev pub panic : {A : Type 0} → M Q R A
  panic h = (crash, h)

  -- A call that writes.
  abbrev pub emit : Step Q → M Q R (Unit {0})
  emit s h = (next tt, s ∷ h)

  -- What the services answer at this point.
  abbrev pub ask : {A : Type 0} → (History Q → A) → M Q R A
  ask f h = (next (f h), h)

  abbrev pub or_panic : {A : Type 0} → Option A → M Q R A
  or_panic none = panic
  or_panic (some a) = pure a

  abbrev pub or_return : {A : Type 0} → Option A → R → M Q R A
  or_return none r = return r
  or_return (some a) r = pure a

  -- `if err != nil { return f(err) }`
  abbrev pub return_if : {A : Type 0} → Option A → (A → R) → M Q R (Unit {0})
  return_if none f = pure tt
  return_if (some a) f = return (f a)

  abbrev pub when : Bool → M Q R (Unit {0}) → M Q R (Unit {0})
  when true m = m
  when false m = pure tt

module _ {Q R S : Type 0} where
  abbrev pub returned : Flow R R × History Q → Flow S R × History Q
  returned (next r, h) = (next r, h)
  returned (stop r, h) = (next r, h)
  returned (crash, h) = (crash, h)

  -- A call of a function: its result, by either way of returning.
  abbrev pub call : M Q R R → M Q S R
  call m h = returned (m h)
