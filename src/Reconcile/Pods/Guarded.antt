-- ===== src/Reconcile/Pods/Guarded.antt =====
-- How many pods checkandUpdatePods deletes.
use rediscluster_operator.Base.{ℕ, suc, ◌≤◌, true, [], ◌∷◌, if◌then◌else◌}
use rediscluster_operator.Reconcile.{History, deleted_pod}
use rediscluster_operator.Reconcile.Errors.{Library}
use rediscluster_operator.Reconcile.Pods.{PodClients, Answer}

-- The number of pods deleted in a history.
abbrev pub deletions : {Q : Type 0} → History Q → ℕ
deletions [] = 0
deletions (deleted_pod name true ∷ h) = suc (deletions h)
deletions (_ ∷ h) = deletions h

module _ {Q E : Type 0} (lib : Library E) (w : PodClients Q E) where
  -- At most `n` pods were deleted.
  abbrev AtMost : ℕ → History Q → Type 0
  AtMost n h = deletions h ≤ n

  -- At most `n` pods before, and one more where the answer says so.
  abbrev Counted : ℕ → Answer E → History Q → Type 0
  Counted n a h = deletions h ≤ (if a.0 then suc n else n)
