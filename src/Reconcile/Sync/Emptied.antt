-- ===== src/Reconcile/Sync/Emptied.antt =====
-- When scalingDown deletes a stateful set.
use mathlib.Core.List.{Mem, mem-cons_self, mem-cons_of_mem}
use rediscluster_operator.Base.{
  ℕ, zero, suc, ◌≡◌, refl, false, List, [], ◌∷◌, Text, arith, slice_at, ltb, length, Bool-cases,
  Option-cases, true, inl, inr,
}
use rediscluster_operator.Nodes.{Node}
use rediscluster_operator.Placement.{cluster_statefulset_name}
use rediscluster_operator.Api.{Cluster}
use rediscluster_operator.Reconcile.{Step, History, forgot, deleted_statefulset}
use rediscluster_operator.Reconcile.Errors.{Library}
use rediscluster_operator.Reconcile.Rules.{
  Post, goes_on, returns, continue-Post, return_if-Post, weaken, always,
}
use rediscluster_operator.Reconcile.Sync.{
  Clustering, scaling_down, forget_nodes, disconnect_nodes, disconnect_loop, remove_loop,
  remove_statefulset,
}

empty_slots : (slots : List ℕ) → ltb 0 (length slots) ≡ false → slots ≡ []
empty_slots [] h = refl
empty_slots (x ∷ slots) h = absurd (ground arith)

module _ {Q : Type 0} where
  -- Every node of the list is empty, and a ForgetNode of it in the history has returned no error.
  abbrev pub Forgotten : List Node → History Q → Type 0
  Forgotten [] h = Unit
  Forgotten (n ∷ nodes) h = (n.slots ≡ []) × Mem (forgot n.id true) h × Forgotten nodes h

  -- A stateful set was deleted only after all its nodes.
  abbrev pub DeletesForgotten : List (Text × List Node) → History Q → Type 0
  DeletesForgotten sets [] = Unit
  DeletesForgotten sets (deleted_statefulset sts ∷ h) =
      Forgotten (slice_at sts sets) h × DeletesForgotten sets h
  DeletesForgotten sets (_ ∷ h) = DeletesForgotten sets h

  abbrev Later : History Q → History Q → Type 0
  Later h h' = (s : Step Q) → Mem s h → Mem s h'

module _ {Q E : Type 0} (lib : Library E) (w : Clustering Q E)
    (sets : List (Text × List Node)) where
  abbrev Safe : History Q → Type 0
  Safe = DeletesForgotten sets

  disconnect_nodes-Safe :
      {R : Type 0} (nodes : List Node) (h : History Q)
      → Safe h
      → Post (λ a. Safe) (λ (r : R). Safe) Safe (disconnect_nodes lib w nodes h)
  unfolding disconnect_nodes
  disconnect_nodes-Safe [] h s = goes_on s
  disconnect_nodes-Safe (n ∷ nodes) h s = disconnect_nodes-Safe nodes _ s

  disconnect_loop-Safe :
      {R : Type 0} (name : Text) (expected rounds : ℕ) (h : History Q)
      → Safe h
      → Post (λ a. Safe) (λ (r : R). Safe) Safe (disconnect_loop lib w sets name expected rounds h)
  unfolding disconnect_loop
  disconnect_loop-Safe name expected zero h s = goes_on s
  disconnect_loop-Safe name expected (suc rounds) h s =
      continue-Post _ (disconnect_nodes-Safe _ h s)
        (λ a h' s'. disconnect_loop-Safe name expected rounds h' s')

  forget_nodes-Forgotten :
      (c : Cluster Q) (nodes : List Node) (h : History Q)
      → Safe h
      → Post
          (λ a h'. Safe h' × Forgotten nodes h' × Later h h')
          (λ r. Safe)
          Safe
          (forget_nodes lib w c nodes h)
  unfolding forget_nodes
  forget_nodes-Forgotten c [] h s = goes_on (s, tt, λ t m. m)
  forget_nodes-Forgotten c (n ∷ nodes) h s = elim (Bool-cases (ltb 0 (length n.slots))) [
    | inl e ↦ rw (forget_nodes, e) (returns s)
    | inr e ↦
        rw (forget_nodes, e)
          (elim (Option-cases (w.forget h n.id)) [
            | inr (err, f) ↦ rw f (returns s)
            | inl f ↦ rw f (
                weaken (forget_nodes-Forgotten c nodes (forgot n.id true ∷ h) s) (λ a h' p. (
                  p.0,
                  (empty_slots n.slots e, p.2 (forgot n.id true) mem-cons_self, p.1),
                  λ t m. p.2 t (mem-cons_of_mem _ m),
                )))
          ])
  ]

  remove_statefulset-Safe :
      (c : Cluster Q) (i : ℕ) (h : History Q)
      → Safe h
      → Post (λ a. Safe) (λ r. Safe) Safe (remove_statefulset lib w c sets i h)
  unfolding remove_statefulset
  remove_statefulset-Safe c i h s =
      let sts = cluster_statefulset_name c.name i in
      return_if-Post (w.get_statefulset h sts) _ _ _ (λ e. s)
        (continue-Post _ (forget_nodes-Forgotten c (slice_at sts sets) h s)
          (λ a h' p. goes_on (p.1, p.0)))

  remove_loop-Safe :
      (c : Cluster Q) (expected rounds : ℕ) (h : History Q)
      → Safe h
      → Post (λ a. Safe) (λ r. Safe) Safe (remove_loop lib w c sets expected rounds h)
  unfolding remove_loop
  remove_loop-Safe c expected zero h s = goes_on s
  remove_loop-Safe c expected (suc rounds) h s =
      continue-Post _ (remove_statefulset-Safe c _ h s)
        (λ a h' s'. remove_loop-Safe c expected rounds h' s')

  -- Whatever Redis and Kubernetes answer, scalingDown deletes a stateful set only after each of its
  -- nodes was found to hold no slots and ForgetNode of it has returned no error.
  pub scaling_down-DeletesForgotten :
      (c : Cluster Q) (current : ℕ) (h : History Q)
      → DeletesForgotten sets h
      → DeletesForgotten sets (scaling_down lib w c current sets h).1
  unfolding scaling_down
  scaling_down-DeletesForgotten c current h s = always (
      continue-Post _ (disconnect_loop-Safe c.name _ _ _ s)
        (λ a h' s'. continue-Post _ (remove_loop-Safe _ _ _ h' s') (λ a h'' s''. goes_on s'')))
