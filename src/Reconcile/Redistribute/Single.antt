-- ===== src/Reconcile/Redistribute/Single.antt =====
-- How many nodes getListofNodestoDelete names for a stateful set.
use rediscluster_operator.Base.{
  ℕ, ◌+◌, ◌≡◌, ◌≤◌, refl, Bool, true, false, List, [], ◌∷◌, ◌++◌, Text, same, same_iff, insert,
  slice_at, slice_at-insert, ltb, length, arith, Bool-cases, inl, inr,
}
use rediscluster_operator.Nodes.{Node, redis_slave_role}
use rediscluster_operator.Reconcile.Redistribute.{Chosen, choose_slaves, choose_zones, choose_sets}

abbrev put_slave : Text → Chosen → Node → Chosen
put_slave zone c n = (insert n.stateful_set (slice_at zone c.0 ++ n ∷ []) c.0, c.1 + 1)

module _ (is_zone : Text → Bool) where
  -- No stateful set of a node is named like a zone.
  abbrev pub NoneZone : List Node → Type 0
  NoneZone [] = Unit {0}
  NoneZone (n ∷ nodes) = (is_zone n.stateful_set ≡ false) × NoneZone nodes

  abbrev pub ByZone : List (Text × List Node) → Type 0
  ByZone [] = Unit {0}
  ByZone ((zone, nodes) ∷ by_zone) = (is_zone zone ≡ true) × NoneZone nodes × ByZone by_zone

  abbrev pub AllByZone : List (List (Text × List Node)) → Type 0
  AllByZone [] = Unit {0}
  AllByZone (by_zone ∷ sets) = ByZone by_zone × AllByZone sets

  -- At most one node for each key, and none for a zone.
  abbrev AtMostOne : List (Text × List Node) → Type 0
  AtMostOne m = (k : Text) → (length (slice_at k m) ≤ 1) × (is_zone k ≡ true → slice_at k m ≡ [])

  insert-AtMostOne :
      (zone : Text) (n : Node) (m : List (Text × List Node))
      → is_zone zone ≡ true
      → is_zone n.stateful_set ≡ false
      → AtMostOne m
      → AtMostOne (insert n.stateful_set (slice_at zone m ++ n ∷ []) m)
  insert-AtMostOne zone n m z s a k =
      rw (slice_at-insert n.stateful_set k (slice_at zone m ++ n ∷ []) m, (a zone).1 z)
        (elim (Bool-cases (same n.stateful_set k)) [
          | inl e ↦ rw e (omega arith, λ y. absurd (cc (s, y, (same_iff n.stateful_set k).0 e)))
          | inr e ↦ rw e (a k)
        ])

  choose_slaves-AtMostOne :
      (zone : Text) (c : Chosen) (nodes : List Node)
      → is_zone zone ≡ true
      → NoneZone nodes
      → AtMostOne c.0
      → AtMostOne (choose_slaves zone c nodes).0
  unfolding choose_slaves
  choose_slaves-AtMostOne zone c [] z s a = a
  choose_slaves-AtMostOne zone c (n ∷ nodes) z s a =
      elim (Bool-cases (same n.role redis_slave_role)) [
        | inl e ↦
            rw (choose_slaves, e)
              (choose_slaves-AtMostOne zone (put_slave zone c n) nodes z s.1
                (insert-AtMostOne zone n c.0 z s.0 a))
        | inr e ↦ rw (choose_slaves, e) (choose_slaves-AtMostOne zone c nodes z s.1 a)
      ]

  choose_zones-AtMostOne :
      (most : ℕ) (c : Chosen) (by_zone : List (Text × List Node))
      → ByZone by_zone
      → AtMostOne c.0
      → AtMostOne (choose_zones most c by_zone).0
  unfolding choose_zones
  choose_zones-AtMostOne most c [] z a = a
  choose_zones-AtMostOne most c ((zone, nodes) ∷ by_zone) z a =
      elim (Bool-cases (ltb most (length nodes))) [
        | inl e ↦
            rw (choose_zones, e)
              (choose_zones-AtMostOne most (choose_slaves zone c nodes) by_zone z.2
                (choose_slaves-AtMostOne zone c nodes z.0 z.1 a))
        | inr e ↦ rw (choose_zones, e) (choose_zones-AtMostOne most c by_zone z.2 a)
      ]

  choose_sets-AtMostOne :
      (most : ℕ) (c : Chosen) (sets : List (List (Text × List Node)))
      → AllByZone sets
      → AtMostOne c.0
      → AtMostOne (choose_sets most c sets).0
  unfolding choose_sets
  choose_sets-AtMostOne most c [] z a = a
  choose_sets-AtMostOne most c (by_zone ∷ sets) z a =
      choose_sets-AtMostOne most (choose_zones most c by_zone) sets z.1
        (choose_zones-AtMostOne most c by_zone z.0 a)

  -- Where no stateful set is named like a zone, the second loop of getListofNodestoDelete leaves at
  -- most one node for each stateful set, however many slaves stand in zones that have too many.
  pub choose_sets-one_each :
      (most : ℕ) (sets : List (List (Text × List Node)))
      → AllByZone sets
      → (sts : Text) → length (slice_at sts (choose_sets most ([], 0) sets).0) ≤ 1
  unfolding slice_at
  choose_sets-one_each most sets z sts =
      (choose_sets-AtMostOne most ([], 0) sets z (λ k. (omega arith, λ y. refl)) sts).0
