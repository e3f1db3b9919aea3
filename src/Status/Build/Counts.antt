-- ===== src/Status/Build/Counts.antt =====
-- The map of the number of slaves of each master that buildClusterStatus makes.
use rediscluster_operator.Base.{
  ℕ, ◌+◌, ◌≡◌, refl, sym, ◌∙◌, ◌≤◌, inl, inr, Bool, true, false, ◌&&◌, List, [], ◌∷◌, none, some,
  Text, same, same_iff, same_refl, lookup, insert, lookup-insert, ltb, ◌==◌, if◌then◌else◌, length,
  arith, Bool-cases, Option-cases,
}
use mathlib.Core.Path.{subst}
use rediscluster_operator.Nodes.{Node, is_master_with_slot}
use rediscluster_operator.Status.Build.{
  count_at, is_counted_slave, count_master, count_slave, replication_bounds,
}

count_at-insert :
    (k j : Text) (v : ℕ) (m : List (Text × ℕ))
    → count_at j (insert k v m) ≡ (if same k j then v else count_at j m)
unfolding count_at
count_at-insert k j v m =
    rw (count_at, lookup-insert k j v m)
      (elim (Bool-cases (same k j)) [ inl e ↦ rw e refl | inr e ↦ rw e refl ])

zero_at :
    (id k : Text) (counts : List (Text × ℕ))
    → lookup k counts ≡ none
    → (if same k id then 0 else count_at id counts) ≡ count_at id counts
unfolding count_at
zero_at id k counts e = elim (Bool-cases (same k id)) [
  | inl f ↦ rw (f, sym ((same_iff k id).0 f), count_at, e) refl
  | inr f ↦ rw f refl
]

pub count_at-count_master :
    (id : Text) (n : Node) (counts : List (Text × ℕ))
    → count_at id (count_master n counts) ≡ count_at id counts
unfolding count_master
count_at-count_master id n counts = elim (Option-cases (lookup n.id counts)) [
  | inl e ↦ elim (Bool-cases (is_master_with_slot n)) [
    | inl f ↦ rw (count_master, f, e) (count_at-insert n.id id 0 counts ∙ zero_at id n.id counts e)
    | inr f ↦ rw (count_master, f) refl
  ]
  | inr (c, e) ↦ elim (Bool-cases (is_master_with_slot n)) [
    | inl f ↦ rw (count_master, f, e) refl
    | inr f ↦ rw (count_master, f) refl
  ]
]

pub count_at-count_slave :
    (id : Text) (n : Node) (counts : List (Text × ℕ))
    → count_at id (count_slave n counts)
      ≡ count_at id counts + (if is_counted_slave n && same n.master_referent id then 1 else 0)
unfolding count_slave
count_at-count_slave id n counts = ground (
  arith,
  count_at-insert n.master_referent id (count_at n.master_referent counts + 1) counts,
  same_iff n.master_referent id,
)

abbrev pub has_count : Text → List (Text × ℕ) → Bool
has_count id m = elim (lookup id m) [ none ↦ false | some c ↦ true ]

has_count-insert :
    (k j : Text) (v : ℕ) (m : List (Text × ℕ))
    → has_count j m ≡ true
    → has_count j (insert k v m) ≡ true
has_count-insert k j v m h = elim (Bool-cases (same k j)) [
  | inl e ↦ rw (has_count, lookup-insert k j v m, e) refl
  | inr e ↦ rw (has_count, lookup-insert k j v m, e) h
]

has_count-here : (k : Text) (v : ℕ) (m : List (Text × ℕ)) → has_count k (insert k v m) ≡ true
has_count-here k v m = rw (has_count, lookup-insert k k v m, same_refl k) refl

pub has_count-count_slave :
    (id : Text) (n : Node) (counts : List (Text × ℕ))
    → has_count id counts ≡ true
    → has_count id (count_slave n counts) ≡ true
unfolding count_slave
has_count-count_slave id n counts h = elim (Bool-cases (is_counted_slave n)) [
  | inl e ↦
      rw (count_slave, e)
        (has_count-insert n.master_referent id (count_at n.master_referent counts + 1) counts h)
  | inr e ↦ rw (count_slave, e) h
]

pub has_count-count_node :
    (id : Text) (n : Node) (counts : List (Text × ℕ))
    → has_count id counts ≡ true
    → has_count id (count_slave n (count_master n counts)) ≡ true
unfolding count_slave count_master
has_count-count_node id n counts h =
    let master : has_count id (count_master n counts) ≡ true =
      elim (Option-cases (lookup n.id counts)) [
        | inl e ↦ elim (Bool-cases (is_master_with_slot n)) [
          | inl f ↦ rw (count_master, f, e) (has_count-insert n.id id 0 counts h)
          | inr f ↦ rw (count_master, f) h
        ]
        | inr (c, e) ↦ elim (Bool-cases (is_master_with_slot n)) [
          | inl f ↦ rw (count_master, f, e) h
          | inr f ↦ rw (count_master, f) h
        ]
      ] in
    has_count-count_slave id n (count_master n counts) master

pub has_count-master :
    (n : Node) (counts : List (Text × ℕ))
    → is_master_with_slot n ≡ true
    → has_count n.id (count_master n counts) ≡ true
unfolding count_master
has_count-master n counts h = elim (Option-cases (lookup n.id counts)) [
  | inl e ↦ rw (count_master, h, e) (has_count-here n.id 0 counts)
  | inr (c, e) ↦ rw (count_master, h, e, has_count, e) refl
]

bounds_widen :
    (least greatest : ℕ) (counts : List (Text × ℕ))
    → ((replication_bounds least greatest counts).0 ≤ least)
      × (greatest ≤ (replication_bounds least greatest counts).1)
unfolding replication_bounds
bounds_widen l g [] = (omega arith, omega arith)
bounds_widen l g ((id, c) ∷ counts) =
    let rest = bounds_widen (if ltb c l then c else l) (if ltb g c then c else g) counts in
    (ground (arith, rest.0), ground (arith, rest.1))

drop_head :
    (id k : Text) (c : ℕ) (counts : List (Text × ℕ))
    → same k id ≡ false
    → has_count id ((k, c) ∷ counts) ≡ has_count id counts
unfolding lookup
drop_head id k c counts e = rw (has_count, lookup, e) refl

pub bounds_hold :
    (least greatest : ℕ) (counts : List (Text × ℕ)) (id : Text)
    → has_count id counts ≡ true
    → ((replication_bounds least greatest counts).0 ≤ count_at id counts)
      × (count_at id counts ≤ (replication_bounds least greatest counts).1)
unfolding replication_bounds count_at lookup
bounds_hold l g [] id h = absurd (cc)
bounds_hold l g ((k, c) ∷ counts) id h =
    let l1 = if ltb c l then c else l in
    let g1 = if ltb g c then c else g in
    elim (Bool-cases (same k id)) [
      | inl e ↦
          let wide = bounds_widen l1 g1 counts in
          rw (count_at, lookup, e) (ground (arith, wide.0), ground (arith, wide.1))
      | inr e ↦
          let here : has_count id counts ≡ true =
            subst (λ q. q ≡ true) (drop_head id k c counts e) h in
          rw (count_at, lookup, e) (bounds_hold l1 g1 counts id here)
    ]

pub empty_bounds :
    (counts : List (Text × ℕ)) (id : Text)
    → has_count id counts ≡ true
    → (length counts == 0) ≡ false
unfolding lookup
empty_bounds [] id h = absurd (cc)
empty_bounds (x ∷ counts) id h = ground arith
