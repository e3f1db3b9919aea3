-- ===== src/Placement/Choice.antt =====
-- One round of DispatchMasters of controllers/clustering/placement_v2.go: the master that it chooses.
use rediscluster_operator.Base.Parse.{sort_texts}
use rediscluster_operator.Base.{
  ℕ, suc, ◌%◌, Bool, true, false, ◌&&◌, ◌≡◌, refl, ◌⊎◌, inl, inr, List, [], ◌∷◌, ◌++◌, some, Text,
  same, same_iff, lookup, insert, slice_at, ◌==◌, length, get_elem?, keep, Bool-cases, Option-cases,
  List-cases, slice_of_lookup, All, none, arith,
}
use rediscluster_operator.Nodes.{Node, is_master_with_slot}
use rediscluster_operator.Placement.{
  Ctx, is_creating, cluster_statefulset_name, first_in_zone, place_masters_ha, masters_of, on_vm,
  first_spread, place_masters, placed, place_new, dispatch_master,
}

-- The context with other masters: all that DispatchMasters changes.
abbrev pub with_masters : Ctx → List (Text × Node) → Bool → Ctx
with_masters c ms b = record c { new_masters_by_sts = ms; best_effort = b }

abbrev pub sts_name : Ctx → ℕ → Text
sts_name c i = cluster_statefulset_name c.cluster_name i

-- Each of the nodes is on a VM with one of these masters.
abbrev pub AllTaken : List Node → List Node → Type 0
AllTaken masters nodes = All (λ n. on_vm n.node_name masters ≡ true) nodes

-- Where a new master may stand, next to the masters that were chosen before: while the cluster is made
-- with high availability, in the zone that is due to its stateful set; else on a VM with neither a
-- current master nor one chosen before. It is the first node of its set, and the flag is set, where
-- every node of the set is on such a VM.
abbrev pub Spot : Ctx → List Node → ℕ → List Node → Node → Bool → Type 0
Spot c chosen i nodes m best_effort =
    ((c.ha_enabled && is_creating c.ha_status ≡ true)
      × (get_elem? (sort_texts c.zones) (i % length c.zones) ≡ some m.zone_name))
    ⊎ ((c.ha_enabled && is_creating c.ha_status ≡ false)
        × ((on_vm m.node_name (c.current_masters ++ chosen) ≡ false)
            ⊎ ((get_elem? nodes 0 ≡ some m)
                × AllTaken (c.current_masters ++ chosen) nodes
                × (best_effort ≡ true))))

-- The master of the stateful set at an index: one of its nodes, the one that holds slots if there is
-- one, and else one that stands well.
abbrev pub Chosen : Ctx → List Node → ℕ → Node → Bool → Type 0
Chosen c chosen i m best_effort =
    (nodes : List Node) × (k : ℕ) × (lookup (sts_name c i) c.nodes ≡ some nodes)
    × (get_elem? nodes k ≡ some m)
    × ((keep is_master_with_slot nodes ≡ m ∷ [])
        ⊎ ((keep is_master_with_slot nodes ≡ []) × Spot c chosen i nodes m best_effort))

-- Every node of the stateful set is on a VM with a master.
abbrev pub Crowded : Ctx → List Node → ℕ → Type 0
Crowded c chosen i =
    (nodes : List Node) × (lookup (sts_name c i) c.nodes ≡ some nodes)
    × AllTaken (c.current_masters ++ chosen) nodes

first_in_zone_lem :
    (zone : Text) (nodes : List Node) (m : Node)
    → first_in_zone zone nodes ≡ some m
    → (k : ℕ) × (get_elem? nodes k ≡ some m) × (m.zone_name ≡ zone)
unfolding first_in_zone
first_in_zone_lem zone [] m h = absurd (cc)
first_in_zone_lem zone (n ∷ nodes) m h = elim (Bool-cases (same n.zone_name zone)) [
  | inl e ↦ let q : some n ≡ some m = rw e at h in (0, q, ground (arith, same_iff n.zone_name zone))
  | inr e ↦ let (k, p, q) = first_in_zone_lem zone nodes m (rw e at h) in (suc k, p, q)
]

first_spread_lem :
    (masters nodes : List Node) (m : Node)
    → first_spread masters nodes ≡ some m
    → (k : ℕ) × (get_elem? nodes k ≡ some m) × (on_vm m.node_name masters ≡ false)
unfolding first_spread
first_spread_lem masters [] m h = absurd (cc)
first_spread_lem masters (n ∷ nodes) m h = elim (Bool-cases (on_vm n.node_name masters)) [
  | inl e ↦ let (k, p, q) = first_spread_lem masters nodes m (rw e at h) in (suc k, p, q)
  | inr e ↦ let q : some n ≡ some m = rw e at h in (0, q, ground arith)
]

first_spread-none :
    (masters nodes : List Node) → first_spread masters nodes ≡ none → AllTaken masters nodes
unfolding first_spread
first_spread-none masters [] h = tt
first_spread-none masters (n ∷ nodes) h = elim (Bool-cases (on_vm n.node_name masters)) [
  | inl e ↦ (e, first_spread-none masters nodes (rw e at h))
  | inr e ↦ let q : some n ≡ none = rw e at h in absurd (cc)
]

kept_master :
    (nodes : List Node) (m : Node)
    → keep is_master_with_slot nodes ≡ m ∷ []
    → (k : ℕ) × (get_elem? nodes k ≡ some m)
kept_master [] m h = absurd (cc)
kept_master (n ∷ nodes) m h = elim (Bool-cases (is_master_with_slot n)) [
  | inl e ↦ let q : n ∷ keep is_master_with_slot nodes ≡ m ∷ [] = rw e at h in (0, cc)
  | inr e ↦ let (k, p) = kept_master nodes m (rw e at h) in (suc k, p)
]

-- The outcome of one round: one more master, which is chosen well.
abbrev pub Round : Ctx → List (Text × Node) → Bool → ℕ → Ctx → Type 0
Round c ms b i c' =
    (m : Node) × (b' : Bool) × (c' ≡ with_masters c (insert (sts_name c i) m ms) b')
    × ((b' ≡ b) ⊎ ((b' ≡ true) × Crowded c (masters_of ms) i))
    × Chosen c (masters_of ms) i m b'

module _ (c : Ctx) (ms : List (Text × Node)) (b : Bool) (i : ℕ) (c' : Ctx) (nodes : List Node)
    (e : lookup (sts_name c i) c.nodes ≡ some nodes) where
  held : slice_at (sts_name c i) c.nodes ≡ nodes
  held = slice_of_lookup (sts_name c i) c.nodes nodes e

  ha_round :
      c.ha_enabled && is_creating c.ha_status ≡ true
      → keep is_master_with_slot nodes ≡ []
      → place_new (with_masters c ms b) i (sts_name c i) ≡ placed c'
      → Round c ms b i c'
  unfolding place_new place_masters_ha
  ha_round ha none_yet h = elim (Bool-cases (length c.zones == 0)) [
    | inl z ↦ absurd (ground arith)
    | inr z ↦ elim (Option-cases (get_elem? (sort_texts c.zones) (i % length c.zones))) [
      | inl g ↦ absurd (ground arith)
      | inr (zone, g) ↦ elim (Option-cases (first_in_zone zone (slice_at (sts_name c i) c.nodes))) [
        | inl f ↦ absurd (ground arith)
        | inr (m, f) ↦
            let (k, p, q) = first_in_zone_lem zone nodes m (rw held at f) in
            (m, b, ground arith, inl refl, (nodes, k, e, p, inr (none_yet, inl (ha, ground arith))))
      ]
    ]
  ]

  spread_round :
      c.ha_enabled && is_creating c.ha_status ≡ false
      → keep is_master_with_slot nodes ≡ []
      → place_new (with_masters c ms b) i (sts_name c i) ≡ placed c'
      → Round c ms b i c'
  unfolding place_new place_masters
  spread_round ha none_yet h =
      let taken = first_spread-none (c.current_masters ++ masters_of ms) nodes in
      elim (Option-cases
        (first_spread (c.current_masters ++ masters_of ms) (slice_at (sts_name c i) c.nodes))) [
          | inl f ↦ elim (List-cases (slice_at (sts_name c i) c.nodes)) [
            | inl g ↦ absurd (ground arith)
            | inr (m, rest, g) ↦ (
              m,
              true,
              ground arith,
              inr (refl, (nodes, e, taken (rw held at f))),
              (
                nodes,
                0,
                e,
                ground (arith, held),
                inr (none_yet, inr (ha, inr (ground (arith, held), taken (rw held at f), refl))),
              ),
            )
          ]
          | inr (m, f) ↦
              let (k, p, q) =
                first_spread_lem (c.current_masters ++ masters_of ms) nodes m (rw held at f) in
              (m, b, ground arith, inl refl, (nodes, k, e, p, inr (none_yet, inr (ha, inl q))))
        ]

pub master_round :
    (c : Ctx) (ms : List (Text × Node)) (b : Bool) (i : ℕ) (c' : Ctx)
    → dispatch_master (with_masters c ms b) i ≡ placed c'
    → Round c ms b i c'
unfolding dispatch_master
master_round c ms b i c' h = elim (Option-cases (lookup (sts_name c i) c.nodes)) [
  | inl e ↦ absurd (ground arith)
  | inr (nodes, e) ↦ elim (List-cases (keep is_master_with_slot nodes)) [
    | inl k ↦ elim (Bool-cases (c.ha_enabled && is_creating c.ha_status)) [
      | inl ha ↦ ha_round c ms b i c' nodes e ha k (ground arith)
      | inr ha ↦ spread_round c ms b i c' nodes e ha k (ground arith)
    ]
    | inr (m, rest, k) ↦ elim (List-cases rest) [
      | inl r ↦
          let only : keep is_master_with_slot nodes ≡ m ∷ [] = cc in
          let (at_k, p) = kept_master nodes m only in
          (m, b, ground arith, inl refl, (nodes, at_k, e, p, inl only))
      | inr (m', rest', r) ↦ absurd (ground arith)
    ]
  ]
]

pub Chosen_mono :
    (c : Ctx) (chosen : List Node) (i : ℕ) (m : Node) (b b' : Bool)
    → (b ≡ true → b' ≡ true)
    → Chosen c chosen i m b
    → Chosen c chosen i m b'
Chosen_mono c chosen i m b b' up (nodes, k, e, p, inl q) = (nodes, k, e, p, inl q)
Chosen_mono c chosen i m b b' up (nodes, k, e, p, inr (q, inl s)) = (nodes, k, e, p, inr (q, inl s))
Chosen_mono c chosen i m b b' up (nodes, k, e, p, inr (q, inr (h, inl s))) =
    (nodes, k, e, p, inr (q, inr (h, inl s)))
Chosen_mono c chosen i m b b' up (nodes, k, e, p, inr (q, inr (h, inr (f, t, s)))) =
    (nodes, k, e, p, inr (q, inr (h, inr (f, t, up s))))
