-- ===== src/Status/Zones.antt =====
-- buildHAStatus and getSTSindex of controllers/distributedrediscluster/status.go, against the names
-- and the zones that controllers/clustering/placement_v2.go gives.
use rediscluster_operator.Base.Int.{ℤ, pos}
use rediscluster_operator.Base.Parse.{sort_texts, length-sort_texts, parse_int-format_uint}
use rediscluster_operator.Base.{
  ℕ, zero, suc, ◌+◌, ◌%◌, ◌^◌, ◌≡◌, refl, ap, ◌∙◌, ◌<◌, inl, inr, ◌⊎◌, ◌≢◌, List-cases,
  Option-cases, Bool, true, false, not, List, [], ◌∷◌, ◌++◌, append_assoc, append-nil, Option, none,
  some, Text, same, ◌==◌, if◌then◌else◌, length, get_elem?, keep, arith, All, Bool-cases, slice_at,
}
use rediscluster_operator.Nodes.{Node, redis_master_role, get_nodes_by_func}
use rediscluster_operator.Placement.{
  Ctx, ha_healthy, ha_redistribute, cluster_statefulset_name, first_in_zone, place_masters_ha,
}
use rediscluster_operator.Placement.Names.{cut_last-cluster_statefulset_name}
use rediscluster_operator.Status.{
  ha_built, not_suitable, get_sts_index, zone_at, build_ha_loop, build_ha_status, finish_ha_status,
}

-- getSTSindex reads back the index that ClusterStatefulSetName prints, for an index below 2 ^ 63.
get_sts_index-name :
    (name : Text) (i : ℕ)
    → i < 2 ^ 63
    → get_sts_index (cluster_statefulset_name name i) ≡ some (pos i)
unfolding get_sts_index
get_sts_index-name name i h =
    rw (get_sts_index, cut_last-cluster_statefulset_name name i) (parse_int-format_uint i h)

get_elem-below : (xs : List Text) (i : ℕ) → i < length xs → (x : Text) × (get_elem? xs i ≡ some x)
get_elem-below [] i h = absurd (omega (arith, h))
get_elem-below (x ∷ xs) zero h = (x, refl)
get_elem-below (x ∷ xs) (suc i) h = get_elem-below xs i (omega (arith, h))

-- The zone at an index, and the zone due to the stateful set of a node.
abbrev pub zone_of_index : List Text → Option ℤ → Option Text
zone_of_index zones none = none
zone_of_index zones (some i) = zone_at zones i

abbrev pub zone_due : List Text → Node → Option Text
zone_due zones n = zone_of_index zones (get_sts_index n.stateful_set)

-- The node does not stand in the zone due to its stateful set.
abbrev pub outside : Node → Option Text → Bool
outside n none = true
outside n (some z) = not (same n.zone_name z)

abbrev pub misplaced_in : List Text → Node → Bool
misplaced_in zones n = outside n (zone_due zones n)

-- The node is one of a stateful set of the cluster.
abbrev pub IsFiled : Text → Node → Type 0
IsFiled name n = (i : ℕ) × (n.stateful_set ≡ cluster_statefulset_name name i) × (i < 2 ^ 63)

zone_at-some :
    (zones : List Text) (i : ℕ) → 0 < length zones → (z : Text) × (zone_at zones (pos i) ≡ some z)
unfolding zone_at
zone_at-some zones i h =
    let e : (length zones == 0) ≡ false = ground arith in
    let (z, f) =
      get_elem-below (sort_texts zones) (i % length zones)
        (omega (arith, length-sort_texts zones, h)) in
    (z, rw e f)

ha_round :
    (zones : List Text) (size placed : ℕ) (misplaced : List Node) (n : Node) (masters : List Node)
    (i : ℤ) (z : Text)
    → get_sts_index n.stateful_set ≡ some i
    → zone_at zones i ≡ some z
    → build_ha_loop zones size placed misplaced (n ∷ masters)
      ≡ build_ha_loop zones size
          (if misplaced_in zones n then placed else placed + 1)
          (if misplaced_in zones n then misplaced ++ n ∷ [] else misplaced)
          masters
unfolding build_ha_loop
ha_round zones size placed misplaced n masters i z h g = elim (Bool-cases (same n.zone_name z)) [
  | inl e ↦ rw (build_ha_loop, h, g, e) refl
  | inr e ↦ rw (build_ha_loop, h, g, e) refl
]

ha_loop :
    (zones : List Text) (name : Text) (size placed : ℕ) (misplaced masters : List Node)
    → 0 < length zones
    → All (IsFiled name) masters
    → (k : ℕ) × (k + length (keep (misplaced_in zones) masters) ≡ length masters)
      × (build_ha_loop zones size placed misplaced masters
          ≡ finish_ha_status size (placed + k) (misplaced ++ keep (misplaced_in zones) masters))
unfolding build_ha_loop
ha_loop zones name size placed misplaced [] z h = (0, refl, ground (arith, append-nil misplaced))
ha_loop zones name size placed misplaced (n ∷ masters) pos_zones ((i, e, lt), h) =
    let index = ap get_sts_index e ∙ get_sts_index-name name i lt in
    let (z, g) = zone_at-some zones i pos_zones in
    let one = ha_round zones size placed misplaced n masters (pos i) z index g in
    elim (Bool-cases (misplaced_in zones n)) [
      | inl m ↦
          let (k, l, r) =
            ha_loop zones name size placed (misplaced ++ n ∷ []) masters pos_zones h in
          (
            k,
            ground arith,
            ground (arith, append_assoc misplaced (n ∷ []) (keep (misplaced_in zones) masters)),
          )
      | inr m ↦
          let (k, l, r) = ha_loop zones name size (placed + 1) misplaced masters pos_zones h in
          (k + 1, ground arith, ground arith)
    ]

finish_healthy :
    (size : ℕ) (misplaced : List Node)
    → finish_ha_status size size misplaced ≡ ha_built ha_healthy [] none
unfolding finish_ha_status
finish_healthy size misplaced = ground arith

finish_redistribute :
    (size placed : ℕ) (misplaced : List Node)
    → placed < size
    → finish_ha_status size placed misplaced
      ≡ ha_built ha_redistribute misplaced (some not_suitable)
unfolding finish_ha_status
finish_redistribute size placed misplaced h = ground arith

abbrev pub masters_in : List Node → List Node
masters_in nodes = keep (λ n. same n.role redis_master_role) nodes

build_ha_status_loop :
    (zones : List Text) (nodes : List Node) (size : ℕ)
    → 0 < size
    → length (masters_in nodes) ≡ size
    → build_ha_status zones nodes size ≡ build_ha_loop zones size 0 [] (masters_in nodes)
unfolding build_ha_status get_nodes_by_func
build_ha_status_loop zones nodes size h len = elim (List-cases (masters_in nodes)) [
  | inl e ↦ absurd (ground arith)
  | inr (m, ms, e) ↦ ground arith
]

-- With some zone configured, as many masters as asked for and each master in a stateful set of the
-- cluster, buildHAStatus returns a healthy status when every master stands in the zone due to its
-- stateful set, and otherwise asks to redistribute, with exactly the masters that do not.
pub build_ha_status_lem :
    (zones : List Text) (name : Text) (nodes : List Node) (master_size : ℕ)
    → 0 < length zones
    → 0 < master_size
    → length (masters_in nodes) ≡ master_size
    → All (IsFiled name) (masters_in nodes)
    → ((keep (misplaced_in zones) (masters_in nodes) ≡ [])
        × (build_ha_status zones nodes master_size ≡ ha_built ha_healthy [] none))
      ⊎ ((keep (misplaced_in zones) (masters_in nodes) ≢ [])
          × (build_ha_status zones nodes master_size
              ≡ ha_built ha_redistribute
                  (keep (misplaced_in zones) (masters_in nodes))
                  (some not_suitable)))
build_ha_status_lem zones name nodes size some_zone some_master len filed =
    let (k, l, r) = ha_loop zones name size 0 [] (masters_in nodes) some_zone filed in
    let whole = build_ha_status_loop zones nodes size some_master len ∙ r in
    elim (List-cases (keep (misplaced_in zones) (masters_in nodes))) [
      | inl e ↦
          let all_placed : 0 + k ≡ size = ground arith in
          inl (
            e,
            whole
                ∙ rw all_placed
                    (finish_healthy size (keep (misplaced_in zones) (masters_in nodes))),
          )
      | inr (m, ms, e) ↦
          let fewer : 0 + k < size = ground arith in
          inr (
            (λ f. absurd (cc)),
            whole
                ∙ finish_redistribute size (0 + k) (keep (misplaced_in zones) (masters_in nodes))
                    fewer,
          )
    ]

first_in_zone-zone :
    (zone : Text) (nodes : List Node) (m : Node)
    → first_in_zone zone nodes ≡ some m
    → same m.zone_name zone ≡ true
unfolding first_in_zone
first_in_zone-zone zone [] m h = absurd (cc)
first_in_zone-zone zone (n ∷ nodes) m h = ground (arith, first_in_zone-zone zone nodes m)

-- A master that PlaceMastersHA picks for a stateful set of the cluster is in the zone that
-- buildHAStatus expects it in, when its node is filed under that stateful set and the index is below
-- 2 ^ 63.
pub place_masters_ha-in_zone :
    (c : Ctx) (i : ℕ) (m : Node)
    → i < 2 ^ 63
    → m.stateful_set ≡ cluster_statefulset_name c.cluster_name i
    → place_masters_ha c i m.stateful_set ≡ some (some m)
    → misplaced_in c.zones m ≡ false
unfolding place_masters_ha zone_at
place_masters_ha-in_zone c i m lt e h =
    let index = ap get_sts_index e ∙ get_sts_index-name c.cluster_name i lt in
    elim (Bool-cases (length c.zones == 0)) [
      | inl z ↦ absurd (ground arith)
      | inr z ↦ elim (Option-cases (get_elem? (sort_texts c.zones) (i % length c.zones))) [
        | inl f ↦ absurd (ground arith)
        | inr (zone, f) ↦
            ground (arith, first_in_zone-zone zone (slice_at m.stateful_set c.nodes) m, index)
      ]
    ]
