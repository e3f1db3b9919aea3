-- ===== src/Status/Compare/Exact.antt =====
-- compareStatus and compareNodes of controllers/distributedrediscluster/status.go against the parts
-- of the status that they compare.
use rediscluster_operator.Base.{
  ℕ, ◌≡◌, refl, sym, ap, ◌∙◌, ◌↔◌, Bool, true, false, ◌&&◌, ◌||◌, not, List, [], ◌∷◌, Text, same,
  same_iff, same_refl, ◌==◌, if◌then◌else◌, length, arith, All, Bool-cases, inl, inr,
}
use rediscluster_operator.Nodes.{RedisRole, role_master, role_slave, role_none}
use rediscluster_operator.Placement.{
  HaStatus, ha_unset, ha_creating, ha_healthy, ha_redistribute, ha_failed,
}
use rediscluster_operator.Status.{StatusNode, ClusterStatus}
use rediscluster_operator.Status.Compare.{
  compare_string_value, compare_int32, ha_code, role_code, same_texts, compare_nodes, compare_with,
  compare_all, no_secrets, compare_status,
}

-- Some node has the id.
unfoldable pub has_id : Text → List StatusNode → Bool
has_id id [] = false
has_id id (n ∷ nodes) = same id n.id || has_id id nodes

same_texts_iff : (ss ts : List Text) → (same_texts ss ts ≡ true) ↔ (ss ≡ ts)
unfolding same_texts
same_texts_iff [] [] = ((λ h. refl), (λ h. refl))
same_texts_iff [] (t ∷ ts) = ((λ h. absurd (cc)), (λ h. absurd (cc)))
same_texts_iff (s ∷ ss) [] = ((λ h. absurd (cc)), (λ h. absurd (cc)))
same_texts_iff (s ∷ ss) (t ∷ ts) = (
  (λ h. ground (arith, same_iff s t, same_texts_iff ss ts)),
  (λ h. ground (arith, same_iff s t, same_refl s, same_texts_iff ss ts)),
)

role_code_iff : (r s : RedisRole) → role_code r ≡ role_code s → r ≡ s
role_code_iff role_master role_master h = refl
role_code_iff role_master role_slave h = absurd (omega (arith, h))
role_code_iff role_master role_none h = absurd (omega (arith, h))
role_code_iff role_slave role_master h = absurd (omega (arith, h))
role_code_iff role_slave role_slave h = refl
role_code_iff role_slave role_none h = absurd (omega (arith, h))
role_code_iff role_none role_master h = absurd (omega (arith, h))
role_code_iff role_none role_slave h = absurd (omega (arith, h))
role_code_iff role_none role_none h = refl

-- What compareNodes compares.
abbrev pub Unchanged : StatusNode → StatusNode → Type 0
Unchanged a b =
    (a.ip ≡ b.ip)
    × (a.master_ref ≡ b.master_ref)
    × (a.pod_name ≡ b.pod_name)
    × (a.port ≡ b.port)
    × (a.role ≡ b.role)
    × (a.slots ≡ b.slots)

slots_equal :
    (ss ts : List Text)
    → (not (length ss == length ts) ≡ false)
    → ((not (length ss == 0) && not (same_texts ss ts)) ≡ false)
    → ss ≡ ts
slots_equal [] [] h k = refl
slots_equal [] (t ∷ ts) h k = absurd (ground arith)
slots_equal (s ∷ ss) ts h k = ground (arith, same_texts_iff (s ∷ ss) ts)

slots_kept :
    (ss ts : List Text)
    → ss ≡ ts
    → (not (length ss == length ts) ≡ false)
      × ((not (length ss == 0) && not (same_texts ss ts)) ≡ false)
slots_kept ss ts h = (ground (arith, ap length h), ground (arith, same_texts_iff ss ts, h))

compare_nodes_sound : (a b : StatusNode) → compare_nodes a b ≡ false → Unchanged a b
unfolding compare_nodes compare_string_value
compare_nodes_sound a b h = (
  ground (arith, same_iff a.ip b.ip),
  ground (arith, same_iff a.master_ref b.master_ref),
  ground (arith, same_iff a.pod_name b.pod_name),
  ground (arith, same_iff a.port b.port),
  role_code_iff a.role b.role (ground arith),
  slots_equal a.slots b.slots (ground arith) (ground arith),
)

compare_nodes_complete : (a b : StatusNode) → Unchanged a b → compare_nodes a b ≡ false
unfolding compare_nodes compare_string_value
compare_nodes_complete a b (i, m, p, q, r, s) =
    let kept = slots_kept a.slots b.slots s in
    ground (
      arith,
      same_iff a.ip b.ip,
      same_iff a.master_ref b.master_ref,
      same_iff a.pod_name b.pod_name,
      same_iff a.port b.port,
      i,
      m,
      p,
      q,
      ap role_code r,
      kept.0,
      kept.1,
    )

-- Some new node has the id of the old one, and each one that has it is unchanged.
abbrev pub Kept : List StatusNode → StatusNode → Type 0
Kept new a = (has_id a.id new ≡ true) × All (λ b. a.id ≡ b.id → Unchanged a b) new

compare_with_sound :
    (a : StatusNode) (found : Bool) (new : List StatusNode)
    → (compare_with a found new).0 ≡ false
    → ((compare_with a found new).1 ≡ (found || has_id a.id new))
      × All (λ b. a.id ≡ b.id → Unchanged a b) new
unfolding compare_with has_id
compare_with_sound a found [] h = (ground arith, tt)
compare_with_sound a found (b ∷ new) h = elim (Bool-cases (same a.id b.id)) [
  | inl e ↦ elim (Bool-cases (compare_nodes a b)) [
    | inl f ↦ absurd (ground arith)
    | inr f ↦
        let (rest, others) = compare_with_sound a true new (ground arith) in
        (ground arith, ((λ i. compare_nodes_sound a b f), others))
  ]
  | inr e ↦
      let (rest, others) = compare_with_sound a found new (ground arith) in
      (ground arith, ((λ i. absurd (ground (arith, same_iff a.id b.id))), others))
]

found_as : (x y : Bool) → x ≡ y → Path (Bool × Bool) (false, x) (false, y)
found_as x y h = ap (λ f. (false, f)) h

compare_with_complete :
    (a : StatusNode) (found : Bool) (new : List StatusNode)
    → All (λ b. a.id ≡ b.id → Unchanged a b) new
    → compare_with a found new ≡ (false, found || has_id a.id new)
unfolding compare_with has_id
compare_with_complete a found [] h = found_as found (found || false) (ground arith)
compare_with_complete a found (b ∷ new) h = elim (Bool-cases (same a.id b.id)) [
  | inl e ↦
      let same_node = compare_nodes_complete a b (h.0 ((same_iff a.id b.id).0 e)) in
      rw (compare_with, e, same_node)
        (compare_with_complete a true new h.1 ∙ found_as true (found || true) (ground arith))
  | inr e ↦ rw (compare_with, e) (compare_with_complete a found new h.1)
]

compare_all_sound : (old new : List StatusNode) → compare_all old new ≡ false → All (Kept new) old
unfolding compare_all
compare_all_sound [] new h = tt
compare_all_sound (a ∷ old) new h =
    let (found, others) = compare_with_sound a false new (ground arith) in
    ((ground arith, others), compare_all_sound old new (ground arith))

compare_all_complete :
    (old new : List StatusNode) → All (Kept new) old → compare_all old new ≡ false
unfolding compare_all
compare_all_complete [] new h = refl
compare_all_complete (a ∷ old) new ((found, others), h) =
    rw (compare_all, compare_with_complete a false new others, found)
      (compare_all_complete old new h)

-- The parts of the status other than the nodes.
abbrev pub SameHead : ClusterStatus → ClusterStatus → Type 0
SameHead old new =
    (old.status ≡ new.status)
    × (old.ha_status ≡ new.ha_status)
    × (old.secret_status ≡ new.secret_status)
    × (no_secrets old.secrets_ver ≡ false)
    × (old.reason ≡ new.reason)
    × (old.number_of_master ≡ new.number_of_master)
    × (length old.nodes ≡ length new.nodes)
    × (old.restore_phase ≡ new.restore_phase)

ha_code_iff : (r s : HaStatus) → ha_code r ≡ ha_code s → r ≡ s
ha_code_iff r s h = sym (ha_back r) ∙ ap ha_of h ∙ ha_back s
  where
    ha_of : ℕ → HaStatus
    ha_of n =
        if n == 0
        then ha_unset
        else if n == 1
        then ha_creating
        else if n == 2
        then ha_healthy
        else if n == 3
        then ha_redistribute
        else ha_failed

    ha_back : (t : HaStatus) → ha_of (ha_code t) ≡ t
    ha_back ha_unset = refl
    ha_back ha_creating = refl
    ha_back ha_healthy = refl
    ha_back ha_redistribute = refl
    ha_back ha_failed = refl

-- compareStatus leaves the status unwritten exactly when the old one has some secret versions, the two
-- agree in the status, its reason, the HA status, the secret status, the restore phase, the number
-- of masters and of nodes, and each old node has a new one with its id and with the same address, port,
-- role, slots, pod and master.
pub compare_status_iff :
    (old new : ClusterStatus)
    → (compare_status old new ≡ false) ↔ (SameHead old new × All (Kept new.nodes) old.nodes)
unfolding compare_status compare_string_value compare_int32
compare_status_iff old new = (
  λ h. (
    (
      ground (arith, same_iff old.status new.status),
      ha_code_iff old.ha_status new.ha_status (ground arith),
      ground (arith, same_iff old.secret_status new.secret_status),
      ground arith,
      ground (arith, same_iff old.reason new.reason),
      ground arith,
      ground arith,
      ground (arith, same_iff old.restore_phase new.restore_phase),
    ),
    compare_all_sound old.nodes new.nodes (ground arith),
  ),
  λ ((a, b, c, d, e, f, g, i), kept). ground (
    arith,
    same_iff old.status new.status,
    same_iff old.secret_status new.secret_status,
    same_iff old.reason new.reason,
    same_iff old.restore_phase new.restore_phase,
    ap ha_code b,
    compare_all_complete old.nodes new.nodes kept,
    a,
    c,
    d,
    e,
    f,
    g,
    i,
  ),
)
