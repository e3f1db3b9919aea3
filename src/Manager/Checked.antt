-- ===== src/Manager/Checked.antt =====
-- The checks of controllers/manager/checker.go against what they stand for.
use rediscluster_operator.Base.Maps.{IsMap}
use mathlib.Core.Path.{subst}
use rediscluster_operator.Base.{
  ==_iff, ℕ, zero, suc, ◌+◌, ◌≡◌, refl, sym, ap, ◌∙◌, ◌↔◌, ◌≢◌, ◌≤◌, ◌<◌, false, List, [], ◌∷◌,
  Option, none, some, Text, same_iff, same_refl, lookup, ◌==◌, arith, Bool-cases, Option-cases, inl,
  inr,
}
use rediscluster_operator.Placement.{cluster_statefulset_name}
use rediscluster_operator.Manager.{
  StatefulSet, check_statefulset, check_node_num_loop, check_redis_node_num, some_key_missing,
  some_value_differs, is_diff_acl_versions,
}

-- The stateful set at the index has the replicas asked for and its master, all ready.
abbrev pub IsReady : (Text → Option StatefulSet) → Text → ℕ → ℕ → Type 0
IsReady read cluster replicas i =
    read (cluster_statefulset_name cluster i)
    ≡ some (record { replicas = replicas + 1; ready_replicas = replicas + 1 })

check_statefulset_iff :
    (n : ℕ) (ss : StatefulSet)
    → (check_statefulset n ss ≡ none) ↔ (ss ≡ record { replicas = n; ready_replicas = n })
unfolding check_statefulset
check_statefulset_iff n ss = (
  λ h.
      let a : ss.replicas ≡ n = ground arith in
      let b : ss.ready_replicas ≡ n = ground arith in rw (a, b) refl,
  λ h. rw h (ground arith),
)

round_fails :
    (read : Text → Option StatefulSet) (cluster : Text) (replicas rounds i : ℕ)
    → check_node_num_loop read cluster replicas (suc rounds) i ≡ none
    → IsReady read cluster replicas i
      × (check_node_num_loop read cluster replicas rounds (suc i) ≡ none)
unfolding check_node_num_loop
round_fails read cluster replicas rounds i h =
    elim (Option-cases (read (cluster_statefulset_name cluster i))) [
      | inl e ↦ absurd (ground (arith, e))
      | inr (ss, e) ↦ elim (Option-cases (check_statefulset (replicas + 1) ss)) [
        | inl f ↦
            (e ∙ ap some ((check_statefulset_iff (replicas + 1) ss).0 f), ground (arith, e, f))
        | inr (err, f) ↦ absurd (ground (arith, e, f))
      ]
    ]

round_passes :
    (read : Text → Option StatefulSet) (cluster : Text) (replicas rounds i : ℕ)
    → IsReady read cluster replicas i
    → check_node_num_loop read cluster replicas (suc rounds) i
      ≡ check_node_num_loop read cluster replicas rounds (suc i)
unfolding check_node_num_loop
round_passes read cluster replicas rounds i h =
    let ss : StatefulSet = record { replicas = replicas + 1; ready_replicas = replicas + 1 } in
    rw (check_node_num_loop, h, (check_statefulset_iff (replicas + 1) ss).1 refl) refl

check_loop_sound :
    (read : Text → Option StatefulSet) (cluster : Text) (replicas rounds i : ℕ)
    → check_node_num_loop read cluster replicas rounds i ≡ none
    → (j : ℕ) → i ≤ j
    → j < i + rounds
    → IsReady read cluster replicas j
check_loop_sound read cluster replicas zero i h j le lt = absurd (omega (arith, le, lt))
check_loop_sound read cluster replicas (suc rounds) i h j le lt =
    let (here, later) = round_fails read cluster replicas rounds i h in
    elim (Bool-cases (i == j)) [
      | inl e ↦ subst (IsReady read cluster replicas) ((==_iff i j).0 e) here
      | inr e ↦
          check_loop_sound read cluster replicas rounds (suc i) later j (ground arith)
            (omega (arith, lt))
    ]

check_loop_complete :
    (read : Text → Option StatefulSet) (cluster : Text) (replicas rounds i : ℕ)
    → ((j : ℕ) → i ≤ j → j < i + rounds → IsReady read cluster replicas j)
    → check_node_num_loop read cluster replicas rounds i ≡ none
unfolding check_node_num_loop
check_loop_complete read cluster replicas zero i h = refl
check_loop_complete read cluster replicas (suc rounds) i h =
    round_passes read cluster replicas rounds i (h i (omega arith) (omega arith))
    ∙ check_loop_complete read cluster replicas rounds (suc i)
        (λ j le lt. h j (omega (arith, le)) (omega (arith, lt)))

-- CheckRedisNodeNum returns no error exactly when the stateful set of every index below the number of
-- masters can be read and has one more replica than a master has slaves, all of them ready.
pub check_redis_node_num_iff :
    (read : Text → Option StatefulSet) (cluster : Text) (replicas master_size : ℕ)
    → (check_redis_node_num read cluster replicas master_size ≡ none)
      ↔ ((i : ℕ) → i < master_size → IsReady read cluster replicas i)
unfolding check_redis_node_num
check_redis_node_num_iff read cluster replicas master_size = (
  λ h i lt.
      check_loop_sound read cluster replicas master_size 0 h i (omega arith) (omega (arith, lt)),
  λ h. check_loop_complete read cluster replicas master_size 0 (λ j le lt. h j (omega (arith, lt))),
)

known_of :
    (m other : List (Text × Text)) (k v : Text)
    → some_key_missing m other ≡ false
    → lookup k m ≡ some v
    → lookup k other ≢ none
unfolding some_key_missing lookup
known_of [] other k v h e n = absurd (cc)
known_of ((j, w) ∷ m) other k v h e n =
    absurd (ground (arith, same_iff j k, known_of m other k v, e, h, n))

value_of :
    (m other : List (Text × Text)) (k v w : Text)
    → some_value_differs m other ≡ false
    → lookup k m ≡ some v
    → lookup k other ≡ some w
    → v ≡ w
unfolding some_value_differs lookup
value_of [] other k v w h e f = absurd (cc)
value_of ((j, u) ∷ m) other k v w h e f =
    ground (arith, same_iff j k, same_iff u w, value_of m other k v w, e, h, f)

none_missing :
    (m other : List (Text × Text))
    → IsMap m
    → ((k v : Text) → lookup k m ≡ some v → lookup k other ≢ none)
    → some_key_missing m other ≡ false
unfolding some_key_missing lookup
none_missing [] other f h = refl
none_missing ((j, v) ∷ m) other f h = elim (Option-cases (lookup j other)) [
  | inl e ↦ absurd (h j v (rw (same_refl j) refl) e)
  | inr (w, e) ↦
      rw (some_key_missing, e)
        (none_missing m other f.1 (λ k u g. h k u (ground (arith, same_iff j k, f.0))))
]

none_differs :
    (m other : List (Text × Text))
    → IsMap m
    → ((k v w : Text) → lookup k m ≡ some v → lookup k other ≡ some w → v ≡ w)
    → some_value_differs m other ≡ false
unfolding some_value_differs lookup
none_differs [] other f h = refl
none_differs ((j, v) ∷ m) other f h =
    let later = none_differs m other f.1 (λ k u w g. h k u w (ground (arith, same_iff j k, f.0))) in
    elim (Option-cases (lookup j other)) [
      | inl e ↦ rw (some_value_differs, e) later
      | inr (w, e) ↦
          let equal = h j v w (rw (same_refl j) refl) e in
          ground (arith, same_iff v w, e, later, equal)
    ]

same_lookup :
    (m n : List (Text × Text))
    → is_diff_acl_versions m n ≡ false
    → (k : Text) → lookup k m ≡ lookup k n
unfolding is_diff_acl_versions
same_lookup m n h k =
    let forth : some_key_missing m n ≡ false = ground arith in
    let back : some_key_missing n m ≡ false = ground arith in
    let values : some_value_differs m n ≡ false = ground arith in
    elim (Option-cases (lookup k m)) [
      | inl e ↦ elim (Option-cases (lookup k n)) [
        | inl f ↦ e ∙ sym f
        | inr (w, f) ↦ absurd (known_of n m k w back f e)
      ]
      | inr (v, e) ↦ elim (Option-cases (lookup k n)) [
        | inl f ↦ absurd (known_of m n k v forth e f)
        | inr (w, f) ↦ e ∙ ap some (value_of m n k v w values e f) ∙ sym f
      ]
    ]

nothing_held : (v : Text) → some v ≡ none → ⊥
nothing_held v h = absurd (cc)

some_injective : (v w : Text) → some v ≡ some w → v ≡ w
some_injective v w h = cc

-- For two maps of secret versions IsdiffAclVerions is false exactly when they hold the same version, or
-- none, under every name.
pub is_diff_acl_versions_iff :
    (current latest : List (Text × Text))
    → IsMap current
    → IsMap latest
    → (is_diff_acl_versions current latest ≡ false)
      ↔ ((k : Text) → lookup k current ≡ lookup k latest)
unfolding is_diff_acl_versions
is_diff_acl_versions_iff m n f g = (
  same_lookup m n,
  λ h.
      let forth = none_missing m n f (λ k v e z. nothing_held v (sym e ∙ h k ∙ z)) in
      let back = none_missing n m g (λ k v e z. nothing_held v (sym e ∙ sym (h k) ∙ z)) in
      let values = none_differs m n f (λ k v w e z. some_injective v w (sym e ∙ h k ∙ z)) in
      ground (arith, forth, back, values),
)
