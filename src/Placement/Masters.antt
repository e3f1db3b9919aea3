-- ===== src/Placement/Masters.antt =====
-- DispatchMasters of controllers/clustering/placement_v2.go: the masters that it chooses.
use mathlib.Core.Path.{subst}
use rediscluster_operator.Base.{
  ◌⊎◌, Option, none, [], ◌∷◌, ◌++◌, same, ap, ℕ, zero, suc, ◌+◌, ◌^◌, ◌<◌, ◌≤◌, Bool, true, false,
  ◌≡◌, refl, sym, ◌∙◌, inl, inr, List, some, Text, same_refl, ==_iff, lookup, insert, lookup-insert,
  ◌==◌, Bool-cases, arith,
}
use rediscluster_operator.Nodes.{Node}
use rediscluster_operator.Placement.{
  masters_of, Ctx, Dispatched, placed, missing_statefulset, unable_to_place, split_brain, panicked,
  dispatch_master, dispatch_masters_loop, dispatch_masters,
}
use rediscluster_operator.Placement.Names.{names_differ}
use rediscluster_operator.Placement.Choice.{
  with_masters, sts_name, Chosen, Crowded, master_round, Chosen_mono,
}

abbrev pub held_by : Option Node → List Node
held_by none = []
held_by (some m) = m ∷ []

-- The masters of the stateful sets before an index.
abbrev pub earlier : Ctx → List (Text × Node) → ℕ → List Node
earlier c ms zero = []
earlier c ms (suc i) = earlier c ms i ++ held_by (lookup (sts_name c i) ms)

earlier_same :
    (c : Ctx) (ms ms' : List (Text × Node)) (i : ℕ)
    → ((j : ℕ) → j < i → lookup (sts_name c j) ms' ≡ lookup (sts_name c j) ms)
    → earlier c ms i ≡ earlier c ms' i
earlier_same c ms ms' zero h = refl
earlier_same c ms ms' (suc i) h =
    ap (λ (l : List Node). l ++ held_by (lookup (sts_name c i) ms))
      (earlier_same c ms ms' i (λ j below. h j (omega (arith, below))))
    ∙ ap (λ (o : Option Node). earlier c ms' i ++ held_by o) (sym (h i (omega arith)))

masters_of-insert :
    (k : Text) (m : Node) (ms : List (Text × Node))
    → lookup k ms ≡ none
    → masters_of (insert k m ms) ≡ masters_of ms ++ m ∷ []
unfolding masters_of lookup insert
masters_of-insert k m [] h = refl
masters_of-insert k m ((j, n) ∷ ms) h = elim (Bool-cases (same j k)) [
  | inl e ↦ let q : some n ≡ none = rw e at h in absurd (cc)
  | inr e ↦ rw e (ap (λ (l : List Node). n ∷ l) (masters_of-insert k m ms (rw e at h)))
]

-- Before round `i`: the masters are those of the stateful sets before `i`, in order.
abbrev InOrder : Ctx → List (Text × Node) → ℕ → Type 0
InOrder c ms i =
    (masters_of ms ≡ earlier c ms i)
    × ((j : ℕ) → i ≤ j → j < 2 ^ 64 → lookup (sts_name c j) ms ≡ none)

-- After the rounds from `i` to below `to`: these stateful sets have a master that is chosen well, the
-- others keep what they have, and the flag is set only for a crowded set.
abbrev Done : Ctx → List (Text × Node) → Bool → ℕ → ℕ → Ctx → Type 0
Done c ms b i to c' =
    (ms' : List (Text × Node)) × (b' : Bool) × (c' ≡ with_masters c ms' b')
    × (b ≡ true → b' ≡ true)
    × ((j : ℕ)
        → i ≤ j
        → j < to
        → (m : Node) × (lookup (sts_name c j) ms' ≡ some m) × Chosen c (earlier c ms' j) j m b')
    × ((j : ℕ) → j < i → lookup (sts_name c j) ms' ≡ lookup (sts_name c j) ms)
    × ((k : Text)
        → ((j : ℕ) → i ≤ j → j < to → same (sts_name c j) k ≡ false)
        → lookup k ms' ≡ lookup k ms)
    × ((b' ≡ b) ⊎ ((b' ≡ true) × ((j : ℕ) × (j < to) × Crowded c (earlier c ms' j) j)))

-- The loop goes on from what its first round leaves.
placed_injective : (i : ℕ) (x y : Ctx) → dispatch_masters_loop zero i x ≡ placed y → x ≡ y
unfolding dispatch_masters_loop
placed_injective i x y h = cc

loop_first :
    (rounds i : ℕ) (x c' : Ctx)
    → dispatch_masters_loop (suc rounds) i x ≡ placed c'
    → (y : Ctx) × (dispatch_master x i ≡ placed y)
      × (dispatch_masters_loop rounds (suc i) y ≡ placed c')
unfolding dispatch_masters_loop
loop_first rounds i x c' h = go (dispatch_master x i) refl h
  where
    go :
        (d : Dispatched)
        → dispatch_master x i ≡ d
        → (elim d [ placed y ↦ dispatch_masters_loop rounds (suc i) y | other ↦ other ]) ≡ placed c'
        → (y : Ctx) × (dispatch_master x i ≡ placed y)
          × (dispatch_masters_loop rounds (suc i) y ≡ placed c')
    go (placed y) e k = (y, e, k)
    go (missing_statefulset s) e k = absurd (cc)
    go (unable_to_place s) e k = absurd (cc)
    go (split_brain s) e k = absurd (cc)
    go panicked e k = absurd (cc)

lookup_here : (k : Text) (m : Node) (ms : List (Text × Node)) → lookup k (insert k m ms) ≡ some m
lookup_here k m ms = lookup-insert k k m ms ∙ rw (same_refl k) refl

lookup_other :
    (c : Ctx) (i j : ℕ) (m : Node) (ms : List (Text × Node))
    → i < 2 ^ 64
    → j < i
    → lookup (sts_name c j) (insert (sts_name c i) m ms) ≡ lookup (sts_name c j) ms
lookup_other c i j m ms lt below =
    ground
      (arith, lookup-insert (sts_name c i) (sts_name c j) m ms, names_differ c.cluster_name i j)

insert-InOrder :
    (c : Ctx) (ms : List (Text × Node)) (m : Node) (i : ℕ)
    → i < 2 ^ 64
    → InOrder c ms i
    → InOrder c (insert (sts_name c i) m ms) (suc i)
insert-InOrder c ms m i lt (same_masters, free) = (
  masters_of-insert (sts_name c i) m ms (free i (omega arith) lt)
      ∙ ap (λ (l : List Node). l ++ m ∷ [])
          (same_masters
            ∙ earlier_same c ms (insert (sts_name c i) m ms) i
                (λ j below. lookup_other c i j m ms lt below))
      ∙ ap (λ (o : Option Node). earlier c (insert (sts_name c i) m ms) i ++ held_by o)
          (sym (lookup_here (sts_name c i) m ms)),
  λ j le below. ground (
    arith,
    lookup-insert (sts_name c i) (sts_name c j) m ms,
    names_differ c.cluster_name i j lt below,
    free j (omega (arith, le)) below,
  ),
)

rounds_end :
    (rounds : ℕ) (c : Ctx) (ms : List (Text × Node)) (b : Bool) (i : ℕ) (c' : Ctx)
    → i + rounds < 2 ^ 64
    → InOrder c ms i
    → dispatch_masters_loop rounds i (with_masters c ms b) ≡ placed c'
    → Done c ms b i (i + rounds) c'
rounds_end zero c ms b i c' lt order h = (
  ms,
  b,
  sym (placed_injective i (with_masters c ms b) c' h),
  λ t. t,
  λ j le below. absurd (omega arith),
  λ j below. refl,
  λ k apart. refl,
  inl refl,
)
rounds_end (suc rounds) c ms b i c' lt order h =
    let (y, first, rest) = loop_first rounds i (with_masters c ms b) c' h in
    let (m, b1, eq, flag, chosen) = master_round c ms b i y first in
    let ms1 = insert (sts_name c i) m ms in
    let up1 : b ≡ true → b1 ≡ true = λ t. ground (arith, flag, t) in
    let (ms', b', eq', up', done, before, others, flag') =
      rounds_end rounds c ms1 b1 (suc i) c' (omega arith)
        (insert-InOrder c ms m i (omega arith) order)
        (subst (λ z. dispatch_masters_loop rounds (suc i) z ≡ placed c') eq rest) in
    let before' : (j : ℕ) → j < i → lookup (sts_name c j) ms' ≡ lookup (sts_name c j) ms =
      λ j below. before j (omega arith) ∙ lookup_other c i j m ms (omega arith) below in
    let masters : masters_of ms ≡ earlier c ms' i = order.0 ∙ earlier_same c ms ms' i before' in
    (
      ms',
      b',
      eq',
      λ t. up' (up1 t),
      λ j le below. elim (Bool-cases (j == i)) [
        | inl same_index ↦
            subst
              (λ k.
                (m : Node) × (lookup (sts_name c k) ms' ≡ some m)
                × Chosen c (earlier c ms' k) k m b')
              (sym ((==_iff j i).0 same_index))
              (
                m,
                before i (omega arith) ∙ lookup_here (sts_name c i) m ms,
                subst (λ l. Chosen c l i m b') masters
                    (Chosen_mono c (masters_of ms) i m b1 b' up' chosen),
              )
        | inr later ↦ done j (ground arith) (omega arith)
      ],
      before',
      λ k apart.
          others k (λ j le below. apart j (omega (arith, le)) (omega (arith, below)))
          ∙ lookup-insert (sts_name c i) k m ms
          ∙ rw (apart i (omega arith) (omega arith)) refl,
      elim flag' [
        | inr (t, (j, below, crowded)) ↦ inr (t, (j, omega (arith, below), crowded))
        | inl p ↦ elim flag [
          | inl q ↦ inl (p ∙ q)
          | inr (q, crowded) ↦
              inr (p ∙ q, (i, omega arith, subst (λ l. Crowded c l i) masters crowded))
        ]
      ],
    )

-- The new masters of a context: one for each expected stateful set, chosen well next to those of the
-- sets before it, and no other; the flag is as it was, or some set is crowded.
abbrev pub IsPlaced : Ctx → Ctx → Type 0
IsPlaced c c' =
    (ms : List (Text × Node)) × (b : Bool) × (c' ≡ with_masters c ms b)
    × ((i : ℕ)
        → i < c.expected_master_num
        → (m : Node) × (lookup (sts_name c i) ms ≡ some m) × Chosen c (earlier c ms i) i m b)
    × ((k : Text)
        → ((i : ℕ) → i < c.expected_master_num → same (sts_name c i) k ≡ false)
        → lookup k ms ≡ none)
    × ((b ≡ c.best_effort)
        ⊎ ((b ≡ true) × ((i : ℕ) × (i < c.expected_master_num) × Crowded c (earlier c ms i) i)))

-- When DispatchMasters succeeds from a context with no new masters, as NewCtx makes it, for fewer than
-- 2 ^ 64 masters, each of the expected stateful sets has a new master, one of its nodes: the only one
-- that holds slots, or, where none does, a node in the zone due to the set while the cluster is made
-- with high availability, and otherwise one on a VM with neither a current master nor the new master
-- of an earlier set; where every node of the set is on such a VM, it is the first one, and
-- `bestEffort` is set. No other name has a new master, `bestEffort` is changed only by a set whose
-- nodes are all on such VMs, and nothing else of the context changes.
pub dispatch_masters_lem :
    (c c' : Ctx)
    → c.new_masters_by_sts ≡ []
    → c.expected_master_num < 2 ^ 64
    → dispatch_masters c ≡ placed c'
    → IsPlaced c c'
unfolding dispatch_masters masters_of lookup
dispatch_masters_lem c c' fresh lt h =
    let none_in : (k : Text) → lookup k c.new_masters_by_sts ≡ none = λ k. rw fresh refl in
    let order : InOrder c c.new_masters_by_sts 0 =
      (rw fresh refl, λ j le below. none_in (sts_name c j)) in
    let (ms, b, eq, up, done, before, others, flag) =
      rounds_end c.expected_master_num c c.new_masters_by_sts c.best_effort 0 c' (omega arith) order
        h in
    (
      ms,
      b,
      eq,
      λ i below. done i (omega arith) (omega arith),
      λ k apart. others k (λ j le below. apart j (omega (arith, below))) ∙ none_in k,
      elim flag [
        | inl p ↦ inl p
        | inr (t, (j, below, crowded)) ↦ inr (t, (j, omega (arith, below), crowded))
      ],
    )
