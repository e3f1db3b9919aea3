-- ===== src/Heal/Split/Main.antt =====
-- The main cluster that splitMainCluster of controllers/heal/clustersplit.go elects.
use mathlib.Core.Path.{subst}
use rediscluster_operator.Base.{
  ℕ, suc, ◌<◌, ◌≤◌, Bool, true, false, ◌≡◌, refl, sym, ap, ◌∙◌, List, [], ◌∷◌, ◌++◌, Option, none,
  some, ltb, if◌then◌else◌, length, erase_idx, get_elem?, length-append, append-nil, append_assoc,
  All, All-snoc, All-append, All-map, Bool-cases, inl, inr, arith,
}
use rediscluster_operator.Heal.{Cluster}
use rediscluster_operator.Heal.Split.{main_loop, split_at, split_main_cluster}

-- Some cluster has a node.
unfoldable pub has_nodes : List Cluster → Bool
has_nodes [] = false
has_nodes (c ∷ clusters) = if ltb 0 (length c) then true else has_nodes clusters

abbrev Below : ℕ → List Cluster → Type 0
Below n cs = All (λ c. length c < n) cs

abbrev UpTo : ℕ → List Cluster → Type 0
UpTo n cs = All (λ c. length c ≤ n) cs

-- The cluster `m` stands in `p` between the shorter ones and those that are not longer.
record Elected (p : List Cluster) (k max : ℕ) : Type 0 where
  before : List Cluster
  main : Cluster
  after : List Cluster
  parts : p ≡ before ++ main ∷ after
  index : length before ≡ k
  size : length main ≡ max
  some_node : 0 < max
  shorter : Below max before
  bound : UpTo max after

-- What the loop knows after the clusters `p`.
Best : List Cluster → Option ℕ → ℕ → Type 0
Best p none max = (max ≡ 0) × UpTo 0 p
Best p (some k) max = Elected p k max

Best-UpTo : (p : List Cluster) (o : Option ℕ) (max : ℕ) → Best p o max → UpTo max p
unfolding Best
Best-UpTo p none max b = All-map p (λ c h. omega (arith, b.0)) b.1
Best-UpTo p (some k) max b = subst (UpTo max) (sym b.parts) (
    All-append (λ c. length c ≤ max) b.before (b.main ∷ b.after)
      (All-map b.before (λ c h. omega arith) b.shorter) (omega (arith, b.size), b.bound))

start : Best [] none 0
unfolding Best
start = (refl, tt)

main_loop_lem :
    (rest p : List Cluster) (o : Option ℕ) (max : ℕ)
    → Best p o max
    → (max' : ℕ) × Best (p ++ rest) (main_loop (length p) o max rest) max'
unfolding main_loop Best
main_loop_lem [] p o max b = (max, subst (λ q. Best q o max) (sym (append-nil p)) b)
main_loop_lem (c ∷ rest) p o max b = elim (Bool-cases (ltb max (length c))) [
  | inl bigger ↦
      let next : Elected (p ++ c ∷ []) (length p) (length c) = record {
        before = p;
        main = c;
        after = [];
        parts = refl;
        index = refl;
        size = refl;
        some_node = ground arith;
        shorter = All-map p (λ d h. ground arith) (Best-UpTo p o max b);
        bound = tt;
      } in
      rw bigger (
        moved (some (length p)) (length c)
          (main_loop_lem rest (p ++ c ∷ []) (some (length p)) (length c) next))
  | inr not_bigger ↦
      rw not_bigger (moved o max (main_loop_lem rest (p ++ c ∷ []) o max (stay o b not_bigger)))
]
  where
    moved :
        (o' : Option ℕ) (max' : ℕ)
        → (max'' : ℕ) × Best
            ((p ++ c ∷ []) ++ rest)
            (main_loop (length (p ++ c ∷ [])) o' max' rest)
            max''
        → (max'' : ℕ) × Best (p ++ c ∷ rest) (main_loop (suc (length p)) o' max' rest) max''
    moved o' max' (m, r) =
        let size : length (p ++ c ∷ []) ≡ suc (length p) =
          omega (arith, length-append p (c ∷ [])) in
        let order : (p ++ c ∷ []) ++ rest ≡ p ++ c ∷ rest = append_assoc p (c ∷ []) rest in
        (m, rw (size, order) at r)

    stay : (o' : Option ℕ) → Best p o' max → ltb max (length c) ≡ false → Best (p ++ c ∷ []) o' max
    stay none b' e = (b'.0, All-snoc (λ d. length d ≤ 0) p c b'.1 (ground (arith, b'.0)))
    stay (some k) b' e = record {
      before = b'.before;
      main = b'.main;
      after = b'.after ++ c ∷ [];
      parts = ap (λ q. q ++ c ∷ []) b'.parts ∙ append_assoc b'.before (b'.main ∷ b'.after) (c ∷ []);
      index = b'.index;
      size = b'.size;
      some_node = b'.some_node;
      shorter = b'.shorter;
      bound = All-snoc (λ d. length d ≤ max) b'.after c b'.bound (ground arith);
    }

get_elem-middle :
    (b : List Cluster) (m : Cluster) (a : List Cluster) → get_elem? (b ++ m ∷ a) (length b) ≡ some m
get_elem-middle [] m a = refl
get_elem-middle (x ∷ b) m a = get_elem-middle b m a

erase_idx-middle :
    (b : List Cluster) (m : Cluster) (a : List Cluster) → erase_idx (b ++ m ∷ a) (length b) ≡ b ++ a
erase_idx-middle [] m a = refl
erase_idx-middle (x ∷ b) m a = ap (λ r. x ∷ r) (erase_idx-middle b m a)

split_at-middle :
    (b : List Cluster) (m : Cluster) (a : List Cluster)
    → split_at (b ++ m ∷ a) (some (length b)) ≡ (m, b ++ a)
unfolding split_at
split_at-middle [] m a = refl
split_at-middle (x ∷ b) m a = rw (get_elem-middle b m a, erase_idx-middle b m a) refl

no_nodes : (clusters : List Cluster) → UpTo 0 clusters → has_nodes clusters ≡ false
unfolding has_nodes
no_nodes [] u = refl
no_nodes (c ∷ clusters) u = ground (arith, u.0, no_nodes clusters u.1)

-- A split in which the main cluster is the first of the largest ones.
abbrev pub FirstLargest : List Cluster → Cluster × List Cluster → Type 0
FirstLargest clusters (main, bad) =
    (before : List Cluster) × (after : List Cluster) × (clusters ≡ before ++ main ∷ after)
    × (bad ≡ before ++ after)
    × (0 < length main)
    × All (λ c. length c < length main) before
    × All (λ c. length c ≤ length main) after

elected :
    (clusters : List Cluster) (o : Option ℕ) (max : ℕ)
    → has_nodes clusters ≡ true
    → Best clusters o max
    → FirstLargest clusters (split_at clusters o)
unfolding Best
elected clusters none max h b = let e = no_nodes clusters b.1 in cc
elected clusters (some k) max h b =
    let e : split_at clusters (some k) ≡ (b.main, b.before ++ b.after) =
      ap (λ p. split_at p (some k)) b.parts
      ∙ ap (λ i. split_at (b.before ++ b.main ∷ b.after) (some i)) (sym b.index)
      ∙ split_at-middle b.before b.main b.after in
    subst (FirstLargest clusters) (sym e) (
      b.before,
      b.after,
      b.parts,
      refl,
      omega (arith, b.size, b.some_node),
      All-map b.before (λ c h. omega (arith, b.size)) b.shorter,
      All-map b.after (λ c h. omega (arith, b.size)) b.bound,
    )

-- When some cluster has a node, splitMainCluster elects the first of the largest clusters, which
-- has a node, and returns the others in their order.
pub split_main_cluster-FirstLargest :
    (clusters : List Cluster)
    → has_nodes clusters ≡ true
    → FirstLargest clusters (split_main_cluster clusters)
unfolding split_main_cluster
split_main_cluster-FirstLargest clusters h =
    let (max, b) = main_loop_lem clusters [] none 0 start in
    elected clusters (main_loop 0 none 0 clusters) max h b
