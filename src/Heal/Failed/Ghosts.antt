-- ===== src/Heal/Failed/Ghosts.antt =====
-- The nodes that listGhostNodes of controllers/heal/failednodes.go takes for gone.
use rediscluster_operator.Base.{
  ℕ, ◌+◌, ◌*◌, ◌/◌, ◌<◌, Bool, true, false, ◌&&◌, ◌≡◌, refl, ◌∙◌, List, [], ◌∷◌, Option, none, some,
  Text, same, same_iff, lookup, insert, lookup-insert, leb, ltb, if◌then◌else◌, Bool-cases, inl,
  inr, arith,
}
use rediscluster_operator.Nodes.{Node, has_status, node_status_no_addr, node_status_fail}
use rediscluster_operator.Heal.{NodeInfos}
use rediscluster_operator.Heal.Failed.{
  bump, detect_friend, detect_friends, detect, ghosts_of, list_ghost_nodes,
}

listed : Text → List Text → Bool
listed id [] = false
listed id (i ∷ ids) = if same i id then true else listed id ids

-- The flags `noaddr` and `fail` that a view shows for the id.
flags_of_friends : Text → List Node → ℕ
flags_of_friends id [] = 0
flags_of_friends id (n ∷ friends) =
    (if same n.id id
      then (if has_status n node_status_no_addr then 1 else 0)
        + (if has_status n node_status_fail then 1 else 0)
      else 0)
    + flags_of_friends id friends

-- The same for all the views.
flags : Text → List NodeInfos → ℕ
flags id [] = 0
flags id (i ∷ infos) = flags_of_friends id i.friends + flags id infos

counter : Text → List (Text × ℕ) → ℕ
counter id m = elim (lookup id m) [ none ↦ 0 | some c ↦ c ]

-- Each key stands once, with a count that is not zero.
Counts : List (Text × ℕ) → Type 0
Counts [] = Unit
Counts ((id, c) ∷ m) = (0 < c) × (lookup id m ≡ none) × Counts m

counter-bump :
    (id k : Text) (m : List (Text × ℕ))
    → counter k (bump id m) ≡ counter k m + (if same id k then 1 else 0)
unfolding counter bump
counter-bump id k m =
    ground (arith, same_iff id k, lookup-insert id k 1 m, lookup-insert id k (counter id m + 1) m)

insert-Counts :
    (id : Text) (c : ℕ) (m : List (Text × ℕ)) → 0 < c → Counts m → Counts (insert id c m)
unfolding Counts insert lookup
insert-Counts id c [] p f = (p, refl, tt)
insert-Counts id c ((j, d) ∷ m) p f = elim (Bool-cases (same j id)) [
  | inl e ↦ rw e (p, f.1, f.2)
  | inr e ↦ rw e (
    f.0,
    lookup-insert id j c m ∙ ground (arith, same_iff id j, same_iff j id, f.1),
    insert-Counts id c m p f.2,
  )
]

bump-Counts : (id : Text) (m : List (Text × ℕ)) → Counts m → Counts (bump id m)
unfolding bump
bump-Counts id m f = go (lookup id m)
  where
    go : (o : Option ℕ) → Counts (elim o [ none ↦ insert id 1 m | some c ↦ insert id (c + 1) m ])
    go none = insert-Counts id 1 m (omega arith) f
    go (some c) = insert-Counts id (c + 1) m (omega arith) f

friend-Counts : (m : List (Text × ℕ)) (n : Node) → Counts m → Counts (detect_friend m n)
unfolding detect_friend
friend-Counts m n f =
    let m' : List (Text × ℕ) = if has_status n node_status_no_addr then bump n.id m else m in
    go (has_status n node_status_fail) m' (go (has_status n node_status_no_addr) m f)
  where
    go : (b : Bool) (l : List (Text × ℕ)) → Counts l → Counts (if b then bump n.id l else l)
    go true l g = bump-Counts n.id l g
    go false l g = g

counter-friend :
    (k : Text) (m : List (Text × ℕ)) (n : Node)
    → counter k (detect_friend m n)
      ≡ counter k m
        + (if same n.id k
            then (if has_status n node_status_no_addr then 1 else 0)
              + (if has_status n node_status_fail then 1 else 0)
            else 0)
unfolding detect_friend
counter-friend k m n = ground (arith, counter-bump n.id k m, counter-bump n.id k (bump n.id m))

friends_lem :
    (k : Text) (friends : List Node) (m : List (Text × ℕ))
    → Counts m
    → Counts (detect_friends m friends)
      × (counter k (detect_friends m friends) ≡ counter k m + flags_of_friends k friends)
unfolding detect_friends flags_of_friends
friends_lem k [] m f = (f, omega arith)
friends_lem k (n ∷ friends) m f =
    let r = friends_lem k friends (detect_friend m n) (friend-Counts m n f) in
    (r.0, omega (arith, r.1, counter-friend k m n))

detect_lem :
    (k : Text) (infos : List NodeInfos) (m : List (Text × ℕ))
    → Counts m
    → Counts (detect m infos) × (counter k (detect m infos) ≡ counter k m + flags k infos)
unfolding detect flags
detect_lem k [] m f = (f, omega arith)
detect_lem k (i ∷ infos) m f =
    let (g, e) = friends_lem k i.friends m f in
    let r = detect_lem k infos (detect_friends m i.friends) g in (r.0, omega (arith, r.1, e))

listed-ghosts_of :
    (k : Text) (t : ℕ) (m : List (Text × ℕ))
    → Counts m
    → listed k (ghosts_of t m) ≡ (leb t (counter k m) && ltb 0 (counter k m))
unfolding listed ghosts_of counter lookup Counts
listed-ghosts_of k t [] f = ground arith
listed-ghosts_of k t ((j, c) ∷ m) f =
    ground (arith, same_iff j k, f.0, f.1, listed-ghosts_of k t m f.2)

-- In whatever order the views are visited, a node is a ghost exactly when some view flags it and
-- the flags `noaddr` and `fail` that all the views show for it, a view with both counting twice,
-- are at least half the number of the pods, rounded down.
list_ghost_nodes_lem :
    (cluster_replicas master_size : ℕ) (infos : List NodeInfos) (id : Text)
    → listed id (list_ghost_nodes cluster_replicas master_size infos)
      ≡ (leb ((cluster_replicas + 1) * master_size / 2) (flags id infos) && ltb 0 (flags id infos))
unfolding list_ghost_nodes Counts counter lookup
list_ghost_nodes_lem cluster_replicas master_size infos id =
    let t = (cluster_replicas + 1) * master_size / 2 in
    let (f, e) = detect_lem id infos [] tt in
    let all_flags : counter id (detect [] infos) ≡ flags id infos = omega (arith, e) in
    listed-ghosts_of id t (detect [] infos) f ∙ rw all_flags refl
