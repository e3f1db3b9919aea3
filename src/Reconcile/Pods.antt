-- ===== src/Reconcile/Pods.antt =====
-- checkandUpdatePods and what it calls, of controllers/distributedrediscluster/sync_handler.go.
-- What Redis and Kubernetes answer is a parameter; the map of connections is a list in the order of
-- the visit. An index below -1 of a slice of words does not occur: strings.Split returns one at least.
pub mod Guarded
use rediscluster_operator.Base.Int.{ℤ, pos, negsuc}
use rediscluster_operator.Base.Parse.{parse_int}
use rediscluster_operator.Base.Strings.{split}
use rediscluster_operator.Base.{
  ℕ, zero, suc, ◌+◌, ◌-◌, Bool, true, false, ◌&&◌, ◌||◌, not, List, [], ◌∷◌, ◌++◌, Option, none,
  some, Text, txt, same, lookup, ltb, ◌==◌, if◌then◌else◌, length, get_elem?, ◌⊎◌, inl, inr,
}
use rediscluster_operator.View.{has_prefix}
use rediscluster_operator.Placement.{cluster_statefulset_name}
use rediscluster_operator.Status.Build
use rediscluster_operator.Reconcile.{
  Step, History, deleted_pod, labelled_pod, annotated_pod, awaited, M, ◌>>=◌, ◌>>◌, pure, return,
  panic, emit, ask, return_if, or_panic, call,
}
use rediscluster_operator.Reconcile.Errors.{Err, Library, kubernetes, wrap, foreign}

-- What is read of a pod.
pub record Pod : Type 0 where
  pub built : Build.Pod
  pub phase : Text
  pub labels : List (Text × Text)

-- clusterPods
unfoldable pub cluster_pods : List Pod → List Pod
cluster_pods [] = []
cluster_pods (p ∷ pods) =
    if same p.phase (txt "Running") then p ∷ cluster_pods pods else cluster_pods pods

-- strings.Contains
unfoldable pub contains_text : Text → Text → Bool
contains_text [] part = has_prefix [] part
contains_text (c ∷ s) part = has_prefix (c ∷ s) part || contains_text s part

-- The replication information of a node (INFO), the connection to it, the revision of a stateful set,
-- the pods and the waiting for an update. `none` of a call is success.
pub record PodClients (Q E : Type 0) : Type 0 where
  pub connections : History Q → List Text
  pub connect : History Q → Text → Option (Err E)
  pub info : History Q → Text → Err E ⊎ Text
  pub revision : History Q → Text → Err E ⊎ Text
  pub delete_pod : History Q → Text → Option (Err E)
  pub label_pod : History Q → Text → Text → Option (Err E)
  pub await : History Q → Text → Option (Err E)

-- What checkandUpdatePods and updatePodIfNeeded return.
abbrev pub Answer : Type 0 → Type 0
Answer E = Bool × Option (Err E)

abbrev pub master_role : Text
master_role = txt "Master"

abbrev pub slave_role : Text
slave_role = txt "Slave"

-- `strings.Index(ip, ":")` and the slice before it, where the index is above 0.
unfoldable pub before_colon : Text → Text
before_colon ip = elim (split b':' ip) [
  | [] ↦ ip
  | host ∷ rest ↦ if ltb 0 (length host) && ltb 0 (length rest) then host else ip
]

-- `words[len(words)-back]`; `none` is a panic.
unfoldable pub from_end : List Text → ℕ → Option Text
from_end words back =
    if ltb (length words) back then none else get_elem? words (length words - back)

-- `hashes[i]`; `none` is a panic.
unfoldable pub hash_at : List Text → ℤ → Option Text
hash_at hashes (pos i) = get_elem? hashes i
hash_at hashes (negsuc i) = none

abbrev pub has_label : Text → Text → List (Text × Text) → Bool
has_label key value labels = elim (lookup key labels) [ none ↦ false | some v ↦ same v value ]

abbrev pub succeeds : {E : Type 0} → Option (Err E) → Bool
succeeds none = true
succeeds (some e) = false

-- The label with the revision of the pod, empty where there is none.
abbrev pub label_of : Pod → Text
label_of pod = elim (lookup (txt "controller-revision-hash") pod.labels) [ none ↦ [] | some v ↦ v ]

-- `words[len(words)-1]` where there is one.
abbrev pub last_words : List Text → List Text
last_words words = elim (from_end words 1) [ none ↦ [] | some v ↦ v ∷ [] ]

module _ {Q E : Type 0} (lib : Library E) (w : PodClients Q E) where
  abbrev pub fails : {A : Type 0} → Err E → M Q (Answer E) A
  fails e = return (false, some e)

  abbrev pub unless_error : Option (Err E) → M Q (Answer E) (Unit {0})
  unless_error err = return_if err (λ e. (false, some e))

  abbrev pub or_fail : {A : Type 0} → Err E ⊎ A → M Q (Answer E) A
  or_fail (inl e) = fails e
  or_fail (inr a) = pure a

  -- IsSlaveReady
  unfoldable pub is_slave_ready : Text → M Q (Answer E) (Answer E)
  is_slave_ready ip = do
    err ← ask (λ h. w.connect h ip)
    unless_error err
    answer ← ask (λ h. w.info h ip)
    info ← or_fail answer
    pure (
      not (contains_text info (txt "master_sync_in_progress:1"))
          && (not (contains_text info (txt "master_host:127.0.0.1"))
              && contains_text info (txt "master_link_status:up")),
      none,
    )

  -- setRoleLabelIfNeeded
  unfoldable pub set_role_label_if_needed : Pod → Text → M Q (Answer E) (Unit {0})
  set_role_label_if_needed pod role =
      if has_label (txt "role") role pod.labels then pure tt else (do
        err ← ask (λ h. w.label_pod h pod.built.name role)
        emit (labelled_pod pod.built.name role)
        unless_error err)

  -- setPodAnnotationIfNeeded
  unfoldable pub set_pod_annotation_if_needed : Text → Pod → M Q (Answer E) (Unit {0})
  set_pod_annotation_if_needed role pod =
      if same role master_role
      then emit (annotated_pod pod.built.name (txt "false"))
      else if same role slave_role
      then emit (annotated_pod pod.built.name (txt "true"))
      else fails (foreign (lib.new (txt "setPodAnnotationIfNeeded - invalid role")))

  -- strconv.Atoi with the error of updatePodIfNeeded.
  unfoldable pub identifier_of : Text → Err E ⊎ ℤ
  identifier_of word = elim (parse_int word) [
    | none ↦ inl (foreign (lib.new (txt "unable to convert pod hash identifier to int")))
    | some i ↦ inr i
  ]

  -- updatePodIfNeeded on a pod with its hash and the revision of its stateful set.
  unfoldable pub settle_pod : Pod → Text → Text → Text → M Q (Answer E) (Answer E)
  settle_pod pod hash revision role =
      if not (same revision hash)
      then (do
        err ← ask (λ h. w.delete_pod h pod.built.name)
        emit (deleted_pod pod.built.name (succeeds err))
        unless_error err
        pure (true, none))
      else (do
        set_role_label_if_needed pod role
        set_pod_annotation_if_needed role pod
        pure (false, none))

  abbrev pub few_words : List Text → Option (Err E)
  few_words words =
      if ltb (length words) 3 then some (foreign (lib.new (txt "pod hash is invalid"))) else none

  -- The rest of updatePodIfNeeded on the pod with the address.
  unfoldable pub update_pod : Pod → List Text → Text → M Q (Answer E) (Answer E)
  update_pod pod hashes role = do
    word ← or_panic (from_end (split b'-' pod.built.name) 2)
    index ← or_fail (identifier_of word)
    let words = split b'-' (label_of pod)
    unless_error (few_words words)
    hash ← or_panic (from_end words 1)
    revision ← or_panic (hash_at hashes index)
    settle_pod pod hash revision role

  -- updatePodIfNeeded: the loop over the pods for the address.
  unfoldable pub find_and_update : Text → List Pod → List Text → Text → M Q (Answer E) (Answer E)
  find_and_update ip [] hashes role = fails (foreign (lib.new (txt "pod not found")))
  find_and_update ip (pod ∷ pods) hashes role =
      if same ip pod.built.pod_ip
      then update_pod pod hashes role
      else find_and_update ip pods hashes role

  -- updatePodIfNeeded
  unfoldable pub update_pod_if_needed :
      Text → List Pod → List Text → Text → M Q (Answer E) (Answer E)
  update_pod_if_needed ip pods hashes role = find_and_update (before_colon ip) pods hashes role

  -- getRedisIPsByRole: the masters and the slaves found so far.
  unfoldable pub ips_by_role :
      List Text → List Text → List Text → M Q (Answer E) (List Text × List Text)
  ips_by_role masters slaves [] = pure (masters, slaves)
  ips_by_role masters slaves (addr ∷ addrs) = do
    answer ← ask (λ h. w.info h addr)
    info ← or_fail answer
    let is_master = contains_text info (txt "role:master")
    let is_slave = not is_master && contains_text info (txt "role:slave")
    ips_by_role (if is_master then masters ++ addr ∷ [] else masters)
        (if is_slave then slaves ++ addr ∷ [] else slaves) addrs

  -- getStatefulsetUpdatedRevision, from index `i`: the hashes and the error.
  unfoldable pub updated_revisions :
      Text → ℕ → ℕ → List Text → History Q → List Text × Option (Err E)
  updated_revisions name zero i hashes h = (hashes, none)
  updated_revisions name (suc rounds) i hashes h =
      elim (w.revision h (cluster_statefulset_name name i)) [
        | inl e ↦ (hashes, some (wrap lib kubernetes (some e) (txt "GetStatefulSet")))
        | inr revision ↦
            updated_revisions name rounds (suc i) (hashes ++ last_words (split b'-' revision)) h
      ]

  -- The loop over the slaves: `ok`, `updated` and `err` as they are after it.
  unfoldable pub slave_loop :
      List Pod
      → List Text
      → List Text
      → Bool
      → Bool
      → Option (Err E)
      → M Q (Answer E) (Bool × Bool × Option (Err E))
  slave_loop pods hashes [] ok updated err = pure (ok, updated, err)
  slave_loop pods hashes (ip ∷ ips) ok updated err = do
    ready ← call (is_slave_ready ip)
    unless_error ready.1
    r ←
        (if ready.0
          then call (update_pod_if_needed ip pods hashes slave_role)
          else pure (updated, none))
    unless_error r.1
    slave_loop pods hashes ips ready.0 r.0 none

  -- The wait for the stateful sets.
  unfoldable pub wait_updated : M Q (Answer E) (Unit {0})
  wait_updated = do
    err ← ask (λ h. w.await h (txt "waitStatefulSetUpdating"))
    emit (awaited (txt "waitStatefulSetUpdating"))
    unless_error err

  -- The loop over the masters: it ends at the first one that is updated.
  unfoldable pub master_loop :
      List Pod → List Text → List Text → Option (Err E) → M Q (Answer E) (Answer E)
  master_loop pods hashes [] err = pure (false, err)
  master_loop pods hashes (ip ∷ ips) err = do
    r ← call (update_pod_if_needed ip pods hashes master_role)
    (if r.0 then (do wait_updated; pure (true, r.1)) else master_loop pods hashes ips r.1)

  -- checkandUpdatePods on the addresses by role and the revisions.
  unfoldable pub update_by_role :
      List Pod → List Text × List Text → List Text × Option (Err E) → M Q (Answer E) (Answer E)
  update_by_role pods ips revisions = do
    s ← slave_loop pods revisions.0 ips.1 false false revisions.1
    (if s.1
        then (do wait_updated; pure (true, none))
        else if not s.0
        then pure (true, s.2)
        else master_loop pods revisions.0 ips.0 s.2)

  -- checkandUpdatePods
  unfoldable pub check_and_update_pods : Text → ℕ → List Pod → M Q (Answer E) (Answer E)
  check_and_update_pods name master_size pods = do
    addrs ← ask w.connections
    ips ← ips_by_role [] [] addrs
    revisions ← ask (updated_revisions name master_size 0 [])
    update_by_role pods ips revisions
