-- ===== src/View.antt =====
-- utils/redisutil/clusterinfo.go: what a node says of the cluster (CLUSTER NODES), and whether the
-- views of all the nodes agree.
-- The views are a list in the order in which the map is visited. Slices of slots are never nil.
pub mod Agree
pub mod Words
pub mod Lines
use rediscluster_operator.Base.Int.{ℤ}
use rediscluster_operator.Base.Strings.{split, contains_byte}
use rediscluster_operator.Base.Parse.{cut_last, parse_int, leb_text}
use rediscluster_operator.Base.Maps.{deep_equal}
use rediscluster_operator.Base.{
  ℕ, Bool, true, false, ◌&&◌, ◌||◌, not, List, [], ◌∷◌, ◌++◌, Option, none, some, Text, txt, same,
  insert, ◌==◌, if◌then◌else◌, sort, map,
}
use rediscluster_operator.Slots.Decode.{MovingSlot, Decoded, decode_slot_range}
use rediscluster_operator.Nodes.{
  Node, new_default_node, set_role, set_failure_status, set_referent_master, set_link_status,
  redis_master_role, ip_port,
}
use rediscluster_operator.Heal.{NodeInfos}
use rediscluster_operator.Heal.Untrusted.{get_nodes}

-- splitHostPort
unfoldable pub split_host_port : Text → Option (Text × Text)
split_host_port address = cut_last b':' address

abbrev has_bracket : Text → Bool
has_bracket s = contains_byte b'[' s || contains_byte b']' s

-- The host that stands before the last colon.
unfoldable pub host_and_port : Text → Text → Option (Text × Text)
host_and_port [] port = some ([], port)
host_and_port (c ∷ r) port =
    if c == b'['
    then (elim (cut_last b']' r) [
      | none ↦ none
      | some (h, rest) ↦ if has_bracket h || not (same rest []) then none else some (h, port)
    ])
    else if contains_byte b':' (c ∷ r) || has_bracket (c ∷ r)
    then none
    else some (c ∷ r, port)

-- net.SplitHostPort of the library: the last colon, a host in brackets or with no colon.
unfoldable pub net_split_host_port : Text → Option (Text × Text)
unfolding host_and_port
net_split_host_port s = elim (cut_last b':' s) [
  | none ↦ none
  | some (before, port) ↦ if has_bracket port then none else host_and_port before port
]

-- strings.HasPrefix
unfoldable pub has_prefix : Text → Text → Bool
has_prefix s [] = true
has_prefix [] (p ∷ prefix) = false
has_prefix (c ∷ s) (p ∷ prefix) = (c == p) && has_prefix s prefix

-- `m[slot] = id`
unfoldable pub put_slot : ℕ → Text → List (ℕ × Text) → List (ℕ × Text)
put_slot s id [] = (s, id) ∷ []
put_slot s id ((t, v) ∷ m) = if t == s then (t, id) ∷ m else (t, v) ∷ put_slot s id m

abbrev put_moving : Option MovingSlot → List (ℕ × Text) → List (ℕ × Text)
put_moving none m = m
put_moving (some s) m = put_slot s.slot_id s.node_id m

-- One slot word of a line; a word that cannot be decoded is skipped. `none`: it does not end.
unfoldable pub decode_slot_word : Node → Text → Option Node
unfolding put_slot
decode_slot_word n word = elim (decode_slot_range word) [
  | none ↦ none
  | some d ↦ elim d.err [
    | some _ ↦ some n
    | none ↦ some (record n {
      slots = n.slots ++ d.slots;
      importing_slots = put_moving d.importing n.importing_slots;
      migrating_slots = put_moving d.migrating n.migrating_slots;
    })
  ]
]

unfoldable pub decode_slot_words : Node → List Text → Option Node
decode_slot_words n [] = some n
decode_slot_words n (word ∷ words) = elim (decode_slot_word n word) [
  | none ↦ none
  | some n' ↦ decode_slot_words n' words
]

-- The address word, up to the cluster port. An error leaves the node as it is.
unfoldable pub decode_address : Text → Node → Text → Node
unfolding split_host_port net_split_host_port
decode_address addr n word = elim (split b'@' word) [
  | [] ↦ n
  | w ∷ _ ↦ elim (split_host_port w) [
    | none ↦ n
    | some (ip, port) ↦ record n {
      ip =
          if same ip []
          then (elim (net_split_host_port addr) [ none ↦ [] | some (host, _) ↦ host ])
          else ip;
      port = port;
    }
  ]
]

-- `if i, err := strconv.ParseInt(word, 10, 64); err == nil { field = i }`
abbrev parsed_or : ℤ → Text → ℤ
parsed_or old word = elim (parse_int word) [ none ↦ old | some i ↦ i ]

-- The first eight words of a line: id, address, flags, master, ping, pong, epoch and link.
unfoldable pub decode_head : Text → Text → Text → Text → Text → Text → Text → Text → Text → Node
unfolding decode_address
decode_head addr id address flags master ping pong epoch link =
    let n1 = decode_address addr (record new_default_node { id = id }) address in
    let n2 = set_referent_master (set_failure_status (set_role n1 flags).0 flags) master in
    let n3 : Node = record n2 {
      ping_sent = parsed_or n2.ping_sent ping;
      pong_recv = parsed_or n2.pong_recv pong;
      config_epoch = parsed_or n2.config_epoch epoch;
    } in
    (set_link_status n3 link).0

-- One line in words: fewer than eight are ignored.
unfoldable pub decode_line : Text → NodeInfos → List Text → Option NodeInfos
unfolding decode_head has_prefix
decode_line addr infos (id ∷ address ∷ flags ∷ master ∷ ping ∷ pong ∷ epoch ∷ link ∷ slots) =
    elim (decode_slot_words (decode_head addr id address flags master ping pong epoch link) slots) [
      | none ↦ none
      | some n ↦ some (
          if has_prefix flags (txt "myself")
          then record infos { node = n }
          else record infos { friends = infos.friends ++ n ∷ [] })
    ]
decode_line addr infos _ = some infos

unfoldable pub decode_lines : Text → NodeInfos → List Text → Option NodeInfos
decode_lines addr infos [] = some infos
decode_lines addr infos (line ∷ lines) = elim (decode_line addr infos (split b' ' line)) [
  | none ↦ none
  | some infos' ↦ decode_lines addr infos' lines
]

-- DecodeNodeInfos, from NewNodeInfos. `none` means that BuildSlotSlice does not end.
unfoldable pub decode_node_infos : Text → Text → Option NodeInfos
decode_node_infos input addr =
    decode_lines addr (record { node = new_default_node; friends = [] }) (split b'\n' input)

-- The states of a ClusterInfos.
pub data InfosStatus : Type 0 where
  unset partial inconsistent consistent : InfosStatus

-- SortByFunc(LessByID). sort.Sort may order equal ids in any way; this keeps their order.
unfoldable pub insert_by_id : Node → List Node → List Node
insert_by_id n [] = n ∷ []
insert_by_id n (m ∷ nodes) = if leb_text n.id m.id then n ∷ m ∷ nodes else m ∷ insert_by_id n nodes

unfoldable pub sort_by_id : List Node → List Node
sort_by_id [] = []
sort_by_id (n ∷ nodes) = insert_by_id n (sort_by_id nodes)

-- The loop of getConfigSignature, from the signature made so far.
unfoldable pub signature_loop : List (Text × List ℕ) → List Node → List (Text × List ℕ)
signature_loop s [] = s
signature_loop s (n ∷ nodes) =
    signature_loop (if same n.role redis_master_role then insert (ip_port n) n.slots s else s) nodes

-- getConfigSignature
unfoldable pub get_config_signature : List Node → List (Text × List ℕ)
get_config_signature nodes = signature_loop [] nodes

-- The signature of a node's own view.
unfoldable pub view_signature : NodeInfos → List (Text × List ℕ)
view_signature i = get_config_signature (sort_by_id (i.friends ++ i.node ∷ []))

-- The slots of a node stand in the signature of these nodes: no master after it has its address.
unfoldable pub is_shown : List Node → Node → Bool
is_shown [] n = same n.role redis_master_role
is_shown (m ∷ nodes) n =
    is_shown nodes n
    && not
        (same m.role redis_master_role && same (ip_port m) (ip_port n) && not (leb_text m.id n.id))

-- The text of a signature sorts the slices of its slots in place (SlotRangesFromSlots).
unfoldable pub sort_shown : List Node → Node → Node
sort_shown nodes n = if is_shown nodes n then record n { slots = sort n.slots } else n

-- A view after its signature was printed.
unfoldable pub printed : NodeInfos → NodeInfos
printed i =
    let nodes = i.friends ++ i.node ∷ [] in
    record { node = sort_shown nodes i.node; friends = map (sort_shown nodes) i.friends }

-- The signature of what the nodes say of themselves.
unfoldable pub consolidated_signature : List NodeInfos → List (Text × List ℕ)
consolidated_signature infos = get_config_signature (sort_by_id (get_nodes infos))

-- The loop of ComputeStatus, from the views visited so far and the status. The signature of each view
-- is printed before it is compared, and the consolidated one holds the slices of the nodes as they
-- are then. A view that differs has its message print both: the status is settled by then.
unfoldable pub compare_views : List NodeInfos → InfosStatus → List NodeInfos → InfosStatus
compare_views visited status [] = status
compare_views visited status (i ∷ infos) =
    let p = printed i in
    compare_views (visited ++ p ∷ [])
      (if deep_equal (consolidated_signature (visited ++ p ∷ infos)) (view_signature p)
        then status
        else inconsistent)
      infos

-- The end of ComputeStatus: a status that the loop left unset is consistent.
abbrev pub settled : InfosStatus → InfosStatus × Bool
settled unset = (consistent, true)
settled status = (status, false)

-- ComputeStatus: the new status, and the result. What it leaves in the slices of the views is not kept.
unfoldable pub compute_status : InfosStatus → List NodeInfos → InfosStatus × Bool
compute_status unset infos = settled (compare_views [] unset infos)
compute_status status infos = (status, false)
