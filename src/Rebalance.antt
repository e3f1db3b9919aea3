-- ===== src/Rebalance.antt =====
-- controllers/clustering/rebalance.go: the first allocation of the slots, and the moves that level
-- the masters when a cluster grows. The slice of masters is a list of nodes: the nodes are reached
-- through that slice alone. Quotients of two float64 are exact fractions: slots and nodes are far
-- below 2 ^ 53.
pub mod Spread
pub mod Table
pub mod Allocation
pub mod Moves
use rediscluster_operator.Base.Int.{ℤ, pos, negsuc, abs, pos_part, sub_ℕ, ◌+ℤ◌, ◌-ℤ◌, ltb_ℤ}
use rediscluster_operator.Base.{
  ℕ, zero, suc, ◌+◌, ◌-◌, ◌*◌, ◌/◌, Bool, true, false, ◌&&◌, ◌||◌, List, [], ◌∷◌, ◌++◌, Option,
  none, some, Text, length, get_elem?, set, leb, ltb, ◌==◌, if◌then◌else◌, min,
}
use rediscluster_operator.Nodes.{Node, ip_port, total_slots}
use rediscluster_operator.Slots.{remove_slot, build_slot_slice}

-- The actions of SETSLOT.
pub data Action : Type 0 where
  importing migrating node : Action

-- The calls of IAdmin that are made here, with the arguments that differ.
pub data Command : Type 0 where
  add : Text → List ℕ → Command
  set_slot : Text → Action → ℕ → Text → Command
  migrate_keys : Text → Text → ℕ → Command

-- Whether the next command fails, after those sent so far (the latest first).
abbrev pub Admin : Type 0
Admin = List Command → Command → Bool

-- `node.SetBalance(len(node.Slots) - expected)` for each master.
unfoldable pub set_balances : ℕ → List Node → List Node
set_balances expected [] = []
set_balances expected (n ∷ nodes) =
    record n { balance = sub_ℕ (total_slots n) expected } ∷ set_balances expected nodes

unfoldable pub total_balance : List Node → ℤ
total_balance [] = pos 0
total_balance (n ∷ nodes) = n.balance +ℤ total_balance nodes

-- One pass of the loop that spreads a positive total over the masters that are short of slots.
unfoldable pub spread_round : List Node → ℤ → List Node × ℤ
spread_round [] total = ([], total)
spread_round (n ∷ nodes) total =
    let take_one = ltb_ℤ n.balance (pos 0) && ltb_ℤ (pos 0) total in
    let n' : Node = if take_one then record n { balance = n.balance -ℤ pos 1 } else n in
    let (rest, total') = spread_round nodes (if take_one then total -ℤ pos 1 else total) in
    (n' ∷ rest, total')

-- `for totalBalance > 0 { ... }`. `none` means that the fuel ran out.
unfoldable pub spread : ℕ → List Node → ℤ → Option (List Node)
spread zero nodes total = none
spread (suc fuel) nodes total = elim (ltb_ℤ (pos 0) total) [
  | true ↦ let (nodes', total') = spread_round nodes total in spread fuel nodes' total'
  | false ↦ some nodes
]

-- SortByFunc by balance. sort.Sort may order masters of equal balance in any way; this keeps them.
unfoldable pub insert_by_balance : Node → List Node → List Node
insert_by_balance n [] = n ∷ []
insert_by_balance n (m ∷ nodes) =
    if ltb_ℤ m.balance n.balance then m ∷ insert_by_balance n nodes else n ∷ m ∷ nodes

unfoldable pub sort_by_balance : List Node → List Node
sort_by_balance [] = []
sort_by_balance (n ∷ nodes) = insert_by_balance n (sort_by_balance nodes)

-- SortByFunc by the number of slots.
unfoldable pub insert_by_slots : Node → List Node → List Node
insert_by_slots n [] = n ∷ []
insert_by_slots n (m ∷ nodes) =
    if ltb (total_slots m) (total_slots n) then m ∷ insert_by_slots n nodes else n ∷ m ∷ nodes

unfoldable pub sort_by_slots : List Node → List Node
sort_by_slots [] = []
sort_by_slots (n ∷ nodes) = insert_by_slots n (sort_by_slots nodes)

-- MovedNode
pub record MovedNode : Type 0 where
  pub source : Node
  pub slot : ℕ

unfoldable pub tot_slots : List Node → ℕ
tot_slots [] = 0
tot_slots (n ∷ nodes) = total_slots n + tot_slots nodes

-- `for i := 0; i < int(n); i++` for one source, `rounds` of it left. `none` is the panic of
-- `keys[i]` out of range.
unfoldable pub table_keys : ℕ → ℕ → Node → ℕ → List MovedNode → Option (List MovedNode)
table_keys zero i source num_slots moved = some moved
table_keys (suc rounds) i source num_slots moved =
    let next = λ (m : List MovedNode). table_keys rounds (suc i) source num_slots m in
    if ltb (length moved) num_slots
    then elim (get_elem? source.slots i) [
      | none ↦ none
      | some slot ↦ next (moved ++ record { source = source; slot = slot } ∷ [])
    ]
    else next moved

-- The share of a source, rounded up for the first and down for the others.
abbrev pub share : Bool → ℕ → ℕ → ℕ → ℕ
share true num_slots total t = (num_slots * t + (total - 1)) / total
share false num_slots total t = num_slots * t / total

-- The loop of computeReshardTable over the sorted sources.
unfoldable pub table_loop : Bool → ℕ → ℕ → List Node → List MovedNode → Option (List MovedNode)
table_loop first num_slots total [] moved = some moved
table_loop first num_slots total (source ∷ sources) moved =
    elim (table_keys (share first num_slots total (total_slots source)) 0 source num_slots moved) [
      | none ↦ none
      | some moved' ↦ table_loop false num_slots total sources moved'
    ]

-- computeReshardTable
unfoldable pub compute_reshard_table : List Node → ℕ → Option (List MovedNode)
compute_reshard_table src num_slots =
    let sources = sort_by_slots src in table_loop true num_slots (tot_slots sources) sources []

-- The commands sent (the latest first) and whether an error was returned.
pub record Sent : Type 0 where
  pub sent : List Command
  pub failed : Bool

-- The calls of moveSlot. An error of the first three is returned, one of the last two is logged.
unfoldable pub move_slot : Admin → Node → Node → ℕ → List Command → Sent
move_slot admin source target slot sent =
    let c1 = set_slot (ip_port target) importing slot target.id in
    let c2 = set_slot (ip_port source) migrating slot source.id in
    let c3 = migrate_keys (ip_port source) target.id slot in
    let c4 = set_slot (ip_port target) node slot target.id in
    let c5 = set_slot (ip_port source) node slot target.id in
    if admin sent c1
    then record { sent = c1 ∷ sent; failed = true }
    else if admin (c1 ∷ sent) c2
    then record { sent = c2 ∷ c1 ∷ sent; failed = true }
    else if admin (c2 ∷ c1 ∷ sent) c3
    then record { sent = c3 ∷ c2 ∷ c1 ∷ sent; failed = true }
    else record { sent = c5 ∷ c4 ∷ c3 ∷ c2 ∷ c1 ∷ sent; failed = false }

-- The source, the commands and the outcome of the loop over the reshard table.
pub record Moving : Type 0 where
  pub src : Node
  pub sent : List Command
  pub failed : Bool

-- The loop over the table: each moveSlot that returns no error ends with RemoveSlot on the source.
unfoldable pub move_all : Admin → Node → Moving → List MovedNode → Moving
move_all admin dst m [] = m
move_all admin dst m (e ∷ table) =
    let r = move_slot admin m.src dst e.slot m.sent in
    let rest =
      move_all admin dst
        (record {
          src = record (m.src) { slots = remove_slot m.src.slots e.slot };
          sent = r.sent;
          failed = false;
        })
        table in
    if r.failed then record { src = m.src; sent = r.sent; failed = true } else rest

-- The variables of the loop of RebalancedCluster over the sorted masters.
pub record Level : Type 0 where
  pub masters : List Node
  pub dst_idx : ℕ
  pub src_idx : ℕ
  pub sent : List Command
  pub failed : Bool

abbrev pub is_zero : ℤ → Bool
is_zero (pos n) = n == 0
is_zero (negsuc n) = false

-- The end of a round: both balances move by `num_slots`, and an index moves where one is level.
unfoldable pub level_end : Level → Node → Node → ℕ → List Command → Level
level_end l dst src num_slots sent =
    let d = dst.balance +ℤ pos num_slots in
    let s = src.balance -ℤ pos num_slots in
    record {
      masters =
          set (set l.masters l.dst_idx (record dst { balance = d })) l.src_idx
            (record src { balance = s });
      dst_idx = if is_zero d then suc l.dst_idx else l.dst_idx;
      src_idx = if is_zero s then l.src_idx - 1 else l.src_idx;
      sent = sent;
      failed = false;
    }

-- One round for a target and a source. `none` is a panic.
unfoldable pub level_round : Admin → Level → Node → Node → Option Level
level_round admin l dst src =
    let num_slots = min (abs dst.balance) (abs src.balance) in
    if ltb 0 num_slots
    then elim (compute_reshard_table (src ∷ []) num_slots) [
      | none ↦ none
      | some table ↦
          let m = move_all admin dst (record { src = src; sent = l.sent; failed = false }) table in
          some (
            if m.failed
            then record l { masters = set l.masters l.src_idx m.src; sent = m.sent; failed = true }
            else level_end l dst m.src num_slots m.sent)
    ]
    else some (level_end l dst src num_slots l.sent)

-- `for dstIdx < srcIdx { ... }`. `none` is a panic, or means that the fuel ran out.
unfoldable pub level_loop : ℕ → Admin → Level → Option Level
level_loop zero admin l = none
level_loop (suc fuel) admin l = elim (ltb l.dst_idx l.src_idx) [
  | false ↦ some l
  | true ↦ elim (get_elem? l.masters l.dst_idx) [
    | none ↦ none
    | some dst ↦ elim (get_elem? l.masters l.src_idx) [
      | none ↦ none
      | some src ↦ elim (level_round admin l dst src) [
        | none ↦ none
        | some l' ↦ elim l'.failed [ true ↦ some l' | false ↦ level_loop fuel admin l' ]
      ]
    ]
  ]
]

-- RebalancedCluster, with fuel for its two loops. `cluster_slots` is GetHashMaxSlot() + 1.
unfoldable pub rebalanced_cluster : ℕ → ℕ → Admin → ℕ → List Node → Option Level
rebalanced_cluster fuel fuel' admin cluster_slots new =
    let nodes = set_balances (cluster_slots / length new) new in
    elim (spread fuel nodes (total_balance nodes)) [
      | none ↦ none
      | some nodes' ↦
          let sn = sort_by_balance nodes' in
          level_loop fuel' admin (record {
            masters = sn;
            dst_idx = 0;
            src_idx = length sn - 1;
            sent = [];
            failed = false;
          })
    ]
