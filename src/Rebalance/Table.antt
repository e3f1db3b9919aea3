-- ===== src/Rebalance/Table.antt =====
-- computeReshardTable and the moves of one round of RebalancedCluster, which has one source.
use rediscluster_operator.Base.{
  ℕ, zero, suc, ◌+◌, ◌-◌, ◌*◌, ◌/◌, ◌<◌, ◌≤◌, true, false, ◌≡◌, refl, sym, ap, List, [], ◌∷◌, ◌++◌,
  some, length, arith, append-nil, append_assoc, take, drop, get_elem?, length-append, length-take,
}
use native.Mathlib.Nat.{add-mul-div_right, div-eq_of_lt}
use rediscluster_operator.Nodes.{Node, total_slots}
use rediscluster_operator.Slots.{remove_slot}
use rediscluster_operator.Slots.Edit.{remove_slot-erase}
use rediscluster_operator.Rebalance.{
  Command, Admin, MovedNode, share, tot_slots, table_keys, table_loop, sort_by_slots,
  insert_by_slots, compute_reshard_table, move_slot, move_all,
}

-- The table that moves the given slots off one source.
unfoldable pub off : Node → List ℕ → List MovedNode
off source [] = []
off source (s ∷ slots) = record { source = source; slot = s } ∷ off source slots

length-off : (source : Node) (slots : List ℕ) → length (off source slots) ≡ length slots
unfolding off
length-off source [] = refl
length-off source (s ∷ slots) = ap suc (length-off source slots)

-- The share of the only source is all that is asked for.
share_lem : (k t : ℕ) → 0 < t → share true k t t ≡ k
share_lem k t h =
    let below : (t - 1) / t ≡ 0 = div-eq_of_lt (omega arith) in
    let order : k * t + (t - 1) ≡ t - 1 + k * t = omega arith in
    rw (order, add-mul-div_right (t - 1) k h, below) (omega arith)

get-drop :
    (i : ℕ) (xs : List ℕ)
    → i < length xs
    → (x : ℕ) × (get_elem? xs i ≡ some x) × (drop i xs ≡ x ∷ drop (suc i) xs)
get-drop i [] h = absurd (omega arith)
get-drop zero (x ∷ xs) h = (x, refl, refl)
get-drop (suc i) (x ∷ xs) h = get-drop i xs (omega arith)

table_keys_lem :
    (rounds i : ℕ) (source : Node) (k : ℕ) (moved : List MovedNode)
    → i + rounds ≤ total_slots source
    → length moved + rounds ≤ k
    → table_keys rounds i source k moved
      ≡ some (moved ++ off source (take rounds (drop i source.slots)))
unfolding table_keys off
table_keys_lem zero i source k moved h l = ap some (sym (append-nil moved))
table_keys_lem (suc rounds) i source k moved h l =
    let (x, g, d) = get-drop i source.slots (omega arith) in
    let e : MovedNode = record { source = source; slot = x } in
    ground (
      arith,
      g,
      d,
      length-append moved (e ∷ []),
      table_keys_lem rounds (suc i) source k (moved ++ e ∷ []),
      append_assoc moved (e ∷ []) (off source (take rounds (drop (suc i) source.slots))),
    )

table_loop_one :
    (source : Node) (k t : ℕ) (r : List MovedNode)
    → share true k t (total_slots source) ≡ k
    → table_keys k 0 source k [] ≡ some r
    → table_loop true k t (source ∷ []) [] ≡ some r
unfolding table_loop
table_loop_one source k t r e h = rw (e, table_loop) (rw (h, table_loop) refl)

-- One source that has the slots: the table takes its first `k` slots, in order.
pub compute_reshard_table-one :
    (source : Node) (k : ℕ)
    → 0 < k
    → k ≤ total_slots source
    → compute_reshard_table (source ∷ []) k ≡ some (off source (take k source.slots))
unfolding compute_reshard_table sort_by_slots insert_by_slots tot_slots
compute_reshard_table-one source k pos le =
    let total : total_slots source + 0 ≡ total_slots source = omega arith in
    rw total (
      table_loop_one source k (total_slots source) (off source (take k source.slots))
        (share_lem k (total_slots source) (omega arith))
        (table_keys_lem k 0 source k [] (omega arith) (omega arith)))

remove_first : (x : ℕ) (xs : List ℕ) → remove_slot (x ∷ xs) x ≡ xs
remove_first x xs = rw (remove_slot-erase (x ∷ xs) x) (ground arith)

module _ (admin : Admin) (dst : Node)
    (ok : (s : List Command) (c : Command) → admin s c ≡ false) where
  move_slot-ok :
      (source : Node) (slot : ℕ) (sent : List Command)
      → (move_slot admin source dst slot sent).failed ≡ false
  unfolding move_slot
  move_slot-ok source slot sent = simp ok

  move_all-drop :
      (k : ℕ) (xs : List ℕ) (owner src : Node) (sent : List Command)
      → src.slots ≡ xs
      → let r =
          move_all admin dst
            (record { src = src; sent = sent; failed = false })
            (off owner (take k xs)) in
        (r.src.slots ≡ drop k xs) × (r.failed ≡ false)
  unfolding move_all off
  move_all-drop zero xs owner src sent e = (e, refl)
  move_all-drop (suc k) [] owner src sent e = (e, refl)
  move_all-drop (suc k) (x ∷ xs) owner src sent e = rw (move_slot-ok src x sent) (
      move_all-drop k xs owner (record src { slots = remove_slot src.slots x })
        (move_slot admin src dst x sent).sent (rw e (remove_first x xs)))

-- When no command fails, a reshard table for `k` slots (one at least) of a source that has as many
-- has `k` entries, its moves end with no error, and the source keeps all its slots but the first
-- `k`, in their order.
pub level-moves :
    (admin : Admin) (dst src : Node) (k : ℕ) (sent : List Command)
    → ((s : List Command) (c : Command) → admin s c ≡ false)
    → 0 < k
    → k ≤ total_slots src
    → (table : List MovedNode) × (compute_reshard_table (src ∷ []) k ≡ some table)
      × (length table ≡ k)
      × ((move_all admin dst (record { src = src; sent = sent; failed = false }) table).src.slots
          ≡ drop k src.slots)
      × ((move_all admin dst (record { src = src; sent = sent; failed = false }) table).failed
          ≡ false)
level-moves admin dst src k sent ok pos le =
    let (left, good) = move_all-drop admin dst ok k src.slots src src sent refl in
    (
      off src (take k src.slots),
      compute_reshard_table-one src k pos le,
      omega (arith, length-off src (take k src.slots), length-take k src.slots),
      left,
      good,
    )
