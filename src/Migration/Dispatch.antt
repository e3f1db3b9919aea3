-- ===== src/Migration/Dispatch.antt =====
-- DispatchSlotToNewMasters of controllers/clustering/migration.go: the commands that move the slots
-- of each entry of the plan, and what the operator notes of the slots of each node.
-- The Redis side is an IAdmin, given here by its answers: for the commands sent so far and the next
-- one, whether that one returns an error.
pub mod Order
pub mod Owners
use rediscluster_operator.Base.{
  ℕ, Bool, true, false, ◌||◌, List, [], ◌∷◌, ◌++◌, Option, none, some, Text, same, ◌==◌,
  if◌then◌else◌,
}
use rediscluster_operator.Nodes.{Node, ip_port, total_slots}
use rediscluster_operator.Nodes.Heap.{Heap, update}
use rediscluster_operator.Slots.{remove_slots, add_slots}
use rediscluster_operator.Migration.{Nodes}
use rediscluster_operator.Migration.Feed.{MigrationInfo}

-- The actions of SETSLOT that the operator uses.
pub data Action : Type 0 where
  importing migrating node : Action

-- The calls of IAdmin that are made here, with the arguments that differ.
pub data Command : Type 0 where
  add : Text → List ℕ → Command
  set_slots : Text → Action → List ℕ → Text → Command
  migrate_keys : Text → Text → List ℕ → Command

-- Whether the next command fails, after those sent so far (the latest first).
abbrev pub Admin : Type 0
Admin = List Command → Command → Bool

-- The nodes, the commands sent (the latest first), and whether an error was returned.
pub record Dispatch : Type 0 where
  pub heap : Heap
  pub sent : List Command
  pub failed : Bool

abbrev pub set_node_slots : Heap → ℕ → List ℕ → Heap
set_node_slots h p slots = update h p (record (h p) { slots = slots })

-- `4)` of the source: tell the other masters that still hold slots. Errors are only logged.
unfoldable pub tell_others : Heap → ℕ → ℕ → List ℕ → Nodes → List Command → List Command
tell_others h from to slots [] sent = sent
tell_others h from to slots (m ∷ all) sent = tell_others h from to slots all (
    if same (ip_port (h m)) (ip_port (h to)) || same (ip_port (h m)) (ip_port (h from))
    then sent
    else if total_slots (h m) == 0
    then sent
    else set_slots (ip_port (h m)) node slots (h to).id ∷ sent)

-- The three commands that have to come before the owner changes: IMPORTING, MIGRATING and the keys.
-- The boolean tells of an error; that of MigrateKeys is only logged.
unfoldable pub open_move : Admin → Heap → ℕ → ℕ → List ℕ → List Command → List Command × Bool
open_move admin h from to slots sent =
    let c1 = set_slots (ip_port (h to)) importing slots (h from).id in
    let c2 = set_slots (ip_port (h from)) migrating slots (h to).id in
    let c3 = migrate_keys (ip_port (h from)) (h to).id slots in
    if admin sent c1
    then (c1 ∷ sent, true)
    else if admin (c1 ∷ sent) c2
    then (c2 ∷ c1 ∷ sent, true)
    else (c3 ∷ c2 ∷ c1 ∷ sent, false)

-- The rest of the round for an entry with a source.
unfoldable pub close_move : Heap → ℕ → ℕ → List ℕ → Nodes → List Command → Dispatch
close_move h from to slots all sent =
    let c4 = set_slots (ip_port (h to)) node slots (h to).id in
    let c5 = set_slots (ip_port (h from)) node slots (h to).id in
    let h' = set_node_slots h from (remove_slots (h from).slots slots) in
    record {
      heap = set_node_slots h' to (add_slots (h' to).slots slots);
      sent = tell_others h' from to slots all (c5 ∷ c4 ∷ sent);
      failed = false;
    }

-- One round of the loop of DispatchSlotToNewMasters.
unfoldable pub dispatch_info : Admin → Nodes → Heap → List Command → MigrationInfo → Dispatch
dispatch_info admin all h sent e = elim e.from [
  | none ↦
      let c = add (ip_port (h e.to)) e.slots in
      if admin sent c then record { heap = h; sent = c ∷ sent; failed = true } else record {
        heap = set_node_slots h e.to (add_slots (h e.to).slots e.slots);
        sent = c ∷ sent;
        failed = false;
      }
  | some from ↦
      let (sent', bad) = open_move admin h from e.to e.slots sent in
      if bad
      then record { heap = h; sent = sent'; failed = true }
      else close_move h from e.to e.slots all sent'
]

-- The loop over the plan, which returns at the first error.
unfoldable pub dispatch_all : Admin → Nodes → Dispatch → List MigrationInfo → Dispatch
dispatch_all admin all d [] = d
dispatch_all admin all d (e ∷ plan) =
    if d.failed then d else dispatch_all admin all (dispatch_info admin all d.heap d.sent e) plan
