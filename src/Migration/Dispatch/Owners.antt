-- ===== src/Migration/Dispatch/Owners.antt =====
-- What DispatchSlotToNewMasters notes of the owners of the slots (`nodesInfo.From.Slots` and
-- `nodesInfo.To.Slots`), against the plan read as a change of owners.
use rediscluster_operator.Base.{
  ℕ, Bool, true, false, not, ◌&&◌, ◌||◌, ◌≡◌, refl, List, [], ◌∷◌, Option, none, some, ◌==◌,
  if◌then◌else◌, arith, ==_iff,
}
use rediscluster_operator.Nodes.Heap.{Heap, update}
use rediscluster_operator.Slots.{contains, remove_slots}
use rediscluster_operator.Slots.Edit.{contains-remove_slots, contains-add_slots}
use rediscluster_operator.Migration.{Nodes}
use rediscluster_operator.Migration.Feed.{MigrationInfo}
use rediscluster_operator.Migration.Dispatch.{
  Command, Admin, Dispatch, open_move, close_move, dispatch_info, dispatch_all,
}

-- The source of an entry gives its slots up.
abbrev pub gives_up : Option ℕ → List ℕ → ℕ → ℕ → Bool → Bool
gives_up none slots p s held = held
gives_up (some from) slots p s held = if from == p then held && not (contains slots s) else held

-- Whether a node holds a slot once an entry of the plan is carried out.
unfoldable pub after_info : MigrationInfo → ℕ → ℕ → Bool → Bool
after_info e p s held =
    if e.to == p
    then gives_up e.from e.slots p s held || contains e.slots s
    else gives_up e.from e.slots p s held

-- The same for the whole plan, in its order.
unfoldable pub after_plan : List MigrationInfo → ℕ → ℕ → Bool → Bool
after_plan [] p s held = held
after_plan (e ∷ plan) p s held = after_plan plan p s (after_info e p s held)

module _ (admin : Admin) (all : Nodes) where
  info-owners :
      (h : Heap) (sent : List Command) (from : Option ℕ) (to : ℕ) (slots : List ℕ) (p s : ℕ)
      → let e : MigrationInfo = record { from = from; to = to; slots = slots } in
        (dispatch_info admin all h sent e).failed ≡ false
        → contains ((dispatch_info admin all h sent e).heap p).slots s
          ≡ after_info e p s (contains (h p).slots s)
  unfolding dispatch_info open_move close_move after_info update
  info-owners h sent none to slots p s ok =
      ground (arith, ==_iff to p, contains-add_slots slots (h to).slots s)
  info-owners h sent (some from) to slots p s ok = ground (
    arith,
    ==_iff to p,
    ==_iff from p,
    contains-remove_slots (h from).slots slots s,
    contains-add_slots slots (h to).slots s,
    contains-add_slots slots (remove_slots (h from).slots slots) s,
  )

  -- A round that returns an error leaves the notes as they were.
  pub failed-unchanged :
      (h : Heap) (sent : List Command) (from : Option ℕ) (to : ℕ) (slots : List ℕ)
      → let e : MigrationInfo = record { from = from; to = to; slots = slots } in
        (dispatch_info admin all h sent e).failed ≡ true
        → (dispatch_info admin all h sent e).heap ≡ h
  unfolding dispatch_info open_move close_move
  failed-unchanged h sent none to slots bad = ground arith
  failed-unchanged h sent (some from) to slots bad = ground arith

  stopped :
      (d : Dispatch) (plan : List MigrationInfo)
      → d.failed ≡ true
      → dispatch_all admin all d plan ≡ d
  unfolding dispatch_all
  stopped d [] f = refl
  stopped d (e ∷ plan) f = rw f refl

  all-owners :
      (d : Dispatch) (plan : List MigrationInfo) (p s : ℕ)
      → (dispatch_all admin all d plan).failed ≡ false
      → contains ((dispatch_all admin all d plan).heap p).slots s
        ≡ after_plan plan p s (contains (d.heap p).slots s)
  unfolding dispatch_all after_plan
  all-owners d [] p s ok = refl
  all-owners d (e ∷ plan) p s ok =
      let next = dispatch_info admin all d.heap d.sent e in
      ground (
        arith,
        all-owners next plan p s,
        info-owners d.heap d.sent e.from e.to e.slots p s,
        stopped next plan,
      )

  -- When DispatchSlotToNewMasters returns no error, the slots that it notes for every node are
  -- those that the plan leaves there: an entry takes its slots from its source, if it has one, and
  -- puts them at its target.
  pub dispatch_all-owners :
      (h : Heap) (plan : List MigrationInfo) (p s : ℕ)
      → (dispatch_all admin all (record { heap = h; sent = []; failed = false }) plan).failed
        ≡ false
      → contains
          ((dispatch_all admin all (record { heap = h; sent = []; failed = false }) plan).heap
            p).slots
          s
        ≡ after_plan plan p s (contains (h p).slots s)
  dispatch_all-owners h plan p s ok =
      all-owners (record { heap = h; sent = []; failed = false }) plan p s ok
