-- ===== src/Rebalance/Allocation.antt =====
-- AllocSlots of controllers/clustering/rebalance.go and the rounding that it uses
-- (utils/commonutils/math.go). Quotients of two float64 are exact fractions, as in the parent.
pub mod Covers
use rediscluster_operator.Base.Int.{ℤ, pos, negsuc, pos_part, sub_ℕ, ◌-ℤ◌, ltb_ℤ}
use rediscluster_operator.Base.{
  ℕ, suc, ◌+◌, ◌-◌, ◌*◌, ◌/◌, Bool, true, false, ◌||◌, List, [], ◌∷◌, Option, none, some, length,
  ◌==◌, if◌then◌else◌,
}
use rediscluster_operator.Nodes.{Node, ip_port}
use rediscluster_operator.Slots.{build_slot_slice}
use rediscluster_operator.Rebalance.{Command, add, Admin}

-- utils.Round of the fraction `p / q`: half a unit away from zero, then towards zero.
unfoldable pub round : ℤ → ℕ → ℤ
round (pos p) q = pos ((2 * p + q) / (2 * q))
round (negsuc p) q = pos 0 -ℤ pos ((2 * suc p + q) / (2 * q))

-- `last` of AllocSlots from its rounded value `r`: the three conditions of the source. The final
-- value is not below `first`.
unfoldable pub clamp_last : ℕ → ℕ → ℕ → ℕ → ℤ → ℕ
clamp_last cluster_slots masters_num index first r =
    let last : ℤ =
      if ltb_ℤ (pos cluster_slots) r || index == masters_num - 1
      then pos (cluster_slots - 1)
      else r in
    if ltb_ℤ last (pos first) then first else pos_part last

-- `last` at an index. The cursor is `index * slotsPerNode`, a fraction over the number of masters.
unfoldable pub last_slot : ℕ → ℕ → ℕ → ℕ → ℕ
last_slot cluster_slots masters_num index first =
    clamp_last cluster_slots masters_num index first
      (round (sub_ℕ (suc index * cluster_slots) masters_num) masters_num)

-- The masters with their slots, the commands, and whether an error was returned.
pub record Alloc : Type 0 where
  pub masters : List Node
  pub sent : List Command
  pub failed : Bool

-- The loop of AllocSlots. `none` means that BuildSlotSlice does not end.
unfoldable pub alloc_loop : Admin → ℕ → ℕ → ℕ → ℕ → List Node → List Command → Option Alloc
alloc_loop admin cluster_slots masters_num index first [] sent =
    some (record { masters = []; sent = sent; failed = false })
alloc_loop admin cluster_slots masters_num index first (n ∷ nodes) sent =
    let last = last_slot cluster_slots masters_num index first in
    elim (build_slot_slice first last) [
      | none ↦ none
      | some slots ↦
          let n' = record n { slots = slots } in
          let c = add (ip_port n) slots in
          elim (admin sent c) [
            | true ↦ some (record { masters = n' ∷ nodes; sent = c ∷ sent; failed = true })
            | false ↦
                elim (alloc_loop admin cluster_slots masters_num (suc index) (last + 1) nodes
                  (c ∷ sent)) [
                    | none ↦ none
                    | some a ↦ some (record a { masters = n' ∷ a.masters })
                  ]
          ]
    ]

-- AllocSlots
unfoldable pub alloc_slots : Admin → ℕ → List Node → Option Alloc
alloc_slots admin cluster_slots new = alloc_loop admin cluster_slots (length new) 0 0 new []
