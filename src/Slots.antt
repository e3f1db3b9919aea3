-- ===== src/Slots.antt =====
-- utils/redisutil/slot.go: the slots of a Redis cluster and the operations on slices of them.
-- A Slot is a uint64, here a number below 2 ^ 64. A slice is a list: the source's in-place appends
-- are read through their results, and no caller keeps the old slice.
pub mod Contains
pub mod Edit
pub mod Build
pub mod Ranges
pub mod Decode
use rediscluster_operator.Base.{
  ℕ, zero, suc, ◌+◌, ◌-◌, ◌%◌, ◌^◌, ◌<◌, Bool, true, false, ◌≡◌, refl, List, [], ◌∷◌, ◌++◌, Option,
  none, some, sort, leb, ltb, ◌==◌, if◌then◌else◌, length, get_elem?, erase_idx,
}

-- Contains
unfoldable pub contains : List ℕ → ℕ → Bool
contains [] e = false
contains (a ∷ s) e = if a == e then true else contains s e

-- The loop of RemoveSlots at index `i`; a removal leaves `i` where it is (`i--`, then `i++`).
-- Each round takes one from `fuel`.
unfoldable pub remove_slots_loop : ℕ → ℕ → List ℕ → List ℕ → List ℕ
remove_slots_loop zero i slots removed = slots
remove_slots_loop (suc fuel) i slots removed = elim (get_elem? slots i) [
  | none ↦ slots
  | some s ↦ elim (contains removed s) [
    | true ↦ remove_slots_loop fuel i (erase_idx slots i) removed
    | false ↦ remove_slots_loop fuel (suc i) slots removed
  ]
]

-- RemoveSlots: a round removes a slot or passes one, so there are `len(slots)` rounds.
unfoldable pub remove_slots : List ℕ → List ℕ → List ℕ
remove_slots slots removed = remove_slots_loop (length slots) 0 slots removed

-- The loop of RemoveSlot at index `i`, which breaks after the first removal.
unfoldable pub remove_slot_loop : ℕ → ℕ → List ℕ → ℕ → List ℕ
remove_slot_loop zero i slots removed = slots
remove_slot_loop (suc fuel) i slots removed = elim (get_elem? slots i) [
  | none ↦ slots
  | some s ↦ elim (s == removed) [
    | true ↦ erase_idx slots i
    | false ↦ remove_slot_loop fuel (suc i) slots removed
  ]
]

-- RemoveSlot
unfoldable pub remove_slot : List ℕ → ℕ → List ℕ
remove_slot slots removed = remove_slot_loop (length slots) 0 slots removed

-- AddSlots
unfoldable pub add_slots : List ℕ → List ℕ → List ℕ
add_slots slots [] = slots
add_slots slots (s ∷ added) = add_slots (if contains slots s then slots else slots ++ s ∷ []) added

abbrev pub u64_mod : ℕ
u64_mod = 2 ^ 64

-- The loop of BuildSlotSlice: `s++` wraps at 2 ^ 64. `none` means that the fuel ran out.
unfoldable pub build_loop : ℕ → ℕ → ℕ → List ℕ → Option (List ℕ)
build_loop zero s max slots = none
build_loop (suc fuel) s max slots = elim (leb s max) [
  | true ↦ build_loop fuel ((s + 1) % u64_mod) max (slots ++ s ∷ [])
  | false ↦ some slots
]

-- BuildSlotSlice, with a round for each slot and one for the test that ends the loop.
unfoldable pub build_slot_slice : ℕ → ℕ → Option (List ℕ)
build_slot_slice min max = build_loop (suc (max + 1 - min)) min max []

-- SlotRange
pub record SlotRange : Type 0 where
  pub min : ℕ
  pub max : ℕ

-- SlotRange.Total: the difference of two uint64 read as an int64; the ranges that the source
-- makes have `min <= max`, where this is exact.
unfoldable pub total : SlotRange → ℕ
total r = (r.max + u64_mod - r.min + 1) % u64_mod

-- The variables of the loop of SlotRangesFromSlots. The source's `first`, `min` and `max` are one
-- option: `none` before the first slot.
abbrev pub Open : Type 0
Open = Option (ℕ × ℕ)

-- One round of the loop of SlotRangesFromSlots; `max+1` is a uint64.
unfoldable pub ranges_loop : List SlotRange → Open → List ℕ → List SlotRange
ranges_loop ranges none [] = ranges
ranges_loop ranges (some (lo, hi)) [] = ranges ++ record { min = lo; max = hi } ∷ []
ranges_loop ranges none (slot ∷ slots) = ranges_loop ranges (some (slot, slot)) slots
ranges_loop ranges (some (lo, hi)) (slot ∷ slots) =
    let split = ltb ((hi + 1) % u64_mod) slot in
    ranges_loop (if split then ranges ++ record { min = lo; max = hi } ∷ [] else ranges)
      (some (if split then slot else lo, slot)) slots

-- SlotRangesFromSlots
unfoldable pub slot_ranges_from_slots : List ℕ → List SlotRange
slot_ranges_from_slots slots = ranges_loop [] none (sort slots)
