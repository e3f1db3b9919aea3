-- ===== src/Tests/Slots.antt =====
-- utils/redisutil/slot.go on small inputs.
use rediscluster_operator.Base.{
  ℕ, ◌+◌, ◌<◌, ◌≤◌, true, ◌≡◌, refl, List, [], ◌∷◌, some, txt, count, arith,
}
use rediscluster_operator.Slots.{SlotRange, contains, u64_mod, slot_ranges_from_slots}
use rediscluster_operator.Slots.Ranges.{in_ranges, Apart, slot_ranges_from_slots_lem}
use rediscluster_operator.Slots.Decode.{
  MovingSlot, decode_slot_range, importing_string, migrating_string,
}
use rediscluster_operator.Slots.Decode.RoundTrip.{
  read_importing, read_migrating, bracketed, decode_moving_strings,
}

abbrev some_slots : List ℕ
some_slots = 7 ∷ 3 ∷ 4 ∷ 3 ∷ []

unique_pair : (e : ℕ) → count e (1 ∷ 2 ∷ []) ≤ 1
unique_pair e = ground arith

some_slots-below : (s : ℕ) → contains some_slots s ≡ true → s + 1 < u64_mod
unfolding contains
some_slots-below s h = ground arith

slot_ranges_from_slots_lem_example :
    ((e : ℕ) → in_ranges (slot_ranges_from_slots some_slots) e ≡ contains some_slots e)
    × Apart 0 (slot_ranges_from_slots some_slots)
slot_ranges_from_slots_lem_example = slot_ranges_from_slots_lem some_slots some_slots-below

abbrev some_range : SlotRange
some_range = record { min = 3; max = 6 }

abbrev some_move : MovingSlot
some_move = record { slot_id = 77; node_id = txt "67ed2db8" }

decode_moving_strings_example :
    (decode_slot_range (importing_string some_move) ≡ some (read_importing some_move))
    × (decode_slot_range (migrating_string some_move) ≡ some (read_migrating some_move))
    × (decode_slot_range (bracketed (importing_string some_move)) ≡ some (read_importing some_move))
    × (decode_slot_range (bracketed (migrating_string some_move)) ≡ some (read_migrating some_move))
decode_moving_strings_example = decode_moving_strings some_move (omega arith) (
  (refl, (refl, (refl, (refl, (refl, (refl, (refl, (refl, tt)))))))),
  (refl, (refl, (refl, (refl, (refl, (refl, (refl, (refl, tt)))))))),
)
