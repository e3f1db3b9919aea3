-- ===== src/Slots/Decode.antt =====
-- DecodeSlot, DecodeSlotRange and the String methods of utils/redisutil/slot.go.
pub mod RoundTrip
use rediscluster_operator.Base.{
  ℕ, Bool, true, false, List, [], ◌∷◌, ◌++◌, Option, none, some, Text, txt, same, if◌then◌else◌,
}
use rediscluster_operator.Base.Strings.{split, trim_prefix, trim_suffix, parse_uint, format_uint}
use rediscluster_operator.Slots.{SlotRange, build_slot_slice}

abbrev pub slot_separator : Text
slot_separator = txt "-"

abbrev pub importing_separator : Text
importing_separator = txt "-<-"

abbrev pub migrating_separator : Text
migrating_separator = txt "->-"

-- ImportingSlot and MigratingSlot: a slot and the id of the node at the other end.
pub record MovingSlot : Type 0 where
  pub slot_id : ℕ
  pub node_id : Text

-- Slot.String
unfoldable pub slot_string : ℕ → Text
slot_string s = format_uint s

-- SlotRange.String
unfoldable pub range_string : SlotRange → Text
unfolding slot_string
range_string s = slot_string s.min ++ (slot_separator ++ slot_string s.max)

-- ImportingSlot.String
unfoldable pub importing_string : MovingSlot → Text
unfolding slot_string
importing_string s = slot_string s.slot_id ++ (importing_separator ++ s.node_id)

-- MigratingSlot.String
unfoldable pub migrating_string : MovingSlot → Text
unfolding slot_string
migrating_string s = slot_string s.slot_id ++ (migrating_separator ++ s.node_id)

pub data DecodeError : Type 0 where
  bad_slot impossible_to_decode : DecodeError

-- The four results of DecodeSlotRange.
pub record Decoded : Type 0 where
  pub slots : List ℕ
  pub importing : Option MovingSlot
  pub migrating : Option MovingSlot
  pub err : Option DecodeError

abbrev pub failed : DecodeError → Decoded
failed e = record { slots = []; importing = none; migrating = none; err = some e }

-- DecodeSlot
unfoldable pub decode_slot : Text → Option ℕ
decode_slot s = parse_uint s

-- The branch for a migrating or importing slot, on the three words.
unfoldable pub decode_moving : Text → Text → Text → Decoded
unfolding decode_slot
decode_moving v0 v1 v2 = elim (decode_slot (trim_prefix b'[' v0)) [
  | none ↦ failed bad_slot
  | some slot ↦
      let separator = slot_separator ++ (v1 ++ slot_separator) in
      let moving : MovingSlot = record { slot_id = slot; node_id = trim_suffix b']' v2 } in
      if same separator importing_separator
      then record { slots = []; importing = some moving; migrating = none; err = none }
      else if same separator migrating_separator
      then record { slots = []; importing = none; migrating = some moving; err = none }
      else failed impossible_to_decode
]

-- The end of DecodeSlotRange: `none` where BuildSlotSlice does not end.
unfoldable pub decode_build : ℕ → ℕ → Option Decoded
decode_build min max = elim (build_slot_slice min max) [
  | none ↦ none
  | some slots ↦ some (record { slots = slots; importing = none; migrating = none; err = none })
]

-- The branch for one slot or a range, on the first word and the rest.
unfoldable pub decode_range : Text → List Text → Option Decoded
unfolding decode_slot decode_build
decode_range v0 rest = elim (decode_slot v0) [
  | none ↦ some (failed bad_slot)
  | some min ↦ elim rest [
    | [] ↦ decode_build min min
    | v1 ∷ _ ↦ elim (decode_slot v1) [
      | none ↦ some (failed bad_slot)
      | some max ↦ decode_build min max
    ]
  ]
]

unfoldable pub decode_words : List Text → Option Decoded
unfolding decode_moving decode_range
decode_words [] = some (failed impossible_to_decode)
decode_words (v0 ∷ v1 ∷ v2 ∷ []) = some (decode_moving v0 v1 v2)
decode_words (v0 ∷ rest) = decode_range v0 rest

-- DecodeSlotRange. `none` means that it does not return.
unfoldable pub decode_slot_range : Text → Option Decoded
unfolding decode_words
decode_slot_range str = decode_words (split b'-' str)
