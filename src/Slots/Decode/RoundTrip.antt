-- ===== src/Slots/Decode/RoundTrip.antt =====
-- What DecodeSlotRange reads from the four forms that Redis and the String methods write.
use rediscluster_operator.Base.{
  ℕ, ◌+◌, ◌-◌, ◌<◌, ◌≡◌, refl, ap, ◌∙◌, false, List, [], ◌∷◌, ◌++◌, none, some, Text, same, arith,
  if◌then◌else◌, ◌==◌, append_assoc,
}
use rediscluster_operator.Base.Strings.{
  split, format_uint, Without, format_uint-AllDigits, Without-of-AllDigits, parse_uint-format_uint,
  split-word, split-last, trim_prefix-cons, trim_prefix-Without, trim_suffix-snoc,
  trim_suffix-Without,
}
use rediscluster_operator.Slots.{SlotRange, u64_mod}
use rediscluster_operator.Slots.Build.{range_from, build_slot_slice_lem}
use rediscluster_operator.Slots.Decode.{
  MovingSlot, Decoded, range_string, importing_string, migrating_string, decode_slot_range, failed,
  impossible_to_decode,
}

abbrev pub read_slots : List ℕ → Decoded
read_slots slots = record { slots = slots; importing = none; migrating = none; err = none }

abbrev pub read_importing : MovingSlot → Decoded
read_importing m = record { slots = []; importing = some m; migrating = none; err = none }

abbrev pub read_migrating : MovingSlot → Decoded
read_migrating m = record { slots = []; importing = none; migrating = some m; err = none }

dashless : (n : ℕ) → Without b'-' (format_uint n)
dashless n = Without-of-AllDigits b'-' (format_uint n) refl (format_uint-AllDigits n)

open_bracketless : (n : ℕ) → Without b'[' (format_uint n)
open_bracketless n = Without-of-AllDigits b'[' (format_uint n) refl (format_uint-AllDigits n)

-- For a range that starts below 2 ^ 64 and ends below 2 ^ 64 - 1, DecodeSlotRange reads back what
-- SlotRange.String prints, as the slots of the range in order.
pub decode-range_string :
    (r : SlotRange)
    → r.min < u64_mod
    → r.max + 1 < u64_mod
    → decode_slot_range (range_string r) ≡ some (read_slots (range_from r.min (r.max + 1 - r.min)))
unfolding decode_slot_range range_string
decode-range_string r lo hi = ground (
  arith,
  split-word b'-' (format_uint r.min) (format_uint r.max) (dashless r.min),
  split-last b'-' (format_uint r.max) (dashless r.max),
  parse_uint-format_uint r.min,
  parse_uint-format_uint r.max,
  build_slot_slice_lem r.min r.max,
)

-- A moving slot as CLUSTER NODES shows it, in brackets.
abbrev pub bracketed : Text → Text
bracketed s = b'[' ∷ s ++ b']' ∷ []

-- The three words of a moving slot.
words_lem :
    (w : Text) (arrow : ℕ) (tail : Text)
    → Without b'-' w
    → Without b'-' (arrow ∷ [])
    → Without b'-' tail
    → split b'-' (w ++ (b'-' ∷ arrow ∷ b'-' ∷ tail)) ≡ w ∷ (arrow ∷ []) ∷ tail ∷ []
words_lem w arrow tail d a h =
    split-word b'-' w (arrow ∷ b'-' ∷ tail) d
    ∙ ap (λ r. w ∷ r)
        (split-word b'-' (arrow ∷ []) tail a ∙ ap (λ r. (arrow ∷ []) ∷ r) (split-last b'-' tail h))

Without-snoc : (b c : ℕ) (s : Text) → (c == b) ≡ false → Without b s → Without b (s ++ c ∷ [])
Without-snoc b c [] e h = (e, tt)
Without-snoc b c (x ∷ s) e h = (h.0, Without-snoc b c s e h.1)

-- The node ids that the text form can carry.
abbrev pub Plain : Text → Type 0
Plain id = Without b'-' id × Without b']' id

module _ (m : MovingSlot) (lt : m.slot_id < u64_mod) (plain : Plain m.node_id) where
  decode_bare :
      (arrow : ℕ)
      → Without b'-' (arrow ∷ [])
      → decode_slot_range (format_uint m.slot_id ++ (b'-' ∷ arrow ∷ b'-' ∷ m.node_id))
        ≡ some (
            if arrow == b'<'
            then read_importing m
            else if arrow == b'>'
            then read_migrating m
            else failed impossible_to_decode)
  unfolding decode_slot_range same
  decode_bare arrow a = ground (
    arith,
    words_lem (format_uint m.slot_id) arrow m.node_id (dashless m.slot_id) a plain.0,
    trim_prefix-Without b'[' (format_uint m.slot_id) (open_bracketless m.slot_id),
    trim_suffix-Without b']' m.node_id plain.1,
    parse_uint-format_uint m.slot_id,
  )

  decode_bracketed :
      (arrow : ℕ)
      → Without b'-' (arrow ∷ [])
      → decode_slot_range (bracketed (format_uint m.slot_id ++ (b'-' ∷ arrow ∷ b'-' ∷ m.node_id)))
        ≡ some (
            if arrow == b'<'
            then read_importing m
            else if arrow == b'>'
            then read_migrating m
            else failed impossible_to_decode)
  unfolding decode_slot_range same
  decode_bracketed arrow a = ground (
    arith,
    append_assoc (format_uint m.slot_id) (b'-' ∷ arrow ∷ b'-' ∷ m.node_id) (b']' ∷ []),
    words_lem (b'[' ∷ format_uint m.slot_id) arrow (m.node_id ++ b']' ∷ [])
        (refl, dashless m.slot_id) a (Without-snoc b'-' b']' m.node_id refl plain.0),
    trim_prefix-cons b'[' (format_uint m.slot_id),
    trim_suffix-snoc b']' m.node_id,
    parse_uint-format_uint m.slot_id,
  )

  -- The forms that ImportingSlot.String and MigratingSlot.String print, and the same in the
  -- brackets that Redis writes, are read back as the slot and the node that they name, for a slot
  -- that fits 64 bits and a node id with neither a dash nor a closing bracket.
  pub decode_moving_strings :
      (decode_slot_range (importing_string m) ≡ some (read_importing m))
      × (decode_slot_range (migrating_string m) ≡ some (read_migrating m))
      × (decode_slot_range (bracketed (importing_string m)) ≡ some (read_importing m))
      × (decode_slot_range (bracketed (migrating_string m)) ≡ some (read_migrating m))
  unfolding importing_string migrating_string
  decode_moving_strings = (
    decode_bare b'<' (refl, tt),
    decode_bare b'>' (refl, tt),
    decode_bracketed b'<' (refl, tt),
    decode_bracketed b'>' (refl, tt),
  )
