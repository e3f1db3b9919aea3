-- ===== src/View/Words.antt =====
-- The slot words of CLUSTER NODES: DecodeNodeInfos against SlotRangesFromSlots and SlotRange.String.
use rediscluster_operator.Base.{
  ℕ, ◌+◌, ◌-◌, ◌≡◌, refl, sym, ◌∙◌, ap, ◌<◌, true, List, [], ◌∷◌, ◌++◌, append_assoc, append-nil,
  some, arith, All, map,
}
use rediscluster_operator.Slots.{contains, u64_mod, SlotRange, slot_ranges_from_slots}
use rediscluster_operator.Slots.Contains.{contains-append}
use rediscluster_operator.Slots.Build.{range_from, contains-range_from}
use rediscluster_operator.Slots.Ranges.{in_ranges, Apart, slot_ranges_from_slots_lem}
use rediscluster_operator.Slots.Decode.{range_string}
use rediscluster_operator.Slots.Decode.RoundTrip.{decode-range_string}
use rediscluster_operator.Nodes.{Node}
use rediscluster_operator.View.{decode_slot_word, decode_slot_words}

-- The slots of the ranges, in order.
unfoldable pub slots_of_ranges : List SlotRange → List ℕ
slots_of_ranges [] = []
slots_of_ranges (r ∷ rs) = range_from r.min (r.max + 1 - r.min) ++ slots_of_ranges rs

abbrev Small : List SlotRange → Type 0
Small rs = All (λ r. r.max + 1 < u64_mod) rs

Small-of-in_ranges :
    (low : ℕ) (rs : List SlotRange)
    → Apart low rs
    → ((e : ℕ) → in_ranges rs e ≡ true → e + 1 < u64_mod)
    → Small rs
unfolding in_ranges
Small-of-in_ranges low [] a h = tt
Small-of-in_ranges low (r ∷ rs) a h = (
  h r.max (ground (arith, a.1)),
  Small-of-in_ranges (r.max + 2) rs a.2 (λ e m. h e (ground arith)),
)

contains-slots_of_ranges :
    (low : ℕ) (rs : List SlotRange) (e : ℕ)
    → Apart low rs
    → contains (slots_of_ranges rs) e ≡ in_ranges rs e
unfolding contains slots_of_ranges in_ranges
contains-slots_of_ranges low [] e a = refl
contains-slots_of_ranges low (r ∷ rs) e a = ground (
  arith,
  contains-append (range_from r.min (r.max + 1 - r.min)) (slots_of_ranges rs) e,
  contains-range_from (r.max + 1 - r.min) r.min e,
  contains-slots_of_ranges (r.max + 2) rs e a.2,
  a.1,
)

-- The node with more slots.
abbrev pub with_slots : Node → List ℕ → Node
with_slots n slots = record n { slots = n.slots ++ slots }

decode_range :
    (r : SlotRange) (n : Node)
    → r.min < u64_mod
    → r.max + 1 < u64_mod
    → decode_slot_word n (range_string r)
      ≡ some (with_slots n (range_from r.min (r.max + 1 - r.min)))
unfolding decode_slot_word
decode_range r n lo hi = rw (decode_slot_word, decode-range_string r lo hi) refl

decode_ranges :
    (low : ℕ) (rs : List SlotRange) (n : Node)
    → Apart low rs
    → Small rs
    → decode_slot_words n (map range_string rs) ≡ some (with_slots n (slots_of_ranges rs))
unfolding decode_slot_words slots_of_ranges
decode_ranges low [] n a h = ap (λ s. some (record n { slots = s })) (sym (append-nil n.slots))
decode_ranges low (r ∷ rs) n a h =
    let here = range_from r.min (r.max + 1 - r.min) in
    rw (decode_slot_words, decode_range r n (omega (arith, a.1, h.0)) h.0)
      (decode_ranges (r.max + 2) rs (with_slots n here) a.2 h.1
        ∙ ap (λ s. some (record n { slots = s })) (append_assoc n.slots here (slots_of_ranges rs)))

-- For slots below 2 ^ 64 - 1, in any order and with duplicates, the words that the status prints for
-- them (SlotRangesFromSlots, then String) are read back by DecodeNodeInfos without an error: they
-- are appended to the node's slots, and hold a slot exactly when the slots do.
pub decode-slot_ranges :
    (n : Node) (slots : List ℕ)
    → ((s : ℕ) → contains slots s ≡ true → s + 1 < u64_mod)
    → (decode_slot_words n (map range_string (slot_ranges_from_slots slots))
        ≡ some (with_slots n (slots_of_ranges (slot_ranges_from_slots slots))))
      × ((e : ℕ) → contains (slots_of_ranges (slot_ranges_from_slots slots)) e ≡ contains slots e)
decode-slot_ranges n slots h = (
  decode_ranges 0 ranges n law.1
      (Small-of-in_ranges 0 ranges law.1 (λ e m. h e (sym (law.0 e) ∙ m))),
  λ e. contains-slots_of_ranges 0 ranges e law.1 ∙ law.0 e,
)
  where
    ranges : List SlotRange
    ranges = slot_ranges_from_slots slots

    law :
        ((e : ℕ) → in_ranges (slot_ranges_from_slots slots) e ≡ contains slots e)
        × Apart 0 (slot_ranges_from_slots slots)
    law = slot_ranges_from_slots_lem slots h
