-- ===== src/Tests/View.antt =====
-- utils/redisutil/clusterinfo.go on small inputs.
use rediscluster_operator.Base.{
  Bool, false, Text, txt, not, ◌&&◌, ◌==◌, ℕ, ◌+◌, ◌<◌, ◌≡◌, true, false, List, [], ◌∷◌, some, map,
  arith,
}
use rediscluster_operator.Slots.{contains, u64_mod, slot_ranges_from_slots}
use rediscluster_operator.Slots.Decode.{range_string}
use rediscluster_operator.Heal.{NodeInfos}
use rediscluster_operator.View.{decode_slot_words}
use rediscluster_operator.View.Words.{slots_of_ranges, with_slots, decode-slot_ranges}
use rediscluster_operator.Tests.{node_a, node_b}

abbrev two_views : List NodeInfos
two_views =
    record { node = node_a; friends = node_b ∷ [] } ∷ record { node = node_b; friends = [] } ∷ []

abbrev shuffled : List ℕ
shuffled = 7 ∷ 3 ∷ 4 ∷ 3 ∷ []

shuffled-below : (s : ℕ) → contains shuffled s ≡ true → s + 1 < u64_mod
unfolding contains
shuffled-below s h = ground arith

decode-slot_ranges_example :
    (decode_slot_words node_a (map range_string (slot_ranges_from_slots shuffled))
      ≡ some (with_slots node_a (slots_of_ranges (slot_ranges_from_slots shuffled))))
    × ((e : ℕ)
        → contains (slots_of_ranges (slot_ranges_from_slots shuffled)) e ≡ contains shuffled e)
decode-slot_ranges_example = decode-slot_ranges node_a shuffled shuffled-below

abbrev has_none : ℕ → Text → Bool
has_none b [] = true
has_none b (c ∷ s) = not (c == b) && has_none b s

abbrev some_lines : List (Text × List Text)
some_lines =
    (
      txt "a",
      txt "10.0.0.1:6379@16379"
          ∷ txt "myself,master"
          ∷ txt "-"
          ∷ txt "0"
          ∷ txt "0"
          ∷ txt "1"
          ∷ txt "connected"
          ∷ txt "0-2"
          ∷ [],
    )
    ∷ []
