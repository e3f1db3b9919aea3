-- ===== src/Tests/Migration.antt =====
-- controllers/clustering/migration.go on small inputs.
use mathlib.Core.List.{Perm}
use mathlib.Core.List.Perm
use rediscluster_operator.Base.{
  ap, ℕ, zero, suc, ◌+◌, ◌<◌, ◌≤◌, true, false, ◌≡◌, refl, List, [], ◌∷◌, some, Text, txt, count,
  arith, same_iff, same, max, length, slice_at,
}
use rediscluster_operator.Slots.{contains}
use rediscluster_operator.Migration.{
  SlotMap, Nodes, full_range, slots_to_migrate, slots_by_node, build_slots_by_node,
  build_slot_by_node_from_available_slots, slots_of, ids_of, id_at,
}
use rediscluster_operator.Migration.Assign.{all_slots}
use rediscluster_operator.Migration.Quota.{load, Unique, build_slot_by_node-quota}
use rediscluster_operator.Migration.Migrated.{Distinct, occurs}
use rediscluster_operator.Migration.Plan.{kept, build_slots_by_node-covers}
use rediscluster_operator.Migration.Feed.{MigrationInfo, feed_mig_info}
use rediscluster_operator.Migration.Feed.Sound.{AllSound, total_moves, feed_mig_info_sound}
use rediscluster_operator.Migration.Dispatch.{dispatch_all, dispatch_info, open_move, close_move}
use rediscluster_operator.Migration.Dispatch.Order.{Ends, dispatch_info-order}
use rediscluster_operator.Migration.Dispatch.Owners.{after_plan, dispatch_all-owners}
use rediscluster_operator.Tests.{three, works}

-- The masters before and after the third one comes.
abbrev old_masters : Nodes
old_masters = 0 ∷ 1 ∷ []

abbrev new_masters : Nodes
new_masters = 0 ∷ 1 ∷ 2 ∷ []

ids_once : (k : Text) → occurs k (ids_of three old_masters) ≤ 1
unfolding occurs ids_of
ids_once k = ground (arith, same_iff (txt "a") k, same_iff (txt "b") k)

distinct : Distinct three old_masters
unfolding occurs ids_of same
distinct = record { once = ids_once; named = refl }

below_6 : (s : ℕ) → contains (full_range three old_masters) s ≡ true → s < 6
unfolding contains full_range
below_6 s h = ground arith

once_each : (s : ℕ) → count s (full_range three old_masters) ≤ 1
unfolding full_range
once_each s = ground arith

below_9 : (s : ℕ) → contains (full_range three old_masters) s ≡ true → s < 9
below_9 s h = omega (arith, below_6 s h)

old_has_0 : contains old_masters 0 ≡ true
unfolding contains
old_has_0 = refl

same_visit : (m : SlotMap) → Perm m m
same_visit m = Perm.refl m

build_slots_by_node-covers_example :
    count 4 (
        kept three
          (slots_to_migrate three new_masters old_masters 6 (slots_by_node 6 3))
          old_masters)
      + count 4 (all_slots (build_slots_by_node (λ m. m) three new_masters old_masters 6))
    ≡ 1
build_slots_by_node-covers_example =
    build_slots_by_node-covers (λ m. m) three 0 (1 ∷ 2 ∷ []) old_masters 6 4 same_visit distinct
      below_6 once_each (omega arith)

abbrev first_byte : Text → ℕ
first_byte [] = 0
first_byte (b ∷ _) = b

new_ids_differ : Unique (ids_of three new_masters)
unfolding ids_of id_at
new_ids_differ zero zero li lj e = refl
new_ids_differ zero (suc zero) li lj e = absurd (omega (arith, ap first_byte e))
new_ids_differ zero (suc (suc zero)) li lj e = absurd (omega (arith, ap first_byte e))
new_ids_differ (suc zero) zero li lj e = absurd (omega (arith, ap first_byte e))
new_ids_differ (suc zero) (suc zero) li lj e = refl
new_ids_differ (suc zero) (suc (suc zero)) li lj e = absurd (omega (arith, ap first_byte e))
new_ids_differ (suc (suc zero)) zero li lj e = absurd (omega (arith, ap first_byte e))
new_ids_differ (suc (suc zero)) (suc zero) li lj e = absurd (omega (arith, ap first_byte e))
new_ids_differ (suc (suc zero)) (suc (suc zero)) li lj e = refl
new_ids_differ (suc (suc (suc i))) j li lj e = absurd (omega arith)
new_ids_differ i (suc (suc (suc j))) li lj e = absurd (omega arith)

build_slot_by_node-quota_example :
    load (slots_of three new_masters) 1
      + length (
          slice_at (id_at (ids_of three new_masters) 1) (
            build_slot_by_node_from_available_slots three new_masters 3
              ((txt "d", 6 ∷ 7 ∷ []) ∷ [])))
    ≤ max 3 (load (slots_of three new_masters) 1 + 1)
build_slot_by_node-quota_example =
    build_slot_by_node-quota three 0 (1 ∷ 2 ∷ []) 3 ((txt "d", 6 ∷ 7 ∷ []) ∷ []) 1 new_ids_differ
      (omega arith)

feed_mig_info_sound_example :
    AllSound three new_masters old_masters
      (feed_mig_info (λ m. m) (λ m. m) three new_masters old_masters 6).map_out
    × ((feed_mig_info (λ m. m) (λ m. m) three new_masters old_masters 6).nb_slots_to_migrate
        ≡ total_moves (feed_mig_info (λ m. m) (λ m. m) three new_masters old_masters 6).map_out)
feed_mig_info_sound_example = feed_mig_info_sound (λ m. m) (λ m. m) three new_masters old_masters 6

dispatch_info-order_example :
    Ends works new_masters three 0 2
      (2 ∷ [])
      []
      (dispatch_info works new_masters three [] (record { from = some 0; to = 2; slots = 2 ∷ [] }))
dispatch_info-order_example = dispatch_info-order works new_masters three 0 2 (2 ∷ []) []

abbrev one_move : List MigrationInfo
one_move = record { from = some 0; to = 2; slots = 2 ∷ [] } ∷ []

one_move-works :
    (dispatch_all works new_masters
      (record { heap = three; sent = []; failed = false })
      one_move).failed
    ≡ false
unfolding dispatch_all dispatch_info open_move close_move
one_move-works = refl

dispatch_all-owners_example :
    contains
      ((dispatch_all works new_masters
          (record { heap = three; sent = []; failed = false })
          one_move).heap
        2).slots
      2
    ≡ after_plan one_move 2 2 (contains (three 2).slots 2)
dispatch_all-owners_example =
    dispatch_all-owners works new_masters three one_move 2 2 one_move-works
