-- ===== src/Migration/Feed/Sound.antt =====
-- The sources that feedMigInfo of controllers/clustering/migration.go finds for the planned slots.
use rediscluster_operator.Base.{
  ℕ, ◌+◌, Bool, true, false, ◌≡◌, refl, sym, ◌&&◌, List, [], ◌∷◌, Option, none, some, Text, same,
  same_iff, ◌==◌, if◌then◌else◌, All, All-snoc, length, length-append, Bool-cases, inl, inr, arith,
}
use mathlib.Core.Path.{subst₂}
use rediscluster_operator.Nodes.Heap.{Heap}
use rediscluster_operator.Slots.{contains}
use rediscluster_operator.Migration.{Nodes, SlotMap, build_slots_by_node}
use rediscluster_operator.Migration.Feed.{
  MigrationInfo, same_from, append_info, find_node, Source, stays, moves, lost, source_of, Feed,
  add_move, feed_slot, feed_slots, feed_all, feed_mig_info,
}

-- Some node of the list holds the slot.
unfoldable pub held : Heap → Nodes → ℕ → Bool
held h [] s = false
held h (o ∷ old) s = if contains (h o).slots s then true else held h old s

-- What a move of one slot must satisfy.
abbrev pub MoveIsSound : Heap → Nodes → Nodes → Option ℕ → ℕ → ℕ → Type 0
MoveIsSound h new old (some o) n s =
    (contains old o ≡ true)
    × (contains new n ≡ true)
    × (contains (h o).slots s ≡ true)
    × (same (h o).id (h n).id ≡ false)
MoveIsSound h new old none n s = (contains new n ≡ true) × (held h old s ≡ false)

abbrev pub InfoIsSound : Heap → Nodes → Nodes → MigrationInfo → Type 0
InfoIsSound h new old e = All (MoveIsSound h new old e.from e.to) e.slots

find_node_lem :
    (h : Heap) (new : Nodes) (id : Text) (n : ℕ)
    → find_node h new id ≡ some n
    → (contains new n ≡ true) × ((h n).id ≡ id)
unfolding find_node contains
find_node_lem h [] id n e = cc
find_node_lem h (x ∷ xs) id n e = ground (arith, find_node_lem h xs id n, same_iff (h x).id id)

source_of-moves :
    (h : Heap) (new old : Nodes) (id : Text) (s o n : ℕ)
    → source_of h new old id s ≡ moves o n
    → (contains old o ≡ true)
      × (find_node h new id ≡ some n)
      × (contains (h o).slots s ≡ true)
      × (same (h o).id id ≡ false)
unfolding source_of contains
source_of-moves h new [] id s o n e = cc
source_of-moves h new (x ∷ xs) id s o n e = ground (arith, source_of-moves h new xs id s o n)

source_of-lost :
    (h : Heap) (new old : Nodes) (id : Text) (s n : ℕ)
    → find_node h new id ≡ some n
    → source_of h new old id s ≡ lost
    → held h old s ≡ false
unfolding source_of held
source_of-lost h new [] id s n f e = refl
source_of-lost h new (x ∷ xs) id s n f e = ground (arith, source_of-lost h new xs id s n f)

same_from_lem : (a b : Option ℕ) → same_from a b ≡ true → a ≡ b
same_from_lem none none h = refl
same_from_lem none (some b) h = cc
same_from_lem (some a) none h = cc
same_from_lem (some a) (some b) h = ground arith

abbrev pub AllSound : Heap → Nodes → Nodes → List MigrationInfo → Type 0
AllSound h new old m = All (InfoIsSound h new old) m

append_info-AllSound :
    (h : Heap) (new old : Nodes) (from : Option ℕ) (to s : ℕ) (m : List MigrationInfo)
    → MoveIsSound h new old from to s
    → AllSound h new old m
    → AllSound h new old (append_info from to s m)
unfolding append_info
append_info-AllSound h new old from to s [] p a = ((p, tt), tt)
append_info-AllSound h new old from to s (e ∷ m) p a =
    elim (Bool-cases (same_from e.from from && e.to == to)) [
      | inl hit ↦ rw hit (
        All-snoc (MoveIsSound h new old e.from e.to) e.slots s a.0 (
            subst₂ (λ f t. MoveIsSound h new old f t s)
              (sym (same_from_lem e.from from (ground arith))) (ground arith) p),
        a.1,
      )
      | inr miss ↦ rw miss (a.0, append_info-AllSound h new old from to s m p a.1)
    ]

feed_slot-AllSound :
    (h : Heap) (new old : Nodes) (id : Text) (f : Feed) (s : ℕ)
    → AllSound h new old f.map_out
    → AllSound h new old (feed_slot h new old id f s).map_out
unfolding feed_slot add_move
feed_slot-AllSound h new old id f s a = go (source_of h new old id s) refl
  where
    missing :
        (o : Option ℕ)
        → find_node h new id ≡ o
        → source_of h new old id s ≡ lost
        → AllSound h new old
            (let g : Feed = elim o [ none ↦ f | some n ↦ add_move none n s f ] in g).map_out
    missing none e l = a
    missing (some n) e l =
        append_info-AllSound h new old none n s f.map_out
          ((find_node_lem h new id n e).0, source_of-lost h new old id s n e l) a

    go :
        (src : Source)
        → source_of h new old id s ≡ src
        → AllSound h new old
            (let g : Feed = elim src [
              | stays ↦ f
              | moves o n ↦ add_move (some o) n s f
              | lost ↦ elim (find_node h new id) [ none ↦ f | some n ↦ add_move none n s f ]
            ] in
              g).map_out
    go stays e = a
    go (moves o n) e =
        let (c, d, b, w) = source_of-moves h new old id s o n e in
        let (p, q) = find_node_lem h new id n d in
        append_info-AllSound h new old (some o) n s f.map_out (c, p, b, rw q w) a
    go lost e = missing (find_node h new id) refl e

feed_slots-AllSound :
    (h : Heap) (new old : Nodes) (id : Text) (f : Feed) (slots : List ℕ)
    → AllSound h new old f.map_out
    → AllSound h new old (feed_slots h new old id f slots).map_out
unfolding feed_slots
feed_slots-AllSound h new old id f [] a = a
feed_slots-AllSound h new old id f (s ∷ slots) a =
    feed_slots-AllSound h new old id (feed_slot h new old id f s) slots
      (feed_slot-AllSound h new old id f s a)

feed_all-AllSound :
    (h : Heap) (new old : Nodes) (f : Feed) (m : SlotMap)
    → AllSound h new old f.map_out
    → AllSound h new old (feed_all h new old f m).map_out
unfolding feed_all
feed_all-AllSound h new old f [] a = a
feed_all-AllSound h new old f ((id, slots) ∷ m) a =
    feed_all-AllSound h new old (feed_slots h new old id f slots) m
      (feed_slots-AllSound h new old id f slots a)

-- The number of slots in the map.
abbrev pub total_moves : List MigrationInfo → ℕ
total_moves [] = 0
total_moves (e ∷ m) = length e.slots + total_moves m

total_moves-append_info :
    (from : Option ℕ) (to s : ℕ) (m : List MigrationInfo)
    → total_moves (append_info from to s m) ≡ total_moves m + 1
unfolding append_info
total_moves-append_info from to s [] = refl
total_moves-append_info from to s (e ∷ m) =
    ground (arith, total_moves-append_info from to s m, length-append e.slots (s ∷ []))

abbrev Counted : Feed → Type 0
Counted f = f.nb_slots_to_migrate ≡ total_moves f.map_out

add_move-Counted :
    (from : Option ℕ) (to s : ℕ) (f : Feed) → Counted f → Counted (add_move from to s f)
unfolding add_move
add_move-Counted from to s f c = omega (arith, total_moves-append_info from to s f.map_out)

feed_slot-Counted :
    (h : Heap) (new old : Nodes) (id : Text) (f : Feed) (s : ℕ)
    → Counted f
    → Counted (feed_slot h new old id f s)
unfolding feed_slot
feed_slot-Counted h new old id f s c = go (source_of h new old id s) (find_node h new id)
  where
    go :
        (src : Source) (dst : Option ℕ)
        → Counted (
            let g : Feed = elim src [
              | stays ↦ f
              | moves o n ↦ add_move (some o) n s f
              | lost ↦ elim dst [ none ↦ f | some n ↦ add_move none n s f ]
            ] in
            g)
    go stays d = c
    go (moves o n) d = add_move-Counted (some o) n s f c
    go lost none = c
    go lost (some n) = add_move-Counted none n s f c

feed_slots-Counted :
    (h : Heap) (new old : Nodes) (id : Text) (f : Feed) (slots : List ℕ)
    → Counted f
    → Counted (feed_slots h new old id f slots)
unfolding feed_slots
feed_slots-Counted h new old id f [] c = c
feed_slots-Counted h new old id f (s ∷ slots) c =
    feed_slots-Counted h new old id (feed_slot h new old id f s) slots
      (feed_slot-Counted h new old id f s c)

feed_all-Counted :
    (h : Heap) (new old : Nodes) (f : Feed) (m : SlotMap)
    → Counted f
    → Counted (feed_all h new old f m)
unfolding feed_all
feed_all-Counted h new old f [] c = c
feed_all-Counted h new old f ((id, slots) ∷ m) c =
    feed_all-Counted h new old (feed_slots h new old id f slots) m
      (feed_slots-Counted h new old id f slots c)

-- In every order of the maps: each slot of an entry with a source is held by that old master, goes
-- to a new master, and the two have different ids; each slot of an entry without a source is held
-- by no old master; and NbslotsToMigrate is the number of slots in the entries.
pub feed_mig_info_sound :
    (visit visit' : SlotMap → SlotMap) (h : Heap) (new old : Nodes) (nb_slots : ℕ)
    → AllSound h new old (feed_mig_info visit visit' h new old nb_slots).map_out
      × ((feed_mig_info visit visit' h new old nb_slots).nb_slots_to_migrate
          ≡ total_moves (feed_mig_info visit visit' h new old nb_slots).map_out)
unfolding feed_mig_info
feed_mig_info_sound visit visit' h new old nb_slots =
    let m = visit' (build_slots_by_node visit h new old nb_slots) in
    let start : Feed = record { map_out = []; nb_slots_to_migrate = 0 } in
    (feed_all-AllSound h new old start m tt, feed_all-Counted h new old start m refl)
