-- ===== src/Slots/Build.antt =====
-- BuildSlotSlice: when its loop ends, and what it builds.
use rediscluster_operator.Base.{
  ℕ, zero, suc, ◌+◌, ◌-◌, ◌%◌, ◌≡◌, refl, ◌<◌, false, ◌&&◌, List, [], ◌∷◌, ◌++◌, append_assoc,
  append-nil, none, some, arith, leb, ltb, Bool-cases, inl, inr,
}
use rediscluster_operator.Slots.{contains, u64_mod, build_loop, build_slot_slice}

-- The numbers from `s` on, `n` of them.
abbrev pub range_from : ℕ → ℕ → List ℕ
range_from s zero = []
range_from s (suc n) = s ∷ range_from (s + 1) n

pub contains-range_from : (n s e : ℕ) → contains (range_from s n) e ≡ (leb s e && ltb e (s + n))
unfolding contains
contains-range_from zero s e = ground arith
contains-range_from (suc n) s e = ground (arith, contains-range_from n (s + 1) e)

build_loop_lem :
    (n s max : ℕ) (acc : List ℕ)
    → max + 1 < u64_mod
    → s + n ≡ max + 1
    → build_loop (suc n) s max acc ≡ some (acc ++ range_from s n)
unfolding build_loop
build_loop_lem zero s max acc h e = ground (arith, append-nil acc)
build_loop_lem (suc n) s max acc h e = ground (
  arith,
  build_loop_lem n (s + 1) max (acc ++ s ∷ []),
  append_assoc acc (s ∷ []) (range_from (s + 1) n),
)

build_empty : (min max : ℕ) → leb min max ≡ false → build_loop 1 min max [] ≡ some []
unfolding build_loop
build_empty min max gt = ground arith

-- BuildSlotSlice on a range that ends below the largest uint64 returns the range in order.
pub build_slot_slice_lem :
    (min max : ℕ)
    → max + 1 < u64_mod
    → build_slot_slice min max ≡ some (range_from min (max + 1 - min))
unfolding build_slot_slice
build_slot_slice_lem min max h = elim (Bool-cases (leb min max)) [
  | inl le ↦ build_loop_lem (max + 1 - min) min max [] h (ground arith)
  | inr gt ↦ let nothing : max + 1 - min ≡ 0 = ground arith in rw nothing (build_empty min max gt)
]

-- For a range up to the largest uint64 the loop of BuildSlotSlice, at any slot, ends within no number
-- of rounds.
pub build_loop_endless :
    (fuel s : ℕ) (acc : List ℕ) → s < u64_mod → build_loop fuel s (u64_mod - 1) acc ≡ none
unfolding build_loop
build_loop_endless zero s acc h = refl
build_loop_endless (suc fuel) s acc h =
    ground (arith, build_loop_endless fuel ((s + 1) % u64_mod) (acc ++ s ∷ []))
