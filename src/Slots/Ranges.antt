-- ===== src/Slots/Ranges.antt =====
-- SlotRangesFromSlots of utils/redisutil/slot.go: the ranges against the slots.
use rediscluster_operator.Base.Sort.{SortedFrom}
use rediscluster_operator.Base.{
  ℕ, ◌+◌, ◌%◌, ◌≡◌, refl, sym, ◌∙◌, ap, ◌≤◌, ◌<◌, Bool, true, false, ◌&&◌, ◌||◌, List, [], ◌∷◌,
  ◌++◌, append_assoc, append-nil, none, some, arith, leb, ltb, Bool-cases, inl, inr, All, sort,
  sort-Sorted, count-sort,
}
use rediscluster_operator.Slots.{
  contains, u64_mod, SlotRange, Open, ranges_loop, slot_ranges_from_slots,
}
use rediscluster_operator.Slots.Contains.{contains-count}

abbrev pub in_range : SlotRange → ℕ → Bool
in_range r e = leb r.min e && leb e r.max

unfoldable pub in_ranges : List SlotRange → ℕ → Bool
in_ranges [] e = false
in_ranges (r ∷ rs) e = in_range r e || in_ranges rs e

-- The slots lie below the largest uint64, so that `max+1` does not wrap.
abbrev pub Below : List ℕ → Type 0
Below slots = All (λ s. s + 1 < u64_mod) slots

ranges_loop-append :
    (ranges : List SlotRange) (o : Open) (slots : List ℕ)
    → ranges_loop ranges o slots ≡ ranges ++ ranges_loop [] o slots
unfolding ranges_loop
ranges_loop-append ranges none [] = sym (append-nil ranges)
ranges_loop-append ranges (some (lo, hi)) [] = refl
ranges_loop-append ranges none (x ∷ xs) = ranges_loop-append ranges (some (x, x)) xs
ranges_loop-append ranges (some (lo, hi)) (x ∷ xs) =
    elim (Bool-cases (ltb ((hi + 1) % u64_mod) x)) [
      | inl e ↦ rw e (
          ranges_loop-append (ranges ++ record { min = lo; max = hi } ∷ []) (some (x, x)) xs
          ∙ append_assoc ranges (record { min = lo; max = hi } ∷ [])
              (ranges_loop [] (some (x, x)) xs)
          ∙ ap (λ r. ranges ++ r)
              (sym (ranges_loop-append (record { min = lo; max = hi } ∷ []) (some (x, x)) xs)))
      | inr e ↦ rw e (ranges_loop-append ranges (some (lo, x)) xs)
    ]

in_ranges-loop :
    (lo hi : ℕ) (slots : List ℕ) (e : ℕ)
    → lo ≤ hi
    → hi + 1 < u64_mod
    → SortedFrom hi slots
    → Below slots
    → in_ranges (ranges_loop [] (some (lo, hi)) slots) e
      ≡ (in_range (record { min = lo; max = hi }) e || contains slots e)
unfolding in_ranges ranges_loop contains
in_ranges-loop lo hi [] e le top s b = refl
in_ranges-loop lo hi (x ∷ xs) e le top s b = ground (
  arith,
  ranges_loop-append (record { min = lo; max = hi } ∷ []) (some (x, x)) xs,
  in_ranges-loop x x xs e,
  in_ranges-loop lo x xs e,
)

-- Each range starts more than one slot after the end of the one before.
abbrev pub Apart : ℕ → List SlotRange → Type 0
Apart low [] = Unit {0}
Apart low (r ∷ rs) = (low ≤ r.min) × (r.min ≤ r.max) × Apart (r.max + 2) rs

ranges_loop-Apart :
    (low lo hi : ℕ) (slots : List ℕ)
    → low ≤ lo
    → lo ≤ hi
    → hi + 1 < u64_mod
    → SortedFrom hi slots
    → Below slots
    → Apart low (ranges_loop [] (some (lo, hi)) slots)
unfolding ranges_loop
ranges_loop-Apart low lo hi [] l le top s b = (l, le, tt)
ranges_loop-Apart low lo hi (x ∷ xs) l le top s b = elim (Bool-cases (ltb ((hi + 1) % u64_mod) x)) [
  | inl e ↦
      rw (e, ranges_loop-append (record { min = lo; max = hi } ∷ []) (some (x, x)) xs)
        (l, le, ranges_loop-Apart (hi + 2) x x xs (ground arith) (omega arith) b.0 s.1 b.1)
  | inr e ↦ rw e (ranges_loop-Apart low lo x xs l (omega arith) b.0 s.1 b.1)
]

pub Below-of-contains :
    (xs : List ℕ) → ((e : ℕ) → contains xs e ≡ true → e + 1 < u64_mod) → Below xs
unfolding contains
Below-of-contains [] h = tt
Below-of-contains (x ∷ xs) h =
    (h x (ground arith), Below-of-contains xs (λ e m. h e (ground arith)))

pub contains-sort : (xs : List ℕ) (e : ℕ) → contains (sort xs) e ≡ contains xs e
contains-sort xs e =
    ground (arith, contains-count xs e, contains-count (sort xs) e, count-sort e xs)

from_sorted :
    (xs : List ℕ) (e : ℕ)
    → SortedFrom 0 xs
    → Below xs
    → (in_ranges (ranges_loop [] none xs) e ≡ contains xs e) × Apart 0 (ranges_loop [] none xs)
unfolding ranges_loop in_ranges contains
from_sorted [] e s b = (refl, tt)
from_sorted (x ∷ xs) e s b = (
  in_ranges-loop x x xs e (omega arith) b.0 s.1 b.1 ∙ ground arith,
  ranges_loop-Apart 0 x x xs (omega arith) (omega arith) b.0 s.1 b.1,
)

-- For slots below 2 ^ 64 - 1, in any order and with any duplicates, a slot lies in one of the
-- ranges of SlotRangesFromSlots exactly when it is one of the slots, every range is non-empty, and
-- at least one free slot separates consecutive ranges.
pub slot_ranges_from_slots_lem :
    (slots : List ℕ)
    → ((s : ℕ) → contains slots s ≡ true → s + 1 < u64_mod)
    → ((e : ℕ) → in_ranges (slot_ranges_from_slots slots) e ≡ contains slots e)
      × Apart 0 (slot_ranges_from_slots slots)
unfolding slot_ranges_from_slots
slot_ranges_from_slots_lem slots h = (
  λ e. (from_sorted (sort slots) e (sort-Sorted slots) below).0 ∙ contains-sort slots e,
  (from_sorted (sort slots) 0 (sort-Sorted slots) below).1,
)
  where
    below : Below (sort slots)
    below = Below-of-contains (sort slots) (λ e m. h e (sym (contains-sort slots e) ∙ m))
