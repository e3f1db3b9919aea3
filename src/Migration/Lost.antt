-- ===== src/Migration/Lost.antt =====
-- retrieveLostSlots of controllers/clustering/migration.go: the slots that no old master holds.
use rediscluster_operator.Base.Sort.{SortedFrom}
use rediscluster_operator.Base.{
  ℕ, zero, suc, ◌+◌, ◌-◌, ◌<◌, true, false, not, ◌&&◌, ◌≡◌, refl, ◌∙◌, sym, List, [], ◌∷◌, ◌++◌,
  arith, leb, ltb, ◌==◌, if◌then◌else◌, count, count-append, sort, sort-Sorted, All,
}
use rediscluster_operator.Nodes.Heap.{Heap}
use rediscluster_operator.Slots.{contains}
use rediscluster_operator.Slots.Ranges.{contains-sort}
use rediscluster_operator.Migration.{
  Nodes, full_range, gap_loop, gap, lost_loop, starts_lost, retrieve_lost_slots,
}

count-gap_loop :
    (rounds i e : ℕ)
    → count e (gap_loop rounds i) ≡ (if leb i e && ltb e (i + rounds) then 1 else 0)
unfolding gap_loop
count-gap_loop zero i e = ground arith
count-gap_loop (suc rounds) i e = ground (arith, count-gap_loop rounds (i + 1) e)

count-gap : (from to e : ℕ) → count e (gap from to) ≡ (if leb from e && ltb e to then 1 else 0)
unfolding gap
count-gap from to e = ground (arith, count-gap_loop (to - from) from e)

abbrev pub BelowNb : ℕ → List ℕ → Type 0
BelowNb nb slots = All (λ s. s < nb) slots

not-contains-below :
    (low : ℕ) (slots : List ℕ) (e : ℕ) → SortedFrom low slots → e < low → contains slots e ≡ false
unfolding contains
not-contains-below low [] e s h = refl
not-contains-below low (x ∷ xs) e s h = ground (arith, not-contains-below x xs e s.1)

count-lost_loop :
    (nb last : ℕ) (slots : List ℕ) (e : ℕ)
    → SortedFrom last slots
    → BelowNb nb slots
    → count e (lost_loop nb last slots)
      ≡ (if ltb last e && (ltb e nb && not (contains slots e)) then 1 else 0)
unfolding lost_loop contains
count-lost_loop nb last [] e s b = ground (arith, count-gap (last + 1) nb e)
count-lost_loop nb last (x ∷ xs) e s b = ground (
  arith,
  count-append e (if ltb (last + 1) x then gap (last + 1) x else []) (lost_loop nb x xs),
  count-gap (last + 1) x e,
  count-lost_loop nb x xs e s.1 b.1,
  not-contains-below x xs e s.1,
)

lost_sorted :
    (nb : ℕ) (slots : List ℕ) (e : ℕ)
    → 0 < nb
    → SortedFrom 0 slots
    → BelowNb nb slots
    → count e (starts_lost slots ++ lost_loop nb 0 slots)
      ≡ (if ltb e nb && not (contains slots e) then 1 else 0)
unfolding starts_lost contains
lost_sorted nb [] e p s b =
    ground (arith, count-append e (0 ∷ []) (lost_loop nb 0 []), count-lost_loop nb 0 [] e s b)
lost_sorted nb (x ∷ xs) e p s b = ground (
  arith,
  count-append e (if x == 0 then [] else 0 ∷ []) (lost_loop nb 0 (x ∷ xs)),
  count-lost_loop nb 0 (x ∷ xs) e s b,
  not-contains-below x xs e s.1,
)

pub BelowNb-of-contains :
    (nb : ℕ) (xs : List ℕ) → ((e : ℕ) → contains xs e ≡ true → e < nb) → BelowNb nb xs
unfolding contains
BelowNb-of-contains nb [] h = tt
BelowNb-of-contains nb (x ∷ xs) h =
    (h x (ground arith), BelowNb-of-contains nb xs (λ e m. h e (ground arith)))

-- When the masters' slots are all below a positive `nbSlots`, retrieveLostSlots returns each slot
-- below `nbSlots` that no master holds, once, and nothing else.
pub count-retrieve_lost_slots :
    (h : Heap) (old : Nodes) (nb e : ℕ)
    → 0 < nb
    → ((s : ℕ) → contains (full_range h old) s ≡ true → s < nb)
    → count e (retrieve_lost_slots h old nb)
      ≡ (if ltb e nb && not (contains (full_range h old) e) then 1 else 0)
unfolding retrieve_lost_slots
count-retrieve_lost_slots h old nb e p b =
    lost_sorted nb (sort (full_range h old)) e p (sort-Sorted (full_range h old)) below
    ∙ rw (contains-sort (full_range h old) e) refl
  where
    below : BelowNb nb (sort (full_range h old))
    below =
        BelowNb-of-contains nb (sort (full_range h old))
          (λ s m. b s (sym (contains-sort (full_range h old) s) ∙ m))
