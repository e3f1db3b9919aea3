-- ===== src/Base/Sort.antt =====
-- sort.Sort on numbers: any correct sort returns the same list, so insertion sort stands for it.
use Prim.Native.Nat.{ℕ, ◌+◌, ◌≤◌}
use mathlib.Core.Path.{◌≡◌, refl, ap, ◌∙◌}
use mathlib.Core.List.{List, [], ◌∷◌}
use native.Mathlib.Omega.{arith}
use rediscluster_operator.Base.Tests.{leb, if◌then◌else◌, ◌==◌}
use rediscluster_operator.Base.Lists.{count}

insert_sorted : ℕ → List ℕ → List ℕ
insert_sorted a [] = a ∷ []
insert_sorted a (x ∷ xs) = if leb a x then a ∷ x ∷ xs else x ∷ insert_sorted a xs

unfoldable pub sort : List ℕ → List ℕ
unfolding insert_sorted
sort [] = []
sort (x ∷ xs) = insert_sorted x (sort xs)

-- `low` bounds the list from below, and each entry bounds the rest.
abbrev pub SortedFrom : ℕ → List ℕ → Type 0
SortedFrom low [] = Unit {0}
SortedFrom low (x ∷ xs) = (low ≤ x) × SortedFrom x xs

abbrev pub Sorted : List ℕ → Type 0
Sorted xs = SortedFrom 0 xs

insert_sorted-SortedFrom :
    (low a : ℕ) (xs : List ℕ) → low ≤ a → SortedFrom low xs → SortedFrom low (insert_sorted a xs)
unfolding insert_sorted
insert_sorted-SortedFrom low a [] h s = (h, tt)
insert_sorted-SortedFrom low a (x ∷ xs) h s = ground (arith, insert_sorted-SortedFrom x a xs)

pub sort-Sorted : (xs : List ℕ) → Sorted (sort xs)
unfolding sort
sort-Sorted [] = tt
sort-Sorted (x ∷ xs) = insert_sorted-SortedFrom 0 x (sort xs) (omega arith) (sort-Sorted xs)

insert_sorted-first : (a : ℕ) (xs : List ℕ) → SortedFrom a xs → insert_sorted a xs ≡ a ∷ xs
unfolding insert_sorted
insert_sorted-first a [] h = refl
insert_sorted-first a (x ∷ xs) h = ground (arith, h.0)

sort-of_SortedFrom : (low : ℕ) (xs : List ℕ) → SortedFrom low xs → sort xs ≡ xs
unfolding sort
sort-of_SortedFrom low [] h = refl
sort-of_SortedFrom low (x ∷ xs) h =
    ap (insert_sorted x) (sort-of_SortedFrom x xs h.1) ∙ insert_sorted-first x xs h.1

pub sort-of_Sorted : (xs : List ℕ) → Sorted xs → sort xs ≡ xs
sort-of_Sorted xs h = sort-of_SortedFrom 0 xs h

count-insert_sorted :
    (e a : ℕ) (xs : List ℕ) → count e (insert_sorted a xs) ≡ (if a == e then 1 else 0) + count e xs
unfolding insert_sorted
count-insert_sorted e a [] = refl
count-insert_sorted e a (x ∷ xs) = ground (arith, count-insert_sorted e a xs)

pub count-sort : (e : ℕ) (xs : List ℕ) → count e (sort xs) ≡ count e xs
unfolding sort
count-sort e [] = refl
count-sort e (x ∷ xs) = ground (arith, count-insert_sorted e x (sort xs), count-sort e xs)
