-- ===== src/Slots/Edit.antt =====
-- RemoveSlots, RemoveSlot and AddSlots against plain descriptions of what they leave.
use rediscluster_operator.Base.{
  ℕ, zero, suc, ◌+◌, ◌≡◌, refl, ap, sym, Bool, true, false, ◌||◌, not, List, [], ◌∷◌, ◌++◌,
  append_assoc, arith, ◌==◌, if◌then◌else◌, Bool-cases, inl, inr, length, get_elem?, erase_idx,
  keep, count, length-append, count-append, ◌≤◌, some, none,
}
use rediscluster_operator.Slots.{
  contains, remove_slots_loop, remove_slots, remove_slot_loop, remove_slot, add_slots,
}
use rediscluster_operator.Slots.Contains.{contains-append, contains-keep, contains-count}

get-append : (p r : List ℕ) (x : ℕ) → get_elem? (p ++ x ∷ r) (length p) ≡ some x
get-append [] r x = refl
get-append (_ ∷ p) r x = get-append p r x

get-append_end : (p : List ℕ) → get_elem? (p ++ []) (length p) ≡ none
get-append_end [] = refl
get-append_end (_ ∷ p) = get-append_end p

erase-append : (p r : List ℕ) (x : ℕ) → erase_idx (p ++ x ∷ r) (length p) ≡ p ++ r
erase-append [] r x = refl
erase-append (y ∷ p) r x = ap (λ l. y ∷ l) (erase-append p r x)

-- One slot further along.
advance : (p r : List ℕ) (x : ℕ) → p ++ x ∷ r ≡ (p ++ x ∷ []) ++ r
advance p r x = sym (append_assoc p (x ∷ []) r)

length-snoc : (p : List ℕ) (x : ℕ) → length (p ++ x ∷ []) ≡ suc (length p)
length-snoc p x = omega (arith, length-append p (x ∷ []))

abbrev pub stays : List ℕ → ℕ → Bool
stays removed s = not (contains removed s)

remove_slots_loop_lem :
    (fuel : ℕ) (p r removed : List ℕ)
    → length r ≤ fuel
    → remove_slots_loop fuel (length p) (p ++ r) removed ≡ p ++ keep (stays removed) r
unfolding remove_slots_loop
remove_slots_loop_lem zero p [] removed h = refl
remove_slots_loop_lem zero p (x ∷ r) removed h = absurd (omega arith)
remove_slots_loop_lem (suc fuel) p [] removed h = ground (arith, get-append_end p)
remove_slots_loop_lem (suc fuel) p (x ∷ r) removed h = ground (
  arith,
  get-append p r x,
  erase-append p r x,
  advance p r x,
  length-snoc p x,
  advance p (keep (stays removed) r) x,
  remove_slots_loop_lem fuel p r removed,
  remove_slots_loop_lem fuel (p ++ x ∷ []) r removed,
)

-- RemoveSlots keeps exactly the slots that are not to be removed, in their order, duplicates in
-- either list included.
pub remove_slots-keep :
    (slots removed : List ℕ) → remove_slots slots removed ≡ keep (stays removed) slots
unfolding remove_slots
remove_slots-keep slots removed =
    remove_slots_loop_lem (length slots) [] slots removed (omega arith)

pub contains-remove_slots :
    (slots removed : List ℕ) (e : ℕ)
    → contains (remove_slots slots removed) e
      ≡ (if contains removed e then false else contains slots e)
contains-remove_slots slots removed e =
    rw (remove_slots-keep slots removed, contains-keep (stays removed) slots e) (ground arith)

-- The list without its first `s`.
abbrev pub erase : ℕ → List ℕ → List ℕ
erase s [] = []
erase s (x ∷ xs) = if x == s then xs else x ∷ erase s xs

remove_slot_loop_lem :
    (fuel : ℕ) (p r : List ℕ) (s : ℕ)
    → length r ≤ fuel
    → remove_slot_loop fuel (length p) (p ++ r) s ≡ p ++ erase s r
unfolding remove_slot_loop
remove_slot_loop_lem zero p [] s h = refl
remove_slot_loop_lem zero p (x ∷ r) s h = absurd (omega arith)
remove_slot_loop_lem (suc fuel) p [] s h = ground (arith, get-append_end p)
remove_slot_loop_lem (suc fuel) p (x ∷ r) s h = ground (
  arith,
  get-append p r x,
  erase-append p r x,
  advance p r x,
  length-snoc p x,
  advance p (erase s r) x,
  remove_slot_loop_lem fuel (p ++ x ∷ []) r s,
)

-- RemoveSlot drops the first occurrence of the slot and nothing else.
pub remove_slot-erase : (slots : List ℕ) (s : ℕ) → remove_slot slots s ≡ erase s slots
unfolding remove_slot
remove_slot-erase slots s = remove_slot_loop_lem (length slots) [] slots s (omega arith)

count-erase :
    (xs : List ℕ) (s e : ℕ)
    → contains xs s ≡ true
    → count e (erase s xs) + (if s == e then 1 else 0) ≡ count e xs
unfolding contains
count-erase [] s e h = cc
count-erase (x ∷ xs) s e h = ground (arith, count-erase xs s e)

pub count-remove_slot :
    (slots : List ℕ) (s e : ℕ)
    → contains slots s ≡ true
    → count e (remove_slot slots s) + (if s == e then 1 else 0) ≡ count e slots
count-remove_slot slots s e h = rw (remove_slot-erase slots s) (count-erase slots s e h)

-- A slot is in the result of AddSlots exactly when it was there or is added.
pub contains-add_slots :
    (added slots : List ℕ) (e : ℕ)
    → contains (add_slots slots added) e ≡ (contains slots e || contains added e)
unfolding add_slots contains
contains-add_slots [] slots e = ground arith
contains-add_slots (s ∷ added) slots e = elim (Bool-cases (contains slots s)) [
  | inl old ↦ rw old (ground (arith, contains-add_slots added slots e))
  | inr new ↦ rw new (
      ground
        (arith, contains-add_slots added (slots ++ s ∷ []) e, contains-append slots (s ∷ []) e))
]

snoc_unique :
    (slots : List ℕ) (s d : ℕ)
    → contains slots s ≡ false
    → count d slots ≤ 1
    → count d (slots ++ s ∷ []) ≤ 1
snoc_unique slots s d new u =
    ground (arith, count-append d slots (s ∷ []), (contains-count slots d).1)

-- When the slots hold no duplicate, the result of AddSlots holds none, even if the added slots do.
add_slots_unique :
    (added slots : List ℕ)
    → ((e : ℕ) → count e slots ≤ 1)
    → (e : ℕ) → count e (add_slots slots added) ≤ 1
unfolding add_slots
add_slots_unique [] slots u e = u e
add_slots_unique (s ∷ added) slots u e = elim (Bool-cases (contains slots s)) [
  | inl old ↦ rw old (add_slots_unique added slots u e)
  | inr new ↦
      rw new (add_slots_unique added (slots ++ s ∷ []) (λ d. snoc_unique slots s d new (u d)) e)
]
