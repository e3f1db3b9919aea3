-- ===== src/Slots/Contains.antt =====
-- Membership in a slice of slots under append, and the count of a slot against its membership.
use rediscluster_operator.Base.{
  ℕ, ◌≡◌, refl, ◌↔◌, ◌<◌, Bool, true, false, ◌||◌, List, [], ◌∷◌, ◌++◌, arith, if◌then◌else◌, keep,
  count,
}
use rediscluster_operator.Slots.{contains}

pub contains-append :
    (xs ys : List ℕ) (e : ℕ) → contains (xs ++ ys) e ≡ (contains xs e || contains ys e)
unfolding contains
contains-append [] ys e = refl
contains-append (x ∷ xs) ys e = ground (arith, contains-append xs ys e)

pub contains-keep :
    (p : ℕ → Bool) (xs : List ℕ) (e : ℕ)
    → contains (keep p xs) e ≡ (if p e then contains xs e else false)
unfolding contains
contains-keep p [] e = ground arith
contains-keep p (x ∷ xs) e = ground (arith, contains-keep p xs e)

pub contains-count : (xs : List ℕ) (e : ℕ) → (contains xs e ≡ true) ↔ (0 < count e xs)
unfolding contains
contains-count [] e = ground arith
contains-count (x ∷ xs) e = ground (arith, contains-count xs e)
