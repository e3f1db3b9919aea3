-- ===== src/Acl/Users.antt =====
-- The user that a secret is named after.
use rediscluster_operator.Base.Strings.{Without}
use rediscluster_operator.Base.{
  ◌≡◌, refl, sym, ◌∙◌, false, ◌&&◌, [], ◌∷◌, ◌++◌, Text, ◌==◌, append-nil, append_assoc, arith,
  Bool-cases, inl, inr,
}
use rediscluster_operator.Acl.{last_part, acl_user}

-- The text does not end in a dash.
abbrev pub EndsWell : Text → Type 0
EndsWell [] = Unit {0}
EndsWell (c ∷ []) = (c == b'-') ≡ false
EndsWell (c ∷ d ∷ s) = EndsWell (d ∷ s)

last_part-Without : (word user : Text) → Without b'-' user → last_part word user ≡ word ++ user
unfolding last_part
last_part-Without word [] h = sym (append-nil word)
last_part-Without word (c ∷ []) h = refl
last_part-Without word (c ∷ d ∷ s) h =
    rw (last_part, h.0)
      (last_part-Without (word ++ c ∷ []) (d ∷ s) h.1 ∙ append_assoc word (c ∷ []) (d ∷ s))

last_part-after :
    (word front user : Text)
    → EndsWell front
    → Without b'-' user
    → last_part word (front ++ b'-' ∷ b'-' ∷ user) ≡ user
unfolding last_part
last_part-after word [] user e h = last_part-Without [] user h
last_part-after word (c ∷ []) user e h =
    rw (last_part, e) (last_part-after (word ++ c ∷ []) [] user tt h)
last_part-after word (c ∷ d ∷ []) user e h =
    ground (arith, e, last_part-after (word ++ c ∷ []) (d ∷ []) user e h)
last_part-after word (c ∷ d ∷ f ∷ s) user e h = elim (Bool-cases (c == b'-' && d == b'-')) [
  | inl dashes ↦ rw (last_part, dashes) (last_part-after [] (f ∷ s) user e h)
  | inr other ↦ rw (last_part, other) (last_part-after (word ++ c ∷ []) (d ∷ f ∷ s) user e h)
]

pub acl_user-after :
    (front user : Text)
    → EndsWell front
    → Without b'-' user
    → acl_user (front ++ b'-' ∷ b'-' ∷ user) ≡ user
unfolding acl_user
acl_user-after front user e h = last_part-after [] front user e h
