-- ===== src/Nodes/Roles.antt =====
-- SetRole and GetRole of utils/redisutil/node.go, and the filters that read the role.
use rediscluster_operator.Base.{
  ℕ, ◌≡◌, refl, ◌⊎◌, inl, inr, Bool, true, false, ◌||◌, List, [], ◌∷◌, Text, same, same_iff, arith,
  Bool-cases, ◌+◌, if◌then◌else◌,
}
use rediscluster_operator.Base.Strings.{split}
use rediscluster_operator.Nodes.{
  Node, role_of_flags, set_role, get_role, is_slave, is_master_with_slot, is_master_with_no_slot,
  redis_master_role, redis_slave_role,
}

-- One of the flags is a role.
unfoldable pub names_role : List Text → Bool
names_role [] = false
names_role (v ∷ vs) = (same v redis_master_role || same v redis_slave_role) || names_role vs

-- The role kept by the loop: empty, or one of the two.
abbrev IsRole : Text → Type 0
IsRole r = (r ≡ redis_master_role) ⊎ (r ≡ redis_slave_role)

role_of_flags-IsRole :
    (role : Text) (vals : List Text)
    → (IsRole role ⊎ (names_role vals ≡ true))
    → IsRole (role_of_flags role vals)
unfolding role_of_flags names_role
role_of_flags-IsRole role [] (inl h) = h
role_of_flags-IsRole role [] (inr h) = cc
role_of_flags-IsRole role (v ∷ vs) h = elim (Bool-cases (same v redis_master_role)) [
  | inl e ↦ rw e (role_of_flags-IsRole redis_master_role vs (inl (inl refl)))
  | inr e ↦ rw e (elim (Bool-cases (same v redis_slave_role)) [
    | inl f ↦ rw f (role_of_flags-IsRole redis_slave_role vs (inl (inr refl)))
    | inr f ↦ rw f (role_of_flags-IsRole role vs (kept e f h))
  ])
]
  where
    kept :
        same v redis_master_role ≡ false
        → same v redis_slave_role ≡ false
        → (IsRole role
            ⊎ (((same v redis_master_role || same v redis_slave_role) || names_role vs) ≡ true))
        → IsRole role ⊎ (names_role vs ≡ true)
    kept e f (inl r) = inl r
    kept e f (inr r) = inr (rw (e, f) at r)

role_of_flags-none :
    (role : Text) (vals : List Text) → names_role vals ≡ false → role_of_flags role vals ≡ role
unfolding role_of_flags names_role
role_of_flags-none role [] h = refl
role_of_flags-none role (v ∷ vs) h = ground (arith, role_of_flags-none role vs)

-- How many of the three filters of the operator take the node.
abbrev pub kinds : Node → ℕ
kinds n =
    (if is_slave n then 1 else 0)
    + (if is_master_with_slot n then 1 else 0)
    + (if is_master_with_no_slot n then 1 else 0)

kinds_lem : (n : Node) → IsRole n.role → kinds n ≡ 1
unfolding is_slave is_master_with_slot is_master_with_no_slot get_role
kinds_lem n (inl e) =
    ground (arith, same_iff n.role redis_master_role, same_iff n.role redis_slave_role)
kinds_lem n (inr e) = ground (
  arith,
  same_iff n.role redis_master_role,
  same_iff n.role redis_slave_role,
  same_iff redis_slave_role redis_master_role,
)

IsRole-ne-nil : (r : Text) → IsRole r → same r [] ≡ false
unfolding same
IsRole-ne-nil r (inl e) = rw e refl
IsRole-ne-nil r (inr e) = rw e refl

-- When one of the flags is `master` or `slave`, SetRole succeeds, and the node passes exactly one
-- of the filters IsSlave, IsMasterWithSlot and IsMasterWithNoSlot.
pub set_role-kinds :
    (n : Node) (flags : Text)
    → names_role (split b',' flags) ≡ true
    → ((set_role n flags).1 ≡ false) × (kinds (set_role n flags).0 ≡ 1)
unfolding set_role
set_role-kinds n flags e =
    let r = role_of_flags-IsRole [] (split b',' flags) (inr e) in
    (
      IsRole-ne-nil (role_of_flags [] (split b',' flags)) r,
      kinds_lem (record n { role = role_of_flags [] (split b',' flags) }) r,
    )

-- When no flag is `master` or `slave`, SetRole returns its error and leaves the node with no role.
set_role_fails :
    (n : Node) (flags : Text)
    → names_role (split b',' flags) ≡ false
    → set_role n flags ≡ (record n { role = [] }, true)
unfolding set_role same
set_role_fails n flags e = rw (role_of_flags-none [] (split b',' flags) e) refl
