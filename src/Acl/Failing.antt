-- ===== src/Acl/Failing.antt =====
-- When GenerateAclcommands has commands, next to IsdiffAclVerions.
use rediscluster_operator.Base.Maps.{IsMap}
use rediscluster_operator.Base.{
  ℕ, ◌≡◌, ◌↔◌, ◌⊎◌, ◌++◌, refl, sym, ap, ◌∙◌, true, false, List, [], ◌∷◌, Option, none, some, Text,
  txt, same_iff, same_refl, lookup, if◌then◌else◌, arith, Bool-cases, inl, inr, length, ◌==◌,
}
use rediscluster_operator.Manager.{is_diff_acl_versions}
use rediscluster_operator.Manager.Checked.{is_diff_acl_versions_iff}
use rediscluster_operator.Base.Strings.{Without}
use rediscluster_operator.Acl.Users.{EndsWell, acl_user-after}
use rediscluster_operator.Acl.{acl_user, parse_acl_input, acl_commands, generate_acl_commands}
use rediscluster_operator.Acl.Changed.{command_of, acl_commands_lem, parse_acl_input-NoAdmin}

-- No command is called for exactly where the versions are the same.
command_of-none_iff :
    (users : List (Text × Text)) (k : Text) (new old : Option Text)
    → (command_of users k new old ≡ none) ↔ (old ≡ new)
command_of-none_iff users k none none = ground arith
command_of-none_iff users k none (some w) = ground arith
command_of-none_iff users k (some v) none = ground arith
command_of-none_iff users k (some v) (some w) = ground (arith, same_iff w v)

nothing_under : (m : List (Text × Text)) → ((k : Text) → lookup k m ≡ none) → length m ≡ 0
unfolding lookup
nothing_under [] h = refl
nothing_under ((j, v) ∷ m) h = absurd (ground (arith, h j, same_refl j))

nothing_in : (m : List (Text × Text)) (k : Text) → length m ≡ 0 → lookup k m ≡ none
unfolding lookup
nothing_in [] k h = refl
nothing_in (x ∷ m) k h = absurd (ground arith)

-- On maps no command comes out exactly where IsdiffAclVerions tells no difference.
acl_commands-empty_iff :
    (existing users latest : List (Text × Text))
    → IsMap existing
    → IsMap latest
    → (length (acl_commands existing users latest) ≡ 0)
      ↔ (is_diff_acl_versions existing latest ≡ false)
acl_commands-empty_iff existing users latest e l =
    let under = acl_commands_lem existing users latest in
    let calls : (k : Text)
        → (command_of users k (lookup k latest) (lookup k existing) ≡ none)
          ↔ (lookup k existing ≡ lookup k latest) =
      λ k. command_of-none_iff users k (lookup k latest) (lookup k existing) in
    let same_under = is_diff_acl_versions_iff existing latest e l in
    let commands = acl_commands existing users latest in
    (
      λ h. same_under.1 (λ k. (calls k).0 (sym (under k e l) ∙ nothing_in commands k h)),
      λ h. nothing_under commands (λ k. under k e l ∙ (calls k).1 (same_under.0 h k)),
    )

-- Three tests that each end with an error.
module _ {A B : Type 0} (a b c : ℕ) (x y z : A) (done : B) where
  abbrev tested : A ⊎ B
  tested = if a == 0 then inl x else if b == 0 then inl y else if c == 0 then inl z else inr done

  failed : (a ≡ 0) ⊎ ((b ≡ 0) ⊎ (c ≡ 0)) → (e : A) × (tested ≡ inl e)
  failed h = elim (Bool-cases (a == 0)) [
    | inl e ↦ (x, rw e refl)
    | inr e ↦ elim (Bool-cases (b == 0)) [
      | inl f ↦ (y, rw (e, f) refl)
      | inr f ↦ let g : (c == 0) ≡ true = ground (arith, h) in (z, rw (e, f, g) refl)
    ]
  ]

  some_failed : (e : A) → tested ≡ inl e → (a ≡ 0) ⊎ ((b ≡ 0) ⊎ (c ≡ 0))
  some_failed e h = ground arith

  passed : (d : B) → tested ≡ inr d → done ≡ d
  passed d h = ground arith

-- GenerateAclcommands on maps returns an error exactly where the status has no versions, the new text
-- is empty or IsdiffAclVerions tells no difference. Otherwise it returns, for each secret, `acl setuser`
-- with the rules of its user where the secret is new or has changed, `acl deluser` with its user where
-- it is gone, and nothing where it is the same. A user that the new text gives no rules has nothing
-- after `acl setuser`, and the new text never gives rules to the user admin. The user is what follows
-- the last `--` in the name of the secret, if it has no dash and none is before that `--`.
pub generate_acl_commands_lem :
    (existing : List (Text × Text)) (conf : Text) (latest : List (Text × Text))
    → IsMap existing
    → IsMap latest
    → (((msg : Text) × (generate_acl_commands (some existing) conf latest ≡ inl msg)) ↔ (
        (length existing ≡ 0)
        ⊎ ((length conf ≡ 0) ⊎ (is_diff_acl_versions existing latest ≡ false))))
      × ((commands : List (Text × Text)) (k : Text)
          → generate_acl_commands (some existing) conf latest ≡ inr commands
          → lookup k commands
            ≡ command_of (parse_acl_input conf) k (lookup k latest) (lookup k existing))
      × (lookup (txt "admin") (parse_acl_input conf) ≡ none)
      × ((front user : Text)
          → EndsWell front
          → Without b'-' user
          → acl_user (front ++ b'-' ∷ b'-' ∷ user) ≡ user)
unfolding generate_acl_commands
generate_acl_commands_lem existing conf latest e l =
    let users = parse_acl_input conf in
    let found = acl_commands existing users latest in
    let empty = acl_commands-empty_iff existing users latest e l in
    (
      (
        λ h. ground (
          arith,
          empty,
          some_failed (length existing) (length conf) (length found) _ _ _ found h.0 h.1,
        ),
        λ h.
            failed (length existing) (length conf) (length found) _ _ _ found
              (ground (arith, h, empty)),
      ),
      λ commands k h.
          ap (lookup k)
            (sym (passed (length existing) (length conf) (length found) _ _ _ found commands h))
          ∙ acl_commands_lem existing users latest k e l,
      parse_acl_input-NoAdmin conf,
      acl_user-after,
    )
