-- ===== src/Acl/Changed.antt =====
-- The commands of GenerateAclcommands, secret by secret.
use mathlib.Core.Path.{subst}
use rediscluster_operator.Base.Maps.{IsMap}
use rediscluster_operator.Base.Strings.{split}
use rediscluster_operator.Status.{join}
use rediscluster_operator.Base.{
  ◌≡◌, refl, ap, ◌∙◌, ◌++◌, ◌&&◌, not, txt, Bool, true, false, List, [], ◌∷◌, Option, none, some,
  Text, same, same_iff, lookup, insert, lookup-insert, if◌then◌else◌, arith, Bool-cases, inl, inr,
}
use rediscluster_operator.Acl.{
  parse_acl_line, parse_acl_lines, parse_acl_input, fields_from, acl_user, is_changed, is_gone,
  set_user, del_user, set_users, del_users, acl_commands,
}

-- What a key with the version `o` holds after the first loop, when it held `was` before.
abbrev set_over :
    List (Text × Text) → List (Text × Text) → Text → Option Text → Option Text → Option Text
set_over existing users k was o = elim o [
  | none ↦ was
  | some v ↦ if is_changed existing k v then some (set_user users k) else was
]

abbrev del_over : List (Text × Text) → Text → Option Text → Option Text → Option Text
del_over latest k was o = elim o [
  | none ↦ was
  | some v ↦ if is_gone latest k then some (del_user k) else was
]

-- The rules that the new text has for a user: nothing where it has none.
abbrev pub rules_of : List (Text × Text) → Text → Text
rules_of users user = elim (lookup user users) [ none ↦ [] | some rules ↦ rules ]

-- The command for a key by its version in the new secrets and by its version in the status: one with
-- the new rules of its user for a new or changed secret, one that deletes its user for a secret that
-- is gone, and no other.
abbrev pub command_of : List (Text × Text) → Text → Option Text → Option Text → Option Text
command_of users k (some v) none = some (txt "acl setuser " ++ rules_of users (acl_user k))
command_of users k (some v) (some w) =
    if same w v then none else some (txt "acl setuser " ++ rules_of users (acl_user k))
command_of users k none (some w) = some (txt "acl deluser " ++ acl_user k)
command_of users k none none = none

lookup-insert_if :
    (b : Bool) (j k : Text) (x : Text) (m : List (Text × Text))
    → lookup k (if b then insert j x m else m)
      ≡ (if same j k then (if b then some x else lookup k m) else lookup k m)
lookup-insert_if true j k x m = lookup-insert j k x m
lookup-insert_if false j k x m = ground arith

lookup-set_users :
    (existing users commands latest : List (Text × Text)) (k : Text)
    → IsMap latest
    → lookup k (set_users existing users commands latest)
      ≡ set_over existing users k (lookup k commands) (lookup k latest)
unfolding set_users lookup
lookup-set_users existing users commands [] k h = refl
lookup-set_users existing users commands ((j, v) ∷ latest) k h =
    let next = if is_changed existing j v then insert j (set_user users j) commands else commands in
    lookup-set_users existing users next latest k h.1
    ∙ ap (λ was. set_over existing users k was (lookup k latest))
        (lookup-insert_if (is_changed existing j v) j k (set_user users j) commands)
    ∙ (elim (Bool-cases (same j k)) [
      | inl e ↦ rw e (
          subst
            (λ k.
              set_over existing users k
                (if is_changed existing j v then some (set_user users j) else lookup k commands)
                (lookup k latest)
              ≡ set_over existing users k (lookup k commands) (some v))
            ((same_iff j k).0 e) (rw h.0 refl))
      | inr e ↦ rw e refl
    ])

lookup-del_users :
    (latest commands existing : List (Text × Text)) (k : Text)
    → IsMap existing
    → lookup k (del_users latest commands existing)
      ≡ del_over latest k (lookup k commands) (lookup k existing)
unfolding del_users lookup
lookup-del_users latest commands [] k h = refl
lookup-del_users latest commands ((j, v) ∷ existing) k h =
    let next = if is_gone latest j then insert j (del_user j) commands else commands in
    lookup-del_users latest next existing k h.1
    ∙ ap (λ was. del_over latest k was (lookup k existing))
        (lookup-insert_if (is_gone latest j) j k (del_user j) commands)
    ∙ (elim (Bool-cases (same j k)) [
      | inl e ↦ rw e (
          subst
            (λ k.
              del_over latest k (if is_gone latest j then some (del_user j) else lookup k commands)
                (lookup k existing)
              ≡ del_over latest k (lookup k commands) (some v))
            ((same_iff j k).0 e) (rw h.0 refl))
      | inr e ↦ rw e refl
    ])

is_changed-new :
    (existing : List (Text × Text)) (k v : Text)
    → lookup k existing ≡ none
    → is_changed existing k v ≡ true
unfolding is_changed
is_changed-new existing k v h = rw (is_changed, h) refl

is_changed-known :
    (existing : List (Text × Text)) (k v w : Text)
    → lookup k existing ≡ some w
    → is_changed existing k v ≡ not (same w v)
unfolding is_changed
is_changed-known existing k v w h = rw (is_changed, h) refl

both_loops :
    (existing users latest : List (Text × Text)) (k : Text) (new old : Option Text)
    → lookup k latest ≡ new
    → lookup k existing ≡ old
    → del_over latest k (set_over existing users k none new) old ≡ command_of users k new old
unfolding set_user del_user
both_loops existing users latest k none none h e = refl
both_loops existing users latest k none (some old) h e = ground (arith, h)
both_loops existing users latest k (some v) none h e = rw (is_changed-new existing k v e) refl
both_loops existing users latest k (some v) (some old) h e = elim (Bool-cases (same old v)) [
  | inl f ↦ ground (arith, h, is_changed-known existing k v old e, f)
  | inr f ↦ ground (arith, h, is_changed-known existing k v old e, f)
]

-- On maps, GenerateAclcommands has for each secret the command that the two versions of it call for,
-- and none for a secret that is neither new, nor changed, nor gone.
pub acl_commands_lem :
    (existing users latest : List (Text × Text)) (k : Text)
    → IsMap existing
    → IsMap latest
    → lookup k (acl_commands existing users latest)
      ≡ command_of users k (lookup k latest) (lookup k existing)
unfolding acl_commands lookup
acl_commands_lem existing users latest k e l =
    lookup-del_users latest (set_users existing users [] latest) existing k e
    ∙ ap (λ was. del_over latest k was (lookup k existing))
        (lookup-set_users existing users [] latest k l)
    ∙ both_loops existing users latest k (lookup k latest) (lookup k existing) refl refl

-- The new text gives no rules to the user admin.
abbrev NoAdmin : List (Text × Text) → Type 0
NoAdmin users = lookup (txt "admin") users ≡ none

parse_acl_line-NoAdmin :
    (users : List (Text × Text)) (words : List Text)
    → NoAdmin users
    → NoAdmin (parse_acl_line users words)
unfolding parse_acl_line
parse_acl_line-NoAdmin users [] h = h
parse_acl_line-NoAdmin users (a ∷ []) h = h
parse_acl_line-NoAdmin users (a ∷ b ∷ []) h = h
parse_acl_line-NoAdmin users (a ∷ user ∷ rule ∷ rules) h =
    elim (Bool-cases (same a (txt "user") && not (same user (txt "admin")))) [
      | inl e ↦
          let f : same user (txt "admin") ≡ false = ground arith in
          rw e
            (lookup-insert user (txt "admin") (join (txt " ") (user ∷ rule ∷ rules)) users ∙ rw f h)
      | inr e ↦ rw e h
    ]

parse_acl_lines-NoAdmin :
    (users : List (Text × Text)) (lines : List Text)
    → NoAdmin users
    → NoAdmin (parse_acl_lines users lines)
unfolding parse_acl_lines
parse_acl_lines-NoAdmin users [] h = h
parse_acl_lines-NoAdmin users (line ∷ lines) h =
    parse_acl_lines-NoAdmin (parse_acl_line users (fields_from [] line)) lines
      (parse_acl_line-NoAdmin users (fields_from [] line) h)

pub parse_acl_input-NoAdmin : (input : Text) → lookup (txt "admin") (parse_acl_input input) ≡ none
unfolding parse_acl_input lookup
parse_acl_input-NoAdmin input = parse_acl_lines-NoAdmin [] (split b'\n' input) refl
