-- ===== src/Acl.antt =====
-- resources/statefulsets/helper.go: the commands that bring the users of Redis to the new secrets.
-- A map that is ranged over is a list in the order of the visit.
pub mod Users
pub mod Changed
pub mod Failing
use rediscluster_operator.Base.Strings.{split}
use rediscluster_operator.Base.{
  ℕ, Bool, true, false, ◌&&◌, ◌||◌, not, List, [], ◌∷◌, ◌++◌, Option, none, some, Text, txt, same,
  lookup, insert, ◌==◌, leb, if◌then◌else◌, length, ◌⊎◌, inl, inr,
}
use rediscluster_operator.Status.{join}

-- unicode.IsSpace on a byte of ASCII.
abbrev pub is_space : ℕ → Bool
is_space c = c == 32 || (leb 9 c && leb c 13)

-- strings.Fields: `word` holds the bytes since the last space.
unfoldable pub fields_from : Text → Text → List Text
fields_from [] [] = []
fields_from (w ∷ word) [] = (w ∷ word) ∷ []
fields_from [] (c ∷ s) = if is_space c then fields_from [] s else fields_from (c ∷ []) s
fields_from (w ∷ word) (c ∷ s) =
    if is_space c then (w ∷ word) ∷ fields_from [] s else fields_from ((w ∷ word) ++ c ∷ []) s

-- The last element of strings.Split(s, "--"): `word` holds the bytes since the last separator.
unfoldable pub last_part : Text → Text → Text
last_part word [] = word
last_part word (c ∷ []) = word ++ c ∷ []
last_part word (c ∷ d ∷ s) =
    let cut = last_part [] s in
    let rest = last_part (word ++ c ∷ []) (d ∷ s) in if c == b'-' && d == b'-' then cut else rest

-- One line of parseAclInput. strings.Fields leaves out the spaces that TrimSpace cuts.
unfoldable pub parse_acl_line : List (Text × Text) → List Text → List (Text × Text)
parse_acl_line users (command ∷ user ∷ rule ∷ rules) =
    if same command (txt "user") && not (same user (txt "admin"))
    then insert user (join (txt " ") (user ∷ rule ∷ rules)) users
    else users
parse_acl_line users _ = users

unfoldable pub parse_acl_lines : List (Text × Text) → List Text → List (Text × Text)
parse_acl_lines users [] = users
parse_acl_lines users (line ∷ lines) =
    parse_acl_lines (parse_acl_line users (fields_from [] line)) lines

-- parseAclInput
unfoldable pub parse_acl_input : Text → List (Text × Text)
parse_acl_input input = parse_acl_lines [] (split b'\n' input)

-- The user that a secret is named after.
unfoldable pub acl_user : Text → Text
acl_user key = last_part [] key

-- The command for a user that is new or changed; a user with no rules gives an empty text.
unfoldable pub set_user : List (Text × Text) → Text → Text
set_user users key =
    txt "acl setuser " ++ (elim (lookup (acl_user key) users) [ none ↦ [] | some rules ↦ rules ])

-- The command for a user that is gone.
unfoldable pub del_user : Text → Text
del_user key = txt "acl deluser " ++ acl_user key

-- The secret is new, or has another version.
unfoldable pub is_changed : List (Text × Text) → Text → Text → Bool
is_changed existing key version = elim (lookup key existing) [
  | none ↦ true
  | some old ↦ not (same old version)
]

-- The first loop of GenerateAclcommands, over the new secrets.
unfoldable pub set_users :
    List (Text × Text)
    → List (Text × Text)
    → List (Text × Text)
    → List (Text × Text)
    → List (Text × Text)
set_users existing users commands [] = commands
set_users existing users commands ((key, version) ∷ latest) =
    set_users existing users
      (if is_changed existing key version
        then insert key (set_user users key) commands
        else commands)
      latest

abbrev pub is_gone : List (Text × Text) → Text → Bool
is_gone latest key = elim (lookup key latest) [ none ↦ true | some _ ↦ false ]

-- The second loop, over the secrets that the status holds.
unfoldable pub del_users :
    List (Text × Text) → List (Text × Text) → List (Text × Text) → List (Text × Text)
del_users latest commands [] = commands
del_users latest commands ((key, version) ∷ existing) =
    del_users latest (if is_gone latest key then insert key (del_user key) commands else commands)
      existing

-- The commands of GenerateAclcommands, by secret.
unfoldable pub acl_commands :
    List (Text × Text) → List (Text × Text) → List (Text × Text) → List (Text × Text)
acl_commands existing users latest = del_users latest (set_users existing users [] latest) existing

-- GenerateAclcommands, with the text of its error.
unfoldable pub generate_acl_commands :
    Option (List (Text × Text)) → Text → List (Text × Text) → Text ⊎ List (Text × Text)
generate_acl_commands none conf latest = inl (txt "secrets version map invalid in status")
generate_acl_commands (some existing) conf latest =
    let commands = acl_commands existing (parse_acl_input conf) latest in
    if length existing == 0
    then inl (txt "secrets version map invalid in status")
    else if length conf == 0
    then inl (txt "invalid new secrets")
    else if length commands == 0
    then inl (txt "unexpected error when trying to create acl comands")
    else inr commands
