-- ===== src/Tests/Acl.antt =====
-- resources/statefulsets/helper.go on small inputs.
use rediscluster_operator.Base.Maps.{IsMap}
use rediscluster_operator.Base.{
  ◌≡◌, ◌↔◌, ◌⊎◌, refl, inl, inr, false, List, [], ◌∷◌, ◌++◌, none, some, Text, txt, same, lookup,
  length,
}
use rediscluster_operator.Manager.{is_diff_acl_versions}
use rediscluster_operator.Base.{insert}
use rediscluster_operator.Base.Strings.{split, Without}
use rediscluster_operator.Acl.Users.{EndsWell}
use rediscluster_operator.Status.{join}
use rediscluster_operator.Acl.{
  parse_acl_input, generate_acl_commands, acl_commands, del_users, set_users, is_changed, set_user,
  del_user, acl_user, parse_acl_lines, last_part, parse_acl_line, fields_from,
}
use rediscluster_operator.Acl.Changed.{command_of}
use rediscluster_operator.Acl.Failing.{generate_acl_commands_lem}

-- One secret has a new version, one is gone and one is new.
abbrev old_versions : List (Text × Text)
old_versions = (txt "c--bob", txt "1") ∷ (txt "c--eve", txt "1") ∷ []

abbrev new_versions : List (Text × Text)
new_versions = (txt "c--bob", txt "2") ∷ (txt "c--joe", txt "1") ∷ []

abbrev new_conf : Text
new_conf =
    txt "user bob on +@all" ++ b'\n' ∷ txt " user joe off" ++ b'\n' ∷ txt "user admin on +@all"

old_versions-IsMap : IsMap old_versions
unfolding lookup same
old_versions-IsMap = (refl, (refl, tt))

new_versions-IsMap : IsMap new_versions
unfolding lookup same
new_versions-IsMap = (refl, (refl, tt))

three_commands :
    generate_acl_commands (some old_versions) new_conf new_versions
    ≡ inr (
        (txt "c--bob", txt "acl setuser bob on +@all")
        ∷ (txt "c--joe", txt "acl setuser joe off")
        ∷ (txt "c--eve", txt "acl deluser eve")
        ∷ [])
unfolding generate_acl_commands acl_commands del_users lookup same insert set_users is_changed
    set_user del_user parse_acl_input acl_user parse_acl_lines last_part split parse_acl_line
    fields_from join
three_commands = refl

-- The rules of admin are left out of what is parsed, so its command has no user.
admin_has_no_rules :
    generate_acl_commands
      (some ((txt "c--admin", txt "1") ∷ []))
      new_conf
      ((txt "c--admin", txt "2") ∷ [])
    ≡ inr ((txt "c--admin", txt "acl setuser ") ∷ [])
unfolding generate_acl_commands acl_commands del_users lookup same insert set_users is_changed
    set_user parse_acl_input acl_user parse_acl_lines last_part split parse_acl_line fields_from
    join
admin_has_no_rules = refl

generate_acl_commands_lem_example :
    (((msg : Text) × (generate_acl_commands (some old_versions) new_conf new_versions ≡ inl msg))
      ↔ ((length old_versions ≡ 0)
          ⊎ ((length new_conf ≡ 0) ⊎ (is_diff_acl_versions old_versions new_versions ≡ false))))
    × ((commands : List (Text × Text)) (k : Text)
        → generate_acl_commands (some old_versions) new_conf new_versions ≡ inr commands
        → lookup k commands
          ≡ command_of (parse_acl_input new_conf) k (lookup k new_versions) (lookup k old_versions))
    × (lookup (txt "admin") (parse_acl_input new_conf) ≡ none)
    × ((front user : Text)
        → EndsWell front
        → Without b'-' user
        → acl_user (front ++ b'-' ∷ b'-' ∷ user) ≡ user)
generate_acl_commands_lem_example =
    generate_acl_commands_lem old_versions new_conf new_versions old_versions-IsMap
      new_versions-IsMap
