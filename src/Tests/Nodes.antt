-- ===== src/Tests/Nodes.antt =====
-- utils/redisutil/node.go on small inputs.
use rediscluster_operator.Base.{same, ◌≡◌, refl, true, false, txt}
use rediscluster_operator.Base.Strings.{split}
use rediscluster_operator.Nodes.Roles.{names_role}

flags_of_slave : names_role (split b',' (txt "myself,slave")) ≡ true
unfolding names_role split same
flags_of_slave = refl

flags_of_none : names_role (split b',' (txt "noflags")) ≡ false
unfolding names_role split same
flags_of_none = refl
