-- ===== src/Tests/Config.antt =====
-- SetConfigIfNeed and ParseRedisMemConf on small inputs.
use rediscluster_operator.Base.Maps.{IsMap}
use rediscluster_operator.Base.{
  ◌≡◌, refl, false, true, List, [], ◌∷◌, none, some, Text, txt, same, lookup, insert, lookup-insert,
  if◌then◌else◌, arith, Bool-cases, inl, inr,
}
use rediscluster_operator.Base.Parse.{parse_int}
use rediscluster_operator.Base.Strings.{parse_uint, format_uint}
use rediscluster_operator.Admin.{Fault, refused, Reply, answered_text, answered_other, Redis, Cnx}
use rediscluster_operator.Admin.Config.{
  Settings, settings, value_at, parse_redis_mem_conf, digits_of, cut_suffix, to_lower, format_int64,
  times_int64, set_config_if_need,
}
use rediscluster_operator.Admin.Config.Wanted.{IsRead, IsWritten, AllSet, set_config_if_need_lem}

two_gigabytes : parse_redis_mem_conf (txt "2GB") ≡ some (txt "2147483648")
unfolding parse_redis_mem_conf parse_int digits_of cut_suffix to_lower same parse_uint format_int64
    times_int64 format_uint
two_gigabytes = refl

no_unit : parse_redis_mem_conf (txt "2 gb") ≡ none
unfolding parse_redis_mem_conf parse_int digits_of cut_suffix to_lower same parse_uint
no_unit = refl

-- The product wraps.
too_much : parse_redis_mem_conf (txt "9223372036854775807k") ≡ some (txt "-1000")
unfolding parse_redis_mem_conf parse_int digits_of cut_suffix to_lower same parse_uint format_int64
    times_int64 format_uint
too_much = refl

-- The settings of each node.
abbrev Nodes : Type 0
Nodes = Text → List (Text × Text)

abbrev value_of : Nodes → Text → Text → Text
value_of s addr key = value_at key (s addr)

abbrev config_get : Text → Nodes → Nodes × Settings
config_get addr s = (s, settings (s addr))

abbrev unknown_setting : Fault
unknown_setting = record { message = txt "ERR Unknown option"; network = false }

-- Settings are stored as they are given, and one is not known.
abbrev run : Text → List Text → Nodes → Nodes × Reply
run addr (config ∷ set ∷ key ∷ value ∷ []) s =
    if same key (txt "bogus")
    then (s, refused unknown_setting)
    else (λ a. if same a addr then insert key value (s a) else s a, answered_text (txt "OK"))
run addr _ s = (s, answered_other)

abbrev redis : Redis Nodes
redis = record {
  exec = run;
  pipe = λ addr cmds s. (s, none);
  migrate = λ addr args s. (s, answered_other);
  pings = λ s addr. true;
}

abbrev as_given : Text → Text → Text
as_given key value = value

reads : IsRead redis config_get value_of as_given
reads addr s = (s addr, (refl, λ key. refl))

value_at-insert :
    (key value k : Text) (m : List (Text × Text))
    → value_at k (insert key value m) ≡ (if same key k then value else value_at k m)
unfolding value_at
value_at-insert key value k m = elim (Bool-cases (same key k)) [
  | inl e ↦ ground (arith, lookup-insert key k value m, e)
  | inr e ↦ ground (arith, lookup-insert key k value m, e)
]

writes : IsWritten redis config_get value_of as_given
writes addr key value s = elim (Bool-cases (same key (txt "bogus"))) [
  | inl e ↦ inl (unknown_setting, rw e refl)
  | inr e ↦ inr (
    txt "OK",
    (
      rw e refl,
      λ a k. rw e (elim (Bool-cases (same a addr)) [
        | inl f ↦ rw f (value_at-insert key value k (s a))
        | inr f ↦ rw f refl
      ]),
    ),
  )
]

abbrev one_node : Cnx Nodes
one_node = record { clients = txt "a:1" ∷ []; password = []; world = λ a. [] }

abbrev new_settings : List (Text × Text)
new_settings = (txt "maxmemory", txt "2gb") ∷ (txt "appendonly", txt "yes") ∷ []

new_settings-IsMap : IsMap new_settings
unfolding lookup same
new_settings-IsMap = (refl, (refl, tt))

set_config_if_need_lem_example :
    AllSet redis config_get value_of as_given writes one_node.clients new_settings one_node
      (set_config_if_need redis config_get one_node.clients new_settings one_node)
set_config_if_need_lem_example =
    set_config_if_need_lem redis config_get value_of as_given writes reads one_node.clients
      new_settings one_node new_settings-IsMap
