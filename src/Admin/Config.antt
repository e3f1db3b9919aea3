-- ===== src/Admin/Config.antt =====
-- utils/redisutil/admin.go: SetConfigIfNeed, with ParseRedisMemConf of utils/commonutils/parse.go.
-- The connections and the new settings are lists in the order in which the maps are visited.
pub mod Wanted
use rediscluster_operator.Base.Int.{ℤ, pos, negsuc}
use rediscluster_operator.Base.Parse.{parse_int}
use rediscluster_operator.Base.Strings.{format_uint}
use rediscluster_operator.Base.{
  ℕ, zero, suc, ◌+◌, ◌*◌, ◌^◌, ◌%◌, ◌-◌, ltb, leb, Bool, true, false, ◌&&◌, List, [], ◌∷◌, ◌++◌,
  Option, none, some, Text, txt, same, lookup, if◌then◌else◌,
}
use rediscluster_operator.Admin.{
  Fault, AdminError, Redis, Cnx, has_client, handle_error, unexpected_error,
}
use rediscluster_operator.Admin.Commands.{Outcome, do_valid}

-- strings.ToLower on a text of ASCII.
unfoldable pub to_lower : Text → Text
to_lower [] = []
to_lower (c ∷ s) = (if leb b'A' c && leb c b'Z' then c + 32 else c) ∷ to_lower s

-- strings.HasSuffix, with what is before the suffix.
unfoldable pub cut_suffix : Text → Text → Option Text
cut_suffix suffix [] = if same [] suffix then some [] else none
cut_suffix suffix (c ∷ s) =
    let rest = cut_suffix suffix s in
    if same (c ∷ s) suffix
    then some []
    else (elim rest [ none ↦ none | some before ↦ some (c ∷ before) ])

-- The suffixes in the order of the tests, with their multiples.
abbrev pub units : List (Text × ℕ)
units =
    (txt "k", 1000)
    ∷ (txt "kb", 1024)
    ∷ (txt "m", 1000 * 1000)
    ∷ (txt "mb", 1024 * 1024)
    ∷ (txt "g", 1000 * 1000 * 1000)
    ∷ (txt "gb", 1024 * 1024 * 1024)
    ∷ (txt "b", 1)
    ∷ []

unfoldable pub digits_of : List (Text × ℕ) → Text → Text × ℕ
digits_of [] u = (u, 1)
digits_of ((suffix, mul) ∷ units) u = elim (cut_suffix suffix u) [
  | none ↦ digits_of units u
  | some digits ↦ (digits, mul)
]

-- FormatInt of the int64 with these 64 bits.
unfoldable pub format_int64 : ℕ → Text
format_int64 bits =
    if ltb bits (2 ^ 63) then format_uint bits else b'-' ∷ format_uint (2 ^ 64 - bits)

-- `val*mul`, which wraps.
unfoldable pub times_int64 : ℤ → ℕ → ℕ
times_int64 (pos n) mul = n * mul % 2 ^ 64
times_int64 (negsuc n) mul = (2 ^ 64 - suc n % 2 ^ 64) * mul % 2 ^ 64

-- ParseRedisMemConf
unfoldable pub parse_redis_mem_conf : Text → Option Text
parse_redis_mem_conf p =
    let u = digits_of units (to_lower p) in
    elim (parse_int u.0) [ none ↦ none | some val ↦ some (format_int64 (times_int64 val u.1)) ]

-- The keys of parseConfigMap.
abbrev pub parse_config_map : List Text
parse_config_map =
    txt "maxmemory"
    ∷ txt "proto-max-bulk-len"
    ∷ txt "client-query-buffer-limit"
    ∷ txt "repl-backlog-size"
    ∷ txt "auto-aof-rewrite-min-size"
    ∷ txt "active-defrag-ignore-bytes"
    ∷ txt "hash-max-ziplist-entries"
    ∷ txt "hash-max-ziplist-value"
    ∷ txt "stream-node-max-bytes"
    ∷ txt "set-max-intset-entries"
    ∷ txt "zset-max-ziplist-entries"
    ∷ txt "zset-max-ziplist-value"
    ∷ txt "hll-sparse-max-bytes"
    ∷ []

-- The value that a node is to have, unless it cannot be read.
unfoldable pub wanted : Text → Text → Option Text
wanted key value =
    if has_client key parse_config_map then parse_redis_mem_conf value else some value

-- `oldConfig[key]`
unfoldable pub value_at : Text → List (Text × Text) → Text
value_at key old = elim (lookup key old) [ none ↦ [] | some v ↦ v ]

abbrev pub config_set : Text → Text → List Text
config_set key value = txt "CONFIG" ∷ txt "SET" ∷ key ∷ value ∷ []

-- CONFIG GET *: the answer as a map with the entries that are texts; another type makes GetAllConfig panic.
pub data Settings : Type 0 where
  no_settings : Fault → Settings
  settings : List (Text × Text) → Settings
  no_map : Settings

module _ {S : Type 0} (redis : Redis S) (config_get : Text → S → S × Settings) where
  -- The loop over the new settings, for one node.
  unfoldable pub set_on_node : Text → List (Text × Text) → List (Text × Text) → Cnx S → Outcome S
  set_on_node addr old [] cnx = (cnx, none)
  set_on_node addr old ((key, value) ∷ new) cnx = elim (wanted key value) [
    | none ↦ set_on_node addr old new cnx
    | some v ↦
        if same v (value_at key old)
        then set_on_node addr old new cnx
        else (let r = do_valid redis addr (config_set key v) cnx in
            elim r.1 [ some e ↦ (r.0, some e) | none ↦ set_on_node addr old new r.0 ])
  ]

  -- SetConfigIfNeed, with GetAllConfig; `none` is a panic.
  unfoldable pub set_config_if_need : List Text → List (Text × Text) → Cnx S → Option (Outcome S)
  set_config_if_need [] new cnx = some (cnx, none)
  set_config_if_need (addr ∷ addrs) new cnx =
      let got = config_get addr cnx.world in
      let cnx' : Cnx S = record cnx { world = got.0 } in
      elim got.1 [
        | no_settings e ↦
            some ((handle_error redis addr (some e) cnx').0, some (unexpected_error addr e))
        | no_map ↦ none
        | settings old ↦
            (let r = set_on_node addr old new cnx' in
              elim r.1 [ some e ↦ some (r.0, some e) | none ↦ set_config_if_need addrs new r.0 ])
      ]
