-- ===== src/View/Lines.antt =====
-- DecodeNodeInfos of utils/redisutil/clusterinfo.go on the text of CLUSTER NODES: lines of words.
use rediscluster_operator.Base.Strings.{Without}
use rediscluster_operator.Base.{List, [], ◌∷◌, ◌++◌, Option, none, some, Text, All}
use rediscluster_operator.Nodes.{new_default_node}
use rediscluster_operator.Heal.{NodeInfos}
use rediscluster_operator.View.{decode_line}

-- The words of a line with a space between them, from the first one.
unfoldable pub line_of : Text → List Text → Text
line_of w [] = w
line_of w (v ∷ words) = w ++ (b' ' ∷ line_of v words)

-- The lines, each with its end.
unfoldable pub text_of : List (Text × List Text) → Text
text_of [] = []
text_of ((w, words) ∷ lines) = line_of w words ++ (b'\n' ∷ text_of lines)

-- A word of a line.
abbrev pub IsWord : Text → Type 0
IsWord w = Without b' ' w × Without b'\n' w

-- The lines that DecodeNodeInfos reads, already in words.
unfoldable pub decode_words : Text → NodeInfos → List (Text × List Text) → Option NodeInfos
decode_words addr infos [] = some infos
decode_words addr infos ((w, words) ∷ lines) = elim (decode_line addr infos (w ∷ words)) [
  | none ↦ none
  | some infos' ↦ decode_words addr infos' lines
]

-- All the words of the lines are words.
abbrev pub AreLines : List (Text × List Text) → Type 0
AreLines lines = All (λ l. IsWord l.0 × All IsWord l.1) lines

abbrev pub no_infos : NodeInfos
no_infos = record { node = new_default_node; friends = [] }

-- An address of a node as CLUSTER NODES prints it, with the port of the cluster bus.
abbrev pub address_of : Text → Text → Text → Text
address_of ip port bus = ip ++ (b':' ∷ port ++ (b'@' ∷ bus))
