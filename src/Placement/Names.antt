-- ===== src/Placement/Names.antt =====
-- The names of the stateful sets of a cluster (ClusterStatefulSetName).
use rediscluster_operator.Base.Parse.{cut_last, cut_last-append}
use rediscluster_operator.Base.Strings.{
  format_uint, parse_uint, parse_uint-format_uint, format_uint-AllDigits, Without-of-AllDigits,
}
use rediscluster_operator.Base.{
  ℕ, ◌<◌, ◌^◌, ◌≡◌, refl, sym, ap, ◌∙◌, ◌∷◌, ◌++◌, Option, none, some, Text, txt, same, same_iff,
  append_assoc, Bool-cases, inl, inr, arith, ◌==◌,
}
use rediscluster_operator.Placement.{cluster_statefulset_name}

pub cut_last-cluster_statefulset_name :
    (name : Text) (i : ℕ)
    → cut_last b'-' (cluster_statefulset_name name i) ≡ some (txt "drc-" ++ name, format_uint i)
unfolding cluster_statefulset_name
cut_last-cluster_statefulset_name name i =
    ap (cut_last b'-') (sym (append_assoc (txt "drc-") name (b'-' ∷ format_uint i)))
    ∙ cut_last-append b'-' (txt "drc-" ++ name) (format_uint i)
        (Without-of-AllDigits b'-' (format_uint i) refl (format_uint-AllDigits i))

-- The number that a name ends in.
abbrev index_of : Text → Option ℕ
index_of s = elim (cut_last b'-' s) [ none ↦ none | some (before, after) ↦ parse_uint after ]

index_of-name :
    (name : Text) (i : ℕ) → i < 2 ^ 64 → index_of (cluster_statefulset_name name i) ≡ some i
index_of-name name i h =
    rw (cut_last-cluster_statefulset_name name i, index_of) (parse_uint-format_uint i h)

pub names_differ :
    (name : Text) (i j : ℕ)
    → i < 2 ^ 64
    → j < 2 ^ 64
    → same (cluster_statefulset_name name i) (cluster_statefulset_name name j) ≡ (i == j)
names_differ name i j hi hj = elim (Bool-cases (i == j)) [
  | inl e ↦
      rw e (
        ground
          (arith, same_iff (cluster_statefulset_name name i) (cluster_statefulset_name name j)))
  | inr e ↦ ground (
    arith,
    same_iff (cluster_statefulset_name name i) (cluster_statefulset_name name j),
    index_of-name name i hi,
    index_of-name name j hj,
  )
]
