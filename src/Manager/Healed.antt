-- ===== src/Manager/Healed.antt =====
-- Heal of controllers/manager/healer.go: which of the repairs one round makes.
use rediscluster_operator.Base.{
  ◌≡◌, refl, ◌⊎◌, ◌≢◌, Bool, true, false, List, [], ◌∷◌, Text, ltb, if◌then◌else◌, Bool-cases,
  List-cases, inl, inr,
}
use rediscluster_operator.Heal.{NodeInfos, Repairs, forget, send}
use rediscluster_operator.Heal.{Admin}
use rediscluster_operator.Heal.Failed.{list_ghost_nodes, forget_all, fix_failed_nodes}
use rediscluster_operator.Heal.Untrusted.{fix_untrusted_nodes}
use rediscluster_operator.Manager.{Round, heal}

-- The ghosts of the round, in the order of the visit.
abbrev pub ghosts : Round → List NodeInfos → List Text
ghosts r infos = r.visit_ghosts (list_ghost_nodes r.cluster_replicas r.master_size infos)

abbrev pub failed_repair : Round → List NodeInfos → Bool × Repairs
failed_repair r infos =
    fix_failed_nodes r.dry_run r.admin r.visit_ghosts r.cluster_replicas r.master_size infos

abbrev pub untrusted_repair : Round → List NodeInfos → Bool × Repairs
untrusted_repair r infos = fix_untrusted_nodes r.dry_run r.admin r.visit_untrusted r.pods infos

forget_all-done :
    (dry_run : Bool) (admin : Admin) (s : Repairs) (ids : List Text)
    → (forget_all dry_run admin true s ids).0 ≡ true
unfolding forget_all
forget_all-done d admin s [] = refl
forget_all-done d admin s (id ∷ ids) =
    forget_all-done d admin (if d then s else send admin (forget id) s) ids

-- Either the last case returns what FixUntrustedNodes returns.
settle : (r : Bool × Repairs) → (if ltb 0 r.1.errs then r else if r.0 then r else (false, r.1)) ≡ r
settle (true, s) = elim (Bool-cases (ltb 0 s.errs)) [ inl e ↦ rw e refl | inr e ↦ rw e refl ]
settle (false, s) = elim (Bool-cases (ltb 0 s.errs)) [ inl e ↦ rw e refl | inr e ↦ rw e refl ]

quiet :
    (r : Round) (infos : List NodeInfos)
    → ghosts r infos ≡ []
    → failed_repair r infos ≡ (false, record { sent = []; errs = 0 })
unfolding fix_failed_nodes forget_all
quiet r infos e = rw (fix_failed_nodes, e, forget_all) refl

busy :
    (r : Round) (infos : List NodeInfos) (id : Text) (ids : List Text)
    → ghosts r infos ≡ id ∷ ids
    → (failed_repair r infos).0 ≡ true
unfolding fix_failed_nodes forget_all
busy r infos id ids e =
    rw (fix_failed_nodes, e, forget_all)
      (forget_all-done r.dry_run r.admin
        (if r.dry_run
          then record { sent = []; errs = 0 }
          else send r.admin (forget id) (record { sent = []; errs = 0 }))
        ids)

-- One round of Heal makes one kind of repair: where there is a ghost, those of FixFailedNodes, and no
-- untrusted node is touched; where there is none, those of FixUntrustedNodes.
pub heal_lem :
    (r : Round) (infos : List NodeInfos)
    → ((ghosts r infos ≢ []) × (heal r infos ≡ failed_repair r infos) × ((heal r infos).0 ≡ true))
      ⊎ ((ghosts r infos ≡ []) × (heal r infos ≡ untrusted_repair r infos))
unfolding heal
heal_lem r infos = elim (List-cases (ghosts r infos)) [
  | inl e ↦ inr (e, rw (heal, quiet r infos e) (settle (untrusted_repair r infos)))
  | inr (id, ids, e) ↦
      let done = busy r infos id ids e in
      elim (Bool-cases (ltb 0 (failed_repair r infos).1.errs)) [
        | inl f ↦ inl ((λ n. absurd (cc)), rw (heal, f) refl, rw (heal, f) done)
        | inr f ↦ inl ((λ n. absurd (cc)), rw (heal, f, done) refl, rw (heal, f, done) refl)
      ]
]
