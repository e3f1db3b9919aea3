-- ===== src/Rebalance/Moves.antt =====
-- The commands of moveSlot, errors included.
use rediscluster_operator.Base.{ℕ, true, false, ◌≡◌, refl, ◌⊎◌, inl, inr, List, ◌∷◌, Bool-cases}
use rediscluster_operator.Nodes.{Node, ip_port}
use rediscluster_operator.Rebalance.{
  importing, migrating, node, Command, set_slot, migrate_keys, Admin, Sent, move_slot,
}

module _ (admin : Admin) (source target : Node) (slot : ℕ) (sent : List Command) where
  abbrev pub imports : Command
  imports = set_slot (ip_port target) importing slot target.id

  abbrev pub migrates : Command
  migrates = set_slot (ip_port source) migrating slot source.id

  abbrev pub moves_keys : Command
  moves_keys = migrate_keys (ip_port source) target.id slot

  abbrev pub opened : List Command
  opened = moves_keys ∷ migrates ∷ imports ∷ sent

  abbrev pub named : List Command
  named =
      set_slot (ip_port source) node slot target.id
      ∷ set_slot (ip_port target) node slot target.id
      ∷ opened

  -- The four ways in which the calls can end.
  abbrev pub Ends : Sent → Type 0
  Ends r =
      ((admin sent imports ≡ true) × (r ≡ record { sent = imports ∷ sent; failed = true }))
      ⊎ (((admin sent imports ≡ false)
            × (admin (imports ∷ sent) migrates ≡ true)
            × (r ≡ record { sent = migrates ∷ imports ∷ sent; failed = true }))
          ⊎ (((admin sent imports ≡ false)
                × (admin (imports ∷ sent) migrates ≡ false)
                × (admin (migrates ∷ imports ∷ sent) moves_keys ≡ true)
                × (r ≡ record { sent = opened; failed = true }))
              ⊎ ((admin sent imports ≡ false)
                  × (admin (imports ∷ sent) migrates ≡ false)
                  × (admin (migrates ∷ imports ∷ sent) moves_keys ≡ false)
                  × (r ≡ record { sent = named; failed = false }))))

  -- moveSlot sends IMPORTING to the target, MIGRATING to the source and then migrates the keys, and
  -- returns at the first of these that fails, with nothing sent after it. If none fails, it returns
  -- no error, and the target is told of the new owner before the source.
  pub move_slot-Ends : Ends (move_slot admin source target slot sent)
  unfolding move_slot
  move_slot-Ends = elim (Bool-cases (admin sent imports)) [
    | inl a ↦ inl (a, rw a refl)
    | inr a ↦ elim (Bool-cases (admin (imports ∷ sent) migrates)) [
      | inl b ↦ inr (inl (a, b, rw (a, b) refl))
      | inr b ↦ elim (Bool-cases (admin (migrates ∷ imports ∷ sent) moves_keys)) [
        | inl c ↦ inr (inr (inl (a, b, c, rw (a, b, c) refl)))
        | inr c ↦ inr (inr (inr (a, b, c, rw (a, b, c) refl)))
      ]
    ]
  ]
