-- ===== src/Migration/Dispatch/Order.antt =====
-- The order of the commands of one round of DispatchSlotToNewMasters, errors included.
use rediscluster_operator.Base.{
  ℕ, true, false, ◌||◌, ◌≡◌, refl, sym, ◌∙◌, append_assoc, ◌⊎◌, inl, inr, List, [], ◌∷◌, ap,
  append-nil, Bool, not, ◌&&◌, if◌then◌else◌, ◌++◌, some, same, ◌==◌, Bool-cases,
}
use rediscluster_operator.Nodes.{ip_port, total_slots}
use rediscluster_operator.Nodes.Heap.{Heap}
use rediscluster_operator.Slots.{remove_slots}
use rediscluster_operator.Migration.{Nodes}
use rediscluster_operator.Migration.Dispatch.{
  importing, migrating, node, Command, set_slots, migrate_keys, Admin, Dispatch, tell_others,
  open_move, close_move, dispatch_info, set_node_slots,
}

-- A node at another address than the two of the move, which still holds slots.
abbrev pub is_other : Heap → ℕ → ℕ → ℕ → Bool
is_other h from to m =
    not (same (ip_port (h m)) (ip_port (h to)) || same (ip_port (h m)) (ip_port (h from)))
    && not (total_slots (h m) == 0)

-- The commands that name the owner of the slots to the others among the nodes, the latest first.
abbrev pub told : Heap → ℕ → ℕ → List ℕ → Nodes → List Command
told h from to slots [] = []
told h from to slots (m ∷ all) =
    told h from to slots all
    ++ (if is_other h from to m then set_slots (ip_port (h m)) node slots (h to).id ∷ [] else [])

-- tell_others adds just these.
tell_others_lem :
    (h : Heap) (from to : ℕ) (slots : List ℕ) (all : Nodes) (sent : List Command)
    → tell_others h from to slots all sent ≡ told h from to slots all ++ sent
unfolding tell_others
tell_others_lem h from to slots [] sent = refl
tell_others_lem h from to slots (m ∷ all) sent =
    elim (Bool-cases
      (same (ip_port (h m)) (ip_port (h to)) || same (ip_port (h m)) (ip_port (h from)))) [
        | inl e ↦ rw e (
            tell_others_lem h from to slots all sent
            ∙ ap (λ l. l ++ sent) (sym (append-nil (told h from to slots all))))
        | inr e ↦ elim (Bool-cases (total_slots (h m) == 0)) [
          | inl z ↦
              rw (e, z)
                (tell_others_lem h from to slots all sent
                  ∙ ap (λ l. l ++ sent) (sym (append-nil (told h from to slots all))))
          | inr z ↦
              rw (e, z)
                (tell_others_lem h from to slots all
                    (set_slots (ip_port (h m)) node slots (h to).id ∷ sent)
                  ∙ sym (append_assoc (told h from to slots all) (_ ∷ []) sent))
        ]
      ]

module _ (admin : Admin) (all : Nodes) (h : Heap) (from to : ℕ) (slots : List ℕ) where
  abbrev pub imports : Command
  imports = set_slots (ip_port (h to)) importing slots (h from).id

  abbrev pub migrates : Command
  migrates = set_slots (ip_port (h from)) migrating slots (h to).id

  -- The five commands of a move that goes through, the latest first.
  abbrev pub moved : List Command → List Command
  moved sent =
      set_slots (ip_port (h from)) node slots (h to).id
      ∷ set_slots (ip_port (h to)) node slots (h to).id
      ∷ migrate_keys (ip_port (h from)) (h to).id slots
      ∷ migrates
      ∷ imports
      ∷ sent

  -- The notes of the nodes once the source has given up the slots.
  abbrev pub noted : Heap
  noted = set_node_slots h from (remove_slots (h from).slots slots)

  -- The three ways in which a round can end.
  abbrev pub Ends : List Command → Dispatch → Type 0
  Ends sent d =
      ((admin sent imports ≡ true)
        × (d ≡ record { heap = h; sent = imports ∷ sent; failed = true }))
      ⊎ (((admin sent imports ≡ false)
            × (admin (imports ∷ sent) migrates ≡ true)
            × (d ≡ record { heap = h; sent = migrates ∷ imports ∷ sent; failed = true }))
          ⊎ ((admin sent imports ≡ false)
              × (admin (imports ∷ sent) migrates ≡ false)
              × (d.failed ≡ false)
              × (d.sent ≡ told noted from to slots all ++ moved sent)))

  -- A round for an entry with a source sends IMPORTING to the target, then MIGRATING to the source.
  -- An error of either ends it at once, with the notes of the nodes unchanged. Otherwise the keys
  -- are migrated, the new owner is named to the target before it is named to the source, and then,
  -- in order, to each node of the list at another address that still holds slots, and to no other.
  pub dispatch_info-order :
      (sent : List Command)
      → Ends sent
          (dispatch_info admin all h sent (record { from = some from; to = to; slots = slots }))
  unfolding dispatch_info open_move close_move
  dispatch_info-order sent = elim (Bool-cases (admin sent imports)) [
    | inl bad ↦ inl (bad, rw bad refl)
    | inr good ↦ elim (Bool-cases (admin (imports ∷ sent) migrates)) [
      | inl bad ↦ inr (inl (good, bad, rw (good, bad) refl))
      | inr fine ↦ inr (
          inr (
            good,
            fine,
            rw (good, fine) refl,
            rw (good, fine) (tell_others_lem noted from to slots all (moved sent)),
          ))
    ]
  ]
