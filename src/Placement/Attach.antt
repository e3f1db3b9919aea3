-- ===== src/Placement/Attach.antt =====
-- AttachingSlavesToMaster of controllers/clustering/roles.go.
-- `attach` stands for AttachSlaveToMaster of IAdmin: it may change the state of Redis, and returns an
-- error or nil. The map of slaves is a list in the order of the visit.
use rediscluster_operator.Base.{
  ◌≡◌, refl, List, [], ◌∷◌, ◌++◌, Option, none, some, Text, Option-cases, inl, inr, lookup,
}
use rediscluster_operator.Nodes.{Node}

module _ {S E : Type 0} (attach : Node → Text → S → S × Option E) where
  abbrev last_error : Option E → Option E → Option E
  last_error old none = old
  last_error old (some e) = some e

  -- The inner loop over the slaves of a master.
  unfoldable pub attach_all : Text → List Node → Option E → S → S × Option E
  attach_all master [] err s = (s, err)
  attach_all master (slave ∷ slaves) err s =
      let r = attach slave master s in attach_all master slaves (last_error err r.1) r.0

  -- The outer loop; a master that the cluster does not know is skipped.
  unfoldable pub attach_loop :
      List (Text × Node) → List (Text × List Node) → Option E → S → S × Option E
  attach_loop cluster [] err s = (s, err)
  attach_loop cluster ((id, slaves) ∷ m) err s = elim (lookup id cluster) [
    | none ↦ attach_loop cluster m err s
    | some master ↦ let r = attach_all master.id slaves err s in attach_loop cluster m r.1 r.0
  ]

  -- AttachingSlavesToMaster
  unfoldable pub attaching_slaves_to_master :
      List (Text × Node) → List (Text × List Node) → S → S × Option E
  attaching_slaves_to_master cluster slaves s = attach_loop cluster slaves none s

  -- The calls that are due: each slave of each known master.
  unfoldable pub calls_of : Text → List Node → List (Node × Text)
  calls_of master [] = []
  calls_of master (slave ∷ slaves) = (slave, master) ∷ calls_of master slaves

  unfoldable pub calls : List (Text × Node) → List (Text × List Node) → List (Node × Text)
  calls cluster [] = []
  calls cluster ((id, slaves) ∷ m) = elim (lookup id cluster) [
    | none ↦ calls cluster m
    | some master ↦ calls_of master.id slaves ++ calls cluster m
  ]

  -- The state after the calls in their order.
  unfoldable pub state_after : List (Node × Text) → S → S
  state_after [] s = s
  state_after ((slave, master) ∷ cs) s = state_after cs (attach slave master s).0

  -- The error of the last call that fails, `old` where none does.
  unfoldable pub last_failure : List (Node × Text) → Option E → S → Option E
  last_failure [] old s = old
  last_failure ((slave, master) ∷ cs) old s =
      let r = attach slave master s in last_failure cs (last_error old r.1) r.0

  attach_all_lem :
      (cluster : List (Text × Node)) (m : List (Text × List Node)) (master : Text)
      (slaves : List Node) (err : Option E) (s : S)
      → ((err : Option E) (s : S)
          → attach_loop cluster m err s
            ≡ (state_after (calls cluster m) s, last_failure (calls cluster m) err s))
      → attach_loop cluster m (attach_all master slaves err s).1 (attach_all master slaves err s).0
        ≡ (
          state_after (calls_of master slaves ++ calls cluster m) s,
          last_failure (calls_of master slaves ++ calls cluster m) err s,
        )
  unfolding attach_all state_after last_failure calls_of
  attach_all_lem cluster m master [] err s h = h err s
  attach_all_lem cluster m master (n ∷ slaves) err s h =
      let r = attach n master s in attach_all_lem cluster m master slaves (last_error err r.1) r.0 h

  attach_loop_lem :
      (cluster : List (Text × Node)) (m : List (Text × List Node)) (err : Option E) (s : S)
      → attach_loop cluster m err s
        ≡ (state_after (calls cluster m) s, last_failure (calls cluster m) err s)
  unfolding attach_loop calls state_after last_failure
  attach_loop_lem cluster [] err s = refl
  attach_loop_lem cluster ((id, slaves) ∷ m) err s = elim (Option-cases (lookup id cluster)) [
    | inl e ↦ rw (attach_loop, calls, e) (attach_loop_lem cluster m err s)
    | inr (master, e) ↦
        rw (attach_loop, calls, e)
          (attach_all_lem cluster m master.id slaves err s (attach_loop_lem cluster m))
  ]

  -- AttachingSlavesToMaster asks to attach every slave of every master that the cluster knows, in
  -- order, also after a call that fails, and returns the error of the last call that fails, nil where
  -- none does.
  pub attaching_slaves_to_master_lem :
      (cluster : List (Text × Node)) (slaves : List (Text × List Node)) (s : S)
      → attaching_slaves_to_master cluster slaves s
        ≡ (state_after (calls cluster slaves) s, last_failure (calls cluster slaves) none s)
  unfolding attaching_slaves_to_master
  attaching_slaves_to_master_lem cluster slaves s = attach_loop_lem cluster slaves none s
