-- ===== src/Tests/Placement.antt =====
-- controllers/clustering/placement_v2.go and roles.go on small inputs.
use rediscluster_operator.Base.{
  ℕ, ◌+◌, ◌≡◌, refl, false, List, [], ◌∷◌, Option, some, Text, txt, same, lookup, insert, slice_at,
  arith,
}
use rediscluster_operator.Base.Strings.{format_uint}
use rediscluster_operator.Nodes.{Node, is_master_with_slot, get_role}
use rediscluster_operator.Placement.{
  Ctx, ha_unset, cluster_statefulset_name, dispatch_master, dispatch_masters, dispatch_masters_loop,
  placed, place_new, place_masters,
}
use rediscluster_operator.Placement.Masters.{IsPlaced, dispatch_masters_lem}
use rediscluster_operator.Tests.{node_a, node_b, node_c}

abbrev set_0 : Text
set_0 = txt "drc-c-0"

abbrev some_ctx : Ctx
some_ctx = record {
  expected_master_num = 1;
  cluster_name = txt "c";
  cluster = (node_a.id, node_a) ∷ (node_b.id, node_b) ∷ [];
  nodes = (set_0, node_c ∷ node_a ∷ []) ∷ [];
  current_masters = node_a ∷ [];
  new_masters_by_sts = [];
  slaves_by_master = [];
  best_effort = false;
  ha_enabled = false;
  zones = [];
  ha_status = ha_unset;
}

abbrev placed_ctx : Ctx
placed_ctx = record some_ctx { new_masters_by_sts = (set_0, node_a) ∷ [] }

places_a : dispatch_masters some_ctx ≡ placed placed_ctx
unfolding dispatch_masters dispatch_masters_loop dispatch_master cluster_statefulset_name
    format_uint lookup same is_master_with_slot get_role insert
places_a = refl

abbrev on : Text → Text → Node
on id vm = record node_c { id = id; ip = id; node_name = vm }

-- Two stateful sets with no slots; both have a node on the first VM.
abbrev fresh_ctx : Ctx
fresh_ctx = record some_ctx {
  expected_master_num = 2;
  nodes =
      (set_0, on (txt "p") (txt "vm1") ∷ [])
      ∷ (txt "drc-c-1", on (txt "q") (txt "vm1") ∷ on (txt "r") (txt "vm2") ∷ [])
      ∷ [];
  current_masters = [];
}

abbrev spread_ctx : Ctx
spread_ctx = record fresh_ctx {
  new_masters_by_sts =
      (set_0, on (txt "p") (txt "vm1")) ∷ (txt "drc-c-1", on (txt "r") (txt "vm2")) ∷ [];
}

spreads : dispatch_masters fresh_ctx ≡ placed spread_ctx
unfolding dispatch_masters dispatch_masters_loop dispatch_master cluster_statefulset_name
    format_uint lookup same is_master_with_slot get_role insert place_new place_masters slice_at
spreads = refl

dispatch_masters_lem_example : IsPlaced fresh_ctx spread_ctx
dispatch_masters_lem_example = dispatch_masters_lem fresh_ctx spread_ctx refl (omega arith) spreads

-- Counts the calls, each of which fails.
abbrev counting : Node → Text → ℕ → ℕ × Option ℕ
counting slave master s = (s + 1, some s)

abbrev two_slaves : List (Text × List Node)
two_slaves = (txt "z", node_b ∷ []) ∷ (node_a.id, node_b ∷ node_c ∷ []) ∷ []
