-- ===== src/Lib.antt =====
-- rediscluster-operator keeps Redis clusters on Kubernetes. In each round it reads how every Redis
-- node sees the cluster (utils/redisutil), repairs what is broken (controllers/heal), places masters
-- and their slaves and, when the number of masters changes, plans which slots move and moves them
-- (controllers/clustering). Then it makes the status of the cluster, replaces the pods that are out of
-- date and spreads the masters over the zones (controllers/distributedrediscluster, whose Reconcile
-- is one such round).
--
-- The files:
--   Base        lists, strings, maps, sorting and signed integers as the sources use them.
--   Slots       utils/redisutil/slot.go. `contains`, `remove_slots`, `remove_slot`, `add_slots`,
--               `build_slot_slice` and `slot_ranges_from_slots` are Contains, RemoveSlots,
--               RemoveSlot, AddSlots, BuildSlotSlice and SlotRangesFromSlots. Slots/Decode has
--               DecodeSlot, DecodeSlotRange and the String methods.
--   Nodes       utils/redisutil/node.go: the node, SetRole, GetRole, the other setters and the
--               filters. Nodes/Heap has the pointers to nodes that several slices share.
--   Migration   controllers/clustering/migration.go. `build_slots_by_node` is BuildSlotsByNode with
--               the functions it calls; Migration/Feed has feedMigInfo; Migration/Dispatch has
--               DispatchSlotToNewMasters.
--   Rebalance   controllers/clustering/rebalance.go: RebalancedCluster, computeReshardTable and
--               moveSlot; Rebalance/Allocation has AllocSlots and utils/commonutils/math.go.
--   Heal        controllers/heal. Heal/Split has clustersplit.go, Heal/Failed failednodes.go and
--               Heal/Untrusted untrustenodes.go.
--   Placement   controllers/clustering/placement_v2.go: NewCtx, DispatchMasters, PlaceMastersHA,
--               PlaceMasters and PlaceSlaves. Placement/Attach has AttachingSlavesToMaster of
--               controllers/clustering/roles.go.
--   View        utils/redisutil/clusterinfo.go: DecodeNodeInfos, getConfigSignature and
--               ComputeStatus. View/Lines and View/Words have the text of CLUSTER NODES.
--   Status      controllers/distributedrediscluster/status.go: the setters of the status,
--               CheackandUpdateClusterHealth, CheckallZonesActive, buildHAStatus and getSTSindex.
--               Status/Build has buildClusterStatus; Status/Compare has compareStatus and
--               utils/commonutils/compare.go.
--   Admin       utils/redisutil/connections.go: the connections to the Redis nodes. Admin/Commands,
--               Admin/Migrate, Admin/Infos and Admin/Forget have utils/redisutil/admin.go: the
--               commands that change the cluster, MigrateKeys and MigrateKeysInSlot, GetClusterInfos
--               and ForgetNode. Admin/Config has SetConfigIfNeed of it, and ParseRedisMemConf of
--               utils/commonutils/parse.go.
--   Api         api/v1alpha1: the custom resource, DefaultSpec and the other functions of default.go,
--               and the checks of distributedrediscluster_webhook.go.
--   Reconcile   controllers/distributedrediscluster: the calls that write, the history of them, and
--               programs over it. Reconcile/Errors has errors.go; Reconcile/Ensure ensureCluster;
--               Reconcile/Sync syncCluster and scalingDown, with helper.go; Reconcile/Passwords
--               checkandUpdatePassword and CheckPasswordChanged; Reconcile/Pods checkandUpdatePods;
--               Reconcile/Redistribute getListofNodestoDelete and PlaceMastersbySTS. Reconcile/World
--               is what Reconcile calls; Reconcile/Round, Reconcile/Settle and Reconcile/Whole are
--               Reconcile itself, phase by phase. Reconcile/Rules has the rules of their proofs.
--   Acl         resources/statefulsets/helper.go: parseAclInput and GenerateAclcommands, which makes
--               the commands for the users of Redis.
--   Manager     controllers/manager: Heal of healer.go and the checks of checker.go, with
--               controllers/heal/terminatingpod.go.
--   Tests       the definitions and the theorems on small inputs.
--
-- How the code is read:
--   A slot is a natural number below 2 ^ 64, and where the source adds to a uint64 the sum wraps.
--   A string is a list of bytes. A map is an association list, and where the source ranges over a
--   map, the list is in the order of the visit: a statement for all lists is one for all orders. A
--   function that builds a map and then ranges over it takes the visit as a parameter.
--   The Redis side is a parameter: whether the next command fails, given those sent before. The
--   commands sent are kept, the latest first. In Admin the Redis nodes are a state of their own with
--   a function that answers each command; what Redis documents is a hypothesis where it is needed.
--   In Reconcile an answer of Kubernetes or Redis is a function of the history of the writing calls,
--   so that it may depend on all that was written before. A part of a function goes on, returns from
--   the function, or panics. Waiting and logging are left out of it.
--   Quotients of float64 are exact fractions: slots and nodes are far below 2 ^ 53.
--
-- Fuel: BuildSlotSlice has a round for each slot and one for the last test; RemoveSlots and
-- RemoveSlot have a round for each slot. The loops of RebalancedCluster take their fuel as an
-- argument, and `none` stands for a loop that has not ended within it.
-- The loops of MigrateKeys and MigrateKeysInSlot take their fuel as an argument as well, and end in
-- their first round where the client refuses MIGRATE.
--
-- Not modelled: placement.go, which the reconciler does not call; the ensurer and the resources,
-- which make Kubernetes objects; the backups; the waiters, which watch a clock; what ComputeStatus
-- leaves in the slices of the views, which it sorts in place; and all calls of Kubernetes. In
-- Reconcile the functions of Admin, Migration and Rebalance that send commands stand as parameters,
-- since each of them has a state of its own. A panic of the Go code is the outcome `none` or
-- `panicked`.
pub mod Base
pub mod Slots
pub mod Nodes
pub mod Migration
pub mod Rebalance
pub mod Heal
pub mod Placement
pub mod View
pub mod Status
pub mod Api
pub mod Reconcile
pub mod Admin
pub mod Acl
pub mod Manager
pub mod Tests
