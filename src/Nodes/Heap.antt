-- ===== src/Nodes/Heap.antt =====
-- The nodes behind pointers: `Nodes` is a slice of `*Node`, and several slices share the nodes.
use rediscluster_operator.Base.{ℕ, if◌then◌else◌, ◌==◌}
use rediscluster_operator.Nodes.{Node}

-- What each pointer points to.
abbrev pub Heap : Type 0
Heap = ℕ → Node

-- A write through a pointer.
unfoldable pub update : Heap → ℕ → Node → Heap
update h p n = λ q. if p == q then n else h q
