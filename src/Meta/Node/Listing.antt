-- ===== src/Meta/Node/Listing.antt =====
-- The listings of pkg/meta: `Nodes` and `NodeStatuses` of node.go, `Users` of user.go, `Databases`
-- of database.go; and the look-ups of a node. The order of strings is that of their code points.
pub mod Sorted
use mathlib.Core.List.{Perm}
use xuandb.Prelude.{
  ℕ, Bool, ◌≡◌, refl, List, [], ◌∷◌, map, Option, none, some, if◌then◌else◌, leb, ◌+◌, ◌-◌, ◌*◌,
}
use xuandb.Prelude.Map.{Map, lookup, values}
use xuandb.Prelude.Text.{Text, codes, text_eq}
use xuandb.Prelude.Sort.{sort, IsSorted, sort-IsSorted, sort-perm}
use xuandb.Meta.Types.{User, Database, NodeInfo, Service}
use xuandb.Meta.Node.{second}

unfoldable pub nodes : Service → List NodeInfo
nodes s = sort (λ ni. ni.id) (values s.nodes)

unfoldable pub users : Service → List User
users s = sort (λ u. u.name) (values s.md.users)

unfoldable pub databases : Service → List Database
databases s = sort (λ db. db.name) (values s.md.databases)

-- `NodeByID`
unfoldable pub node_by_id : Service → Text → Option NodeInfo
node_by_id s id = lookup id s.nodes

-- `LeaderNode`; raft gives "" when there is no leader.
unfoldable pub leader_node : Service → Text → Option NodeInfo
leader_node s leader_id = if text_eq leader_id [] then none else node_by_id s leader_id

unfoldable pub addr_of : Option NodeInfo → Text
addr_of none = []
addr_of (some ni) = ni.addr

-- `NodeHTTPAddr`
unfoldable pub node_http_addr : Service → Text → Text
node_http_addr s id = addr_of (lookup id s.nodes)

-- `LeaderHTTPAddr`
unfoldable pub leader_http_addr : Service → Text → Text
leader_http_addr s leader_id = if text_eq leader_id [] then [] else node_http_addr s leader_id

pub data NodeState : Type 0 where
  up : NodeState
  unknown : NodeState
  down : NodeState

pub record NodeStatus : Type 0 where
  pub node : NodeInfo
  pub leader : Bool
  pub state : NodeState

-- A heartbeat ahead of the clock has a negative distance, and is below both limits.
unfoldable pub state_at : ℕ → ℕ → NodeState
state_at now t =
    if leb (t + 30 * second) now then down else if leb (t + 10 * second) now then unknown else up

unfoldable pub status_of : Text → ℕ → NodeInfo → NodeStatus
status_of leader_id now ni = record {
  node = ni;
  leader = text_eq ni.id leader_id;
  state = state_at now ni.last_heartbeat_time;
}

unfoldable pub node_statuses : Text → ℕ → Service → List NodeStatus
node_statuses leader_id now s = map (status_of leader_id now) (nodes s)
