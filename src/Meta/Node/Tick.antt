-- ===== src/Meta/Node/Tick.antt =====
-- One tick of the loop of `updateNodeInfo` (pkg/meta/node.go).
pub mod Liveness
use xuandb.Prelude.{ℕ, Bool, List, [], ◌∷◌, Option, none, some, if◌then◌else◌, ◌==◌, ◌%◌, ◌+◌, ◌^◌}
use xuandb.Prelude.Map.{Map, lookup, insert}
use xuandb.Prelude.Text.{Text}
use xuandb.Meta.Types.{NodeInfo, Service}
use xuandb.Meta.Apply.{apply_update_node_list}
use xuandb.Meta.Leader.{RaftAnswer, committed, rejected}
use xuandb.Meta.Node.{node_list}

-- "update current node info locally"
unfoldable pub touch : Map NodeInfo → NodeInfo → Map NodeInfo
touch nodes ni = elim (lookup ni.id nodes) [
  | some ni1 ↦ insert ni.id (record ni1 { last_heartbeat_time = ni.last_heartbeat_time }) nodes
  | none ↦ insert ni.id ni nodes
]

-- `sendNodeListToFollower`: raft's configuration is an argument, `none` if it cannot be read.
unfoldable pub send_node_list_to_follower : RaftAnswer → Option (List Text) → Service → Service
send_node_list_to_follower ra none s = s
send_node_list_to_follower (rejected e) (some svrs) s = s
send_node_list_to_follower committed (some svrs) s =
    (apply_update_node_list s (node_list s.nodes svrs)).0

-- The loop's variables: the node's own information, and `ticks`, a `uint` of 64 bits.
pub record Loop : Type 0 where
  pub ni : NodeInfo
  pub ticks : ℕ

-- The service and the loop after a tick at the time `now`, and the heartbeat that is sent.
unfoldable pub tick :
    RaftAnswer → Option (List Text) → ℕ → Bool → Loop → Service → (Service × Loop) × Option NodeInfo
tick ra svrs now is_leader l s =
    let ni : NodeInfo = record l.ni { last_heartbeat_time = now } in
    let t : Service = record s { nodes = touch s.nodes ni } in
    let next : Loop = record { ni = ni; ticks = (l.ticks + 1) % 2 ^ 64 } in
    if is_leader
    then if l.ticks % 5 == 0
      then ((send_node_list_to_follower ra svrs t, next), none)
      else ((t, next), none)
    else ((t, next), some ni)
