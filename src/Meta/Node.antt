-- ===== src/Meta/Node.antt =====
-- pkg/meta/node.go: the nodes of the cluster and their runtime information.
pub mod Membership
pub mod Heartbeat
pub mod Listing
pub mod Tick
use Prim.Native.Nat.{bit_and, bit_or}
use xuandb.Prelude.{
  ℕ, Bool, not, [], ◌∷◌, ◌++◌, Option, some, none, List, ◌==◌, ◌+◌, ◌*◌, ltb, if◌then◌else◌,
}
use xuandb.Prelude.Map.{Map, lookup, insert}
use xuandb.Prelude.Text.{Text, codes, text_eq}
use xuandb.Xerrors.{message, bad_request}
use xuandb.Meta.Types.{NodeInfo}
use xuandb.Meta.Handler.{Body, undecodable, body, Handled, replied, http_error}

abbrev pub node_role_meta : ℕ
node_role_meta = 1

abbrev pub node_role_data : ℕ
node_role_data = 2

abbrev pub node_role_query : ℕ
node_role_query = 4

-- `if r&bit != 0 { if len(s) > 0 { s += ",word" } else { s = "word" } }`
unfoldable pub add_role : ℕ → Text → ℕ → Text → Text
add_role bit word r s =
    if bit_and r bit == 0 then s else if text_eq s [] then word else s ++ b',' ∷ word

-- `NodeRole.String`; for the first bit `s` is empty anyway.
unfoldable pub role_to_string : ℕ → Text
role_to_string r =
    add_role node_role_query (codes "query") r
      (add_role node_role_data (codes "data") r (add_role node_role_meta (codes "meta") r []))

-- What `init` reads of the configuration: the identifier, the external address, and the roles.
pub record NodeConfig : Type 0 where
  pub id : Text
  pub http_addr : Text
  pub raft_voter : Bool
  pub has_data : Bool
  pub has_query : Bool

abbrev pub set_role : Bool → ℕ → ℕ → ℕ
set_role on bit r = if on then bit_or r bit else r

unfoldable pub init_role : NodeConfig → ℕ
init_role nc =
    set_role nc.has_query node_role_query
      (set_role nc.has_data node_role_data (set_role nc.raft_voter node_role_meta 0))

unfoldable pub init : NodeConfig → NodeInfo
init nc = record { id = nc.id; addr = nc.http_addr; role = init_role nc; last_heartbeat_time = 0 }

-- `time.Second`
abbrev pub second : ℕ
second = 1000000000

-- `if ni := s.nodes[hb.ID]; ni != nil { *ni = hb }`
unfoldable pub save_heartbeat : Map NodeInfo → NodeInfo → Map NodeInfo
save_heartbeat nodes hb = elim (lookup hb.id nodes) [
  | none ↦ nodes
  | some _ ↦ insert hb.id hb nodes
]

-- `handleNodeHeartbeat`, on `s.nodes` and at the time `now`. A handler that writes nothing replies
-- with status 200.
unfoldable pub handle_node_heartbeat : ℕ → Map NodeInfo → Body NodeInfo → Map NodeInfo × Handled
handle_node_heartbeat now nodes (undecodable e) = (nodes, http_error (message e) bad_request)
handle_node_heartbeat now nodes (body hb) =
    if ltb (now + 10 * second) hb.last_heartbeat_time
    then (nodes, http_error (codes "heartbeat time is in the distant future") bad_request)
    else (save_heartbeat nodes hb, replied (record { code = 200; text = [] }))

-- The nodes of the command that `sendNodeListToFollower` builds, from the servers of raft's
-- configuration: what is known of each, or its identifier alone.
unfoldable pub known_or_blank : Text → Option NodeInfo → NodeInfo
known_or_blank id (some ni) = ni
known_or_blank id none = record { id = id; addr = []; role = 0; last_heartbeat_time = 0 }

unfoldable pub add_servers : Map NodeInfo → List Text → Map NodeInfo → Map NodeInfo
add_servers nodes [] cmd = cmd
add_servers nodes (id ∷ svrs) cmd =
    add_servers nodes svrs (insert id (known_or_blank id (lookup id nodes)) cmd)

unfoldable pub node_list : Map NodeInfo → List Text → Map NodeInfo
node_list nodes svrs = add_servers nodes svrs []
