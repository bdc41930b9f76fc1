-- ===== src/Meta/Node/Heartbeat.antt =====
-- What heartbeats and node lists do to the nodes that are known.
use xuandb.Prelude.{
  ℕ, ◌≡◌, ◌∙◌, refl, arith, Bool, false, ◌||◌, List, [], ◌∷◌, Option, none, some, if◌then◌else◌,
  ltb, ◌+◌, ◌*◌,
}
use xuandb.Prelude.Map.{Map, lookup, insert, Distinct, lookup-insert}
use xuandb.Prelude.Text.{Text, text_eq, text_eq_iff}
use xuandb.Meta.Types.{NodeInfo, Service}
use xuandb.Meta.Apply.{apply_update_node_list}
use xuandb.Meta.Apply.Nodes.{node_after, apply_update_node_list_lem}
use xuandb.Meta.Handler.{body}
use xuandb.Meta.Node.{
  second, save_heartbeat, handle_node_heartbeat, known_or_blank, add_servers, node_list,
}

-- A heartbeat that is not accepted.
abbrev pub in_future : ℕ → NodeInfo → Bool
in_future now hb = ltb (now + 10 * second) hb.last_heartbeat_time

-- What a heartbeat leaves of a node that was `old`.
abbrev pub beaten : NodeInfo → Option NodeInfo → Option NodeInfo
beaten hb none = none
beaten hb (some old) = some hb

save_heartbeat_lem :
    (nodes : Map NodeInfo) (hb : NodeInfo) (id : Text)
    → lookup id (save_heartbeat nodes hb)
      ≡ (if text_eq hb.id id then beaten hb (lookup id nodes) else lookup id nodes)
unfolding save_heartbeat
save_heartbeat_lem nodes hb id =
    ground (arith, lookup-insert hb.id id hb nodes, text_eq_iff hb.id id)

-- A heartbeat replaces what is known of its own node, if that node is known and the heartbeat is
-- at most ten seconds ahead of the clock; it adds no node, and leaves every other node alone.
pub handle_node_heartbeat_lem :
    (now : ℕ) (nodes : Map NodeInfo) (hb : NodeInfo) (id : Text)
    → lookup id (handle_node_heartbeat now nodes (body hb)).0 ≡ (
        if in_future now hb
        then lookup id nodes
        else if text_eq hb.id id
        then beaten hb (lookup id nodes)
        else lookup id nodes)
unfolding handle_node_heartbeat
handle_node_heartbeat_lem now nodes hb id = ground (arith, save_heartbeat_lem nodes hb id)

-- `id` is one of the servers.
pub is_server : Text → List Text → Bool
is_server id [] = false
is_server id (svr ∷ svrs) = text_eq svr id || is_server id svrs

Distinct-insert :
    (id : Text) (ni : NodeInfo) (m : Map NodeInfo) → Distinct m → Distinct (insert id ni m)
unfolding insert lookup
Distinct-insert id ni [] h = (refl, tt)
Distinct-insert id ni ((j, v) ∷ m) (absent, h) =
    ground (
      arith,
      Distinct-insert id ni m h,
      lookup-insert id j ni m,
      text_eq_iff j id,
      text_eq_iff id j,
    )

Distinct-add_servers :
    (nodes : Map NodeInfo) (svrs : List Text) (cmd : Map NodeInfo)
    → Distinct cmd
    → Distinct (add_servers nodes svrs cmd)
unfolding add_servers
Distinct-add_servers nodes [] cmd h = h
Distinct-add_servers nodes (id ∷ svrs) cmd h =
    Distinct-add_servers nodes svrs _ (Distinct-insert id _ cmd h)

lookup-add_servers :
    (nodes : Map NodeInfo) (svrs : List Text) (cmd : Map NodeInfo) (id : Text)
    → lookup id (add_servers nodes svrs cmd)
      ≡ (if is_server id svrs then some (known_or_blank id (lookup id nodes)) else lookup id cmd)
unfolding add_servers is_server
lookup-add_servers nodes [] cmd id = refl
lookup-add_servers nodes (svr ∷ svrs) cmd id =
    lookup-add_servers nodes svrs _ id
    ∙ ground (
      arith,
      lookup-insert svr id (known_or_blank svr (lookup svr nodes)) cmd,
      text_eq_iff svr id,
    )

node_after_own :
    (id : Text) (o : Option NodeInfo)
    → node_after o (some (known_or_blank id o)) ≡ some (known_or_blank id o)
unfolding known_or_blank
node_after_own id none = refl
node_after_own id (some ni) = ground arith

-- When the leader's own node list is applied where it was built, the nodes that are known are the
-- servers of raft's configuration, each as it was known before, or blank.
pub node_list_lem :
    (s : Service) (svrs : List Text) (id : Text)
    → lookup id (apply_update_node_list s (node_list s.nodes svrs)).0.nodes
      ≡ (if is_server id svrs then some (known_or_blank id (lookup id s.nodes)) else none)
unfolding node_list lookup
node_list_lem s svrs id =
    (apply_update_node_list_lem s (node_list s.nodes svrs) id
      (Distinct-add_servers s.nodes svrs [] tt)).0
    ∙ rw (lookup-add_servers s.nodes svrs [] id)
        (ground (arith, node_after_own id (lookup id s.nodes)))
