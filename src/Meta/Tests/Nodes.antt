-- ===== src/Meta/Tests/Nodes.antt =====
-- Instances of the theorems about nodes.
use mathlib.Core.List.{Perm}
use xuandb.Prelude.{
  true, false, [], ◌∷◌, ◌≡◌, ◌↔◌, ◌⊎◌, refl, arith, none, some, if◌then◌else◌, map, Option, ◌<◌,
  ◌≤◌, ◌+◌, ◌*◌,
}
use xuandb.Prelude.Map.{lookup, values}
use xuandb.Prelude.Sort.{IsSorted}
use xuandb.Prelude.Text.{Text, codes, text_eq}
use xuandb.Meta.Types.{NodeInfo, Service, new_service}
use xuandb.Meta.Apply.{apply_update_node_list}
use xuandb.Meta.Apply.Nodes.{node_after, apply_update_node_list_lem}
use xuandb.Meta.Handler.{body}
use xuandb.Meta.Client.{Caller}
use xuandb.Meta.Leader.{committed}
use xuandb.Meta.Node.{second, handle_node_heartbeat, node_list, known_or_blank}
use xuandb.Meta.Node.Heartbeat.{
  in_future, beaten, handle_node_heartbeat_lem, is_server, node_list_lem,
}
use xuandb.Meta.Node.Listing.{state_at, up, unknown, down, node_statuses}
use xuandb.Meta.Node.Listing.Sorted.{state_at_lem, node_statuses_lem}
use xuandb.Meta.Node.Membership.{
  RaftCall, remove_server, add_call, JoinRequest, Server, handle_add_node, drop_node,
}
use xuandb.Meta.Node.Membership.Calls.{Admitted, reply_code, handle_add_node_lem, drop_node_lem}
use xuandb.Meta.Node.Tick.{tick}
use xuandb.Meta.Node.Tick.Liveness.{tick-heartbeat}

abbrev node_a : NodeInfo
node_a = record { id = codes "a"; addr = codes "h:1"; role = 1; last_heartbeat_time = 5 }

abbrev node_b : NodeInfo
node_b = record { id = codes "b"; addr = codes "h:2"; role = 6; last_heartbeat_time = 9 }

abbrev cluster : Service
cluster = record new_service { nodes = (codes "b", node_b) ∷ (codes "a", node_a) ∷ [] }

abbrev later_a : NodeInfo
later_a = record { id = codes "a"; addr = codes "h:1"; role = 1; last_heartbeat_time = 8 }

apply_update_node_list_lem_example :
    (lookup (codes "a") (apply_update_node_list cluster ((codes "a", later_a) ∷ [])).0.nodes
      ≡ node_after
          (lookup (codes "a") cluster.nodes)
          (lookup (codes "a") ((codes "a", later_a) ∷ [])))
    × ((apply_update_node_list cluster ((codes "a", later_a) ∷ [])).0.md ≡ cluster.md)
    × ((apply_update_node_list cluster ((codes "a", later_a) ∷ [])).1 ≡ none)
unfolding lookup
apply_update_node_list_lem_example =
    apply_update_node_list_lem cluster ((codes "a", later_a) ∷ []) (codes "a") (refl, tt)

node_list_lem_example :
    lookup
      (codes "c")
      (apply_update_node_list cluster
        (node_list cluster.nodes (codes "a" ∷ codes "c" ∷ []))).0.nodes
    ≡ (if is_server (codes "c") (codes "a" ∷ codes "c" ∷ [])
        then some (known_or_blank (codes "c") (lookup (codes "c") cluster.nodes))
        else none)
node_list_lem_example = node_list_lem cluster (codes "a" ∷ codes "c" ∷ []) (codes "c")

handle_node_heartbeat_lem_example :
    lookup (codes "a") (handle_node_heartbeat 7 cluster.nodes (body later_a)).0 ≡ (
      if in_future 7 later_a
      then lookup (codes "a") cluster.nodes
      else if text_eq later_a.id (codes "a")
      then beaten later_a (lookup (codes "a") cluster.nodes)
      else lookup (codes "a") cluster.nodes)
handle_node_heartbeat_lem_example = handle_node_heartbeat_lem 7 cluster.nodes later_a (codes "a")

node_statuses_lem_example :
    IsSorted (λ st. st.node.id) (node_statuses (codes "a") 9 cluster)
    × Perm (map (λ st. st.node) (node_statuses (codes "a") 9 cluster)) (values cluster.nodes)
node_statuses_lem_example = node_statuses_lem (codes "a") 9 cluster

state_at_lem_example :
    ((state_at 40000000000 5 ≡ up) ↔ (40000000000 < 5 + 10 * second))
    × ((state_at 40000000000 5 ≡ unknown)
        ↔ ((5 + 10 * second ≤ 40000000000) × (40000000000 < 5 + 30 * second)))
    × ((state_at 40000000000 5 ≡ down) ↔ (5 + 30 * second ≤ 40000000000))
state_at_lem_example = state_at_lem 40000000000 5

abbrev accepts : RaftCall → Option Text
accepts call = none

abbrev leading : Server
leading = record { cluster_name = codes "xuan"; is_leader = true }

abbrev join_c : JoinRequest
join_c = record { cluster_name = codes "xuan"; id = codes "c"; addr = codes "h:3"; voter = true }

handle_add_node_lem_example :
    (Admitted leading join_c
      × ((handle_add_node accepts leading [] (body join_c)).0
          ≡ add_call join_c.id join_c.addr join_c.voter ∷ []))
    ⊎ (¬ Admitted leading join_c
        × ((handle_add_node accepts leading [] (body join_c)).0 ≡ [])
        × (400 ≤ reply_code (handle_add_node accepts leading [] (body join_c)).1))
handle_add_node_lem_example = handle_add_node_lem accepts leading [] join_c

abbrev at_leader : Caller
at_leader = record { is_leader = true; leader_http_addr = codes "l:1"; transport = none }

drop_node_lem_example : (drop_node accepts at_leader leading [] (codes "c")).0 ≡ (
    if at_leader.is_leader
    then remove_server (codes "c") ∷ remove_server (codes "c") ∷ []
    else remove_server (codes "c") ∷ [])
unfolding text_eq
drop_node_lem_example = drop_node_lem accepts at_leader leading [] (codes "c") refl refl refl refl

tick-heartbeat_example :
    (hb : NodeInfo) × ((tick committed none 8 false
        (record { ni = node_a; ticks = 3 })
        new_service).1
      ≡ some hb)
    × (lookup node_a.id (handle_node_heartbeat 8 cluster.nodes (body hb)).0 ≡ some hb)
    × (state_at 8 hb.last_heartbeat_time ≡ up)
unfolding lookup text_eq
tick-heartbeat_example =
    tick-heartbeat committed none 8 8 (record { ni = node_a; ticks = 3 }) new_service cluster.nodes
      node_a refl (ground arith) (ground arith)
