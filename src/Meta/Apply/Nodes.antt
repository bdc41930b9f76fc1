-- ===== src/Meta/Apply/Nodes.antt =====
-- The node list after an `applyUpdateNodeList`.
use xuandb.Prelude.{◌≡◌, ◌∙◌, refl, arith, [], ◌∷◌, Option, none, some, if◌then◌else◌, ltb}
use xuandb.Prelude.Map.{Map, lookup, insert, Distinct, lookup-insert}
use xuandb.Prelude.Text.{Text, text_eq, text_eq_iff}
use xuandb.Meta.Types.{NodeInfo, Service}
use xuandb.Meta.Apply.{retain_nodes, newer_node, merge_nodes, apply_update_node_list}

-- The later heartbeat wins; the node that is known wins a tie.
abbrev pub newest : Option NodeInfo → NodeInfo → NodeInfo
newest none ni = ni
newest (some old) ni = if ltb old.last_heartbeat_time ni.last_heartbeat_time then ni else old

abbrev pub node_after : Option NodeInfo → Option NodeInfo → Option NodeInfo
node_after old none = none
node_after old (some ni) = some (newest old ni)

-- What the retaining loop leaves of a node, by what the command says of it.
abbrev kept : Option NodeInfo → Option NodeInfo → Option NodeInfo
kept old none = none
kept old (some ni) = old

lookup-retain_nodes :
    (id : Text) (cmd nodes : Map NodeInfo)
    → lookup id (retain_nodes cmd nodes) ≡ kept (lookup id nodes) (lookup id cmd)
unfolding lookup retain_nodes
lookup-retain_nodes id cmd [] = ground arith
lookup-retain_nodes id cmd ((j, ni) ∷ nodes) =
    ground (arith, text_eq_iff j id, lookup-retain_nodes id cmd nodes)

newest-newer_node :
    (o : Option NodeInfo) (ni : NodeInfo)
    → some (newest o ni) ≡ (if newer_node o ni then some ni else o)
unfolding newer_node
newest-newer_node none ni = refl
newest-newer_node (some old) ni = ground arith

-- A node that the command does not name is left alone by the merging loop.
abbrev merged : Option NodeInfo → Option NodeInfo → Option NodeInfo
merged old none = old
merged old (some ni) = some (newest old ni)

lookup_update :
    (id j : Text) (ni : NodeInfo) (nodes : Map NodeInfo)
    → lookup id (if newer_node (lookup j nodes) ni then insert j ni nodes else nodes)
      ≡ (if text_eq j id then some (newest (lookup j nodes) ni) else lookup id nodes)
lookup_update id j ni nodes =
    ground
      (arith, newest-newer_node (lookup j nodes) ni, lookup-insert j id ni nodes, text_eq_iff j id)

lookup-merge_nodes :
    (id : Text) (cmd nodes : Map NodeInfo)
    → Distinct cmd
    → lookup id (merge_nodes cmd nodes) ≡ merged (lookup id nodes) (lookup id cmd)
unfolding lookup merge_nodes
lookup-merge_nodes id [] nodes h = refl
lookup-merge_nodes id ((j, ni) ∷ cmd) nodes (absent, h) =
    lookup-merge_nodes id cmd (if newer_node (lookup j nodes) ni then insert j ni nodes else nodes)
      h
    ∙ rw lookup_update (ground (arith, absent, text_eq_iff j id))

-- After the command a node is known exactly if the command names it, with the later of the two
-- heartbeats: an older one never replaces a newer one, whatever the order of the map's iteration.
pub apply_update_node_list_lem :
    (s : Service) (cmd : Map NodeInfo) (id : Text)
    → Distinct cmd
    → (lookup id (apply_update_node_list s cmd).0.nodes
        ≡ node_after (lookup id s.nodes) (lookup id cmd))
      × ((apply_update_node_list s cmd).0.md ≡ s.md)
      × ((apply_update_node_list s cmd).1 ≡ none)
unfolding apply_update_node_list
apply_update_node_list_lem s cmd id h = (
  lookup-merge_nodes id cmd (retain_nodes cmd s.nodes) h ∙ rw lookup-retain_nodes (ground arith),
  refl,
  refl,
)
