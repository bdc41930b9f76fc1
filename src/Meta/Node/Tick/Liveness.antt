-- ===== src/Meta/Node/Tick/Liveness.antt =====
-- A follower whose loop ticks is seen as up.
use xuandb.Prelude.{ℕ, ◌≡◌, refl, arith, false, List, Option, some, ◌+◌, ◌*◌, ◌<◌, ◌≤◌}
use xuandb.Prelude.Map.{Map, lookup}
use xuandb.Prelude.Text.{Text, text_eq_refl}
use xuandb.Meta.Types.{NodeInfo, Service}
use xuandb.Meta.Leader.{RaftAnswer}
use xuandb.Meta.Handler.{body}
use xuandb.Meta.Node.{second, handle_node_heartbeat}
use xuandb.Meta.Node.Heartbeat.{handle_node_heartbeat_lem}
use xuandb.Meta.Node.Listing.{up, state_at}
use xuandb.Meta.Node.Listing.Sorted.{state_at_lem}
use xuandb.Meta.Node.Tick.{Loop, tick}

-- A tick of a follower sends a heartbeat with the time of the tick. A node that knows the sender,
-- and gets it while its own clock reads at most ten seconds less and not ten seconds more, shows
-- the sender as up, with the time of the tick.
pub tick-heartbeat :
    (ra : RaftAnswer) (svrs : Option (List Text)) (now there : ℕ) (l : Loop) (s : Service)
    (nodes : Map NodeInfo) (old : NodeInfo)
    → lookup l.ni.id nodes ≡ some old
    → now ≤ there + 10 * second
    → there < now + 10 * second
    → (hb : NodeInfo) × ((tick ra svrs now false l s).1 ≡ some hb)
      × (lookup l.ni.id (handle_node_heartbeat there nodes (body hb)).0 ≡ some hb)
      × (state_at there hb.last_heartbeat_time ≡ up)
unfolding tick
tick-heartbeat ra svrs now there l s nodes old known early late =
    let hb : NodeInfo = record l.ni { last_heartbeat_time = now } in
    (
      hb,
      refl,
      ground (arith, handle_node_heartbeat_lem there nodes hb l.ni.id, text_eq_refl l.ni.id),
      (state_at_lem there now).0.1 late,
    )
