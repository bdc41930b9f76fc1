-- ===== src/Meta/Tests/Deliveries.antt =====
-- Instances of the theorem about the informer.
use xuandb.Prelude.{◌≡◌, ◌≤◌, refl, List, [], ◌∷◌, ◌++◌, length, true}
use xuandb.Prelude.Text.{Text, codes}
use xuandb.Meta.Types.{Database, Event, created, dropped}
use xuandb.Meta.Informer.{
  Informer, moved, Action, send, turn, close, channel_size, informer_init, schedule, act,
  send_event, take_turn, close_channel, call_or_receive, receive, calls_of, and_then,
}
use xuandb.Meta.Informer.Delivery.{sent, handle_all, call_all}
use xuandb.Meta.Informer.Drained.{Drains, with_handlers, delivered}

-- Handlers that note what they are told.
abbrev notes_created : List (Database → List Event → List Event)
notes_created = (λ db seen. seen ++ created db ∷ []) ∷ []

abbrev notes_dropped : List (Text → List Event → List Event)
notes_dropped = (λ name seen. seen ++ dropped name ∷ []) ∷ []

abbrev logs : Event
logs = created (record { name = codes "logs"; duration = 0 })

abbrev two_sent : List (Action (List Event))
two_sent = send logs ∷ turn ∷ send (dropped (codes "logs")) ∷ turn ∷ close ∷ []

-- One event is handled, and one is in the channel.
abbrev half_way : Informer (List Event)
half_way = record (with_handlers notes_created notes_dropped []) {
  ch = dropped (codes "logs") ∷ [];
  closed = true;
  world = logs ∷ [];
}

two_sent-half_way :
    schedule two_sent (with_handlers notes_created notes_dropped []) ≡ moved half_way
unfolding schedule act send_event take_turn close_channel call_or_receive receive calls_of and_then
    informer_init
two_sent-half_way = refl

delivered_example :
    (length half_way.ch ≤ channel_size)
    × Drains notes_created notes_dropped half_way
        (handle_all notes_created notes_dropped (sent two_sent) [])
delivered_example = delivered notes_created notes_dropped [] two_sent half_way tt two_sent-half_way

both_noted :
    handle_all notes_created notes_dropped (sent two_sent) [] ≡ logs ∷ dropped (codes "logs") ∷ []
unfolding handle_all sent call_all calls_of
both_noted = refl
