-- ===== src/Data/Tests.antt =====
-- A data service that is told of one database and of the end of another.
use xuandb.Prelude.{◌≡◌, refl, List, [], ◌∷◌, false}
use xuandb.Prelude.Map.{Map, lookup, insert, values}
use xuandb.Prelude.Sort.{sort, insert_sorted}
use xuandb.Prelude.Text.{codes, text_eq}
use xuandb.Prelude.Unicode.{ascii, to_lower}
use xuandb.Meta.Types.{Service, Command, create_database, drop_database, created, dropped}
use xuandb.Meta.Types
use xuandb.Meta.Apply.{apply_command, apply_create_database, apply_drop_database}
use xuandb.Meta.Node.Listing.{databases}
use xuandb.Meta.Informer.{
  Informer, moved, Action, send, turn, informer_init, add_create_handler, add_drop_handler,
  schedule, act, send_event, take_turn, call_or_receive, receive, calls_of, and_then,
}
use xuandb.Meta.Informer.Delivery.{sent}
use xuandb.Meta.Informer.Drained.{Drains}
use xuandb.Data.{Database, start_service, create_each, handle_create_database, load_or_store}
use xuandb.Data.Known.{Knows, creates, drops, apply_all, held-Knows}

abbrev logs : Types.Database
logs = record { name = codes "a"; duration = 0 }

abbrev spans : Types.Database
spans = record { name = codes "b"; duration = 0 }

abbrev one_database : Service
one_database = record {
  md = record { users = []; databases = (codes "a", logs) ∷ [] };
  nodes = [];
  events = [];
}

abbrev twice_then_drop : List Command
twice_then_drop = create_database spans ∷ create_database spans ∷ drop_database (codes "a") ∷ []

abbrev told : List (Action (Map Database))
told = send (created spans) ∷ turn ∷ turn ∷ send (dropped (codes "a")) ∷ []

abbrev told_half : Informer (Map Database)
told_half = record {
  ch = dropped (codes "a") ∷ [];
  closed = false;
  create_handlers = creates;
  drop_handlers = drops;
  calls = [];
  over = false;
  world = (codes "a", record { name = codes "a" }) ∷ (codes "b", record { name = codes "b" }) ∷ [];
}

sent-told : sent told ≡ (apply_all ascii one_database twice_then_drop).events
unfolding sent apply_all apply_command apply_create_database apply_drop_database lookup insert
    text_eq to_lower
sent-told = refl

schedule-told : schedule told (start_service one_database (informer_init [])) ≡ moved told_half
unfolding schedule act send_event take_turn call_or_receive receive calls_of and_then informer_init
    start_service add_create_handler add_drop_handler create_each handle_create_database
    load_or_store lookup insert databases text_eq sort insert_sorted values
schedule-told = refl

held-Knows_example :
    (held : Map Database) × Drains creates drops told_half held
    × Knows (apply_all ascii one_database twice_then_drop).md.databases held
unfolding to_lower
held-Knows_example =
    held-Knows ascii one_database twice_then_drop told told_half (refl, tt) refl
      (refl, (refl, (refl, tt))) tt sent-told schedule-told
