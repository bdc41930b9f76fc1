-- ===== src/Data.antt =====
-- The data service of pkg/data/service.go. `databases`, a `sync.Map`, is what the handlers that it
-- registers change; a `sync.Map` of the standard library is a map whose calls are atomic.
pub mod Known
mod Tests
use xuandb.Prelude.{List, [], ◌∷◌, Option, none, some}
use xuandb.Prelude.Map.{Map, lookup, insert, erase}
use xuandb.Prelude.Text.{Text}
use xuandb.Meta.Types.{Service}
use xuandb.Meta.Types
use xuandb.Meta.Node.Listing.{databases}
use xuandb.Meta.Informer.{Informer, add_create_handler, add_drop_handler}

pub record Database : Type 0 where
  pub name : Text

-- `LoadOrStore`: what is stored under the key stays.
unfoldable pub load_or_store : Text → Database → Map Database → Map Database
load_or_store key db stored = elim (lookup key stored) [
  | none ↦ insert key db stored
  | some _ ↦ stored
]

unfoldable pub handle_create_database : Types.Database → Map Database → Map Database
handle_create_database db = load_or_store db.name (record { name = db.name })

unfoldable pub handle_drop_database : Text → Map Database → Map Database
handle_drop_database name = erase name

-- The loop over `meta.Databases()`.
unfoldable pub create_each : List Types.Database → Map Database → Map Database
create_each [] stored = stored
create_each (db ∷ dbs) stored = create_each dbs (handle_create_database db stored)

unfoldable pub start_service : Service → Informer (Map Database) → Informer (Map Database)
start_service s di = add_drop_handler handle_drop_database (
    add_create_handler handle_create_database
      (record di { world = create_each (databases s) di.world }))
