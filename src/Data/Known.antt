-- ===== src/Data/Known.antt =====
-- What the data service holds, the metadata know.
use mathlib.Core.Path.{subst}
use xuandb.Prelude.{
  ◌≡◌, ◌≢◌, refl, sym, ap, arith, List, [], ◌∷◌, All, All-map, none, inl, inr, Option-cases,
}
use xuandb.Prelude.Map.{Map, lookup, insert, erase, lookup-insert, lookup-erase, values}
use xuandb.Prelude.Text.{Text, text_eq_iff}
use xuandb.Prelude.Unicode.{Unicode, to_lower}
use xuandb.Prelude.Sort.{sort-All}
use xuandb.Meta.Types.{
  Service, Command, update_node_list, create_database, drop_database, create_user, drop_user,
  set_password, Event, created, dropped,
}
use xuandb.Meta.Types
use xuandb.Meta.Apply.{
  apply_command, apply_create_database, apply_drop_database, apply_create_user, apply_drop_user,
  apply_set_password, apply_update_node_list,
}
use xuandb.Meta.Node.Listing.{databases}
use xuandb.Meta.Informer.{
  Informer, moved, Action, informer_init, add_create_handler, add_drop_handler, calls_of, schedule,
}
use xuandb.Meta.Informer.Delivery.{AddsNone, sent, handle_all, handle_all-last, call_all}
use xuandb.Meta.Informer.Drained.{Drains, delivered}
use xuandb.Data.{
  Database, load_or_store, handle_create_database, handle_drop_database, create_each, start_service,
}

-- Every name that the data service holds is a key of the metadata's databases.
abbrev pub Knows : Map Types.Database → Map Database → Type 0
Knows dbs stored = (name : Text) → lookup name stored ≢ none → lookup name dbs ≢ none

load_or_store-Knows :
    (dbs : Map Types.Database) (key : Text) (db : Database) (stored : Map Database)
    → Knows dbs stored
    → lookup key dbs ≢ none
    → Knows dbs (load_or_store key db stored)
unfolding load_or_store
load_or_store-Knows dbs key db stored h known = elim (Option-cases (lookup key stored)) [
  | inl free ↦
      rw (free, load_or_store)
        (λ name held absent. ground (
          arith,
          lookup-insert key name db stored,
          text_eq_iff key name,
          h name,
          known,
          held,
          absent,
        ))
  | inr (old, taken) ↦ rw (taken, load_or_store) h
]

erase-Knows :
    (dbs : Map Types.Database) (key : Text) (stored : Map Database)
    → Knows dbs stored
    → Knows (erase key dbs) (erase key stored)
erase-Knows dbs key stored h name held absent =
    ground (arith, lookup-erase key name dbs, lookup-erase key name stored, h name, held, absent)

insert-Knows :
    (dbs : Map Types.Database) (key : Text) (db : Types.Database) (stored : Map Database)
    → Knows dbs stored
    → Knows (insert key db dbs) stored
insert-Knows dbs key db stored h name held absent =
    ground (arith, lookup-insert key name db dbs, h name held, absent)

-- A database that metadata store under its own name.
abbrev pub IsListed : Map Types.Database → Types.Database → Type 0
IsListed dbs db = lookup db.name dbs ≢ none

create_each-Knows :
    (dbs : Map Types.Database) (listed : List Types.Database) (stored : Map Database)
    → All (IsListed dbs) listed
    → Knows dbs stored
    → Knows dbs (create_each listed stored)
unfolding create_each handle_create_database
create_each-Knows dbs [] stored p h = h
create_each-Knows dbs (db ∷ listed) stored (q, p) h =
    create_each-Knows dbs listed (handle_create_database db stored) p
      (load_or_store-Knows dbs db.name (record { name = db.name }) stored h q)

-- Every entry stands under the name of its database.
abbrev pub NamedBy : Map Types.Database → Type 0
NamedBy [] = Unit
NamedBy ((key, db) ∷ dbs) = (db.name ≡ key) × NamedBy dbs

values-IsListed : (dbs : Map Types.Database) → NamedBy dbs → All (IsListed dbs) (values dbs)
unfolding values lookup
values-IsListed [] h = tt
values-IsListed ((key, db) ∷ dbs) (e, h) = (
  ground (arith, text_eq_iff key db.name),
  All-map (IsListed dbs) (IsListed ((key, db) ∷ dbs)) (values dbs) (λ x p. ground (arith, p))
      (values-IsListed dbs h),
)

-- The handlers that `StartService` registers.
abbrev pub creates : List (Types.Database → Map Database → Map Database)
creates = handle_create_database ∷ []

abbrev pub drops : List (Text → Map Database → Map Database)
drops = handle_drop_database ∷ []

module _ (uni : Unicode) where
  -- The command spells the name of its database in lower case.
  abbrev pub IsLower : Command → Type 0
  IsLower (update_node_list nodes) = Unit
  IsLower (create_database db) = to_lower uni db.name ≡ db.name
  IsLower (drop_database name) = to_lower uni name ≡ name
  IsLower (create_user u) = Unit
  IsLower (drop_user name) = Unit
  IsLower (set_password name password) = Unit

  unfoldable pub apply_all : Service → List Command → Service
  apply_all s [] = s
  apply_all s (cmd ∷ cmds) = apply_all (apply_command uni s cmd).0 cmds

  -- What the data service holds once it has handled the events sent so far.
  abbrev Follows : Map Database → Service → Type 0
  Follows stored s = Knows s.md.databases (handle_all creates drops s.events stored)

  create_database-Follows :
      (stored : Map Database) (s : Service) (db : Types.Database)
      → to_lower uni db.name ≡ db.name
      → Follows stored s
      → Follows stored (apply_create_database uni s db).0
  unfolding apply_create_database call_all calls_of handle_create_database
  create_database-Follows stored s db lower h =
      elim (Option-cases (lookup (to_lower uni db.name) s.md.databases)) [
        | inl free ↦
            rw (free, apply_create_database)
              (insert-Knows s.md.databases (to_lower uni db.name) db _ h)
        | inr (old, taken) ↦
            rw (taken, apply_create_database)
              (subst (Knows s.md.databases)
                (sym (handle_all-last creates drops s.events (created db) stored))
                (load_or_store-Knows s.md.databases db.name (record { name = db.name }) _ h
                  (λ absent.
                    absurd (cc (ap (λ key. lookup key s.md.databases) lower, taken, absent)))))
      ]

  drop_database-Follows :
      (stored : Map Database) (s : Service) (name : Text)
      → to_lower uni name ≡ name
      → Follows stored s
      → Follows stored (apply_drop_database uni s name).0
  unfolding apply_drop_database call_all calls_of handle_drop_database
  drop_database-Follows stored s name lower h =
      let held = handle_all creates drops s.events stored in
      subst (Knows (erase (to_lower uni name) s.md.databases))
        (sym (handle_all-last creates drops s.events (dropped name) stored))
        (subst (λ key. Knows (erase key s.md.databases) (erase name held)) (sym lower)
          (erase-Knows s.md.databases name held h))

  apply_command-Follows :
      (stored : Map Database) (s : Service) (cmd : Command)
      → IsLower cmd
      → Follows stored s
      → Follows stored (apply_command uni s cmd).0
  unfolding apply_command apply_drop_user apply_update_node_list apply_create_user
      apply_set_password
  apply_command-Follows stored s (update_node_list nodes) lower h = h
  apply_command-Follows stored s (create_database db) lower h =
      create_database-Follows stored s db lower h
  apply_command-Follows stored s (drop_database name) lower h =
      drop_database-Follows stored s name lower h
  apply_command-Follows stored s (create_user u) lower h =
      elim (Option-cases (lookup (to_lower uni u.name) s.md.users)) [
        | inl free ↦ rw (free, apply_create_user) h
        | inr (old, taken) ↦ rw (taken, apply_create_user) h
      ]
  apply_command-Follows stored s (drop_user name) lower h = h
  apply_command-Follows stored s (set_password name password) lower h =
      elim (Option-cases (lookup (to_lower uni name) s.md.users)) [
        | inl absent ↦ rw (absent, apply_set_password) h
        | inr (u, found) ↦ rw (found, apply_set_password) h
      ]

  apply_all-Follows :
      (stored : Map Database) (s : Service) (cmds : List Command)
      → All IsLower cmds
      → Follows stored s
      → Follows stored (apply_all s cmds)
  unfolding apply_all
  apply_all-Follows stored s [] lower h = h
  apply_all-Follows stored s (cmd ∷ cmds) (p, lower) h =
      apply_all-Follows stored (apply_command uni s cmd).0 cmds lower
        (apply_command-Follows stored s cmd p h)

  start-Follows :
      (s : Service)
      → NamedBy s.md.databases
      → s.events ≡ []
      → Follows (create_each (databases s) []) s
  unfolding databases handle_all lookup
  start-Follows s named fresh =
      subst
        (λ es. Knows s.md.databases (handle_all creates drops es (create_each (databases s) [])))
        (sym fresh)
        (create_each-Knows s.md.databases (databases s) []
          (sort-All (λ (db : Types.Database). db.name) (IsListed s.md.databases)
            (values s.md.databases) (values-IsListed s.md.databases named))
          (λ name held absent. held refl))

  -- The data service is started on a meta service whose databases are stored under their own names
  -- and that has sent no event. Then commands are applied that spell the names of databases in
  -- lower case, and the informer, with nothing but the calls and turns of `actions`, was sent the
  -- events of these commands. The turns that the loop still makes lead to a state in which every
  -- database that the data service holds is one that the metadata have.
  pub held-Knows :
      (s : Service) (cmds : List Command) (actions : List (Action (Map Database)))
      (di : Informer (Map Database))
      → NamedBy s.md.databases
      → s.events ≡ []
      → All IsLower cmds
      → AddsNone actions
      → sent actions ≡ (apply_all s cmds).events
      → schedule actions (start_service s (informer_init [])) ≡ moved di
      → (held : Map Database) × Drains creates drops di held
        × Knows (apply_all s cmds).md.databases held
  unfolding start_service add_create_handler add_drop_handler informer_init
  held-Knows s cmds actions di named fresh lower quiet told ran =
      let stored = create_each (databases s) [] in
      let (fits, drained) = delivered creates drops stored actions di quiet ran in
      (
        handle_all creates drops (sent actions) stored,
        drained,
        subst (λ es. Knows (apply_all s cmds).md.databases (handle_all creates drops es stored))
            (sym told) (apply_all-Follows stored s cmds lower (start-Follows s named fresh)),
      )
