-- ===== src/Meta/Tests/Operations.antt =====
-- Instances of the theorems about commands, snapshots, handlers and clients.
use xuandb.Prelude.{true, false, [], ◌∷◌, ◌++◌, ◌≡◌, ◌≢◌, ◌⊎◌, inl, refl, none, some, if◌then◌else◌}
use xuandb.Prelude.Map.{lookup}
use xuandb.Prelude.Text.{codes, text_eq}
use xuandb.Prelude.Unicode.{ascii, to_lower}
use xuandb.Meta.Types.{
  Database, Service, new_service, created, create_database, err_database_exists,
}
use xuandb.Meta.Apply.{apply_command, apply_create_database}
use xuandb.Meta.Apply.Keys.{IsKeyed, apply_command-IsKeyed}
use xuandb.Meta.Apply.Events.{database_of, apply_create_database_lem}
use xuandb.Meta.Snapshot.{data_via_json, snapshot, restore, decoded}
use xuandb.Meta.Snapshot.Laws.{restore-snapshot}
use xuandb.Meta.Leader.{committed, rejected}
use xuandb.Meta.Handler.{
  body, assertion_failed, handle_create_user, handle_drop_user, handle_set_password,
  handle_create_database, handle_drop_database,
}
use xuandb.Meta.Handler.Errors.{handlers-reply}
use xuandb.Meta.Client.{Caller}
use xuandb.Meta.Client.Forward.{to_create_user, run, carried, IsFollower, run-forward}
use xuandb.Meta.Tests.{bob, admin_bob}

abbrev db1 : Database
db1 = record { name = codes "Db"; duration = 60 }

abbrev both : Service
both = record {
  md = record { users = (codes "bob", admin_bob) ∷ []; databases = (codes "db", db1) ∷ [] };
  nodes = [];
  events = [];
}

abbrev on_leader_node : Caller
on_leader_node = record { is_leader = true; leader_http_addr = codes "l:1"; transport = none }

abbrev on_other_node : Caller
on_other_node = record { is_leader = false; leader_http_addr = codes "l:1"; transport = none }

on_other_node-IsFollower : IsFollower on_other_node
on_other_node-IsFollower = record { not_leader = refl; knows_leader = cc; no_failure = refl }

run-forward_example :
    run ascii committed on_other_node new_service (to_create_user 9 bob)
    ≡ carried (run ascii committed on_leader_node new_service (to_create_user 9 bob))
run-forward_example =
    run-forward ascii committed new_service on_leader_node on_other_node refl
      on_other_node-IsFollower (to_create_user 9 bob) ((cc), (cc))

handlers-reply_example :
    ((handle_create_user ascii (rejected (codes "lost")) 9 new_service (body bob)).1
      ≢ assertion_failed)
    × ((handle_set_password ascii (rejected (codes "lost")) new_service (body bob)).1
        ≢ assertion_failed)
    × ((handle_create_database ascii (rejected (codes "lost")) new_service (body db1)).1
        ≢ assertion_failed)
    × ((handle_drop_user ascii (rejected (codes "lost")) new_service (codes "x")).1
        ≢ assertion_failed)
    × ((handle_drop_database ascii (rejected (codes "lost")) new_service (codes "x")).1
        ≢ assertion_failed)
handlers-reply_example =
    handlers-reply ascii (rejected (codes "lost")) new_service 9 (body bob) (body db1) (codes "x")

restore-snapshot_example :
    restore new_service (decoded (data_via_json ascii (snapshot both)))
    ≡ (record new_service { md = record { users = both.md.users; databases = [] } }, none)
restore-snapshot_example = restore-snapshot ascii both new_service ((inl refl, tt), tt)

new_service-IsKeyed : IsKeyed ascii new_service
unfolding lookup
new_service-IsKeyed = record { users = λ k v e. absurd (cc e); databases = λ k v e. absurd (cc e) }

apply_command-IsKeyed_example :
    IsKeyed ascii (apply_command ascii new_service (create_database db1)).0
apply_command-IsKeyed_example =
    apply_command-IsKeyed ascii new_service (create_database db1) new_service-IsKeyed

apply_create_database_lem_example :
    ((database_of ascii both db1.name ≡ none)
      × ((apply_create_database ascii both db1).1 ≡ none)
      × ((apply_create_database ascii both db1).0.events ≡ both.events)
      × (database_of ascii (apply_create_database ascii both db1).0 (codes "DB") ≡ (
          if text_eq (to_lower ascii db1.name) (to_lower ascii (codes "DB"))
          then some db1
          else database_of ascii both (codes "DB"))))
    ⊎ (((old : Database) × (database_of ascii both db1.name ≡ some old))
        × ((apply_create_database ascii both db1).1 ≡ some err_database_exists)
        × ((apply_create_database ascii both db1).0.events ≡ both.events ++ created db1 ∷ [])
        × ((apply_create_database ascii both db1).0.md ≡ both.md))
apply_create_database_lem_example = apply_create_database_lem ascii both db1 (codes "DB")
