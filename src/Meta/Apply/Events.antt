-- ===== src/Meta/Apply/Events.antt =====
-- What the informer is told about databases.
use xuandb.Prelude.{
  ◌≡◌, refl, [], ◌∷◌, ◌++◌, Option, none, some, if◌then◌else◌, ◌⊎◌, inl, inr, Option-cases,
}
use xuandb.Prelude.Map.{lookup, lookup-insert, lookup-erase}
use xuandb.Prelude.Text.{Text, text_eq}
use xuandb.Prelude.Unicode.{Unicode, to_lower}
use xuandb.Meta.Types.{Database, Service, created, dropped, err_database_exists}
use xuandb.Meta.Apply.{apply_create_database, apply_drop_database}

-- The database that a name stands for.
abbrev pub database_of : Unicode → Service → Text → Option Database
database_of uni s name = lookup (to_lower uni name) s.md.databases

module _ (uni : Unicode) where
  -- Creating a database that is new stores it, under every spelling of its name, and sends no
  -- event; creating one that exists changes no database, fails, and sends a `created` event.
  pub apply_create_database_lem :
      (s : Service) (db : Database) (name : Text)
      → ((database_of uni s db.name ≡ none)
          × ((apply_create_database uni s db).1 ≡ none)
          × ((apply_create_database uni s db).0.events ≡ s.events)
          × (database_of uni (apply_create_database uni s db).0 name ≡ (
              if text_eq (to_lower uni db.name) (to_lower uni name)
              then some db
              else database_of uni s name)))
        ⊎ (((old : Database) × (database_of uni s db.name ≡ some old))
            × ((apply_create_database uni s db).1 ≡ some err_database_exists)
            × ((apply_create_database uni s db).0.events ≡ s.events ++ created db ∷ [])
            × ((apply_create_database uni s db).0.md ≡ s.md))
  unfolding apply_create_database
  apply_create_database_lem s db name = elim (Option-cases (database_of uni s db.name)) [
    | inl free ↦ inl (
      free,
      rw (free, apply_create_database) refl,
      rw (free, apply_create_database) refl,
      rw (free, apply_create_database)
          (lookup-insert (to_lower uni db.name) (to_lower uni name) db s.md.databases),
    )
    | inr (old, taken) ↦ inr (
      (old, taken),
      rw (taken, apply_create_database) refl,
      rw (taken, apply_create_database) refl,
      rw (taken, apply_create_database) refl,
    )
  ]

  -- Dropping a database removes it under every spelling of its name, keeps the others, and always
  -- succeeds and sends a `dropped` event, also where there was no such database.
  pub apply_drop_database_lem :
      (s : Service) (name other : Text)
      → ((apply_drop_database uni s name).1 ≡ none)
        × ((apply_drop_database uni s name).0.events ≡ s.events ++ dropped name ∷ [])
        × (database_of uni (apply_drop_database uni s name).0 other ≡ (
            if text_eq (to_lower uni name) (to_lower uni other)
            then none
            else database_of uni s other))
  unfolding apply_drop_database
  apply_drop_database_lem s name other =
      (refl, refl, lookup-erase (to_lower uni name) (to_lower uni other) s.md.databases)
