-- ===== src/Meta/Apply/Keys.antt =====
-- Users and databases are stored under their names in lower case.
use xuandb.Prelude.{◌≡◌, refl, ap, arith, some, Option-cases, inl, inr}
use xuandb.Prelude.Map.{Map, lookup, insert, erase, lookup-insert, lookup-erase}
use xuandb.Prelude.Text.{Text, text_eq_iff}
use xuandb.Prelude.Unicode.{Unicode, to_lower}
use xuandb.Meta.Types.{
  User, Database, Command, update_node_list, create_database, drop_database, create_user, drop_user,
  set_password, Service,
}
use xuandb.Meta.Apply.{
  apply_command, apply_create_user, apply_drop_user, apply_set_password, apply_create_database,
  apply_drop_database, apply_update_node_list, first_user,
}

-- Every entry's key is a function of its value.
abbrev pub KeyedBy {ℓ} : {V : Type ℓ} → (V → Text) → Map V → Type ℓ
KeyedBy {V = V} key m = (k : Text) (v : V) → lookup k m ≡ some v → key v ≡ k

KeyedBy-insert {ℓ} :
    {V : Type ℓ} (key : V → Text) (k : Text) (v : V) (m : Map V)
    → KeyedBy key m
    → key v ≡ k
    → KeyedBy key (insert k v m)
KeyedBy-insert key k v m h e j w found =
    ground (arith, lookup-insert k j v m, text_eq_iff k j, h j w)

KeyedBy-erase {ℓ} :
    {V : Type ℓ} (key : V → Text) (k : Text) (m : Map V) → KeyedBy key m → KeyedBy key (erase k m)
KeyedBy-erase key k m h j w found = ground (arith, lookup-erase k j m, h j w)

module _ (uni : Unicode) where
  pub record IsKeyed (s : Service) : Type 0 where
    pub users : KeyedBy (λ (u : User). to_lower uni u.name) s.md.users
    pub databases : KeyedBy (λ (db : Database). to_lower uni db.name) s.md.databases

  -- The user is stored under the key of its name, as it is or as the first user.
  first_user-name : (users : Map User) (u : User) → (first_user users u).name ≡ u.name
  unfolding first_user
  first_user-name users u = ground arith

  apply_create_user-IsKeyed :
      (s : Service) (u : User) → IsKeyed s → IsKeyed (apply_create_user uni s u).0
  unfolding apply_create_user
  apply_create_user-IsKeyed s u h = elim (Option-cases (lookup (to_lower uni u.name) s.md.users)) [
    | inl free ↦
        rw (free, apply_create_user)
          (record {
            users =
                KeyedBy-insert _ _ _ s.md.users h.users
                  (ap (to_lower uni) (first_user-name s.md.users u));
            databases = h.databases;
          })
    | inr (old, taken) ↦ rw (taken, apply_create_user) h
  ]

  apply_set_password-IsKeyed :
      (s : Service) (name password : Text)
      → IsKeyed s
      → IsKeyed (apply_set_password uni s name password).0
  unfolding apply_set_password
  apply_set_password-IsKeyed s name password h =
      elim (Option-cases (lookup (to_lower uni name) s.md.users)) [
        | inl absent ↦ rw (absent, apply_set_password) h
        | inr (u, found) ↦
            rw (found, apply_set_password)
              (record {
                users =
                    KeyedBy-insert _ _ _ s.md.users h.users (h.users (to_lower uni name) u found);
                databases = h.databases;
              })
      ]

  apply_create_database-IsKeyed :
      (s : Service) (db : Database) → IsKeyed s → IsKeyed (apply_create_database uni s db).0
  unfolding apply_create_database
  apply_create_database-IsKeyed s db h =
      elim (Option-cases (lookup (to_lower uni db.name) s.md.databases)) [
        | inl free ↦
            rw (free, apply_create_database)
              (record {
                users = h.users;
                databases = KeyedBy-insert _ _ db s.md.databases h.databases refl;
              })
        | inr (old, taken) ↦
            rw (taken, apply_create_database) (record { users = h.users; databases = h.databases })
      ]

  -- Every command keeps users and databases stored under the lower case of their names.
  pub apply_command-IsKeyed :
      (s : Service) (cmd : Command) → IsKeyed s → IsKeyed (apply_command uni s cmd).0
  unfolding apply_command apply_drop_user apply_drop_database apply_update_node_list
  apply_command-IsKeyed s (create_user u) h = apply_create_user-IsKeyed s u h
  apply_command-IsKeyed s (set_password name password) h =
      apply_set_password-IsKeyed s name password h
  apply_command-IsKeyed s (create_database db) h = apply_create_database-IsKeyed s db h
  apply_command-IsKeyed s (drop_user name) h = record {
    users = KeyedBy-erase _ _ s.md.users h.users;
    databases = h.databases;
  }
  apply_command-IsKeyed s (drop_database name) h = record {
    users = h.users;
    databases = KeyedBy-erase _ _ s.md.databases h.databases;
  }
  apply_command-IsKeyed s (update_node_list nodes) h = record {
    users = h.users;
    databases = h.databases;
  }
