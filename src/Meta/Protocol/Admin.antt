-- ===== src/Meta/Protocol/Admin.antt =====
-- The first user stays a system user with the admin privilege, whatever the interleaving.
use xuandb.Prelude.{true, ◌≡◌, ◌≢◌, inl, inr, refl, ap, ◌∙◌, arith, some, Option-cases, Bool-cases}
use xuandb.Prelude.Map.{Map, lookup, insert, erase, lookup-insert, lookup-erase}
use xuandb.Prelude.Text.{Text, text_eq, text_eq_iff}
use xuandb.Prelude.Unicode.{Unicode, to_lower}
use xuandb.Meta.Privilege.{privilege_admin}
use xuandb.Meta.Types.{
  User, Command, update_node_list, create_database, drop_database, create_user, drop_user,
  set_password, Service,
}
use xuandb.Meta.Apply.{
  apply_command, apply_create_user, apply_drop_user, apply_set_password, apply_create_database,
  apply_drop_database, apply_update_node_list,
}

-- The user of this key is a system user and has the admin privilege.
pub record IsAdmin (key : Text) (users : Map User) : Type 0 where
  pub user : User
  pub found : lookup key users ≡ some user
  pub is_system : user.system ≡ true
  pub is_admin : user.priv ≡ privilege_admin

IsAdmin-insert :
    (key k : Text) (v : User) (users : Map User)
    → IsAdmin key users
    → (k ≡ key → (v.system ≡ true) × (v.priv ≡ privilege_admin))
    → IsAdmin key (insert k v users)
IsAdmin-insert key k v users h keep = elim (Bool-cases (text_eq k key)) [
  | inl same ↦
      let (system, admin) = keep ((text_eq_iff k key).0 same) in
      record {
        user = v;
        found = rw (lookup-insert, same) refl;
        is_system = system;
        is_admin = admin;
      }
  | inr differs ↦ record {
    user = h.user;
    found = rw (lookup-insert, differs) h.found;
    is_system = h.is_system;
    is_admin = h.is_admin;
  }
]

IsAdmin-erase :
    (key k : Text) (users : Map User) → IsAdmin key users → k ≢ key → IsAdmin key (erase k users)
IsAdmin-erase key k users h ne = record {
  user = h.user;
  found = ground (arith, h.found, lookup-erase k key users, text_eq_iff k key);
  is_system = h.is_system;
  is_admin = h.is_admin;
}

module _ (uni : Unicode) where
  -- The command does not drop the user of this key.
  abbrev pub Spares : Text → Command → Type 0
  Spares key (drop_user name) = to_lower uni name ≢ key
  Spares key _ = Unit

  apply_create_user-IsAdmin :
      (key : Text) (s : Service) (u : User)
      → IsAdmin key s.md.users
      → IsAdmin key (apply_create_user uni s u).0.md.users
  unfolding apply_create_user
  apply_create_user-IsAdmin key s u h =
      elim (Option-cases (lookup (to_lower uni u.name) s.md.users)) [
        | inl free ↦
            rw (free, apply_create_user)
              (IsAdmin-insert key _ _ s.md.users h
                (λ e. absurd (cc (h.found, free, ap (λ k. lookup k s.md.users) e))))
        | inr (v, taken) ↦ rw (taken, apply_create_user) h
      ]

  apply_set_password-IsAdmin :
      (key : Text) (s : Service) (name password : Text)
      → IsAdmin key s.md.users
      → IsAdmin key (apply_set_password uni s name password).0.md.users
  unfolding apply_set_password
  apply_set_password-IsAdmin key s name password h =
      elim (Option-cases (lookup (to_lower uni name) s.md.users)) [
        | inl absent ↦ rw (absent, apply_set_password) h
        | inr (v, found) ↦
            rw (found, apply_set_password)
              (IsAdmin-insert key _ _ s.md.users h (λ e.
                let same : v ≡ h.user = cc (h.found, found, ap (λ k. lookup k s.md.users) e) in
                (ap (λ x. x.system) same ∙ h.is_system, ap (λ x. x.priv) same ∙ h.is_admin)))
      ]

  -- Every command but the one that drops this user keeps the admin.
  pub apply_command-IsAdmin :
      (key : Text) (s : Service) (cmd : Command)
      → Spares key cmd
      → IsAdmin key s.md.users
      → IsAdmin key (apply_command uni s cmd).0.md.users
  unfolding apply_command apply_drop_user apply_create_database apply_drop_database
      apply_update_node_list
  apply_command-IsAdmin key s (create_user u) p h = apply_create_user-IsAdmin key s u h
  apply_command-IsAdmin key s (set_password name password) p h =
      apply_set_password-IsAdmin key s name password h
  apply_command-IsAdmin key s (drop_user name) p h =
      IsAdmin-erase key (to_lower uni name) s.md.users h p
  apply_command-IsAdmin key s (update_node_list nodes) p h = h
  apply_command-IsAdmin key s (drop_database name) p h = h
  apply_command-IsAdmin key s (create_database db) p h =
      elim (Option-cases (lookup (to_lower uni db.name) s.md.databases)) [
        | inl free ↦ rw (free, apply_create_database) h
        | inr (v, taken) ↦ rw (taken, apply_create_database) h
      ]
