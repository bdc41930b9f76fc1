-- ===== src/Meta/Protocol/Submits.antt =====
-- What each request submits to raft, if it does.
use xuandb.Prelude.{false, ◌≡◌, some, arith}
use xuandb.Prelude.Map.{lookup}
use xuandb.Prelude.Unicode.{Unicode, to_lower}
use xuandb.Meta.Types.{
  User, Command, update_node_list, create_database, drop_database, create_user, drop_user,
  set_password, Service,
}
use xuandb.Meta.Leader.{
  submitted, check_create_user, check_drop_user, check_set_password, check_create_database,
  check_drop_database,
}
use xuandb.Meta.Protocol.{
  Request, ask_create_user, ask_drop_user, ask_set_password, ask_create_database, ask_drop_database,
  ask_node_list, check,
}

module _ (uni : Unicode) where
  -- A drop is submitted for a known user who is no system user; no other request submits one.
  abbrev pub Submits : Service → Request → Command → Type 0
  Submits s (ask_drop_user name) cmd =
      (cmd ≡ drop_user name)
      × ((u : User) × (lookup (to_lower uni name) s.md.users ≡ some u) × (u.system ≡ false))
  Submits s (ask_create_user now u) cmd = cmd ≡ create_user (record u { created_at = now })
  Submits s (ask_set_password u) cmd = cmd ≡ set_password u.name u.password
  Submits s (ask_create_database db) cmd = cmd ≡ create_database db
  Submits s (ask_drop_database name) cmd = cmd ≡ drop_database name
  Submits s (ask_node_list nodes) cmd = cmd ≡ update_node_list nodes

  pub check-Submits :
      (s : Service) (r : Request) (cmd : Command) → check uni s r ≡ submitted cmd → Submits s r cmd
  unfolding check check_create_user check_drop_user check_set_password check_create_database
      check_drop_database
  check-Submits s (ask_create_user now u) cmd h = ground arith
  check-Submits s (ask_drop_user name) cmd h = ground arith
  check-Submits s (ask_set_password u) cmd h = ground arith
  check-Submits s (ask_create_database db) cmd h = ground arith
  check-Submits s (ask_drop_database name) cmd h = ground arith
  check-Submits s (ask_node_list nodes) cmd h = ground arith
