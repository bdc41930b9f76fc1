-- ===== src/Meta/Leader.antt =====
-- The leader functions of pkg/meta: the checks on the current metadata, and `raftApply` of fsm.go.
-- Raft is a library: what it answers to one `Apply` call is a parameter, that the entry was
-- committed (and so applied here, between the call and its return), or the text of an error, which
-- is none of xerrors. Marshalling a
-- command does not fail.
use xuandb.Prelude.{ℕ, Option, none, some, if◌then◌else◌}
use xuandb.Prelude.Map.{lookup}
use xuandb.Prelude.Text.{Text}
use xuandb.Prelude.Unicode.{Unicode, to_lower}
use xuandb.Xerrors.{Error, wrap, other, same_error, internal_server_error}
use xuandb.Meta.Types.{
  User, Database, Command, create_user, drop_user, set_password, create_database, drop_database,
  update_node_list, Service, err_user_exists, err_user_not_exists, err_system_user,
  err_database_exists, err_database_not_exists,
}
use xuandb.Meta.Apply.{apply_command}
use xuandb.Meta.Snapshot.{user_via_json}

pub data RaftAnswer : Type 0 where
  committed : RaftAnswer
  rejected : Text → RaftAnswer

-- What a leader function does after its check.
pub data Check : Type 0 where
  answered : Option Error → Check
  submitted : Command → Check

module _ (uni : Unicode) where
  -- A command that was marshalled into a log entry and read back.
  unfoldable pub command_via_json : Command → Command
  command_via_json (create_user u) = create_user (user_via_json uni u)
  command_via_json (update_node_list nodes) = update_node_list nodes
  command_via_json (create_database db) = create_database db
  command_via_json (drop_database name) = drop_database name
  command_via_json (drop_user name) = drop_user name
  command_via_json (set_password name password) = set_password name password

  unfoldable pub raft_apply : RaftAnswer → Service → Command → Service × Option Error
  raft_apply (rejected t) s cmd = (s, wrap (some (other t)) internal_server_error)
  raft_apply committed s cmd =
      let (t, e) = apply_command uni s (command_via_json cmd) in (t, wrap e internal_server_error)

  abbrev pub user_by_name : Service → Text → Option User
  user_by_name s name = lookup (to_lower uni name) s.md.users

  abbrev pub database_by_name : Service → Text → Option Database
  database_by_name s name = lookup (to_lower uni name) s.md.databases

  -- The first half of a leader function: it answers at once, or submits a command to raft. Other
  -- entries may be applied between this check and the command's own turn. `now` is `time.Now()`.
  unfoldable pub check_create_user : ℕ → Service → User → Check
  check_create_user now s u = elim (user_by_name s u.name) [
    | some _ ↦ answered (some err_user_exists)
    | none ↦ submitted (create_user (record u { created_at = now }))
  ]

  -- An unknown user counts as dropped.
  unfoldable pub check_drop_user : Service → Text → Check
  check_drop_user s name = elim (user_by_name s name) [
    | none ↦ answered none
    | some u ↦ if u.system then answered (some err_system_user) else submitted (drop_user name)
  ]

  unfoldable pub check_set_password : Service → User → Check
  check_set_password s u = elim (user_by_name s u.name) [
    | none ↦ answered (some err_user_not_exists)
    | some _ ↦ submitted (set_password u.name u.password)
  ]

  unfoldable pub check_create_database : Service → Database → Check
  check_create_database s db = elim (database_by_name s db.name) [
    | some _ ↦ answered (some err_database_exists)
    | none ↦ submitted (create_database db)
  ]

  unfoldable pub check_drop_database : Service → Text → Check
  check_drop_database s name = elim (database_by_name s name) [
    | none ↦ answered (some err_database_not_exists)
    | some _ ↦ submitted (drop_database name)
  ]

  unfoldable pub submit : RaftAnswer → Service → Check → Service × Option Error
  submit ra s (answered e) = (s, e)
  submit ra s (submitted cmd) = raft_apply ra s cmd

  unfoldable pub leader_create_user : RaftAnswer → ℕ → Service → User → Service × Option Error
  leader_create_user ra now s u = submit ra s (check_create_user now s u)

  unfoldable pub ignore_unknown : Option Error → Option Error
  ignore_unknown none = none
  ignore_unknown (some e) = if same_error e err_user_not_exists then none else some e

  unfoldable pub leader_drop_user : RaftAnswer → Service → Text → Service × Option Error
  leader_drop_user ra s name = elim (check_drop_user s name) [
    | answered e ↦ (s, e)
    | submitted cmd ↦ let (t, e) = raft_apply ra s cmd in (t, ignore_unknown e)
  ]

  unfoldable pub leader_set_password : RaftAnswer → Service → User → Service × Option Error
  leader_set_password ra s u = submit ra s (check_set_password s u)

  unfoldable pub leader_create_database : RaftAnswer → Service → Database → Service × Option Error
  leader_create_database ra s db = submit ra s (check_create_database s db)

  unfoldable pub leader_drop_database : RaftAnswer → Service → Text → Service × Option Error
  leader_drop_database ra s name = submit ra s (check_drop_database s name)
