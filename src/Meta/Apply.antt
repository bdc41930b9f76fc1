-- ===== src/Meta/Apply.antt =====
-- The state machine of pkg/meta: `Apply` of fsm.go and the apply functions of user.go,
-- database.go and node.go. Names are looked up in lower case.
pub mod Keys
pub mod Events
pub mod Nodes
use xuandb.Prelude.{Bool, true, [], ◌∷◌, ◌++◌, Option, none, some, ltb, if◌then◌else◌}
use xuandb.Prelude.Map.{Map, lookup, insert, erase, is_empty}
use xuandb.Prelude.Text.{Text, codes}
use xuandb.Prelude.Unicode.{Unicode, to_lower}
use xuandb.Xerrors.{Error}
use xuandb.Meta.Privilege.{privilege_admin}
use xuandb.Meta.Types.{
  User, Database, NodeInfo, Command, update_node_list, create_database, drop_database, create_user,
  drop_user, set_password, Log, garbled, unknown, entry, Event, created, dropped, Service, Response,
  nil, failed, panicked, err_user_exists, err_user_not_exists, err_database_exists,
}

abbrev pub set_users : Service → Map User → Service
set_users s users = record s { md = record { users = users; databases = s.md.databases } }

abbrev pub set_databases : Service → Map Database → Service
set_databases s databases = record s { md = record { users = s.md.users; databases = databases } }

-- `databaseInformer.inform(evt)`
abbrev pub inform : Service → Event → Service
inform s evt = record s { events = s.events ++ evt ∷ [] }

-- The first user is made a system user with the admin privilege.
unfoldable pub first_user : Map User → User → User
first_user users u =
    if is_empty users then record u { priv = privilege_admin; system = true } else u

module _ (uni : Unicode) where
  unfoldable pub apply_create_user : Service → User → Service × Option Error
  apply_create_user s u =
      let key = to_lower uni u.name in
      elim (lookup key s.md.users) [
        | none ↦ (set_users s (insert key (first_user s.md.users u) s.md.users), none)
        | some _ ↦ (s, some err_user_exists)
      ]

  unfoldable pub apply_drop_user : Service → Text → Service × Option Error
  apply_drop_user s name = (set_users s (erase (to_lower uni name) s.md.users), none)

  unfoldable pub apply_set_password : Service → Text → Text → Service × Option Error
  apply_set_password s name password =
      let key = to_lower uni name in
      elim (lookup key s.md.users) [
        | none ↦ (s, some err_user_not_exists)
        | some u ↦ (set_users s (insert key (record u { password = password }) s.md.users), none)
      ]

  -- A new database is stored, and no event is sent for it; one that exists is announced.
  unfoldable pub apply_create_database : Service → Database → Service × Option Error
  apply_create_database s db =
      let key = to_lower uni db.name in
      elim (lookup key s.md.databases) [
        | none ↦ (set_databases s (insert key db s.md.databases), none)
        | some _ ↦ (inform s (created db), some err_database_exists)
      ]

  unfoldable pub apply_drop_database : Service → Text → Service × Option Error
  apply_drop_database s name =
      (inform (set_databases s (erase (to_lower uni name) s.md.databases)) (dropped name), none)

-- The first loop of `applyUpdateNodeList`: the nodes that the command names stay.
pub retain_nodes : Map NodeInfo → Map NodeInfo → Map NodeInfo
retain_nodes cmd [] = []
retain_nodes cmd ((id, ni) ∷ nodes) = elim (lookup id cmd) [
  | none ↦ retain_nodes cmd nodes
  | some _ ↦ (id, ni) ∷ retain_nodes cmd nodes
]

-- The second loop, over the command's nodes in the order of the iteration.
pub newer_node : Option NodeInfo → NodeInfo → Bool
newer_node none ni = true
newer_node (some ni1) ni = ltb ni1.last_heartbeat_time ni.last_heartbeat_time

pub merge_nodes : Map NodeInfo → Map NodeInfo → Map NodeInfo
merge_nodes [] nodes = nodes
merge_nodes ((id, ni) ∷ cmd) nodes =
    merge_nodes cmd (if newer_node (lookup id nodes) ni then insert id ni nodes else nodes)

unfoldable pub apply_update_node_list : Service → Map NodeInfo → Service × Option Error
apply_update_node_list s cmd =
    (record s { nodes = merge_nodes cmd (retain_nodes cmd s.nodes) }, none)

pub to_response : Option Error → Response
to_response none = nil
to_response (some e) = failed e

module _ (uni : Unicode) where
  -- `raftApplyFuncs`: the function for each operation name.
  unfoldable pub apply_command : Service → Command → Service × Option Error
  apply_command s (update_node_list nodes) = apply_update_node_list s nodes
  apply_command s (create_database db) = apply_create_database uni s db
  apply_command s (drop_database name) = apply_drop_database uni s name
  apply_command s (create_user u) = apply_create_user uni s u
  apply_command s (drop_user name) = apply_drop_user uni s name
  apply_command s (set_password name password) = apply_set_password uni s name password

  -- `Apply` of raft's FSM.
  pub apply : Service → Log → Service × Response
  apply s (garbled e) = (s, failed e)
  apply s (unknown op) = (s, panicked (codes "unknown operation: " ++ op))
  apply s (entry cmd) = let (t, e) = apply_command s cmd in (t, to_response e)
