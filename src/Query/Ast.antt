-- ===== src/Query/Ast.antt =====
-- pkg/query/ast/ast.go: the statements, with their `Auth` and `Execute`.
pub mod Rights
pub mod Shows
pub mod Listed
use xuandb.Prelude.{
  ℕ, ◌-◌, ◌+◌, ◌*◌, ◌%◌, ◌^◌, Bool, ltb, if◌then◌else◌, List, [], ◌∷◌, map, Option, none, some,
}
use xuandb.Prelude.Int.{ℤ, pos, negsuc}
use xuandb.Prelude.Text.{Text, codes, text_eq}
use xuandb.Prelude.Unicode.{Unicode}
use xuandb.Xerrors.{Error}
use xuandb.Meta.Privilege.{privilege_admin, privilege_read, privilege_none, to_string}
use xuandb.Meta.Types.{User, Database, Service}
use xuandb.Meta.Leader.{RaftAnswer}
use xuandb.Meta.Client.{
  Caller, create_user, drop_user, set_password, create_database, drop_database,
}
use xuandb.Meta.Auth.{RequiredPrivileges, auth}
use xuandb.Meta.Node.{role_to_string}
use xuandb.Meta.Node.Membership.{RaftCall, Server, add_node, drop_node}
use xuandb.Meta.Node.Listing.{
  NodeState, up, unknown, down, NodeStatus, node_statuses, users, databases,
}
use xuandb.Query.Run.{Run, returned, panicked, and_then}
use xuandb.Query.Value.{Value, string, bool, time, duration}
use xuandb.Query.ResultSet.{ResultSetWriter, set_columns, add_rows}

pub data Statement : Type 0 where
  create_user_statement : User → Statement
  drop_user_statement : Text → Statement
  set_password_statement : Text → Text → Statement
  show_user_statement : Statement
  join_node_statement : Text → Text → Bool → Statement
  drop_node_statement : Text → Statement
  show_node_statement : Statement
  create_database_statement : Database → Statement
  drop_database_statement : Text → Statement
  show_database_statement : Statement

-- What a statement runs in: the tables of Go's packages unicode and strconv, what raft answers,
-- who asks and whom a request reaches, the time, the leader's identifier, and the metadata of a
-- node that does not lead.
pub record Env : Type 0 where
  pub unicode : Unicode
  pub printable : ℕ → Bool
  pub raft_answer : RaftAnswer
  pub raft : RaftCall → Option Text
  pub caller : Caller
  pub server : Server
  pub cluster_name : Text
  pub now : ℕ
  pub leader_id : Text
  pub replica : Service

-- What statements change: the leader's service, and the membership calls made to raft.
pub record State : Type 0 where
  pub leader : Service
  pub calls : List RaftCall

-- `svcInst` of the node that runs the statement.
unfoldable pub svc_inst : Env → State → Service
svc_inst env st = if env.caller.is_leader then st.leader else env.replica

abbrev pub global_privilege : ℕ → RequiredPrivileges
global_privilege p = record { global = p; databases = [] }

-- The privilege that `Auth` asks for, of a user who calls himself `name`.
unfoldable pub required : Statement → Text → RequiredPrivileges
required show_user_statement name = global_privilege privilege_read
required show_node_statement name = global_privilege privilege_read
required show_database_statement name = global_privilege privilege_read
required (set_password_statement user password) name =
    global_privilege (if text_eq name user then privilege_none else privilege_admin)
required (create_user_statement u) name = global_privilege privilege_admin
required (drop_user_statement user) name = global_privilege privilege_admin
required (join_node_statement id addr voter) name = global_privilege privilege_admin
required (drop_node_statement id) name = global_privilege privilege_admin
required (create_database_statement db) name = global_privilege privilege_admin
required (drop_database_statement db) name = global_privilege privilege_admin

unfoldable pub auth_statement : Env → State → Statement → Text → Text → Option Error
auth_statement env st stmt name pwd =
    auth env.unicode (svc_inst env st) name pwd (required stmt name)

-- A `uint64` read as an `int64`.
unfoldable pub to_int64 : ℕ → ℤ
to_int64 n = if ltb n (2 ^ 63) then pos n else negsuc (2 ^ 64 - 1 - n)

unfoldable pub user_row : User → List Value
user_row u = string u.name ∷ bool u.system ∷ string (to_string u.priv) ∷ []

unfoldable pub database_row : Database → List Value
database_row db = string db.name ∷ duration (to_int64 db.duration) ∷ []

unfoldable pub state_to_string : NodeState → Text
state_to_string up = codes "up"
state_to_string unknown = codes "unknown"
state_to_string down = codes "down"

-- `Time.UnixNano` of a time that is `n` nanoseconds after the zero time: the count from 1970 on, in
-- an `int64` that wraps around.
abbrev unix_epoch : ℕ
unix_epoch = 62135596800 * 1000000000

unfoldable pub unix_nano : ℕ → ℤ
unix_nano n = to_int64 ((n + 2 ^ 64 * 4 - unix_epoch) % 2 ^ 64)

unfoldable pub node_row : NodeStatus → List Value
node_row ns =
    string ns.node.id
    ∷ string ns.node.addr
    ∷ string (role_to_string ns.node.role)
    ∷ time (unix_nano ns.node.last_heartbeat_time)
    ∷ bool ns.leader
    ∷ string (state_to_string ns.state)
    ∷ []

abbrev pub user_columns : List Text
user_columns = codes "name" ∷ codes "isSystem" ∷ codes "privileges" ∷ []

abbrev pub database_columns : List Text
database_columns = codes "name" ∷ codes "duration" ∷ []

abbrev pub node_columns : List Text
node_columns =
    codes "id"
    ∷ codes "addr"
    ∷ codes "role"
    ∷ codes "heartbeatTime"
    ∷ codes "isLeader"
    ∷ codes "state"
    ∷ []

-- `rs.SetColumns(…)`, then a row for each item.
unfoldable pub show :
    Env → List Text → List (List Value) → ResultSetWriter → Run (ResultSetWriter × Option Error)
show env columns rows rs =
    and_then (set_columns env.printable columns rs) (add_rows env.printable rows)

abbrev Executed : Type 0
Executed = Run (State × ResultSetWriter × Option Error)

abbrev changes : State → ResultSetWriter → Service × Option Error → Executed
changes st rs (s, e) = returned (record st { leader = s }, rs, e)

abbrev asks : State → ResultSetWriter → List RaftCall × Option Error → Executed
asks st rs (calls, e) = returned (record st { calls = calls }, rs, e)

abbrev reads : State → Run (ResultSetWriter × Option Error) → Executed
reads st r = and_then r (λ p. returned (st, p.0, p.1))

unfoldable pub execute : Env → State → Statement → ResultSetWriter → Executed
execute env st (create_user_statement u) rs =
    changes st rs (create_user env.unicode env.raft_answer env.caller env.now st.leader u)
execute env st (drop_user_statement name) rs =
    changes st rs (drop_user env.unicode env.raft_answer env.caller st.leader name)
execute env st (set_password_statement name password) rs =
    changes st rs (set_password env.unicode env.raft_answer env.caller st.leader name password)
execute env st show_user_statement rs =
    reads st (show env user_columns (map user_row (users (svc_inst env st))) rs)
execute env st (join_node_statement id addr voter) rs =
    asks st rs (add_node env.raft env.caller env.server env.cluster_name st.calls id addr voter)
execute env st (drop_node_statement id) rs =
    asks st rs (drop_node env.raft env.caller env.server st.calls id)
execute env st show_node_statement rs = reads st (
    show env node_columns (map node_row (node_statuses env.leader_id env.now (svc_inst env st))) rs)
execute env st (create_database_statement db) rs =
    changes st rs (create_database env.unicode env.raft_answer env.caller st.leader db)
execute env st (drop_database_statement name) rs =
    changes st rs (drop_database env.unicode env.raft_answer env.caller st.leader name)
execute env st show_database_statement rs =
    reads st (show env database_columns (map database_row (databases (svc_inst env st))) rs)
