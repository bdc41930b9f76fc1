-- ===== src/Meta/Types.antt =====
-- The data of pkg/meta (fsm.go, user.go, database.go, node.go, service.go): a pointer that may be
-- nil is an `Option`, a map an association list, and a `time.Time` its nanoseconds since the zero
-- time.
use xuandb.Prelude.{ℕ, Bool, List, []}
use xuandb.Prelude.Map.{Map}
use xuandb.Prelude.Text.{Text, codes}
use xuandb.Xerrors.{Error, new, unauthorized, forbidden, not_found, conflict, service_unavailable}

pub record User : Type 0 where
  pub name : Text
  pub password : Text
  pub created_at : ℕ
  pub system : Bool
  pub priv : ℕ
  pub db_priv : Map ℕ

-- A duration in nanoseconds, as the `uint64` that the parser hands over.
pub record Database : Type 0 where
  pub name : Text
  pub duration : ℕ

pub record NodeInfo : Type 0 where
  pub id : Text
  pub addr : Text
  pub role : ℕ
  pub last_heartbeat_time : ℕ

-- `Data` of fsm.go, without its lock: every operation holds the lock for all that it does.
pub record Data : Type 0 where
  pub users : Map User
  pub databases : Map Database

-- The commands of the raft log, one for each operation name.
pub data Command : Type 0 where
  update_node_list : Map NodeInfo → Command
  create_database : Database → Command
  drop_database : Text → Command
  create_user : User → Command
  drop_user : Text → Command
  set_password : Text → Text → Command

-- The bytes of a log entry as `json.Unmarshal` reads them: not readable, an operation name that
-- is not in `raftApplyFuncs`, or a command.
pub data Log : Type 0 where
  garbled : Error → Log
  unknown : Text → Log
  entry : Command → Log

-- What is sent on the informer's channel.
pub data Event : Type 0 where
  created : Database → Event
  dropped : Text → Event

-- The meta service: its metadata, the nodes that it knows, and the events sent so far.
pub record Service : Type 0 where
  pub md : Data
  pub nodes : Map NodeInfo
  pub events : List Event

-- The `any` that `Apply` returns, or its panic.
pub data Response : Type 0 where
  nil : Response
  failed : Error → Response
  panicked : Text → Response

abbrev pub new_data : Data
new_data = record { users = []; databases = [] }

abbrev pub new_service : Service
new_service = record { md = new_data; nodes = []; events = [] }

abbrev pub err_user_exists : Error
err_user_exists = new conflict (codes "user already exists")

abbrev pub err_user_not_exists : Error
err_user_not_exists = new not_found (codes "user does not exist")

abbrev pub err_system_user : Error
err_system_user = new forbidden (codes "user is a system user")

abbrev pub err_auth_required : Error
err_auth_required = new unauthorized (codes "authorization required")

abbrev pub err_password_mismatch : Error
err_password_mismatch = new unauthorized (codes "password mismatch or user not exists")

abbrev pub err_insufficient_privileges : Error
err_insufficient_privileges = new forbidden (codes "insufficient privileges")

abbrev pub err_database_exists : Error
err_database_exists = new conflict (codes "database already exists")

abbrev pub err_database_not_exists : Error
err_database_not_exists = new not_found (codes "database does not exist")

abbrev pub err_meta_service_unavailable : Error
err_meta_service_unavailable = new service_unavailable (codes "meta service is unavailable")
