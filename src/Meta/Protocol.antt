-- ===== src/Meta/Protocol.antt =====
-- The leader's checks and raft's log as interleaved steps: a request passes its check on the metadata
-- of a leader, which may be behind; its command is appended to the log later, and applied later
-- still, in log order, on whatever the metadata is by then.
mod Submits
pub mod Admin
pub mod Safety
use xuandb.Prelude.{ℕ, zero, suc, List, [], ◌∷◌, ◌++◌, ◌≡◌}
use xuandb.Prelude.Map.{Map}
use xuandb.Prelude.Text.{Text}
use xuandb.Prelude.Unicode.{Unicode}
use xuandb.Meta.Types.{User, Database, NodeInfo, Command, update_node_list, Service, new_service}
use xuandb.Meta.Apply.{apply_command}
use xuandb.Meta.Leader.{
  Check, submitted, command_via_json, check_create_user, check_drop_user, check_set_password,
  check_create_database, check_drop_database,
}

-- A request that reaches a leader function, with the time where one is read.
pub data Request : Type 0 where
  ask_create_user : ℕ → User → Request
  ask_drop_user : Text → Request
  ask_set_password : User → Request
  ask_create_database : Database → Request
  ask_drop_database : Text → Request
  ask_node_list : Map NodeInfo → Request

module _ (uni : Unicode) where
  unfoldable pub check : Service → Request → Check
  check s (ask_create_user now u) = check_create_user uni now s u
  check s (ask_drop_user name) = check_drop_user uni s name
  check s (ask_set_password u) = check_set_password uni s u
  check s (ask_create_database db) = check_create_database uni s db
  check s (ask_drop_database name) = check_drop_database uni s name
  check s (ask_node_list nodes) = submitted (update_node_list nodes)

-- The metadata after all commits and, the newest first, what they were after fewer; the commands
-- that passed their check and are on their way to `raftApply`; and the log entries that are not
-- committed yet.
pub record Cluster : Type 0 where
  pub service : Service
  pub past : List Service
  pub checked : List Command
  pub pending : List Command

abbrev pub initial : Cluster
initial = record { service = new_service; past = []; checked = []; pending = [] }

-- The metadata of a node whose state machine is some commits behind.
unfoldable pub lagging : ℕ → Service → List Service → Service
lagging zero s past = s
lagging (suc n) s [] = s
lagging (suc n) s (t ∷ past) = lagging n t past

-- A leader checks a request on the metadata that it has. A command that passed is appended later, in
-- any order, or never, where raft refuses it. Raft commits entries in the order of the log, and may
-- lose one that it has not committed, when the leader changes.
pub data Step (uni : Unicode) (c d : Cluster) : Type 0 where
  checks :
      (behind : ℕ) (r : Request) (cmd : Command)
      → check uni (lagging behind c.service c.past) r ≡ submitted cmd
      → d ≡ record c { checked = c.checked ++ command_via_json uni cmd ∷ [] }
      → Step uni c d
  append :
      (before after : List Command) (cmd : Command)
      → c.checked ≡ before ++ (cmd ∷ after)
      → d ≡ record c { checked = before ++ after; pending = c.pending ++ cmd ∷ [] }
      → Step uni c d
  refuse :
      (before after : List Command) (cmd : Command)
      → c.checked ≡ before ++ (cmd ∷ after)
      → d ≡ record c { checked = before ++ after }
      → Step uni c d
  commit :
      (cmd : Command) (rest : List Command)
      → c.pending ≡ cmd ∷ rest
      → d ≡ record c {
        service = (apply_command uni c.service cmd).0;
        past = c.service ∷ c.past;
        pending = rest;
      }
      → Step uni c d
  lose :
      (before after : List Command) (cmd : Command)
      → c.pending ≡ before ++ (cmd ∷ after)
      → d ≡ record c { pending = before ++ after }
      → Step uni c d

pub data Reach (uni : Unicode) (c : Cluster) : Cluster → Type 0 where
  here : Reach uni c c
  next : {d e : Cluster} → Reach uni c d → Step uni d e → Reach uni c e
