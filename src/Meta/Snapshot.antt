-- ===== src/Meta/Snapshot.antt =====
-- Snapshots of the metadata (pkg/meta/fsm.go): `clone`, `Snapshot`, `Persist` and `Restore`.
-- JSON keeps names, passwords, times and flags; a privilege goes through its text.
pub mod Laws
use xuandb.Prelude.{List, [], ◌∷◌, Option, none, some}
use xuandb.Prelude.Map.{Map}
use xuandb.Prelude.Unicode.{Unicode}
use xuandb.Xerrors.{Error}
use xuandb.Meta.Privilege.{via_json}
use xuandb.Meta.Types.{User, Data, Service}
use xuandb.Prelude.{ℕ}

-- The loop copies the users; the new map of databases stays empty.
pub clone : Data → Data
clone d = record { users = d.users; databases = [] }

pub snapshot : Service → Data
snapshot s = clone s.md

module _ (uni : Unicode) where
  unfoldable pub db_priv_via_json : Map ℕ → Map ℕ
  db_priv_via_json [] = []
  db_priv_via_json ((db, p) ∷ m) = (db, via_json uni p) ∷ db_priv_via_json m

  -- A user that `json.Marshal` wrote and `json.Unmarshal` read.
  unfoldable pub user_via_json : User → User
  user_via_json u = record u { priv = via_json uni u.priv; db_priv = db_priv_via_json u.db_priv }

  pub users_via_json : Map User → Map User
  users_via_json [] = []
  users_via_json ((key, u) ∷ m) = (key, user_via_json u) ∷ users_via_json m

  -- What a sink holds after a `Persist` without errors, decoded.
  pub data_via_json : Data → Data
  data_via_json d = record { users = users_via_json d.users; databases = d.databases }

-- `Restore` on the result of the decoder: the metadata is replaced, or left alone on an error.
pub data Decoded : Type 0 where
  decoded : Data → Decoded
  refused : Error → Decoded

pub restore : Service → Decoded → Service × Option Error
restore s (decoded d) = (record s { md = d }, none)
restore s (refused e) = (s, some e)

-- What `Persist` does to the sink, whose answers are given.
pub data SinkCall : Type 0 where
  write_data : Data → SinkCall
  close_sink cancel_sink : SinkCall

pub persist : Option Error → Option Error → Data → List SinkCall × Option Error
persist (some e) close d = (write_data d ∷ cancel_sink ∷ [], some e)
persist none (some e) d = (write_data d ∷ close_sink ∷ cancel_sink ∷ [], some e)
persist none none d = (write_data d ∷ close_sink ∷ [], none)
