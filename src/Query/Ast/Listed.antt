-- ===== src/Query/Ast/Listed.antt =====
-- What the show statements of pkg/query/ast list, with the rows of their tables written out.
use mathlib.Core.List.{Perm}
use xuandb.Prelude.{◌≡◌, refl, ap, List, [], ◌∷◌, map, none, ◌∙◌}
use xuandb.Prelude.Map.{values}
use xuandb.Prelude.Sort.{IsSorted}
use xuandb.Prelude.Text.{Text, codes, text_eq}
use xuandb.Meta.Types.{NodeInfo}
use xuandb.Meta.Privilege.{to_string}
use xuandb.Meta.Node.Listing.{nodes, users, databases, state_at, status_of, node_statuses}
use xuandb.Meta.Node.Listing.Sorted.{listings_lem}
use xuandb.Query.Run.{returned}
use xuandb.Query.Value.{Value, string, bool, time, duration}
use xuandb.Query.Ast.{
  Statement, show_user_statement, show_node_statement, show_database_statement, Env, State,
  svc_inst, user_row, database_row, node_row, node_columns, to_int64, unix_nano, state_to_string,
  role_to_string,
}
use xuandb.Query.Ast.Shows.{page, shows_lem}
use xuandb.Query.Service.{run_statement}

-- The statement changes nothing and replies with a table that has a row for each of `held`, in the
-- order of the keys.
abbrev pub Lists :
    {A : Type 0}
    → Env
    → State
    → Statement
    → List Text
    → (A → Text)
    → (A → List Value)
    → List A
    → Type 0
Lists env st stmt columns key row held =
    (xs : List _) × IsSorted key xs
    × Perm xs held
    × (run_statement env st stmt none ≡ returned (st, page env columns (map row xs)))

abbrev pub status_row : Env → NodeInfo → List Value
status_row env ni =
    string ni.id
    ∷ string ni.addr
    ∷ string (role_to_string ni.role)
    ∷ time (unix_nano ni.last_heartbeat_time)
    ∷ bool (text_eq ni.id env.leader_id)
    ∷ string (state_to_string (state_at env.now ni.last_heartbeat_time))
    ∷ []

map-status_row :
    (env : Env) (ns : List NodeInfo)
    → map node_row (map (status_of env.leader_id env.now) ns) ≡ map (status_row env) ns
unfolding node_row status_of
map-status_row env [] = refl
map-status_row env (ni ∷ ns) = ap (λ rows. status_row env ni ∷ rows) (map-status_row env ns)

-- A show statement that is let run changes nothing, and replies with a table that has exactly one
-- row for each user, each node or each database that this node knows, in the order of the names,
-- identifiers or names. A user's row is the name, whether it is a system user, and the privileges
-- spelled out; a database's is its name and its duration; a node's is its identifier, address,
-- role, the time of its heartbeat, whether it leads, and its state at this moment.
pub shows-Lists :
    (env : Env) (st : State)
    → Lists env st show_user_statement
        (codes "name" ∷ codes "isSystem" ∷ codes "privileges" ∷ [])
        (λ u. u.name)
        (λ u. string u.name ∷ bool u.system ∷ string (to_string u.priv) ∷ [])
        (values (svc_inst env st).md.users)
      × Lists env st show_node_statement
          (codes "id"
            ∷ codes "addr"
            ∷ codes "role"
            ∷ codes "heartbeatTime"
            ∷ codes "isLeader"
            ∷ codes "state"
            ∷ [])
          (λ ni. ni.id)
          (λ ni.
            string ni.id
            ∷ string ni.addr
            ∷ string (role_to_string ni.role)
            ∷ time (unix_nano ni.last_heartbeat_time)
            ∷ bool (text_eq ni.id env.leader_id)
            ∷ string (state_to_string (state_at env.now ni.last_heartbeat_time))
            ∷ [])
          (values (svc_inst env st).nodes)
      × Lists env st show_database_statement
          (codes "name" ∷ codes "duration" ∷ [])
          (λ db. db.name)
          (λ db. string db.name ∷ duration (to_int64 db.duration) ∷ [])
          (values (svc_inst env st).md.databases)
unfolding user_row database_row node_statuses
shows-Lists env st =
    let ((node_order, node_all), (user_order, user_all), (db_order, db_all)) =
      listings_lem (svc_inst env st) in
    let (user_page, node_page, db_page) = shows_lem env st in
    (
      (users (svc_inst env st), user_order, user_all, user_page),
      (
        nodes (svc_inst env st),
        node_order,
        node_all,
        node_page
            ∙ ap (λ rows. returned (st, page env node_columns rows))
                (map-status_row env (nodes (svc_inst env st))),
      ),
      (databases (svc_inst env st), db_order, db_all, db_page),
    )
