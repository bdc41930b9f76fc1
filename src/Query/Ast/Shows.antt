-- ===== src/Query/Ast/Shows.antt =====
-- The pages of the show statements, and that a query is always answered.
use xuandb.Prelude.{
  ℕ, ◌≡◌, refl, arith, Bool, true, false, ◌⊎◌, inl, inr, List, [], ◌∷◌, map, All, Option, none,
  some, Option-cases, Bool-cases,
}
use xuandb.Prelude.Map.{Map, lookup}
use xuandb.Prelude.Text.{Text, text_eq}
use xuandb.Prelude.Unicode.{Unicode, to_lower}
use xuandb.Xerrors.{Error, status, other, bad_request}
use xuandb.Meta.Types.{User, Database, Service}
use xuandb.Meta.Handler.{Reply, Handled, http_error, replied, assertion_failed, finish}
use xuandb.Meta.Auth.{RequiredPrivileges, auth_databases, auth_user, auth_known, auth}
use xuandb.Meta.Node.Listing.{NodeStatus, users, databases, node_statuses}
use xuandb.Query.Run.{Run, returned, panicked, and_then}
use xuandb.Query.Value.{Value, write_value}
use xuandb.Query.ResultSet.{new_writer, is_nil, flush}
use xuandb.Query.ResultSet.Json.{IsRow, writes, layout, flush-add_rows}
use xuandb.Query.Ast.{
  Statement, show_user_statement, show_node_statement, show_database_statement, Env, State,
  svc_inst, required, reads, show, user_row, user_columns, database_row, database_columns, node_row,
  node_columns, auth_statement, execute,
}
use xuandb.Query.Service.{run_statement, query_handler, answer, answered}

-- The reply with a table.
abbrev pub page : Env → List Text → List (List Value) → Handled
page env columns rows = replied (record { code = 200; text = layout env.printable columns rows })

show_lem :
    (env : Env) (st : State) (c : Text) (cs : List Text) (rows : List (List Value))
    → All (IsRow env.printable (c ∷ cs)) rows
    → and_then (reads st (show env (c ∷ cs) rows new_writer)) (λ p. returned (answered p))
      ≡ returned (st, page env (c ∷ cs) rows)
unfolding show answered answer and_then
show_lem env st c cs rows h =
    let (w, e, f) = flush-add_rows env.printable c cs rows h in
    rw (e, and_then) (rw (f, answer) refl)

All-user_row :
    (env : Env) (us : List User) → All (IsRow env.printable user_columns) (map user_row us)
unfolding user_row write_value
All-user_row env [] = tt
All-user_row env (u ∷ us) =
    ((refl, (writes _ refl, (writes _ refl, (writes _ refl, tt)))), All-user_row env us)

All-database_row :
    (env : Env) (dbs : List Database)
    → All (IsRow env.printable database_columns) (map database_row dbs)
unfolding database_row write_value
All-database_row env [] = tt
All-database_row env (db ∷ dbs) =
    ((refl, (writes _ refl, (writes _ refl, tt))), All-database_row env dbs)

All-node_row :
    (env : Env) (sts : List NodeStatus) → All (IsRow env.printable node_columns) (map node_row sts)
unfolding node_row write_value
All-node_row env [] = tt
All-node_row env (ns ∷ sts) = (
  (
    refl,
    (
      writes _ refl,
      (writes _ refl, (writes _ refl, (writes _ refl, (writes _ refl, (writes _ refl, tt))))),
    ),
  ),
  All-node_row env sts,
)

-- A show statement that is let run replies with the table of what the node lists.
pub shows_lem :
    (env : Env) (st : State)
    → (run_statement env st show_user_statement none
        ≡ returned (st, page env user_columns (map user_row (users (svc_inst env st)))))
      × (run_statement env st show_node_statement none
          ≡ returned (
            st,
            page env node_columns
                (map node_row (node_statuses env.leader_id env.now (svc_inst env st))),
          ))
      × (run_statement env st show_database_statement none
          ≡ returned
              (st, page env database_columns (map database_row (databases (svc_inst env st)))))
unfolding run_statement execute
shows_lem env st = (
  show_lem env st _ _ _ (All-user_row env _),
  show_lem env st _ _ _ (All-node_row env _),
  show_lem env st _ _ _ (All-database_row env _),
)

unfoldable pub is_replied : Handled → Bool
is_replied (replied r) = true
is_replied assertion_failed = false

unfoldable is_answered : Run (State × Handled) → Bool
is_answered (returned (st, h)) = is_replied h
is_answered (panicked t) = false

answered_lem :
    (r : Run (State × Handled))
    → is_answered r ≡ true
    → (st : State) × (p : Reply) × (r ≡ returned (st, replied p))
unfolding is_answered is_replied
answered_lem (returned (st, replied p)) e = (st, p, refl)
answered_lem (returned (st, assertion_failed)) e = absurd (cc e)
answered_lem (panicked t) e = absurd (cc e)

is_replied-answer : (e : Option Error) → is_replied (answer new_writer e) ≡ true
unfolding answer is_replied flush is_nil
is_replied-answer none = refl
is_replied-answer (some (status e)) = refl
is_replied-answer (some (other t)) = refl

finish-auth_databases : (u : User) (m : Map ℕ) → is_replied (finish (auth_databases u m)) ≡ true
unfolding auth_databases finish is_replied
finish-auth_databases u [] = refl
finish-auth_databases u ((db, need) ∷ m) = ground (arith, finish-auth_databases u m)

finish-auth_user :
    (u : User) (pwd : Text) (rp : RequiredPrivileges)
    → is_replied (finish (auth_user u pwd rp)) ≡ true
unfolding auth_user finish is_replied
finish-auth_user u pwd rp = ground (arith, finish-auth_databases u rp.databases)

-- Every error of `Auth` has a status, as the type assertion on it expects.
pub finish-auth :
    (uni : Unicode) (s : Service) (name pwd : Text) (rp : RequiredPrivileges)
    → is_replied (finish (auth uni s name pwd rp)) ≡ true
unfolding auth auth_known finish is_replied
finish-auth uni s name pwd rp = elim (Option-cases (lookup (to_lower uni name) s.md.users)) [
  | inl e ↦ ground arith
  | inr (u, e) ↦ ground (arith, finish-auth_user u pwd rp)
]

is_answered-page :
    (r : Run (State × Handled)) (st : State) (p : Reply)
    → r ≡ returned (st, replied p)
    → is_answered r ≡ true
unfolding is_answered is_replied
is_answered-page r st p e = rw e refl

is_answered-run :
    (env : Env) (st : State) (stmt : Statement)
    → is_answered (run_statement env st stmt none) ≡ true
unfolding run_statement execute and_then answered is_answered
is_answered-run env st show_user_statement = is_answered-page _ st _ (shows_lem env st).0
is_answered-run env st show_node_statement = is_answered-page _ st _ (shows_lem env st).1
is_answered-run env st show_database_statement = is_answered-page _ st _ (shows_lem env st).2
is_answered-run env st _ = is_replied-answer _

is_answered-statement :
    (env : Env) (st : State) (stmt : Statement) (e : Option Error)
    → is_replied (finish e) ≡ true
    → is_answered (run_statement env st stmt e) ≡ true
unfolding run_statement is_answered
is_answered-statement env st stmt none h = is_answered-run env st stmt
is_answered-statement env st stmt (some e) h = h

is_answered-parsed :
    (env : Env) (st : State) (r : Text ⊎ Statement) (name pwd : Text)
    → is_answered (elim r [
      | inl msg ↦ returned (st, http_error msg bad_request)
      | inr stmt ↦ run_statement env st stmt (auth_statement env st stmt name pwd)
    ])
      ≡ true
unfolding is_answered is_replied auth_statement
is_answered-parsed env st (inl msg) name pwd = refl
is_answered-parsed env st (inr stmt) name pwd =
    is_answered-statement env st stmt _
      (finish-auth env.unicode (svc_inst env st) name pwd (required stmt name))

-- Every query on which the parser returns gets a reply: no statement panics, and no error fails a type assertion.
pub query_handler_total :
    (env : Env) (st : State) (parse : Text → Text ⊎ Statement) (q name pwd : Text)
    → (st' : State) × (r : Reply) × (query_handler env st parse q name pwd
        ≡ returned (st', replied r))
unfolding query_handler is_answered is_replied
query_handler_total env st parse q name pwd = answered_lem _ (elim (Bool-cases (text_eq q [])) [
  | inl empty ↦ rw empty refl
  | inr some_text ↦ rw some_text (is_answered-parsed env st (parse q) name pwd)
])
