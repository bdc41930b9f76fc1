-- ===== src/Query/Service.antt =====
-- `queryHandler` of pkg/query/service.go. The parser is an argument here, which Parser/Serve fills;
-- so are what `FormValue` and `BasicAuth` give.
use xuandb.Prelude.{[], ◌⊎◌, inl, inr, Option, none, some, if◌then◌else◌}
use xuandb.Prelude.Text.{Text, codes, text_eq}
use xuandb.Xerrors.{Error, status, other, bad_request, internal_server_error}
use xuandb.Meta.Handler.{Handled, replied, http_error, finish}
use xuandb.Query.Run.{Run, returned, and_then}
use xuandb.Query.ResultSet.{ResultSetWriter, new_writer, flush}
use xuandb.Query.Ast.{Statement, Env, State, auth_statement, execute}

-- What the client gets: the error of `Execute`, or what `Flush` writes. Where nothing is written
-- the server replies with status 200 and no text.
unfoldable pub answer : ResultSetWriter → Option Error → Handled
answer rs (some (status e)) = http_error e.msg e.status_code
answer rs (some (other t)) = http_error t internal_server_error
answer rs none = elim (flush rs).0 [
  | some r ↦ replied r
  | none ↦ replied (record { code = 200; text = [] })
]

unfoldable pub answered : State × ResultSetWriter × Option Error → State × Handled
answered (st, rs, e) = (st, answer rs e)

-- A statement whose `Auth` gave `e`.
unfoldable pub run_statement : Env → State → Statement → Option Error → Run (State × Handled)
run_statement env st stmt (some e) = returned (st, finish (some e))
run_statement env st stmt none =
    and_then (execute env st stmt new_writer) (λ p. returned (answered p))

unfoldable pub query_handler :
    Env → State → (Text → Text ⊎ Statement) → Text → Text → Text → Run (State × Handled)
query_handler env st parse q name pwd =
    if text_eq q []
    then returned (st, http_error (codes "query statement is required") bad_request)
    else elim (parse q) [
      | inl msg ↦ returned (st, http_error msg bad_request)
      | inr stmt ↦ run_statement env st stmt (auth_statement env st stmt name pwd)
    ]
