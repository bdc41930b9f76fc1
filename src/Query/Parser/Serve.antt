-- ===== src/Query/Parser/Serve.antt =====
-- `queryHandler` of pkg/query/service.go with the parser of pkg/query/parser.
use xuandb.Prelude.{[], inl, if◌then◌else◌}
use xuandb.Prelude.Text.{Text, text_eq}
use xuandb.Meta.Handler.{Handled}
use xuandb.Query.Run.{Run, and_then}
use xuandb.Query.Ast.{Env, State}
use xuandb.Query.Service.{query_handler}
use xuandb.Query.Parser.{Grammar, parse}

-- The parser is not called on an empty query.
unfoldable pub serve : Grammar → Env → State → Text → Text → Text → Run (State × Handled)
serve g env st q name pwd =
    if text_eq q []
    then query_handler env st (λ t. inl []) q name pwd
    else and_then (parse g q) (λ r. query_handler env st (λ t. r) q name pwd)
