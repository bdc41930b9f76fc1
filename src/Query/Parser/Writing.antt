-- ===== src/Query/Parser/Writing.antt =====
-- Statements as they are written down for pkg/query/parser, token by token.
use xuandb.Prelude.{ℕ, if◌then◌else◌, List, [], ◌∷◌, ◌++◌}
use xuandb.Prelude.Text.{Text}
use xuandb.Query.Scanner.Quotes.{in_quotes}
use xuandb.Query.Lexer.Token.{
  Token, Keyword, keyword, ident, val_str, val_duration, op, op_equ, key_create, key_drop, key_set,
  key_show, key_user, key_database, key_node, key_voter, key_nonvoter, key_as, key_at, key_for,
  key_with, key_join, key_password, key_privilege, key_duration,
}
use xuandb.Query.Lexer.Words.{spelling}
use xuandb.Query.Lexer.Durations.{duration_text}
use xuandb.Meta.Privilege.{to_string}
use xuandb.Query.Ast.{
  Statement, create_database_statement, create_user_statement, drop_user_statement,
  set_password_statement, show_user_statement, join_node_statement, drop_node_statement,
  show_node_statement, drop_database_statement, show_database_statement,
}

-- A keyword in capitals, a name in double quotes, a text in single quotes, a duration as
-- `FormatDuration` writes it, or an equals sign.
pub data Written : Type 0 where
  word : Keyword → Written
  name : Text → Written
  literal : Text → Written
  span : ℕ → Written
  equ : Written

unfoldable pub token_of : Written → Token
token_of (word k) = keyword k
token_of (name w) = ident w
token_of (literal w) = val_str w
token_of (span d) = val_duration d
token_of equ = op op_equ

unfoldable pub text_of : Written → Text
text_of (word k) = spelling k
text_of (name w) = in_quotes b'"' w
text_of (literal w) = in_quotes b'\'' w
text_of (span d) = duration_text d
text_of equ = b'=' ∷ []

-- A space before every token.
unfoldable pub write : List Written → Text
write [] = []
write (w ∷ ws) = b' ' ∷ (text_of w ++ write ws)

-- A statement.
unfoldable pub pieces : Statement → List Written
pieces (create_user_statement u) =
    word key_create
    ∷ word key_user
    ∷ name u.name
    ∷ word key_with
    ∷ word key_password
    ∷ literal u.password
    ∷ word key_with
    ∷ name (to_string u.priv)
    ∷ word key_privilege
    ∷ []
pieces (drop_user_statement n) = word key_drop ∷ word key_user ∷ name n ∷ []
pieces (set_password_statement n p) =
    word key_set ∷ word key_password ∷ word key_for ∷ name n ∷ equ ∷ literal p ∷ []
pieces show_user_statement = word key_show ∷ word key_user ∷ []
pieces (join_node_statement n a v) =
    word key_join
    ∷ word key_node
    ∷ name n
    ∷ word key_at
    ∷ literal a
    ∷ word key_as
    ∷ word (if v then key_voter else key_nonvoter)
    ∷ []
pieces (drop_node_statement n) = word key_drop ∷ word key_node ∷ name n ∷ []
pieces show_node_statement = word key_show ∷ word key_node ∷ []
pieces (create_database_statement db) =
    word key_create
    ∷ word key_database
    ∷ name db.name
    ∷ word key_with
    ∷ word key_duration
    ∷ span db.duration
    ∷ []
pieces (drop_database_statement n) = word key_drop ∷ word key_database ∷ name n ∷ []
pieces show_database_statement = word key_show ∷ word key_database ∷ []
