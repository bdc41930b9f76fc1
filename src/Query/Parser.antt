-- ===== src/Query/Parser.antt =====
-- pkg/query/parser/parser.go and the grammar of sql.y: a statement is read token by token. Of the
-- generated parser only this is used: it asks for a token when it needs one, acts on a rule before
-- it asks for the next, and reports a syntax error and gives up at a token that no rule wants.
pub mod Writing
pub mod Steps
pub mod Feeding
pub mod Rules
pub mod RoundTrip
pub mod Serve
mod Tests
use xuandb.Prelude.{
  ℕ, Bool, true, false, List, [], ◌∷◌, ◌++◌, Option, none, some, ◌⊎◌, inl, inr, if◌then◌else◌, ltb,
  ◌==◌,
}
use xuandb.Prelude.Text.{Text, codes}
use xuandb.Meta.Types.{User, Database}
use xuandb.Meta.Privilege
use xuandb.Xerrors.{message}
use xuandb.Query.Run.{Run, returned, panicked}
use xuandb.Query.Utf8.{runes}
use xuandb.Query.Scanner.{Scanner, init, Report, Position, error}
use xuandb.Query.Lexer.Token.{
  Token, Keyword, index, end_token, ident, keyword, op, val_str, val_duration, op_equ, key_create,
  key_drop, key_set, key_show, key_user, key_database, key_node, key_voter, key_nonvoter, key_as,
  key_at, key_for, key_with, key_join, key_duration, key_password, key_privilege,
}
use xuandb.Query.Lexer.Lex.{Tables, lex}
use xuandb.Query.Ast.{
  Statement, create_user_statement, drop_user_statement, set_password_statement,
  show_user_statement, join_node_statement, drop_node_statement, show_node_statement,
  create_database_statement, drop_database_statement, show_database_statement,
}
use xuandb.Utils.Duration.{decimal}

-- What the rules use of other packages: the lexer's tables, `netip.ParseAddrPort` as a test, and
-- the text with which the generated parser reports a syntax error.
pub record Grammar : Type 0 where
  pub tables : Tables
  pub is_addr_port : Text → Bool
  pub syntax_error : Text

-- `none` is a parse that was given up; its errors are in the lexer's reports.
abbrev pub Parser {ℓ} : Type ℓ → Type ℓ
Parser A = Scanner → Run (Option A × Scanner)

abbrev pub pure {ℓ} : {A : Type ℓ} → A → Parser A
pure a s = returned (some a, s)

infixl 1 ◌>>=◌ ◌>>◌
abbrev pub resume {ℓ κ} :
    {A : Type ℓ} {B : Type κ} → (A → Parser B) → Run (Option A × Scanner) → Run (Option B × Scanner)
resume f (returned (some a, s)) = f a s
resume f (returned (none, s)) = returned (none, s)
resume f (panicked t) = panicked t

abbrev pub ◌>>=◌ {ℓ κ} : {A : Type ℓ} {B : Type κ} → Parser A → (A → Parser B) → Parser B
p >>= f = λ s. resume f (p s)

abbrev pub ◌>>◌ {ℓ κ} : {A : Type ℓ} {B : Type κ} → Parser A → Parser B → Parser B
p >> q = p >>= λ _. q

-- `yylex.Error(msg); goto ret1`
abbrev pub give_up {ℓ} : {A : Type ℓ} → Text → Parser A
give_up msg s = returned (none, error msg s)

abbrev pub some_token : Run (Token × Scanner) → Run (Option Token × Scanner)
some_token (returned (t, s)) = returned (some t, s)
some_token (panicked t) = panicked t

module _ (g : Grammar) where
  abbrev pub refuse {ℓ} : {A : Type ℓ} → Parser A
  refuse = give_up g.syntax_error

  unfoldable pub token : Parser Token
  token s = some_token (lex g.tables s)

  unfoldable pub as_ident : Token → Parser Text
  as_ident (ident t) = pure t
  as_ident _ = refuse

  unfoldable pub as_val_str : Token → Parser Text
  as_val_str (val_str t) = pure t
  as_val_str _ = refuse

  unfoldable pub as_val_duration : Token → Parser ℕ
  as_val_duration (val_duration d) = pure d
  as_val_duration _ = refuse

  unfoldable pub as_keyword : Keyword → Token → Parser (Unit {0})
  as_keyword k (keyword j) = if index j == index k then pure tt else refuse
  as_keyword k _ = refuse

  unfoldable pub as_equ : Token → Parser (Unit {0})
  as_equ (op op_equ) = pure tt
  as_equ _ = refuse

  -- The end of the input behind a statement.
  unfoldable pub as_end : Statement → Token → Parser Statement
  as_end stmt end_token = pure stmt
  as_end stmt _ = refuse

  abbrev pub finish : Statement → Parser Statement
  finish stmt = token >>= as_end stmt

  abbrev pub expect : Keyword → Parser (Unit {0})
  expect k = token >>= as_keyword k

  abbrev pub name : Parser Text
  name = do t ← token; n ← as_ident t; pure (runes n)

  abbrev pub literal : Parser Text
  literal = do t ← token; l ← as_val_str t; pure (runes l)

  abbrev pub new_user : Text → Text → ℕ → Statement
  new_user n p priv =
      create_user_statement (record {
        name = n;
        password = p;
        created_at = 0;
        system = false;
        priv = priv;
        db_priv = [];
      })

  -- `stmt.User.Priv.UnmarshalText`
  unfoldable pub with_privilege : Text → Text → Privilege.Parsed → Parser Statement
  with_privilege n p (Privilege.parsed priv) = finish (new_user n p priv)
  with_privilege n p (Privilege.invalid e) = give_up (message e)

  -- CREATE USER IDENT WITH PASSWORD VAL_STR: the end, or WITH IDENT PRIVILEGE.
  unfoldable pub create_user_end : Text → Text → Token → Parser Statement
  create_user_end n p end_token = pure (new_user n p 0)
  create_user_end n p t = do
    as_keyword key_with t
    w ← name
    expect key_privilege
    with_privilege n p (Privilege.parse g.tables.unicode w)

  unfoldable pub create_user_rule : Parser Statement
  create_user_rule = do
    n ← name
    expect key_with
    expect key_password
    p ← literal
    t ← token
    create_user_end n p t

  unfoldable pub create_database_rule : Parser Statement
  create_database_rule = do
    n ← name
    expect key_with
    expect key_duration
    t ← token
    d ← as_val_duration t
    finish (create_database_statement (record { name = n; duration = d }))

  unfoldable pub set_password_rule : Parser Statement
  set_password_rule = do
    expect key_password
    expect key_for
    n ← name
    t ← token
    as_equ t
    p ← literal
    finish (set_password_statement n p)

  unfoldable pub addr_port : Parser Text
  addr_port = do
    a ← literal
    if g.is_addr_port a then pure a else give_up (codes "invalid network address")

  unfoldable pub as_voter : Token → Parser Bool
  as_voter (keyword key_voter) = pure true
  as_voter (keyword key_nonvoter) = pure false
  as_voter _ = refuse

  unfoldable pub join_node_rule : Parser Statement
  join_node_rule = do
    expect key_node
    n ← name
    expect key_at
    a ← addr_port
    expect key_as
    t ← token
    v ← as_voter t
    finish (join_node_statement n a v)

  unfoldable pub create_of : Token → Parser Statement
  create_of (keyword key_user) = create_user_rule
  create_of (keyword key_database) = create_database_rule
  create_of _ = refuse

  unfoldable pub drop_of : Token → Parser Statement
  drop_of (keyword key_user) = do n ← name; finish (drop_user_statement n)
  drop_of (keyword key_database) = do n ← name; finish (drop_database_statement n)
  drop_of (keyword key_node) = do n ← name; finish (drop_node_statement n)
  drop_of _ = refuse

  unfoldable pub show_of : Token → Parser Statement
  show_of (keyword key_user) = finish show_user_statement
  show_of (keyword key_database) = finish show_database_statement
  show_of (keyword key_node) = finish show_node_statement
  show_of _ = refuse

  unfoldable pub statement_of : Token → Parser Statement
  statement_of (keyword key_create) = token >>= create_of
  statement_of (keyword key_drop) = token >>= drop_of
  statement_of (keyword key_show) = token >>= show_of
  statement_of (keyword key_set) = set_password_rule
  statement_of (keyword key_join) = join_node_rule
  statement_of _ = refuse

  -- `yyParse(l)` and `l.Result`
  unfoldable pub yy_parse : Parser Statement
  yy_parse = token >>= statement_of

-- `Position.String`
unfoldable pub position_to_string : Position → Text
position_to_string p =
    if ltb 0 p.line
    then codes "<input>:" ++ (decimal p.line ++ b':' ∷ decimal p.column)
    else codes "<input>"

-- `fmt.Sprintf("%s: %s: %s", pos, s.TokenText(), msg)` of `Lexer.Error`
unfoldable pub report_to_string : Report → Text
report_to_string r =
    position_to_string r.position ++ (codes ": " ++ (r.text ++ (codes ": " ++ r.msg)))

-- `strings.Join(errs, "\n")`
unfoldable pub join_reports : List Report → Text
join_reports [] = []
join_reports (r ∷ []) = report_to_string r
join_reports (r ∷ q ∷ rs) = report_to_string r ++ b'\n' ∷ join_reports (q ∷ rs)

-- `Parse`
unfoldable pub parsed : Run (Option Statement × Scanner) → Run (Text ⊎ Statement)
parsed (returned (some stmt, s)) = returned (inr stmt)
parsed (returned (none, s)) = returned (inl (join_reports s.reports))
parsed (panicked t) = panicked t

unfoldable pub parse : Grammar → Text → Run (Text ⊎ Statement)
parse g input = parsed (yy_parse g (init input))
