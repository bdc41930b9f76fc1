-- ===== src/Query/Parser/Rules.antt =====
-- The rules of the grammar of pkg/query/parser/sql.y on the tokens that were written.
use xuandb.Prelude.{Bool, true, false, refl, if◌then◌else◌, [], ◌∷◌, ◌≡◌, All, ap, ◌∙◌, some}
use xuandb.Prelude.Text.{Text}
use xuandb.Query.Run.{returned}
use xuandb.Query.Scanner.{Scanner}
use xuandb.Query.Scanner.Quotes.{IsQuotable}
use xuandb.Query.Lexer.Token.{
  val_duration, key_database, key_duration, Keyword, index, keyword, op, op_equ, key_create,
  key_drop, key_set, key_show, key_user, key_node, key_voter, key_nonvoter, key_as, key_at, key_for,
  key_with, key_join, key_privilege, key_password,
}
use xuandb.Query.Parser.Writing.{word, name, token_of, pieces}
use xuandb.Meta.Types.{User, Database}
use xuandb.Meta.Privilege.{to_string}
use xuandb.Meta.Privilege.RoundTrip.{IsValid, parse-to_string}
use xuandb.Query.Ast.{
  Statement, create_user_statement, create_database_statement, set_password_statement,
  join_node_statement,
}
use xuandb.Query.Parser
use xuandb.Query.Parser.{
  Grammar, ◌>>=◌, ◌>>◌, resume, statement_of, create_of, drop_of, show_of, set_password_rule,
  join_node_rule, addr_port, as_voter, create_user_rule, create_database_rule, as_val_duration,
  create_user_end, with_privilege, yy_parse, parse, parsed, finish, as_equ, as_keyword, new_user,
}
use xuandb.Query.Parser.Steps.{
  token_step, addr_port_step, expect_step, name_step, literal_step, finish_step,
}
use xuandb.Query.Parser.Feeding.{Feeds}

-- `yyParse` gives the statement.
abbrev pub Parses : Grammar → Scanner → Statement → Type 0
Parses g s stmt = (t : Scanner) × (yy_parse g s ≡ returned (some stmt, t))

module _ (g : Grammar) (s : Scanner) where
  pub drop_read :
      (k : Keyword) (make : Text → Statement) (n : Text)
      → drop_of g (keyword k) ≡ (Parser.name g >>= λ n. finish g (make n))
      → All (IsQuotable b'"') n
      → Feeds g.tables s (word key_drop ∷ word k ∷ name n ∷ [])
      → Parses g s (make n)
  unfolding yy_parse statement_of token_of
  drop_read k make n rule a (t, e, (u, f, (v, h, (x, end)))) = (
    x,
    token_step g s t (statement_of g) (keyword key_drop) e
        ∙ token_step g t u (drop_of g) (keyword k) f
        ∙ ap (λ p. p u) rule
        ∙ name_step g u v (λ n. finish g (make n)) n h a
        ∙ finish_step g v x (make n) end,
  )

  pub show_read :
      (k : Keyword) (stmt : Statement)
      → show_of g (keyword k) ≡ finish g stmt
      → Feeds g.tables s (word key_show ∷ word k ∷ [])
      → Parses g s stmt
  unfolding yy_parse statement_of token_of
  show_read k stmt rule (t, e, (u, f, (x, end))) = (
    x,
    token_step g s t (statement_of g) (keyword key_show) e
        ∙ token_step g t u (show_of g) (keyword k) f
        ∙ ap (λ p. p u) rule
        ∙ finish_step g u x stmt end,
  )

  pub set_password_read :
      (n p : Text)
      → All (IsQuotable b'"') n
      → All (IsQuotable b'\'') p
      → Feeds g.tables s (pieces (set_password_statement n p))
      → Parses g s (set_password_statement n p)
  unfolding yy_parse statement_of set_password_rule as_equ token_of pieces
  set_password_read n p a b (t, e, (u, f, (v, h, (w, i, (y, j, (z, k, (x, end))))))) =
      let after_literal : Text → Parser.Parser Statement =
        λ p. finish g (set_password_statement n p) in
      (
        x,
        token_step g s t (statement_of g) (keyword key_set) e
            ∙ expect_step g t u _ key_password f
            ∙ expect_step g u v _ key_for h
            ∙ name_step g v w _ n i a
            ∙ token_step g w y _ (op op_equ) j
            ∙ literal_step g y z after_literal p k b
            ∙ finish_step g z x (set_password_statement n p) end,
      )

  pub join_node_read :
      (n a : Text) (v : Bool)
      → All (IsQuotable b'"') n
      → All (IsQuotable b'\'') a
      → g.is_addr_port a ≡ true
      → Feeds g.tables s (pieces (join_node_statement n a v))
      → Parses g s (join_node_statement n a v)
  unfolding yy_parse statement_of join_node_rule token_of pieces
  join_node_read n a v h q valid
        (t1, e1, (t2, e2, (t3, e3, (t4, e4, (t5, e5, (t6, e6, (t7, e7, (t8, e8)))))))) =
      (
        t8,
        token_step g s t1 (statement_of g) (keyword key_join) e1
            ∙ expect_step g t1 t2 _ key_node e2
            ∙ name_step g t2 t3 _ n e3 h
            ∙ expect_step g t3 t4 _ key_at e4
            ∙ addr_port_step g t4 t5 _ a e5 q valid
            ∙ expect_step g t5 t6 _ key_as e6
            ∙ token_step g t6 t7 _ (keyword (if v then key_voter else key_nonvoter)) e7
            ∙ role v
            ∙ finish_step g t7 t8 (join_node_statement n a v) e8,
      )
    where
      role :
          (w : Bool)
          → (as_voter g (keyword (if w then key_voter else key_nonvoter))
                >>= (λ v. finish g (join_node_statement n a v)))
              t7
            ≡ finish g (join_node_statement n a w) t7
      role true = unfold as_voter in refl
      role false = unfold as_voter in refl

  pub create_database_read :
      (db : Database)
      → All (IsQuotable b'"') db.name
      → Feeds g.tables s (pieces (create_database_statement db))
      → Parses g s (create_database_statement db)
  unfolding yy_parse statement_of create_of create_database_rule as_val_duration token_of pieces
  create_database_read db h (t1, e1, (t2, e2, (t3, e3, (t4, e4, (t5, e5, (t6, e6, (t7, e7))))))) = (
    t7,
    token_step g s t1 (statement_of g) (keyword key_create) e1
        ∙ token_step g t1 t2 (create_of g) (keyword key_database) e2
        ∙ name_step g t2 t3 _ db.name e3 h
        ∙ expect_step g t3 t4 _ key_with e4
        ∙ expect_step g t4 t5 _ key_duration e5
        ∙ token_step g t5 t6 _ (val_duration db.duration) e6
        ∙ finish_step g t6 t7 (create_database_statement db) e7,
  )

  pub create_user_read :
      (u : User)
      → All (IsQuotable b'"') u.name
      → All (IsQuotable b'\'') u.password
      → All (IsQuotable b'"') (to_string u.priv)
      → IsValid u.priv
      → Feeds g.tables s (pieces (create_user_statement u))
      → Parses g s (new_user g u.name u.password u.priv)
  unfolding yy_parse statement_of create_of create_user_rule create_user_end as_keyword
      with_privilege token_of pieces index
  create_user_read u h q r valid
        (
          t1,
          e1,
          (
            t2,
            e2,
            (t3, e3, (t4, e4, (t5, e5, (t6, e6, (t7, e7, (t8, e8, (t9, e9, (t10, e10)))))))),
          ),
        ) =
      let stmt = new_user g u.name u.password u.priv in
      let priv = parse-to_string g.tables.unicode u.priv valid in
      (
        t10,
        token_step g s t1 (statement_of g) (keyword key_create) e1
            ∙ token_step g t1 t2 (create_of g) (keyword key_user) e2
            ∙ name_step g t2 t3 _ u.name e3 h
            ∙ expect_step g t3 t4 _ key_with e4
            ∙ expect_step g t4 t5 _ key_password e5
            ∙ literal_step g t5 t6 _ u.password e6 q
            ∙ token_step g t6 t7 (create_user_end g u.name u.password) (keyword key_with) e7
            ∙ name_step g t7 t8 _ (to_string u.priv) e8 r
            ∙ expect_step g t8 t9 _ key_privilege e9
            ∙ ap (λ p. with_privilege g u.name u.password p t9) priv
            ∙ finish_step g t9 t10 stmt e10,
      )
