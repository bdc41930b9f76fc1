-- ===== src/Query/Parser/RoundTrip.antt =====
-- Statements that are written down are read back by the parser.
use mathlib.Core.Path.{subst}
use xuandb.Prelude.{
  ℕ, Bool, true, false, ◌&&◌, leb, ◌<◌, ◌*◌, zero, suc, refl, arith, List, [], ◌∷◌, ◌≡◌, All, ap,
  inl, inr,
}
use xuandb.Prelude.Text.{Text, text_eq}
use xuandb.Query.Run.{returned}
use xuandb.Query.Scanner.{Scanner, init}
use xuandb.Query.Scanner.Quotes.{IsQuotable}
use xuandb.Query.Scanner.Ahead.{init-At}
use xuandb.Query.Lexer.Token.{key_user, key_database, key_node}
use xuandb.Utils.Duration.{week}
use xuandb.Query.Parser.Writing.{Written, write, pieces}
use xuandb.Meta.Types.{User}
use xuandb.Meta.Privilege.{to_string, add_word, has}
use xuandb.Meta.Privilege.RoundTrip.{IsValid, below_eight}
use xuandb.Query.Ast.{
  Statement, create_database_statement, create_user_statement, drop_user_statement,
  set_password_statement, show_user_statement, join_node_statement, drop_node_statement,
  show_node_statement, drop_database_statement, show_database_statement,
}
use xuandb.Query.Parser.{Grammar, drop_of, show_of, parse, parsed, new_user}
use xuandb.Query.Parser.Feeding.{IsWritable, Feeds, write-Feeds, write-StartsPlain}
use xuandb.Query.Parser.Rules.{
  Parses, drop_read, show_read, set_password_read, join_node_read, create_user_read,
  create_database_read,
}

-- The privileges are written in capitals, with commas.
quotable : Text → Bool
quotable [] = true
quotable (c ∷ w) = (leb 35 c && leb c b'Z') && quotable w

quotable-IsQuotable : (w : Text) → quotable w ≡ true → All (IsQuotable b'"') w
unfolding quotable
quotable-IsQuotable [] e = tt
quotable-IsQuotable (c ∷ w) e =
    ((ground arith, ground arith, ground arith, ground arith), quotable-IsQuotable w (ground arith))

quotable-small : (p : ℕ) → p < 8 → quotable (to_string p) ≡ true
unfolding quotable to_string add_word has text_eq
quotable-small zero h = refl
quotable-small (suc zero) h = refl
quotable-small (suc (suc zero)) h = refl
quotable-small (suc (suc (suc zero))) h = refl
quotable-small (suc (suc (suc (suc zero)))) h = refl
quotable-small (suc (suc (suc (suc (suc zero))))) h = refl
quotable-small (suc (suc (suc (suc (suc (suc zero)))))) h = refl
quotable-small (suc (suc (suc (suc (suc (suc (suc zero))))))) h = refl
quotable-small (suc (suc (suc (suc (suc (suc (suc (suc n)))))))) h = absurd (omega arith)

quotable-to_string : (p : ℕ) → IsValid p → quotable (to_string p) ≡ true
unfolding quotable to_string add_word has text_eq
quotable-to_string p (inl e) = rw e refl
quotable-to_string p (inr m) = quotable-small p (below_eight p m)

-- What can be read back: names and texts are quotable, an address is one, the duration of a database
-- is positive and below 15250 weeks, a new user has a valid privilege and nothing that the statement
-- does not say.
abbrev pub IsReadable : Grammar → Statement → Type 0
IsReadable g (create_user_statement u) =
    All (IsQuotable b'"') u.name
    × All (IsQuotable b'\'') u.password
    × IsValid u.priv
    × (u.created_at ≡ 0)
    × (u.system ≡ false)
    × (u.db_priv ≡ [])
IsReadable g (drop_user_statement n) = All (IsQuotable b'"') n
IsReadable g (set_password_statement n p) = All (IsQuotable b'"') n × All (IsQuotable b'\'') p
IsReadable g show_user_statement = Unit
IsReadable g (join_node_statement n a v) =
    All (IsQuotable b'"') n × All (IsQuotable b'\'') a × (g.is_addr_port a ≡ true)
IsReadable g (drop_node_statement n) = All (IsQuotable b'"') n
IsReadable g show_node_statement = Unit
IsReadable g (create_database_statement db) =
    All (IsQuotable b'"') db.name × (0 < db.duration) × (db.duration < 15250 * week)
IsReadable g (drop_database_statement n) = All (IsQuotable b'"') n
IsReadable g show_database_statement = Unit

module _ (g : Grammar) where
  fed : (ws : List Written) → All IsWritable ws → Feeds g.tables (init (write ws)) ws
  fed ws a = write-Feeds g.tables (init (write ws)) ws (init-At (write ws) (write-StartsPlain ws)) a

  abbrev start : Statement → Scanner
  start stmt = init (write (pieces stmt))

  -- A new user is what the statement says of it.
  new_user_lem :
      (u : User)
      → u.created_at ≡ 0
      → u.system ≡ false
      → u.db_priv ≡ []
      → new_user g u.name u.password u.priv ≡ create_user_statement u
  new_user_lem u c s d = rw (c, s, d) refl

  statement_read :
      (stmt : Statement)
      → All IsWritable (pieces stmt)
      → IsReadable g stmt
      → Parses g (start stmt) stmt
  unfolding drop_of show_of pieces
  statement_read (create_user_statement u) a (h, q, valid, c, sys, d) =
      let s = start (create_user_statement u) in
      let known = quotable-IsQuotable (to_string u.priv) (quotable-to_string u.priv valid) in
      subst (Parses g s) (new_user_lem u c sys d)
        (create_user_read g s u h q known valid (fed (pieces (create_user_statement u)) a))
  statement_read (drop_user_statement n) a h =
      drop_read g (start (drop_user_statement n)) key_user drop_user_statement n refl h
        (fed (pieces (drop_user_statement n)) a)
  statement_read (set_password_statement n p) a (h, q) =
      set_password_read g (start (set_password_statement n p)) n p h q
        (fed (pieces (set_password_statement n p)) a)
  statement_read show_user_statement a h =
      show_read g (start show_user_statement) key_user show_user_statement refl
        (fed (pieces show_user_statement) a)
  statement_read (join_node_statement n addr v) a (h, q, valid) =
      join_node_read g (start (join_node_statement n addr v)) n addr v h q valid
        (fed (pieces (join_node_statement n addr v)) a)
  statement_read (drop_node_statement n) a h =
      drop_read g (start (drop_node_statement n)) key_node drop_node_statement n refl h
        (fed (pieces (drop_node_statement n)) a)
  statement_read show_node_statement a h =
      show_read g (start show_node_statement) key_node show_node_statement refl
        (fed (pieces show_node_statement) a)
  statement_read (create_database_statement db) a (h, _, _) =
      create_database_read g (start (create_database_statement db)) db h
        (fed (pieces (create_database_statement db)) a)
  statement_read (drop_database_statement n) a h =
      drop_read g (start (drop_database_statement n)) key_database drop_database_statement n refl h
        (fed (pieces (drop_database_statement n)) a)
  statement_read show_database_statement a h =
      show_read g (start show_database_statement) key_database show_database_statement refl
        (fed (pieces show_database_statement) a)

  pieces-IsWritable : (stmt : Statement) → IsReadable g stmt → All IsWritable (pieces stmt)
  unfolding pieces
  pieces-IsWritable (create_user_statement u) (h, q, valid, _, _, _) =
      let known = quotable-IsQuotable (to_string u.priv) (quotable-to_string u.priv valid) in
      (tt, (tt, (h, (tt, (tt, (q, (tt, (known, (tt, tt)))))))))
  pieces-IsWritable (drop_user_statement n) h = (tt, (tt, (h, tt)))
  pieces-IsWritable (set_password_statement n p) (h, q) = (tt, (tt, (tt, (h, (tt, (q, tt))))))
  pieces-IsWritable show_user_statement h = (tt, (tt, tt))
  pieces-IsWritable (join_node_statement n a v) (h, q, _) =
      (tt, (tt, (h, (tt, (q, (tt, (tt, tt)))))))
  pieces-IsWritable (drop_node_statement n) h = (tt, (tt, (h, tt)))
  pieces-IsWritable show_node_statement h = (tt, (tt, tt))
  pieces-IsWritable (create_database_statement db) (h, low, high) =
      (tt, (tt, (h, (tt, (tt, ((low, high), tt))))))
  pieces-IsWritable (drop_database_statement n) h = (tt, (tt, (h, tt)))
  pieces-IsWritable show_database_statement h = (tt, (tt, tt))

  -- A statement of any of the ten forms, written with its keywords in capitals, its names in double
  -- quotes, its texts in single quotes and its duration as FormatDuration writes it, is read back as
  -- that statement, if its names and texts are printable ASCII without their quote and without a
  -- backslash, an address is one that netip accepts, the duration of a database is positive and
  -- below 15250 weeks, and a new user has a valid privilege and nothing set that the statement does
  -- not say.
  pub parse-write :
      (stmt : Statement) → IsReadable g stmt → parse g (write (pieces stmt)) ≡ returned (inr stmt)
  unfolding parse parsed
  parse-write stmt h = ap parsed (statement_read stmt (pieces-IsWritable stmt h) h).1
