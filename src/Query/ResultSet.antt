-- ===== src/Query/ResultSet.antt =====
-- `resultSetWriter` of pkg/query/service.go. Writes to its `bytes.Buffer` never fail.
pub mod Json
use xuandb.Prelude.{
  ℕ, suc, Bool, true, false, not, ◌==◌, ltb, if◌then◌else◌, List, [], ◌∷◌, ◌++◌, length, Option,
  none, some,
}
use xuandb.Prelude.Text.{Text, codes}
use xuandb.Xerrors.{Error, no_content}
use xuandb.Meta.Handler.{Reply}
use xuandb.Query.Run.{Run, returned, panicked, and_then}
use xuandb.Query.Value.{Value, quote, write_value}

-- `columns` is nil exactly if it is empty.
pub record ResultSetWriter : Type 0 where
  pub buf : Text
  pub err : Option Error
  pub columns : List Text
  pub num_row : ℕ

abbrev pub new_writer : ResultSetWriter
new_writer = record { buf = []; err = none; columns = []; num_row = 0 }

unfoldable pub is_nil : List Text → Bool
is_nil [] = true
is_nil (_ ∷ _) = false

unfoldable pub set_error : Error → ResultSetWriter → ResultSetWriter
set_error e w = elim w.err [ none ↦ record w { err = some e } | some _ ↦ w ]

unfoldable pub row_start : ℕ → Text
row_start n = if n == 0 then codes ",\"values\":[[" else codes ",["

unfoldable pub write_row : Option Text → ResultSetWriter → Run (ResultSetWriter × Option Error)
write_row none w = panicked (codes "unexpected")
write_row (some t) w =
    let v : ResultSetWriter = record w {
      buf = w.buf ++ row_start w.num_row ++ t ++ b']' ∷ [];
      num_row = suc w.num_row;
    } in
    returned (v, none)

unfoldable pub unless_failed :
    ResultSetWriter × Option Error
    → (ResultSetWriter → Run (ResultSetWriter × Option Error))
    → Run (ResultSetWriter × Option Error)
unless_failed (w, none) k = k w
unless_failed (w, some e) k = returned (w, some e)

module _ (table : ℕ → Bool) where
  -- The loop over the column names; `first` is `i == 0`.
  unfoldable pub write_columns : Bool → List Text → Text
  write_columns first [] = []
  write_columns first (c ∷ cs) =
      let rest = write_columns false cs in
      (if first then quote table c else b',' ∷ quote table c) ++ rest

  unfoldable pub set_columns : List Text → ResultSetWriter → Run ResultSetWriter
  set_columns columns w = elim w.err [
    | some _ ↦ returned w
    | none ↦
        if not (is_nil w.columns)
        then panicked (codes "columns has already been set.")
        else returned (record w {
          columns = columns;
          buf = w.buf ++ codes "{\"columns\":[" ++ write_columns true columns ++ b']' ∷ [];
        })
  ]

  -- The loop over the values; `none` is a panic of `writeValue`.
  unfoldable pub write_values : Bool → List Value → Option Text
  write_values first [] = some []
  write_values first (v ∷ vs) = join (write_value table v) (write_values false vs)
    where
      join : Option Text → Option Text → Option Text
      join (some t) (some rest) = some ((if first then t else b',' ∷ t) ++ rest)
      join _ _ = none

  unfoldable pub add_row : List Value → ResultSetWriter → Run (ResultSetWriter × Option Error)
  add_row vals w = elim w.err [
    | some e ↦ returned (w, some e)
    | none ↦
        if is_nil w.columns
        then panicked (codes "columns must be set before add rows.")
        else if not (length vals == length w.columns)
        then panicked (codes "column count mismatch.")
        else write_row (write_values true vals) w
  ]

  -- `for … { if err := rs.AddRow(…); err != nil { return err } }` of the statements.
  unfoldable pub add_rows :
      List (List Value) → ResultSetWriter → Run (ResultSetWriter × Option Error)
  add_rows [] w = returned (w, none)
  add_rows (r ∷ rows) w = and_then (add_row r w) (λ p. unless_failed p (λ v. add_rows rows v))

-- The brackets that `Flush` closes.
unfoldable pub closing : ℕ → Text
closing n = if ltb 0 n then codes "]}" else b'}' ∷ []

-- What `Flush` writes to the response, if anything, and what it returns. The error of the last
-- write, to the network, is not modelled: it is logged only.
unfoldable pub flush : ResultSetWriter → Option Reply × Option Error
flush w = elim w.err [
  | some e ↦ (none, some e)
  | none ↦
      if is_nil w.columns
      then (some (record { code = no_content; text = [] }), none)
      else (some (record { code = 200; text = w.buf ++ closing w.num_row }), none)
]
