-- ===== src/Query/ResultSet/Json.antt =====
-- The text that a result set is flushed as: with texts quoted as Go does, which JSON does not read
-- everywhere.
use native.Mathlib.Nat.{add-suc, suc-add}
use xuandb.Prelude.{
  ℕ, suc, ◌+◌, ◌≡◌, refl, ap, ◌∙◌, arith, Bool, true, false, List, [], ◌∷◌, ◌++◌, append_assoc,
  append-nil, length, Option, none, some, All,
}
use xuandb.Prelude.Text.{Text, codes}
use xuandb.Query.Run.{returned, and_then}
use xuandb.Query.Value.{Value, quote, write_value}
use xuandb.Query.ResultSet.{
  ResultSetWriter, new_writer, set_columns, add_row, add_rows, is_nil, flush, write_columns,
  write_values, write_row, row_start, closing, unless_failed,
}

-- The items, each but the first after a comma.
unfoldable pub each_after_comma : List Text → Text
each_after_comma [] = []
each_after_comma (t ∷ ts) = b',' ∷ t ++ each_after_comma ts

unfoldable pub commas : List Text → Text
commas [] = []
commas (t ∷ ts) = t ++ each_after_comma ts

unfoldable pub array : List Text → Text
array ts = b'[' ∷ commas ts ++ b']' ∷ []

-- A value that `writeValue` does not know makes it panic.
pub data IsWritable (table : ℕ → Bool) : Value → Type 0 where
  writes : {v : Value} (t : Text) → write_value table v ≡ some t → IsWritable table v

module _ (table : ℕ → Bool) where
  abbrev pub text_of : Option Text → Text
  text_of none = []
  text_of (some t) = t

  unfoldable pub value_text : Value → Text
  value_text v = text_of (write_value table v)

  unfoldable pub value_texts : List Value → List Text
  value_texts [] = []
  value_texts (v ∷ vs) = value_text v ∷ value_texts vs

  unfoldable pub quotes : List Text → List Text
  quotes [] = []
  quotes (c ∷ cs) = quote table c ∷ quotes cs

  unfoldable pub arrays : List (List Value) → List Text
  arrays [] = []
  arrays (r ∷ rs) = array (value_texts r) ∷ arrays rs

  -- The layout that the comment on the writer gives, with no "values" where there are no rows.
  unfoldable pub values_field : List (List Value) → Text
  values_field [] = []
  values_field (r ∷ rows) = codes ",\"values\":" ++ array (arrays (r ∷ rows))

  unfoldable pub layout : List Text → List (List Value) → Text
  layout columns rows =
      codes "{\"columns\":" ++ array (quotes columns) ++ values_field rows ++ b'}' ∷ []

  -- A row of a table with these columns.
  abbrev pub IsRow : List Text → List Value → Type 0
  IsRow columns vals = (length vals ≡ length columns) × All (IsWritable table) vals

  write_columns-false :
      (cs : List Text) → write_columns table false cs ≡ each_after_comma (quotes cs)
  unfolding write_columns each_after_comma quotes
  write_columns-false [] = refl
  write_columns-false (c ∷ cs) = ap (λ t. (b',' ∷ quote table c) ++ t) (write_columns-false cs)

  write_columns-true : (cs : List Text) → write_columns table true cs ≡ commas (quotes cs)
  unfolding write_columns commas quotes
  write_columns-true [] = refl
  write_columns-true (c ∷ cs) = ap (λ t. quote table c ++ t) (write_columns-false cs)

  write_values-false :
      (vs : List Value)
      → All (IsWritable table) vs
      → write_values table false vs ≡ some (each_after_comma (value_texts vs))
  unfolding write_values each_after_comma value_texts value_text
  write_values-false [] h = refl
  write_values-false (v ∷ vs) (writes t e, h) = rw (e, write_values, write_values-false vs h) refl

  write_values-true :
      (vs : List Value)
      → All (IsWritable table) vs
      → write_values table true vs ≡ some (commas (value_texts vs))
  unfolding write_values commas value_texts value_text
  write_values-true [] h = refl
  write_values-true (v ∷ vs) (writes t e, h) = rw (e, write_values, write_values-false vs h) refl

  -- What a loop of `AddRow` appends when `n` rows are there.
  pub rows_after : ℕ → List (List Value) → Text
  rows_after n [] = []
  rows_after n (r ∷ rs) =
      (row_start n ++ commas (value_texts r) ++ b']' ∷ []) ++ rows_after (suc n) rs

  -- A writer without an error.
  abbrev writer : Text → List Text → ℕ → ResultSetWriter
  writer b columns n = record { buf = b; err = none; columns = columns; num_row = n }

  add_row_lem :
      (r : List Value) (b c : Text) (cs : List Text) (n : ℕ)
      → IsRow (c ∷ cs) r
      → add_row table r (writer b (c ∷ cs) n)
        ≡ returned (
          writer (b ++ row_start n ++ commas (value_texts r) ++ b']' ∷ []) (c ∷ cs) (suc n),
          none,
        )
  unfolding add_row write_row is_nil
  add_row_lem r b c cs n (fits, writable) = rw (fits, write_values-true r writable) (ground arith)

  -- The loop over rows that fit the columns ends without error or panic.
  add_rows_lem :
      (rows : List (List Value)) (b c : Text) (cs : List Text) (n : ℕ)
      → All (IsRow (c ∷ cs)) rows
      → add_rows table rows (writer b (c ∷ cs) n)
        ≡ returned (writer (b ++ rows_after n rows) (c ∷ cs) (n + length rows), none)
  unfolding add_rows rows_after and_then unless_failed
  add_rows_lem [] b c cs n h = rw (append-nil b) (ground arith)
  add_rows_lem (r ∷ rows) b c cs n (fits, h) =
      rw (add_row_lem r b c cs n fits, and_then)
        (add_rows_lem rows (b ++ row_start n ++ commas (value_texts r) ++ b']' ∷ []) c cs (suc n) h
          ∙ simp (append_assoc, add-suc, suc-add))

  -- A loop of `AddRow` on a table with rows writes its arrays.
  row_start-suc : (n : ℕ) → row_start (suc n) ≡ codes ",["
  unfolding row_start
  row_start-suc n = ground arith

  closing-zero : closing (0 + 0) ≡ b'}' ∷ []
  unfolding closing
  closing-zero = ground arith

  closing-suc : (n : ℕ) → closing (0 + suc n) ≡ codes "]}"
  unfolding closing
  closing-suc n = ground arith

  rows_after-suc :
      (n : ℕ) (rows : List (List Value)) → rows_after (suc n) rows ≡ each_after_comma (arrays rows)
  unfolding rows_after each_after_comma arrays array
  rows_after-suc n [] = refl
  rows_after-suc n (r ∷ rows) =
      rw (rows_after-suc (suc n) rows, row_start-suc n) (simp append_assoc)

  values_field-rows_after :
      (rows : List (List Value))
      → rows_after 0 rows ++ closing (0 + length rows) ≡ values_field rows ++ b'}' ∷ []
  unfolding rows_after values_field arrays array commas row_start
  values_field-rows_after [] = closing-zero
  values_field-rows_after (r ∷ rows) =
      rw (rows_after-suc 0 rows, closing-suc (length rows)) (simp append_assoc)

  -- Columns and rows that fit them, written to a fresh writer and flushed, are that layout of
  -- the table, with status 200; no step panics or fails.
  pub flush-add_rows :
      (c : Text) (cs : List Text) (rows : List (List Value))
      → All (IsRow (c ∷ cs)) rows
      → (w : ResultSetWriter) × (and_then
            (set_columns table (c ∷ cs) new_writer)
            (add_rows table rows)
          ≡ returned (w, none))
        × (flush w ≡ (some (record { code = 200; text = layout (c ∷ cs) rows }), none))
  unfolding set_columns and_then is_nil layout flush array
  flush-add_rows c cs rows h =
      let head = codes "{\"columns\":[" ++ write_columns table true (c ∷ cs) ++ b']' ∷ [] in
      (
        writer (head ++ rows_after 0 rows) (c ∷ cs) (0 + length rows),
        add_rows_lem rows head c cs 0 h,
        rw (write_columns-true (c ∷ cs))
            (simp append_assoc (rw (values_field-rows_after rows) refl)),
      )
