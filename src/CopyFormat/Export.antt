-- ===== src/CopyFormat/Export.antt =====
-- `parse_copy_row_count`, `export_table_segment` (ppbase/backup/copy_format.py) and the loop over
-- the tables of `export_native_database` (ppbase/backup/native.py).
use ppbase.Prelude.{
  Str, Unicode, codes, text_eq, ℕ, List, [], ◌∷◌, ◌++◌, Bool, not, ◌||◌, Option, none, some,
  is_empty, any, if◌then◌else◌,
}
use ppbase.Value.{pos, Value, text}
use ppbase.CopyFormat.Result.{
  bad_status, no_columns, driver_error, value_error, Result, ok, raises, ◌>>=◌, ◌>>◌, raise_if,
}
use ppbase.CopyFormat.Segment.{CopySegment, validate_identifier}
use ppbase.CopyFormat.Writer.{Platform, Writer, OpenSegment, Step, begin_segment, feed_all, finish}

abbrev push_char : ℕ → List Str → List Str
push_char c [] = (c ∷ []) ∷ []
push_char c (word ∷ words) = (c ∷ word) ∷ words

unfoldable pub split_at : (ℕ → Bool) → Str → List Str
split_at space [] = [] ∷ []
split_at space (c ∷ s) =
    let rest = split_at space s in if space c then [] ∷ rest else push_char c rest

unfoldable pub nonempty : List Str → List Str
nonempty [] = []
nonempty ([] ∷ words) = nonempty words
nonempty ((c ∷ word) ∷ words) = (c ∷ word) ∷ nonempty words

-- The Unicode tables, and `int` of a text, `none` for ValueError
module _ (U : Unicode) (int_of : Str → Option ℕ) where
  abbrev of_int : Option ℕ → Result ℕ
  of_int none = raises value_error
  of_int (some n) = ok n

  abbrev count_of : List Str → Result ℕ
  count_of (command ∷ count ∷ []) =
      if not (text_eq command (codes "COPY")) || any (λ c. not (U.is_digit c)) count
      then raises bad_status
      else of_int (int_of count)
  count_of _ = raises bad_status

  -- A status that is no text raises, as every other that is not `COPY n`.
  unfoldable pub parse_copy_row_count : Value Unit → Result ℕ
  parse_copy_row_count (text status) = count_of (nonempty (split_at U.is_space status))
  parse_copy_row_count _ = raises bad_status

-- The names in quotation marks, with commas between
unfoldable pub quoted_columns : List Str → Result Str
quoted_columns [] = ok []
quoted_columns (column ∷ []) = do
  name ← validate_identifier {F = Unit} (text column)
  ok (codes "\"" ++ (name ++ codes "\""))
quoted_columns (column ∷ next ∷ columns) = do
  name ← validate_identifier {F = Unit} (text column)
  rest ← quoted_columns (next ∷ columns)
  ok (codes "\"" ++ (name ++ (codes "\", " ++ rest)))

unfoldable pub export_query : Str → Str → List Str → Result Str
export_query schema table columns = do
  schema_name ← validate_identifier {F = Unit} (text schema)
  table_name ← validate_identifier {F = Unit} (text table)
  raise_if (is_empty columns) no_columns
  column_sql ← quoted_columns columns
  ok (
      codes "SELECT "
      ++ (column_sql ++ (codes " FROM \"" ++ (schema ++ (codes "\".\"" ++ (table ++ codes "\""))))))

module _ (P : Platform) (U : Unicode) (int_of : Str → Option ℕ) (Connection : Type 0)
    (copy_from_query : Str → Connection → List (List ℕ) × Option (Value Unit) × Connection) where
  -- `copy_from_query` gives the chunks to the callback, and then the status; `none` is an exception.
  abbrev pub status_of : Option (Value Unit) → Result ℕ
  status_of none = raises driver_error
  status_of (some status) = parse_copy_row_count U int_of status

  abbrev pub finish_copied : Result ℕ → Step P (Unit {0}) → Result CopySegment × Writer P
  finish_copied status (raises e, w, o) = (raises e, w)
  finish_copied (raises e) (ok _, w, o) = (raises e, w)
  finish_copied (ok row_count) (ok _, w, o) =
      let (result, w', o') = finish P (pos row_count) w o in (result, w')

  abbrev pub copy_begun :
      Str
      → Result (OpenSegment P) × Writer P
      → Connection
      → Result CopySegment × Writer P × Connection
  copy_begun query (raises e, w) c = (raises e, w, c)
  copy_begun query (ok o, w) c =
      let (chunks, status, c') = copy_from_query query c in
      let (result, w') = finish_copied (status_of status) (feed_all P chunks w o) in
      (result, w', c')

  unfoldable pub export_table_segment :
      Str → List Str → Str → Writer P → Connection → Result CopySegment × Writer P × Connection
  export_table_segment table columns schema w c = elim (export_query schema table columns) [
    | raises e ↦ (raises e, w, c)
    | ok query ↦ copy_begun query (begin_segment P table columns w) c
  ]

  abbrev pub prepend :
      CopySegment
      → Result (List CopySegment) × Writer P × Connection
      → Result (List CopySegment) × Writer P × Connection
  prepend segment (raises e, w, c) = (raises e, w, c)
  prepend segment (ok segments, w, c) = (ok (segment ∷ segments), w, c)

  -- The tables with their columns, in the order of the loop
  unfoldable pub export_tables :
      List (Str × List Str)
      → Writer P
      → Connection
      → Result (List CopySegment) × Writer P × Connection
  export_tables [] w c = (ok [], w, c)
  export_tables ((table, columns) ∷ tables) w c =
      let (result, w', c') = export_table_segment table columns (codes "public") w c in
      elim result [
        | raises e ↦ (raises e, w', c')
        | ok segment ↦ prepend segment (export_tables tables w' c')
      ]
