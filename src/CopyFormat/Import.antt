-- ===== src/CopyFormat/Import.antt =====
-- `import_table_segment` (ppbase/backup/copy_format.py). The connection is a parameter: its COPY takes
-- the chunks of the source, which may end with an error, and gives a status or raises.
use ppbase.Prelude.{Str, Unicode, ℕ, ◌==◌, length, List, not, Option, ◌≡◌, ◌∙◌, ap, arith}
use ppbase.Value.{Value, text}
use ppbase.CopyFormat.Result.{
  row_mismatch, Result, ok, raises, ◌>>=◌, raise_if, bind-eq-ok, raise_if-eq-ok,
}
use ppbase.CopyFormat.Chunks.{joined}
use ppbase.CopyFormat.Segment.{CopySegment, validate_identifier}
use ppbase.CopyFormat.Export.{parse_copy_row_count}
use ppbase.CopyFormat.Exported.{slice}
use ppbase.CopyFormat.Reader.{Zlib, done, Reading, iter_uncompressed}
use ppbase.CopyFormat.Verified.{iter_uncompressed_done}

module _ (U : Unicode) (int_of : Str → Option ℕ) (Connection : Type 0)
    (copy_to_table : Str
      → List Str
      → Str
      → Reading (Unit {0})
      → Connection
      → Result (Value Unit) × Connection) where
  abbrev pub check_imported : CopySegment → Result (Value Unit) → Result (Unit {0})
  check_imported segment answer = do
    status ← answer
    imported ← parse_copy_row_count U int_of status
    raise_if (not (imported == segment.row_count)) row_mismatch

  -- `reader.iter_uncompressed(segment)` is what the reader makes of the segment.
  unfoldable pub import_table_segment :
      (CopySegment → Reading (Unit {0}))
      → CopySegment
      → Str
      → Connection
      → Result (Unit {0}) × Connection
  import_table_segment reader segment schema c =
      elim (validate_identifier {F = Unit} (text schema)) [
        | raises e ↦ (raises e, c)
        | ok _ ↦
            let (answer, c') =
              copy_to_table segment.table segment.columns schema (reader segment) c in
            (check_imported segment answer, c')
      ]

  -- What COPY promises: it gives a status only for a source that ends without an error.
  abbrev pub IsDraining : Type 0
  IsDraining =
      (table : Str) (columns : List Str) (schema : Str) (source : Reading (Unit {0}))
      (c c' : Connection) (status : Value Unit)
      → copy_to_table table columns schema source c ≡ (ok status, c')
      → source.1 ≡ done tt

  check_imported_ok :
      (segment : CopySegment) (answer : Result (Value Unit))
      → check_imported segment answer ≡ ok tt
      → (status : Value Unit) × (answer ≡ ok status)
        × (parse_copy_row_count U int_of status ≡ ok segment.row_count)
  check_imported_ok segment answer h =
      let (status, e, h₁) = bind-eq-ok answer _ tt h in
      let (imported, p, h₂) = bind-eq-ok (parse_copy_row_count U int_of status) _ tt h₁ in
      let same : imported ≡ segment.row_count =
        ground (arith, raise_if-eq-ok (not (imported == segment.row_count)) row_mismatch tt h₂) in
      (status, e, p ∙ ap (λ n. ok n) same)

  schema_then :
      (name : Result Str) (segment : CopySegment) (c c' : Connection)
      (answer : Result (Value Unit) × Connection)
      → elim name as (λ _. Result (Unit {0}) × Connection) [
        | raises e ↦ (raises e, c)
        | ok _ ↦ (check_imported segment answer.0, answer.1)
      ]
        ≡ (ok tt, c')
      → (status : Value Unit) × (answer ≡ (ok status, c'))
        × (parse_copy_row_count U int_of status ≡ ok segment.row_count)
  schema_then (raises e) segment c c' answer h = let f : raises e ≡ ok tt = λ i. (h i).0 in cc f
  schema_then (ok _) segment c c' answer h =
      let (status, e, counted) = check_imported_ok segment answer.0 (λ i. (h i).0) in
      (status, λ i. (e i, (h i).1), counted)

-- Conditions: COPY gives a status only for a source that ends without an error, and a segment is
-- imported without an error. Then PostgreSQL has reported as many rows as the segment records, and
-- what it was sent, like the bytes in the file, has the length and the hash that the segment records.
pub import_table_segment_ok :
    (U : Unicode) (int_of : Str → Option ℕ) (Connection : Type 0)
    (copy_to_table : Str
      → List Str
      → Str
      → Reading (Unit {0})
      → Connection
      → Result (Value Unit) × Connection)
    (Z : Zlib) (content : List ℕ) (total_size max_ratio : ℕ) (segment : CopySegment) (schema : Str)
    (c c' : Connection)
    → IsDraining U int_of Connection copy_to_table
    → import_table_segment U int_of Connection copy_to_table
        (iter_uncompressed Z content total_size max_ratio)
        segment
        schema
        c
      ≡ (ok tt, c')
    → (status : Value Unit) × (copy_to_table segment.table segment.columns schema
          (iter_uncompressed Z content total_size max_ratio segment)
          c
        ≡ (ok status, c'))
      × (parse_copy_row_count U int_of status ≡ ok segment.row_count)
      × (length (joined (iter_uncompressed Z content total_size max_ratio segment).0)
          ≡ segment.uncompressed_size)
      × (Z.sha256 (joined (iter_uncompressed Z content total_size max_ratio segment).0)
          ≡ segment.uncompressed_sha256)
      × (length (slice segment content) ≡ segment.compressed_size)
      × (Z.sha256 (slice segment content) ≡ segment.compressed_sha256)
unfolding import_table_segment
import_table_segment_ok U int_of Connection copy_to_table Z content total_size max_ratio segment
      schema c c' D h =
    let source = iter_uncompressed Z content total_size max_ratio segment in
    let (status, copied, counted) =
      schema_then U int_of Connection copy_to_table (validate_identifier {F = Unit} (text schema))
        segment c c' (copy_to_table segment.table segment.columns schema source c) h in
    let ended : source.1 ≡ done tt =
      D segment.table segment.columns schema source c c' status copied in
    let (long, hashed, whole, kept) =
      iter_uncompressed_done Z content total_size max_ratio segment source.0
        (λ i. (source.0, ended i)) in
    (status, copied, counted, long, hashed, whole, kept)
