-- ===== src/CopyFormat/Exported.antt =====
-- What an export leaves in the file (ppbase/backup/copy_format.py, ppbase/backup/native.py).
use ppbase.Prelude.{
  Str, Unicode, codes, ℕ, ◌+◌, ◌≤◌, length, length-append, take, drop, List, [], ◌∷◌, ◌++◌,
  append_assoc, append-nil, Option, All, ◌≡◌, ◌↔◌, refl, sym, ap, ◌∙◌, arith,
}
use ppbase.Value.{pos, Value}
use ppbase.CopyFormat.Result.{Result, ok, raises}
use ppbase.CopyFormat.Segment.{CopySegment, end_offset}
use ppbase.CopyFormat.Layout.{
  check_from-step, check_from, validate_segment_layout, total_uncompressed, IsWithinRatio,
  validate_segment_layout-owners,
}
use ppbase.CopyFormat.Writer.{
  Platform, Writer, OpenSegment, Step, begin_segment, feed_all, finish_fed, write_begun,
  write_segment, segment_writer,
}
use ppbase.CopyFormat.Emitted.{IsAppending, deflate}
use ppbase.CopyFormat.Chunks.{joined}
use ppbase.CopyFormat.Written.{Describes}
use ppbase.CopyFormat.Segments.{write_segment_lem}
use ppbase.CopyFormat.Export.{
  export_query, status_of, finish_copied, copy_begun, export_table_segment, prepend, export_tables,
}

-- The bytes of a segment in a file
abbrev pub slice : CopySegment → List ℕ → List ℕ
slice s content = take s.compressed_size (drop s.offset content)

slice_append : (a b c : List ℕ) → take (length b) (drop (length a) (a ++ b ++ c)) ≡ b
slice_append [] [] c = refl
slice_append [] (x ∷ b) c = ap (λ (t : List ℕ). x ∷ t) (slice_append [] b c)
slice_append (x ∷ a) b c = slice_append a b c

module _ (P : Platform) (U : Unicode) (int_of : Str → Option ℕ) (Connection : Type 0)
    (copy_from_query : Str → Connection → List (List ℕ) × Option (Value Unit) × Connection) where
  open P use {Sink, Compressor}

  finish_copied-finish_fed :
      (status : Result ℕ) (fed : Step P (Unit {0})) (segment : CopySegment) (w' : Writer P)
      → finish_copied P U int_of Connection copy_from_query status fed ≡ (ok segment, w')
      → (n : ℕ) × (finish_fed P (pos n) fed ≡ (ok segment, w'))
  finish_copied-finish_fed status (raises x, w, o) segment w' h =
      let e : raises x ≡ ok segment = λ i. (h i).0 in cc e
  finish_copied-finish_fed (raises x) (ok u, w, o) segment w' h =
      let e : raises x ≡ ok segment = λ i. (h i).0 in cc e
  finish_copied-finish_fed (ok n) (ok u, w, o) segment w' h = (n, h)

  copy_begun-write_begun :
      (query : Str) (begun : Result (OpenSegment P)) (w w' : Writer P) (c c' : Connection)
      (segment : CopySegment)
      → copy_begun P U int_of Connection copy_from_query query (begun, w) c ≡ (ok segment, w', c')
      → (chunks : List (List ℕ)) × (n : ℕ) × (write_begun P chunks (pos n) (begun, w)
          ≡ (ok segment, w'))
  copy_begun-write_begun query (raises x) w w' c c' segment h =
      let e : raises x ≡ ok segment = λ i. (h i).0 in cc e
  copy_begun-write_begun query (ok o) w w' c c' segment h =
      let (chunks, status, _) = copy_from_query query c in
      let (n, e) =
        finish_copied-finish_fed (status_of P U int_of Connection copy_from_query status)
          (feed_all P chunks w o) segment w' (λ i. ((h i).0, (h i).1)) in
      (chunks, n, e)

  query_then :
      (query : Result Str) (begun : Result (OpenSegment P) × Writer P) (w w' : Writer P)
      (c c' : Connection) (segment : CopySegment)
      → elim query as (λ _. Result CopySegment × Writer P × Connection) [
        | raises e ↦ (raises e, w, c)
        | ok q ↦ copy_begun P U int_of Connection copy_from_query q begun c
      ]
        ≡ (ok segment, w', c')
      → (chunks : List (List ℕ)) × (n : ℕ) × (write_begun P chunks (pos n) begun ≡ (ok segment, w'))
  query_then (raises x) begun w w' c c' segment h =
      let e : raises x ≡ ok segment = λ i. (h i).0 in cc e
  query_then (ok q) begun w w' c c' segment h =
      copy_begun-write_begun q begun.0 begun.1 w' c c' segment h

  -- An export of a table writes a segment of what the connection gives.
  export_table_segment-write_segment :
      (table : Str) (columns : List Str) (schema : Str) (w w' : Writer P) (c c' : Connection)
      (segment : CopySegment)
      → export_table_segment P U int_of Connection copy_from_query table columns schema w c
        ≡ (ok segment, w', c')
      → (chunks : List (List ℕ)) × (n : ℕ) × (write_segment P table columns chunks (pos n) w
          ≡ (ok segment, w'))
  unfolding export_table_segment write_segment
  export_table_segment-write_segment table columns schema w w' c c' segment h =
      query_then (export_query schema table columns) (begin_segment P table columns w) w w' c c'
        segment h

  -- What an export has done from one writer to another, for a budget and a ratio.
  record Exported (budget max_ratio : ℕ) (w w' : Writer P) (segments : List CopySegment)
      : Type 0 where
    bytes : List ℕ
    content : P.content w'.sink ≡ P.content w.sink ++ bytes
    counted : length (P.content w'.sink) ≡ w'.written
    later : w.written ≤ w'.written
    hashed : All (λ s. P.sha256 (slice s (P.content w'.sink)) ≡ s.compressed_sha256) segments
    layout :
        (total : ℕ)
        → All (IsWithinRatio max_ratio) segments
        → total + total_uncompressed segments ≤ budget
        → check_from w'.written budget max_ratio w.written total segments ≡ ok tt

  Exported-refl :
      (budget max_ratio : ℕ) (w : Writer P)
      → length (P.content w.sink) ≡ w.written
      → Exported budget max_ratio w w []
  unfolding check_from
  Exported-refl budget max_ratio w k = record {
    bytes = [];
    content = sym (append-nil (P.content w.sink));
    counted = k;
    later = omega arith;
    hashed = tt;
    layout = λ total r b. ground arith;
  }

  -- A segment in front of the others
  Exported-cons :
      (budget max_ratio : ℕ) (w w₁ w' : Writer P) (bytes raw : List ℕ) (segment : CopySegment)
      (segments : List CopySegment)
      → length (P.content w.sink) ≡ w.written
      → P.content w₁.sink ≡ P.content w.sink ++ bytes
      → w₁.written ≡ w.written + length bytes
      → Describes P w.written bytes raw segment
      → Exported budget max_ratio w₁ w' segments
      → Exported budget max_ratio w w' (segment ∷ segments)
  unfolding total_uncompressed
  Exported-cons budget max_ratio w w₁ w' bytes raw segment segments k content written d rest =
      let whole : P.content w'.sink ≡ P.content w.sink ++ bytes ++ rest.bytes =
        rest.content ∙ ap (λ (x : List ℕ). x ++ rest.bytes) content in
      let found : slice segment (P.content w'.sink) ≡ bytes =
        rw (d.compressed_size_of, d.offset_of, ← k, whole)
          (slice_append (P.content w.sink) bytes rest.bytes) in
      record {
        bytes = bytes ++ rest.bytes;
        content = whole ∙ append_assoc (P.content w.sink) bytes rest.bytes;
        counted = rest.counted;
        later = omega (arith, rest.later, written);
        hashed = (ap (λ (x : List ℕ). P.sha256 x) found ∙ sym d.compressed_sha256_of, rest.hashed);
        layout = λ total r b.
            (let inflated = total + segment.uncompressed_size in
              let ends : end_offset segment ≡ w₁.written =
                omega (arith, d.offset_of, d.compressed_size_of, written) in
              ap (λ (n : ℕ). check_from w'.written budget max_ratio n total (segment ∷ segments))
                (sym d.offset_of)
              ∙ check_from-step w'.written budget max_ratio total segment segments
                  (omega (arith, rest.later, ends)) r.0 (omega arith)
              ∙ ap (λ (n : ℕ). check_from w'.written budget max_ratio n inflated segments) ends
              ∙ rest.layout inflated r.1 (omega arith));
      }

  prepend-eq-ok :
      (segment : CopySegment) (segments : List CopySegment) (w' : Writer P) (c' : Connection)
      (rest : Result (List CopySegment) × Writer P × Connection)
      → prepend P U int_of Connection copy_from_query segment rest ≡ (ok segments, w', c')
      → (later : List CopySegment) × (rest ≡ (ok later, w', c')) × (segments ≡ segment ∷ later)
  prepend-eq-ok segment segments w' c' (raises x, w, c) h =
      let e : raises x ≡ ok segments = λ i. (h i).0 in cc e
  prepend-eq-ok segment segments w' c' (ok later, w, c) h =
      let e : ok (segment ∷ later) ≡ ok segments = λ i. (h i).0 in
      (later, λ i. (ok later, (h i).1, (h i).2), cc e)

  module _ (A : IsAppending P) (budget max_ratio : ℕ) where
    export_then :
        (table : Str) (columns : List Str) (tables : List (Str × List Str)) (w w₁ w' : Writer P)
        (c c₁ c' : Connection) (segments : List CopySegment) (result : Result CopySegment)
        → length (P.content w.sink) ≡ w.written
        → export_table_segment P U int_of Connection copy_from_query table columns
            (codes "public")
            w
            c
          ≡ (result, w₁, c₁)
        → ((later : List CopySegment)
            → length (P.content w₁.sink) ≡ w₁.written
            → export_tables P U int_of Connection copy_from_query tables w₁ c₁ ≡ (ok later, w', c')
            → Exported budget max_ratio w₁ w' later)
        → elim result as (λ _. Result (List CopySegment) × Writer P × Connection) [
          | raises e ↦ (raises e, w₁, c₁)
          | ok segment ↦
              prepend P U int_of Connection copy_from_query segment
                (export_tables P U int_of Connection copy_from_query tables w₁ c₁)
        ]
          ≡ (ok segments, w', c')
        → Exported budget max_ratio w w' segments
    export_then table columns tables w w₁ w' c c₁ c' segments (raises x) k e ih h =
        let e₀ : raises x ≡ ok segments = λ i. (h i).0 in cc e₀
    export_then table columns tables w w₁ w' c c₁ c' segments (ok segment) k e ih h =
        let (chunks, n, made) =
          export_table_segment-write_segment table columns (codes "public") w w₁ c c₁ segment e in
        let (content, written, _, d) =
          write_segment_lem P A table columns chunks (pos n) w w₁ segment made in
        let (later, rest, same) =
          prepend-eq-ok segment segments w' c'
            (export_tables P U int_of Connection copy_from_query tables w₁ c₁) h in
        let counted : length (P.content w₁.sink) ≡ w₁.written = rw content (
          omega (
            arith,
            k,
            written,
            length-append (P.content w.sink) (deflate P P.compressobj chunks),
          )) in
        rw same (
          Exported-cons budget max_ratio w w₁ w' (deflate P P.compressobj chunks) (joined chunks)
            segment later k content written d (ih later counted rest))

    export_tables_lem :
        (tables : List (Str × List Str)) (w w' : Writer P) (c c' : Connection)
        (segments : List CopySegment)
        → length (P.content w.sink) ≡ w.written
        → export_tables P U int_of Connection copy_from_query tables w c ≡ (ok segments, w', c')
        → Exported budget max_ratio w w' segments
    unfolding export_tables
    export_tables_lem [] w w' c c' segments k h =
        let none : ok [] ≡ ok segments = λ i. (h i).0 in
        let none' : [] ≡ segments = cc none in
        rw (← none', sym (λ i. (h i).1)) (Exported-refl budget max_ratio w k)
    export_tables_lem ((table, columns) ∷ tables) w w' c c' segments k h =
        let (result, w₁, c₁) =
          export_table_segment P U int_of Connection copy_from_query table columns (codes "public")
            w c in
        export_then table columns tables w w₁ w' c c₁ c' segments result k refl
          (λ later k₁ e. export_tables_lem tables w₁ w' c₁ c' later k₁ e) h

-- Conditions: the connection's tables are exported into an empty file without an error, and the file
-- keeps what it takes. Then the writer has counted the bytes of the file; the layout of the segments
-- is accepted for the size of the file exactly if no segment inflates beyond the ratio and all of
-- them together inflate within the budget, so the segments stand one behind the other and fill the
-- file; and the bytes that each segment points at have the hash that it records.
pub export_tables-validate_segment_layout :
    (P : Platform) (U : Unicode) (int_of : Str → Option ℕ) (Connection : Type 0)
    (copy_from_query : Str → Connection → List (List ℕ) × Option (Value Unit) × Connection)
    (budget max_ratio : ℕ) (tables : List (Str × List Str)) (sink : P.Sink) (w' : Writer P)
    (c c' : Connection) (segments : List CopySegment)
    → IsAppending P
    → P.content sink ≡ []
    → export_tables P U int_of Connection copy_from_query tables (segment_writer P sink) c
      ≡ (ok segments, w', c')
    → (length (P.content w'.sink) ≡ w'.written)
      × ((validate_segment_layout w'.written budget max_ratio segments ≡ ok segments)
          ↔ (All (IsWithinRatio max_ratio) segments × (total_uncompressed segments ≤ budget)))
      × All (λ s. P.sha256 (slice s (P.content w'.sink)) ≡ s.compressed_sha256) segments
export_tables-validate_segment_layout P U int_of Connection copy_from_query budget max_ratio tables
      sink w' c c' segments A e h =
    let x =
      export_tables_lem P U int_of Connection copy_from_query A budget max_ratio tables
        (segment_writer P sink) w' c c' segments (rw e refl) h in
    (
      x.counted,
      (
        λ accepted.
            (let (_, _, summed, ratio) =
                validate_segment_layout-owners w'.written budget max_ratio segments segments 0
                  accepted in
              (ratio, summed)),
        λ (ratio, budgeted).
            unfold validate_segment_layout in rw (x.layout 0 ratio (omega (arith, budgeted))) refl,
      ),
      x.hashed,
    )
