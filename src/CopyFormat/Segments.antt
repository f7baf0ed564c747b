-- ===== src/CopyFormat/Segments.antt =====
-- What `write_segment` leaves in the file and says of it (ppbase/backup/copy_format.py).
use ppbase.Prelude.{
  Str, ℕ, ◌+◌, length, List, [], ◌++◌, append-nil, true, false, ◌≡◌, refl, sym, ap, subst, ◌∙◌,
  arith, Bool-cases, inl, inr, ◌⊎◌,
}
use ppbase.Value.{ℤ, text}
use ppbase.CopyFormat.Result.{Fault, Result, ok, raises}
use ppbase.CopyFormat.Segment.{CopySegment, make_segment, validate_identifier}
use ppbase.CopyFormat.Writer.{
  Platform, Writer, OpenSegment, begin_segment, put, finish, feed_all, write_segment, arguments,
  describe, finish_fed, write_begun,
}
use ppbase.CopyFormat.Emitted.{IsAppending, deflate}
use ppbase.CopyFormat.Chunks.{joined}
use ppbase.CopyFormat.Written.{
  Progress, Describes, Progress-trans, done-Progress, put_lem, feed_all_lem, made_Describes,
}

module _ (P : Platform) where
  open P use {Sink, Compressor}

  abbrev pub fresh : Str → List Str → ℕ → OpenSegment P
  fresh table columns offset = record {
    table = table;
    columns = columns;
    offset = offset;
    compressor = P.compressobj;
    raw_hash = [];
    comp_hash = [];
    uncompressed_size = 0;
    compressed_size = 0;
    done = false;
  }

  Result-cases : (r : Result Str) → ((s : Str) × (r ≡ ok s)) ⊎ ((e : Fault) × (r ≡ raises e))
  Result-cases (ok s) = inl (s, refl)
  Result-cases (raises e) = inr (e, refl)

  begin_segment_lem :
      (table : Str) (columns : List Str) (w w' : Writer P) (o : OpenSegment P)
      → begin_segment P table columns w ≡ (ok o, w')
      → (o ≡ fresh table columns w.written) × (w' ≡ record w { is_open = true })
  unfolding begin_segment
  begin_segment_lem table columns w w' o h = elim (Bool-cases w.closed) [
    | inl c ↦ absurd (ground (arith, c, h))
    | inr c ↦ elim (Bool-cases w.is_open) [
      | inl b ↦ absurd (ground (arith, c, b, h))
      | inr b ↦ elim (Result-cases (validate_identifier {F = Unit} (text table))) [
        | inr (e, v) ↦ absurd (ground (arith, c, b, v, h))
        | inl (s, v) ↦ (ground (arith, c, b, v, h), ground (arith, c, b, v, h))
      ]
    ]
  ]

  module _ (A : IsAppending P) where
    -- The end of a segment: the rest of the stream, and its description.
    describe_lem :
        (row_count : ℤ) (w w₁ w' : Writer P) (o o₁ o' : OpenSegment P) (segment : CopySegment)
        (result : Result (Unit {0})) (bytes : List ℕ)
        → put P bytes w o ≡ (result, w₁, o₁)
        → describe P row_count (result, w₁, o₁) ≡ (ok segment, w', o')
        → Progress P bytes [] w w₁ o o₁
          × (w' ≡ record w₁ { is_open = false })
          × (make_segment (arguments P row_count o₁) ≡ ok segment)
    describe_lem row_count w w₁ w' o o₁ o' segment (raises x) bytes e h =
        let e₀ : raises x ≡ ok segment = λ i. (h i).0 in cc e₀
    describe_lem row_count w w₁ w' o o₁ o' segment (ok u) bytes e h =
        let (p, q, r) = put_lem P A bytes w w₁ o o₁ u e in (p, sym (λ i. (h i).1), λ i. (h i).0)

    finish_lem :
        (row_count : ℤ) (w w' : Writer P) (o o' : OpenSegment P) (segment : CopySegment)
        → finish P row_count w o ≡ (ok segment, w', o')
        → (w₁ : Writer P) × (o₁ : OpenSegment P) × Progress P
            (P.flush o.compressor)
            []
            w
            w₁
            (record o { done = true })
            o₁
          × (w' ≡ record w₁ { is_open = false })
          × (make_segment (arguments P row_count o₁) ≡ ok segment)
    unfolding finish
    finish_lem row_count w w' o o' segment h = elim (Bool-cases o.done) [
      | inl d ↦ absurd (ground (arith, d, h))
      | inr d ↦
          let (result, w₁, o₁) = put P (P.flush o.compressor) w (record o { done = true }) in
          let (p, q, r) =
            describe_lem row_count w w₁ w' (record o { done = true }) o₁ o' segment result
              (P.flush o.compressor) refl (ground (arith, d, h)) in
          (w₁, o₁, p, q, r)
    ]

    finish_fed_lem :
        (row_count : ℤ) (chunks : List (List ℕ)) (w w₁ w' : Writer P) (o o₁ : OpenSegment P)
        (segment : CopySegment) (result : Result (Unit {0})) (c : Compressor)
        → o.compressor ≡ c
        → feed_all P chunks w o ≡ (result, w₁, o₁)
        → finish_fed P row_count (result, w₁, o₁) ≡ (ok segment, w')
        → (w₂ : Writer P) × (o₂ : OpenSegment P) × Progress P
            (deflate P c chunks)
            (joined chunks)
            w
            w₂
            o
            o₂
          × (w' ≡ record w₂ { is_open = false })
          × (make_segment (arguments P row_count o₂) ≡ ok segment)
    finish_fed_lem row_count chunks w w₁ w' o o₁ segment (raises x) c k e h =
        let e₀ : raises x ≡ ok segment = λ i. (h i).0 in cc e₀
    finish_fed_lem row_count chunks w w₁ w' o o₁ segment (ok u) c k e h =
        let (bytes, p, end, _) = feed_all_lem P A chunks w w₁ o o₁ u e in
        let (w₂, o₂, q, closed, made) =
          finish_lem row_count w₁ w' o₁ (finish P row_count w₁ o₁).2 segment
            (λ i. ((h i).0, (h i).1, (finish P row_count w₁ o₁).2)) in
        let both =
          Progress-trans P bytes (P.flush o₁.compressor) (joined chunks) [] w w₁ w₂ o o₁ o₂ p
            (done-Progress P (P.flush o₁.compressor) [] w₁ w₂ o₁ o₂ q) in
        (
          w₂,
          o₂,
          rw (← (end ∙ ap (λ (d : Compressor). deflate P d chunks) k), ← append-nil (joined chunks))
              both,
          closed,
          made,
        )

    write_begun_lem :
        (row_count : ℤ) (table : Str) (columns : List Str) (chunks : List (List ℕ))
        (w w₁ w' : Writer P) (segment : CopySegment) (begun : Result (OpenSegment P))
        → begin_segment P table columns w ≡ (begun, w₁)
        → write_begun P chunks row_count (begun, w₁) ≡ (ok segment, w')
        → (w₂ : Writer P) × (o₂ : OpenSegment P) × Progress P
            (deflate P P.compressobj chunks)
            (joined chunks)
            (record w { is_open = true })
            w₂
            (fresh table columns w.written)
            o₂
          × (w' ≡ record w₂ { is_open = false })
          × (make_segment (arguments P row_count o₂) ≡ ok segment)
    write_begun_lem row_count table columns chunks w w₁ w' segment (raises x) e h =
        let e₀ : raises x ≡ ok segment = λ i. (h i).0 in cc e₀
    write_begun_lem row_count table columns chunks w w₁ w' segment (ok o) e h =
        let (is_fresh, opened) = begin_segment_lem table columns w w₁ o e in
        let (result, w₂, o₂) = feed_all P chunks w₁ o in
        let compressor : o.compressor ≡ P.compressobj = λ i. (is_fresh i).compressor in
        rw (← is_fresh, ← opened)
          (finish_fed_lem row_count chunks w₁ w₂ w' o o₂ segment result P.compressobj compressor
            refl h)

    -- Condition: a segment is written without an error, and the file keeps what it takes. Then the
    -- compressed stream of the chunks stands behind what the file held before, the writer counts it
    -- and can begin the next segment, and the segment describes where the stream stands, its length
    -- and hash, and the length and hash of the chunks.
    pub write_segment_lem :
        (table : Str) (columns : List Str) (chunks : List (List ℕ)) (row_count : ℤ)
        (w w' : Writer P) (segment : CopySegment)
        → write_segment P table columns chunks row_count w ≡ (ok segment, w')
        → (P.content w'.sink ≡ P.content w.sink ++ deflate P P.compressobj chunks)
          × (w'.written ≡ w.written + length (deflate P P.compressobj chunks))
          × (w'.is_open ≡ false)
          × Describes P w.written (deflate P P.compressobj chunks) (joined chunks) segment
    unfolding write_segment
    write_segment_lem table columns chunks row_count w w' segment h =
        let stream = deflate P P.compressobj chunks in
        let raw = joined chunks in
        let (begun, w₁) = begin_segment P table columns w in
        let (w₂, o₂, p, closed, made) =
          write_begun_lem row_count table columns chunks w w₁ w' segment begun refl h in
        (
          (λ i. P.content (closed i).sink) ∙ p.content,
          (λ i. (closed i).written) ∙ p.written,
          λ i. (closed i).is_open,
          subst (λ (n : ℕ). Describes P n stream raw segment) p.offset
              (made_Describes P row_count o₂ segment stream raw made p.comp_hash p.raw_hash
                (p.compressed_size ∙ omega arith) (p.uncompressed_size ∙ omega arith)),
        )
