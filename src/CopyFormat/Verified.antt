-- ===== src/CopyFormat/Verified.antt =====
-- What a reading of a segment that ends without an error has checked
-- (ppbase/backup/copy_format.py).
use ppbase.Prelude.{
  codes, text_eq, eq_of_text_eq, ℕ, ◌+◌, ◌≤◌, ◌==◌, ltb, length, length-append, List, [], ◌∷◌, ◌++◌,
  append-nil, true, Option, none, some, ◌≡◌, ◌⊎◌, refl, sym, ap, ◌∙◌, arith, Bool-cases, inl, inr,
}
use ppbase.CopyFormat.Result.{
  Fault, Result, ok, raises, past_the_end, unsupported_compression, not_zlib,
}
use ppbase.CopyFormat.Segment.{CopySegment, end_offset}
use ppbase.CopyFormat.Layout.{check_ratio}
use ppbase.CopyFormat.Chunks.{joined, joined-append}
use ppbase.CopyFormat.Reader.{
  Zlib, Ending, done, failed, endless, Reading, yield_plain, read_from, finish_reading, flushed,
  check_stream, iter_uncompressed,
}
use ppbase.CopyFormat.Exported.{slice}
use ppbase.CopyFormat.Inflation.{yielded, yielded-yield_plain}
use ppbase.CopyFormat.Reading.{read_from_yields, read_from_done}

joined-yield_plain :
    {A : Type 0} (plain : List ℕ) (end : Ending A) → joined (yield_plain plain ([], end)).0 ≡ plain
unfolding joined
joined-yield_plain [] end = refl
joined-yield_plain (b ∷ plain) end = append-nil (b ∷ plain)

refuted :
    (chunks before : List (List ℕ)) (x : Fault)
    → ◌≡◌ {A = Reading (Unit {0})} (before, failed x) (chunks, done tt)
    → ⊥
refuted chunks before x h = let e : failed x ≡ done tt = λ i. (h i).1 in cc e

pub check_ratio-cases : (r : Result (Unit {0})) → (r ≡ ok tt) ⊎ ((x : Fault) × (r ≡ raises x))
check_ratio-cases (ok u) = inl refl
check_ratio-cases (raises x) = inr (x, refl)

module _ (Z : Zlib) (content : List ℕ) (total_size max_ratio : ℕ) (segment : CopySegment) where
  open Z use {Decompressor}

  check_stream_done :
      (d : Decompressor) (comp_hash raw_hash : List ℕ)
      → check_stream Z content total_size max_ratio segment d comp_hash raw_hash ≡ done tt
      → (text_eq (Z.sha256 comp_hash) segment.compressed_sha256 ≡ true)
        × (text_eq (Z.sha256 raw_hash) segment.uncompressed_sha256 ≡ true)
  check_stream_done d comp_hash raw_hash h = (ground (arith, h), ground (arith, h))

  flushed_done :
      (raw_hash comp_hash : List ℕ) (produced : ℕ) (o : Option (List ℕ × Decompressor))
      (ends : List (List ℕ))
      → flushed Z content total_size max_ratio segment raw_hash produced comp_hash o
        ≡ (ends, done tt)
      → (produced + length (joined ends) ≡ segment.uncompressed_size)
        × (text_eq (Z.sha256 comp_hash) segment.compressed_sha256 ≡ true)
        × (text_eq (Z.sha256 (raw_hash ++ joined ends)) segment.uncompressed_sha256 ≡ true)
  unfolding joined
  flushed_done raw_hash comp_hash produced none ends h =
      let e : failed not_zlib ≡ done tt = λ i. (h i).1 in cc e
  flushed_done raw_hash comp_hash produced (some (tail, d)) ends h =
      elim (Bool-cases (produced + length tail == segment.uncompressed_size)) [
        | inr m ↦ absurd (ground (arith, m, h))
        | inl m ↦
            let k : yield_plain tail (
              [],
              check_stream Z content total_size max_ratio segment d comp_hash (raw_hash ++ tail),
            )
                ≡ (ends, done tt) =
              ground (arith, m, h) in
            let (counted, end) = yielded-yield_plain (Unit {0}) tail (
              [],
              check_stream Z content total_size max_ratio segment d comp_hash (raw_hash ++ tail),
            ) in
            let (c, r) =
              check_stream_done d comp_hash (raw_hash ++ tail) (sym end ∙ λ i. (k i).1) in
            let same : joined ends ≡ tail =
              ap (λ (x : List (List ℕ)). joined x) (sym (λ i. (k i).0))
              ∙ joined-yield_plain tail (
                  check_stream Z content total_size max_ratio segment d comp_hash
                    (raw_hash ++ tail)) in
            rw same (ground (arith, m), c, r)
      ]

  flushed_yields :
      (raw_hash comp_hash : List ℕ) (produced : ℕ) (o : Option (List ℕ × Decompressor))
      → produced ≤ segment.uncompressed_size
      → produced
          + yielded (flushed Z content total_size max_ratio segment raw_hash produced comp_hash o)
        ≤ segment.uncompressed_size
  unfolding joined
  flushed_yields raw_hash comp_hash produced none h = omega arith
  flushed_yields raw_hash comp_hash produced (some (tail, d)) h =
      elim (Bool-cases (produced + length tail == segment.uncompressed_size)) [
        | inr m ↦ rw m (omega arith)
        | inl m ↦
            let exact : produced + length tail ≡ segment.uncompressed_size = ground (arith, m) in
            rw m (
              omega (
                arith,
                exact,
                (yielded-yield_plain (Unit {0}) tail (
                  [],
                  check_stream Z content total_size max_ratio segment d comp_hash
                      (raw_hash ++ tail),
                )).0,
              ))
      ]

  finish_reading_yields :
      (r : Reading (ℕ × List ℕ × Decompressor))
      → yielded r ≤ segment.uncompressed_size
      → ((p : ℕ) (hashed : List ℕ) (d : Decompressor) → r.1 ≡ done (p, hashed, d) → p ≡ yielded r)
      → yielded (finish_reading Z content total_size max_ratio segment r)
        ≤ segment.uncompressed_size
  unfolding joined
  finish_reading_yields (before, failed x) k h = k
  finish_reading_yields (before, endless) k h = k
  finish_reading_yields (before, done (p, hashed, d)) k h =
      let ends =
        flushed Z content total_size max_ratio segment (joined before) p hashed (Z.flush d) in
      let exact : p ≡ length (joined before) = h p hashed d refl in
      rw (joined-append before ends.0) (
        omega (
          arith,
          length-append (joined before) (joined ends.0),
          exact,
          flushed_yields (joined before) hashed p (Z.flush d) (omega (arith, exact)),
        ))

  -- The whole stream
  abbrev whole : Reading (ℕ × List ℕ × Decompressor)
  whole =
      read_from Z content total_size max_ratio segment segment.compressed_size segment.offset
        segment.compressed_size 0 [] Z.decompressobj

  finish_reading_done :
      (r : Reading (ℕ × List ℕ × Decompressor)) (chunks : List (List ℕ))
      → finish_reading Z content total_size max_ratio segment r ≡ (chunks, done tt)
      → (p : ℕ) × (hashed : List ℕ) × (d : Decompressor) × (ends : List (List ℕ)) × (r.1
          ≡ done (p, hashed, d))
        × (chunks ≡ r.0 ++ ends)
        × (p + length (joined ends) ≡ segment.uncompressed_size)
        × (text_eq (Z.sha256 hashed) segment.compressed_sha256 ≡ true)
        × (text_eq (Z.sha256 (joined r.0 ++ joined ends)) segment.uncompressed_sha256 ≡ true)
  finish_reading_done (before, failed x) chunks h =
      let e : failed x ≡ done tt = λ i. (h i).1 in cc e
  finish_reading_done (before, endless) chunks h = let e : endless ≡ done tt = λ i. (h i).1 in cc e
  finish_reading_done (before, done (p, hashed, d)) chunks h =
      let (ends, end) =
        flushed Z content total_size max_ratio segment (joined before) p hashed (Z.flush d) in
      let (counted, c, r) =
        flushed_done (joined before) hashed p (Z.flush d) ends (λ i. (ends, (h i).1)) in
      (p, hashed, d, ends, refl, sym (λ i. (h i).0), counted, c, r)

-- Condition: a reading of a segment ends without an error. Then what was yielded has the length and
-- the hash that the segment records, and the bytes of the segment are all in the file and have the
-- hash that it records for them.
pub iter_uncompressed_done :
    (Z : Zlib) (content : List ℕ) (total_size max_ratio : ℕ) (segment : CopySegment)
    (chunks : List (List ℕ))
    → iter_uncompressed Z content total_size max_ratio segment ≡ (chunks, done tt)
    → (length (joined chunks) ≡ segment.uncompressed_size)
      × (Z.sha256 (joined chunks) ≡ segment.uncompressed_sha256)
      × (length (slice segment content) ≡ segment.compressed_size)
      × (Z.sha256 (slice segment content) ≡ segment.compressed_sha256)
unfolding iter_uncompressed joined
iter_uncompressed_done Z content total_size max_ratio segment chunks h =
    elim (Bool-cases (ltb total_size (end_offset segment))) [
      | inl b ↦ absurd (refuted chunks [] past_the_end (ground (arith, b, h)))
      | inr b ↦ elim (check_ratio-cases (check_ratio segment max_ratio)) [
        | inr (x, c) ↦ absurd (refuted chunks [] x (ground (arith, b, c, h)))
        | inl c ↦ elim (Bool-cases (text_eq segment.compression (codes "zlib"))) [
          | inr k ↦ absurd (refuted chunks [] unsupported_compression (ground (arith, b, c, k, h)))
          | inl k ↦
              let r = whole Z content total_size max_ratio segment in
              let (p, hashed, d, ends, e, same, counted, read, raw) =
                finish_reading_done Z content total_size max_ratio segment r chunks
                  (ground (arith, b, c, k, h)) in
              let (produced, all, long) =
                read_from_done Z content total_size max_ratio segment segment.compressed_size
                  segment.offset segment.compressed_size 0 p [] hashed Z.decompressobj d e in
              rw (same, joined-append r.0 ends)
                (
                  omega (arith, length-append (joined r.0) (joined ends), produced, counted),
                  eq_of_text_eq _ _ raw,
                  long,
                  ap (λ (x : List ℕ). Z.sha256 x) (sym all) ∙ eq_of_text_eq _ _ read,
                )
        ]
      ]
    ]

-- However a reading ends, and whatever the decompressor gives, no more bytes are yielded than the
-- segment records.
pub iter_uncompressed_bounded :
    (Z : Zlib) (content : List ℕ) (total_size max_ratio : ℕ) (segment : CopySegment)
    → yielded (iter_uncompressed Z content total_size max_ratio segment) ≤ segment.uncompressed_size
unfolding iter_uncompressed joined
iter_uncompressed_bounded Z content total_size max_ratio segment =
    elim (Bool-cases (ltb total_size (end_offset segment))) [
      | inl b ↦ rw (iter_uncompressed, b) (omega arith)
      | inr b ↦ elim (check_ratio-cases (check_ratio segment max_ratio)) [
        | inr (x, c) ↦ rw (iter_uncompressed, b, c) (omega arith)
        | inl c ↦ elim (Bool-cases (text_eq segment.compression (codes "zlib"))) [
          | inr k ↦ rw (iter_uncompressed, b, c, k) (omega arith)
          | inl k ↦
              rw (iter_uncompressed, b, c, k)
                (finish_reading_yields Z content total_size max_ratio segment
                  (whole Z content total_size max_ratio segment)
                  (omega (
                    arith,
                    read_from_yields Z content total_size max_ratio segment segment.compressed_size
                        segment.offset segment.compressed_size 0 [] Z.decompressobj (omega arith),
                  ))
                  (λ p hashed d e. omega (
                    arith,
                    (read_from_done Z content total_size max_ratio segment segment.compressed_size
                        segment.offset segment.compressed_size 0 p [] hashed Z.decompressobj d e).0,
                  )))
        ]
      ]
    ]
