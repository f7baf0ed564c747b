-- ===== src/CopyFormat/Writer.antt =====
-- `SegmentWriter` and `_OpenSegment` (ppbase/backup/copy_format.py). The file that is written to,
-- zlib and SHA-256 are parameters. A hash object is the bytes that it was updated with.
use ppbase.Prelude.{
  Str, codes, ℕ, zero, suc, ◌+◌, length, is_empty, List, [], ◌∷◌, ◌++◌, Bool, true, false, Option,
  none, some, if◌then◌else◌,
}
use ppbase.Value.{ℤ, pos, text, int}
use ppbase.CopyFormat.Result.{
  sink_refuses, writer_closed, already_open, already_finished, Result, ok, raises,
}
use ppbase.CopyFormat.Segment.{CopySegment, Arguments, validate_identifier, make_segment, texts_of}

-- What the writer uses of other code: `sink.write`, which may take a part of the bytes and say how
-- many, or take them all and say nothing; `zlib.compressobj`; and `sha256(...).hexdigest()`.
pub record Platform : Type 1 where
  pub Sink : Type 0
  pub write : List ℕ → Sink → Option ℕ × Sink
  pub content : Sink → List ℕ
  pub Compressor : Type 0
  pub compressobj : Compressor
  pub compress : List ℕ → Compressor → List ℕ × Compressor
  pub flush : Compressor → List ℕ
  pub sha256 : List ℕ → Str

module _ (P : Platform) where
  open P use {Sink, Compressor}

  pub record Writer : Type 0 where
    pub sink : Sink
    pub written : ℕ
    pub closed : Bool
    pub is_open : Bool

  -- `SegmentWriter(sink)`
  abbrev pub segment_writer : Sink → Writer
  segment_writer sink = record { sink = sink; written = 0; closed = false; is_open = false }

  pub record OpenSegment : Type 0 where
    pub table : Str
    pub columns : List Str
    pub offset : ℕ
    pub compressor : Compressor
    pub raw_hash : List ℕ
    pub comp_hash : List ℕ
    pub uncompressed_size : ℕ
    pub compressed_size : ℕ
    pub done : Bool

  -- An operation that may raise, on the writer and its open segment
  abbrev pub Step : Type 0 → Type 0
  Step A = Result A × Writer × OpenSegment

  -- The loop of `_emit`: the number of bytes that are already accepted, and the bytes behind them.
  unfoldable pub emit_from : ℕ → List ℕ → Sink → Result (Unit {0}) × Sink
  emit_from skip [] s = (ok tt, s)
  emit_from (suc skip) (_ ∷ bytes) s = emit_from skip bytes s
  emit_from zero (c ∷ bytes) s =
      let (written, s') = P.write (c ∷ bytes) s in
      elim written [
        | none ↦ (ok tt, s')
        | some zero ↦ (raises sink_refuses, s')
        | some (suc n) ↦ emit_from n bytes s'
      ]

  unfoldable pub emit : List ℕ → Writer → Result (Unit {0}) × Writer
  emit bytes w =
      let (result, sink) = emit_from 0 bytes w.sink in
      elim result [
        | ok u ↦ (ok u, record w { sink = sink; written = w.written + length bytes })
        | raises e ↦ (raises e, record w { sink = sink })
      ]

  -- `begin_segment`; the columns are checked when the segment is finished.
  unfoldable pub begin_segment : Str → List Str → Writer → Result OpenSegment × Writer
  begin_segment table columns w =
      if w.closed
      then (raises writer_closed, w)
      else if w.is_open
      then (raises already_open, w)
      else elim (validate_identifier {F = Unit} (text table)) [
        | raises e ↦ (raises e, w)
        | ok _ ↦ (
          ok (record {
            table = table;
            columns = columns;
            offset = w.written;
            compressor = P.compressobj;
            raw_hash = [];
            comp_hash = [];
            uncompressed_size = 0;
            compressed_size = 0;
            done = false;
          }),
          record w { is_open = true },
        )
      ]

  -- Compressed bytes are hashed, counted and emitted, if there are any.
  unfoldable pub put : List ℕ → Writer → OpenSegment → Step (Unit {0})
  put [] w o = (ok tt, w, o)
  put (c ∷ bytes) w o =
      let (result, w') = emit (c ∷ bytes) w in
      (
        result,
        w',
        record o {
          comp_hash = o.comp_hash ++ (c ∷ bytes);
          compressed_size = o.compressed_size + length (c ∷ bytes);
        },
      )

  unfoldable pub feed : List ℕ → Writer → OpenSegment → Step (Unit {0})
  feed payload w o =
      if o.done
      then (raises already_finished, w, o)
      else if is_empty payload
      then (ok tt, w, o)
      else (let (compressed, compressor) = P.compress payload o.compressor in
          put compressed w (record o {
            raw_hash = o.raw_hash ++ payload;
            uncompressed_size = o.uncompressed_size + length payload;
            compressor = compressor;
          }))

  abbrev pub arguments : ℤ → OpenSegment → Arguments Unit
  arguments row_count o = record {
    table = text o.table;
    columns = texts_of o.columns;
    offset = int (pos o.offset);
    compressed_size = int (pos o.compressed_size);
    compressed_sha256 = text (P.sha256 o.comp_hash);
    uncompressed_size = int (pos o.uncompressed_size);
    uncompressed_sha256 = text (P.sha256 o.raw_hash);
    row_count = int row_count;
    compression = text (codes "zlib");
  }

  abbrev pub describe : ℤ → Step (Unit {0}) → Step CopySegment
  describe row_count (raises e, w, o) = (raises e, w, o)
  describe row_count (ok _, w, o) =
      (make_segment (arguments row_count o), record w { is_open = false }, o)

  unfoldable pub finish : ℤ → Writer → OpenSegment → Step CopySegment
  finish row_count w o =
      if o.done
      then (raises already_finished, w, o)
      else describe row_count (put (P.flush o.compressor) w (record o { done = true }))

  unfoldable pub feed_all : List (List ℕ) → Writer → OpenSegment → Step (Unit {0})
  feed_all [] w o = (ok tt, w, o)
  feed_all (chunk ∷ chunks) w o =
      let (result, w', o') = feed chunk w o in
      elim result [ ok _ ↦ feed_all chunks w' o' | raises e ↦ (raises e, w', o') ]

  abbrev pub finish_fed : ℤ → Step (Unit {0}) → Result CopySegment × Writer
  finish_fed row_count (raises e, w, o) = (raises e, w)
  finish_fed row_count (ok _, w, o) = let (result, w', o') = finish row_count w o in (result, w')

  abbrev pub write_begun :
      List (List ℕ) → ℤ → Result OpenSegment × Writer → Result CopySegment × Writer
  write_begun chunks row_count (raises e, w) = (raises e, w)
  write_begun chunks row_count (ok o, w) = finish_fed row_count (feed_all chunks w o)

  unfoldable pub write_segment :
      Str → List Str → List (List ℕ) → ℤ → Writer → Result CopySegment × Writer
  write_segment table columns chunks row_count w =
      write_begun chunks row_count (begin_segment table columns w)
