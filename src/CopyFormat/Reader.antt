-- ===== src/CopyFormat/Reader.antt =====
-- `SegmentReader.iter_uncompressed` and `import_table_segment` (ppbase/backup/copy_format.py). The
-- decompressor of zlib and SHA-256 are parameters; the file is its bytes.
use ppbase.Prelude.{
  Str, codes, text_eq, ℕ, zero, suc, ◌+◌, ◌-◌, ◌==◌, leb, ltb, length, is_empty, take, drop, List,
  [], ◌∷◌, ◌++◌, Bool, not, Option, none, some, if◌then◌else◌,
}
use ppbase.CopyFormat.Result.{
  Fault, past_the_end, unsupported_compression, data_ended, inflates_past, not_zlib, size_mismatch,
  trailing_bytes, unused_bytes, compressed_hash_mismatch, hash_mismatch, ok, raises,
}
use ppbase.CopyFormat.Segment.{CopySegment, end_offset}
use ppbase.CopyFormat.Chunks.{joined}
use ppbase.CopyFormat.Layout.{check_ratio}

-- `zlib.decompressobj`; `none` is `zlib.error`.
pub record Zlib : Type 1 where
  pub Decompressor : Type 0
  pub decompressobj : Decompressor
  -- `decompress(data, max_length)`
  pub decompress : List ℕ → ℕ → Decompressor → Option (List ℕ × Decompressor)
  pub unconsumed_tail : Decompressor → List ℕ
  pub flush : Decompressor → Option (List ℕ × Decompressor)
  pub eof : Decompressor → Bool
  pub unused_data : Decompressor → List ℕ
  pub sha256 : List ℕ → Str

-- How a part of the generator ends; `endless` is a loop whose fuel runs out.
pub data Ending {ℓ} (A : Type ℓ) : Type ℓ where
  done : A → Ending A
  failed : Fault → Ending A
  endless : Ending A

-- The chunks that are yielded, and the end
abbrev pub Reading : Type 0 → Type 0
Reading A = List (List ℕ) × Ending A

abbrev pub yield_plain : {A : Type 0} → List ℕ → Reading A → Reading A
yield_plain [] r = r
yield_plain (b ∷ plain) (chunks, end) = ((b ∷ plain) ∷ chunks, end)

abbrev pub chunk_size : ℕ
chunk_size = 1_048_576

abbrev pub min : ℕ → ℕ → ℕ
min a b = if leb a b then a else b

module _ (Z : Zlib) (content : List ℕ) (total_size max_ratio : ℕ) (segment : CopySegment) where
  open Z use {Decompressor}

  -- The loop over what the decompressor leaves of a chunk, with `produced`
  unfoldable pub inflate : ℕ → List ℕ → ℕ → Decompressor → Reading (ℕ × Decompressor)
  inflate zero pending produced d = ([], endless)
  inflate (suc fuel) pending produced d =
      elim (Z.decompress pending (segment.uncompressed_size - produced + 1) d) [
        | none ↦ ([], failed not_zlib)
        | some (plain, d') ↦
            let later = inflate fuel (Z.unconsumed_tail d') (produced + length plain) d' in
            if ltb segment.uncompressed_size (produced + length plain)
            then ([], failed inflates_past)
            else if is_empty (Z.unconsumed_tail d')
            then yield_plain plain ([], done (produced + length plain, d'))
            else yield_plain plain later
      ]

  -- The fuel for one chunk: every turn consumes or produces.
  abbrev pub fuel_for : List ℕ → ℕ → ℕ
  fuel_for pending produced = length pending + (segment.uncompressed_size - produced) + 2

  abbrev pub append_reading : {A B : Type 0} → Reading A → (A → Reading B) → Reading B
  append_reading (chunks, done a) f = let (later, end) = f a in (chunks ++ later, end)
  append_reading (chunks, failed e) f = (chunks, failed e)
  append_reading (chunks, endless) f = (chunks, endless)

  -- The loop over the chunks, from a position, with `remaining_compressed`, `produced` and the bytes
  -- that `comp_hash` was updated with
  unfoldable pub read_from :
      ℕ → ℕ → ℕ → ℕ → List ℕ → Decompressor → Reading (ℕ × List ℕ × Decompressor)
  read_from zero position remaining produced comp_hash d =
      ([], if remaining == 0 then done (produced, comp_hash, d) else endless)
  read_from (suc fuel) position remaining produced comp_hash d =
      let want = min chunk_size remaining in
      let chunk = take want (drop position content) in
      if remaining == 0
      then ([], done (produced, comp_hash, d))
      else if not (length chunk == want)
      then ([], failed data_ended)
      else append_reading (inflate (fuel_for chunk produced) chunk produced d)
          (λ (state : ℕ × Decompressor).
            read_from fuel (position + want) (remaining - want) state.0 (comp_hash ++ chunk)
              state.1)

  -- The tests behind the stream, for what was read and what was yielded
  abbrev pub check_stream : Decompressor → List ℕ → List ℕ → Ending (Unit {0})
  check_stream d comp_hash raw_hash =
      if not (Z.eof d)
      then failed trailing_bytes
      else if not (is_empty (Z.unused_data d))
      then failed unused_bytes
      else if not (text_eq (Z.sha256 comp_hash) segment.compressed_sha256)
      then failed compressed_hash_mismatch
      else if not (text_eq (Z.sha256 raw_hash) segment.uncompressed_sha256)
      then failed hash_mismatch
      else done tt

  abbrev pub flushed : List ℕ → ℕ → List ℕ → Option (List ℕ × Decompressor) → Reading (Unit {0})
  flushed raw_hash produced comp_hash none = ([], failed not_zlib)
  flushed raw_hash produced comp_hash (some (tail, d)) =
      if not (produced + length tail == segment.uncompressed_size)
      then ([], failed size_mismatch)
      else yield_plain tail ([], check_stream d comp_hash (raw_hash ++ tail))

  -- `raw_hash` was updated with all that was yielded.
  abbrev pub finish_reading : Reading (ℕ × List ℕ × Decompressor) → Reading (Unit {0})
  finish_reading (chunks, failed e) = (chunks, failed e)
  finish_reading (chunks, endless) = (chunks, endless)
  finish_reading (chunks, done (produced, comp_hash, d)) =
      let (tail, end) = flushed (joined chunks) produced comp_hash (Z.flush d) in
      (chunks ++ tail, end)

  unfoldable pub iter_uncompressed : Reading (Unit {0})
  iter_uncompressed =
      if ltb total_size (end_offset segment)
      then ([], failed past_the_end)
      else elim (check_ratio segment max_ratio) [
        | raises e ↦ ([], failed e)
        | ok _ ↦
            if not (text_eq segment.compression (codes "zlib"))
            then ([], failed unsupported_compression)
            else finish_reading (
                read_from segment.compressed_size segment.offset segment.compressed_size 0 []
                  Z.decompressobj)
      ]
