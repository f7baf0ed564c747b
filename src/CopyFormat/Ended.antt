-- ===== src/CopyFormat/Ended.antt =====
-- That a reading ends (ppbase/backup/copy_format.py)
use ppbase.Prelude.{
  ℕ, zero, suc, ◌+◌, ◌-◌, ◌≤◌, ◌<◌, ◌==◌, ltb, length, is_empty, take, drop, codes, text_eq, List,
  [], ◌++◌, Bool, true, false, Option, none, some, ◌≡◌, refl, arith, Bool-cases, inl, inr,
}
use ppbase.CopyFormat.Segment.{CopySegment, end_offset}
use ppbase.CopyFormat.Layout.{check_ratio}
use ppbase.CopyFormat.Chunks.{joined}
use ppbase.CopyFormat.Verified.{check_ratio-cases}
use ppbase.CopyFormat.Reader.{
  Zlib, Ending, done, failed, endless, Reading, chunk_size, min, fuel_for, append_reading,
  read_from, check_stream, flushed, finish_reading, iter_uncompressed,
}
use ppbase.CopyFormat.Inflation.{
  yielded-yield_plain, run, stopped, finished, continued, turn, inflate_yields, inflate_produced,
}

abbrev pub has_ended : {A : Type 0} → Ending A → Bool
has_ended (done _) = true
has_ended (failed _) = true
has_ended endless = false

min_pos : (a b : ℕ) → 0 < a → (b == 0) ≡ false → 0 < min a b
min_pos a b h k = ground (arith, h, k)

-- What `decompress` promises: it leaves no more than it was given, and only where it reached the
-- length that was asked for, so that it gave something.
pub record IsProgressing (Z : Zlib) : Type 0 where
  pub given :
      (pending plain : List ℕ) (limit : ℕ) (d d' : Z.Decompressor)
      → Z.decompress pending (limit + 1) d ≡ some (plain, d')
      → is_empty (Z.unconsumed_tail d') ≡ false
      → (length (Z.unconsumed_tail d') ≤ length pending) × (0 < length plain)

module _ (Z : Zlib) (content : List ℕ) (total_size max_ratio : ℕ) (segment : CopySegment) where
  open Z use {Decompressor}

  abbrev read : ℕ → ℕ → ℕ → ℕ → List ℕ → Decompressor → Reading (ℕ × List ℕ × Decompressor)
  read = read_from Z content total_size max_ratio segment

  module _ (P : IsProgressing Z) where
    inflate_ended :
        (fuel : ℕ) (pending : List ℕ) (produced : ℕ) (d : Decompressor)
        → length pending + (segment.uncompressed_size - produced) < fuel
        → has_ended (run Z content total_size max_ratio segment fuel pending produced d).1 ≡ true
    inflate_ended zero pending produced d h = absurd (omega (arith, h))
    inflate_ended (suc fuel) pending produced d h =
        elim (turn Z content total_size max_ratio segment fuel pending produced d) [
          | stopped e k ↦ rw k refl
          | finished plain d' b k ↦
              rw
                (
                  k,
                  (yielded-yield_plain (ℕ × Decompressor) plain
                      ([], done (produced + length plain, d'))).1,
                )
                refl
          | continued plain d' b e t k ↦
              let (shorter, more) =
                P.given pending plain (segment.uncompressed_size - produced) d d' e t in
              let rest =
                run Z content total_size max_ratio segment fuel (Z.unconsumed_tail d')
                  (produced + length plain) d' in
              rw (k, (yielded-yield_plain (ℕ × Decompressor) plain rest).1)
                (inflate_ended fuel (Z.unconsumed_tail d') (produced + length plain) d'
                  (omega (arith, h, shorter, more, b)))
        ]

    append_ended :
        {A C : Type 0} (r : Reading A) (f : A → Reading C)
        → has_ended r.1 ≡ true
        → ((a : A) → r.1 ≡ done a → has_ended (f a).1 ≡ true)
        → has_ended (append_reading Z content total_size max_ratio segment r f).1 ≡ true
    append_ended (chunks, done a) f h k = k a refl
    append_ended (chunks, failed e) f h k = refl
    append_ended (chunks, endless) f h k = cc

    read_from_ended :
        (fuel position remaining produced : ℕ) (comp_hash : List ℕ) (d : Decompressor)
        → remaining ≤ fuel
        → produced ≤ segment.uncompressed_size
        → has_ended (read fuel position remaining produced comp_hash d).1 ≡ true
    unfolding read_from
    read_from_ended zero position remaining produced comp_hash d h k =
        elim (Bool-cases (remaining == 0)) [
          | inl b ↦ rw b refl
          | inr b ↦ absurd (ground (arith, b, h))
        ]
    read_from_ended (suc fuel) position remaining produced comp_hash d h k =
        elim (Bool-cases (remaining == 0)) [
          | inl b ↦ rw (read_from, b) refl
          | inr b ↦
              let want = min chunk_size remaining in
              let chunk = take want (drop position content) in
              let some_bytes = min_pos chunk_size remaining (omega arith) b in
              elim (Bool-cases (length chunk == want)) [
                | inr c ↦ rw (read_from, b, c) refl
                | inl c ↦
                    let fuel' = fuel_for Z content total_size max_ratio segment chunk produced in
                    let inner = run Z content total_size max_ratio segment fuel' chunk produced d in
                    rw (read_from, b, c)
                      (append_ended inner
                        (λ state.
                          read fuel (position + want) (remaining - want) state.0
                            (comp_hash ++ chunk) state.1)
                        (inflate_ended fuel' chunk produced d (omega arith))
                        (λ state e.
                          read_from_ended fuel (position + want) (remaining - want) state.0
                            (comp_hash ++ chunk) state.1 (omega (arith, h, some_bytes))
                            (omega (
                              arith,
                              inflate_produced Z content total_size max_ratio segment fuel' chunk
                                  produced state.0 d state.1 e,
                              inflate_yields Z content total_size max_ratio segment fuel' chunk
                                  produced d k,
                            ))))
              ]
        ]

  check_stream_ended :
      (d : Decompressor) (comp_hash raw_hash : List ℕ)
      → has_ended (check_stream Z content total_size max_ratio segment d comp_hash raw_hash) ≡ true
  check_stream_ended d comp_hash raw_hash = elim (Bool-cases (Z.eof d)) [
    | inr a ↦ rw a refl
    | inl a ↦ elim (Bool-cases (is_empty (Z.unused_data d))) [
      | inr b ↦ rw (a, b) refl
      | inl b ↦ elim (Bool-cases (text_eq (Z.sha256 comp_hash) segment.compressed_sha256)) [
        | inr c ↦ rw (a, b, c) refl
        | inl c ↦ elim (Bool-cases (text_eq (Z.sha256 raw_hash) segment.uncompressed_sha256)) [
          | inr e ↦ rw (a, b, c, e) refl
          | inl e ↦ rw (a, b, c, e) refl
        ]
      ]
    ]
  ]

  flushed_ended :
      (raw_hash comp_hash : List ℕ) (produced : ℕ) (o : Option (List ℕ × Decompressor))
      → has_ended (flushed Z content total_size max_ratio segment raw_hash produced comp_hash o).1
        ≡ true
  flushed_ended raw_hash comp_hash produced none = refl
  flushed_ended raw_hash comp_hash produced (some (tail, d)) =
      elim (Bool-cases (produced + length tail == segment.uncompressed_size)) [
        | inr b ↦ rw b refl
        | inl b ↦
            rw
              (
                b,
                (yielded-yield_plain (Unit {0}) tail (
                  [],
                  check_stream Z content total_size max_ratio segment d comp_hash
                      (raw_hash ++ tail),
                )).1,
              )
              (check_stream_ended d comp_hash (raw_hash ++ tail))
      ]

  finish_reading_ended :
      (r : Reading (ℕ × List ℕ × Decompressor))
      → has_ended r.1 ≡ true
      → has_ended (finish_reading Z content total_size max_ratio segment r).1 ≡ true
  finish_reading_ended (chunks, done (p, hashed, d)) h =
      flushed_ended (joined chunks) hashed p (Z.flush d)
  finish_reading_ended (chunks, failed e) h = refl
  finish_reading_ended (chunks, endless) h = cc

-- Condition: the decompressor leaves no more than it was given, and only where it gave something. Then
-- every reading of a segment ends, with an error or without.
pub iter_uncompressed-total :
    (Z : Zlib) (content : List ℕ) (total_size max_ratio : ℕ) (segment : CopySegment)
    → IsProgressing Z
    → has_ended (iter_uncompressed Z content total_size max_ratio segment).1 ≡ true
unfolding iter_uncompressed
iter_uncompressed-total Z content total_size max_ratio segment P =
    elim (Bool-cases (ltb total_size (end_offset segment))) [
      | inl b ↦ rw (iter_uncompressed, b) refl
      | inr b ↦ elim (check_ratio-cases (check_ratio segment max_ratio)) [
        | inr (x, c) ↦ rw (iter_uncompressed, b, c) refl
        | inl c ↦ elim (Bool-cases (text_eq segment.compression (codes "zlib"))) [
          | inr k ↦ rw (iter_uncompressed, b, c, k) refl
          | inl k ↦
              rw (iter_uncompressed, b, c, k)
                (finish_reading_ended Z content total_size max_ratio segment _ (
                  read_from_ended Z content total_size max_ratio segment P segment.compressed_size
                    segment.offset segment.compressed_size 0 [] Z.decompressobj (omega arith)
                    (omega arith)))
        ]
      ]
    ]
