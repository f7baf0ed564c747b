-- ===== src/CopyFormat/Written.antt =====
-- A segment that the writer finishes (ppbase/backup/copy_format.py).
use ppbase.Prelude.{
  Str, ℕ, ◌+◌, length, length-append, List, [], ◌∷◌, ◌++◌, append_assoc, append-nil, true, ◌≡◌,
  refl, sym, ap, ◌∙◌, arith, Bool-cases, inl, inr,
}
use ppbase.Value.{ℤ, pos, Value, int, text}
use ppbase.CopyFormat.Result.{Result, ok, raises}
use ppbase.CopyFormat.Segment.{CopySegment, make_segment}
use ppbase.CopyFormat.Writer.{Platform, Writer, OpenSegment, Step, put, feed, feed_all, arguments}
use ppbase.CopyFormat.RoundTrip.{arguments_of, make_segment-arguments_of}
use ppbase.CopyFormat.Emitted.{IsAppending, deflate, emit_lem}
use ppbase.CopyFormat.Chunks.{joined}

pos-injective : {m n : ℕ} → ◌≡◌ {A = Value Unit} (int (pos m)) (int (pos n)) → m ≡ n
pos-injective h = cc

text-injective : {s t : Str} → ◌≡◌ {A = Value Unit} (text s) (text t) → s ≡ t
text-injective h = cc

module _ (P : Platform) where
  open P use {Sink, Compressor}

  -- What some operations on an open segment have done: the bytes they put into the file, and the
  -- bytes they were fed.
  pub record Progress (bytes raw : List ℕ) (w w' : Writer P) (o o' : OpenSegment P) : Type 0 where
    pub content : P.content w'.sink ≡ P.content w.sink ++ bytes
    pub written : w'.written ≡ w.written + length bytes
    pub is_open : w'.is_open ≡ w.is_open
    pub closed : w'.closed ≡ w.closed
    pub comp_hash : o'.comp_hash ≡ o.comp_hash ++ bytes
    pub compressed_size : o'.compressed_size ≡ o.compressed_size + length bytes
    pub raw_hash : o'.raw_hash ≡ o.raw_hash ++ raw
    pub uncompressed_size : o'.uncompressed_size ≡ o.uncompressed_size + length raw
    pub offset : o'.offset ≡ o.offset

  append_trans : (a b c xs ys : List ℕ) → b ≡ a ++ xs → c ≡ b ++ ys → c ≡ a ++ (xs ++ ys)
  append_trans a b c xs ys p q = q ∙ ap (λ (z : List ℕ). z ++ ys) p ∙ append_assoc a xs ys

  Progress-refl : (w : Writer P) (o : OpenSegment P) → Progress [] [] w w o o
  Progress-refl w o = record {
    content = sym (append-nil (P.content w.sink));
    written = omega arith;
    is_open = refl;
    closed = refl;
    comp_hash = sym (append-nil o.comp_hash);
    compressed_size = omega arith;
    raw_hash = sym (append-nil o.raw_hash);
    uncompressed_size = omega arith;
    offset = refl;
  }

  pub Progress-trans :
      (b b' r r' : List ℕ) (w w' w'' : Writer P) (o o' o'' : OpenSegment P)
      → Progress b r w w' o o'
      → Progress b' r' w' w'' o' o''
      → Progress (b ++ b') (r ++ r') w w'' o o''
  Progress-trans b b' r r' w w' w'' o o' o'' p q = record {
    content =
        append_trans (P.content w.sink) (P.content w'.sink) (P.content w''.sink) b b' p.content
          q.content;
    written = omega (arith, p.written, q.written, length-append b b');
    is_open = q.is_open ∙ p.is_open;
    closed = q.closed ∙ p.closed;
    comp_hash = append_trans o.comp_hash o'.comp_hash o''.comp_hash b b' p.comp_hash q.comp_hash;
    compressed_size = omega (arith, p.compressed_size, q.compressed_size, length-append b b');
    raw_hash = append_trans o.raw_hash o'.raw_hash o''.raw_hash r r' p.raw_hash q.raw_hash;
    uncompressed_size = omega (arith, p.uncompressed_size, q.uncompressed_size, length-append r r');
    offset = q.offset ∙ p.offset;
  }

  pub done-Progress :
      (bytes raw : List ℕ) (w w' : Writer P) (o o' : OpenSegment P)
      → Progress bytes raw w w' (record o { done = true }) o'
      → Progress bytes raw w w' o o'
  done-Progress bytes raw w w' o o' p = record {
    content = p.content;
    written = p.written;
    is_open = p.is_open;
    closed = p.closed;
    comp_hash = p.comp_hash;
    compressed_size = p.compressed_size;
    raw_hash = p.raw_hash;
    uncompressed_size = p.uncompressed_size;
    offset = p.offset;
  }

  module _ (A : IsAppending P) where
    pub put_lem :
        (bytes : List ℕ) (w w' : Writer P) (o o' : OpenSegment P) (u : Unit {0})
        → put P bytes w o ≡ (ok u, w', o')
        → Progress bytes [] w w' o o' × (o'.compressor ≡ o.compressor) × (o'.done ≡ o.done)
    unfolding put
    put_lem [] w w' o o' u h =
        rw
          (ap (λ (x : Step P (Unit {0})). x.1) (sym h), ap (λ (x : Step P (Unit {0})). x.2) (sym h))
          (Progress-refl w o, refl, refl)
    put_lem (c ∷ bytes) w w' o o' u h =
        let (content, writer) = emit_lem P A (c ∷ bytes) w w' u (λ i. ((h i).0, (h i).1)) in
        (
          record {
            content = content;
            written = λ i. (writer i).written;
            is_open = λ i. (writer i).is_open;
            closed = λ i. (writer i).closed;
            comp_hash = sym (λ i. (h i).2.comp_hash);
            compressed_size = sym (λ i. (h i).2.compressed_size);
            raw_hash = sym (λ i. (h i).2.raw_hash) ∙ sym (append-nil o.raw_hash);
            uncompressed_size = sym (λ i. (h i).2.uncompressed_size) ∙ omega arith;
            offset = sym (λ i. (h i).2.offset);
          },
          sym (λ i. (h i).2.compressor),
          sym (λ i. (h i).2.done),
        )

    -- Feeding a chunk that is not empty: the bytes are those that the compressor gives.
    feed_lem :
        (b : ℕ) (chunk : List ℕ) (w w' : Writer P) (o o' : OpenSegment P) (u : Unit {0})
        → feed P (b ∷ chunk) w o ≡ (ok u, w', o')
        → Progress (P.compress (b ∷ chunk) o.compressor).0 (b ∷ chunk) w w' o o'
          × (o'.compressor ≡ (P.compress (b ∷ chunk) o.compressor).1)
          × (o'.done ≡ o.done)
    unfolding feed
    feed_lem b chunk w w' o o' u h = elim (Bool-cases o.done) [
      | inl e ↦ absurd (ground (arith, e, h))
      | inr e ↦
          let (bytes, compressor) = P.compress (b ∷ chunk) o.compressor in
          let fed : OpenSegment P = record o {
            raw_hash = o.raw_hash ++ (b ∷ chunk);
            uncompressed_size = o.uncompressed_size + length (b ∷ chunk);
            compressor = compressor;
          } in
          let (p, q, r) = put_lem bytes w w' fed o' u (ground (arith, e, h)) in
          (
            record {
              content = p.content;
              written = p.written;
              is_open = p.is_open;
              closed = p.closed;
              comp_hash = p.comp_hash;
              compressed_size = p.compressed_size;
              raw_hash = p.raw_hash ∙ append-nil (o.raw_hash ++ (b ∷ chunk));
              uncompressed_size = omega (arith, p.uncompressed_size);
              offset = p.offset;
            },
            q,
            r,
          )
    ]

    fed_then :
        (b : ℕ) (chunk : List ℕ) (chunks : List (List ℕ)) (w w₁ w' : Writer P)
        (o o₁ o' : OpenSegment P) (u : Unit {0}) (result : Result (Unit {0}))
        → feed P (b ∷ chunk) w o ≡ (result, w₁, o₁)
        → (feed_all P chunks w₁ o₁ ≡ (ok u, w', o')
            → (bytes : List ℕ) × Progress bytes (joined chunks) w₁ w' o₁ o'
              × (bytes ++ P.flush o'.compressor ≡ deflate P o₁.compressor chunks)
              × (o'.done ≡ o₁.done))
        → elim result as (λ _. Step P (Unit {0})) [
          | ok _ ↦ feed_all P chunks w₁ o₁
          | raises e ↦ (raises e, w₁, o₁)
        ]
          ≡ (ok u, w', o')
        → (bytes : List ℕ) × Progress bytes ((b ∷ chunk) ++ joined chunks) w w' o o'
          × (bytes ++ P.flush o'.compressor
              ≡ (P.compress (b ∷ chunk) o.compressor).0
                ++ deflate P (P.compress (b ∷ chunk) o.compressor).1 chunks)
          × (o'.done ≡ o.done)
    fed_then b chunk chunks w w₁ w' o o₁ o' u (raises x) e ih h =
        let e₀ : raises x ≡ ok u = λ i. (h i).0 in cc e₀
    fed_then b chunk chunks w w₁ w' o o₁ o' u (ok v) e ih h =
        let (p, q, r) = feed_lem b chunk w w₁ o o₁ v e in
        let (bytes, p', end, done) = ih h in
        let first = (P.compress (b ∷ chunk) o.compressor).0 in
        (
          first ++ bytes,
          Progress-trans first bytes (b ∷ chunk) (joined chunks) w w₁ w' o o₁ o' p p',
          append_assoc first bytes (P.flush o'.compressor)
              ∙ ap (λ (x : List ℕ). first ++ x)
                  (end ∙ ap (λ (c : Compressor). deflate P c chunks) q),
          done ∙ r,
        )

    pub feed_all_lem :
        (chunks : List (List ℕ)) (w w' : Writer P) (o o' : OpenSegment P) (u : Unit {0})
        → feed_all P chunks w o ≡ (ok u, w', o')
        → (bytes : List ℕ) × Progress bytes (joined chunks) w w' o o'
          × (bytes ++ P.flush o'.compressor ≡ deflate P o.compressor chunks)
          × (o'.done ≡ o.done)
    unfolding feed_all joined deflate
    feed_all_lem [] w w' o o' u h =
        rw (sym (λ i. (h i).1), sym (λ i. (h i).2)) ([], Progress-refl w o, refl, refl)
    feed_all_lem ([] ∷ chunks) w w' o o' u h = elim (Bool-cases o.done) [
      | inl e ↦ absurd (unfold feed in ground (arith, e, h))
      | inr e ↦ feed_all_lem chunks w w' o o' u (unfold feed in ground (arith, e, h))
    ]
    feed_all_lem ((b ∷ chunk) ∷ chunks) w w' o o' u h =
        let (result, w₁, o₁) = feed P (b ∷ chunk) w o in
        fed_then b chunk chunks w w₁ w' o o₁ o' u result refl
          (λ k. feed_all_lem chunks w₁ w' o₁ o' u k) h

  -- What a segment says of the bytes that it was written from and of those in the file.
  pub record Describes (offset : ℕ) (bytes raw : List ℕ) (segment : CopySegment) : Type 0 where
    pub offset_of : segment.offset ≡ offset
    pub compressed_size_of : segment.compressed_size ≡ length bytes
    pub compressed_sha256_of : segment.compressed_sha256 ≡ P.sha256 bytes
    pub uncompressed_size_of : segment.uncompressed_size ≡ length raw
    pub uncompressed_sha256_of : segment.uncompressed_sha256 ≡ P.sha256 raw

  pub made_Describes :
      (row_count : ℤ) (o : OpenSegment P) (segment : CopySegment) (bytes raw : List ℕ)
      → make_segment (arguments P row_count o) ≡ ok segment
      → o.comp_hash ≡ bytes
      → o.raw_hash ≡ raw
      → o.compressed_size ≡ length bytes
      → o.uncompressed_size ≡ length raw
      → Describes o.offset bytes raw segment
  unfolding arguments_of
  made_Describes row_count o segment bytes raw h p q r t =
      let e = make_segment-arguments_of (arguments P row_count o) segment h in
      let offset = pos-injective (λ i. (e i).offset) in
      let csize = pos-injective (λ i. (e i).compressed_size) in
      let usize = pos-injective (λ i. (e i).uncompressed_size) in
      let csha = text-injective (λ i. (e i).compressed_sha256) in
      let usha = text-injective (λ i. (e i).uncompressed_sha256) in
      record {
        offset_of = sym offset;
        compressed_size_of = sym csize ∙ r;
        compressed_sha256_of = sym csha ∙ ap (λ (x : List ℕ). P.sha256 x) p;
        uncompressed_size_of = sym usize ∙ t;
        uncompressed_sha256_of = sym usha ∙ ap (λ (x : List ℕ). P.sha256 x) q;
      }
