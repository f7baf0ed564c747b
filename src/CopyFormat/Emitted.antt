-- ===== src/CopyFormat/Emitted.antt =====
-- What the writer has put into the file (ppbase/backup/copy_format.py).
use ppbase.Prelude.{
  ℕ, zero, suc, ◌+◌, length, take, drop, take-append-drop, List, [], ◌∷◌, ◌++◌, append_assoc,
  append-nil, Option, none, some, ◌≡◌, refl, ap, ◌∙◌,
}
use ppbase.CopyFormat.Result.{sink_refuses, Result, ok, raises}
use ppbase.CopyFormat.Writer.{Platform, Writer, emit_from, emit}

module _ (P : Platform) where
  open P use {Sink, Compressor}

  -- What `write` promises: the bytes that it says it took are behind the others.
  pub record IsAppending : Type 0 where
    pub taken :
        (bytes : List ℕ) (n : ℕ) (s s' : Sink)
        → P.write bytes s ≡ (some n, s')
        → P.content s' ≡ P.content s ++ take n bytes
    pub all_taken :
        (bytes : List ℕ) (s s' : Sink)
        → P.write bytes s ≡ (none, s')
        → P.content s' ≡ P.content s ++ bytes

  -- What the compressor gives for some chunks and its end: an empty chunk is not fed.
  unfoldable pub deflate : Compressor → List (List ℕ) → List ℕ
  deflate c [] = P.flush c
  deflate c ([] ∷ chunks) = deflate c chunks
  deflate c ((b ∷ chunk) ∷ chunks) =
      let (bytes, c') = P.compress (b ∷ chunk) c in bytes ++ deflate c' chunks

  module _ (A : IsAppending) where
    after_write :
        (b : ℕ) (bytes : List ℕ) (s s₁ s' : Sink) (u : Unit {0}) (written : Option ℕ)
        → P.write (b ∷ bytes) s ≡ (written, s₁)
        → ((n : ℕ)
            → emit_from P n bytes s₁ ≡ (ok u, s')
            → P.content s' ≡ P.content s₁ ++ drop n bytes)
        → elim written as (λ _. Result (Unit {0}) × Sink) [
          | none ↦ (ok tt, s₁)
          | some zero ↦ (raises sink_refuses, s₁)
          | some (suc n) ↦ emit_from P n bytes s₁
        ]
          ≡ (ok u, s')
        → P.content s' ≡ P.content s ++ (b ∷ bytes)
    after_write b bytes s s₁ s' u none e ih h = cc (A.all_taken (b ∷ bytes) s s₁ e)
    after_write b bytes s s₁ s' u (some zero) e ih h = cc
    after_write b bytes s s₁ s' u (some (suc n)) e ih h =
        ih n h
        ∙ ap (λ (x : List ℕ). x ++ drop n bytes) (A.taken (b ∷ bytes) (suc n) s s₁ e)
        ∙ append_assoc (P.content s) (b ∷ take n bytes) (drop n bytes)
        ∙ ap (λ (x : List ℕ). P.content s ++ (b ∷ x)) (take-append-drop n bytes)

    emit_from-content :
        (skip : ℕ) (bytes : List ℕ) (s s' : Sink) (u : Unit {0})
        → emit_from P skip bytes s ≡ (ok u, s')
        → P.content s' ≡ P.content s ++ drop skip bytes
    unfolding emit_from
    emit_from-content zero [] s s' u h = cc (append-nil (P.content s))
    emit_from-content (suc skip) [] s s' u h = cc (append-nil (P.content s))
    emit_from-content (suc skip) (b ∷ bytes) s s' u h = emit_from-content skip bytes s s' u h
    emit_from-content zero (b ∷ bytes) s s' u h =
        after_write b bytes s (P.write (b ∷ bytes) s).1 s' u (P.write (b ∷ bytes) s).0 refl
          (λ n k. emit_from-content n bytes (P.write (b ∷ bytes) s).1 s' u k) h

    emit_result :
        (bytes : List ℕ) (w w' : Writer P) (u : Unit {0}) (result : Result (Unit {0})) (s : Sink)
        → emit_from P 0 bytes w.sink ≡ (result, s)
        → elim result as (λ _. Result (Unit {0}) × Writer P) [
          | ok v ↦ (ok v, record w { sink = s; written = w.written + length bytes })
          | raises e ↦ (raises e, record w { sink = s })
        ]
          ≡ (ok u, w')
        → (P.content w'.sink ≡ P.content w.sink ++ bytes)
          × (w' ≡ record w { sink = w'.sink; written = w.written + length bytes })
    emit_result bytes w w' u (ok v) s e h = (cc (emit_from-content 0 bytes w.sink s v e), cc)
    emit_result bytes w w' u (raises x) s e h = cc

    -- An emission that does not raise appends the bytes and counts them.
    pub emit_lem :
        (bytes : List ℕ) (w w' : Writer P) (u : Unit {0})
        → emit P bytes w ≡ (ok u, w')
        → (P.content w'.sink ≡ P.content w.sink ++ bytes)
          × (w' ≡ record w { sink = w'.sink; written = w.written + length bytes })
    unfolding emit
    emit_lem bytes w w' u h =
        emit_result bytes w w' u (emit_from P 0 bytes w.sink).0 (emit_from P 0 bytes w.sink).1 refl
          h
