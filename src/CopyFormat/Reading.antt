-- ===== src/CopyFormat/Reading.antt =====
-- The loop over the chunks of a segment (ppbase/backup/copy_format.py).
use ppbase.Prelude.{
  ℕ, zero, suc, ◌+◌, ◌-◌, ◌≤◌, ◌<◌, ◌==◌, length, length-append, take, drop, drop-drop,
  take-take-drop, List, [], ◌++◌, append-nil, append_assoc, ◌≡◌, ◌≢◌, ◌⊎◌, refl, sym, ap, ◌∙◌,
  arith, Bool-cases, inl, inr,
}
use ppbase.CopyFormat.Result.{data_ended}
use ppbase.CopyFormat.Segment.{CopySegment}
use ppbase.CopyFormat.Chunks.{joined, joined-append}
use ppbase.CopyFormat.Reader.{
  Zlib, Ending, done, failed, endless, Reading, chunk_size, min, append_reading, read_from,
  fuel_for,
}
use ppbase.CopyFormat.Inflation.{yielded, run, inflate_yields, inflate_produced}

done-injective : {A : Type 0} {a b : A} → done a ≡ done b → a ≡ b
done-injective h = cc

module _ (Z : Zlib) (content : List ℕ) (total_size max_ratio : ℕ) (segment : CopySegment) where
  open Z use {Decompressor}

  abbrev pub reading : ℕ → ℕ → ℕ → ℕ → List ℕ → Decompressor → Reading (ℕ × List ℕ × Decompressor)
  reading = read_from Z content total_size max_ratio segment

  abbrev and_then : {A B : Type 0} → Reading A → (A → Reading B) → Reading B
  and_then = append_reading Z content total_size max_ratio segment

  append_reading-done :
      (A B : Type 0) (r : Reading A) (f : A → Reading B) (a : A)
      → r.1 ≡ done a
      → and_then r f ≡ (r.0 ++ (f a).0, (f a).1)
  append_reading-done A B (chunks, done b) f a h =
      let same : b ≡ a = done-injective h in rw same refl
  append_reading-done A B (chunks, failed e) f a h = cc h
  append_reading-done A B (chunks, endless) f a h = cc h

  append_reading-failed :
      (A B : Type 0) (r : Reading A) (f : A → Reading B)
      → ((a : A) → r.1 ≢ done a)
      → (yielded (and_then r f) ≡ yielded r) × ((b : B) → (and_then r f).1 ≢ done b)
  append_reading-failed A B (chunks, done a) f h = absurd (h a refl)
  append_reading-failed A B (chunks, failed e) f h = (refl, λ b k. cc k)
  append_reading-failed A B (chunks, endless) f h = (refl, λ b k. cc k)

  Ending-cases : (A : Type 0) (e : Ending A) → ((a : A) × (e ≡ done a)) ⊎ ((a : A) → e ≢ done a)
  Ending-cases A (done a) = inl (a, refl)
  Ending-cases A (failed x) = inr (λ a k. cc k)
  Ending-cases A endless = inr (λ a k. cc k)

  abbrev want_of : ℕ → ℕ
  want_of remaining = min chunk_size remaining

  abbrev chunk_of : ℕ → ℕ → List ℕ
  chunk_of position remaining = take (want_of remaining) (drop position content)

  abbrev inflated : ℕ → ℕ → ℕ → Decompressor → Reading (ℕ × Decompressor)
  inflated position remaining produced d =
      run Z content total_size max_ratio segment
        (fuel_for Z content total_size max_ratio segment (chunk_of position remaining) produced)
        (chunk_of position remaining) produced d

  -- What one turn of the loop over the chunks does.
  data Turn (fuel position remaining produced : ℕ) (comp_hash : List ℕ) (d : Decompressor)
      : Type 0 where
    ended :
        remaining ≡ 0
        → reading (suc fuel) position remaining produced comp_hash d
          ≡ ([], done (produced, comp_hash, d))
        → Turn fuel position remaining produced comp_hash d
    stopped :
        reading (suc fuel) position remaining produced comp_hash d ≡ ([], failed data_ended)
        → Turn fuel position remaining produced comp_hash d
    continued :
        0 < remaining
        → length (chunk_of position remaining) ≡ want_of remaining
        → reading (suc fuel) position remaining produced comp_hash d
          ≡ and_then (inflated position remaining produced d) (λ (state : ℕ × Decompressor).
            reading fuel
              (position + want_of remaining)
              (remaining - want_of remaining)
              state.0
              (comp_hash ++ chunk_of position remaining)
              state.1)
        → Turn fuel position remaining produced comp_hash d

  turn :
      (fuel position remaining produced : ℕ) (comp_hash : List ℕ) (d : Decompressor)
      → Turn fuel position remaining produced comp_hash d
  unfolding read_from
  turn fuel position remaining produced comp_hash d = elim (Bool-cases (remaining == 0)) [
    | inl z ↦ ended (ground (arith, z)) (rw (read_from, z) refl)
    | inr z ↦ elim (Bool-cases (length (chunk_of position remaining) == want_of remaining)) [
      | inl w ↦ continued (ground (arith, z)) (ground (arith, w)) (rw (read_from, z, w) refl)
      | inr w ↦ stopped (rw (read_from, z, w) refl)
    ]
  ]

  -- However the reading ends, no more than the recorded size is yielded.
  pub read_from_yields :
      (fuel position remaining produced : ℕ) (comp_hash : List ℕ) (d : Decompressor)
      → produced ≤ segment.uncompressed_size
      → produced + yielded (reading fuel position remaining produced comp_hash d)
        ≤ segment.uncompressed_size
  unfolding joined
  read_from_yields zero position remaining produced comp_hash d h = unfold read_from in omega arith
  read_from_yields (suc fuel) position remaining produced comp_hash d h =
      elim (turn fuel position remaining produced comp_hash d) [
        | ended z k ↦ rw k (omega arith)
        | stopped k ↦ rw k (omega arith)
        | continued z w k ↦
            let first = inflated position remaining produced d in
            let bound =
              inflate_yields Z content total_size max_ratio segment
                (fuel_for Z content total_size max_ratio segment (chunk_of position remaining)
                  produced)
                (chunk_of position remaining) produced d h in
            rw k (elim (Ending-cases (ℕ × Decompressor) first.1) [
              | inr bad ↦
                  rw
                    (append_reading-failed (ℕ × Decompressor) (ℕ × List ℕ × Decompressor) first _
                      bad).0
                    bound
              | inl ((p, d'), e) ↦
                  let counted =
                    inflate_produced Z content total_size max_ratio segment
                      (fuel_for Z content total_size max_ratio segment (chunk_of position remaining)
                        produced)
                      (chunk_of position remaining) produced p d d' e in
                  let rest =
                    reading fuel (position + want_of remaining) (remaining - want_of remaining) p
                      (comp_hash ++ chunk_of position remaining) d' in
                  rw
                    (
                      append_reading-done (ℕ × Decompressor) (ℕ × List ℕ × Decompressor) first _
                          (p, d') e,
                      joined-append first.0 rest.0,
                    )
                    (omega (
                      arith,
                      length-append (joined first.0) (joined rest.0),
                      counted,
                      bound,
                      read_from_yields fuel (position + want_of remaining)
                          (remaining - want_of remaining) p
                          (comp_hash ++ chunk_of position remaining) d'
                          (omega (arith, counted, bound)),
                    ))
            ])
      ]

  -- The parts of what is to be read
  taken :
      (position remaining : ℕ)
      → chunk_of position remaining
          ++ take (remaining - want_of remaining) (drop (position + want_of remaining) content)
        ≡ take remaining (drop position content)
  taken position remaining =
      let want = want_of remaining in
      let whole : want + (remaining - want) ≡ remaining = ground arith in
      ap (λ (x : List ℕ). chunk_of position remaining ++ take (remaining - want) x)
        (sym (drop-drop position want content))
      ∙ take-take-drop want (remaining - want) (drop position content)
      ∙ ap (λ (n : ℕ). take n (drop position content)) whole

  nothing_read :
      (position remaining produced p : ℕ) (comp_hash hashed : List ℕ) (d d' : Decompressor)
      → remaining ≡ 0
      → ◌≡◌ {A = Ending (ℕ × List ℕ × Decompressor)}
          (done (produced, comp_hash, d))
          (done (p, hashed, d'))
      → (p ≡ produced + 0)
        × (hashed ≡ comp_hash ++ take remaining (drop position content))
        × (length (take remaining (drop position content)) ≡ remaining)
  nothing_read position remaining produced p comp_hash hashed d d' z h =
      let t = done-injective h in
      rw z (sym (λ i. (t i).0) ∙ omega arith, sym (λ i. (t i).1) ∙ sym (append-nil comp_hash), refl)

  -- A reading that is done has counted what it yielded and hashed all that it was to read.
  pub read_from_done :
      (fuel position remaining produced p : ℕ) (comp_hash hashed : List ℕ) (d d' : Decompressor)
      → (reading fuel position remaining produced comp_hash d).1 ≡ done (p, hashed, d')
      → (p ≡ produced + yielded (reading fuel position remaining produced comp_hash d))
        × (hashed ≡ comp_hash ++ take remaining (drop position content))
        × (length (take remaining (drop position content)) ≡ remaining)
  unfolding joined
  read_from_done zero position remaining produced p comp_hash hashed d d' h =
      unfold read_from in
      elim (Bool-cases (remaining == 0)) [
        | inl z ↦
            nothing_read position remaining produced p comp_hash hashed d d' (ground (arith, z))
              (ground (arith, z, h))
        | inr z ↦ absurd (ground (arith, z, h))
      ]
  read_from_done (suc fuel) position remaining produced p comp_hash hashed d d' h =
      elim (turn fuel position remaining produced comp_hash d) [
        | ended z k ↦ rw k (
            nothing_read position remaining produced p comp_hash hashed d d' z
              (sym (λ i. (k i).1) ∙ h))
        | stopped k ↦
            absurd
              (let e : failed data_ended ≡ done (p, hashed, d') = sym (λ i. (k i).1) ∙ h in cc e)
        | continued z w k ↦
            let first = inflated position remaining produced d in
            rw k (elim (Ending-cases (ℕ × Decompressor) first.1) [
              | inr bad ↦ absurd (
                  (append_reading-failed (ℕ × Decompressor) (ℕ × List ℕ × Decompressor) first _
                      bad).1
                    (p, hashed, d') (sym (λ i. (k i).1) ∙ h))
              | inl ((p₀, d₀), e) ↦
                  let chunk = chunk_of position remaining in
                  let want = want_of remaining in
                  let rest =
                    reading fuel (position + want) (remaining - want) p₀ (comp_hash ++ chunk) d₀ in
                  let moved =
                    append_reading-done (ℕ × Decompressor) (ℕ × List ℕ × Decompressor) first
                      (λ (state : ℕ × Decompressor).
                        reading fuel (position + want) (remaining - want) state.0
                          (comp_hash ++ chunk) state.1)
                      (p₀, d₀) e in
                  let (counted, all, long) =
                    read_from_done fuel (position + want) (remaining - want) p₀ p
                      (comp_hash ++ chunk) hashed d₀ d'
                      (sym (λ i. (moved i).1) ∙ sym (λ i. (k i).1) ∙ h) in
                  let start =
                    inflate_produced Z content total_size max_ratio segment
                      (fuel_for Z content total_size max_ratio segment chunk produced) chunk
                      produced p₀ d d₀ e in
                  let later = take (remaining - want) (drop (position + want) content) in
                  (
                    rw (moved, joined-append first.0 rest.0)
                        (omega
                          (arith, length-append (joined first.0) (joined rest.0), counted, start)),
                    all
                        ∙ append_assoc comp_hash chunk later
                        ∙ ap (λ (x : List ℕ). comp_hash ++ x) (taken position remaining),
                    ap (λ (x : List ℕ). length x) (sym (taken position remaining))
                        ∙ length-append chunk later
                        ∙ ground (arith, long, w),
                  )
            ])
      ]
