-- ===== src/CopyFormat/Inflation.antt =====
-- How much the reader yields (ppbase/backup/copy_format.py).
use ppbase.Prelude.{
  ℕ, zero, suc, ◌+◌, ◌-◌, ◌≤◌, ltb, false, length, length-append, is_empty, List, [], ◌∷◌, some,
  ◌≡◌, refl, sym, ◌∙◌, arith, Bool-cases, Option-cases, inl, inr,
}
use ppbase.CopyFormat.Result.{Fault, inflates_past, not_zlib}
use ppbase.CopyFormat.Segment.{CopySegment}
use ppbase.CopyFormat.Chunks.{joined}
use ppbase.CopyFormat.Reader.{Zlib, Ending, done, failed, Reading, yield_plain, inflate}

-- The bytes that a reading yields
abbrev pub yielded : {A : Type 0} → Reading A → ℕ
yielded r = length (joined r.0)

pub yielded-yield_plain :
    (A : Type 0) (plain : List ℕ) (r : Reading A)
    → (yielded (yield_plain plain r) ≡ length plain + yielded r) × ((yield_plain plain r).1 ≡ r.1)
unfolding joined
yielded-yield_plain A [] r = (omega arith, refl)
yielded-yield_plain A (b ∷ plain) r = (omega (arith, length-append plain (joined r.0)), refl)

done-injective :
    {D : Type 0} {m n : ℕ} {c d : D} → ◌≡◌ {A = Ending (ℕ × D)} (done (m, c)) (done (n, d)) → m ≡ n
done-injective h = cc

module _ (Z : Zlib) (content : List ℕ) (total_size max_ratio : ℕ) (segment : CopySegment) where
  open Z use {Decompressor}

  abbrev pub size : ℕ
  size = segment.uncompressed_size

  abbrev pub run : ℕ → List ℕ → ℕ → Decompressor → Reading (ℕ × Decompressor)
  run = inflate Z content total_size max_ratio segment

  -- What one turn of the loop does.
  pub data Turn (fuel : ℕ) (pending : List ℕ) (produced : ℕ) (d : Decompressor) : Type 0 where
    stopped :
        (e : Fault)
        → run (suc fuel) pending produced d ≡ ([], failed e)
        → Turn fuel pending produced d
    finished :
        (plain : List ℕ) (d' : Decompressor)
        → produced + length plain ≤ size
        → run (suc fuel) pending produced d
          ≡ yield_plain plain ([], done (produced + length plain, d'))
        → Turn fuel pending produced d
    continued :
        (plain : List ℕ) (d' : Decompressor)
        → produced + length plain ≤ size
        → Z.decompress pending (size - produced + 1) d ≡ some (plain, d')
        → is_empty (Z.unconsumed_tail d') ≡ false
        → run (suc fuel) pending produced d
          ≡ yield_plain plain (run fuel (Z.unconsumed_tail d') (produced + length plain) d')
        → Turn fuel pending produced d

  pub turn :
      (fuel : ℕ) (pending : List ℕ) (produced : ℕ) (d : Decompressor) → Turn fuel pending produced d
  unfolding inflate
  turn fuel pending produced d =
      elim (Option-cases (Z.decompress pending (size - produced + 1) d)) [
        | inl e ↦ stopped not_zlib (rw (inflate, e) refl)
        | inr ((plain, d'), e) ↦ elim (Bool-cases (ltb size (produced + length plain))) [
          | inl b ↦ stopped inflates_past (rw (inflate, e, b) refl)
          | inr b ↦ elim (Bool-cases (is_empty (Z.unconsumed_tail d'))) [
            | inl t ↦ finished plain d' (ground (arith, b)) (rw (inflate, e, b, t) refl)
            | inr t ↦ continued plain d' (ground (arith, b)) e t (rw (inflate, e, b, t) refl)
          ]
        ]
      ]

  pub inflate_yields :
      (fuel : ℕ) (pending : List ℕ) (produced : ℕ) (d : Decompressor)
      → produced ≤ size
      → produced + yielded (run fuel pending produced d) ≤ size
  unfolding joined
  inflate_yields zero pending produced d h = unfold inflate in omega arith
  inflate_yields (suc fuel) pending produced d h = elim (turn fuel pending produced d) [
    | stopped e k ↦ rw k (omega arith)
    | finished plain d' b k ↦ rw k (
        omega (
          arith,
          (yielded-yield_plain (ℕ × Decompressor) plain ([], done (produced + length plain, d'))).0,
        ))
    | continued plain d' b e t k ↦
        let rest = run fuel (Z.unconsumed_tail d') (produced + length plain) d' in
        rw k (
          omega (
            arith,
            (yielded-yield_plain (ℕ × Decompressor) plain rest).0,
            inflate_yields fuel (Z.unconsumed_tail d') (produced + length plain) d' b,
          ))
  ]

  pub inflate_produced :
      (fuel : ℕ) (pending : List ℕ) (produced p : ℕ) (d d' : Decompressor)
      → (run fuel pending produced d).1 ≡ done (p, d')
      → p ≡ produced + yielded (run fuel pending produced d)
  unfolding joined
  inflate_produced zero pending produced p d d' h = unfold inflate in cc h
  inflate_produced (suc fuel) pending produced p d d' h = elim (turn fuel pending produced d) [
    | stopped e k ↦ (let q : failed e ≡ done (p, d') = sym (λ i. (k i).1) ∙ h in cc q)
    | finished plain d'' b k ↦
        let (counted, ends) =
          yielded-yield_plain (ℕ × Decompressor) plain ([], done (produced + length plain, d'')) in
        let same = done-injective (sym ends ∙ sym (λ i. (k i).1) ∙ h) in
        rw k (omega (arith, counted, same))
    | continued plain d'' b e t k ↦
        let rest = run fuel (Z.unconsumed_tail d'') (produced + length plain) d'' in
        let (counted, ends) = yielded-yield_plain (ℕ × Decompressor) plain rest in
        let same =
          inflate_produced fuel (Z.unconsumed_tail d'') (produced + length plain) p d'' d'
            (sym ends ∙ sym (λ i. (k i).1) ∙ h) in
        rw k (omega (arith, counted, same))
  ]
