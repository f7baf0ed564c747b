-- ===== src/CopyFormat/Layout.antt =====
-- `validate_segment_layout` (ppbase/backup/copy_format.py)
use ppbase.Prelude.{
  ℕ, ◌+◌, ◌*◌, ◌≤◌, ◌==◌, leb, ltb, List, [], ◌∷◌, not, ◌&&◌, All, if◌then◌else◌, ◌≡◌, arith,
  Bool-cases, inl, inr,
}
use ppbase.CopyFormat.Result.{
  not_contiguous, length_overflow, past_the_end, over_budget, not_covered, empty_claims_data,
  over_ratio, Result, ok, ◌>>◌, raise_if, bind-eq-ok, raise_if-eq-ok,
}
use ppbase.CopyFormat.Segment.{CopySegment, end_offset}

abbrev pub default_max_ratio : ℕ
default_max_ratio = 200

abbrev pub default_max_total : ℕ
default_max_total = 64 * 1_073_741_824

unfoldable pub check_ratio : CopySegment → ℕ → Result (Unit {0})
check_ratio s max_ratio =
    if s.compressed_size == 0
    then raise_if (not (s.uncompressed_size == 0)) empty_claims_data
    else raise_if (ltb (s.compressed_size * max_ratio) s.uncompressed_size) over_ratio

module _ (total_size max_total_uncompressed max_ratio : ℕ) where
  -- The loop, with `cursor` and `total_uncompressed`, and the test behind it
  unfoldable pub check_from : ℕ → ℕ → List CopySegment → Result (Unit {0})
  check_from cursor total [] = raise_if (not (cursor == total_size)) not_covered
  check_from cursor total (s ∷ segments) = do
    raise_if (not (s.offset == cursor)) not_contiguous
    raise_if (ltb (end_offset s) s.offset) length_overflow
    raise_if (ltb total_size (end_offset s)) past_the_end
    check_ratio s max_ratio
    raise_if (ltb max_total_uncompressed (total + s.uncompressed_size)) over_budget
    check_from (end_offset s) (total + s.uncompressed_size) segments

  unfoldable pub validate_segment_layout : List CopySegment → Result (List CopySegment)
  validate_segment_layout segments = do check_from 0 0 segments; ok segments

-- How many segments hold the byte at a position.
unfoldable pub owners : List CopySegment → ℕ → ℕ
owners [] p = 0
owners (s ∷ segments) p =
    (if leb s.offset p && ltb p (end_offset s) then 1 else 0) + owners segments p

unfoldable pub total_uncompressed : List CopySegment → ℕ
total_uncompressed [] = 0
total_uncompressed (s ∷ segments) = s.uncompressed_size + total_uncompressed segments

abbrev pub IsWithinRatio : ℕ → CopySegment → Type 0
IsWithinRatio max_ratio s = s.uncompressed_size ≤ s.compressed_size * max_ratio

check_ratio-IsWithinRatio :
    (s : CopySegment) (max_ratio : ℕ) (u : Unit {0})
    → check_ratio s max_ratio ≡ ok u
    → IsWithinRatio max_ratio s
unfolding check_ratio
check_ratio-IsWithinRatio s max_ratio u h = elim (Bool-cases (s.compressed_size == 0)) [
  | inl e ↦
      let z =
        raise_if-eq-ok (not (s.uncompressed_size == 0)) empty_claims_data u
          (ground (arith, e, h)) in
      ground (arith, e, z)
  | inr e ↦
      let z =
        raise_if-eq-ok (ltb (s.compressed_size * max_ratio) s.uncompressed_size) over_ratio u
          (ground (arith, e, h)) in
      ground (arith, z)
]

IsWithinRatio-check_ratio :
    (s : CopySegment) (max_ratio : ℕ) → IsWithinRatio max_ratio s → check_ratio s max_ratio ≡ ok tt
unfolding check_ratio
IsWithinRatio-check_ratio s max_ratio h = elim (Bool-cases (s.compressed_size == 0)) [
  | inl e ↦ let none : s.uncompressed_size ≡ 0 = ground arith in ground (arith, e, none)
  | inr e ↦ ground (arith, e, h)
]

-- A turn of the loop that meets every test goes on.
pub check_from-step :
    (total_size budget max_ratio total : ℕ) (s : CopySegment) (segments : List CopySegment)
    → end_offset s ≤ total_size
    → IsWithinRatio max_ratio s
    → total + s.uncompressed_size ≤ budget
    → check_from total_size budget max_ratio s.offset total (s ∷ segments)
      ≡ check_from total_size budget max_ratio (end_offset s) (total + s.uncompressed_size) segments
unfolding check_from
check_from-step total_size budget max_ratio total s segments inside ratio budgeted =
    ground (arith, IsWithinRatio-check_ratio s max_ratio ratio)

module _ (total_size budget max_ratio : ℕ) where
  -- One turn of the loop that passes
  check_from-cons :
      (cursor total : ℕ) (s : CopySegment) (segments : List CopySegment) (u : Unit {0})
      → check_from total_size budget max_ratio cursor total (s ∷ segments) ≡ ok u
      → (s.offset ≡ cursor)
        × (end_offset s ≤ total_size)
        × IsWithinRatio max_ratio s
        × (total + s.uncompressed_size ≤ budget)
        × (check_from total_size budget max_ratio
              (end_offset s)
              (total + s.uncompressed_size)
              segments
            ≡ ok u)
  unfolding check_from
  check_from-cons cursor total s segments u h =
      let (u0, p0, h0) = bind-eq-ok (raise_if (not (s.offset == cursor)) not_contiguous) _ u h in
      let (u1, p1, h1) =
        bind-eq-ok (raise_if (ltb (end_offset s) s.offset) length_overflow) _ u h0 in
      let (u2, p2, h2) =
        bind-eq-ok (raise_if (ltb total_size (end_offset s)) past_the_end) _ u h1 in
      let (u3, p3, h3) = bind-eq-ok (check_ratio s max_ratio) _ u h2 in
      let (u4, p4, h4) =
        bind-eq-ok (raise_if (ltb budget (total + s.uncompressed_size)) over_budget) _ u h3 in
      (
        ground (arith, raise_if-eq-ok (not (s.offset == cursor)) not_contiguous u0 p0),
        ground (arith, raise_if-eq-ok (ltb total_size (end_offset s)) past_the_end u2 p2),
        check_ratio-IsWithinRatio s max_ratio u3 p3,
        ground (arith, raise_if-eq-ok (ltb budget (total + s.uncompressed_size)) over_budget u4 p4),
        h4,
      )

  check_from-owners :
      (cursor total : ℕ) (segments : List CopySegment) (u : Unit {0}) (p : ℕ)
      → total ≤ budget
      → check_from total_size budget max_ratio cursor total segments ≡ ok u
      → (cursor ≤ total_size)
        × (owners segments p ≡ (if leb cursor p && ltb p total_size then 1 else 0))
        × (total + total_uncompressed segments ≤ budget)
        × All (IsWithinRatio max_ratio) segments
  unfolding owners total_uncompressed
  check_from-owners cursor total [] u p k h =
      let e = raise_if-eq-ok (not (cursor == total_size)) not_covered u (unfold check_from in h) in
      (ground (arith, e), ground (arith, e), omega arith, tt)
  check_from-owners cursor total (s ∷ segments) u p k h =
      let (start, inside, ratio, budgeted, rest) = check_from-cons cursor total s segments u h in
      let (below, owned, summed, later) =
        check_from-owners (end_offset s) (total + s.uncompressed_size) segments u p budgeted rest in
      (omega arith, ground (arith, start, below, owned), omega arith, (ratio, later))

-- Condition: the layout of the segments is accepted for a data file. Then they are returned as they
-- are, every byte of the file is in exactly one segment and no other position is in any, no segment
-- inflates beyond the ratio, and all of them together inflate within the budget.
pub validate_segment_layout-owners :
    (total_size budget max_ratio : ℕ) (segments accepted : List CopySegment) (p : ℕ)
    → validate_segment_layout total_size budget max_ratio segments ≡ ok accepted
    → (accepted ≡ segments)
      × (owners segments p ≡ (if ltb p total_size then 1 else 0))
      × (total_uncompressed segments ≤ budget)
      × All (IsWithinRatio max_ratio) segments
unfolding validate_segment_layout
validate_segment_layout-owners total_size budget max_ratio segments accepted p h =
    let (u, checked, same) =
      bind-eq-ok (check_from total_size budget max_ratio 0 0 segments) _ accepted h in
    let (_, owned, summed, ratio) =
      check_from-owners total_size budget max_ratio 0 0 segments u p (omega arith) checked in
    (cc, ground (arith, owned), omega arith, ratio)
