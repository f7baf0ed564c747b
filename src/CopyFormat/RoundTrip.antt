-- ===== src/CopyFormat/RoundTrip.antt =====
-- `from_dict` after `to_dict` (ppbase/backup/copy_format.py).
use ppbase.Prelude.{
  Str, text_eq, contains, ℕ, List, [], ◌∷◌, is_empty, any, ◌≡◌, refl, sym, ap, ◌∙◌, arith,
  Option-cases, inl, inr,
}
use ppbase.Value.{pos, negsuc, Value, null, bool, int, float, text, list, dict, get}
use ppbase.StorageSafety.Utf8.{encode}
use ppbase.CopyFormat.Result.{ok, raise_if, bind-eq-ok, ok-injective, no_columns, duplicate_column}
use ppbase.CopyFormat.Segment.{
  CopySegment, Arguments, validate_identifier, validate_non_negative_int, validate_sha256,
  validate_compression, validate_columns, make_segment, texts_of, to_dict, from_dict, column_items,
  item_list, same_keys, keys,
}

module _ {F : Type 0} where
  validate_identifier-text : (v : Value F) (s : Str) → validate_identifier v ≡ ok s → v ≡ text s
  unfolding validate_identifier
  validate_identifier-text (text value) s h = elim (Option-cases (encode value)) [
    | inl e ↦ absurd (ground (arith, e, h))
    | inr (bytes, e) ↦ ground (arith, e, h)
  ]
  validate_identifier-text null s h = cc
  validate_identifier-text (bool _) s h = cc
  validate_identifier-text (int _) s h = cc
  validate_identifier-text (float _) s h = cc
  validate_identifier-text (list _) s h = cc
  validate_identifier-text (dict _) s h = cc

  validate_non_negative_int-int :
      (v : Value F) (n : ℕ) → validate_non_negative_int v ≡ ok n → v ≡ int (pos n)
  unfolding validate_non_negative_int
  validate_non_negative_int-int (int (pos m)) n h = cc
  validate_non_negative_int-int (int (negsuc _)) n h = cc
  validate_non_negative_int-int (text _) n h = cc
  validate_non_negative_int-int null n h = cc
  validate_non_negative_int-int (bool _) n h = cc
  validate_non_negative_int-int (float _) n h = cc
  validate_non_negative_int-int (list _) n h = cc
  validate_non_negative_int-int (dict _) n h = cc

  validate_sha256-text : (v : Value F) (s : Str) → validate_sha256 v ≡ ok s → v ≡ text s
  unfolding validate_sha256
  validate_sha256-text (text value) s h = ground arith
  validate_sha256-text null s h = cc
  validate_sha256-text (bool _) s h = cc
  validate_sha256-text (int _) s h = cc
  validate_sha256-text (float _) s h = cc
  validate_sha256-text (list _) s h = cc
  validate_sha256-text (dict _) s h = cc

  validate_compression-text : (v : Value F) (s : Str) → validate_compression v ≡ ok s → v ≡ text s
  unfolding validate_compression
  validate_compression-text (text value) s h = ground arith
  validate_compression-text null s h = cc
  validate_compression-text (bool _) s h = cc
  validate_compression-text (int _) s h = cc
  validate_compression-text (float _) s h = cc
  validate_compression-text (list _) s h = cc
  validate_compression-text (dict _) s h = cc

  validate_columns-texts :
      (seen : List Str) (columns : List (Value F)) (names : List Str)
      → validate_columns seen columns ≡ ok names
      → columns ≡ texts_of names
  unfolding validate_columns texts_of
  validate_columns-texts seen [] names h = ground arith
  validate_columns-texts seen (v ∷ vs) names h =
      let (name, named, rest) = bind-eq-ok (validate_identifier v) _ names h in
      let (u, fresh, more) =
        bind-eq-ok (raise_if (contains seen name) duplicate_column) _ names rest in
      let (later, k, same) = bind-eq-ok (validate_columns (name ∷ seen) vs) _ names more in
      cc (validate_identifier-text v name named, validate_columns-texts (name ∷ seen) vs later k)

  unfoldable pub arguments_of : CopySegment → Arguments F
  arguments_of s = record {
    table = text s.table;
    columns = texts_of s.columns;
    offset = int (pos s.offset);
    compressed_size = int (pos s.compressed_size);
    compressed_sha256 = text s.compressed_sha256;
    uncompressed_size = int (pos s.uncompressed_size);
    uncompressed_sha256 = text s.uncompressed_sha256;
    row_count = int (pos s.row_count);
    compression = text s.compression;
  }

  Arguments-eq :
      (a b : Arguments F)
      → a.table ≡ b.table
      → a.columns ≡ b.columns
      → a.offset ≡ b.offset
      → a.compressed_size ≡ b.compressed_size
      → a.compressed_sha256 ≡ b.compressed_sha256
      → a.uncompressed_size ≡ b.uncompressed_size
      → a.uncompressed_sha256 ≡ b.uncompressed_sha256
      → a.row_count ≡ b.row_count
      → a.compression ≡ b.compression
      → a ≡ b
  Arguments-eq a b p q r t u v w x y = λ i. record {
    table = p i;
    columns = q i;
    offset = r i;
    compressed_size = t i;
    compressed_sha256 = u i;
    uncompressed_size = v i;
    uncompressed_sha256 = w i;
    row_count = x i;
    compression = y i;
  }

  pub make_segment-arguments_of :
      (a : Arguments F) (s : CopySegment) → make_segment a ≡ ok s → a ≡ arguments_of s
  unfolding make_segment arguments_of
  make_segment-arguments_of a s h =
      let (table, p0, h0) = bind-eq-ok (validate_identifier a.table) _ s h in
      let (u, p1, h1) = bind-eq-ok (raise_if (is_empty a.columns) no_columns) _ s h0 in
      let (columns, p2, h2) = bind-eq-ok (validate_columns [] a.columns) _ s h1 in
      let (offset, p3, h3) = bind-eq-ok (validate_non_negative_int a.offset) _ s h2 in
      let (csize, p4, h4) = bind-eq-ok (validate_non_negative_int a.compressed_size) _ s h3 in
      let (usize, p5, h5) = bind-eq-ok (validate_non_negative_int a.uncompressed_size) _ s h4 in
      let (rows, p6, h6) = bind-eq-ok (validate_non_negative_int a.row_count) _ s h5 in
      let (csha, p7, h7) = bind-eq-ok (validate_sha256 a.compressed_sha256) _ s h6 in
      let (usha, p8, h8) = bind-eq-ok (validate_sha256 a.uncompressed_sha256) _ s h7 in
      let (compression, p9, h9) = bind-eq-ok (validate_compression a.compression) _ s h8 in
      let same = ok-injective h9 in
      rw (← same) (
        Arguments-eq a _ (validate_identifier-text a.table table p0)
          (validate_columns-texts [] a.columns columns p2)
          (validate_non_negative_int-int a.offset offset p3)
          (validate_non_negative_int-int a.compressed_size csize p4)
          (validate_sha256-text a.compressed_sha256 csha p7)
          (validate_non_negative_int-int a.uncompressed_size usize p5)
          (validate_sha256-text a.uncompressed_sha256 usha p8)
          (validate_non_negative_int-int a.row_count rows p6)
          (validate_compression-text a.compression compression p9))

  item_list-column_items : (cs : List Str) → item_list {F = F} (column_items cs) ≡ texts_of cs
  unfolding item_list column_items texts_of
  item_list-column_items [] = refl
  item_list-column_items (c ∷ cs) = rw (item_list-column_items cs) refl

from_dict-to_dict :
    (F : Type 0) (s : CopySegment)
    → from_dict {F = F} (dict (to_dict s)) ≡ make_segment {F = F} (arguments_of s)
unfolding from_dict to_dict get keys same_keys text_eq contains any arguments_of
from_dict-to_dict F s = rw (item_list-column_items {F = F} s.columns) refl

-- Condition: a segment was made, from any arguments. Then reading what `to_dict` writes of it makes
-- the same segment.
pub from_dict-to_dict_of_make_segment :
    (F : Type 0) (a : Arguments F) (s : CopySegment)
    → make_segment a ≡ ok s
    → from_dict {F = F} (dict (to_dict s)) ≡ ok s
from_dict-to_dict_of_make_segment F a s h =
    from_dict-to_dict F s
    ∙ ap (λ (b : Arguments F). make_segment b) (sym (make_segment-arguments_of a s h))
    ∙ h
