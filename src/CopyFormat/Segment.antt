-- ===== src/CopyFormat/Segment.antt =====
-- `CopySegment` with its validators, `to_dict` and `from_dict` (ppbase/backup/copy_format.py).
use ppbase.Prelude.{
  Str, codes, text_eq, contains, ℕ, ◌+◌, ◌==◌, leb, ltb, length, is_empty, List, [], ◌∷◌, Bool,
  false, ◌&&◌, ◌||◌, not, Option, none, some, any, if◌then◌else◌,
}
use ppbase.Value.{
  pos, negsuc, Value, Items, Fields, nil, cons, end, field, null, bool, int, float, text, list,
  dict, get,
}
use ppbase.StorageSafety.Utf8.{encode}
use ppbase.CopyFormat.Result.{
  invalid_identifier, long_identifier, invalid_int, invalid_hash, no_columns, duplicate_column,
  unsupported_compression, unknown_fields, columns_not_array, type_error, Result, ok, raises, ◌>>=◌,
  ◌>>◌, raise_if,
}

abbrev is_letter : ℕ → Bool
is_letter c = (leb b'a' c && leb c b'z') || (leb b'A' c && leb c b'Z') || c == b'_'

abbrev is_digit : ℕ → Bool
is_digit c = leb b'0' c && leb c b'9'

-- `_IDENTIFIER_PATTERN.fullmatch`
unfoldable pub is_identifier : Str → Bool
is_identifier [] = false
is_identifier (c ∷ s) = is_letter c && not (any (λ d. not (is_letter d || is_digit d)) s)

abbrev is_hex : ℕ → Bool
is_hex c = is_digit c || (leb b'a' c && leb c b'f')

-- `_SHA256_PATTERN.fullmatch`
unfoldable pub is_sha256 : Str → Bool
is_sha256 s = length s == 64 && not (any (λ c. not (is_hex c)) s)

abbrev check_length : Option (List ℕ) → Str → Result Str
check_length none value = raises type_error
check_length (some bytes) value = if ltb 63 (length bytes) then raises long_identifier else ok value

abbrev identifier : Str → Result Str
identifier value =
    if is_identifier value then check_length (encode value) value else raises invalid_identifier

module _ {F : Type 0} where
  unfoldable pub validate_identifier : Value F → Result Str
  validate_identifier (text value) = identifier value
  validate_identifier null = raises invalid_identifier
  validate_identifier (bool _) = raises invalid_identifier
  validate_identifier (int _) = raises invalid_identifier
  validate_identifier (float _) = raises invalid_identifier
  validate_identifier (list _) = raises invalid_identifier
  validate_identifier (dict _) = raises invalid_identifier

  unfoldable pub validate_non_negative_int : Value F → Result ℕ
  validate_non_negative_int (int (pos n)) = ok n
  validate_non_negative_int (int (negsuc _)) = raises invalid_int
  validate_non_negative_int null = raises invalid_int
  validate_non_negative_int (bool _) = raises invalid_int
  validate_non_negative_int (text _) = raises invalid_int
  validate_non_negative_int (float _) = raises invalid_int
  validate_non_negative_int (list _) = raises invalid_int
  validate_non_negative_int (dict _) = raises invalid_int

  unfoldable pub validate_sha256 : Value F → Result Str
  validate_sha256 (text value) = if is_sha256 value then ok value else raises invalid_hash
  validate_sha256 null = raises invalid_hash
  validate_sha256 (bool _) = raises invalid_hash
  validate_sha256 (int _) = raises invalid_hash
  validate_sha256 (float _) = raises invalid_hash
  validate_sha256 (list _) = raises invalid_hash
  validate_sha256 (dict _) = raises invalid_hash

  -- `self.compression not in _SUPPORTED_COMPRESSION`; a list or a dictionary cannot be in a set.
  unfoldable pub validate_compression : Value F → Result Str
  validate_compression (text value) =
      if text_eq value (codes "zlib") then ok value else raises unsupported_compression
  validate_compression null = raises unsupported_compression
  validate_compression (bool _) = raises unsupported_compression
  validate_compression (int _) = raises unsupported_compression
  validate_compression (float _) = raises unsupported_compression
  validate_compression (list _) = raises type_error
  validate_compression (dict _) = raises type_error

  -- The loop over the columns, with the names that are seen
  unfoldable pub validate_columns : List Str → List (Value F) → Result (List Str)
  validate_columns seen [] = ok []
  validate_columns seen (column ∷ columns) = do
    name ← validate_identifier column
    raise_if (contains seen name) duplicate_column
    names ← validate_columns (name ∷ seen) columns
    ok (name ∷ names)

pub record CopySegment : Type 0 where
  pub table : Str
  pub columns : List Str
  pub offset : ℕ
  pub compressed_size : ℕ
  pub compressed_sha256 : Str
  pub uncompressed_size : ℕ
  pub uncompressed_sha256 : Str
  pub row_count : ℕ
  pub compression : Str

abbrev pub end_offset : CopySegment → ℕ
end_offset s = s.offset + s.compressed_size

-- What the constructor is called with
pub record Arguments (F : Type 0) : Type 0 where
  pub table : Value F
  pub columns : List (Value F)
  pub offset : Value F
  pub compressed_size : Value F
  pub compressed_sha256 : Value F
  pub uncompressed_size : Value F
  pub uncompressed_sha256 : Value F
  pub row_count : Value F
  pub compression : Value F

abbrev expected : List Str
expected =
    codes "table"
    ∷ codes "columns"
    ∷ codes "offset"
    ∷ codes "compressed_size"
    ∷ codes "compressed_sha256"
    ∷ codes "uncompressed_size"
    ∷ codes "uncompressed_sha256"
    ∷ codes "row_count"
    ∷ codes "compression"
    ∷ []

-- `set(value) == expected`
unfoldable pub same_keys : List Str → List Str → Bool
same_keys found wanted =
    not (any (λ k. not (contains wanted k)) found) && not (any (λ k. not (contains found k)) wanted)

module _ {F : Type 0} where
  -- `__post_init__`
  unfoldable pub make_segment : Arguments F → Result CopySegment
  make_segment a = do
    table ← validate_identifier a.table
    raise_if (is_empty a.columns) no_columns
    columns ← validate_columns [] a.columns
    offset ← validate_non_negative_int a.offset
    compressed_size ← validate_non_negative_int a.compressed_size
    uncompressed_size ← validate_non_negative_int a.uncompressed_size
    row_count ← validate_non_negative_int a.row_count
    compressed_sha256 ← validate_sha256 a.compressed_sha256
    uncompressed_sha256 ← validate_sha256 a.uncompressed_sha256
    compression ← validate_compression a.compression
    ok (record {
      table = table;
      columns = columns;
      offset = offset;
      compressed_size = compressed_size;
      compressed_sha256 = compressed_sha256;
      uncompressed_size = uncompressed_size;
      uncompressed_sha256 = uncompressed_sha256;
      row_count = row_count;
      compression = compression;
    })

  -- The texts of the columns as values
  unfoldable pub texts_of : List Str → List (Value F)
  texts_of [] = []
  texts_of (c ∷ cs) = text c ∷ texts_of cs

  -- `list(self.columns)`
  unfoldable pub column_items : List Str → Items F
  column_items [] = nil
  column_items (c ∷ cs) = cons (text c) (column_items cs)

  unfoldable pub to_dict : CopySegment → Fields F
  to_dict s = field (codes "table") (text s.table) (
      field (codes "columns") (list (column_items s.columns)) (
        field (codes "offset") (int (pos s.offset)) (
          field (codes "compressed_size") (int (pos s.compressed_size)) (
            field (codes "compressed_sha256") (text s.compressed_sha256) (
              field (codes "uncompressed_size") (int (pos s.uncompressed_size)) (
                field (codes "uncompressed_sha256") (text s.uncompressed_sha256) (
                  field (codes "row_count") (int (pos s.row_count))
                    (field (codes "compression") (text s.compression) end))))))))

  unfoldable pub keys : Fields F → List Str
  keys end = []
  keys (field name _ fields) = name ∷ keys fields

  unfoldable pub item_list : Items F → List (Value F)
  item_list nil = []
  item_list (cons v vs) = v ∷ item_list vs

  -- `value[key]`, behind the test of the keys
  abbrev at : Str → Fields F → Value F
  at key fields = elim (get key fields) [ none ↦ null | some v ↦ v ]

  abbrev columns_of : Value F → Result (List (Value F))
  columns_of (list columns) = ok (item_list columns)
  columns_of _ = raises columns_not_array

  abbrev of_fields : Fields F → Result CopySegment
  of_fields fields = do
    raise_if (not (same_keys (keys fields) expected)) unknown_fields
    columns ← columns_of (at (codes "columns") fields)
    make_segment (record {
      table = at (codes "table") fields;
      columns = columns;
      offset = at (codes "offset") fields;
      compressed_size = at (codes "compressed_size") fields;
      compressed_sha256 = at (codes "compressed_sha256") fields;
      uncompressed_size = at (codes "uncompressed_size") fields;
      uncompressed_sha256 = at (codes "uncompressed_sha256") fields;
      row_count = at (codes "row_count") fields;
      compression = at (codes "compression") fields;
    })

  unfoldable pub from_dict : Value F → Result CopySegment
  from_dict (dict fields) = of_fields fields
  from_dict _ = raises unknown_fields
