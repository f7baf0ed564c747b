-- ===== src/Tests/CopyFormat.antt =====
-- The container of backups at concrete inputs: a compressor that adds one byte at the end of the
-- stream, a file that takes two bytes at a time, and a hash that is the same for all.
use ppbase.Prelude.{
  Str, codes, text_eq, contains, has_char, any, ℕ, suc, ◌+◌, ◌-◌, ◌≤◌, ◌==◌, ltb, length, take,
  drop, take_while, List, [], ◌∷◌, ◌++◌, append-nil, Bool, false, not, Option, none, some,
  if◌then◌else◌, ◌≡◌, ◌↔◌, refl, sym, ◌∙◌, All, arith,
}
use ppbase.Value.{pos, Value, int, text, dict}
use ppbase.Tests.Ascii.{ascii}
use ppbase.StorageSafety.Utf8.{encode, utf8_char}
use ppbase.CopyFormat.Result.{
  Result, ok, raises, over_budget, driver_error, size_mismatch, duplicate_column, inflates_past,
}
use ppbase.CopyFormat.Chunks.{joined}
use ppbase.CopyFormat.Segment.{
  CopySegment, Arguments, make_segment, from_dict, to_dict, texts_of, is_identifier, is_sha256,
  validate_identifier, validate_non_negative_int, validate_sha256, validate_compression,
  validate_columns,
}
use ppbase.CopyFormat.RoundTrip.{from_dict-to_dict_of_make_segment}
use ppbase.CopyFormat.Layout.{
  validate_segment_layout, check_from, check_ratio, owners, total_uncompressed, IsWithinRatio,
  validate_segment_layout-owners,
}
use ppbase.CopyFormat.Writer.{
  Platform, Writer, segment_writer, emit_from, emit, begin_segment, put, feed, finish, feed_all,
  write_segment,
}
use ppbase.CopyFormat.Emitted.{IsAppending}
use ppbase.CopyFormat.Export.{
  split_at, nonempty, parse_copy_row_count, quoted_columns, export_query, export_table_segment,
  export_tables,
}
use ppbase.CopyFormat.Exported.{slice, export_tables-validate_segment_layout}
use ppbase.CopyFormat.Reader.{
  Zlib, Reading, done, failed, endless, inflate, read_from, iter_uncompressed,
}
use ppbase.CopyFormat.Inflation.{yielded}
use ppbase.CopyFormat.Verified.{iter_uncompressed_done, iter_uncompressed_bounded}
use ppbase.Prelude.{
  ◌<◌, is_empty, true, ap, take-append-drop, length-append, length-drop, Bool-cases, inl, inr,
}
use ppbase.CopyFormat.Ended.{has_ended, iter_uncompressed-total}
use ppbase.CopyFormat.Import.{import_table_segment, import_table_segment_ok, IsDraining}

abbrev hash : Str
hash = codes "0123456789abcdef0123456789abcdef0123456789abcdef0123456789abcdef"

-- One segment of a table
abbrev segment_at : Str → ℕ → ℕ → ℕ → CopySegment
segment_at table offset compressed uncompressed = record {
  table = table;
  columns = codes "id" ∷ codes "name" ∷ [];
  offset = offset;
  compressed_size = compressed;
  compressed_sha256 = hash;
  uncompressed_size = uncompressed;
  uncompressed_sha256 = hash;
  row_count = 2;
  compression = codes "zlib";
}

abbrev users : CopySegment
users = segment_at (codes "users") 0 5 4

abbrev posts : CopySegment
posts = segment_at (codes "posts") 5 3 2

abbrev arguments : Arguments Unit
arguments = record {
  table = text (codes "users");
  columns = text (codes "id") ∷ text (codes "name") ∷ [];
  offset = int (pos 0);
  compressed_size = int (pos 5);
  compressed_sha256 = text hash;
  uncompressed_size = int (pos 4);
  uncompressed_sha256 = text hash;
  row_count = int (pos 2);
  compression = text (codes "zlib");
}

made : make_segment arguments ≡ ok users
unfolding make_segment validate_identifier is_identifier any encode utf8_char validate_columns
    contains text_eq validate_non_negative_int validate_sha256 is_sha256 validate_compression
made = refl

repeated :
    make_segment (record arguments { columns = text (codes "id") ∷ text (codes "id") ∷ [] })
    ≡ raises duplicate_column
unfolding make_segment validate_identifier is_identifier any encode utf8_char validate_columns
    contains text_eq
repeated = refl

from_dict-to_dict_of_make_segment_example : from_dict {F = Unit} (dict (to_dict users)) ≡ ok users
from_dict-to_dict_of_make_segment_example =
    from_dict-to_dict_of_make_segment Unit arguments users made

layout : validate_segment_layout 8 10 200 (users ∷ posts ∷ []) ≡ ok (users ∷ posts ∷ [])
unfolding validate_segment_layout check_from check_ratio
layout = refl

beyond_budget : validate_segment_layout 8 5 200 (users ∷ posts ∷ []) ≡ raises over_budget
unfolding validate_segment_layout check_from check_ratio
beyond_budget = refl

validate_segment_layout-owners_example :
    ((users ∷ posts ∷ []) ≡ (users ∷ posts ∷ []))
    × (owners (users ∷ posts ∷ []) 6 ≡ (if ltb 6 8 then 1 else 0))
    × (total_uncompressed (users ∷ posts ∷ []) ≤ 10)
    × All (IsWithinRatio 200) (users ∷ posts ∷ [])
validate_segment_layout-owners_example =
    validate_segment_layout-owners 8 10 200 (users ∷ posts ∷ []) (users ∷ posts ∷ []) 6 layout

-- At most two bytes at a time
abbrev write : List ℕ → List ℕ → Option ℕ × List ℕ
write [] s = (some 0, s)
write (b ∷ []) s = (some 1, s ++ (b ∷ []))
write (b ∷ c ∷ _) s = (some 2, s ++ (b ∷ c ∷ []))

abbrev platform : Platform
platform = record {
  Sink = List ℕ;
  write = write;
  content = λ s. s;
  Compressor = Unit;
  compressobj = tt;
  compress = λ bytes c. (bytes, c);
  flush = λ c. b'!' ∷ [];
  sha256 = λ bytes. hash;
}

write_taken :
    (bytes : List ℕ) (n : ℕ) (s s' : List ℕ) → write bytes s ≡ (some n, s') → s' ≡ s ++ take n bytes
write_taken [] n s s' h =
    let e : some 0 ≡ some n = λ i. (h i).0 in
    let k : 0 ≡ n = cc e in rw (← k) (sym (λ i. (h i).1) ∙ sym (append-nil s))
write_taken (b ∷ []) n s s' h =
    let e : some 1 ≡ some n = λ i. (h i).0 in let k : 1 ≡ n = cc e in rw (← k) (sym (λ i. (h i).1))
write_taken (b ∷ c ∷ bytes) n s s' h =
    let e : some 2 ≡ some n = λ i. (h i).0 in let k : 2 ≡ n = cc e in rw (← k) (sym (λ i. (h i).1))

write_not_all : (bytes : List ℕ) (s s' : List ℕ) → write bytes s ≡ (none, s') → s' ≡ s ++ bytes
write_not_all [] s s' h = let e : some 0 ≡ none = λ i. (h i).0 in cc e
write_not_all (b ∷ []) s s' h = let e : some 1 ≡ none = λ i. (h i).0 in cc e
write_not_all (b ∷ c ∷ bytes) s s' h = let e : some 2 ≡ none = λ i. (h i).0 in cc e

platform-IsAppending : IsAppending platform
platform-IsAppending = record { taken = write_taken; all_taken = write_not_all }

-- A table of two rows
abbrev rows : List (List ℕ)
rows = codes "ab" ∷ [] ∷ codes "cd" ∷ []

abbrev query_rows : Str → ℕ → List (List ℕ) × Option (Value Unit) × ℕ
query_rows query c = (rows, some (text (codes "COPY 2")), suc c)

abbrev one_digit : Str → Option ℕ
one_digit (d ∷ []) = some (d - b'0')
one_digit _ = none

abbrev empty_file : Writer platform
empty_file = segment_writer platform []

abbrev one_segment : Writer platform
one_segment = record { sink = codes "abcd!"; written = 5; closed = false; is_open = false }

abbrev two_segments : Writer platform
two_segments = record { sink = codes "abcd!abcd!"; written = 10; closed = false; is_open = false }

written :
    write_segment platform (codes "users") (codes "id" ∷ codes "name" ∷ []) rows (pos 2) empty_file
    ≡ (ok users, one_segment)
unfolding write_segment begin_segment feed_all feed finish put emit emit_from make_segment
    validate_identifier is_identifier any encode utf8_char validate_columns contains text_eq
    validate_non_negative_int validate_sha256 is_sha256 validate_compression texts_of
written = refl

abbrev tables : List (Str × List Str)
tables =
    (codes "users", codes "id" ∷ codes "name" ∷ [])
    ∷ (codes "posts", codes "id" ∷ codes "name" ∷ [])
    ∷ []

abbrev segments : List CopySegment
segments = users ∷ segment_at (codes "posts") 5 5 4 ∷ []

exported :
    export_tables platform ascii one_digit ℕ query_rows tables empty_file 0
    ≡ (ok segments, two_segments, 2)
unfolding export_tables export_table_segment export_query quoted_columns parse_copy_row_count
    split_at nonempty begin_segment feed_all feed finish put emit emit_from make_segment
    validate_identifier is_identifier any encode utf8_char validate_columns contains text_eq
    validate_non_negative_int validate_sha256 is_sha256 validate_compression texts_of
exported = refl

export_tables-validate_segment_layout_example :
    (length (codes "abcd!abcd!") ≡ 10)
    × ((validate_segment_layout 10 8 200 segments ≡ ok segments)
        ↔ (All (IsWithinRatio 200) segments × (total_uncompressed segments ≤ 8)))
    × All (λ s. hash ≡ s.compressed_sha256) segments
export_tables-validate_segment_layout_example =
    export_tables-validate_segment_layout platform ascii one_digit ℕ query_rows 8 200 tables []
      two_segments 0 2 segments platform-IsAppending refl exported

-- The decompressor of that format: what it leaves unread, and whether it has met the end
abbrev decompress : List ℕ → ℕ → List ℕ × Bool → Option (List ℕ × (List ℕ × Bool))
decompress pending limit (tail, finished) =
    let plain = take_while (λ c. not (c == b'!')) pending in
    if ltb limit (length plain)
    then some (take limit plain, (drop limit pending, false))
    else some (plain, ([], has_char pending b'!'))

abbrev zlib : Zlib
zlib = record {
  Decompressor = List ℕ × Bool;
  decompressobj = ([], false);
  decompress = decompress;
  unconsumed_tail = λ d. d.0;
  flush = λ d. some ([], d);
  eof = λ d. d.1;
  unused_data = λ d. [];
  sha256 = λ bytes. hash;
}

abbrev read : CopySegment → Reading (Unit {0})
read = iter_uncompressed zlib (codes "abcd!abcd!") 10 200

whole_read : read users ≡ (codes "abcd" ∷ [], done tt)
unfolding iter_uncompressed check_ratio read_from inflate joined text_eq take_while has_char
whole_read = refl

too_long : read (segment_at (codes "users") 0 5 3) ≡ ([], failed inflates_past)
unfolding iter_uncompressed check_ratio read_from inflate joined text_eq take_while has_char
too_long = refl

too_short : read (segment_at (codes "users") 0 5 5) ≡ (codes "abcd" ∷ [], failed size_mismatch)
unfolding iter_uncompressed check_ratio read_from inflate joined text_eq take_while has_char
too_short = refl

iter_uncompressed_done_example :
    (length (joined (codes "abcd" ∷ [])) ≡ 4)
    × (hash ≡ hash)
    × (length (slice users (codes "abcd!abcd!")) ≡ 5)
    × (hash ≡ hash)
iter_uncompressed_done_example =
    iter_uncompressed_done zlib (codes "abcd!abcd!") 10 200 users (codes "abcd" ∷ []) whole_read

iter_uncompressed_bounded_example : yielded (read (segment_at (codes "users") 0 5 3)) ≤ 3
iter_uncompressed_bounded_example =
    iter_uncompressed_bounded zlib (codes "abcd!abcd!") 10 200 (segment_at (codes "users") 0 5 3)

-- PostgreSQL counts the rows it is given.
abbrev copy_rows : Str → List Str → Str → Reading (Unit {0}) → ℕ → Result (Value Unit) × ℕ
copy_rows table columns schema (chunks, done _) c = (ok (text (codes "COPY 2")), suc c)
copy_rows table columns schema (chunks, failed e) c = (raises e, c)
copy_rows table columns schema (chunks, endless) c = (raises driver_error, c)

copy_rows-IsDraining : IsDraining ascii one_digit ℕ copy_rows
copy_rows-IsDraining table columns schema (chunks, done _) c c' status h = refl
copy_rows-IsDraining table columns schema (chunks, failed e) c c' status h =
    let k : raises e ≡ ok status = λ i. (h i).0 in cc k
copy_rows-IsDraining table columns schema (chunks, endless) c c' status h =
    let k : raises driver_error ≡ ok status = λ i. (h i).0 in cc k

imported :
    import_table_segment ascii one_digit ℕ copy_rows read users (codes "public") 0 ≡ (ok tt, 1)
unfolding import_table_segment validate_identifier is_identifier any encode utf8_char
    parse_copy_row_count split_at nonempty iter_uncompressed check_ratio read_from inflate joined
    text_eq take_while has_char
imported = refl

import_table_segment_ok_example :
    (status : Value Unit) × (copy_rows
        (codes "users")
        (codes "id" ∷ codes "name" ∷ [])
        (codes "public")
        (read users)
        0
      ≡ (ok status, 1))
    × (parse_copy_row_count ascii one_digit status ≡ ok 2)
    × (length (joined (read users).0) ≡ 4)
    × (hash ≡ hash)
    × (length (slice users (codes "abcd!abcd!")) ≡ 5)
    × (hash ≡ hash)
import_table_segment_ok_example =
    import_table_segment_ok ascii one_digit ℕ copy_rows zlib (codes "abcd!abcd!") 10 200 users
      (codes "public") 0 1 copy_rows-IsDraining imported

take_pos : (n : ℕ) (xs : List ℕ) → n + 1 < length xs → 0 < length (take (n + 1) xs)
take_pos n xs h =
    let whole : length (take (n + 1) xs ++ drop (n + 1) xs) ≡ length xs =
      ap (λ (l : List ℕ). length l) (take-append-drop (n + 1) xs) in
    omega
      (arith, h, whole, length-append (take (n + 1) xs) (drop (n + 1) xs), length-drop (n + 1) xs)

abbrev Decompressed : Type 0
Decompressed = Option (List ℕ × (List ℕ × Bool))

parts :
    (a c t u : List ℕ) (b d : Bool)
    → ◌≡◌ {A = Decompressed} (some (a, (t, b))) (some (c, (u, d)))
    → (t ≡ u) × (a ≡ c)
parts a c t u b d h = (cc h, cc h)

-- The part that is left is what stands behind the limit.
zlib_given :
    (pending plain : List ℕ) (limit : ℕ) (d d' : List ℕ × Bool)
    → decompress pending (limit + 1) d ≡ some (plain, d')
    → is_empty d'.0 ≡ false
    → (length d'.0 ≤ length pending) × (0 < length plain)
zlib_given pending plain limit (tail, finished) (tail', finished') h t =
    let data_of = take_while (λ c. not (c == b'!')) pending in
    elim (Bool-cases (ltb (limit + 1) (length data_of))) [
      | inl b ↦
          let (left, gave) =
            parts (take (limit + 1) data_of) plain (drop (limit + 1) pending) tail' false finished'
              (ground (arith, b, h)) in
          rw (← left, ← gave)
            (
              omega (arith, length-drop (limit + 1) pending),
              take_pos limit data_of (ground (arith, b)),
            )
      | inr b ↦
          let (left, _) =
            parts data_of plain [] tail' (has_char pending b'!') finished' (ground (arith, b, h)) in
          absurd (cc (left, t))
    ]

iter_uncompressed-total_example : has_ended (read users).1 ≡ true
iter_uncompressed-total_example =
    iter_uncompressed-total zlib (codes "abcd!abcd!") 10 200 users (record { given = zlib_given })
