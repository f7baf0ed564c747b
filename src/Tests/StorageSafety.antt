-- ===== src/Tests/StorageSafety.antt =====
-- Names of files and of records at concrete inputs.
use ppbase.Prelude.{
  codes, text_eq, strip, has_char, any, drop_while, ◌<◌, All, ◌≡◌, ◌↔◌, refl, arith,
}
use ppbase.Value.{text, list, nil}
use ppbase.Tests.Ascii.{ascii}
use ppbase.StorageSafety.Component.{
  safe, named, refused, not_text, validate_text, validate_single_component, validate_file_reference,
  name_of, local_storage_id_name,
}
use ppbase.StorageSafety.Utf8.{encode, utf8_char, hex, hex_digit}
use ppbase.StorageSafety.Safe.{IsFileName, validate_file_reference_iff}
use ppbase.StorageSafety.LocalName.{local_storage_id_name-injective}

ascii_name :
    local_storage_id_name ascii {F = Unit} (text (codes "abc_123")) ≡ named (codes "abc_123")
unfolding local_storage_id_name validate_single_component validate_text name_of text_eq strip
    has_char any drop_while encode utf8_char hex hex_digit
ascii_name = refl

escaped_name :
    local_storage_id_name ascii {F = Unit} (text (codes "ab:c"))
    ≡ named (codes "__ppbase_storage_id_v1__61623a63")
unfolding local_storage_id_name validate_single_component validate_text name_of text_eq strip
    has_char any drop_while encode utf8_char hex hex_digit
escaped_name = refl

no_name : local_storage_id_name ascii {F = Unit} (list nil) ≡ refused not_text
unfolding local_storage_id_name validate_single_component text_eq strip has_char any drop_while
    encode utf8_char hex hex_digit
no_name = refl

photo_accepted :
    validate_file_reference ascii {F = Unit} (text (codes "photo.png")) ≡ safe (codes "photo.png")
unfolding validate_file_reference validate_single_component validate_text text_eq strip has_char any
    drop_while encode utf8_char hex hex_digit
photo_accepted = refl

validate_file_reference_iff_example :
    (validate_file_reference ascii {F = Unit} (text (codes "photo.png")) ≡ safe (codes "photo.png"))
    ↔ ((codes "photo.png" ≡ codes "photo.png") × IsFileName ascii (codes "photo.png"))
validate_file_reference_iff_example =
    validate_file_reference_iff ascii Unit (codes "photo.png") (codes "photo.png")

chars : All (λ c. c < 0x110000) (codes "ab:c")
chars = (omega arith, (omega arith, (omega arith, (omega arith, tt))))

local_storage_id_name-injective_example : codes "ab:c" ≡ codes "ab:c"
local_storage_id_name-injective_example =
    local_storage_id_name-injective ascii Unit (codes "ab:c") (codes "ab:c")
      (codes "__ppbase_storage_id_v1__61623a63") chars chars escaped_name escaped_name
