-- ===== src/StorageSafety/Component.antt =====
-- `_validate_single_component` and its callers (ppbase/core/storage_safety.py). A
-- `StorageSafetyError` is a constructor for each message.
use ppbase.Prelude.{
  Str, Unicode, codes, text_eq, has_char, strip, ℕ, ◌==◌, leb, ltb, length, is_empty, List, ◌∷◌,
  ◌++◌, Bool, true, false, ◌&&◌, ◌||◌, not, Option, none, some, any, if◌then◌else◌, ◌≡◌, refl, ◌⊎◌,
  inl, inr,
}
use ppbase.Value.{Value, text, null, bool, int, float, list, dict}
use ppbase.StorageSafety.Utf8.{encode, hex}

pub data Unsafe : Type 0 where
  not_text untrimmed relative separator drive control too_long invalid_utf8 too_many_bytes : Unsafe

pub data Checked : Type 0 where
  safe : Str → Checked
  rejected : Unsafe → Checked

pub Checked-cases :
    (c : Checked) → ((w : Str) × (c ≡ safe w)) ⊎ ((reason : Unsafe) × (c ≡ rejected reason))
Checked-cases (safe w) = inl (w, refl)
Checked-cases (rejected reason) = inr (reason, refl)

-- `raise` when the test holds
abbrev pub refuse : Bool → Unsafe → Checked → Checked
refuse b reason rest = if b then rejected reason else rest

abbrev pub is_drive_letter : ℕ → Bool
is_drive_letter c = (leb b'A' c && leb c b'Z') || (leb b'a' c && leb c b'z')

-- `_WINDOWS_DRIVE_PREFIX.match`
abbrev pub has_drive_prefix : Str → Bool
has_drive_prefix (c ∷ d ∷ _) = is_drive_letter c && d == b':'
has_drive_prefix _ = false

pub record Limits : Type 0 where
  pub max_length : Option ℕ
  pub max_utf8_bytes : Option ℕ
  pub reject_windows_drive_prefix : Bool

abbrev exceeds : Option ℕ → ℕ → Bool
exceeds none n = false
exceeds (some limit) n = ltb limit n

abbrev pub check_bytes : Option ℕ → Str → Option (List ℕ) → Checked
check_bytes none value encoded = safe value
check_bytes (some limit) value none = rejected invalid_utf8
check_bytes (some limit) value (some bytes) =
    refuse (ltb limit (length bytes)) too_many_bytes (safe value)

-- `validate_collection_id` and `validate_record_id` have the same limit.
abbrev pub id_limits : Limits
id_limits = record {
  max_length = some 15;
  max_utf8_bytes = none;
  reject_windows_drive_prefix = false;
}

abbrev pub file_limits : Limits
file_limits = record {
  max_length = none;
  max_utf8_bytes = some 255;
  reject_windows_drive_prefix = true;
}

module _ (U : Unicode) where
  unfoldable pub validate_text : Limits → Str → Checked
  validate_text limits value =
      refuse (is_empty value || not (text_eq value (strip U.is_space value))) untrimmed (
        refuse (text_eq value (codes ".") || text_eq value (codes "..")) relative (
          refuse (any (has_char (codes "/\\")) value) separator (
            refuse (limits.reject_windows_drive_prefix && has_drive_prefix value) drive (
              refuse (any U.is_control value) control (
                refuse (exceeds limits.max_length (length value)) too_long
                  (check_bytes limits.max_utf8_bytes value (encode value)))))))

  unfoldable pub validate_single_component : {F : Type 0} → Limits → Value F → Checked
  unfolding validate_text
  validate_single_component limits (text value) = validate_text limits value
  validate_single_component limits null = rejected not_text
  validate_single_component limits (bool _) = rejected not_text
  validate_single_component limits (int _) = rejected not_text
  validate_single_component limits (float _) = rejected not_text
  validate_single_component limits (list _) = rejected not_text
  validate_single_component limits (dict _) = rejected not_text

  unfoldable pub validate_collection_id : {F : Type 0} → Value F → Checked
  validate_collection_id value = validate_single_component id_limits value

  unfoldable pub validate_record_id : {F : Type 0} → Value F → Checked
  validate_record_id value = validate_single_component id_limits value

  unfoldable pub validate_file_reference : {F : Type 0} → Value F → Checked
  validate_file_reference value = validate_single_component file_limits value

-- `_POCKETBASE_STORAGE_ID_PATTERN`, of one character
abbrev pub is_id_char : ℕ → Bool
is_id_char c = c == b'_' || ((leb b'a' c && leb c b'z') || (leb b'0' c && leb c b'9'))

abbrev pub escape_prefix : Str
escape_prefix = codes "__ppbase_storage_id_v1__"

-- The name of a validated identifier; `none` is UnicodeEncodeError.
unfoldable pub name_of : Str → Option Str
name_of identifier =
    if not (is_empty identifier) && not (any (λ c. not (is_id_char c)) identifier)
    then some identifier
    else elim (encode identifier) [ none ↦ none | some bytes ↦ some (escape_prefix ++ hex bytes) ]

pub data LocalName : Type 0 where
  named : Str → LocalName
  refused : Unsafe → LocalName
  encode_error : LocalName

abbrev of_name : Option Str → LocalName
of_name none = encode_error
of_name (some name) = named name

abbrev of_checked : Checked → LocalName
of_checked (rejected reason) = refused reason
of_checked (safe identifier) = of_name (name_of identifier)

-- `local_storage_id_name`
unfoldable pub local_storage_id_name : Unicode → {F : Type 0} → Value F → LocalName
local_storage_id_name U value = of_checked (validate_single_component U id_limits value)
