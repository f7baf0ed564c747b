-- ===== src/StorageSafety/Safe.antt =====
-- What the validation of a file reference promises (ppbase/core/storage_safety.py).
use ppbase.Prelude.{
  Str, Unicode, codes, text_eq, text_eq_iff, has_char, strip, ℕ, ◌≤◌, length, is_empty, List, [],
  ◌∷◌, Bool, true, false, Option, none, some, any, ◌≡◌, ◌≢◌, refl, All, arith, Bool-cases,
  Option-cases, inl, inr, ◌↔◌, ap,
}
use ppbase.Value.{text}
use ppbase.StorageSafety.Utf8.{encode}
use ppbase.StorageSafety.Component.{
  safe, file_limits, validate_text, validate_single_component, validate_file_reference,
  has_drive_prefix, check_bytes,
}

module _ (U : Unicode) where
  -- A file name that stays in its directory and that a file system can hold.
  pub record IsFileName (name : Str) : Type 0 where
    pub nonempty : name ≢ []
    pub trimmed : name ≡ strip U.is_space name
    pub not_here : name ≢ codes "."
    pub not_parent : name ≢ codes ".."
    pub no_separator : All (λ c. (c ≢ b'/') × (c ≢ b'\\')) name
    pub no_drive : has_drive_prefix name ≡ false
    pub no_control : All (λ c. U.is_control c ≡ false) name
    pub bytes : List ℕ
    pub encoded : encode name ≡ some bytes
    pub short : length bytes ≤ 255

any-All : (p : ℕ → Bool) (s : Str) → any p s ≡ false → All (λ c. p c ≡ false) s
unfolding any
any-All p [] h = tt
any-All p (c ∷ s) h = (ground arith, any-All p s (ground arith))

All-any : (p : ℕ → Bool) (s : Str) → All (λ c. p c ≡ false) s → any p s ≡ false
unfolding any
All-any p [] h = refl
All-any p (c ∷ s) h = ground (arith, h.0, All-any p s h.1)

All-map : {P Q : ℕ → Type 0} (s : Str) → ((c : ℕ) → P c → Q c) → All P s → All Q s
All-map [] f h = tt
All-map (c ∷ s) f h = (f c h.0, All-map s f h.1)

separator_iff : (c : ℕ) → (has_char (codes "/\\") c ≡ false) ↔ ((c ≢ b'/') × (c ≢ b'\\'))
unfolding has_char
separator_iff c = (λ h. (ground arith, ground arith), λ h. ground arith)

nonempty_test : (s : Str) → s ≢ [] → is_empty s ≡ false
nonempty_test [] h = absurd (h refl)
nonempty_test (c ∷ s) h = refl

text_eq_ne : (s t : Str) → s ≢ t → text_eq s t ≡ false
text_eq_ne s t h = elim (Bool-cases (text_eq s t)) [
  | inl e ↦ absurd (h ((text_eq_iff s t).0 e))
  | inr e ↦ e
]

-- Every test of `validate_text` at the limits of a file reference.
module _ (U : Unicode) (name : Str) where
  file_checks :
      (w : Str)
      → validate_text U file_limits name ≡ safe w
      → (w ≡ name)
        × (is_empty name ≡ false)
        × (text_eq name (strip U.is_space name) ≡ true)
        × (text_eq name (codes ".") ≡ false)
        × (text_eq name (codes "..") ≡ false)
        × (any (has_char (codes "/\\")) name ≡ false)
        × (has_drive_prefix name ≡ false)
        × (any U.is_control name ≡ false)
        × (check_bytes (some 255) name (encode name) ≡ safe w)
  unfolding validate_text
  file_checks w h = elim (Option-cases (encode name)) [
    | inl e ↦ ground arith
    | inr (b, e) ↦ ground arith
  ]

  check_bytes-safe :
      (w : Str) (e : Option (List ℕ))
      → check_bytes (some 255) name e ≡ safe w
      → (bytes : List ℕ) × (e ≡ some bytes) × (length bytes ≤ 255)
  check_bytes-safe w none h = absurd (ground arith)
  check_bytes-safe w (some bytes) h = (bytes, refl, ground arith)

  validate_text-IsFileName :
      (w : Str) → validate_text U file_limits name ≡ safe w → (w ≡ name) × IsFileName U name
  validate_text-IsFileName w h =
      let (same, nonempty, trimmed, here, parent, separators, drive, controls, end) =
        file_checks w h in
      let (bytes, encoded, short) = check_bytes-safe w (encode name) end in
      (
        same,
        record {
          nonempty = λ e. cc (ap (λ (s : Str). is_empty s) e);
          trimmed = (text_eq_iff name (strip U.is_space name)).0 trimmed;
          not_here = λ e. cc ((text_eq_iff name (codes ".")).1 e);
          not_parent = λ e. cc ((text_eq_iff name (codes "..")).1 e);
          no_separator =
              All-map name (λ c. (separator_iff c).0)
                (any-All (has_char (codes "/\\")) name separators);
          no_drive = drive;
          no_control = any-All U.is_control name controls;
          bytes = bytes;
          encoded = encoded;
          short = short;
        },
      )

  IsFileName-validate_text : IsFileName U name → validate_text U file_limits name ≡ safe name
  unfolding validate_text
  IsFileName-validate_text n =
      let end : check_bytes (some 255) name (encode name) ≡ safe name =
        rw n.encoded (ground (arith, n.short)) in
      ground (
        arith,
        end,
        nonempty_test name n.nonempty,
        (text_eq_iff name (strip U.is_space name)).1 n.trimmed,
        text_eq_ne name (codes ".") n.not_here,
        text_eq_ne name (codes "..") n.not_parent,
        All-any (has_char (codes "/\\")) name
            (All-map name (λ c. (separator_iff c).1) n.no_separator),
        n.no_drive,
        All-any U.is_control name n.no_control,
      )

-- A file reference is accepted, unchanged, exactly if it is a text that names a file: not empty,
-- trimmed, neither of the relative segments, with no separator, drive prefix or control character,
-- and at most 255 bytes in UTF-8.
pub validate_file_reference_iff :
    (U : Unicode) (F : Type 0) (name w : Str)
    → (validate_file_reference U {F = F} (text name) ≡ safe w) ↔ ((w ≡ name) × IsFileName U name)
unfolding validate_file_reference validate_single_component
validate_file_reference_iff U F name w =
    (validate_text-IsFileName U name w, λ h. rw h.0 (IsFileName-validate_text U name h.1))
