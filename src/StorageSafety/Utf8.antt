-- ===== src/StorageSafety/Utf8.antt =====
-- `str.encode("utf-8")` and `bytes.hex()`, as ppbase/core/storage_safety.py uses them.
use mathlib.Core.Path.{ap₂}
use mathlib.Core.Option.{some-injective}
use ppbase.Prelude.{
  ◌≢◌, Option-cases, Bool-cases, inl, inr, sym, ◌∙◌, All-append, Str, ℕ, ◌+◌, ◌/◌, ◌%◌, ◌<◌, ◌≡◌,
  refl, List, [], ◌∷◌, ◌++◌, Bool, ◌&&◌, Option, none, some, leb, ltb, arith, All, if◌then◌else◌,
  ap,
}

-- A surrogate cannot be encoded.
abbrev pub is_surrogate : ℕ → Bool
is_surrogate c = leb 0xd800 c && leb c 0xdfff

-- The bytes of one code point.
unfoldable pub utf8_char : ℕ → List ℕ
utf8_char c =
    if ltb c 0x80
    then c ∷ []
    else if ltb c 0x800
    then (0xc0 + c / 64) ∷ (0x80 + c % 64) ∷ []
    else if ltb c 0x10000
    then (0xe0 + c / 4096) ∷ (0x80 + c / 64 % 64) ∷ (0x80 + c % 64) ∷ []
    else (0xf0 + c / 262144) ∷ (0x80 + c / 4096 % 64) ∷ (0x80 + c / 64 % 64) ∷ (0x80 + c % 64) ∷ []

-- `s.encode("utf-8")`; `none` is UnicodeEncodeError.
unfoldable pub encode : Str → Option (List ℕ)
encode [] = some []
encode (c ∷ s) =
    let rest = encode s in
    if is_surrogate c
    then none
    else elim rest [ none ↦ none | some bytes ↦ some (utf8_char c ++ bytes) ]

unfoldable pub hex_digit : ℕ → ℕ
hex_digit n = if ltb n 10 then 48 + n else 87 + n

-- `bytes.hex()`
unfoldable pub hex : List ℕ → Str
hex [] = []
hex (b ∷ bytes) = hex_digit (b / 16) ∷ hex_digit (b % 16) ∷ hex bytes

-- A code point
abbrev pub IsChar : ℕ → Type 0
IsChar c = c < 0x110000

pub utf8_char_injective :
    (c d : ℕ) (x y : List ℕ)
    → IsChar c
    → IsChar d
    → utf8_char c ++ x ≡ utf8_char d ++ y
    → (c ≡ d) × (x ≡ y)
unfolding utf8_char
utf8_char_injective c d x y h k e = ground arith

utf8_char_nonempty : (c : ℕ) (b : List ℕ) → utf8_char c ++ b ≢ []
unfolding utf8_char
utf8_char_nonempty c b = ground arith

-- Two texts with the same bytes are the same text.
pub encode_injective :
    (s t : Str) (bytes : List ℕ)
    → All IsChar s
    → All IsChar t
    → encode s ≡ some bytes
    → encode t ≡ some bytes
    → s ≡ t
unfolding encode
encode_injective [] [] bytes h k p q = refl
encode_injective [] (d ∷ t) bytes h k p q = elim (Option-cases (encode t)) [
  | inl e ↦ absurd (ground arith)
  | inr (b, e) ↦ absurd (ground (arith, utf8_char_nonempty d b))
]
encode_injective (c ∷ s) [] bytes h k p q = elim (Option-cases (encode s)) [
  | inl e ↦ absurd (ground arith)
  | inr (b, e) ↦ absurd (ground (arith, utf8_char_nonempty c b))
]
encode_injective (c ∷ s) (d ∷ t) bytes h k p q = elim (Option-cases (encode s)) [
  | inl e ↦ absurd (ground arith)
  | inr (b, e) ↦ elim (Option-cases (encode t)) [
    | inl f ↦ absurd (ground arith)
    | inr (b', f) ↦
        let same : utf8_char c ++ b ≡ utf8_char d ++ b' = ground arith in
        let (head, tail) = utf8_char_injective c d b b' h.0 k.0 same in
        ap₂ (λ (x : ℕ) (xs : Str). x ∷ xs) head
          (encode_injective s t b h.1 k.1 e (f ∙ ap some (sym tail)))
  ]
]

hex_digit_injective : (m n : ℕ) → m < 16 → n < 16 → hex_digit m ≡ hex_digit n → m ≡ n
unfolding hex_digit
hex_digit_injective m n h k e = ground arith

byte_of_nibbles : (a b : ℕ) → a / 16 ≡ b / 16 → a % 16 ≡ b % 16 → a ≡ b
byte_of_nibbles a b h k = omega arith

abbrev pub IsByte : ℕ → Type 0
IsByte b = b < 256

pub hex_injective : (xs ys : List ℕ) → All IsByte xs → All IsByte ys → hex xs ≡ hex ys → xs ≡ ys
unfolding hex
hex_injective [] [] h k e = refl
hex_injective [] (y ∷ ys) h k e = cc
hex_injective (x ∷ xs) [] h k e = cc
hex_injective (x ∷ xs) (y ∷ ys) h k e =
    let high =
      hex_digit_injective (x / 16) (y / 16) (omega (arith, h.0)) (omega (arith, k.0))
        (ground arith) in
    let low = hex_digit_injective (x % 16) (y % 16) (omega arith) (omega arith) (ground arith) in
    ap₂ (λ (b : ℕ) (bs : List ℕ). b ∷ bs) (byte_of_nibbles x y high low)
      (hex_injective xs ys h.1 k.1 (ground arith))

utf8_char-IsByte : (c : ℕ) → IsChar c → All IsByte (utf8_char c)
unfolding utf8_char
utf8_char-IsByte c h = elim (Bool-cases (ltb c 0x80)) [
  | inl a ↦ rw a (ground arith)
  | inr a ↦ elim (Bool-cases (ltb c 0x800)) [
    | inl b ↦ rw (a, b) (ground arith)
    | inr b ↦ elim (Bool-cases (ltb c 0x10000)) [
      | inl d ↦ rw (a, b, d) (ground arith)
      | inr d ↦ rw (a, b, d) (ground arith)
    ]
  ]
]

pub encode-IsByte :
    (s : Str) (bytes : List ℕ) → All IsChar s → encode s ≡ some bytes → All IsByte bytes
unfolding encode
encode-IsByte [] bytes h e = rw (← some-injective [] bytes e) tt
encode-IsByte (c ∷ s) bytes h e = elim (Option-cases (encode s)) [
  | inl q ↦ absurd (ground arith)
  | inr (b, q) ↦
      let p : utf8_char c ++ b ≡ bytes = ground arith in
      rw (← p)
        (All-append IsByte (utf8_char c) b (utf8_char-IsByte c h.0) (encode-IsByte s b h.1 q))
]
