-- ===== src/StorageSafety/LocalName.antt =====
-- The names of records in local storage do not collide (ppbase/core/storage_safety.py).
use ppbase.Prelude.{
  Str, Unicode, ℕ, ◌≤◌, length, is_empty, List, [], ◌∷◌, ◌++◌, ◌&&◌, not, some, any, ◌≡◌, ◌≢◌, sym,
  ◌∙◌, All, arith, Bool-cases, Option-cases, inl, inr, ap,
}
use ppbase.Value.{text}
use ppbase.StorageSafety.Utf8.{IsChar, encode, encode_injective, encode-IsByte, hex, hex_injective}
use ppbase.StorageSafety.Component.{
  safe, Checked-cases, id_limits, validate_text, validate_single_component, is_id_char,
  escape_prefix, name_of, named, local_storage_id_name,
}

-- The name is the identifier itself, or its escape.
data NameOf (identifier name : Str) : Type 0 where
  itself : name ≡ identifier → NameOf identifier name
  escaped :
      (bytes : List ℕ)
      → encode identifier ≡ some bytes
      → name ≡ escape_prefix ++ hex bytes
      → NameOf identifier name

name_of-NameOf : (identifier name : Str) → name_of identifier ≡ some name → NameOf identifier name
unfolding name_of
name_of-NameOf identifier name h =
    elim (Bool-cases
      (not (is_empty identifier) && not (any (λ c. not (is_id_char c)) identifier))) [
        | inl e ↦ itself (ground (arith, e))
        | inr e ↦ elim (Option-cases (encode identifier)) [
          | inl q ↦ absurd (ground (arith, e))
          | inr (bytes, q) ↦ escaped bytes q (ground (arith, e))
        ]
      ]

escape_long : (bytes : List ℕ) → 24 ≤ length (escape_prefix ++ hex bytes)
escape_long bytes = omega arith

validate_text-short :
    (U : Unicode) (s w : Str) → validate_text U id_limits s ≡ safe w → (w ≡ s) × (length s ≤ 15)
unfolding validate_text
validate_text-short U s w h = ground arith

prefix_cancel : (s xs ys : Str) → s ++ xs ≡ s ++ ys → xs ≡ ys
prefix_cancel [] xs ys h = h
prefix_cancel (c ∷ s) xs ys h = prefix_cancel s xs ys (ground arith)

short_unescaped : (s : Str) (bytes : List ℕ) → length s ≤ 15 → s ≢ escape_prefix ++ hex bytes
short_unescaped s bytes p e = omega (arith, escape_long bytes, ap (λ (u : Str). length u) e)

NameOf-injective :
    (s t name : Str)
    → All IsChar s
    → All IsChar t
    → length s ≤ 15
    → length t ≤ 15
    → NameOf s name
    → NameOf t name
    → s ≡ t
NameOf-injective s t name h k p q (itself a) (itself b) = sym a ∙ b
NameOf-injective s t name h k p q (itself a) (escaped bytes e b) =
    absurd (short_unescaped s bytes p (sym a ∙ b))
NameOf-injective s t name h k p q (escaped bytes e a) (itself b) =
    absurd (short_unescaped t bytes q (sym b ∙ a))
NameOf-injective s t name h k p q (escaped xs e a) (escaped ys f b) =
    let same : xs ≡ ys =
      hex_injective xs ys (encode-IsByte s xs h e) (encode-IsByte t ys k f)
        (prefix_cancel escape_prefix (hex xs) (hex ys) (sym a ∙ b)) in
    encode_injective s t xs h k e (f ∙ ap (λ (u : List ℕ). some u) (sym same))

local_storage_id_name-NameOf :
    (U : Unicode) (F : Type 0) (s name : Str)
    → local_storage_id_name U {F = F} (text s) ≡ named name
    → (length s ≤ 15) × NameOf s name
unfolding local_storage_id_name validate_single_component
local_storage_id_name-NameOf U F s name h = elim (Checked-cases (validate_text U id_limits s)) [
  | inl (w, e) ↦
      let (same, short) = validate_text-short U s w e in
      (
        short,
        elim (Option-cases (name_of s)) [
          | inl q ↦ absurd (ground (arith, e, q, same))
          | inr (n, q) ↦ name_of-NameOf s name (ground (arith, e, q, same))
        ],
      )
  | inr (reason, e) ↦ absurd (ground (arith, e))
]

-- Two record or collection identifiers, texts of Unicode characters, that both have a local
-- storage name have different names unless they are the same identifier.
pub local_storage_id_name-injective :
    (U : Unicode) (F : Type 0) (s t name : Str)
    → All IsChar s
    → All IsChar t
    → local_storage_id_name U {F = F} (text s) ≡ named name
    → local_storage_id_name U {F = F} (text t) ≡ named name
    → s ≡ t
local_storage_id_name-injective U F s t name h k p q =
    let (short, a) = local_storage_id_name-NameOf U F s name p in
    let (brief, b) = local_storage_id_name-NameOf U F t name q in
    NameOf-injective s t name h k short brief a b
