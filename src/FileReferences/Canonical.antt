-- ===== src/FileReferences/Canonical.antt =====
-- What the references of a row are (ppbase/services/file_references.py).
use ppbase.Prelude.{
  Str, Unicode, codes, text_eq, List, [], ◌∷◌, Bool, true, false, ◌||◌, Option, none, some, map,
  is_empty, ◌≡◌, refl, subst, ◌⊎◌, inl, inr, All, arith, Bool-cases,
}
use ppbase.Value.{Value, Fields, text, Builtins, get_null}
use ppbase.StorageSafety.Component.{
  Unsafe, Checked-cases, validate_collection_id, validate_record_id, validate_file_reference,
}
use ppbase.StorageSafety.Safe.{IsFileName, validate_file_reference_iff}
use ppbase.FileReferences.Row.{
  text_lt, insert_name, LocalFileReference, found, of_schema, schema_of, reference, is_owning,
  Names, collected, unsafe_name, filenames, add_all, canonical_local_file_references_for_row,
}

text_lt_total : (s t : Str) → text_eq s t ≡ false → text_lt s t ≡ false → text_lt t s ≡ true
unfolding text_eq text_lt
text_lt_total [] [] h k = cc
text_lt_total [] (b ∷ t) h k = cc
text_lt_total (a ∷ s) [] h k = refl
text_lt_total (a ∷ s) (b ∷ t) h k = ground (arith, text_lt_total s t)

-- In strict order: no text is repeated.
abbrev pub IsOrdered : List Str → Type 0
IsOrdered [] = Unit
IsOrdered (x ∷ []) = Unit
IsOrdered (x ∷ y ∷ xs) = (text_lt x y ≡ true) × IsOrdered (y ∷ xs)

-- The first of the list is behind a text.
abbrev IsBehind : Str → List Str → Type 0
IsBehind x [] = Unit
IsBehind x (y ∷ ys) = text_lt x y ≡ true

IsBehind-insert_name :
    (x name : Str) (xs : List Str)
    → text_lt x name ≡ true
    → IsBehind x xs
    → IsBehind x (insert_name name xs)
unfolding insert_name
IsBehind-insert_name x name [] h k = h
IsBehind-insert_name x name (y ∷ ys) h k = elim (Bool-cases (text_eq name y)) [
  | inl e ↦ rw e k
  | inr e ↦ elim (Bool-cases (text_lt name y)) [ inl l ↦ rw (e, l) h | inr l ↦ rw (e, l) k ]
]

IsOrdered-cons : (x : Str) (xs : List Str) → IsBehind x xs → IsOrdered xs → IsOrdered (x ∷ xs)
IsOrdered-cons x [] h k = tt
IsOrdered-cons x (y ∷ ys) h k = (h, k)

IsOrdered-tail : (x : Str) (xs : List Str) → IsOrdered (x ∷ xs) → IsBehind x xs × IsOrdered xs
IsOrdered-tail x [] h = (tt, tt)
IsOrdered-tail x (y ∷ ys) h = h

insert_name-IsOrdered :
    (name : Str) (xs : List Str) → IsOrdered xs → IsOrdered (insert_name name xs)
unfolding insert_name
insert_name-IsOrdered name [] h = tt
insert_name-IsOrdered name (x ∷ xs) h =
    let (behind, later) = IsOrdered-tail x xs h in
    elim (Bool-cases (text_eq name x)) [
      | inl e ↦ rw e h
      | inr e ↦ elim (Bool-cases (text_lt name x)) [
        | inl l ↦ rw (e, l) (l, h)
        | inr l ↦
            rw (e, l)
              (IsOrdered-cons x (insert_name name xs)
                (IsBehind-insert_name x name xs (text_lt_total name x e l) behind)
                (insert_name-IsOrdered name xs later))
      ]
    ]

All-insert_name :
    (P : Str → Type 0) (name : Str) (xs : List Str)
    → P name
    → All P xs
    → All P (insert_name name xs)
unfolding insert_name
All-insert_name P name [] p h = (p, tt)
All-insert_name P name (x ∷ xs) p h = elim (Bool-cases (text_eq name x)) [
  | inl e ↦ rw e h
  | inr e ↦ elim (Bool-cases (text_lt name x)) [
    | inl l ↦ rw (e, l) (p, h)
    | inr l ↦ rw (e, l) (h.0, All-insert_name P name xs p h.1)
  ]
]

module _ {F : Type 0} (U : Unicode) (B : Builtins F) (decode : Str → Option (Value F))
    (is_remote : Str → Bool) where
  -- The name of a file in the local storage
  abbrev pub IsLocal : Str → Type 0
  IsLocal name = IsFileName U name × (is_remote name ≡ false)

  -- What the names that are gathered so far are.
  abbrev IsCanonical : List Str → Type 0
  IsCanonical names = IsOrdered names × All IsLocal names

  add_all-IsCanonical :
      (filenames names result : List Str)
      → IsCanonical names
      → add_all {F = F} U B decode is_remote filenames names ≡ collected result
      → IsCanonical result
  unfolding add_all
  add_all-IsCanonical [] names result k h = subst (λ (r : List Str). IsCanonical r) (ground arith) k
  add_all-IsCanonical (filename ∷ rest) names result k h =
      elim (Bool-cases (is_empty filename || is_remote filename)) [
        | inl e ↦ add_all-IsCanonical rest names result k (ground (arith, e, h))
        | inr e ↦ elim (Checked-cases (validate_file_reference U {F = F} (text filename))) [
          | inr (reason, v) ↦ absurd (ground (arith, e, v, h))
          | inl (name, v) ↦
              let (same, file) = (validate_file_reference_iff U F filename name).0 v in
              let local : IsLocal name = rw same (file, ground (arith, e)) in
              add_all-IsCanonical rest (insert_name name names) result
                (
                  insert_name-IsOrdered name names k.0,
                  All-insert_name (λ (n : Str). IsLocal n) name names local k.1,
                )
                (ground (arith, e, v, h))
        ]
      ]

  -- What the references of a row are.
  abbrev pub AreCanonical : List LocalFileReference → Type 0
  AreCanonical references =
      IsOrdered (map (λ r. r.filename) references) × All (λ r. IsLocal r.filename) references

  filenames-map :
      (c i : Str) (names : List Str)
      → map
          (λ (r : LocalFileReference). r.filename)
          (map (reference U B decode is_remote c i) names)
        ≡ names
  filenames-map c i [] = refl
  filenames-map c i (name ∷ names) = rw (filenames-map c i names) refl

  All-map :
      (c i : Str) (names : List Str)
      → All IsLocal names
      → All
          (λ (r : LocalFileReference). IsLocal r.filename)
          (map (reference U B decode is_remote c i) names)
  All-map c i [] k = tt
  All-map c i (name ∷ names) k = (k.0, All-map c i names k.1)

  Names-cases :
      (n : Names)
      → ((names : List Str) × (n ≡ collected names))
        ⊎ ((reason : Unsafe) × (n ≡ unsafe_name reason))
  Names-cases (collected names) = inl (names, refl)
  Names-cases (unsafe_name reason) = inr (reason, refl)

  of_schema-AreCanonical :
      (c i : Str) (row : Fields F) (schema : Option (List (Value F)))
      (references : List LocalFileReference)
      → of_schema U B decode is_remote c i row schema ≡ found references
      → AreCanonical references
  of_schema-AreCanonical c i row none references h = cc
  of_schema-AreCanonical c i row (some schema) references h =
      let files = filenames U B decode is_remote row schema in
      elim (Names-cases (add_all {F = F} U B decode is_remote files [])) [
        | inr (reason, e) ↦ absurd (ground (arith, e, h))
        | inl (names, e) ↦
            let k = add_all-IsCanonical files [] names (tt, tt) e in
            let same : references ≡ map (reference U B decode is_remote c i) names =
              ground (arith, e, h) in
            rw (same, filenames-map c i names) (k.0, All-map c i names k.1)
      ]

-- Condition: the references of a row of a collection are found. Then each is the name of a file in
-- its directory and no URL, and the names stand in strict order, so that none is repeated.
pub canonical_local_file_references_for_row-AreCanonical :
    {F : Type 0} (U : Unicode) (B : Builtins F) (decode : Str → Option (Value F))
    (is_remote : Str → Bool) (collection row : Fields F) (references : List LocalFileReference)
    → canonical_local_file_references_for_row U B decode is_remote collection row ≡ found references
    → AreCanonical U B decode is_remote references
unfolding canonical_local_file_references_for_row
canonical_local_file_references_for_row-AreCanonical U B decode is_remote collection row references
      h =
    elim (Bool-cases (is_owning U B decode is_remote collection)) [
      | inr e ↦ let none_found : references ≡ [] = ground (arith, e, h) in rw none_found (tt, tt)
      | inl e ↦ elim (Checked-cases (validate_collection_id U (get_null (codes "id") collection))) [
        | inr (reason, v) ↦ absurd (ground (arith, e, v, h))
        | inl (c, v) ↦ elim (Checked-cases (validate_record_id U (get_null (codes "id") row))) [
          | inr (reason, w) ↦ absurd (ground (arith, e, v, w, h))
          | inl (i, w) ↦
              of_schema-AreCanonical U B decode is_remote c i row
                (schema_of U B decode is_remote (get_null (codes "schema") collection)) references
                (ground (arith, e, v, w, h))
        ]
      ]
    ]
