-- ===== src/FieldTypes/Distinct.antt =====
-- What a selection of several values promises (ppbase/models/field_types.py).
use ppbase.Prelude.{
  Str, text_eq, text_eq_refl, eq_of_text_eq, contains, List, [], ◌∷◌, true, false, ◌&&◌, is_empty,
  length, any, ◌≡◌, refl, inl, inr, All, arith, Bool-cases,
}
use ppbase.Value.{Builtins, str}
use ppbase.FieldTypes.Definition.{
  FieldDefinition, valid, Chosen, one, many, below, max_select, strs, texts,
}
use ppbase.FieldTypes.Select.{unique, is_barred, select_many, select_one}

abbrev pub IsDistinct : List Str → Type 0
IsDistinct [] = Unit
IsDistinct (v ∷ vs) = (contains vs v ≡ false) × IsDistinct vs

unique_seen :
    (seen vs : List Str) (w : Str) → contains seen w ≡ true → contains (unique seen vs) w ≡ false
unfolding unique contains
unique_seen seen [] w h = refl
unique_seen seen (v ∷ vs) w h = elim (Bool-cases (contains seen v)) [
  | inl e ↦ ground (arith, e, unique_seen seen vs w h)
  | inr e ↦ elim (Bool-cases (text_eq w v)) [
    | inl same ↦ absurd (cc (eq_of_text_eq w v same))
    | inr other ↦ ground (arith, e, other, unique_seen (v ∷ seen) vs w)
  ]
]

unique-IsDistinct : (seen vs : List Str) → IsDistinct (unique seen vs)
unfolding unique contains
unique-IsDistinct seen [] = tt
unique-IsDistinct seen (v ∷ vs) = elim (Bool-cases (contains seen v)) [
  | inl e ↦ rw e (unique-IsDistinct seen vs)
  | inr e ↦ rw e (
    unique_seen (v ∷ seen) vs v (ground (arith, text_eq_refl v)),
    unique-IsDistinct (v ∷ seen) vs,
  )
]

contains-unique :
    (seen vs : List Str) (w : Str)
    → contains seen w ≡ false
    → contains (unique seen vs) w ≡ contains vs w
unfolding unique contains
contains-unique seen [] w h = refl
contains-unique seen (v ∷ vs) w h = elim (Bool-cases (text_eq w v)) [
  | inl same ↦
      let unseen : contains seen v ≡ false = rw (← eq_of_text_eq w v same) h in
      ground (arith, same, unseen)
  | inr other ↦ elim (Bool-cases (contains seen v)) [
    | inl e ↦ ground (arith, e, other, contains-unique seen vs w h)
    | inr e ↦ ground (arith, e, other, contains-unique (v ∷ seen) vs w)
  ]
]

text_eq_sym : (s t : Str) → text_eq s t ≡ false → text_eq t s ≡ false
text_eq_sym s t h = elim (Bool-cases (text_eq t s)) [
  | inl e ↦ absurd (cc (eq_of_text_eq t s e, text_eq_refl t))
  | inr e ↦ e
]

unseen_later :
    (seen vs : List Str) (v : Str)
    → contains vs v ≡ false
    → All (λ u. contains seen u ≡ false) vs
    → All (λ u. contains (v ∷ seen) u ≡ false) vs
unfolding contains
unseen_later seen [] v h n = tt
unseen_later seen (u ∷ vs) v h n = (
  ground (arith, n.0, text_eq_sym v u (ground (arith, h))),
  unseen_later seen vs v (ground (arith, h)) n.1,
)

-- Values that are distinct and not seen before are all kept.
unique-fixed :
    (seen vs : List Str)
    → IsDistinct vs
    → All (λ v. contains seen v ≡ false) vs
    → unique seen vs ≡ vs
unfolding unique contains
unique-fixed seen [] d n = refl
unique-fixed seen (v ∷ vs) d n =
    ground (arith, n.0, unique-fixed (v ∷ seen) vs d.1 (unseen_later seen vs v d.0 n.1))

nothing_seen : (vs : List Str) → All (λ v. contains [] v ≡ false) vs
unfolding contains
nothing_seen [] = tt
nothing_seen (v ∷ vs) = (refl, nothing_seen vs)

pub strs-texts : {F : Type 0} (B : Builtins F) (vs : List Str) → strs B (texts vs) ≡ vs
unfolding strs texts str
strs-texts B [] = refl
strs-texts B (v ∷ vs) = rw (strs-texts B vs) refl

module _ {F : Type 0} (B : Builtins F) (field : FieldDefinition) where
  -- What the list of a selection of several values is, for the values that a client sends.
  pub record IsSelection (sent kept : List Str) : Type 0 where
    pub distinct : IsDistinct kept
    pub same : (v : Str) → contains kept v ≡ contains sent v
    pub within_limit : below (max_select field) (length kept) ≡ false
    pub allowed : any (is_barred field.options.values) kept ≡ false
    pub given : (field.required && is_empty kept) ≡ false

  unique_empty : (vs : List Str) → is_empty (unique [] vs) ≡ is_empty vs
  unfolding unique contains
  unique_empty [] = refl
  unique_empty (v ∷ vs) = refl

  pub select_many-inverse :
      (sent : List Str) (r : Chosen)
      → select_many B field sent ≡ valid r
      → (r ≡ many (unique [] sent)) × IsSelection sent (unique [] sent)
  unfolding select_many
  select_many-inverse sent r h = (
    ground (arith, h),
    record {
      distinct = unique-IsDistinct [] sent;
      same = λ v. contains-unique [] sent v (unfold contains in refl);
      within_limit = ground (arith, h);
      allowed = ground (arith, h);
      given = ground (arith, h, unique_empty sent);
    },
  )

  pub select_many-fixed :
      (sent kept : List Str) → IsSelection sent kept → select_many B field kept ≡ valid (many kept)
  unfolding select_many
  select_many-fixed sent kept k =
      let fixed = unique-fixed [] kept k.distinct (nothing_seen kept) in
      ground (arith, fixed, k.within_limit, k.allowed, k.given)

  pub select_one-inverse : (s : Str) (r : Chosen) → select_one B field s ≡ valid r → (r ≡ one s)
  unfolding select_one
  select_one-inverse s r h = ground (arith, h)
