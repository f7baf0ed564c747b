-- ===== src/Realtime/Names.antt =====
-- Which topics are those of a record (ppbase/services/realtime_service.py).
use ppbase.Prelude.{
  Str, Unicode, codes, text_eq, contains, has_char, push_char, strip, starts_with, split_on, ℕ,
  ◌==◌, List, [], ◌∷◌, ◌++◌, Bool, true, false, ◌&&◌, ◌||◌, Option, none, some, is_empty,
  if◌then◌else◌, ◌≡◌, refl, sym, ap, ◌∙◌, arith, Bool-cases, inl, inr,
}
use ppbase.Value.{Value, Fields}
use ppbase.Realtime.Topic.{
  Outcome, rejected, accepted, ParsedRealtimeTopic, base_of, two_names, names_of, with_options,
  named, parse_realtime_topic,
}

-- The topics of `broadcast_record_change`
unfoldable pub topics_of : Str → Str → List Str
topics_of collection_name record_id =
    (collection_name ++ codes "/*") ∷ (collection_name ++ (b'/' ∷ record_id)) ∷ []

-- A name with a slash behind it can be read back.
text_eq-names :
    (a b c d : Str)
    → has_char a b'/' ≡ false
    → has_char c b'/' ≡ false
    → text_eq (a ++ (b'/' ∷ b)) (c ++ (b'/' ∷ d)) ≡ (text_eq a c && text_eq b d)
unfolding text_eq has_char
text_eq-names [] b [] d h k = refl
text_eq-names [] b (y ∷ c) d h k = ground (arith, k)
text_eq-names (x ∷ a) b [] d h k = ground (arith, h)
text_eq-names (x ∷ a) b (y ∷ c) d h k = ground (arith, h, k, text_eq-names a b c d)

text_eq-no_slash : (a c d : Str) → has_char a b'/' ≡ false → text_eq a (c ++ (b'/' ∷ d)) ≡ false
unfolding text_eq has_char
text_eq-no_slash [] [] d h = refl
text_eq-no_slash [] (y ∷ c) d h = refl
text_eq-no_slash (x ∷ a) [] d h = ground (arith, h)
text_eq-no_slash (x ∷ a) (y ∷ c) d h = ground (arith, h, text_eq-no_slash a c d)

-- What `split("/")` gives where it gives two parts.
pub data Parts (s : Str) : List Str → Type 0 where
  one : has_char s b'/' ≡ false → Parts s (s ∷ [])
  two :
      (a b : Str)
      → s ≡ a ++ (b'/' ∷ b)
      → has_char a b'/' ≡ false
      → has_char b b'/' ≡ false
      → Parts s (a ∷ b ∷ [])
  more : (a b c : Str) (parts : List Str) → Parts s (a ∷ b ∷ c ∷ parts)

push_char-Parts :
    (c : ℕ) (s : Str) (parts : List Str) → Parts s parts → Parts (c ∷ s) (push_char b'/' c parts)
unfolding has_char
push_char-Parts c s _ (one h) = elim (Bool-cases (c == b'/')) [
  | inl e ↦ let slash : c ≡ b'/' = ground (arith, e) in rw (e, slash) (two [] s refl refl h)
  | inr e ↦ rw e (one (ground (arith, e, h)))
]
push_char-Parts c s _ (two a b whole h k) = elim (Bool-cases (c == b'/')) [
  | inl e ↦ rw e (more [] a b [])
  | inr e ↦ rw e (two (c ∷ a) b (ap (λ (t : Str). c ∷ t) whole) (ground (arith, e, h)) k)
]
push_char-Parts c s _ (more a b d parts) = elim (Bool-cases (c == b'/')) [
  | inl e ↦ rw e (more [] a b (d ∷ parts))
  | inr e ↦ rw e (more (c ∷ a) b d parts)
]

pub split_on-Parts : (s : Str) → Parts s (split_on b'/' s)
unfolding split_on has_char
split_on-Parts [] = one refl
split_on-Parts (c ∷ s) = push_char-Parts c s (split_on b'/' s) (split_on-Parts s)

no_topic-contains :
    (base collection_name record_id : Str)
    → has_char base b'/' ≡ false
    → contains (topics_of collection_name record_id) base ≡ false
unfolding topics_of contains
no_topic-contains base collection_name record_id h = ground (
  arith,
  text_eq-no_slash base collection_name (codes "*") h,
  text_eq-no_slash base collection_name record_id h,
)

pair-injective :
    (a b c d : Str) → ◌≡◌ {A = Option (Str × Str)} (some (a, b)) (some (c, d)) → (a ≡ c) × (b ≡ d)
pair-injective a b c d h = (cc h, cc h)

-- An internal channel has no collection.
internal-collection :
    (internal : Bool) (base name resource : Str)
    → ◌≡◌ {A = Option (Str × Str)}
        (if internal then some ([], base) else none)
        (some (name, resource))
    → [] ≡ name
internal-collection true base name resource h = (pair-injective [] base name resource h).0
internal-collection false base name resource h = cc

two_names-contains :
    (base : Str) (parts : List Str) (name resource collection_name record_id : Str)
    → Parts base parts
    → has_char collection_name b'/' ≡ false
    → two_names parts ≡ some (name, resource)
    → contains (topics_of collection_name record_id) base ≡ (
        text_eq name collection_name
        && (text_eq resource (codes "*") || text_eq resource record_id))
unfolding topics_of contains
two_names-contains base _ name resource collection_name record_id (one h) k e = cc
two_names-contains base _ name resource collection_name record_id (more a b c parts) k e = cc
two_names-contains base _ name resource collection_name record_id (two a b whole h j) k e =
    elim (Bool-cases (is_empty a || is_empty b)) [
      | inl m ↦ absurd (ground (arith, m, e))
      | inr m ↦
          let (name_of, resource_of) = pair-injective a b name resource (ground (arith, m, e)) in
          rw
            (
              whole,
              text_eq-names a b collection_name (codes "*") h k,
              text_eq-names a b collection_name record_id h k,
              ← name_of,
              ← resource_of,
            )
            (ground arith)
    ]

text_eq_blank : (s : Str) → is_empty s ≡ false → text_eq [] s ≡ false
unfolding text_eq
text_eq_blank [] h = cc
text_eq_blank (c ∷ s) h = refl

and_false : {b : Bool} (c : Bool) → b ≡ false → (b && c) ≡ false
and_false c h = rw h refl

-- Which names a base topic has decides whether it is a topic of a record.
names_of-contains :
    (base name resource collection_name record_id : Str)
    → is_empty collection_name ≡ false
    → has_char collection_name b'/' ≡ false
    → names_of base ≡ some (name, resource)
    → contains (topics_of collection_name record_id) base ≡ (
        text_eq name collection_name
        && (text_eq resource (codes "*") || text_eq resource record_id))
unfolding names_of
names_of-contains base name resource collection_name record_id m k e =
    elim (Bool-cases (has_char base b'/')) [
      | inl b ↦
          two_names-contains base (split_on b'/' base) name resource collection_name record_id
            (split_on-Parts base) k (ground (arith, b, e))
      | inr b ↦
          (let blank =
              internal-collection
                (text_eq base (codes "PB_CONNECT") || starts_with base (codes "@")) base name
                resource (ground (arith, b, e)) in
            no_topic-contains base collection_name record_id b
            ∙ sym (rw (← blank) (and_false _ (text_eq_blank collection_name m))))
    ]

accepted-injective : {F : Type 0} (s t : ParsedRealtimeTopic F) → accepted s ≡ accepted t → s ≡ t
accepted-injective s t h = cc

with_options-names :
    (F : Type 0) (U : Unicode) (options_of : Str → Option Str) (loads : Str → Option (Value F))
    (raw : Str) (names : Str × Str) (options : Outcome (Fields F × Fields F))
    (t : ParsedRealtimeTopic F)
    → with_options U options_of loads raw names options ≡ accepted t
    → (t.base_topic ≡ base_of raw) × (some names ≡ some (t.collection_name, t.resource))
with_options-names F U options_of loads raw names (rejected fault) t h = cc
with_options-names F U options_of loads raw (collection, resource) (accepted (query, headers)) t h =
    let same = accepted-injective _ t h in
    (sym (λ i. (same i).base_topic), λ i. some ((same i).collection_name, (same i).resource))

named-names :
    (F : Type 0) (U : Unicode) (options_of : Str → Option Str) (loads : Str → Option (Value F))
    (raw : Str) (names : Option (Str × Str)) (t : ParsedRealtimeTopic F)
    → named U options_of loads raw names ≡ accepted t
    → (t.base_topic ≡ base_of raw) × (names ≡ some (t.collection_name, t.resource))
named-names F U options_of loads raw none t h = cc
named-names F U options_of loads raw (some names) t h =
    with_options-names F U options_of loads raw names _ t h

-- Conditions: a topic is parsed, and a collection's name is not empty and has no slash. Then the
-- topic is one of those of a record of the collection exactly if the parts of the topic are the name
-- of the collection and either a star or the identifier of the record.
pub parse_realtime_topic-topics_of :
    {F : Type 0} (U : Unicode) (options_of : Str → Option Str) (loads : Str → Option (Value F))
    (topic collection_name record_id : Str) (t : ParsedRealtimeTopic F)
    → is_empty collection_name ≡ false
    → has_char collection_name b'/' ≡ false
    → parse_realtime_topic U options_of loads topic ≡ accepted t
    → contains (topics_of collection_name record_id) t.base_topic ≡ (
        text_eq t.collection_name collection_name
        && (text_eq t.resource (codes "*") || text_eq t.resource record_id))
unfolding parse_realtime_topic
parse_realtime_topic-topics_of {F} U options_of loads topic collection_name record_id t m k h =
    let raw = strip U.is_space topic in
    elim (Bool-cases (is_empty raw)) [
      | inl b ↦ absurd (ground (arith, b, h))
      | inr b ↦
          let (base, names) =
            named-names F U options_of loads raw (names_of (base_of raw)) t
              (ground (arith, b, h)) in
          rw base (
            names_of-contains (base_of raw) t.collection_name t.resource collection_name record_id m
              k names)
    ]
