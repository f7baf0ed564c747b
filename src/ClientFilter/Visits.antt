-- ===== src/ClientFilter/Visits.antt =====
-- The fields that a client's expression visits (ppbase/services/client_filter_guard.py).
use ppbase.Prelude.{
  Str, Unicode, codes, contains, List, [], ◌∷◌, ◌++◌, Bool, true, false, Option, none, some,
  is_empty, ◌≡◌, refl, ◌⊎◌, inl, inr, arith, Bool-cases, Option-cases,
}
use mathlib.Core.List.{Memᴰ}
use ppbase.Value.{
  Value, null, bool, int, float, text, list, dict, Fields, Builtins, get_null, truthy,
}
use ppbase.ClientFilter.Paths.{Node, PathReference, schema_fields, lookup}
use ppbase.ClientFilter.Guard.{
  Collection, Checked, allowed, invalid_field, schema_error, invalid_collection, invalid_syntax,
  Turn, stop, go, protected_fields, is_system, partition_via, is_relation, target_id,
  check_definition, check_field, check_via, check_segment, check_path, check_reference,
  check_references, start_of, filter_references, sort_references, assert_client_query_allowed,
}

module _ {F : Type 0} (B : Builtins F) (load : Value F → Option (Collection F)) where
  -- A segment in a collection is a relation to a collection: a back relation or a field.
  pub data Relates (c : Collection F) (segment : Str) (target : Collection F) : Type 0 where
    back :
        (name via_field : Str)
        → partition_via segment ≡ some (name, via_field)
        → load (text name) ≡ some target
        → Relates c segment target
    forward :
        (fields : List (Str × Fields F)) (definition : Fields F) (id : Value F)
        → partition_via segment ≡ none
        → is_system c.type segment ≡ false
        → schema_fields B c.schema ≡ some fields
        → lookup segment fields ≡ some definition
        → is_relation B load (get_null (codes "type") definition) ≡ true
        → target_id B load definition ≡ some id
        → load id ≡ some target
        → Relates c segment target

  -- A path from a collection reaches a segment that is read in a collection.
  pub data Visits : Collection F → List Str → Collection F → Str → Type 0 where
    here :
        {c : Collection F} {segment : Str} {segments : List Str}
        → Visits c (segment ∷ segments) c segment
    through :
        {c target d : Collection F} {segment s : Str} {segments : List Str}
        → Relates c segment target
        → Visits target segments d s
        → Visits c (segment ∷ segments) d s

  -- What a segment may name for a client: no auth secret; and a back relation through a field of
  -- another collection, hidden or not, a system field, or a field of the schema that is not hidden or
  -- that a superuser asks for.
  pub data IsOpen (superuser : Bool) (c : Collection F) (segment : Str) : Type 0 where
    back_relation :
        (name via_field : Str) (target : Collection F) (fields : List (Str × Fields F))
        (definition : Fields F)
        → contains protected_fields segment ≡ false
        → partition_via segment ≡ some (name, via_field)
        → load (text name) ≡ some target
        → schema_fields B target.schema ≡ some fields
        → lookup via_field fields ≡ some definition
        → IsOpen superuser c segment
    system_field :
        contains protected_fields segment ≡ false
        → is_system c.type segment ≡ true
        → IsOpen superuser c segment
    schema_field :
        (fields : List (Str × Fields F)) (definition : Fields F)
        → contains protected_fields segment ≡ false
        → schema_fields B c.schema ≡ some fields
        → lookup segment fields ≡ some definition
        → (truthy B (get_null (codes "hidden") definition) ≡ false) ⊎ (superuser ≡ true)
        → IsOpen superuser c segment

  abbrev pub passes : Turn F → Bool
  passes (stop allowed) = true
  passes (stop _) = false
  passes (go _) = true

  check_definition-shown :
      (superuser last : Bool) (segment : Str) (definition : Fields F)
      → passes (check_definition B load superuser segment last definition) ≡ true
      → (truthy B (get_null (codes "hidden") definition) ≡ false) ⊎ (superuser ≡ true)
  unfolding check_definition
  check_definition-shown true last segment definition h = inr refl
  check_definition-shown false last segment definition h =
      elim (Bool-cases (truthy B (get_null (codes "hidden") definition))) [
        | inl e ↦ absurd (ground (arith, e))
        | inr e ↦ inl e
      ]

  check_via-names :
      (segment via_field : Str) (found : Option (Collection F))
      → passes (check_via B load segment via_field found) ≡ true
      → (target : Collection F) × (fields : List (Str × Fields F)) × (definition : Fields F)
        × (found ≡ some target)
        × (schema_fields B target.schema ≡ some fields)
        × (lookup via_field fields ≡ some definition)
  unfolding check_via
  check_via-names segment via_field none h = cc
  check_via-names segment via_field (some target) h =
      elim (Option-cases (schema_fields B target.schema)) [
        | inl q ↦ absurd (ground (arith, q))
        | inr (fields, q) ↦ elim (Option-cases (lookup via_field fields)) [
          | inl l ↦ absurd (ground (arith, q, l))
          | inr (definition, l) ↦ (target, fields, definition, refl, q, l)
        ]
      ]

  check_segment-IsOpen :
      (superuser last : Bool) (c : Collection F) (segment : Str)
      → passes (check_segment B load superuser c segment last) ≡ true
      → IsOpen superuser c segment
  unfolding check_segment check_field
  check_segment-IsOpen superuser last c segment h =
      elim (Bool-cases (contains protected_fields segment)) [
        | inl e ↦ absurd (ground (arith, e))
        | inr e ↦ elim (Option-cases (partition_via segment)) [
          | inr ((name, via_field), p) ↦
              let (target, fields, definition, found, q, l) =
                check_via-names segment via_field (load (text name)) (ground (arith, e, p)) in
              back_relation name via_field target fields definition e p found q l
          | inl p ↦ elim (Option-cases (schema_fields B c.schema)) [
            | inl q ↦ absurd (ground (arith, e, p, q))
            | inr (fields, q) ↦ elim (Bool-cases (is_system c.type segment)) [
              | inl s ↦ system_field e s
              | inr s ↦ elim (Option-cases (lookup segment fields)) [
                | inl l ↦ absurd (ground (arith, e, p, q, s, l))
                | inr (definition, l) ↦ schema_field fields definition e q l (
                    check_definition-shown superuser last segment definition
                      (ground (arith, e, p, q, s, l)))
              ]
            ]
          ]
        ]
      ]

  check_via-go :
      (segment via_field : Str) (target : Collection F)
      → passes (check_via B load segment via_field (some target)) ≡ true
      → check_via B load segment via_field (some target) ≡ go target
  unfolding check_via
  check_via-go segment via_field target h = elim (Option-cases (schema_fields B target.schema)) [
    | inl q ↦ absurd (ground (arith, q))
    | inr (fields, q) ↦ elim (Option-cases (lookup via_field fields)) [
      | inl l ↦ absurd (ground (arith, q, l))
      | inr (definition, l) ↦ ground (arith, q, l)
    ]
  ]

  check_definition-go :
      (superuser : Bool) (segment : Str) (definition : Fields F) (id : Value F)
      (target : Collection F)
      → is_relation B load (get_null (codes "type") definition) ≡ true
      → target_id B load definition ≡ some id
      → load id ≡ some target
      → passes (check_definition B load superuser segment false definition) ≡ true
      → check_definition B load superuser segment false definition ≡ go target
  unfolding check_definition
  check_definition-go superuser segment definition null target r i t h = ground (arith, r, i, t)
  check_definition-go superuser segment definition (bool b) target r i t h = ground (arith, r, i, t)
  check_definition-go superuser segment definition (int n) target r i t h = ground (arith, r, i, t)
  check_definition-go superuser segment definition (float f) target r i t h =
      ground (arith, r, i, t)
  check_definition-go superuser segment definition (text s) target r i t h = ground (arith, r, i, t)
  check_definition-go superuser segment definition (list xs) target r i t h =
      absurd (ground (arith, r, i, t))
  check_definition-go superuser segment definition (dict d) target r i t h =
      absurd (ground (arith, r, i, t))

  check_segment-go :
      (superuser : Bool) (c target : Collection F) (segment : Str)
      → Relates c segment target
      → passes (check_segment B load superuser c segment false) ≡ true
      → check_segment B load superuser c segment false ≡ go target
  unfolding check_segment check_field
  check_segment-go superuser c target segment (back name via_field p l) h =
      ground (arith, p, l, check_via-go segment via_field target)
  check_segment-go superuser c target segment (forward fields definition id p s q l r i t) h =
      ground (arith, p, s, q, l, check_definition-go superuser segment definition id target r i t)

  pub turn_passes :
      (turn : Turn F) (superuser : Bool) (segments : List Str)
      → elim turn [
        | stop checked ↦ checked
        | go target ↦ check_path B load superuser target segments
      ]
        ≡ allowed
      → passes turn ≡ true
  turn_passes (stop allowed) superuser segments h = refl
  turn_passes (stop (invalid_field x)) superuser segments h = cc
  turn_passes (stop (invalid_collection x)) superuser segments h = cc
  turn_passes (stop invalid_syntax) superuser segments h = cc
  turn_passes (stop schema_error) superuser segments h = cc
  turn_passes (go target) superuser segments h = refl

  check_path-IsOpen :
      (superuser : Bool) (c d : Collection F) (segments : List Str) (s : Str)
      → check_path B load superuser c segments ≡ allowed
      → Visits c segments d s
      → IsOpen superuser d s
  unfolding check_path
  check_path-IsOpen superuser c d [] s h v = elim v [ ]
  check_path-IsOpen superuser c d (_ ∷ segments) s h here =
      check_segment-IsOpen superuser (is_empty segments) c s
        (turn_passes (check_segment B load superuser c s (is_empty segments)) superuser segments h)
  check_path-IsOpen superuser c d (first ∷ []) s h (through r v) = elim v [ ]
  check_path-IsOpen superuser c d (first ∷ next ∷ segments) s h (through {target = target} r v) =
      check_path-IsOpen superuser target d (next ∷ segments) s
        (cc (
          check_segment-go superuser c target first r (
            turn_passes (check_segment B load superuser c first false) superuser (next ∷ segments)
              h)))
        v

  check_reference-path :
      (superuser : Bool) (c start d : Collection F) (name : Option Str) (segments : List Str)
      (s : Str)
      → check_reference B load superuser c (name, segments) ≡ allowed
      → start_of B load c name ≡ some start
      → Visits start segments d s
      → check_path B load superuser start segments ≡ allowed
  unfolding check_reference
  check_reference-path superuser c start d name [] s h e v = elim v [ ]
  check_reference-path superuser c start d name (first ∷ segments) s h e v = ground (arith, h, e)

  pub both_allowed :
      (first later : Checked)
      → elim first [ allowed ↦ later | checked ↦ checked ] ≡ allowed
      → (first ≡ allowed) × (later ≡ allowed)
  both_allowed allowed later h = (refl, h)
  both_allowed (invalid_field x) later h = cc
  both_allowed (invalid_collection x) later h = cc
  both_allowed invalid_syntax later h = cc
  both_allowed schema_error later h = cc

  check_references-each :
      (superuser : Bool) (c : Collection F) (xs : List PathReference) (x : PathReference)
      → Memᴰ x xs
      → check_references B load superuser c xs ≡ allowed
      → check_reference B load superuser c x ≡ allowed
  unfolding check_references
  check_references-each superuser c [] x m h = elim m [ ]
  check_references-each superuser c (y ∷ ys) x m h =
      let (first, later) =
        both_allowed (check_reference B load superuser c y) (check_references B load superuser c ys)
          h in
      elim m [
        | Memᴰ.head same ↦ rw same first
        | Memᴰ.tail n ↦ check_references-each superuser c ys x n later
      ]

  module _ (U : Unicode) (parse : Str → Option (List Node)) where
    assert_client_query_allowed-references :
        (c : Collection F) (filter sort : Str) (superuser : Bool) (found : List PathReference)
        → assert_client_query_allowed B load U parse c filter sort superuser ≡ allowed
        → filter_references B load U parse filter ≡ some found
        → check_references B load superuser c (found ++ sort_references B load U parse sort)
          ≡ allowed
    unfolding assert_client_query_allowed
    assert_client_query_allowed-references c [] [] superuser found h e =
        unfold filter_references sort_references check_references in ground (arith, e)
    assert_client_query_allowed-references c (_ ∷ _) sort superuser found h e = ground (arith, h, e)
    assert_client_query_allowed-references c [] (_ ∷ _) superuser found h e = ground (arith, h, e)

-- Conditions: the guard lets the client's filter and sort pass, and a path of one of them, from the
-- collection it starts at, reaches a segment that is read in a collection, through relations and
-- back relations. Then the segment is no auth secret's name, and it is a system field of that
-- collection; or a field of its schema that is not hidden unless a superuser asks; or a back relation
-- that names a collection and a field of that collection's schema, of which the guard does not test
-- whether it is hidden.
pub assert_client_query_allowed-IsOpen :
    {F : Type 0} (B : Builtins F) (load : Value F → Option (Collection F)) (U : Unicode)
    (parse : Str → Option (List Node)) (c start d : Collection F) (filter sort : Str)
    (superuser : Bool) (found : List PathReference) (name : Option Str) (segments : List Str)
    (s : Str)
    → assert_client_query_allowed B load U parse c filter sort superuser ≡ allowed
    → filter_references B load U parse filter ≡ some found
    → Memᴰ (name, segments) (found ++ sort_references B load U parse sort)
    → start_of B load c name ≡ some start
    → Visits B load start segments d s
    → IsOpen B load superuser d s
assert_client_query_allowed-IsOpen B load U parse c start d filter sort superuser found name
      segments s h e m begins visit =
    check_path-IsOpen B load superuser start d segments s
      (check_reference-path B load superuser c start d name segments s
        (check_references-each B load superuser c (found ++ sort_references B load U parse sort)
          (name, segments) m
          (assert_client_query_allowed-references B load U parse c filter sort superuser found h e))
        begins visit)
      visit
