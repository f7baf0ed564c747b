-- ===== src/ClientFilter/Superuser.antt =====
-- What a superuser may ask for beside the others (ppbase/services/client_filter_guard.py).
use ppbase.Prelude.{
  Str, Unicode, codes, contains, List, [], ◌∷◌, ◌++◌, Bool, true, false, ◌&&◌, Option, is_empty,
  ◌≡◌, refl, arith, Bool-cases, Option-cases, inl, inr,
}
use ppbase.Value.{Value, Fields, Builtins, get_null, truthy}
use ppbase.ClientFilter.Paths.{Node, PathReference, schema_fields, lookup}
use ppbase.ClientFilter.Guard.{
  Collection, allowed, Turn, stop, go, protected_fields, is_system, partition_via, check_definition,
  check_field, check_segment, check_path, check_reference, check_references, start_of,
  filter_references, sort_references, assert_client_query_allowed,
}
use ppbase.ClientFilter.Visits.{passes, turn_passes, both_allowed}

module _ {F : Type 0} (B : Builtins F) (load : Value F → Option (Collection F)) where
  check_definition-superuser :
      (last : Bool) (segment : Str) (definition : Fields F)
      → passes B load (check_definition B load false segment last definition) ≡ true
      → check_definition B load true segment last definition
        ≡ check_definition B load false segment last definition
  unfolding check_definition
  check_definition-superuser last segment definition h =
      elim (Bool-cases (truthy B (get_null (codes "hidden") definition))) [
        | inl e ↦ absurd (ground (arith, e))
        | inr e ↦ ground (arith, e)
      ]

  check_segment-superuser :
      (last : Bool) (c : Collection F) (segment : Str)
      → passes B load (check_segment B load false c segment last) ≡ true
      → check_segment B load true c segment last ≡ check_segment B load false c segment last
  unfolding check_segment check_field
  check_segment-superuser last c segment h = elim (Bool-cases (contains protected_fields segment)) [
    | inl e ↦ absurd (ground (arith, e))
    | inr e ↦ elim (Option-cases (partition_via segment)) [
      | inr (split, p) ↦ ground (arith, p)
      | inl p ↦ elim (Option-cases (schema_fields B c.schema)) [
        | inl q ↦ absurd (ground (arith, e, p, q))
        | inr (fields, q) ↦ elim (Bool-cases (is_system c.type segment)) [
          | inl s ↦ ground (arith, p, q, s)
          | inr s ↦ elim (Option-cases (lookup segment fields)) [
            | inl l ↦ absurd (ground (arith, e, p, q, s, l))
            | inr (definition, l) ↦
                ground (arith, e, p, q, s, l, check_definition-superuser last segment definition)
          ]
        ]
      ]
    ]
  ]

  turn_superuser :
      (turn : Turn F) (segments : List Str)
      → ((target : Collection F)
          → check_path B load false target segments ≡ allowed
          → check_path B load true target segments ≡ allowed)
      → elim turn [ stop checked ↦ checked | go target ↦ check_path B load false target segments ]
        ≡ allowed
      → elim turn [ stop checked ↦ checked | go target ↦ check_path B load true target segments ]
        ≡ allowed
  turn_superuser (stop checked) segments f h = h
  turn_superuser (go target) segments f h = f target h

  check_path-superuser :
      (c : Collection F) (segments : List Str)
      → check_path B load false c segments ≡ allowed
      → check_path B load true c segments ≡ allowed
  unfolding check_path
  check_path-superuser c [] h = refl
  check_path-superuser c (s ∷ segments) h =
      let same = check_segment-superuser (is_empty segments) c s (
        turn_passes B load (check_segment B load false c s (is_empty segments)) false segments h) in
      rw (check_path, same)
        (turn_superuser (check_segment B load false c s (is_empty segments)) segments
          (λ target. check_path-superuser target segments) h)

  check_reference-superuser :
      (c : Collection F) (reference : PathReference)
      → check_reference B load false c reference ≡ allowed
      → check_reference B load true c reference ≡ allowed
  unfolding check_reference
  check_reference-superuser c (name, []) h = refl
  check_reference-superuser c (name, s ∷ segments) h =
      elim (Option-cases (start_of B load c name)) [
        | inl e ↦ absurd (ground (arith, e, h))
        | inr (start, e) ↦ ground (arith, e, h, check_path-superuser start (s ∷ segments))
      ]

  check_references-superuser :
      (c : Collection F) (references : List PathReference)
      → check_references B load false c references ≡ allowed
      → check_references B load true c references ≡ allowed
  unfolding check_references
  check_references-superuser c [] h = refl
  check_references-superuser c (x ∷ xs) h =
      let (first, later) =
        both_allowed B load (check_reference B load false c x) (check_references B load false c xs)
          h in
      rw (check_references, check_reference-superuser c x first)
        (check_references-superuser c xs later)

-- Condition: the guard lets a filter and a sort of another client pass. Then it lets them pass for a
-- superuser too.
pub assert_client_query_allowed-superuser :
    {F : Type 0} (B : Builtins F) (load : Value F → Option (Collection F)) (U : Unicode)
    (parse : Str → Option (List Node)) (c : Collection F) (filter sort : Str)
    → assert_client_query_allowed B load U parse c filter sort false ≡ allowed
    → assert_client_query_allowed B load U parse c filter sort true ≡ allowed
unfolding assert_client_query_allowed
assert_client_query_allowed-superuser B load U parse c filter sort h =
    elim (Bool-cases (is_empty filter && is_empty sort)) [
      | inl e ↦ ground (arith, e)
      | inr e ↦ elim (Option-cases (filter_references B load U parse filter)) [
        | inl f ↦ absurd (ground (arith, e, f, h))
        | inr (found, f) ↦ ground (
          arith,
          e,
          f,
          h,
          check_references-superuser B load c (found ++ sort_references B load U parse sort),
        )
      ]
    ]
