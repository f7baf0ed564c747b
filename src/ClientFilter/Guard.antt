-- ===== src/ClientFilter/Guard.antt =====
-- `_check_path` and `assert_client_query_allowed` (ppbase/services/client_filter_guard.py). The
-- parser of filters and the loader of collections, which asks the database, are parameters.
use ppbase.Prelude.{
  Str, Unicode, codes, text_eq, contains, starts_with, List, [], ◌∷◌, ◌++◌, Bool, false, not, ◌&&◌,
  ◌||◌, Option, none, some, map, is_empty, drop, if◌then◌else◌,
}
use mathlib.Core.Option
use ppbase.Value.{Value, text, list, dict, Fields, end, Builtins, get_null, truthy}
use ppbase.ClientFilter.Paths.{Node, PathReference, paths, sort_paths, schema_fields, lookup}

pub record Collection (F : Type 0) : Type 0 where
  pub type : Str
  pub schema : List (Fields F)

-- How the guard ends: the three messages of ValueError, and errors of a malformed schema.
pub data Checked : Type 0 where
  allowed : Checked
  invalid_field : Str → Checked
  invalid_collection : Option Str → Checked
  invalid_syntax : Checked
  schema_error : Checked

-- How one turn of the loop ends: it leaves the function or goes on in a collection.
pub data Turn (F : Type 0) : Type 0 where
  stop : Checked → Turn F
  go : Collection F → Turn F

abbrev pub protected_fields : List Str
protected_fields =
    codes "password"
    ∷ codes "password_hash"
    ∷ codes "passwordHash"
    ∷ codes "tokenKey"
    ∷ codes "token_key"
    ∷ []

abbrev pub base_fields : List Str
base_fields = codes "id" ∷ codes "created" ∷ codes "updated" ∷ []

abbrev pub auth_fields : List Str
auth_fields =
    codes "email" ∷ codes "emailVisibility" ∷ codes "email_visibility" ∷ codes "verified" ∷ []

unfoldable pub is_system : Str → Str → Bool
is_system type segment =
    contains base_fields segment || (text_eq type (codes "auth") && contains auth_fields segment)

-- `segment.partition("_via_")`; `none` where the separator is not in the segment
unfoldable pub partition_via : Str → Option (Str × Str)
partition_via [] = none
partition_via (c ∷ s) =
    let later = Option.map (λ (split : Str × Str). (c ∷ split.0, split.1)) (partition_via s) in
    if starts_with (c ∷ s) (codes "_via_") then some ([], drop 5 (c ∷ s)) else later

module _ {F : Type 0} (B : Builtins F) (load : Value F → Option (Collection F)) where
  -- `definition.get("type") == "relation"`
  abbrev pub is_relation : Value F → Bool
  is_relation (text type) = text_eq type (codes "relation")
  is_relation _ = false

  abbrev pub or_else : Value F → Value F → Value F
  or_else a b = if truthy B a then a else b

  abbrev id_in : Fields F → Fields F → Value F
  id_in options definition =
      or_else (get_null (codes "collectionId") options)
        (or_else (get_null (codes "collectionId") definition) (text []))

  abbrev id_of : Value F → Fields F → Option (Value F)
  id_of (dict options) definition = some (id_in options definition)
  id_of _ definition = none

  -- The collection that a relation names; `none` is AttributeError.
  unfoldable pub target_id : Fields F → Option (Value F)
  target_id definition =
      id_of (or_else (get_null (codes "options") definition) (dict end)) definition

  -- `await loader.collection(...)` and the test behind it
  abbrev enter_target : Str → Option (Collection F) → Turn F
  enter_target segment none = stop (invalid_field segment)
  enter_target segment (some target) = go target

  abbrev follow : Str → Option (Value F) → Turn F
  follow segment none = stop schema_error
  follow segment (some (list _)) = stop schema_error
  follow segment (some (dict _)) = stop schema_error
  follow segment (some id) = enter_target segment (load id)

  -- The tests of a field with its definition
  unfoldable pub check_definition : Bool → Str → Bool → Fields F → Turn F
  check_definition allow_hidden segment last definition =
      if truthy B (get_null (codes "hidden") definition) && not allow_hidden
      then stop (invalid_field segment)
      else if last || not (is_relation (get_null (codes "type") definition))
      then stop allowed
      else follow segment (target_id definition)

  abbrev check_known : Bool → Str → Bool → Option (Fields F) → Turn F
  check_known allow_hidden segment last none = stop (invalid_field segment)
  check_known allow_hidden segment last (some definition) =
      check_definition allow_hidden segment last definition

  unfoldable pub check_field : Bool → Str → Str → Bool → Option (List (Str × Fields F)) → Turn F
  check_field allow_hidden type segment last none = stop schema_error
  check_field allow_hidden type segment last (some fields) =
      if is_system type segment
      then stop allowed
      else check_known allow_hidden segment last (lookup segment fields)

  abbrev check_back : Str → Collection F → Option (Option (Fields F)) → Turn F
  check_back segment target none = stop schema_error
  check_back segment target (some none) = stop (invalid_field segment)
  check_back segment target (some (some _)) = go target

  -- The branch for a back relation
  unfoldable pub check_via : Str → Str → Option (Collection F) → Turn F
  check_via segment via_field none = stop (invalid_field segment)
  check_via segment via_field (some target) =
      check_back segment target (Option.map (lookup via_field) (schema_fields B target.schema))

  abbrev check_split : Bool → Collection F → Str → Bool → Option (Str × Str) → Turn F
  check_split allow_hidden current segment last (some (target_name, via_field)) =
      check_via segment via_field (load (text target_name))
  check_split allow_hidden current segment last none =
      check_field allow_hidden current.type segment last (schema_fields B current.schema)

  -- One turn of the loop of `_check_path`.
  unfoldable pub check_segment : Bool → Collection F → Str → Bool → Turn F
  check_segment allow_hidden current segment last =
      if contains protected_fields segment
      then stop (invalid_field segment)
      else check_split allow_hidden current segment last (partition_via segment)

  unfoldable pub check_path : Bool → Collection F → List Str → Checked
  check_path allow_hidden current [] = allowed
  check_path allow_hidden current (segment ∷ segments) =
      elim (check_segment allow_hidden current segment (is_empty segments)) [
        | stop checked ↦ checked
        | go target ↦ check_path allow_hidden target segments
      ]

  abbrev pub start_of : Collection F → Option Str → Option (Collection F)
  start_of collection none = some collection
  start_of collection (some name) = load (text name)

  abbrev check_from : Bool → Option Str → List Str → Option (Collection F) → Checked
  check_from superuser name segments none = invalid_collection name
  check_from superuser name segments (some start) = check_path superuser start segments

  unfoldable pub check_reference : Bool → Collection F → PathReference → Checked
  check_reference superuser collection (name, segments) =
      if is_empty segments
      then allowed
      else check_from superuser name segments (start_of collection name)

  unfoldable pub check_references : Bool → Collection F → List PathReference → Checked
  check_references superuser collection [] = allowed
  check_references superuser collection (reference ∷ references) =
      elim (check_reference superuser collection reference) [
        | allowed ↦ check_references superuser collection references
        | checked ↦ checked
      ]

  module _ (U : Unicode) (parse : Str → Option (List Node)) where
    -- The references of the filter, if it is not empty; `none` is an exception.
    unfoldable pub filter_references : Str → Option (List PathReference)
    filter_references filter =
        if is_empty filter then some [] else Option.map (λ nodes. paths nodes) (parse filter)

    unfoldable pub sort_references : Str → List PathReference
    sort_references sort =
        if is_empty sort then [] else map (λ path. (none, path)) (sort_paths U sort)

    -- A missing filter or sort is the empty text, which the code treats alike.
    unfoldable pub assert_client_query_allowed : Collection F → Str → Str → Bool → Checked
    assert_client_query_allowed collection filter sort superuser =
        if is_empty filter && is_empty sort then allowed else elim (filter_references filter) [
          | none ↦ invalid_syntax
          | some found ↦ check_references superuser collection (found ++ sort_references sort)
        ]
