-- ===== src/Tests/ClientFilter.antt =====
-- Client filters at concrete inputs: `posts` has the field `author`, a relation to `users`, which
-- hides `salary`.
use ppbase.Prelude.{
  if◌then◌else◌, Str, codes, text_eq, contains, has_char, strip, split_on, starts_with, drop_while,
  take_while, List, [], ◌∷◌, Bool, true, false, Option, none, some, ◌≡◌, refl,
}
use mathlib.Core.List.{Memᴰ}
use ppbase.Value.{Value, bool, text, dict, Fields, end, field, get, truthy}
use ppbase.Tests.Ascii.{ascii, builtins}
use ppbase.ClientFilter.Paths.{
  Node, field_path, paths, unmodified_all, sort_paths, sort_parts, schema_fields, lookup,
}
use ppbase.ClientFilter.Guard.{
  Collection, Checked, allowed, invalid_field, is_system, partition_via, target_id,
  check_definition, check_field, check_via, check_segment, check_path, check_reference,
  check_references, filter_references, sort_references, assert_client_query_allowed,
}
use ppbase.ClientFilter.Visits.{
  Visits, here, through, forward, IsOpen, assert_client_query_allowed-IsOpen,
}
use ppbase.ClientFilter.Superuser.{assert_client_query_allowed-superuser}

abbrev author : Fields Unit
author = field (codes "name") (text (codes "author")) (
    field (codes "type") (text (codes "relation")) (
      field (codes "options") (dict (field (codes "collectionId") (text (codes "users")) end)) end))

abbrev salary : Fields Unit
salary = field (codes "name") (text (codes "salary")) (field (codes "hidden") (bool true) end)

abbrev posts : Collection Unit
posts = record { type = codes "base"; schema = author ∷ [] }

abbrev users : Collection Unit
users = record { type = codes "auth"; schema = salary ∷ [] }

abbrev load : Value Unit → Option (Collection Unit)
load (text name) = if text_eq name (codes "users") then some users else none
load _ = none

-- A parser of one path.
abbrev parse : Str → Option (List Node)
parse filter = some (field_path (split_on b'.' filter) ∷ [])

abbrev guard : Str → Str → Bool → Checked
guard filter sort superuser =
    assert_client_query_allowed builtins load ascii parse posts filter sort superuser

email_allowed : guard (codes "author.email") (codes "-created") false ≡ allowed
unfolding assert_client_query_allowed filter_references sort_references sort_paths sort_parts paths
    unmodified_all check_references check_reference check_path check_segment check_field check_via
    check_definition target_id partition_via is_system lookup schema_fields get truthy text_eq
    contains has_char strip split_on starts_with drop_while take_while
email_allowed = refl

salary_refused : guard (codes "author.salary") [] false ≡ invalid_field (codes "salary")
unfolding assert_client_query_allowed filter_references sort_references sort_paths sort_parts paths
    unmodified_all check_references check_reference check_path check_segment check_field check_via
    check_definition target_id partition_via is_system lookup schema_fields get truthy text_eq
    contains has_char strip split_on starts_with drop_while take_while
salary_refused = refl

salary_for_superuser : guard (codes "author.salary") [] true ≡ allowed
unfolding assert_client_query_allowed filter_references sort_references sort_paths sort_parts paths
    unmodified_all check_references check_reference check_path check_segment check_field check_via
    check_definition target_id partition_via is_system lookup schema_fields get truthy text_eq
    contains has_char strip split_on starts_with drop_while take_while
salary_for_superuser = refl

secret_refused : guard [] (codes "author.tokenKey") true ≡ invalid_field (codes "tokenKey")
unfolding assert_client_query_allowed filter_references sort_references sort_paths sort_parts paths
    unmodified_all check_references check_reference check_path check_segment check_field check_via
    check_definition target_id partition_via is_system lookup schema_fields get truthy text_eq
    contains has_char strip split_on starts_with drop_while take_while
secret_refused = refl

abbrev segments : List Str
segments = codes "author" ∷ codes "email" ∷ []

references :
    filter_references builtins load ascii parse (codes "author.email")
    ≡ some ((none, segments) ∷ [])
unfolding assert_client_query_allowed filter_references sort_references sort_paths sort_parts paths
    unmodified_all check_references check_reference check_path check_segment check_field check_via
    check_definition target_id partition_via is_system lookup schema_fields get truthy text_eq
    contains has_char strip split_on starts_with drop_while take_while
references = refl

email_visited : Visits builtins load posts segments users (codes "email")
unfolding assert_client_query_allowed filter_references sort_references sort_paths sort_parts paths
    unmodified_all check_references check_reference check_path check_segment check_field check_via
    check_definition target_id partition_via is_system lookup schema_fields get truthy text_eq
    contains has_char strip split_on starts_with drop_while take_while
email_visited =
    through
      (forward ((codes "author", author) ∷ []) author (text (codes "users")) refl refl refl refl
        refl refl refl)
      here

assert_client_query_allowed-IsOpen_example : IsOpen builtins load false users (codes "email")
assert_client_query_allowed-IsOpen_example =
    assert_client_query_allowed-IsOpen builtins load ascii parse posts posts users
      (codes "author.email") (codes "-created") false ((none, segments) ∷ []) none segments
      (codes "email") email_allowed references (Memᴰ.head refl) refl email_visited

assert_client_query_allowed-superuser_example :
    guard (codes "author.email") (codes "-created") true ≡ allowed
assert_client_query_allowed-superuser_example =
    assert_client_query_allowed-superuser builtins load ascii parse posts (codes "author.email")
      (codes "-created") email_allowed
