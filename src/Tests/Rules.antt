-- ===== src/Tests/Rules.antt =====
-- A rule at a concrete input: a token whose payload claims to be an admin's.
use ppbase.Prelude.{codes, [], true, Option, none, some, ◌≡◌, ◌≢◌, ◌↔◌, ◌⊎◌}
use ppbase.Value.{Fields, field, end, bool, text}
use ppbase.Tests.Ascii.{builtins}
use ppbase.Rules.{granted, denied, filtered, Admin, check_rule, build_auth_context, check_rule_iff}

abbrev payload : Option (Fields Unit)
payload = some (field (codes "is_admin") (bool true) (field (codes "id") (text (codes "u1")) end))

abbrev no_admin : Option (Admin Unit)
no_admin = none

abbrev context : Option (Fields Unit)
context = build_auth_context payload no_admin

check_rule_iff_example :
    ((check_rule builtins (some (codes "a=1")) context ≡ granted)
      ↔ ((some (codes "a=1") ≡ some []) ⊎ (no_admin ≢ none)))
    × ((check_rule builtins (some (codes "a=1")) context ≡ denied)
        ↔ ((some (codes "a=1") ≡ none) × (no_admin ≡ none)))
    × ((check_rule builtins (some (codes "a=1")) context ≡ filtered (codes "a=1"))
        ↔ ((some (codes "a=1") ≡ some (codes "a=1")) × (codes "a=1" ≢ []) × (no_admin ≡ none)))
check_rule_iff_example = check_rule_iff builtins (some (codes "a=1")) payload no_admin (codes "a=1")
