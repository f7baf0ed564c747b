-- ===== src/CopyFormat/Result.antt =====
-- The errors of ppbase/backup/copy_format.py: a `CopyFormatError` is a constructor for each message.
use ppbase.Prelude.{Bool, true, false, ◌≡◌, refl}

pub data Fault : Type 0 where
  invalid_identifier long_identifier invalid_int invalid_hash no_columns duplicate_column : Fault
  unsupported_compression unknown_fields columns_not_array : Fault
  not_contiguous length_overflow past_the_end empty_claims_data over_ratio over_budget not_covered :
      Fault
  sink_refuses writer_closed already_open already_finished : Fault
  data_ended inflates_past not_zlib size_mismatch trailing_bytes unused_bytes : Fault
  compressed_hash_mismatch hash_mismatch bad_status row_mismatch : Fault
  -- An exception of the connection, and ValueError of `int`
  driver_error value_error : Fault
  -- TypeError, and UnicodeEncodeError
  type_error : Fault

-- What a function returns, or the exception that it ends with
pub data Result {ℓ} (A : Type ℓ) : Type ℓ where
  raises : Fault → Result A
  ok : A → Result A

module _ {ℓ κ} {A : Type ℓ} {B : Type κ} where
  infixl 5 ◌>>=◌
  abbrev pub ◌>>=◌ : Result A → (A → Result B) → Result B
  raises fault >>= next = raises fault
  ok value >>= next = next value

infixl 5 ◌>>◌
abbrev pub ◌>>◌ {κ} : {B : Type κ} → Result (Unit {0}) → Result B → Result B
test >> next = test >>= (λ (_ : Unit). next)

-- `raise` when the test holds
abbrev pub raise_if : Bool → Fault → Result (Unit {0})
raise_if true e = raises e
raise_if false e = ok tt

pub bind-eq-ok {ℓ κ} :
    {A : Type ℓ} {B : Type κ} (first : Result A) (next : A → Result B) (last : B)
    → (first >>= next) ≡ ok last
    → (value : A) × (first ≡ ok value) × (next value ≡ ok last)
bind-eq-ok (raises fault) next last h = cc
bind-eq-ok (ok value) next last h = (value, refl, h)

pub raise_if-eq-ok : (b : Bool) (e : Fault) (u : Unit {0}) → raise_if b e ≡ ok u → b ≡ false
raise_if-eq-ok true e u h = cc
raise_if-eq-ok false e u h = refl

pub ok-injective {ℓ} : {A : Type ℓ} {a b : A} → ok a ≡ ok b → a ≡ b
ok-injective h = cc
