-- ===== src/Base/Errors.antt =====
-- Exceptions as values. `connector_error` is the `ConnectorError` of
-- packages/application/src/portfolio_manager/application/connectors.py, with its fields.
-- `timeout_exception` and `network_error` are the two families of httpx exceptions that the
-- transports catch, `http_exception` any other exception of httpx.
use Prim.Native.Nat.{ℕ}
use portfolio_manager.Base.Texts.{Text}
use portfolio_manager.Base.Int.{ℤ}
use Prim.Native.String.{String}
use mathlib.Core.Path.{◌≡◌, refl}
use mathlib.Core.Logic.{◌⊎◌, inl, inr}
use mathlib.Core.Bool.{Bool, true, false}
use mathlib.Core.Option.{Option}
use mathlib.Core.List.{List}

pub data ConnectorFailureKind : Type 0 where
  authentication permission rate_limit transient validation unsupported permanent :
      ConnectorFailureKind

pub data Error : Type 0 where
  value_error : String → Error
  -- `ValueError(f"{field_name} exceeds {maximum} characters")`
  too_long : String → ℕ → Error
  -- the `ValueError` of a dependency cycle, with the names that it joins
  dependency_cycle : List Text → Error
  -- a `ValueError` whose message tells the text
  bad_text : String → Text → Error
  -- a `ValueError` that a module lists modules without a rule
  unknown_modules : Text → List Text → Error
  os_error : Error
  -- SQLAlchemy's `IntegrityError`, and the `NonceConflictError` and the `SecretDecryptionError` of
  -- packages/persistence, which are `ValueError`s
  integrity_error nonce_conflict secret_decryption_error : Error
  -- the exceptions of the package cryptography that are no `ValueError`s
  invalid_tag invalid_unwrap : Error
  overflow_error type_error key_error recursion_error : Error
  timeout_exception network_error : Error
  http_exception : String → Error
  -- the kind, the reason code and `retry_after` in microseconds
  connector_error : ConnectorFailureKind → Text → Option ℤ → Error

-- The errors that `except ValueError` catches.
abbrev pub is_value_error : Error → Bool
is_value_error (value_error text) = true
is_value_error (too_long name maximum) = true
is_value_error (dependency_cycle chain) = true
is_value_error (bad_text text name) = true
is_value_error (unknown_modules name others) = true
is_value_error nonce_conflict = true
is_value_error secret_decryption_error = true
is_value_error _ = false

pub data Result {ℓ} (A : Type ℓ) : Type ℓ where
  ok : A → Result A
  err : Error → Result A

-- An exception ends what follows it.
infixl 5 ◌>>=◌ ◌>>◌
abbrev pub ◌>>=◌ {ℓ ℓ'} : {A : Type ℓ} → {B : Type ℓ'} → Result A → (A → Result B) → Result B
err raised >>= next = err raised
ok value >>= next = next value

-- A statement that gives no value, and the statements after it.
abbrev pub ◌>>◌ {ℓ} : {B : Type ℓ} → Result (Unit {0}) → Result B → Result B
check >> rest = check >>= λ done. rest

-- `if test: raise e`
abbrev pub raise_if : Bool → Error → Result (Unit {0})
raise_if true e = err e
raise_if false e = ok tt

-- A step that is made only of a value that is there.
abbrev pub for_some {ℓ κ} :
    {A : Type ℓ} {B : Type κ} → Option A → (A → Result B) → Result (Option B)
for_some Option.none f = ok Option.none
for_some (Option.some a) f = do b ← f a; ok (Option.some b)

-- A check that is made only of a value that is there.
abbrev pub check_some {ℓ} : {A : Type ℓ} → Option A → (A → Result (Unit {0})) → Result (Unit {0})
check_some Option.none f = ok tt
check_some (Option.some a) f = f a

module _ {ℓ ℓ'} {A : Type ℓ} {B : Type ℓ'} where
  pub >>=-eq-ok :
      (r : Result A) (next : A → Result B) {b : B}
      → (r >>= next) ≡ ok b
      → (value : A) × (r ≡ ok value) × (next value ≡ ok b)
  >>=-eq-ok (err raised) next h = cc
  >>=-eq-ok (ok value) next h = (value, refl, h)

pub raise_if-ok : (b : Bool) (e : Error) → raise_if b e ≡ ok tt → b ≡ false
raise_if-ok true e h = cc
raise_if-ok false e h = refl

pub ok-injective {ℓ} : {A : Type ℓ} {a b : A} → ok a ≡ ok b → a ≡ b
ok-injective h = cc

pub Result-cases {ℓ} :
    {A : Type ℓ} (r : Result A) → ((a : A) × (r ≡ ok a)) ⊎ ((e : Error) × (r ≡ err e))
Result-cases (ok a) = inl (a, refl)
Result-cases (err e) = inr (e, refl)
