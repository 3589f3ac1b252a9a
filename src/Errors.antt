-- ===== src/Errors.antt =====
-- nogil_data_plane/errors.py: the exception classes of the data plane, with the built-in ones and
-- those of nogil_rpc that the code raises or catches, and a result that a call may raise into.
use freethreaded_dataplane.Common.{
  ◌≡◌, refl, ap, ◌⊎◌, inl, inr, Bool, true, false, Option, none, some, String,
}
use freethreaded_dataplane.Common.Text.{◌<>◌}

pub data ErrorKind : Type 0 where
  value_error type_error key_error index_error attribute_error runtime_error : ErrorKind
  data_plane connection_closed protocol version_mismatch invalid_object : ErrorKind
  invalid_state domain_operation actor_failed data_plane_cancelled : ErrorKind
  -- The instance attributes `code` and `fatal`.
  remote_data_plane : String → Bool → ErrorKind
  serialization_error : ErrorKind
  -- A class that the sources do not declare, by its name.
  foreign : String → ErrorKind

-- `message` is what `str(exc)` gives.
pub record Exception : Type 0 where
  pub kind : ErrorKind
  pub message : String

pub data Result {ℓ} (A : Type ℓ) : Type ℓ where
  ok : A → Result A
  err : Exception → Result A

-- `type(exc).__name__`
unfoldable pub type_name : ErrorKind → String
type_name value_error = "ValueError"
type_name type_error = "TypeError"
type_name key_error = "KeyError"
type_name index_error = "IndexError"
type_name attribute_error = "AttributeError"
type_name runtime_error = "RuntimeError"
type_name data_plane = "DataPlaneError"
type_name connection_closed = "ConnectionClosedError"
type_name protocol = "ProtocolError"
type_name version_mismatch = "VersionMismatchError"
type_name invalid_object = "InvalidObjectError"
type_name invalid_state = "InvalidStateError"
type_name domain_operation = "DomainOperationError"
type_name actor_failed = "ActorFailedError"
type_name data_plane_cancelled = "DataPlaneCancelledError"
type_name (remote_data_plane code fatal) = "RemoteDataPlaneError"
type_name serialization_error = "SerializationError"
type_name (foreign name) = name

-- The attribute `code` of an exception, where its class or the instance has one.
unfoldable pub code : ErrorKind → Option String
code protocol = some "BAD_FRAME"
code version_mismatch = some "VERSION_MISMATCH"
code invalid_object = some "INVALID_OBJECT"
code invalid_state = some "INVALID_STATE"
code domain_operation = some "DOMAIN_OPERATION_FAILED"
code actor_failed = some "ACTOR_FAILED"
code (remote_data_plane c fatal) = some c
code _ = none

abbrev pub exception : ErrorKind → String → Exception
exception k m = record { kind = k; message = m }

-- `RemoteDataPlaneError(code, message, fatal=fatal)`
abbrev pub remote_data_plane_error : String → String → Bool → Exception
remote_data_plane_error code message fatal =
    exception (remote_data_plane code fatal) (code <> ": " <> message)

module _ {ℓ} {B : Type ℓ} where
  infixl 5 ◌>>=◌ ◌>>◌
  -- What follows a raise does not run.
  abbrev pub ◌>>=◌ {κ} : {A : Type κ} → Result A → (A → Result B) → Result B
  err exc >>= next = err exc
  ok value >>= next = next value

  abbrev pub ◌>>◌ : Result (Unit {0}) → Result B → Result B
  err exc >> next = err exc
  ok done >> next = next

abbrev pub raise_if : Bool → Exception → Result (Unit {0})
raise_if true e = err e
raise_if false e = ok tt

abbrev pub or_raise {ℓ} : {A : Type ℓ} → Option A → Exception → Result A
or_raise none e = err e
or_raise (some a) e = ok a

pub Result-cases {ℓ} :
    {A : Type ℓ} (r : Result A) → ((a : A) × (r ≡ ok a)) ⊎ ((e : Exception) × (r ≡ err e))
Result-cases (ok a) = inl (a, refl)
Result-cases (err e) = inr (e, refl)

-- What a sequence that gave a value did.
pub bind-eq-ok {ℓ κ} :
    {A : Type κ} {B : Type ℓ} (r : Result A) (next : A → Result B) {b : B}
    → (r >>= next) ≡ ok b
    → (a : A) × (r ≡ ok a) × (next a ≡ ok b)
bind-eq-ok (ok a) next h = (a, refl, h)
bind-eq-ok (err e) next h = cc

pub bind-ok {ℓ κ} :
    {A : Type κ} {B : Type ℓ} (r : Result A) (next : A → Result B) {a : A}
    → r ≡ ok a
    → (r >>= next) ≡ next a
bind-ok r next h = ap (λ r. r >>= next) h

pub found_inv {ℓ κ} :
    {A : Type κ} {B : Type ℓ} (o : Option A) (e : Exception) (next : A → Result B) {b : B}
    → (or_raise o e >>= next) ≡ ok b
    → (a : A) × (o ≡ some a) × (next a ≡ ok b)
found_inv none e next h = cc
found_inv (some a) e next h = (a, refl, h)

pub guard_inv {ℓ} :
    {B : Type ℓ} (c : Bool) (e : Exception) (r : Result B) {b : B}
    → (raise_if c e >> r) ≡ ok b
    → (c ≡ false) × (r ≡ ok b)
guard_inv true e r h = cc
guard_inv false e r h = (refl, h)

pub found_ok {ℓ κ} :
    {A : Type κ} {B : Type ℓ} (o : Option A) (e : Exception) (next : A → Result B) {a : A}
    → o ≡ some a
    → (or_raise o e >>= next) ≡ next a
found_ok o e next h = ap (λ o. or_raise o e >>= next) h

pub guard_ok {ℓ} :
    {B : Type ℓ} (c : Bool) (e : Exception) (r : Result B) → c ≡ false → (raise_if c e >> r) ≡ r
guard_ok c e r h = ap (λ c. raise_if c e >> r) h
