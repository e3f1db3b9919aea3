-- ===== src/Reconcile/Errors.antt =====
-- controllers/distributedrediscluster/errors.go: errors with a type.
-- The package github.com/pkg/errors is a parameter: its errors, New, Wrapf and the text of an error.
use rediscluster_operator.Base.{◌≡◌, refl, Option, none, some, Text}

-- ErrorType
pub data ErrorType : Type 0 where
  no_type requeue kubernetes redis cluster stop_retry : ErrorType

-- An error: one of another package, or a customError, whose original error may be nil.
pub data Err (E : Type 0) : Type 0 where
  foreign : E → Err E
  custom : ErrorType → Option E → Err E

-- The functions of the package; nil is `none`.
pub record Library (E : Type 0) : Type 0 where
  pub new : Text → E
  pub wrapf : Option (Err E) → Text → Option E
  pub text : E → Text

module _ {E : Type 0} where
  -- GetType
  unfoldable pub get_type : Err E → ErrorType
  get_type (foreign e) = no_type
  get_type (custom t original) = t

module _ {E : Type 0} (lib : Library E) where
  -- New of an error type.
  unfoldable pub new_error : ErrorType → Text → Err E
  new_error t msg = custom t (some (lib.new msg))

  -- Wrap and Wrapf of an error type.
  unfoldable pub wrap : ErrorType → Option (Err E) → Text → Err E
  wrap t err msg = custom t (lib.wrapf err msg)

  -- Wrap and Wrapf of the package.
  unfoldable pub wrap_any : Option (Err E) → Text → Err E
  wrap_any none msg = custom no_type (lib.wrapf none msg)
  wrap_any (some (foreign e)) msg = custom no_type (lib.wrapf (some (foreign e)) msg)
  wrap_any (some (custom t original)) msg = custom t (lib.wrapf (some (custom t original)) msg)

  -- Error: `none` is the panic on an original error that is nil.
  unfoldable pub error_text : Err E → Option Text
  error_text (foreign e) = some (lib.text e)
  error_text (custom t none) = none
  error_text (custom t (some e)) = some (lib.text e)

  -- Wrapping keeps the type of an error.
  pub get_type-wrap_any : (e : Err E) (msg : Text) → get_type (wrap_any (some e) msg) ≡ get_type e
  unfolding get_type wrap_any
  get_type-wrap_any (foreign e) msg = refl
  get_type-wrap_any (custom t original) msg = refl
