-- ===== src/Contracts/Errors.antt =====
-- internal/providers/contracts/errors.go, and the error values of the packages that meet in it.
-- A Go `error` is an interface value: `nil`, a `*ProviderError`, a gRPC status error, an error that
-- wraps another one (`fmt.Errorf` with `%w`), or one that is only a text.
use virtrigaud.Prelude.{Bool, true, false, ◌||◌, String}

pub data ErrorType : Type 0 where
  not_found invalid_spec retryable unauthorized not_supported : ErrorType
  rate_limit unavailable timeout quota_exceeded conflict : ErrorType

-- The status codes of google.golang.org/grpc/codes, by their names.
pub data Code : Type 0 where
  ok canceled unknown invalid_argument deadline_exceeded code_not_found already_exists : Code
  permission_denied resource_exhausted failed_precondition aborted out_of_range : Code
  unimplemented internal code_unavailable data_loss unauthenticated : Code

-- The fields of `provider_error` are Type, Message, Cause and Retryable.
pub data GoError : Type 0 where
  nil : GoError
  provider_error : ErrorType → String → GoError → Bool → GoError
  status_error : Code → String → GoError
  wrapped : String → GoError → GoError
  plain : String → GoError

-- err == nil
abbrev pub is_nil : GoError → Bool
is_nil nil = true
is_nil (provider_error t m c r) = false
is_nil (status_error c m) = false
is_nil (wrapped m e) = false
is_nil (plain m) = false

-- The part of (*ProviderError).IsRetryable that looks at the type.
abbrev type_is_retryable : ErrorType → Bool
type_is_retryable retryable = true
type_is_retryable unavailable = true
type_is_retryable timeout = true
type_is_retryable rate_limit = true
type_is_retryable _ = false

-- (*ProviderError).IsRetryable
unfoldable pub provider_is_retryable : ErrorType → Bool → Bool
provider_is_retryable t flag = flag || type_is_retryable t

abbrev type_is_not_found : ErrorType → Bool
type_is_not_found not_found = true
type_is_not_found _ = false

-- IsNotFound: `errors.As` looks for the first *ProviderError along the chain of `Unwrap`.
unfoldable pub is_not_found : GoError → Bool
is_not_found nil = false
is_not_found (provider_error t m c r) = type_is_not_found t
is_not_found (status_error c m) = false
is_not_found (wrapped m e) = is_not_found e
is_not_found (plain m) = false

-- (*ProviderError).Unwrap
unfoldable pub unwrap : GoError → GoError
unwrap (provider_error t m cause r) = cause
unwrap (wrapped m e) = e
unwrap _ = nil

-- The constructors, with the Retryable flag that each one sets.
unfoldable pub new_not_found_error : String → GoError → GoError
new_not_found_error message cause = provider_error not_found message cause false

unfoldable pub new_invalid_spec_error : String → GoError → GoError
new_invalid_spec_error message cause = provider_error invalid_spec message cause false

unfoldable pub new_retryable_error : String → GoError → GoError
new_retryable_error message cause = provider_error retryable message cause true

unfoldable pub new_unauthorized_error : String → GoError → GoError
new_unauthorized_error message cause = provider_error unauthorized message cause false

unfoldable pub new_not_supported_error : String → GoError
new_not_supported_error message = provider_error not_supported message nil false

unfoldable pub new_rate_limit_error : String → GoError → GoError
new_rate_limit_error message cause = provider_error rate_limit message cause true

unfoldable pub new_unavailable_error : String → GoError → GoError
new_unavailable_error message cause = provider_error unavailable message cause true

unfoldable pub new_timeout_error : String → GoError → GoError
new_timeout_error message cause = provider_error timeout message cause true

unfoldable pub new_quota_exceeded_error : String → GoError → GoError
new_quota_exceeded_error message cause = provider_error quota_exceeded message cause false

unfoldable pub new_conflict_error : String → GoError → GoError
new_conflict_error message cause = provider_error conflict message cause false
