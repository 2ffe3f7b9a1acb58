-- ===== src/Sdk/Errors.antt =====
-- sdk/provider/errors/errors.go: the errors a provider service makes, how they are wrapped and
-- classified, and the gRPC status that each one becomes.
-- The text of a status error, the quoted form of a text (%q) and status.FromError are parameters.
use virtrigaud.Prelude.{ℕ, Bool, true, false, String, [], ◌∷◌, Option, none, some, sprintf}
use virtrigaud.Contracts.Errors.{
  Code, ok, canceled, invalid_argument, deadline_exceeded, code_not_found, already_exists,
  permission_denied, resource_exhausted, unimplemented, internal, code_unavailable,
}

-- ErrInvalidSpec and the eight other error values.
pub data Sentinel : Type 0 where
  err_invalid_spec err_not_found err_already_exists err_permission_denied : Sentinel
  err_unavailable err_internal err_unimplemented err_timeout err_canceled : Sentinel

-- An error of a provider service. The fields of `provider` are Code, Message, Cause, Retryable and
-- RetryAfter; Details is only ever copied and is left out.
pub data Failure : Type 0 where
  nil_failure : Failure
  provider : Code → String → Failure → Bool → ℕ → Failure
  status_failure : Code → String → Failure
  sentinel : Sentinel → Failure
  context : String → Failure → Failure
  other : String → Failure

abbrev sentinel_text : Sentinel → String
sentinel_text err_invalid_spec = "invalid specification"
sentinel_text err_not_found = "resource not found"
sentinel_text err_already_exists = "resource already exists"
sentinel_text err_permission_denied = "permission denied"
sentinel_text err_unavailable = "service unavailable"
sentinel_text err_internal = "internal error"
sentinel_text err_unimplemented = "operation not implemented"
sentinel_text err_timeout = "operation timeout"
sentinel_text err_canceled = "operation canceled"

-- isRetryable
unfoldable pub code_is_retryable : Code → Bool
code_is_retryable code_unavailable = true
code_is_retryable resource_exhausted = true
code_is_retryable deadline_exceeded = true
code_is_retryable _ = false

-- One case of classifyError
abbrev sentinel_code : Sentinel → Code
sentinel_code err_invalid_spec = invalid_argument
sentinel_code err_not_found = code_not_found
sentinel_code err_already_exists = already_exists
sentinel_code err_permission_denied = permission_denied
sentinel_code err_unavailable = code_unavailable
sentinel_code err_internal = internal
sentinel_code err_unimplemented = unimplemented
sentinel_code err_timeout = deadline_exceeded
sentinel_code err_canceled = canceled

-- classifyError: `errors.Is` follows Unwrap to the error value at the end of the chain.
unfoldable pub classify_error : Failure → Code
classify_error nil_failure = internal
classify_error (provider c m cause r a) = classify_error cause
classify_error (status_failure c m) = internal
classify_error (sentinel s) = sentinel_code s
classify_error (context m e) = classify_error e
classify_error (other m) = internal

-- The constructors. A formatted message is an argument.
unfoldable pub new_invalid_spec : String → Failure
new_invalid_spec message = provider invalid_argument message nil_failure false 0

unfoldable pub new_permission_denied : String → Failure
new_permission_denied operation =
    provider permission_denied (sprintf ("permission denied: " ∷ operation ∷ [])) nil_failure false
      0

unfoldable pub new_unavailable : String → Failure → Failure
new_unavailable service cause =
    provider code_unavailable (sprintf ("service unavailable: " ∷ service ∷ [])) cause true 0

unfoldable pub new_internal : String → Failure → Failure
new_internal message cause = provider internal message cause false 0

unfoldable pub new_unimplemented : String → Failure
new_unimplemented operation =
    provider unimplemented (sprintf ("operation not implemented: " ∷ operation ∷ [])) nil_failure
      false 0

-- The second text is that of the duration.
unfoldable pub new_timeout : String → String → Failure
new_timeout operation duration =
    provider deadline_exceeded
      (sprintf ("operation " ∷ operation ∷ " timed out after " ∷ duration ∷ [])) nil_failure true 0

unfoldable pub new_rate_limit : ℕ → Failure
new_rate_limit retry_after =
    provider resource_exhausted "rate limit exceeded" nil_failure true retry_after

unfoldable pub new_canceled : String → Failure
new_canceled operation =
    provider canceled (sprintf ("operation canceled: " ∷ operation ∷ [])) nil_failure false 0

-- Wrap
unfoldable pub wrap : Failure → String → Failure
wrap nil_failure message = nil_failure
wrap (provider c m cause r a) message = provider c message (provider c m cause r a) r a
wrap err message =
    provider (classify_error err) message err (code_is_retryable (classify_error err)) 0

module _ (quote : String → String) where
  unfoldable pub new_not_found : String → String → Failure
  new_not_found resource id =
      provider code_not_found (sprintf (resource ∷ " " ∷ quote id ∷ " not found" ∷ [])) nil_failure
        false 0

  unfoldable pub new_already_exists : String → String → Failure
  new_already_exists resource id =
      provider already_exists (sprintf (resource ∷ " " ∷ quote id ∷ " already exists" ∷ []))
        nil_failure false 0

-- (*status.Status).Err: no error for the code OK
unfoldable pub status_err : Code → String → Failure
status_err ok m = nil_failure
status_err c m = status_failure c m

module _ (status_text : Code → String → String) where
  -- Error
  unfoldable pub error : Failure → String
  error nil_failure = ""
  error (provider c m nil_failure r a) = m
  error (provider c m cause r a) = sprintf (m ∷ ": " ∷ error cause ∷ [])
  error (status_failure c m) = status_text c m
  error (sentinel s) = sentinel_text s
  error (context m e) = sprintf (m ∷ ": " ∷ error e ∷ [])
  error (other m) = m

  -- ToGRPCError
  unfoldable pub to_grpc_error : Failure → Failure
  to_grpc_error nil_failure = nil_failure
  to_grpc_error (provider c m cause r a) = status_err c (error (provider c m cause r a))
  to_grpc_error err = status_err internal (error err)

module _ (from_error : Failure → Option (Code × String)) where
  -- FromGRPCError
  unfoldable pub from_grpc_error : Failure → Failure
  from_grpc_error nil_failure = nil_failure
  from_grpc_error err = elim (from_error err) [
    | none ↦ new_internal "unknown error" err
    | some (c, message) ↦ provider c message nil_failure (code_is_retryable c) 0
  ]

  -- IsRetryable
  unfoldable pub failure_is_retryable : Failure → Bool
  failure_is_retryable (provider c m cause r a) = r
  failure_is_retryable err = elim (from_error err) [
    | none ↦ false
    | some (c, message) ↦ code_is_retryable c
  ]
