-- ===== src/Sdk/Tests.antt =====
-- The errors of sdk/provider/errors/errors.go on small inputs.
use virtrigaud.Prelude.{◌≡◌, ◌≢◌, ◌↔◌, true, refl, String, [], ◌∷◌, Option, none, some, sprintf}
use virtrigaud.Contracts.Errors.{GoError, nil, status_error, Code, ok, unknown, resource_exhausted}
use virtrigaud.Resilience.Retry.{is_retryable}
use virtrigaud.Transport.Status.{StatusApi, map_grpc_error}
use virtrigaud.Sdk.Errors.{
  Failure, status_failure, sentinel, err_timeout, context, wrap, to_grpc_error, from_grpc_error,
  failure_is_retryable,
}
use virtrigaud.Sdk.Wire.{Made, native_wrapped, made_wrapped, made_error_retried}

sent : GoError → Option (Code × String)
sent nil = some (ok, "")
sent (status_error c m) = some (c, m)
sent _ = none

code_sent : GoError → Code
code_sent nil = ok
code_sent (status_error c m) = c
code_sent _ = unknown

abbrev direct : StatusApi
unfolding sent code_sent
direct = record {
  from_error = sent;
  code = code_sent;
  from_status = λ c m. refl;
  code_status = λ c m. refl;
}

read : Failure → Option (Code × String)
read (status_failure c m) = some (c, m)
read _ = none

read_status : (c : Code) (m : String) → read (status_failure c m) ≡ some (c, m)
unfolding read
read_status c m = refl

abbrev quote : String → String
quote s = sprintf ("\"" ∷ s ∷ "\"" ∷ [])

abbrev status_text : Code → String → String
status_text c m = sprintf ("rpc error: " ∷ m ∷ [])

-- A timeout with a context, wrapped twice.
abbrev timed_out : Failure
timed_out = wrap (wrap (context "qemu-img" (sentinel err_timeout)) "export") "disk 0"

abbrev timed_out_made : Made quote timed_out
timed_out_made =
    made_wrapped (native_wrapped (context "qemu-img" (sentinel err_timeout)) "export" refl) "disk 0"

made_error_retried_example :
    (c : Code) × (m : String) × (to_grpc_error status_text timed_out ≡ status_failure c m)
    × (failure_is_retryable read (from_grpc_error read (status_failure c m))
        ≡ failure_is_retryable read timed_out)
    × ((is_retryable (map_grpc_error direct "export" (status_error c m)) ≡ true)
        ↔ ((failure_is_retryable read timed_out ≡ true) × (c ≢ resource_exhausted)))
made_error_retried_example =
    made_error_retried quote status_text read read_status direct "export" timed_out_made
