-- ===== src/Transport/Status.antt =====
-- internal/transport/grpc/client.go: how gRPC errors are classified and translated. The package
-- google.golang.org/grpc/status is a parameter.
use virtrigaud.Prelude.{
  ◌≡◌, ◌↔◌, ◌⊎◌, Bool, true, false, String, [], ◌∷◌, Option, none, some, sprintf, arith,
  if◌then◌else◌,
}
use virtrigaud.Contracts.Errors.{
  GoError, status_error, wrapped, plain, Code, unknown, invalid_argument, deadline_exceeded,
  code_not_found, internal, code_unavailable, is_nil, is_not_found, new_not_found_error,
  new_invalid_spec_error, new_retryable_error,
}
use virtrigaud.Resilience.Retry.{is_retryable}

-- status.FromError and status.Code, with what their documentation says of the errors that carry a
-- status themselves.
pub record StatusApi : Type 0 where
  pub from_error : GoError → Option (Code × String)
  pub code : GoError → Code
  pub from_status : (c : Code) (m : String) → from_error (status_error c m) ≡ some (c, m)
  pub code_status : (c : Code) (m : String) → code (status_error c m) ≡ c

-- The switch of isInfraFailure
abbrev pub is_infra_code : Code → Bool
is_infra_code code_unavailable = true
is_infra_code deadline_exceeded = true
is_infra_code internal = true
is_infra_code unknown = true
is_infra_code _ = false

pub data Translation : Type 0 where
  as_not_found as_invalid_spec as_retryable as_plain : Translation

-- The switch of mapGRPCError
translation : Code → Translation
translation code_not_found = as_not_found
translation invalid_argument = as_invalid_spec
translation code_unavailable = as_retryable
translation deadline_exceeded = as_retryable
translation _ = as_plain

translate : Translation → String → String → GoError → GoError
translate as_not_found operation message err =
    new_not_found_error (sprintf (operation ∷ ": " ∷ message ∷ [])) err
translate as_invalid_spec operation message err =
    new_invalid_spec_error (sprintf (operation ∷ ": " ∷ message ∷ [])) err
translate as_retryable operation message err =
    new_retryable_error (sprintf (operation ∷ ": " ∷ message ∷ [])) err
translate as_plain operation message err = plain (sprintf (operation ∷ " failed: " ∷ message ∷ []))

module _ (api : StatusApi) where
  open api use {from_error, code, from_status}

  -- isInfraFailure
  unfoldable pub is_infra_failure : GoError → Bool
  is_infra_failure err = if is_nil err then false else is_infra_code (code err)

  -- mapGRPCError
  unfoldable pub map_grpc_error : String → GoError → GoError
  unfolding translation translate
  map_grpc_error operation err = elim (from_error err) [
    | none ↦ wrapped (sprintf (operation ∷ " failed" ∷ [])) err
    | some (c, message) ↦ translate (translation c) operation message err
  ]

  -- A status error is translated into an error that the retry loop retries exactly if its code is
  -- Unavailable or DeadlineExceeded.
  pub is_retryable-map :
      (operation message : String) (c : Code)
      → (is_retryable (map_grpc_error operation (status_error c message)) ≡ true)
        ↔ ((c ≡ code_unavailable) ⊎ (c ≡ deadline_exceeded))
  unfolding map_grpc_error is_retryable new_not_found_error new_invalid_spec_error
      new_retryable_error
  is_retryable-map operation message c =
      (λ h. ground (arith, from_status c message), λ h. ground (arith, from_status c message))

  -- A status error is translated into an error that IsNotFound recognises exactly if its code is
  -- NotFound.
  pub is_not_found-map :
      (operation message : String) (c : Code)
      → (is_not_found (map_grpc_error operation (status_error c message)) ≡ true)
        ↔ (c ≡ code_not_found)
  unfolding map_grpc_error is_not_found new_not_found_error new_invalid_spec_error
      new_retryable_error
  is_not_found-map operation message c =
      (λ h. ground (arith, from_status c message), λ h. ground (arith, from_status c message))
