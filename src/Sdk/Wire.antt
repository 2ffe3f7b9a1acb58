-- ===== src/Sdk/Wire.antt =====
-- sdk/provider/errors/errors.go and internal/transport/grpc/client.go together: what the manager
-- makes of an error that a provider service returns.
use virtrigaud.Prelude.{◌≡◌, ◌≢◌, ◌↔◌, ℕ, Bool, true, false, String, Option, some, refl, arith}
use virtrigaud.Contracts.Errors.{Code, ok, resource_exhausted, status_error}
use virtrigaud.Resilience.Retry.{is_retryable}
use virtrigaud.Transport.Status.{StatusApi, map_grpc_error, is_retryable-map}
use virtrigaud.Sdk.Errors.{
  Failure, nil_failure, provider, status_failure, sentinel, context, other, Sentinel,
  code_is_retryable, classify_error, new_invalid_spec, new_not_found, new_already_exists,
  new_permission_denied, new_unavailable, new_internal, new_unimplemented, new_timeout,
  new_rate_limit, new_canceled, wrap, error, status_err, to_grpc_error, from_grpc_error,
  failure_is_retryable,
}

-- An error that comes from outside the kit: neither nil nor a *ProviderError.
abbrev pub is_native : Failure → Bool
is_native nil_failure = false
is_native (provider c m cause r a) = false
is_native (status_failure c m) = true
is_native (sentinel s) = true
is_native (context m e) = true
is_native (other m) = true

-- The errors that a provider service can make with the constructors and with Wrap.
pub data Made (quote : String → String) : Failure → Type 0 where
  invalid_spec_made : (m : String) → Made quote (new_invalid_spec m)
  not_found_made : (r i : String) → Made quote (new_not_found quote r i)
  already_exists_made : (r i : String) → Made quote (new_already_exists quote r i)
  permission_denied_made : (o : String) → Made quote (new_permission_denied o)
  unavailable_made : (s : String) (cause : Failure) → Made quote (new_unavailable s cause)
  internal_made : (m : String) (cause : Failure) → Made quote (new_internal m cause)
  unimplemented_made : (o : String) → Made quote (new_unimplemented o)
  timeout_made : (o d : String) → Made quote (new_timeout o d)
  rate_limit_made : (a : ℕ) → Made quote (new_rate_limit a)
  canceled_made : (o : String) → Made quote (new_canceled o)
  native_wrapped : (e : Failure) (m : String) → is_native e ≡ true → Made quote (wrap e m)
  made_wrapped : {e : Failure} → Made quote e → (m : String) → Made quote (wrap e m)

-- The flag says what the code says, and the code is that of an error.
data Consistent : Failure → Type 0 where
  consistent :
      (c : Code) (m : String) (cause : Failure) (r : Bool) (a : ℕ)
      → r ≡ code_is_retryable c
      → c ≢ ok
      → Consistent (provider c m cause r a)

sentinel-fails : (s : Sentinel) → classify_error (sentinel s) ≢ ok
unfolding classify_error
sentinel-fails s e = ground arith

classify_error-fails : (e : Failure) → classify_error e ≢ ok
unfolding classify_error
classify_error-fails nil_failure = λ e. ground arith
classify_error-fails (provider c m cause r a) = classify_error-fails cause
classify_error-fails (status_failure c m) = λ e. ground arith
classify_error-fails (sentinel s) = sentinel-fails s
classify_error-fails (context m e) = classify_error-fails e
classify_error-fails (other m) = λ e. ground arith

wrap-Consistent : {e : Failure} → Consistent e → (m : String) → Consistent (wrap e m)
unfolding wrap
wrap-Consistent (consistent c m cause r a flag fails) message =
    consistent c message (provider c m cause r a) r a flag fails

native-Consistent : (e : Failure) (m : String) → is_native e ≡ true → Consistent (wrap e m)
unfolding wrap
native-Consistent nil_failure m native = ground arith
native-Consistent (provider c n cause r a) m native = ground arith
native-Consistent (status_failure c n) m native =
    consistent _ m _ _ 0 refl (classify_error-fails (status_failure c n))
native-Consistent (sentinel s) m native =
    consistent _ m _ _ 0 refl (classify_error-fails (sentinel s))
native-Consistent (context n e) m native =
    consistent _ m _ _ 0 refl (classify_error-fails (context n e))
native-Consistent (other n) m native = consistent _ m _ _ 0 refl (classify_error-fails (other n))

made-Consistent : (quote : String → String) {e : Failure} → Made quote e → Consistent e
unfolding new_invalid_spec new_not_found new_already_exists new_permission_denied new_unavailable
    new_internal new_unimplemented new_timeout new_rate_limit new_canceled code_is_retryable
made-Consistent quote (invalid_spec_made m) = consistent _ _ _ _ _ refl (λ e. ground arith)
made-Consistent quote (not_found_made r i) = consistent _ _ _ _ _ refl (λ e. ground arith)
made-Consistent quote (already_exists_made r i) = consistent _ _ _ _ _ refl (λ e. ground arith)
made-Consistent quote (permission_denied_made o) = consistent _ _ _ _ _ refl (λ e. ground arith)
made-Consistent quote (unavailable_made s cause) = consistent _ _ _ _ _ refl (λ e. ground arith)
made-Consistent quote (internal_made m cause) = consistent _ _ _ _ _ refl (λ e. ground arith)
made-Consistent quote (unimplemented_made o) = consistent _ _ _ _ _ refl (λ e. ground arith)
made-Consistent quote (timeout_made o d) = consistent _ _ _ _ _ refl (λ e. ground arith)
made-Consistent quote (rate_limit_made a) = consistent _ _ _ _ _ refl (λ e. ground arith)
made-Consistent quote (canceled_made o) = consistent _ _ _ _ _ refl (λ e. ground arith)
made-Consistent quote (native_wrapped e m native) = native-Consistent e m native
made-Consistent quote (made_wrapped made m) = wrap-Consistent (made-Consistent quote made) m

status_err-fails : (c : Code) (m : String) → c ≢ ok → status_err c m ≡ status_failure c m
unfolding status_err
status_err-fails c m fails = ground arith

retried :
    (api : StatusApi) (operation m : String) (c : Code)
    → (is_retryable (map_grpc_error api operation (status_error c m)) ≡ true)
      ↔ ((code_is_retryable c ≡ true) × (c ≢ resource_exhausted))
unfolding code_is_retryable
retried api operation m c = (
  λ h. ground (arith, is_retryable-map api operation m c),
  λ h. ground (arith, is_retryable-map api operation m c),
)

module _ (quote : String → String) (status_text : Code → String → String)
    (from_error : Failure → Option (Code × String))
    (from_status : (c : Code) (m : String) → from_error (status_failure c m) ≡ some (c, m)) where
  both_ways :
      (api : StatusApi) (operation : String) {err : Failure}
      → Consistent err
      → (c : Code) × (m : String) × (to_grpc_error status_text err ≡ status_failure c m)
        × (failure_is_retryable from_error (from_grpc_error from_error (status_failure c m))
            ≡ failure_is_retryable from_error err)
        × ((is_retryable (map_grpc_error api operation (status_error c m)) ≡ true)
            ↔ ((failure_is_retryable from_error err ≡ true) × (c ≢ resource_exhausted)))
  unfolding to_grpc_error failure_is_retryable from_grpc_error
  both_ways api operation (consistent c m cause r a flag fails) =
      let text = error status_text (provider c m cause r a) in
      let known = retried api operation text c in
      (
        c,
        text,
        status_err-fails c text fails,
        ground (arith, from_status c text),
        (λ h. ground (arith, known), λ h. ground (arith, known)),
      )

  -- If status.FromError reads the code and the message of a status error, an error that a provider
  -- service makes with the constructors and with Wrap is sent as a gRPC status error, FromGRPCError
  -- gives back an error that is retryable exactly if the first one was, and the manager retries what
  -- it translates the status error into exactly if the service marked its error as retryable and the
  -- code is not ResourceExhausted.
  pub made_error_retried :
      (api : StatusApi) (operation : String) {err : Failure}
      → Made quote err
      → (c : Code) × (m : String) × (to_grpc_error status_text err ≡ status_failure c m)
        × (failure_is_retryable from_error (from_grpc_error from_error (status_failure c m))
            ≡ failure_is_retryable from_error err)
        × ((is_retryable (map_grpc_error api operation (status_error c m)) ≡ true)
            ↔ ((failure_is_retryable from_error err ≡ true) × (c ≢ resource_exhausted)))
  made_error_retried api operation made = both_ways api operation (made-Consistent quote made)
