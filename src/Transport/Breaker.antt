-- ===== src/Transport/Breaker.antt =====
-- internal/transport/grpc/client.go: providerCircuitBreakerInterceptor, which puts every RPC behind the
-- circuit breaker of its provider.
use virtrigaud.Prelude.{
  ℕ, ◌≡◌, refl, inl, true, false, String, [], ◌∷◌, sprintf, arith, if◌then◌else◌,
}
use virtrigaud.Contracts.Errors.{
  GoError, nil, status_error, is_nil, code_unavailable, new_unavailable_error,
}
use virtrigaud.Resilience.Breaker.{CircuitBreaker, call, allow_call, record_result}
use virtrigaud.Resilience.Retry.{is_retryable}
use virtrigaud.Transport.Status.{StatusApi, is_infra_failure, map_grpc_error, is_retryable-map}

-- The message of the *ProviderError that Call rejects with, as `%v` prints it.
rejection_text : CircuitBreaker → String
rejection_text cb = sprintf ("Unavailable: circuit breaker " ∷ cb.name ∷ " is open" ∷ [])

module _ {ℓ} (api : StatusApi) {W : Type ℓ}
    -- the RPC, which answers with an error and the time at which it returned
    (invoker : W → GoError × ℕ × W) where
  -- What the breaker sees of the RPC: only infrastructure failures are errors. The captured
  -- invokerErr is handed on beside the caller's state.
  guarded : GoError × W → GoError × ℕ × (GoError × W)
  guarded (captured, w) =
      let (err, later, w') = invoker w in
      (if is_infra_failure api err then err else nil, later, (err, w'))

  unfoldable pub intercept : ℕ → CircuitBreaker → W → GoError × CircuitBreaker × W
  unfolding guarded rejection_text
  intercept now cb w =
      let (cb_err, cb', (invoker_err, w')) = call now guarded cb (nil, w) in
      if is_nil cb_err
      then (invoker_err, cb', w')
      else if is_nil invoker_err
      then (
        status_error code_unavailable
            (sprintf ("circuit breaker open: " ∷ rejection_text cb' ∷ [])),
        cb',
        w',
      )
      else (invoker_err, cb', w')

  -- An RPC that the breaker lets through: the caller gets exactly the error of the RPC, whatever it
  -- is, and the breaker counts it as a failure if it is an infrastructure failure and as a success
  -- otherwise.
  pub intercept_allowed :
      (now : ℕ) (cb : CircuitBreaker) (w : W)
      → (allow_call now cb).0 ≡ true
      → intercept now cb w ≡ (
        (invoker w).0,
        record_result
            (invoker w).1
            (if is_infra_failure api (invoker w).0 then (invoker w).0 else nil)
            (allow_call now cb).1,
        (invoker w).2,
      )
  unfolding intercept call is_infra_failure
  intercept_allowed now cb w h = ground arith

  rejected_value :
      (now : ℕ) (cb : CircuitBreaker) (w : W)
      → (allow_call now cb).0 ≡ false
      → intercept now cb w ≡ (
        status_error code_unavailable
            (sprintf ("circuit breaker open: " ∷ rejection_text (allow_call now cb).1 ∷ [])),
        (allow_call now cb).1,
        w,
      )
  unfolding intercept call new_unavailable_error
  rejected_value now cb w h = ground arith

  -- An RPC that the breaker rejects does not run: the caller's state stays as it was, the breaker is
  -- as the refused admission left it, and every operation reports an error that is retried, as it
  -- does when the provider itself is unavailable.
  pub intercept_rejected :
      (now : ℕ) (cb : CircuitBreaker) (w : W) (operation : String)
      → (allow_call now cb).0 ≡ false
      → let (err, cb', w') = intercept now cb w in
        (is_retryable (map_grpc_error api operation err) ≡ true)
        × (cb' ≡ (allow_call now cb).1)
        × (w' ≡ w)
  intercept_rejected now cb w operation h =
      rw (rejected_value now cb w h)
        ((is_retryable-map api operation _ code_unavailable).1 (inl refl), refl, refl)
