-- ===== src/Resilience/Breaker/Recovery.antt =====
-- How circuitbreaker.go leaves the open state: the window of trial calls.
use virtrigaud.Prelude.{
  ℕ, suc, ◌+◌, ◌-◌, ◌≤◌, ◌<◌, min, ◌≡◌, refl, List, [], ◌∷◌, arith, length, if◌then◌else◌, ◌⊎◌,
}
use virtrigaud.Contracts.Errors.{nil}
use virtrigaud.Resilience.Breaker.{
  CircuitBreaker, closed, half_open, open_state, allow_call, record_result,
}

-- Requests for admission at the given times with no result in between: how many are let through, and
-- the breaker after them.
abbrev pub admit_all : List ℕ → CircuitBreaker → ℕ × CircuitBreaker
admit_all [] cb = (0, cb)
admit_all (now ∷ ts) cb =
    let (allowed, cb') = allow_call now cb in
    let (n, cb'') = admit_all ts cb' in (if allowed then suc n else n, cb'')

-- The window in half-open: `n` requests fill what is left of it.
admit_half_open :
    (ts : List ℕ) (cb : CircuitBreaker)
    → cb.state ≡ half_open
    → cb.half_open_calls ≤ cb.half_open_max_calls
    → ((admit_all ts cb).0 ≡ min (length ts) (cb.half_open_max_calls - cb.half_open_calls))
      × ((admit_all ts cb).1.state ≡ half_open)
      × ((admit_all ts cb).1.half_open_calls
          ≡ cb.half_open_calls + min (length ts) (cb.half_open_max_calls - cb.half_open_calls))
      × ((admit_all ts cb).1.config ≡ cb.config)
unfolding allow_call
admit_half_open [] cb s b = ground arith
admit_half_open (now ∷ ts) cb s b = ground (arith, admit_half_open ts (allow_call now cb).1)

-- The reset timeout has passed since the last failure.
abbrev pub Elapsed : ℕ → CircuitBreaker → Type 0
Elapsed now cb = cb.reset_timeout < now - cb.last_failure_time

admit_open :
    (now : ℕ) (ts : List ℕ) (cb : CircuitBreaker)
    → cb.state ≡ open_state
    → Elapsed now cb
    → ((admit_all (now ∷ ts) cb).0 ≡ min (length (now ∷ ts)) cb.half_open_max_calls)
      × ((admit_all (now ∷ ts) cb).1.state ≡ half_open)
      × ((admit_all (now ∷ ts) cb).1.half_open_calls
          ≡ min (length (now ∷ ts)) cb.half_open_max_calls)
      × ((admit_all (now ∷ ts) cb).1.config ≡ cb.config)
unfolding allow_call
admit_open now ts cb s e = ground (arith, admit_half_open ts (allow_call now cb).1)

-- Of any number of callers that ask before a result is recorded, the first of them after the reset
-- timeout, exactly HalfOpenMaxCalls are let through (all, if they are fewer), the caller that makes
-- the transition included.
pub trial_window :
    (now : ℕ) (ts : List ℕ) (cb : CircuitBreaker)
    → cb.state ≡ open_state
    → Elapsed now cb
    → (admit_all (now ∷ ts) cb).0 ≡ min (length (now ∷ ts)) cb.half_open_max_calls
trial_window now ts cb s e = (admit_open now ts cb s e).0

-- One success closes the breaker as soon as the window is full, whatever becomes of the other
-- admitted trials: with at least HalfOpenMaxCalls requests admitted or refused and no result
-- recorded yet, the first successful result leads to closed with no failures counted.
pub first_success_closes :
    (now later : ℕ) (ts : List ℕ) (cb : CircuitBreaker)
    → cb.state ≡ open_state
    → Elapsed now cb
    → cb.half_open_max_calls ≤ length (now ∷ ts)
    → let cb' = record_result later nil (admit_all (now ∷ ts) cb).1 in
      (cb'.state ≡ closed) × (cb'.failures ≡ 0)
unfolding record_result
first_success_closes now later ts cb s e b = ground (arith, admit_open now ts cb s e)

-- A breaker that is configured with no trial calls never recovers: once it is open, no request is
-- let through again at any time, as long as no result is pending and nobody resets it.
pub no_trials_no_recovery :
    (ts : List ℕ) (cb : CircuitBreaker)
    → (cb.state ≡ open_state) ⊎ (cb.state ≡ half_open)
    → cb.half_open_max_calls ≡ 0
    → (admit_all ts cb).0 ≡ 0
unfolding allow_call
no_trials_no_recovery [] cb s z = refl
no_trials_no_recovery (now ∷ ts) cb s z =
    ground (arith, no_trials_no_recovery ts (allow_call now cb).1)

-- Successful calls, one after the other, at the given times of admission and return.
abbrev pub succeed_all : List (ℕ × ℕ) → CircuitBreaker → CircuitBreaker
succeed_all [] cb = cb
succeed_all ((now, later) ∷ ts) cb = succeed_all ts (record_result later nil (allow_call now cb).1)

recover_from_half_open :
    (ts : List (ℕ × ℕ)) (cb : CircuitBreaker)
    → cb.state ≡ half_open
    → cb.half_open_calls + length ts ≡ cb.half_open_max_calls
    → 0 < length ts
    → ((succeed_all ts cb).state ≡ closed) × ((succeed_all ts cb).failures ≡ 0)
unfolding allow_call record_result
recover_from_half_open [] cb s n p = absurd (omega arith)
recover_from_half_open ((now, later) ∷ []) cb s n p = ground arith
recover_from_half_open ((now, later) ∷ t ∷ ts) cb s n p =
    ground (arith, recover_from_half_open (t ∷ ts) (record_result later nil (allow_call now cb).1))

-- Liveness: an open breaker with at least one configured trial call is closed again, with no failures
-- counted, after exactly HalfOpenMaxCalls successful calls of which the first comes after the reset
-- timeout.
pub recovers :
    (now later : ℕ) (ts : List (ℕ × ℕ)) (cb : CircuitBreaker)
    → cb.state ≡ open_state
    → Elapsed now cb
    → length ((now, later) ∷ ts) ≡ cb.half_open_max_calls
    → let cb' = succeed_all ((now, later) ∷ ts) cb in (cb'.state ≡ closed) × (cb'.failures ≡ 0)
unfolding allow_call record_result
recovers now later [] cb s e n = ground arith
recovers now later (t ∷ ts) cb s e n =
    ground (arith, recover_from_half_open (t ∷ ts) (record_result later nil (allow_call now cb).1))
