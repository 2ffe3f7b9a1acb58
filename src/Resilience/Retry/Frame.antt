-- ===== src/Resilience/Retry/Frame.antt =====
-- Rules for the retry loop of retry.go over any function and any caller's state.
use virtrigaud.Prelude.{
  ℕ, zero, suc, ◌+◌, ◌-◌, Bool, true, false, not, Option, none, some, if◌then◌else◌, ◌==◌,
}
use virtrigaud.Contracts.Errors.{GoError, nil, is_nil}
use virtrigaud.Resilience.Retry.{
  Floats, RetryConfig, is_retryable, calculate_delay, retry_loop, retry,
}

if_keeps {ℓ κ} :
    {A : Type ℓ} (P : A → Type κ) (b : Bool) (x y : A) → P x → P y → P (if b then x else y)
if_keeps P true x y p q = p
if_keeps P false x y p q = q

module _ (fl : Floats) where
  open fl use {Float}

  module _ {ℓ κ} {W : Type ℓ} (fn : ℕ → W → GoError × W) (rand : W → Float × W)
      (wait : ℕ → W → Option GoError × W) (P : W → Type κ)
      (fn_keeps : (attempt : ℕ) (w : W) → P w → P (fn attempt w).1)
      (rand_keeps : (w : W) → P w → P (rand w).1)
      (wait_keeps : (delay : ℕ) (w : W) → P w → P (wait delay w).1) where
    loop_keeps :
        (config : RetryConfig Float) (left attempt : ℕ) (last : GoError) (w : W)
        → P w
        → P (retry_loop fl fn rand wait config left attempt last w).1
    unfolding retry_loop
    loop_keeps config zero attempt last w h = h
    loop_keeps config (suc left) attempt last w h =
        if_keeps {A = GoError × W} (λ r. P r.1) (is_nil (fn attempt w).0) _ _ called
          (if_keeps {A = GoError × W} (λ r. P r.1) (not (is_retryable (fn attempt w).0)) _ _ called
            (if_keeps {A = GoError × W} (λ r. P r.1) (attempt == config.max_attempts - 1) _ _ called
              (paused (wait _ _).0 _ (loop_keeps config left (attempt + 1) _ _ waited))))
      where
        called : P (fn attempt w).1
        called = fn_keeps attempt w h

        drawn : Float × W
        drawn = if config.jitter then rand (fn attempt w).1 else (fl.tenths 0, (fn attempt w).1)

        drawn_keeps : P drawn.1
        drawn_keeps =
            if_keeps {A = Float × W} (λ r. P r.1) config.jitter _ _ (rand_keeps _ called) called

        waited : P (wait (calculate_delay fl config attempt drawn.0) drawn.1).1
        waited = wait_keeps _ drawn.1 drawn_keeps

        paused :
            (c : Option GoError) (r : GoError × W)
            → P r.1
            → P
                (elim c as (λ _. GoError × W) [
                  | none ↦ r
                  | some e ↦ (e, (wait (calculate_delay fl config attempt drawn.0) drawn.1).1)
                ]).1
        paused none r k = k
        paused (some e) r k = waited

    -- Retry keeps what the function, the random numbers and the wait keep.
    pub retry_keeps :
        (config : RetryConfig Float) (w : W) → P w → P (retry fl fn rand wait config w).1
    unfolding retry
    retry_keeps config w h = loop_keeps config config.max_attempts 0 nil w h
