-- ===== src/Migration/Failed/Backoff.antt =====
-- The backoff of handleFailedPhase in vmmigration_controller.go, in the int64 arithmetic of durations.
use native.Mathlib.Nat.{pow-zero, pow-succ', mul_assoc, mod-eq_of_lt, one-le-pow}
use virtrigaud.Prelude.{
  ℕ, zero, suc, ◌*◌, ◌^◌, ◌≤◌, ◌<◌, min, ◌≡◌, sym, none, some, arith, if◌then◌else◌,
}
use virtrigaud.Prelude.Word.{int64_mod, mul64, lt64}
use virtrigaud.Migration.Types.{RetryPolicy}
use virtrigaud.Migration.Failed.{minute, or_default, scale, retry_delay, sub64, remaining_wait}

-- base * multiplier ^ count, and the two configured numbers with their defaults
abbrev pub base_of : RetryPolicy → ℕ
base_of p = or_default (5 * minute) p.retry_delay

abbrev pub multiplier_of : RetryPolicy → ℕ
multiplier_of p = or_default 2 p.backoff_multiplier

regroup : (m n delay : ℕ) → delay * m ^ suc n ≡ delay * m * m ^ n
regroup m n delay = rw (pow-succ' m n) (sym (mul_assoc delay m (m ^ n)))

le-mul_pos : (a k : ℕ) → 0 < k → a ≤ a * k
le-mul_pos a k h = grind arith

no_wrap : (m n delay : ℕ) → 0 < m → delay * m * m ^ n < 2 ^ 63 → mul64 delay m ≡ delay * m
no_wrap m n delay h b =
    mod-eq_of_lt (omega (arith, le-mul_pos (delay * m) (m ^ n) (one-le-pow n m h)))

-- As long as the product stays below 2 ^ 63 the loop computes it exactly.
scale_exact : (m n delay : ℕ) → 0 < m → delay * m ^ n < 2 ^ 63 → scale m n delay ≡ delay * m ^ n
unfolding scale
scale_exact m zero delay h b = rw pow-zero (omega arith)
scale_exact m (suc n) delay h b =
    let b' : delay * m * m ^ n < 2 ^ 63 = rw (regroup m n delay) at b in
    rw (no_wrap m n delay h b', regroup m n delay) (scale_exact m n (delay * m) h b')

-- Without overflow, the delay before retry number n + 1 is base * multiplier ^ n, capped at 30
-- minutes: for a positive multiplier and a product below 2 ^ 63 nanoseconds.
pub retry_delay_exact :
    (p : RetryPolicy) (n : ℕ)
    → 0 < multiplier_of p
    → base_of p * multiplier_of p ^ n < 2 ^ 63
    → retry_delay p n ≡ min (base_of p * multiplier_of p ^ n) (30 * minute)
unfolding retry_delay
retry_delay_exact p n h b =
    rw (scale_exact (multiplier_of p) n (base_of p) h b) (cap (base_of p * multiplier_of p ^ n) b)
  where
    cap :
        (d : ℕ)
        → d < 2 ^ 63
        → (if lt64 (30 * minute) d then 30 * minute else d) ≡ min d (30 * minute)
    cap d k = ground arith

-- With overflow the cap and the wait are lost: whenever the wrapped product has its sign bit set, no
-- wait remains before the retry, however short the time since the last one is, as long as it is not
-- negative.
pub negative_delay_never_waits :
    (p : RetryPolicy) (n now last : ℕ)
    → scale (multiplier_of p) n (base_of p) < int64_mod
    → 2 ^ 63 ≤ scale (multiplier_of p) n (base_of p)
    → sub64 now last < 2 ^ 63
    → remaining_wait now (retry_delay p n) (some last) ≡ none
unfolding retry_delay remaining_wait
negative_delay_never_waits p n now last u h t =
    negative (scale (multiplier_of p) n (base_of p)) (sub64 now last) u h t
  where
    negative :
        (d elapsed : ℕ)
        → d < int64_mod
        → 2 ^ 63 ≤ d
        → elapsed < 2 ^ 63
        → (let delay = if lt64 (30 * minute) d then 30 * minute else d in
            if lt64 elapsed delay then some (sub64 delay elapsed) else none)
          ≡ none
    negative d elapsed u h t = ground arith
