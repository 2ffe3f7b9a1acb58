-- ===== src/Prelude/Word.antt =====
-- The 64-bit signed integer of Go's `int64` and `time.Duration`, as its bit pattern below 2 ^ 64.
use Prim.Native.Nat.{ℕ, ◌+◌, ◌*◌, ◌%◌, ◌^◌}
use mathlib.Core.Bool.{Bool}
use virtrigaud.Prelude.Tests.{ltb, leb}

abbrev pub int64_mod : ℕ
int64_mod = 2 ^ 64

-- The sign bit is set.
abbrev pub is_negative : ℕ → Bool
is_negative x = leb (2 ^ 63) x

-- Two's complement multiplication wraps.
abbrev pub mul64 : ℕ → ℕ → ℕ
mul64 a b = a * b % int64_mod

-- Signed comparison of two bit patterns: both shifted by 2 ^ 63.
abbrev pub lt64 : ℕ → ℕ → Bool
lt64 a b = ltb ((a + 2 ^ 63) % int64_mod) ((b + 2 ^ 63) % int64_mod)
