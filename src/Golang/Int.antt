-- ===== src/Golang/Int.antt =====
-- Go's signed integers, as integers over the native numbers.
use burrowcode.Base.{ℕ, zero, suc, ◌-◌, ◌*◌, ◌/◌, ◌%◌, ◌^◌, Bool, false, ltb, if◌then◌else◌}

-- `negsuc n` is -(n + 1).
pub data ℤ : Type 0 where
  pos : ℕ → ℤ
  negsuc : ℕ → ℤ

abbrev pub neg : ℕ → ℤ
neg zero = pos 0
neg (suc n) = negsuc n

-- the test `n > 0`
abbrev pub is_positive : ℤ → Bool
is_positive (pos n) = ltb 0 n
is_positive (negsuc n) = false

-- the value of 64 bits, read as a signed number
abbrev pub of_bits : ℕ → ℤ
of_bits n = if ltb n (2 ^ 63) then pos n else neg (2 ^ 64 - n)

-- the 64 bits of a number
abbrev pub to_bits : ℤ → ℕ
to_bits (pos n) = n % 2 ^ 64
to_bits (negsuc n) = (2 ^ 64 - 1) - n % 2 ^ 64

-- `n * k` in an `int64`, which wraps around
unfoldable pub times_wrapped : ℤ → ℕ → ℤ
times_wrapped n k = of_bits (to_bits n * k % 2 ^ 64)

-- `n / k`, rounded towards zero
unfoldable pub quot : ℤ → ℕ → ℤ
quot (pos n) k = pos (n / k)
quot (negsuc n) k = neg (suc n / k)
