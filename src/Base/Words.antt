-- ===== src/Base/Words.antt =====
-- Unsigned words of 32 bits (`u32`, `unsigned long`, `size_t` and addresses of the i386 build).
use Prim.Native.Nat.{ℕ, ◌+◌, ◌-◌, ◌%◌, ◌^◌}

abbrev pub word : ℕ
word = 2 ^ 32

abbrev pub u32 : ℕ → ℕ
u32 n = n % 2 ^ 32

-- The subtraction of two words wraps round.
abbrev pub sub32 : ℕ → ℕ → ℕ
sub32 a b = (2 ^ 32 + a - b) % 2 ^ 32
