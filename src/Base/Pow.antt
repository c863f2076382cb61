-- ===== src/Base/Pow.antt =====
-- Powers of two.
use native.Mathlib.Nat.{pow-suc}
use Prim.Native.Nat.{ℕ, zero, suc, ◌*◌, ◌^◌, ◌≤◌, ◌<◌}
use mathlib.Core.Path.{◌≡◌, ap}
use mathlib.Core.Logic.{inl, inr}
use native.Mathlib.Omega.{arith}
use koowaldah.Base.Tests.{Bool-cases, ◌==◌, ==→eq, ==→ne}

pub pow2-suc : (k : ℕ) → 2 ^ suc k ≡ 2 * 2 ^ k
pow2-suc k = omega (arith, pow-suc 2 k)

pub mul-pow2-suc : (q k : ℕ) → q * 2 ^ suc k ≡ 2 * (q * 2 ^ k)
mul-pow2-suc q k = omega (arith, ap (λ (t : ℕ). q * t) (pow-suc 2 k))

pub pow2_pos : (k : ℕ) → 0 < 2 ^ k
pow2_pos zero = omega arith
pow2_pos (suc k) = omega (arith, pow2-suc k, pow2_pos k)

pub pow2_mono : (a b : ℕ) → a ≤ b → 2 ^ a ≤ 2 ^ b
pow2_mono a zero h = let e : a ≡ 0 = omega arith in rw e (omega arith)
pow2_mono a (suc b) h = elim (Bool-cases (a == suc b)) [
  | inl same ↦ rw (==→eq a (suc b) same) (omega arith)
  | inr other ↦ omega (
    arith,
    ==→ne a (suc b) other,
    pow2_mono a b (omega (arith, ==→ne a (suc b) other)),
    pow2-suc b,
    pow2_pos b,
  )
]
