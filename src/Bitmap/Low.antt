-- ===== src/Bitmap/Low.antt =====
-- The masks of kernel/lib/bitmap.c: tests on the low bits of a word.
use native.Mathlib.Nat.{div-div-eq-div-mul, mod-add-div, mod-lt}
use koowaldah.Base.{
  ℕ, zero, suc, ◌+◌, ◌-◌, ◌*◌, ◌/◌, ◌%◌, ◌^◌, ◌<◌, ◌≡◌, ◌↔◌, Bool, true, false, ap, arith, sym, ◌∙◌,
  ◌==◌,
}
use koowaldah.Base.Pow.{pow2-suc, pow2_pos}
use koowaldah.Bitmap.{test_bit, low_bits, whole_word}
use koowaldah.Bitmap.Bits.{test_bit-zero, test_bit-suc}

pub mod-pow2-suc : (w n : ℕ) → w % 2 ^ suc n ≡ w % 2 + 2 * (w / 2 % 2 ^ n)
mod-pow2-suc w n =
    let q = w / 2 / 2 ^ n in
    let same : w / 2 ^ suc n ≡ q =
      ap (λ (d : ℕ). w / d) (pow2-suc n) ∙ sym (div-div-eq-div-mul w 2 (2 ^ n)) in
    let outer : w % 2 ^ suc n + 2 ^ suc n * q ≡ w =
      ap (λ (t : ℕ). w % 2 ^ suc n + 2 ^ suc n * t) (sym same) ∙ mod-add-div w (2 ^ suc n) in
    omega (arith, outer, mod-add-div (w / 2) (2 ^ n), ap (λ (t : ℕ). t * q) (pow2-suc n))

-- The number of the low bits, of which the last one is `b`.
full_iff :
    (b r n : ℕ)
    → b < 2
    → r < 2 ^ n
    → ((b + 2 * r == 2 ^ suc n - 1) ≡ true) ↔ (((b == 1) ≡ true) × ((r == 2 ^ n - 1) ≡ true))
full_iff b r n bit low =
    let pow = pow2-suc n in (λ e. (ground arith, ground arith), λ e. ground arith)

clear_iff : (b r : ℕ) → b < 2 → ((b + 2 * r == 0) ≡ true) ↔ (((b == 1) ≡ false) × ((r == 0) ≡ true))
clear_iff b r bit = (λ e. (ground arith, ground arith), λ e. ground arith)

-- One more low bit.
low_bits-suc :
    (value : Bool) (n w : ℕ)
    → (low_bits value (suc n) w ≡ true)
      ↔ ((test_bit w 0 ≡ value) × (low_bits value n (w / 2) ≡ true))
unfolding low_bits
low_bits-suc true n w =
    rw (mod-pow2-suc w n, test_bit-zero w)
      (full_iff (w % 2) (w / 2 % 2 ^ n) n (omega arith) (mod-lt (w / 2) (pow2_pos n)))
low_bits-suc false n w =
    rw (mod-pow2-suc w n, test_bit-zero w) (clear_iff (w % 2) (w / 2 % 2 ^ n) (omega arith))

low_bits-zero : (value : Bool) (w : ℕ) → low_bits value 0 w ≡ true
unfolding low_bits
low_bits-zero true w = ground arith
low_bits-zero false w = ground arith

-- The mask test says that all low bits have the value.
pub low_bits_sound :
    (value : Bool) (n w i : ℕ) → low_bits value n w ≡ true → i < n → test_bit w i ≡ value
low_bits_sound value zero w i all lt = absurd (omega arith)
low_bits_sound value (suc n) w zero all lt = ((low_bits-suc value n w).0 all).0
low_bits_sound value (suc n) w (suc i) all lt =
    test_bit-suc w i
    ∙ low_bits_sound value n (w / 2) i ((low_bits-suc value n w).0 all).1 (omega arith)

pub low_bits_complete :
    (value : Bool) (n w : ℕ) → ((i : ℕ) → i < n → test_bit w i ≡ value) → low_bits value n w ≡ true
low_bits_complete value zero w all = low_bits-zero value w
low_bits_complete value (suc n) w all = (low_bits-suc value n w).1 (
  all 0 (omega arith),
  low_bits_complete value n (w / 2) (λ i lt. sym (test_bit-suc w i) ∙ all (suc i) (omega arith)),
)

-- A whole word is its 32 low bits.
pub whole_word_lem : (value : Bool) (w : ℕ) → w < 2 ^ 32 → whole_word value w ≡ low_bits value 32 w
unfolding whole_word low_bits
whole_word_lem true w word = ground arith
whole_word_lem false w word = ground arith
