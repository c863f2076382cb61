-- ===== src/Bitmap/Bits.antt =====
-- One bit of a word under the changes of include/bitmap.h.
use native.Mathlib.Nat.{div-one, div-div-eq-div-mul}
use koowaldah.Base.{
  ℕ, zero, suc, ◌+◌, ◌-◌, ◌/◌, ◌%◌, ◌^◌, ◌≤◌, ◌≡◌, ◌≢◌, true, false, refl, ap, arith, sym, ◌∙◌,
  ◌==◌, ==→eq, ==→ne, Bool-cases, inl, inr, if◌then◌else◌,
}
use koowaldah.Base.Pow.{pow2-suc}
use koowaldah.Bitmap.{test_bit, or_bit, clear_bit}

pub test_bit-zero : (w : ℕ) → test_bit w 0 ≡ (w % 2 == 1)
unfolding test_bit
test_bit-zero w = ap (λ (v : ℕ). v % 2 == 1) (div-one w)

pub test_bit-suc : (w i : ℕ) → test_bit w (suc i) ≡ test_bit (w / 2) i
unfolding test_bit
test_bit-suc w i =
    let e : w / 2 ^ suc i ≡ w / 2 / 2 ^ i =
      ap (λ (d : ℕ). w / d) (pow2-suc i) ∙ sym (div-div-eq-div-mul w 2 (2 ^ i)) in
    ap (λ (v : ℕ). v % 2 == 1) e

test_bit-add_self : (i w : ℕ) → test_bit w i ≡ false → test_bit (w + 2 ^ i) i ≡ true
test_bit-add_self zero w clear =
    let low = ==→ne (w % 2) 1 (sym (test_bit-zero w) ∙ clear) in
    let odd : (w + 1) % 2 ≡ 1 = omega arith in test_bit-zero (w + 1) ∙ rw odd refl
test_bit-add_self (suc i) w clear =
    let half : (w + 2 ^ suc i) / 2 ≡ w / 2 + 2 ^ i = omega (arith, pow2-suc i) in
    test_bit-suc (w + 2 ^ suc i) i
    ∙ ap (λ (v : ℕ). test_bit v i) half
    ∙ test_bit-add_self i (w / 2) (sym (test_bit-suc w i) ∙ clear)

test_bit-add_ne : (i j w : ℕ) → i ≢ j → test_bit w i ≡ false → test_bit (w + 2 ^ i) j ≡ test_bit w j
test_bit-add_ne zero zero w ne clear = absurd (ne refl)
test_bit-add_ne zero (suc j) w ne clear =
    let low = ==→ne (w % 2) 1 (sym (test_bit-zero w) ∙ clear) in
    let half : (w + 2 ^ 0) / 2 ≡ w / 2 = omega arith in
    test_bit-suc (w + 2 ^ 0) j ∙ ap (λ (v : ℕ). test_bit v j) half ∙ sym (test_bit-suc w j)
test_bit-add_ne (suc i) zero w ne clear =
    let low : (w + 2 ^ suc i) % 2 ≡ w % 2 = omega (arith, pow2-suc i) in
    test_bit-zero (w + 2 ^ suc i) ∙ ap (λ (v : ℕ). v == 1) low ∙ sym (test_bit-zero w)
test_bit-add_ne (suc i) (suc j) w ne clear =
    let half : (w + 2 ^ suc i) / 2 ≡ w / 2 + 2 ^ i = omega (arith, pow2-suc i) in
    test_bit-suc (w + 2 ^ suc i) j
    ∙ ap (λ (v : ℕ). test_bit v j) half
    ∙ test_bit-add_ne i j (w / 2) (λ e. ne (ap suc e)) (sym (test_bit-suc w i) ∙ clear)
    ∙ sym (test_bit-suc w j)

-- A word with a bit is a word without it, and the bit's value.
test_bit-sub : (i w : ℕ) → test_bit w i ≡ true → (2 ^ i ≤ w) × (test_bit (w - 2 ^ i) i ≡ false)
test_bit-sub zero w on =
    let low = ==→eq (w % 2) 1 (sym (test_bit-zero w) ∙ on) in
    let even : (w - 1) % 2 ≡ 0 = omega arith in (omega arith, test_bit-zero (w - 1) ∙ rw even refl)
test_bit-sub (suc i) w on =
    let (le, off) = test_bit-sub i (w / 2) (sym (test_bit-suc w i) ∙ on) in
    let half : (w - 2 ^ suc i) / 2 ≡ w / 2 - 2 ^ i = omega (arith, pow2-suc i) in
    (
      omega (arith, pow2-suc i),
      test_bit-suc (w - 2 ^ suc i) i ∙ ap (λ (v : ℕ). test_bit v i) half ∙ off,
    )

-- `|= 1UL << i` sets the bit `i`, and changes no other bit.
pub or_bit_lem : (w i j : ℕ) → test_bit (or_bit w i) j ≡ (if i == j then true else test_bit w j)
unfolding or_bit
or_bit_lem w i j = elim (Bool-cases (test_bit w i)) [
  | inl on ↦ rw on (elim (Bool-cases (i == j)) [
    | inl same ↦ rw same (ap (test_bit w) (sym (==→eq i j same)) ∙ on)
    | inr other ↦ rw other refl
  ])
  | inr off ↦ rw off (elim (Bool-cases (i == j)) [
    | inl same ↦
        rw same (ap (test_bit (w + 2 ^ i)) (sym (==→eq i j same)) ∙ test_bit-add_self i w off)
    | inr other ↦ rw other (test_bit-add_ne i j w (==→ne i j other) off)
  ])
]

-- `&= ~(1UL << i)` clears the bit `i`, and changes no other bit.
pub clear_bit_lem :
    (w i j : ℕ) → test_bit (clear_bit w i) j ≡ (if i == j then false else test_bit w j)
unfolding clear_bit
clear_bit_lem w i j = elim (Bool-cases (test_bit w i)) [
  | inl on ↦
      let (le, off) = test_bit-sub i w on in
      rw on (elim (Bool-cases (i == j)) [
        | inl same ↦ rw same (ap (test_bit (w - 2 ^ i)) (sym (==→eq i j same)) ∙ off)
        | inr other ↦
            let whole : w - 2 ^ i + 2 ^ i ≡ w = omega arith in
            rw other (
              sym (test_bit-add_ne i j (w - 2 ^ i) (==→ne i j other) off)
              ∙ ap (λ (v : ℕ). test_bit v j) whole)
      ])
  | inr off ↦ rw off (elim (Bool-cases (i == j)) [
    | inl same ↦ rw same (ap (test_bit w) (sym (==→eq i j same)) ∙ off)
    | inr other ↦ rw other refl
  ])
]
