-- ===== src/Klib/Log2.antt =====
-- log2 and roundup_l2 of include/lib.h.
use native.Mathlib.Nat.{
  mod-lt, mul-mod_right, zero-mod, div-add-mod, mod_self, mod-eq-sub-mod, mod-eq_of_lt,
  mul-le-mul_left,
}
use koowaldah.Base.{
  ℕ, ◌≢◌, zero, suc, ◌+◌, ◌-◌, ◌*◌, ◌/◌, ◌%◌, ◌^◌, ◌<◌, ◌≤◌, ◌≡◌, ◌⊎◌, inl, inr, refl, arith,
  if◌then◌else◌, Bool-cases, ◌==◌, ==→eq, ==→ne, ltb, ltb→lt, ltb→le,
}
use koowaldah.Klib.{log2_loop, log2, roundup_l2}
use koowaldah.Base.Pow.{pow2-suc, pow2_pos, pow2_mono}

le_of_div-ne-zero : (n d : ℕ) → n / d ≢ 0 → d ≤ n
le_of_div-ne-zero n d h =
    omega (arith, div-add-mod n d, mul-le-mul_left {m = 1} {n = n / d} d (omega arith))

-- What the loop keeps: all bits below `l` but the first are needed.
abbrev Needed : ℕ → ℕ → Type 0
Needed l n = (l ≡ 1) ⊎ (2 ^ (l - 1) ≤ n)

-- The loop ends at the bit length of `n`, at least 1, if that is within reach.
log2_loop_lem :
    (left l n : ℕ)
    → n < 2 ^ (l + left)
    → 1 ≤ l
    → Needed l n
    → let r = log2_loop left l n in (n < 2 ^ r) × (1 ≤ r) × Needed r n
unfolding log2_loop
log2_loop_lem zero l n h pos low = let e : l + 0 ≡ l = omega arith in (rw e at h, pos, low)
log2_loop_lem (suc left) l n h pos low = elim (Bool-cases (n / 2 ^ l == 0)) [
  | inl done ↦ rw done (ground (arith, pow2_pos l, ==→eq (n / 2 ^ l) 0), pos, low)
  | inr more ↦
      let e : l + suc left ≡ l + 1 + left = omega arith in
      let e1 : l + 1 - 1 ≡ l = omega arith in
      rw more (
        log2_loop_lem left (l + 1) n (rw e at h) (omega arith)
          (inr (rw e1 (le_of_div-ne-zero n (2 ^ l) (==→ne (n / 2 ^ l) 0 more)))))
]

-- A multiple of `p` below `2 * p` is `p`, or 0.
multiple_le : (n p : ℕ) → 0 < p → n < 2 * p → n % p ≡ 0 → n ≤ p
multiple_le n p pos lt e = elim (Bool-cases (ltb n p)) [
  | inl below ↦ omega (arith, ltb→lt n p below)
  | inr above ↦
      let le = ltb→le n p above in
      omega
        (arith, mod-eq-sub-mod {n = n} {m = p} le, mod-eq_of_lt {n = n - p} {m = p} (omega arith))
]

pow2_lt : (a b : ℕ) → 2 ^ b ≤ 2 ^ a → b ≤ a
pow2_lt a b h = elim (Bool-cases (ltb a b)) [
  | inl lt ↦ absurd (omega (arith, pow2_mono (suc a) b (ltb→lt a b lt), pow2-suc a, pow2_pos a))
  | inr le ↦ ltb→le a b le
]

mod-eq-zero_of_zero : (n p : ℕ) → n ≡ 0 → n % p ≡ 0
mod-eq-zero_of_zero n p e = rw e (zero-mod p)

mod-eq-zero_of_eq : (n p : ℕ) → n ≡ p → n % p ≡ 0
mod-eq-zero_of_eq n p e = rw e (mod_self p)

-- The rounding, for a bit length `l`.
round_least :
    (l n k : ℕ)
    → n < 2 ^ l
    → 1 ≤ l
    → Needed l n
    → let r = if n % 2 ^ (l - 1) == 0 then l - 1 else l in (n ≤ 2 ^ r) × (n ≤ 2 ^ k → r ≤ k)
round_least zero n k h pos low = absurd (omega arith)
round_least (suc l) n k h pos low =
    let e : suc l - 1 ≡ l = omega arith in
    let low' : (l ≡ 0) ⊎ (2 ^ l ≤ n) = elim low [
      | inl one ↦ inl (omega arith)
      | inr b ↦ inr (rw e at b)
    ] in
    elim (Bool-cases (n % 2 ^ (suc l - 1) == 0)) [
      | inl exact ↦
          rw (exact, e)
            (let le =
                multiple_le n (2 ^ l) (pow2_pos l) (omega (arith, pow2-suc l))
                  (rw e at (==→eq _ 0 exact)) in
              (le, λ small. ground (arith, low', pow2_lt k l)))
      | inr more ↦ rw more (
        (omega arith),
        λ small. elim (Bool-cases (ltb k (suc l))) [
          | inr le ↦ ltb→le k (suc l) le
          | inl lt ↦
              let whole : n ≢ 2 ^ l =
                λ same. ==→ne _ 0 more (rw e (mod-eq-zero_of_eq n (2 ^ l) same)) in
              let under = pow2_mono k l (omega (arith, ltb→lt k (suc l) lt)) in
              let some_bit : n ≢ 0 =
                λ none_set. ==→ne _ 0 more (rw e (mod-eq-zero_of_zero n (2 ^ l) none_set)) in
              elim low' [
                | inl none_left ↦ let one : 2 ^ l ≡ 1 = rw none_left in absurd (omega arith)
                | inr b ↦ absurd (omega arith)
              ]
        ],
      )
    ]

-- log2 of a 32-bit number `n` is its logarithm, rounded up: the least order of a pile of at least
-- `n` pages.
pub log2_least : (n : ℕ) → n < 2 ^ 32 → (n ≤ 2 ^ log2 n) × ((k : ℕ) → n ≤ 2 ^ k → log2 n ≤ k)
unfolding log2
log2_least n h =
    let (high, pos, low) = log2_loop_lem 31 1 n h (omega arith) (inl refl) in
    (
      (round_least (log2_loop 31 1 n) n 0 high pos low).0,
      λ k. (round_least (log2_loop 31 1 n) n k high pos low).1,
    )

-- roundup_l2 gives the least multiple of a positive base that is not below `x`, if `x` and the
-- base together are at most `2 ^ 32`.
pub roundup_l2_lem :
    (x base : ℕ)
    → 0 < base
    → x + base ≤ 2 ^ 32
    → (x ≤ roundup_l2 x base) × (roundup_l2 x base < x + base) × (roundup_l2 x base % base ≡ 0)
unfolding roundup_l2
roundup_l2_lem x base pos h =
    let y = x + (base - 1) in
    let e : y % 2 ^ 32 ≡ y = omega arith in
    let low = mod-lt y {m = base} pos in
    let multiple : y - y % base ≡ base * (y / base) = omega (arith, div-add-mod y base) in
    rw e (omega arith, omega arith, rw multiple (mul-mod_right base (y / base)))
