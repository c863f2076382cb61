-- ===== src/PageAlloc/Order.antt =====
-- idx_order of kernel/page_alloc.c: how far the index of a page is aligned.
use koowaldah.Base.{
  ℕ, zero, suc, ◌+◌, ◌*◌, ◌/◌, ◌%◌, ◌^◌, ◌≤◌, ◌<◌, ◌≡◌, ◌↔◌, arith, Bool-cases, inl, inr, ◌==◌,
  ==→eq, ==→ne,
}
use koowaldah.Base.Pow.{mul-pow2-suc}
use koowaldah.PageAlloc.{max_order, idx_loop, idx_order}

-- `n` is a multiple of `2 ^ k`.
abbrev pub Aligned : ℕ → ℕ → Type 0
Aligned k n = (q : ℕ) × (n ≡ q * 2 ^ k)

-- The loop adds to `i` the largest number of halvings, up to `left`, that leave no remainder.
idx_loop_sound : (left i n k : ℕ) → k ≤ left → i + k ≤ idx_loop left i n → Aligned k n
unfolding idx_loop
idx_loop_sound left i n zero h e = (n, omega arith)
idx_loop_sound zero i n (suc k) h e = absurd (omega arith)
idx_loop_sound (suc left) i n (suc k) h e = elim (Bool-cases (n % 2 == 0)) [
  | inl even ↦
      let (q, eq) = idx_loop_sound left (i + 1) (n / 2) k (omega arith) (ground arith) in
      (q, omega (arith, ==→eq _ _ even, mul-pow2-suc q k))
  | inr odd ↦ absurd (ground arith)
]

idx_loop_complete : (left i n k : ℕ) → k ≤ left → Aligned k n → i + k ≤ idx_loop left i n
unfolding idx_loop
idx_loop_complete zero i n k h a = omega arith
idx_loop_complete (suc left) i n zero h a =
    ground (arith, idx_loop_complete left (i + 1) (n / 2) 0 (omega arith) (n / 2, omega arith))
idx_loop_complete (suc left) i n (suc k) h (q, e) = elim (Bool-cases (n % 2 == 0)) [
  | inl even ↦ rw even (
      omega (
        arith,
        idx_loop_complete left (i + 1) (n / 2) k (omega arith) (q, omega (arith, mul-pow2-suc q k)),
      ))
  | inr odd ↦ absurd (omega (arith, ==→ne _ _ odd, mul-pow2-suc q k))
]

-- idx_order finds every alignment that a level asks for: the index of a page is a multiple of
-- `2 ^ k` exactly if idx_order gives at least `k`, for each `k` below `MAX_ORDER`.
pub idx_order_iff : (n k : ℕ) → k < max_order → (k ≤ idx_order n) ↔ Aligned k n
unfolding idx_order
idx_order_iff n k h = (
  (λ le. idx_loop_sound 10 0 n k (omega arith) (omega arith)),
  (λ a. omega (arith, idx_loop_complete 10 0 n k (omega arith) a)),
)

-- The two halves of an aligned pile are aligned to half its size.
pub Aligned-halves : (k n : ℕ) → Aligned (suc k) n → Aligned k n × Aligned k (n + 2 ^ k)
Aligned-halves k n (q, e) =
    ((2 * q, omega (arith, mul-pow2-suc q k)), (2 * q + 1, omega (arith, mul-pow2-suc q k)))

pub idx_order-halves :
    (n k : ℕ)
    → suc k < max_order
    → suc k ≤ idx_order n
    → (k ≤ idx_order n) × (k ≤ idx_order (n + 2 ^ k))
idx_order-halves n k h le =
    let halves = Aligned-halves k n ((idx_order_iff n (suc k) h).0 le) in
    (
      (idx_order_iff n k (omega arith)).1 halves.0,
      (idx_order_iff (n + 2 ^ k) k (omega arith)).1 halves.1,
    )

idx_loop-le : (left i n : ℕ) → idx_loop left i n ≤ i + left
unfolding idx_loop
idx_loop-le zero i n = omega arith
idx_loop-le (suc left) i n = ground (arith, idx_loop-le left (i + 1) (n / 2))

pub idx_order-lt : (n : ℕ) → idx_order n < max_order
unfolding idx_order
idx_order-lt n = omega (arith, idx_loop-le 10 0 n)
