-- ===== src/Bitmap/Ranges.antt =====
-- bitmap_zero and bitmap_fill of include/bitmap.h, bit by bit, and words that stay words.
use koowaldah.Base.{
  ℕ, zero, suc, ◌+◌, ◌-◌, ◌/◌, ◌%◌, ◌^◌, ◌<◌, ◌≡◌, true, false, refl, ap, arith, sym, ◌∙◌, ◌==◌,
  ==→eq, ==→ne, ne→==, ltb, lt→ltb, le→ltb, Bool-cases, inl, inr, if◌then◌else◌, update,
}
use koowaldah.Base.Pow.{pow2-suc}
use koowaldah.Bitmap.{
  Bitmap, test_bit, or_bit, clear_bit, bitmap_bit_set, bitmap_bit_clear, put_words, bitmap_zero,
  bitmap_fill, low_bits,
}
use koowaldah.Bitmap.Bits.{test_bit-zero, test_bit-suc}
use koowaldah.Bitmap.Low.{low_bits_sound, mod-pow2-suc}
use koowaldah.Bitmap.Access.{is_set}
use koowaldah.Bitmap.Every.{AreWords}

-- A word of `m` bits with one more bit below `m`.
add_bit : (m i w : ℕ) → i < m → w < 2 ^ m → test_bit w i ≡ false → w + 2 ^ i < 2 ^ m
add_bit zero i w lt word clear = absurd (omega arith)
add_bit (suc m) zero w lt word clear =
    let low = ==→ne (w % 2) 1 (sym (test_bit-zero w) ∙ clear) in omega (arith, pow2-suc m)
add_bit (suc m) (suc i) w lt word clear = omega (
  arith,
  pow2-suc m,
  pow2-suc i,
  add_bit m i (w / 2) (omega arith) (omega (arith, pow2-suc m)) (sym (test_bit-suc w i) ∙ clear),
)

pub bit_set-AreWords : (bit : ℕ) (dst : Bitmap) → AreWords dst → AreWords (bitmap_bit_set bit dst)
unfolding bitmap_bit_set or_bit
bit_set-AreWords bit dst ws i = elim (Bool-cases (bit / 32 == i)) [
  | inl here ↦ rw here (elim (Bool-cases (test_bit (dst (bit / 32)) (bit % 32))) [
    | inl on ↦ rw on (ws (bit / 32))
    | inr off ↦ rw off (add_bit 32 (bit % 32) (dst (bit / 32)) (omega arith) (ws (bit / 32)) off)
  ])
  | inr other ↦ rw other (ws i)
]

pub bit_clear-AreWords :
    (bit : ℕ) (dst : Bitmap) → AreWords dst → AreWords (bitmap_bit_clear bit dst)
unfolding bitmap_bit_clear clear_bit
bit_clear-AreWords bit dst ws i = elim (Bool-cases (bit / 32 == i)) [
  | inl here ↦ rw here (elim (Bool-cases (test_bit (dst (bit / 32)) (bit % 32))) [
    | inl on ↦ rw on (omega (arith, ws (bit / 32)))
    | inr off ↦ rw off (ws (bit / 32))
  ])
  | inr other ↦ rw other (ws i)
]

put_words_lem :
    (v words word : ℕ) (dst : Bitmap) (i : ℕ)
    → put_words v words word dst i
      ≡ (if ltb i word then dst i else if ltb i (word + words) then v else dst i)
unfolding put_words
put_words_lem v zero word dst i = ground arith
put_words_lem v (suc words) word dst i =
    ground (arith, put_words_lem v words (word + 1) (update dst word v) i)

ones : (i : ℕ) → i < 32 → test_bit (2 ^ 32 - 1) i ≡ true
unfolding low_bits
ones i lt = low_bits_sound true 32 (2 ^ 32 - 1) i refl lt

test_bit-nil : (i : ℕ) → test_bit 0 i ≡ false
test_bit-nil zero = test_bit-zero 0
test_bit-nil (suc i) = test_bit-suc 0 i ∙ test_bit-nil i

-- The low `k` bits masked out.
mask_low : (k w i : ℕ) → test_bit (w - w % 2 ^ k) i ≡ (if ltb i k then false else test_bit w i)
mask_low zero w i =
    let e : w - w % 2 ^ 0 ≡ w = omega arith in
    ap (λ (v : ℕ). test_bit v i) e ∙ rw (le→ltb i 0 (omega arith)) refl
mask_low (suc k) w zero =
    let low : (w - w % 2 ^ suc k) % 2 ≡ 0 = omega (arith, mod-pow2-suc w k) in
    test_bit-zero (w - w % 2 ^ suc k) ∙ rw low (rw (lt→ltb 0 (suc k) (omega arith)) refl)
mask_low (suc k) w (suc i) =
    let half : (w - w % 2 ^ suc k) / 2 ≡ w / 2 - w / 2 % 2 ^ k = omega (arith, mod-pow2-suc w k) in
    test_bit-suc (w - w % 2 ^ suc k) i
    ∙ ap (λ (v : ℕ). test_bit v i) half
    ∙ mask_low k (w / 2) i
    ∙ ground (arith, test_bit-suc w i)

cleared_word :
    (words : ℕ) (dst : Bitmap) (i t : ℕ)
    → test_bit (put_words 0 words 0 dst i) t ≡ (if ltb i words then false else test_bit (dst i) t)
cleared_word words dst i t =
    let sum : 0 + words ≡ words = omega arith in
    rw (put_words_lem 0 words 0 dst i, le→ltb i 0 (omega arith), sum)
      (elim (Bool-cases (ltb i words)) [
        | inl below ↦ rw below (test_bit-nil t)
        | inr above ↦ rw above refl
      ])

-- bitmap_zero clears the bits of the whole words below the limit, and in the first word as many more as
-- the last word has below it. All other bits keep their value.
pub bitmap_zero_lem :
    (bits : ℕ) (dst : Bitmap) (j : ℕ)
    → is_set (bitmap_zero bits dst) j ≡ (
        if ltb (j / 32) (bits / 32)
        then false
        else if ltb j (bits % 32)
        then false
        else is_set dst j)
unfolding bitmap_zero is_set
bitmap_zero_lem bits dst j = elim (Bool-cases (0 == j / 32)) [
  | inl first ↦
      let word : j / 32 ≡ 0 = sym (==→eq 0 (j / 32) first) in
      let place : j % 32 ≡ j = omega arith in
      let cleared = put_words 0 (bits / 32) 0 dst in
      rw (first, mask_low (bits % 32) (cleared 0) (j % 32), cleared_word (bits / 32) dst 0 (j % 32))
        (rw (word, place) (ground arith))
  | inr later ↦
      let word = ==→ne 0 (j / 32) later in
      rw (later, cleared_word (bits / 32) dst (j / 32) (j % 32), le→ltb j (bits % 32) (omega arith))
        refl
]

-- bitmap_fill sets the bits of the whole words below the limit, and changes no word behind the one that
-- has the limit.
pub bitmap_fill_lem :
    (last : ℕ → ℕ) (bits : ℕ) (dst : Bitmap) (j : ℕ)
    → j / 32 < bits / 32
    → is_set (bitmap_fill last bits dst) j ≡ true
unfolding bitmap_fill is_set
bitmap_fill_lem last bits dst j lt =
    rw
      (
        ne→== (bits / 32) (j / 32) (λ e. omega (arith, e)),
        put_words_lem (2 ^ 32 - 1) (bits / 32) 0 dst (j / 32),
        le→ltb (j / 32) 0 (omega arith),
        lt→ltb (j / 32) (0 + bits / 32) (omega arith),
      )
      (ones (j % 32) (omega arith))

put_words-AreWords :
    (v words word : ℕ) (dst : Bitmap)
    → v < 2 ^ 32
    → AreWords dst
    → AreWords (put_words v words word dst)
put_words-AreWords v words word dst small ws i =
    rw (put_words_lem v words word dst i) (ground (arith, ws i))

pub zero-AreWords : (bits : ℕ) (dst : Bitmap) → AreWords dst → AreWords (bitmap_zero bits dst)
unfolding bitmap_zero
zero-AreWords bits dst ws i =
    let cleared = put_words-AreWords 0 (bits / 32) 0 dst (omega arith) ws in
    ground (arith, cleared i, cleared 0)

pub fill-AreWords :
    (last : ℕ → ℕ) (bits : ℕ) (dst : Bitmap)
    → AreWords dst
    → ((w : ℕ) → w < 2 ^ 32 → last w < 2 ^ 32)
    → AreWords (bitmap_fill last bits dst)
unfolding bitmap_fill
fill-AreWords last bits dst ws safe i =
    let filled = put_words-AreWords (2 ^ 32 - 1) (bits / 32) 0 dst (omega arith) ws in
    ground (
      arith,
      filled i,
      safe (put_words (2 ^ 32 - 1) (bits / 32) 0 dst (bits / 32)) (filled (bits / 32)),
    )
