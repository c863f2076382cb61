-- ===== src/Bitmap.antt =====
-- kernel/lib/bitmap.c and include/bitmap.h: arrays of bits in words of 32 bits.
-- The array is a function from the index of a word to the word. `w & (1UL << i)` is not zero exactly
-- if `test_bit w i`; `|=` and `&= ~` of one bit are written out on numbers. A result of -1 is `none`.
pub mod Bits
pub mod Access
pub mod Seek
pub mod Low
pub mod Every
pub mod Ranges
use koowaldah.Base.{
  ℕ, zero, suc, ◌+◌, ◌-◌, ◌*◌, ◌/◌, ◌%◌, ◌^◌, Bool, true, false, not, Option, none, some, ◌==◌,
  if◌then◌else◌, update,
}

abbrev pub Bitmap : Type 0
Bitmap = ℕ → ℕ

abbrev pub bits_per_long : ℕ
bits_per_long = 32

unfoldable pub test_bit : ℕ → ℕ → Bool
test_bit w i = w / 2 ^ i % 2 == 1

-- `w |= 1UL << i`
unfoldable pub or_bit : ℕ → ℕ → ℕ
or_bit w i = if test_bit w i then w else w + 2 ^ i

-- `w &= ~(1UL << i)`
unfoldable pub clear_bit : ℕ → ℕ → ℕ
clear_bit w i = if test_bit w i then w - 2 ^ i else w

unfoldable pub bitmap_bit_set : ℕ → Bitmap → Bitmap
bitmap_bit_set bit dst =
    update dst (bit / bits_per_long) (or_bit (dst (bit / bits_per_long)) (bit % bits_per_long))

unfoldable pub bitmap_bit_clear : ℕ → Bitmap → Bitmap
bitmap_bit_clear bit dst =
    update dst (bit / bits_per_long) (clear_bit (dst (bit / bits_per_long)) (bit % bits_per_long))

-- The value is the bit in its place: 0, or a power of two.
unfoldable pub bitmap_bit_get : ℕ → Bitmap → ℕ
bitmap_bit_get bit dst =
    if test_bit (dst (bit / bits_per_long)) (bit % bits_per_long)
    then 2 ^ (bit % bits_per_long)
    else 0

-- The loops of bitmap_seek_set and bitmap_seek_unset, with the rounds that are left, `bit`, `tmp`
-- and the index of the word that `dst` points to.
seek_set_loop : ℕ → ℕ → ℕ → ℕ → Bitmap → Option ℕ
seek_set_loop zero bit tmp word dst = none
seek_set_loop (suc left) bit tmp word dst =
    let (tmp', word') = if tmp == bits_per_long then (0, word + 1) else (tmp, word) in
    let rest = seek_set_loop left (bit + 1) (tmp' + 1) word' dst in
    if test_bit (dst word') tmp' then some bit else rest

seek_unset_loop : ℕ → ℕ → ℕ → ℕ → Bitmap → Option ℕ
seek_unset_loop zero bit tmp word dst = none
seek_unset_loop (suc left) bit tmp word dst =
    let (tmp', word') = if tmp == bits_per_long then (0, word + 1) else (tmp, word) in
    let rest = seek_unset_loop left (bit + 1) (tmp' + 1) word' dst in
    if not (test_bit (dst word') tmp') then some bit else rest

unfoldable pub bitmap_seek_set : Bitmap → ℕ → Option ℕ
unfolding seek_set_loop
bitmap_seek_set dst limit = seek_set_loop limit 0 0 0 dst

unfoldable pub bitmap_seek_unset : Bitmap → ℕ → Option ℕ
unfolding seek_unset_loop
bitmap_seek_unset dst limit = seek_unset_loop limit 0 0 0 dst

-- The low `n` bits of a word: `~w & (~0UL >> (32 - n))` or `w & (~0UL >> (32 - n))` is 0.
unfoldable pub low_bits : Bool → ℕ → ℕ → Bool
low_bits true n w = w % 2 ^ n == 2 ^ n - 1
low_bits false n w = w % 2 ^ n == 0

-- A whole word: `w == ~0UL` or `w == 0`.
unfoldable pub whole_word : Bool → ℕ → Bool
whole_word true w = w == 2 ^ 32 - 1
whole_word false w = w == 0

-- The loop of bitmap_all_set (`true`) and bitmap_all_unset (`false`) over the whole words, and the
-- test of the `rest` bits behind them.
unfoldable pub all_loop : Bool → ℕ → ℕ → ℕ → Bitmap → Bool
unfolding low_bits whole_word
all_loop value zero rest word dst = if rest == 0 then true else low_bits value rest (dst word)
all_loop value (suc words) rest word dst =
    let later = all_loop value words rest (word + 1) dst in
    if whole_word value (dst word) then later else false

unfoldable pub bitmap_all_set : Bitmap → ℕ → Bool
unfolding all_loop
bitmap_all_set dst limit = all_loop true (limit / bits_per_long) (limit % bits_per_long) 0 dst

unfoldable pub bitmap_all_unset : Bitmap → ℕ → Bool
unfolding all_loop
bitmap_all_unset dst limit = all_loop false (limit / bits_per_long) (limit % bits_per_long) 0 dst

-- BITMAP_SIZE, in bytes.
unfoldable pub bitmap_size : ℕ → ℕ
bitmap_size nbits = (nbits + 31 - (nbits + 31) % 32) / 8

-- `words` words from `word` on get the value `v`: the loop of bitmap_fill, and memory_set in bitmap_zero.
unfoldable pub put_words : ℕ → ℕ → ℕ → Bitmap → Bitmap
put_words v zero word dst = dst
put_words v (suc words) word dst = put_words v words (word + 1) (update dst word v)

-- The mask of the remaining bits goes to the first word.
unfoldable pub bitmap_zero : ℕ → Bitmap → Bitmap
unfolding put_words
bitmap_zero bits dst =
    let cleared = put_words 0 (bits / bits_per_long) 0 dst in
    update cleared 0 (cleared 0 - cleared 0 % 2 ^ (bits % bits_per_long))

-- `~0UL >> (bits - BITS_PER_LONG)` shifts by more than the width of a word, which C leaves undefined:
-- `last` is what the statement makes of the word it changes.
unfoldable pub bitmap_fill : (ℕ → ℕ) → ℕ → Bitmap → Bitmap
unfolding put_words
bitmap_fill last bits dst =
    let filled = put_words (2 ^ 32 - 1) (bits / bits_per_long) 0 dst in
    update filled (bits / bits_per_long) (last (filled (bits / bits_per_long)))
