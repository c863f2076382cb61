-- ===== src/Klib/Print.antt =====
-- kernel/lib/vsnprintf.c. Arguments are words; a signed one is read from its bit pattern.
pub mod Numeral
pub mod ReadBack
pub mod Format
pub mod Plain
pub mod Hex
use mathlib.Core.Option
use koowaldah.Base.{
  ℕ, zero, suc, ◌+◌, ◌-◌, ◌/◌, ◌%◌, ◌^◌, List, [], ◌∷◌, Bool, ◌&&◌, Option, none, some, get_elem?,
  ◌==◌, ltb, leb, if◌then◌else◌, update, sub32,
}
use koowaldah.Base.Checked.{◌>>=◌}
use koowaldah.Klib.{Memory, memory_set, memory_copy, kstrchr, kstrlen}

-- The string literal `digits`, "0123456789ABCDEF" and its zero byte.
abbrev pub digits : List ℕ
digits = 48 ∷ 49 ∷ 50 ∷ 51 ∷ 52 ∷ 53 ∷ 54 ∷ 55 ∷ 56 ∷ 57 ∷ 65 ∷ 66 ∷ 67 ∷ 68 ∷ 69 ∷ 70 ∷ 0 ∷ []

-- `digits[d]`. `none` is a read behind the literal.
unfoldable pub digit_char : ℕ → Option ℕ
digit_char d = get_elem? digits d

-- `while (l / base) { l = l / base; pos++; }`
unfoldable pub count_digits : ℕ → ℕ → ℕ → ℕ → Option ℕ
count_digits zero l base pos = none
count_digits (suc fuel) l base pos =
    let more = count_digits fuel (l / base) base (pos + 1) in
    if l / base == 0 then some pos else more

-- `do { buf[pos--] = digits[i % base]; i = i / base; } while (i);`, where `at` is `buf + pos`.
unfoldable pub write_digits : ℕ → ℕ → ℕ → ℕ → Memory → Option Memory
unfolding digit_char
write_digits zero at i base m = none
write_digits (suc fuel) at i base m = do
  c ← digit_char (i % base)
  let m' = update m at c
  let more = write_digits fuel (at - 1) (i / base) base m'
  if i / base == 0 then some m' else more

-- A word has at most 32 digits.
abbrev pub word_digits : ℕ
word_digits = 32

-- The two loops, where `pos` bytes stand in the buffer already.
unfoldable pub print_digits : ℕ → ℕ → ℕ → ℕ → Memory → Option (ℕ × Memory)
unfolding count_digits write_digits
print_digits buf pos i base m = do
  last ← count_digits word_digits i base pos
  m' ← write_digits word_digits (buf + last) i base m
  some (last + 1, m')

unfoldable pub sprint_int_unsigned : ℕ → ℕ → ℕ → Memory → Option (ℕ × Memory)
unfolding print_digits
sprint_int_unsigned buf i base m = print_digits buf 0 i base m

-- `i` is the bit pattern of a long. The least long has no negative.
unfoldable pub sprint_int_signed : ℕ → ℕ → ℕ → Memory → Option (ℕ × Memory)
unfolding print_digits
sprint_int_signed buf i base m =
    if ltb i (2 ^ 31)
    then print_digits buf 0 i base m
    else if i == 2 ^ 31
    then none
    else print_digits buf 1 (2 ^ 32 - i) base (update m buf b'-')
