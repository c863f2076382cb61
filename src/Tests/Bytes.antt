-- ===== src/Tests/Bytes.antt =====
-- Memory and strings of kernel/lib/klib.c and include/lib.h: "ab" at 100, "ac" at 200.
use koowaldah.Base.{List, ℕ, some, [], ◌∷◌, ◌≡◌, arith, update}
use koowaldah.Klib.{Memory}
use mathlib.Core.Path.{refl}
use koowaldah.Klib.Strtoul.{
  strtoul, skip_space, isspace, convert, strtoul_loop, digit_value, isdigit, isalpha, isupper,
  islower,
}
use koowaldah.Klib.Strings.{find_first}
use koowaldah.Klib.Print.{sprint_int_unsigned, sprint_int_signed}
use koowaldah.Klib.Print.Numeral.{
  digit, word_numeral, numeral, signed_text, with_text, sprint_int_signed_lem,
}
use koowaldah.Klib.Print.ReadBack.{strtoul-sprint_int_unsigned}
use koowaldah.Klib.Print.Format.{Printer}
use koowaldah.Base.{length, none}
use koowaldah.Klib.Strings.{IsString}

abbrev memory : Memory
memory = update (update (update (update (λ _. 0) 100 97) 101 98) 200 97) 201 99

first : IsString memory 100 (97 ∷ 98 ∷ [])
first = ground arith

second : IsString memory 200 (97 ∷ 99 ∷ [])
second = ground arith

abbrev ab : List ℕ
ab = 97 ∷ 98 ∷ []

abbrev ac : List ℕ
ac = 97 ∷ 99 ∷ []

-- "429" and "0xb"
abbrev numerals : Memory
numerals =
    update (update (update (update (update (update (λ _. 0) 10 52) 11 50) 12 57) 20 48) 21 120) 22
      98

decimal_text : IsString numerals 10 (52 ∷ 50 ∷ 57 ∷ [])
decimal_text = ground arith

-- The hexadecimal digit `b` is not read.
strtoul_hexadecimal : strtoul 9 20 numerals ≡ some 0
unfolding strtoul skip_space isspace convert strtoul_loop digit_value isdigit isalpha isupper
    islower
strtoul_hexadecimal = refl

abbrev blank : Memory
blank = λ _. 0

three_digits : length (word_numeral 10 207) ≡ 3
unfolding numeral digit
three_digits = refl

two_digits : length (word_numeral 16 255) ≡ 2
unfolding numeral digit
two_digits = refl

strtoul-sprint_int_unsigned_example :
    (n : ℕ) × (m' : Memory) × (sprint_int_unsigned 40 207 10 blank ≡ some (n, m'))
    × (strtoul 33 40 m' ≡ some 207)
strtoul-sprint_int_unsigned_example =
    strtoul-sprint_int_unsigned 40 207 33 blank (omega arith) (omega arith) refl
      (omega (arith, three_digits))

sprint_int_signed_lem_example :
    (m' : Memory) × (sprint_int_signed 40 0xfffffff4 10 blank
      ≡ some (length (signed_text 10 0xfffffff4), m'))
    × ((a : ℕ) → m' a ≡ with_text 40 (signed_text 10 0xfffffff4) blank a)
sprint_int_signed_lem_example =
    sprint_int_signed_lem 40 0xfffffff4 10 blank (omega arith) (omega arith) (omega arith)
      (omega arith)

-- "%x08" at 500, the local buffer at 900.
abbrev padded : Printer
padded = record {
  cur = 503;
  old = 500;
  pos = 100;
  fill_tag = 48;
  fill_num = 8;
  fmt_broken = 0;
  args = 255 ∷ [];
  mem = blank;
}

no_sign : find_first 37 ab ≡ none
unfolding find_first
no_sign = refl
