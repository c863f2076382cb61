-- ===== src/Klib/Print/Numeral.antt =====
-- What sprint_int_unsigned and sprint_int_signed of kernel/lib/vsnprintf.c write.
use native.Mathlib.Nat.{mod-lt}
use koowaldah.Base.{
  ℕ, zero, suc, ◌+◌, ◌-◌, ◌/◌, ◌%◌, ◌^◌, ◌≤◌, ◌<◌, ◌≡◌, refl, sym, ap, ◌∙◌, List, [], ◌∷◌, ◌++◌,
  length, length-append, get_or, false, some, ◌==◌, ltb, arith, Bool-cases, inl, inr, if◌then◌else◌,
  update, ==→ne, ltb→le, ne→==, ◌≢◌,
}
use koowaldah.Base.Pow.{pow2-suc}
use koowaldah.Klib.{Memory}
use koowaldah.Klib.Memory.{in_block}
use koowaldah.Klib.Print.{
  digit_char, count_digits, write_digits, word_digits, print_digits, sprint_int_unsigned,
  sprint_int_signed,
}

-- The digit of a number below 16: 0 to 9 from 48 on, A to F from 65 on.
unfoldable pub digit : ℕ → ℕ
digit d = if ltb d 10 then 48 + d else 55 + d

-- Below 16 the table has the digit.
digit_char_lem : (d : ℕ) → d < 16 → digit_char d ≡ some (digit d)
unfolding digit_char digit
digit_char_lem zero lt = refl
digit_char_lem (suc zero) lt = refl
digit_char_lem (suc (suc zero)) lt = refl
digit_char_lem (suc (suc (suc zero))) lt = refl
digit_char_lem (suc (suc (suc (suc zero)))) lt = refl
digit_char_lem (suc (suc (suc (suc (suc zero))))) lt = refl
digit_char_lem (suc (suc (suc (suc (suc (suc zero)))))) lt = refl
digit_char_lem (suc (suc (suc (suc (suc (suc (suc zero))))))) lt = refl
digit_char_lem (suc (suc (suc (suc (suc (suc (suc (suc zero)))))))) lt = refl
digit_char_lem (suc (suc (suc (suc (suc (suc (suc (suc (suc zero))))))))) lt = refl
digit_char_lem (suc (suc (suc (suc (suc (suc (suc (suc (suc (suc zero)))))))))) lt = refl
digit_char_lem (suc (suc (suc (suc (suc (suc (suc (suc (suc (suc (suc zero))))))))))) lt = refl
digit_char_lem (suc (suc (suc (suc (suc (suc (suc (suc (suc (suc (suc (suc zero)))))))))))) lt =
    refl
digit_char_lem (suc (suc (suc (suc (suc (suc (suc (suc (suc (suc (suc (suc (suc zero)))))))))))))
      lt =
    refl
digit_char_lem
      (suc (suc (suc (suc (suc (suc (suc (suc (suc (suc (suc (suc (suc (suc zero)))))))))))))) lt =
    refl
digit_char_lem
      (suc (suc (suc (suc (suc (suc (suc (suc (suc (suc (suc (suc (suc (suc (suc zero)))))))))))))))
      lt =
    refl
digit_char_lem
      (suc
        (suc (suc (suc (suc (suc (suc (suc (suc (suc (suc (suc (suc (suc (suc (suc d))))))))))))))))
      lt =
    absurd (omega (arith, lt))

-- The digits of `n`, the first one first.
unfoldable pub numeral : ℕ → ℕ → ℕ → List ℕ
numeral zero base n = []
numeral (suc fuel) base n =
    let more = numeral fuel base (n / base) ++ digit (n % base) ∷ [] in
    if n / base == 0 then digit (n % base) ∷ [] else more

half_le : (n base : ℕ) → 2 ≤ base → n / base ≤ n / 2
half_le n base h = grind arith

pub half_lt : (fuel n base : ℕ) → 2 ≤ base → n < 2 ^ suc fuel → n / base < 2 ^ fuel
half_lt fuel n base h lt = omega (arith, half_le n base h, pow2-suc fuel)

get_or-append :
    (xs : List ℕ) (d i : ℕ)
    → get_or (xs ++ d ∷ []) i 0 ≡ (if i == length xs then d else get_or xs i 0)
get_or-append [] d zero = refl
get_or-append [] d (suc i) = ground arith
get_or-append (x ∷ xs) d zero = ground arith
get_or-append (x ∷ xs) d (suc i) = get_or-append xs d i ∙ ground arith

fuel_pos : (fuel q : ℕ) → q < 2 ^ fuel → (q == 0) ≡ false → 0 < fuel
fuel_pos zero q lt ne = absurd (==→ne q 0 ne (omega arith))
fuel_pos (suc fuel) q lt ne = omega arith

-- The first loop counts the digits but the last.
count_digits_lem :
    (fuel n base pos : ℕ)
    → 2 ≤ base
    → n < 2 ^ fuel
    → 0 < fuel
    → (k : ℕ) × (count_digits fuel n base pos ≡ some (pos + k))
      × (length (numeral fuel base n) ≡ suc k)
unfolding count_digits numeral
count_digits_lem zero n base pos h lt f = absurd (omega arith)
count_digits_lem (suc fuel) n base pos h lt f = elim (Bool-cases (n / base == 0)) [
  | inl last ↦ rw last (0, ap some (omega arith), refl)
  | inr more ↦
      let below = half_lt fuel n base h lt in
      let (k, run, count) =
        count_digits_lem fuel (n / base) base (pos + 1) h below
          (fuel_pos fuel (n / base) below more) in
      rw more (
        suc k,
        run ∙ ap some (omega arith),
        length-append (numeral fuel base (n / base)) (digit (n % base) ∷ []) ∙ omega (arith, count),
      )
]

-- The second loop, from the last digit on, writes the digits, and nothing else.
write_digits_lem :
    (fuel buf k n base : ℕ) (m : Memory)
    → 2 ≤ base
    → base ≤ 16
    → n < 2 ^ fuel
    → 0 < fuel
    → length (numeral fuel base n) ≡ suc k
    → (m' : Memory) × (write_digits fuel (buf + k) n base m ≡ some m')
      × ((a : ℕ)
          → m' a
            ≡ (if in_block buf (suc k) a then get_or (numeral fuel base n) (a - buf) 0 else m a))
unfolding write_digits numeral
write_digits_lem zero buf k n base m h top lt f count = absurd (omega arith)
write_digits_lem (suc fuel) buf k n base m h top lt f count =
    let shown : digit_char (n % base) ≡ some (digit (n % base)) =
      digit_char_lem (n % base) (omega (arith, mod-lt n {m = base} (omega arith))) in
    elim (Bool-cases (n / base == 0)) [
      | inl last ↦
          let one : k ≡ 0 = omega (arith, rw last at count) in
          rw (shown, last) (update m (buf + k) (digit (n % base)), refl, λ a. rw one (ground arith))
      | inr more ↦
          let below = half_lt fuel n base h lt in
          let pos = fuel_pos fuel (n / base) below more in
          let (j, _, fewer) = count_digits_lem fuel (n / base) base 0 h below pos in
          let d = digit (n % base) in
          let next : k ≡ suc j = omega (
            arith,
            rw more at count,
            length-append (numeral fuel base (n / base)) (d ∷ []),
            fewer,
          ) in
          let (m', run, written) =
            write_digits_lem fuel buf j (n / base) base (update m (buf + k) d) h top below pos
              fewer in
          let down : buf + k - 1 ≡ buf + j = omega (arith, next) in
          rw (shown, more, down)
            (
              m',
              run,
              λ a.
                  written a
                  ∙ ground (
                    arith,
                    next,
                    fewer,
                    get_or-append (numeral fuel base (n / base)) d (a - buf),
                  ),
            )
    ]

-- The text of a word in a base.
abbrev pub word_numeral : ℕ → ℕ → List ℕ
word_numeral base i = numeral word_digits base i

-- Memory with a text at `buf`.
abbrev pub with_text : ℕ → List ℕ → Memory → Memory
with_text buf s m a = if in_block buf (length s) a then get_or s (a - buf) 0 else m a

print_run :
    (buf pos i base k : ℕ) (m m' : Memory)
    → count_digits word_digits i base pos ≡ some (pos + k)
    → write_digits word_digits (buf + pos + k) i base m ≡ some m'
    → print_digits buf pos i base m ≡ some (pos + k + 1, m')
unfolding print_digits
print_run buf pos i base k m m' count write =
    let at : buf + (pos + k) ≡ buf + pos + k = omega arith in rw (count, at, write) refl

-- Both printers write the digits behind what stands in the buffer.
pub print_digits_lem :
    (buf pos i base : ℕ) (m : Memory)
    → 2 ≤ base
    → base ≤ 16
    → i < 2 ^ 32
    → (m' : Memory) × (print_digits buf pos i base m
        ≡ some (pos + length (word_numeral base i), m'))
      × ((a : ℕ) → m' a ≡ with_text (buf + pos) (word_numeral base i) m a)
print_digits_lem buf pos i base m h top word =
    let some_digit : 0 < word_digits = omega arith in
    let (k, run, count) = count_digits_lem word_digits i base pos h word some_digit in
    let (m', write, written) =
      write_digits_lem word_digits (buf + pos) k i base m h top word some_digit count in
    let size : pos + k + 1 ≡ pos + length (word_numeral base i) = omega (arith, count) in
    (
      m',
      print_run buf pos i base k m m' run write ∙ ap (λ (n : ℕ). some (n, m')) size,
      λ a.
          written a
          ∙ ap
              (λ (n : ℕ).
                if in_block (buf + pos) n a
                then get_or (word_numeral base i) (a - (buf + pos)) 0
                else m a)
              (sym count),
    )

unsigned_part :
    (buf i base : ℕ) (m : Memory)
    → 2 ≤ base
    → base ≤ 16
    → i < 2 ^ 32
    → (m' : Memory) × (print_digits buf 0 i base m ≡ some (length (word_numeral base i), m'))
      × ((a : ℕ) → m' a ≡ with_text buf (word_numeral base i) m a)
unsigned_part buf i base m h top word =
    let (m', run, written) = print_digits_lem buf 0 i base m h top word in
    (
      m',
      run ∙ ap (λ (n : ℕ). some (n, m')) (omega arith),
      λ a. written a ∙ ap (λ (b : ℕ). with_text b (word_numeral base i) m a) (omega arith),
    )

-- In any base from 2 to 16 sprint_int_unsigned of a word ends, writes its digits from `buf` on, changes
-- nothing else, and gives their number.
pub sprint_int_unsigned_lem :
    (buf i base : ℕ) (m : Memory)
    → 2 ≤ base
    → base ≤ 16
    → i < 2 ^ 32
    → (m' : Memory) × (sprint_int_unsigned buf i base m ≡ some (length (word_numeral base i), m'))
      × ((a : ℕ) → m' a ≡ with_text buf (word_numeral base i) m a)
unfolding sprint_int_unsigned
sprint_int_unsigned_lem buf i base m h top word = unsigned_part buf i base m h top word

-- The text of a long, given by its bit pattern.
abbrev pub signed_text : ℕ → ℕ → List ℕ
signed_text base i =
    if ltb i (2 ^ 31) then word_numeral base i else b'-' ∷ word_numeral base (2 ^ 32 - i)

minus_minus : (a b c : ℕ) → a - b - c ≡ a - (b + c)
minus_minus a b c = omega arith

get_or_cons :
    (c : ℕ) (s : List ℕ) (n : ℕ) → get_or (c ∷ s) n 0 ≡ (if n == 0 then c else get_or s (n - 1) 0)
get_or_cons c s zero = refl
get_or_cons c s (suc n) = ground arith

with_text-cons :
    (buf c : ℕ) (s : List ℕ) (m : Memory) (a : ℕ)
    → with_text (buf + 1) s (update m buf c) a ≡ with_text buf (c ∷ s) m a
with_text-cons buf c s m a =
    ground (arith, get_or_cons c s (a - buf), ap (λ (n : ℕ). get_or s n 0) (minus_minus a buf 1))

-- In any base from 2 to 16 sprint_int_signed of the bit pattern of a long other than the least one ends,
-- writes the sign of a negative number and the digits of its magnitude from `buf` on, changes nothing
-- else, and gives the number of bytes.
pub sprint_int_signed_lem :
    (buf i base : ℕ) (m : Memory)
    → 2 ≤ base
    → base ≤ 16
    → i < 2 ^ 32
    → i ≢ 2 ^ 31
    → (m' : Memory) × (sprint_int_signed buf i base m ≡ some (length (signed_text base i), m'))
      × ((a : ℕ) → m' a ≡ with_text buf (signed_text base i) m a)
unfolding sprint_int_signed
sprint_int_signed_lem buf i base m h top word least = elim (Bool-cases (ltb i (2 ^ 31))) [
  | inl plus ↦ rw plus (unsigned_part buf i base m h top word)
  | inr minus ↦
      let (m', run, written) =
        print_digits_lem buf 1 (2 ^ 32 - i) base (update m buf b'-') h top
          (omega (arith, ltb→le i (2 ^ 31) minus)) in
      rw (minus, ne→== i (2 ^ 31) least)
        (
          m',
          run ∙ ap (λ (n : ℕ). some (n, m')) (omega arith),
          λ a. written a ∙ with_text-cons buf b'-' (word_numeral base (2 ^ 32 - i)) m a,
        )
]
