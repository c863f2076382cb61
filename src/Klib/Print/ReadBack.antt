-- ===== src/Klib/Print/ReadBack.antt =====
-- strtoul of kernel/lib/klib.c on what sprint_int_unsigned of kernel/lib/vsnprintf.c writes.
use koowaldah.Base.{
  ℕ, zero, suc, ◌+◌, ◌-◌, ◌*◌, ◌/◌, ◌%◌, ◌^◌, ◌<◌, ◌≡◌, ◌≢◌, refl, ap, ◌∙◌, List, [], ◌∷◌, ◌++◌,
  length, get_or, true, some, ◌==◌, arith, Bool-cases, inl, inr, ==→ne, ==→eq, lt→ltb,
}
use koowaldah.Klib.{Memory}
use koowaldah.Klib.Strings.{IsString}
use koowaldah.Klib.Strtoul.{strtoul}
use koowaldah.Klib.Strtoul.Decimal.{AllDigits, decimal, strtoul_lem}
use koowaldah.Klib.Print.{word_digits, sprint_int_unsigned}
use koowaldah.Klib.Print.Numeral.{
  digit, numeral, word_numeral, with_text, half_lt, sprint_int_unsigned_lem,
}

IsString-bytes :
    (m : Memory) (p : ℕ) (s : List ℕ)
    → AllDigits s
    → ((k : ℕ) → k < length s → m (p + k) ≡ get_or s k 0)
    → m (p + length s) ≡ 0
    → IsString m p s
IsString-bytes m p [] ds bytes end = ap m (omega arith) ∙ end
IsString-bytes m p (c ∷ s) (low, high, ds) bytes end = (
  ap m (omega arith) ∙ bytes 0 (omega arith),
  omega arith,
  IsString-bytes m (p + 1) s ds (λ k lt. ap m (omega arith) ∙ bytes (suc k) (omega arith))
      (ap m (omega arith) ∙ end),
)

AllDigits-append : (s : List ℕ) (d : ℕ) → AllDigits s → d < 10 → AllDigits (s ++ digit d ∷ [])
unfolding digit
AllDigits-append [] d ds lt = (ground arith, ground arith, tt)
AllDigits-append (c ∷ s) d (low, high, ds) lt = (low, high, AllDigits-append s d ds lt)

decimal-append :
    (acc : ℕ) (s : List ℕ) (d : ℕ)
    → d < 10
    → decimal acc (s ++ digit d ∷ []) ≡ decimal acc s * 10 + d
unfolding decimal digit
decimal-append acc [] d lt = ground arith
decimal-append acc (c ∷ s) d lt = decimal-append (acc * 10 + (c - 48)) s d lt

-- A decimal numeral: digits, the number, and for a positive number no leading 0.
numeral_digits : (fuel n : ℕ) → AllDigits (numeral fuel 10 n)
unfolding numeral
numeral_digits zero n = tt
numeral_digits (suc fuel) n = elim (Bool-cases (n / 10 == 0)) [
  | inl last ↦ rw last (AllDigits-append [] (n % 10) tt (omega arith))
  | inr more ↦ rw more (
      AllDigits-append (numeral fuel 10 (n / 10)) (n % 10) (numeral_digits fuel (n / 10))
        (omega arith))
]

decimal_nil : decimal 0 [] ≡ 0
unfolding decimal
decimal_nil = refl

digit-zero : (d : ℕ) → d < 10 → digit d ≡ 48 → d ≢ 0 → ⊥
unfolding digit
digit-zero d lt e ne = ground arith

decimal-numeral : (fuel n : ℕ) → n < 2 ^ fuel → decimal 0 (numeral fuel 10 n) ≡ n
unfolding numeral
decimal-numeral zero n lt = decimal_nil ∙ omega arith
decimal-numeral (suc fuel) n lt = elim (Bool-cases (n / 10 == 0)) [
  | inl last ↦ rw last (
      decimal-append 0 [] (n % 10) (omega arith)
      ∙ rw decimal_nil (omega (arith, ==→eq (n / 10) 0 last)))
  | inr more ↦ rw more (
      decimal-append 0 (numeral fuel 10 (n / 10)) (n % 10) (omega arith)
      ∙ rw (decimal-numeral fuel (n / 10) (half_lt fuel n 10 (omega arith) lt)) (omega arith))
]

last_ne : (n : ℕ) → 0 < n → (n / 10 == 0) ≡ true → n % 10 ≢ 0
last_ne n pos last e = omega (arith, ==→eq (n / 10) 0 last)

numeral-head :
    (fuel n : ℕ)
    → n < 2 ^ fuel
    → 0 < n
    → (c : ℕ) × (s : List ℕ) × (numeral fuel 10 n ≡ c ∷ s) × (c ≢ 48)
unfolding numeral
numeral-head zero n lt pos = absurd (omega arith)
numeral-head (suc fuel) n lt pos = elim (Bool-cases (n / 10 == 0)) [
  | inl last ↦
      rw last
        (digit (n % 10), [], refl, λ e. digit-zero (n % 10) (omega arith) e (last_ne n pos last))
  | inr more ↦
      let (c, s, e, ne) =
        numeral-head fuel (n / 10) (half_lt fuel n 10 (omega arith) lt)
          (omega (arith, ==→ne (n / 10) 0 more)) in
      rw more (c, s ++ digit (n % 10) ∷ [], rw e refl, ne)
]

plus_minus : (a b : ℕ) → a + b - a ≡ b
plus_minus a b = omega arith

below_with_text :
    (buf k : ℕ) (s : List ℕ) (m : Memory)
    → k < length s
    → with_text buf s m (buf + k) ≡ get_or s k 0
below_with_text buf k s m lt = ground (arith, ap (λ (n : ℕ). get_or s n 0) (plus_minus buf k))

behind_with_text :
    (buf : ℕ) (s : List ℕ) (m : Memory) → with_text buf s m (buf + length s) ≡ m (buf + length s)
behind_with_text buf s m = ground arith

IsString-with_text :
    (buf : ℕ) (s : List ℕ) (m m' : Memory)
    → AllDigits s
    → ((a : ℕ) → m' a ≡ with_text buf s m a)
    → m (buf + length s) ≡ 0
    → IsString m' buf s
IsString-with_text buf s m m' ds written end =
    IsString-bytes m' buf s ds (λ k lt. written (buf + k) ∙ below_with_text buf k s m lt)
      (written (buf + length s) ∙ behind_with_text buf s m ∙ end)

read_numeral :
    (fuel buf i : ℕ) (m : Memory)
    → 0 < i
    → i < 2 ^ 32
    → IsString m buf (word_numeral 10 i)
    → AllDigits (word_numeral 10 i)
    → length (word_numeral 10 i) < fuel
    → strtoul fuel buf m ≡ some i
read_numeral fuel buf i m pos word str ds lt =
    let (c, s, e, ne) = numeral-head word_digits i word pos in
    strtoul_lem fuel buf c m s (rw e at str) (rw e at ds) ne (rw e at lt)
    ∙ rw (← e, decimal-numeral word_digits i word, lt→ltb i (2 ^ 32) word) refl

-- strtoul, with fuel for the digits, reads back the number that sprint_int_unsigned wrote in base 10:
-- any positive word, if a zero byte stands behind the digits.
pub strtoul-sprint_int_unsigned :
    (buf i fuel : ℕ) (m : Memory)
    → 0 < i
    → i < 2 ^ 32
    → m (buf + length (word_numeral 10 i)) ≡ 0
    → length (word_numeral 10 i) < fuel
    → (n : ℕ) × (m' : Memory) × (sprint_int_unsigned buf i 10 m ≡ some (n, m'))
      × (strtoul fuel buf m' ≡ some i)
strtoul-sprint_int_unsigned buf i fuel m pos word end lt =
    let (m', run, written) = sprint_int_unsigned_lem buf i 10 m (omega arith) (omega arith) word in
    let ds = numeral_digits word_digits i in
    let str = IsString-with_text buf (word_numeral 10 i) m m' ds written end in
    (length (word_numeral 10 i), m', run, read_numeral fuel buf i m' pos word str ds lt)
