-- ===== src/Konfig/Text.antt =====
-- What the configuration tool uses of the C library: strcmp, strncmp, strchr, atoi and the conversion
-- "%d" of printf. A string is the list of its bytes, without the zero that ends it.
use native.Mathlib.Nat.{pow-suc}
use Prim.Native.Char.{code}
use Prim.Native.String.{String}
use koowaldah.Base.{
  ℕ, zero, suc, ◌+◌, ◌-◌, ◌*◌, ◌/◌, ◌%◌, ◌^◌, ◌≡◌, refl, List, [], ◌∷◌, ◌++◌, Option, none, some,
  Bool, true, false, ◌&&◌, ◌||◌, ◌==◌, leb, ltb, if◌then◌else◌, arith, Bool-cases, inl, inr, ap₂,
  ==→eq, ==_self, length, length-append, ◌≢◌, ◌∙◌, ◌≤◌, ◌<◌, u32,
}

abbrev pub codes : String → List ℕ
codes String.[] = []
codes (String.◌∷◌ c s) = code c ∷ codes s

-- `!strcmp(a, b)`.
unfoldable pub str_eq : List ℕ → List ℕ → Bool
str_eq [] [] = true
str_eq [] (y ∷ b) = false
str_eq (x ∷ a) [] = false
str_eq (x ∷ a) (y ∷ b) = x == y && str_eq a b

pub str_eq_self : (a : List ℕ) → str_eq a a ≡ true
unfolding str_eq
str_eq_self [] = refl
str_eq_self (x ∷ a) = rw (==_self x) (str_eq_self a)

pub str_eq→eq : (a b : List ℕ) → str_eq a b ≡ true → a ≡ b
unfolding str_eq
str_eq→eq [] [] h = refl
str_eq→eq [] (y ∷ b) h = cc
str_eq→eq (x ∷ a) [] h = cc
str_eq→eq (x ∷ a) (y ∷ b) h = elim (Bool-cases (x == y)) [
  | inl same ↦ ap₂ (λ u v. u ∷ v) (==→eq x y same) (str_eq→eq a b (rw same at h))
  | inr other ↦ cc (rw other at h)
]

-- What follows the prefix `p` of a string: the test `!strncmp(p, s, strlen(p))`.
unfoldable pub strip_prefix : List ℕ → List ℕ → Option (List ℕ)
strip_prefix [] s = some s
strip_prefix (c ∷ p) [] = none
strip_prefix (c ∷ p) (x ∷ s) = if c == x then strip_prefix p s else none

-- strchr: what stands before the first `c`, and what behind.
unfoldable pub split_at : ℕ → List ℕ → Option (List ℕ × List ℕ)
split_at c [] = none
split_at c (x ∷ s) =
    let rest = split_at c s in
    if x == c then some ([], s) else (elim rest [ none ↦ none | some (a, b) ↦ some (x ∷ a, b) ])

abbrev pub is_digit : ℕ → Bool
is_digit c = leb 48 c && leb c 57

-- The conversion "%u": `fuel` is the most digits.
unfoldable pub digits : ℕ → ℕ → List ℕ
digits zero n = []
digits (suc fuel) n =
    let rest = digits fuel (n / 10) ++ (48 + n % 10) ∷ [] in
    if ltb n 10 then (48 + n) ∷ [] else rest

-- The conversion "%d" of a word, read as a signed number.
unfoldable pub print_d : ℕ → List ℕ
unfolding digits
print_d v = if ltb v (2 ^ 31) then digits 10 v else b'-' ∷ digits 10 (2 ^ 32 - v)

unfoldable pub read_digits : ℕ → List ℕ → ℕ
read_digits acc [] = acc
read_digits acc (c ∷ s) =
    let rest = read_digits (acc * 10 + (c - 48)) s in if is_digit c then rest else acc

abbrev pub is_space : ℕ → Bool
is_space c = c == 32 || leb 9 c && leb c 13

unfoldable pub skip_spaces : List ℕ → List ℕ
skip_spaces [] = []
skip_spaces (c ∷ s) = let rest = skip_spaces s in if is_space c then rest else c ∷ s

-- A number behind its sign, as a word.
unfoldable pub read_signed : List ℕ → ℕ
unfolding read_digits
read_signed [] = 0
read_signed (c ∷ s) =
    if c == b'-'
    then u32 (2 ^ 32 - read_digits 0 s % 2 ^ 32)
    else if c == b'+'
    then u32 (read_digits 0 s)
    else u32 (read_digits 0 (c ∷ s))

-- The result of atoi as a word, which is defined if the number is an int.
unfoldable pub atoi : List ℕ → ℕ
unfolding skip_spaces read_signed
atoi s = read_signed (skip_spaces s)

abbrev pub Digits : List ℕ → Type 0
Digits [] = Unit
Digits (c ∷ s) = (48 ≤ c) × (c ≤ 57) × Digits s

Digits-append : (a : List ℕ) (c : ℕ) → Digits a → 48 ≤ c → c ≤ 57 → Digits (a ++ c ∷ [])
Digits-append [] c d low high = (low, high, tt)
Digits-append (x ∷ a) c (l, h, d) low high = (l, h, Digits-append a c d low high)

pub digits-Digits : (fuel n : ℕ) → Digits (digits fuel n)
unfolding digits
digits-Digits zero n = tt
digits-Digits (suc fuel) n = elim (Bool-cases (ltb n 10)) [
  | inl small ↦ rw small (ground arith, ground arith, tt)
  | inr large ↦ rw large (
      Digits-append (digits fuel (n / 10)) (48 + n % 10) (digits-Digits fuel (n / 10)) (omega arith)
        (omega arith))
]

read_digits-append :
    (acc : ℕ) (a : List ℕ) (d : ℕ)
    → Digits a
    → d < 10
    → read_digits acc (a ++ (48 + d) ∷ []) ≡ read_digits acc a * 10 + d
unfolding read_digits
read_digits-append acc [] d ds small = ground arith
read_digits-append acc (c ∷ a) d (low, high, ds) small =
    ground (arith, read_digits-append (acc * 10 + (c - 48)) a d ds small)

-- The digits of a number are read as that number.
pub read_digits-digits : (fuel n : ℕ) → n < 10 ^ fuel → read_digits 0 (digits fuel n) ≡ n
unfolding read_digits digits
read_digits-digits zero n h = omega arith
read_digits-digits (suc fuel) n h = elim (Bool-cases (ltb n 10)) [
  | inl small ↦ rw small (ground arith)
  | inr large ↦ rw large (
      read_digits-append 0 (digits fuel (n / 10)) (n % 10) (digits-Digits fuel (n / 10))
        (omega arith)
      ∙ rw (read_digits-digits fuel (n / 10) (omega (arith, pow-suc 10 fuel))) (omega arith))
]

-- atoi of a text that opens with a digit.
atoi-digit : (c : ℕ) (s : List ℕ) → 48 ≤ c → c ≤ 57 → atoi (c ∷ s) ≡ u32 (read_digits 0 (c ∷ s))
unfolding atoi
atoi-digit c s low high = ground arith

-- A list of digits that is not empty opens with one.
atoi-Digits : (s : List ℕ) → Digits s → s ≢ [] → atoi s ≡ u32 (read_digits 0 s)
atoi-Digits [] ds ne = absurd (ne refl)
atoi-Digits (c ∷ s) (low, high, ds) ne = atoi-digit c s low high

append-ne-nil : (a : List ℕ) (c : ℕ) → a ++ c ∷ [] ≢ []
append-ne-nil [] c e = cc
append-ne-nil (x ∷ a) c e = cc

digits-ne-nil : (fuel n : ℕ) → digits (suc fuel) n ≢ []
unfolding digits
digits-ne-nil fuel n = elim (Bool-cases (ltb n 10)) [
  | inl small ↦ rw small (λ e. cc)
  | inr large ↦ rw large (append-ne-nil (digits fuel (n / 10)) (48 + n % 10))
]

read_ten : (n : ℕ) → n < 2 ^ 32 → read_digits 0 (digits 10 n) ≡ n
read_ten n word = read_digits-digits 10 n (omega arith)

atoi-minus : (s : List ℕ) → atoi (b'-' ∷ s) ≡ u32 (2 ^ 32 - read_digits 0 s % 2 ^ 32)
unfolding atoi
atoi-minus s = refl

-- What "%d" writes for a word, atoi reads as that word.
pub atoi-print_d : (v : ℕ) → v < 2 ^ 32 → atoi (print_d v) ≡ v
unfolding print_d
atoi-print_d v word = elim (Bool-cases (ltb v (2 ^ 31))) [
  | inl small ↦ rw small (
      atoi-Digits (digits 10 v) (digits-Digits 10 v) (digits-ne-nil 9 v)
      ∙ rw (read_ten v word) (omega arith))
  | inr large ↦ rw large (
      atoi-minus (digits 10 (2 ^ 32 - v))
      ∙ rw (read_ten (2 ^ 32 - v) (ground arith)) (ground arith))
]

length-digits : (fuel n : ℕ) → length (digits fuel n) ≤ fuel
unfolding digits
length-digits zero n = omega arith
length-digits (suc fuel) n = elim (Bool-cases (ltb n 10)) [
  | inl small ↦ rw small (omega arith)
  | inr large ↦ rw large (
      omega (
        arith,
        length-append (digits fuel (n / 10)) ((48 + n % 10) ∷ []),
        length-digits fuel (n / 10),
      ))
]

pub length-print_d : (v : ℕ) → length (print_d v) ≤ 11
unfolding print_d
length-print_d v = elim (Bool-cases (ltb v (2 ^ 31))) [
  | inl small ↦ rw small (omega (arith, length-digits 10 v))
  | inr large ↦ rw large (omega (arith, length-digits 10 (2 ^ 32 - v)))
]
