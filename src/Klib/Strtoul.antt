-- ===== src/Klib/Strtoul.antt =====
-- strtoul of kernel/lib/klib.c, with the character tests of include/lib.h. Bytes are numbers below
-- 256; the loops over the string run on fuel, and give `none` where it runs out.
pub mod Decimal
use koowaldah.Base.{
  ℕ, zero, suc, ◌+◌, ◌-◌, ◌*◌, ◌/◌, ◌%◌, ◌^◌, Bool, true, false, ◌&&◌, ◌||◌, Option, none, some,
  ◌==◌, ltb, leb, if◌then◌else◌, u32, sub32,
}
use koowaldah.Klib.{Memory}

abbrev pub ulong_max : ℕ
ulong_max = 0xffffffff

unfoldable pub isdigit : ℕ → Bool
isdigit c = leb 48 c && leb c 57

unfoldable pub isupper : ℕ → Bool
isupper c = leb 65 c && leb c 90

-- The source compares with 'a' twice.
unfoldable pub islower : ℕ → Bool
islower c = leb 97 c && leb c 97

unfoldable pub isalpha : ℕ → Bool
isalpha c = isupper c || islower c

unfoldable pub isspace : ℕ → Bool
isspace c = (c == 32) || (c == 9) || (c == 10) || (c == 13)

-- The value of a digit; `none` leaves the loop.
unfoldable pub digit_value : ℕ → Option ℕ
digit_value c =
    if isdigit c
    then some (c - 48)
    else if isalpha c
    then some (c - (if isupper c then 55 else 87))
    else none

-- `any`: -1, 0 and 1
pub data Any : Type 0 where
  overflow : Any
  nothing : Any
  digits : Any

-- What the loop does with one digit that counts.
unfoldable pub accumulate : ℕ → ℕ → Any → ℕ → ℕ × Any
accumulate base c overflow acc = (acc, overflow)
accumulate base c any acc =
    let cutoff = ulong_max / base in
    let cutlim = ulong_max % base in
    if ltb cutoff acc || ((acc == cutoff) && ltb cutlim c)
    then (ulong_max, overflow)
    else (u32 (u32 (acc * base) + c), digits)

-- The loop, with the address of the character `c`.
unfoldable pub strtoul_loop : ℕ → ℕ → ℕ → ℕ → Any → Memory → Option (ℕ × Any)
strtoul_loop zero base s acc any m = none
strtoul_loop (suc fuel) base s acc any m = elim (digit_value (m s)) [
  | none ↦ some (acc, any)
  | some c ↦
      let (acc', any') = accumulate base c any acc in
      let rest = strtoul_loop fuel base (s + 1) acc' any' m in
      if leb base c then some (acc, any) else rest
]

-- `do c = *s++; while (isspace(c));`: the address of the first character that is no space.
unfoldable pub skip_space : ℕ → ℕ → Memory → Option ℕ
skip_space zero s m = none
skip_space (suc fuel) s m =
    let rest = skip_space fuel (s + 1) m in if isspace (m s) then rest else some s

-- The end: `if (neg && any > 0) acc = -acc;`
abbrev pub finish : Bool → ℕ × Any → ℕ
finish true (acc, digits) = sub32 0 acc
finish neg (acc, any) = acc

-- From the first character behind the sign: the prefix, the base, and the loop.
unfoldable pub convert : ℕ → Bool → ℕ → Memory → Option ℕ
convert fuel neg s m =
    elim (if (m s == 48) && ((m (s + 1) == 120) || (m (s + 1) == 88))
      then strtoul_loop fuel 16 (s + 2) 0 nothing m
      else if m s == 48
      then strtoul_loop fuel 8 s 0 nothing m
      else strtoul_loop fuel 10 s 0 nothing m) [
        | none ↦ none
        | some result ↦ some (finish neg result)
      ]

unfoldable pub strtoul : ℕ → ℕ → Memory → Option ℕ
strtoul fuel nptr m = elim (skip_space fuel nptr m) [
  | none ↦ none
  | some s ↦
      if m s == 45
      then convert fuel true (s + 1) m
      else if m s == 43
      then convert fuel false (s + 1) m
      else convert fuel false s m
]
