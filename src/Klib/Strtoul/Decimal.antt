-- ===== src/Klib/Strtoul/Decimal.antt =====
-- strtoul on decimal numerals.
use koowaldah.Base.{
  ℕ, zero, suc, ◌+◌, ◌-◌, ◌*◌, ◌^◌, ◌<◌, ◌≤◌, ◌≡◌, ◌≢◌, List, [], ◌∷◌, length, none, some, false,
  arith, refl, if◌then◌else◌, ltb, leb, Bool-cases, inl, inr, ltb→lt, ltb→le, lt→ltb, le→ltb, ne→==,
  ◌==◌, ◌∙◌, ap,
}
use koowaldah.Klib.{Memory}
use koowaldah.Klib.Strings.{IsString}
use koowaldah.Klib.Strtoul.{
  ulong_max, isdigit, isupper, islower, isalpha, isspace, digit_value, Any, overflow, nothing,
  digits, accumulate, strtoul_loop, skip_space, convert, strtoul,
}

abbrev pub AllDigits : List ℕ → Type 0
AllDigits [] = Unit
AllDigits (c ∷ s) = (48 ≤ c) × (c ≤ 57) × AllDigits s

-- The number that the digits write, behind those that gave `acc`.
unfoldable pub decimal : ℕ → List ℕ → ℕ
decimal acc [] = acc
decimal acc (c ∷ s) = decimal (acc * 10 + (c - 48)) s

decimal-le : (acc : ℕ) (s : List ℕ) → acc ≤ decimal acc s
unfolding decimal
decimal-le acc [] = omega arith
decimal-le acc (c ∷ s) = omega (arith, decimal-le (acc * 10 + (c - 48)) s)

digit_value-digit : (c : ℕ) → 48 ≤ c → c ≤ 57 → digit_value c ≡ some (c - 48)
unfolding digit_value isdigit
digit_value-digit c low high = ground arith

digit_value-zero : digit_value 0 ≡ none
unfolding digit_value isdigit isalpha isupper islower
digit_value-zero = refl

digit-below : (c : ℕ) → c ≤ 57 → leb 10 (c - 48) ≡ false
digit-below c high = ground arith

-- Once the number is too large it stays so.
loop-overflow :
    (fuel q : ℕ) (m : Memory) (s : List ℕ)
    → IsString m q s
    → AllDigits s
    → length s < fuel
    → strtoul_loop fuel 10 q ulong_max overflow m ≡ some (ulong_max, overflow)
unfolding strtoul_loop accumulate
loop-overflow zero q m s str all lt = absurd (omega arith)
loop-overflow (suc fuel) q m [] str all lt = rw (str, digit_value-zero, strtoul_loop) refl
loop-overflow (suc fuel) q m (c ∷ s) (at, ne, str) (low, high, all) lt =
    rw (at, digit_value-digit c low high, strtoul_loop, digit-below c high)
      (loop-overflow fuel (q + 1) m s str all (omega arith))

accumulate-fits :
    (d : ℕ) (any : Any) (acc : ℕ)
    → any ≢ overflow
    → acc * 10 + d < 2 ^ 32
    → d < 10
    → accumulate 10 d any acc ≡ (acc * 10 + d, digits)
unfolding accumulate
accumulate-fits d overflow acc ne fits small = absurd (ne refl)
accumulate-fits d nothing acc ne fits small = ground arith
accumulate-fits d digits acc ne fits small = ground arith

accumulate-large :
    (d : ℕ) (any : Any) (acc : ℕ)
    → any ≢ overflow
    → 2 ^ 32 ≤ acc * 10 + d
    → d < 10
    → accumulate 10 d any acc ≡ (ulong_max, overflow)
unfolding accumulate
accumulate-large d overflow acc ne large small = absurd (ne refl)
accumulate-large d nothing acc ne large small = ground arith
accumulate-large d digits acc ne large small = ground arith

-- The number, or the greatest word if it is greater.
abbrev pub capped : ℕ → ℕ
capped n = if ltb n (2 ^ 32) then n else ulong_max

digits-ne-overflow : digits ≢ overflow
digits-ne-overflow e = cc

nothing-ne-overflow : nothing ≢ overflow
nothing-ne-overflow e = cc

strtoul_loop_lem :
    (fuel q acc : ℕ) (any : Any) (m : Memory) (s : List ℕ)
    → IsString m q s
    → AllDigits s
    → length s < fuel
    → any ≢ overflow
    → acc < 2 ^ 32
    → (r : ℕ × Any) × (strtoul_loop fuel 10 q acc any m ≡ some r) × (r.0 ≡ capped (decimal acc s))
unfolding strtoul_loop decimal
strtoul_loop_lem zero q acc any m s str all lt ne word = absurd (omega arith)
strtoul_loop_lem (suc fuel) q acc any m [] str all lt ne word =
    ((acc, any), rw (str, digit_value-zero, strtoul_loop) refl, rw (lt→ltb acc (2 ^ 32) word) refl)
strtoul_loop_lem (suc fuel) q acc any m (c ∷ s) (at, _, str) (low, high, all) lt ne word =
    elim (Bool-cases (ltb (acc * 10 + (c - 48)) (2 ^ 32))) [
      | inl fits ↦
          let step = accumulate-fits (c - 48) any acc ne (ltb→lt _ _ fits) (omega arith) in
          let (r, run, result) =
            strtoul_loop_lem fuel (q + 1) (acc * 10 + (c - 48)) digits m s str all (omega arith)
              digits-ne-overflow (ltb→lt _ _ fits) in
          (
            r,
            rw (at, digit_value-digit c low high, strtoul_loop, step, digit-below c high) run,
            result,
          )
      | inr large ↦
          let le = ltb→le _ _ large in
          let step = accumulate-large (c - 48) any acc ne le (omega arith) in
          let more = decimal-le (acc * 10 + (c - 48)) s in
          (
            (ulong_max, overflow),
            rw (at, digit_value-digit c low high, strtoul_loop, step, digit-below c high)
                (loop-overflow fuel (q + 1) m s str all (omega arith)),
            rw (le→ltb (decimal (acc * 10 + (c - 48)) s) (2 ^ 32) (omega arith)) refl,
          )
    ]

skip_space-stays :
    (fuel p c : ℕ) (m : Memory) → m p ≡ c → 48 ≤ c → skip_space (suc fuel) p m ≡ some p
unfolding skip_space isspace
skip_space-stays fuel p c m at low =
    rw
      (
        at,
        ne→== c 32 (omega arith),
        ne→== c 9 (omega arith),
        ne→== c 10 (omega arith),
        ne→== c 13 (omega arith),
      )
      refl

convert-decimal :
    (fuel p c : ℕ) (m : Memory) (r : ℕ × Any)
    → m p ≡ c
    → c ≢ 48
    → strtoul_loop fuel 10 p 0 nothing m ≡ some r
    → convert fuel false p m ≡ some r.0
unfolding convert
convert-decimal fuel p c m (acc, any) at ne run =
    let other : (m p == 48) ≡ false = rw at (ne→== c 48 ne) in rw (other, run, convert) refl

strtoul-unsigned :
    (fuel p c : ℕ) (m : Memory)
    → m p ≡ c
    → 48 ≤ c
    → strtoul (suc fuel) p m ≡ convert (suc fuel) false p m
unfolding strtoul
strtoul-unsigned fuel p c m at low =
    let minus : (m p == 45) ≡ false = rw at (ne→== c 45 (omega arith)) in
    let plus : (m p == 43) ≡ false = rw at (ne→== c 43 (omega arith)) in
    rw (skip_space-stays fuel p c m at low, strtoul, minus, plus) refl

-- With more fuel than the string is long, strtoul reads a string of decimal digits that does not
-- begin with 0: it gives the number, or the greatest word if the number does not fit.
pub strtoul_lem :
    (fuel p c : ℕ) (m : Memory) (s : List ℕ)
    → IsString m p (c ∷ s)
    → AllDigits (c ∷ s)
    → c ≢ 48
    → length (c ∷ s) < fuel
    → strtoul fuel p m ≡ some (capped (decimal 0 (c ∷ s)))
strtoul_lem zero p c m s str all ne lt = absurd (omega arith)
strtoul_lem (suc fuel) p c m s str all ne lt =
    let (r, run, result) =
      strtoul_loop_lem (suc fuel) p 0 nothing m (c ∷ s) str all lt nothing-ne-overflow
        (omega arith) in
    strtoul-unsigned fuel p c m str.0 all.0
    ∙ convert-decimal (suc fuel) p c m r str.0 ne run
    ∙ ap some result
