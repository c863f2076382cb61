-- ===== src/Klib/Print/Hex.antt =====
-- The conversion "%x" of vsnprintf of kernel/lib/vsnprintf.c.
use native.Mathlib.Nat.{pow-suc}
use koowaldah.Base.{
  ℕ, zero, suc, ◌+◌, ◌-◌, ◌%◌, ◌^◌, ◌≤◌, ◌<◌, ◌≡◌, refl, ap, ◌∙◌, List, [], ◌∷◌, length, get_or,
  true, false, some, arith, if◌then◌else◌, update, ◌==◌, ◌/◌, Bool-cases, inl, inr, ◌⊎◌,
  length-append,
}
use koowaldah.Klib.{Memory, memory_set}
use koowaldah.Klib.Memory.{in_block, memory_set_lem, memory_copy_lem}
use koowaldah.Klib.Print.{word_digits}
use koowaldah.Klib.Print.Numeral.{digit, numeral, word_numeral, with_text, sprint_int_unsigned_lem}
use koowaldah.Klib.Print.Format.{Printer, emit, put_byte, pad, reset_fill, convert_hex}

-- The filling writes its byte to the next `n` places.
pad_lem :
    (n tag : ℕ) (st : Printer)
    → ((pad n tag st).pos ≡ st.pos + n)
      × ((pad n tag st).args ≡ st.args)
      × ((a : ℕ) → (pad n tag st).mem a ≡ (if in_block st.pos n a then tag % 256 else st.mem a))
unfolding pad put_byte
pad_lem zero tag st = (omega arith, refl, λ a. ground arith)
pad_lem (suc n) tag st =
    let next = record st { pos = st.pos + 1; mem = update st.mem st.pos (tag % 256) } in
    let (moved, same, filled) = pad_lem n tag next in
    (omega (arith, moved), same, λ a. filled a ∙ ground arith)

plus_minus : (a b : ℕ) → a + b - a ≡ b
plus_minus a b = omega arith

small : (n : ℕ) → n < 16 → n / 16 ≡ 0
small n lt = omega arith

-- A numeral has no more digits than its bound.
length-numeral : (fuel k n : ℕ) → n < 16 ^ suc k → length (numeral fuel 16 n) ≤ suc k
unfolding numeral
length-numeral zero k n lt = omega arith
length-numeral (suc fuel) zero n lt =
    let last : n / 16 == 0 ≡ true = rw (small n (omega arith)) refl in rw last (omega arith)
length-numeral (suc fuel) (suc k) n lt = elim (Bool-cases (n / 16 == 0)) [
  | inl last ↦ rw last (omega arith)
  | inr more ↦ rw more (
      omega (
        arith,
        length-append (numeral fuel 16 (n / 16)) (digit (n % 16) ∷ []),
        length-numeral fuel k (n / 16) (omega (arith, pow-suc 16 (suc k))),
      ))
]

-- The bytes of a number that stands in the local buffer, copied behind the filling.
copied :
    (sbuf pos width b : ℕ) (num : List ℕ) (tag : ℕ) (m m1 m2 : Memory)
    → (length num ≤ 12)
    → (pos + (width + length num) ≤ sbuf) ⊎ (sbuf + 12 ≤ pos)
    → in_block sbuf 12 b ≡ false
    → (m1 b ≡ with_text sbuf num (memory_set sbuf 0 12 m) b)
    → (m1 (sbuf + (b - (pos + width)))
        ≡ with_text sbuf num (memory_set sbuf 0 12 m) (sbuf + (b - (pos + width))))
    → (m2 b ≡ (if in_block pos width b then tag else m1 b))
    → (m2 (sbuf + (b - (pos + width))) ≡ (
        if in_block pos width (sbuf + (b - (pos + width)))
        then tag
        else m1 (sbuf + (b - (pos + width)))))
    → (if in_block (pos + width) (length num) b then m2 (sbuf + (b - (pos + width))) else m2 b) ≡ (
        if in_block pos width b
        then tag
        else if in_block (pos + width) (length num) b
        then get_or num (b - (pos + width)) 0
        else m b)
copied sbuf pos width b num tag m m1 m2 short apart out w1 w2 f1 f2 = ground (
  arith,
  memory_set_lem sbuf 0 12 m b,
  ap (λ (n : ℕ). get_or num n 0) (plus_minus sbuf (b - (pos + width))),
)

-- "%x" of a word, where the local buffer of 12 bytes stands apart from the output, fills the places
-- that the width leaves in front with the fill byte, writes the digits in base 16 behind them, moves
-- on behind both, takes one argument and resets the width. Apart from the local buffer no other byte
-- changes.
pub convert_hex_lem :
    (sbuf a b : ℕ) (args : List ℕ) (st : Printer)
    → st.args ≡ a ∷ args
    → a < 2 ^ 32
    → (st.pos + ((st.fill_num - length (word_numeral 16 a)) + length (word_numeral 16 a)) ≤ sbuf)
      ⊎ (sbuf + 12 ≤ st.pos)
    → in_block sbuf 12 b ≡ false
    → let num = word_numeral 16 a in
      let width = st.fill_num - length num in
      (st' : Printer) × (convert_hex sbuf st ≡ some st')
      × (st'.pos ≡ st.pos + width + length num)
      × (st'.args ≡ args)
      × (st'.fill_tag ≡ 0)
      × (st'.fill_num ≡ 0)
      × (st'.mem b ≡ (
          if in_block st.pos width b
          then st.fill_tag % 256
          else if in_block (st.pos + width) (length num) b
          then get_or num (b - (st.pos + width)) 0
          else st.mem b))
unfolding convert_hex emit
convert_hex_lem sbuf a b args st has word apart out =
    let num = word_numeral 16 a in
    let width = st.fill_num - length num in
    let m0 = memory_set sbuf 0 12 st.mem in
    let (m1, run, written) =
      sprint_int_unsigned_lem sbuf a 16 m0 (omega arith) (omega arith) word in
    let st1 = record st { args = args; mem = m1 } in
    let st2 = pad width st.fill_tag st1 in
    let (moved, same, filled) = pad_lem width st.fill_tag st1 in
    let copy = memory_copy_lem st2.pos sbuf (length num) st2.mem in
    let short = length-numeral word_digits 7 a (omega arith) in
    let at = sbuf + (b - (st.pos + width)) in
    (
      reset_fill (emit sbuf (length num) st2),
      simp (has, run),
      omega (arith, moved, (copy 0).0),
      same,
      refl,
      refl,
      (copy b).1
          ∙ ap
              (λ (p : ℕ). if in_block p (length num) b then st2.mem (sbuf + (b - p)) else st2.mem b)
              moved
          ∙ copied sbuf st.pos width b num (st.fill_tag % 256) st.mem m1 st2.mem
              (omega (arith, short)) apart out (written b) (written at) (filled b) (filled at),
    )
