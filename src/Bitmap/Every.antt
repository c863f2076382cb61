-- ===== src/Bitmap/Every.antt =====
-- bitmap_all_set and bitmap_all_unset of kernel/lib/bitmap.c.
use koowaldah.Base.{
  ℕ, zero, suc, ◌+◌, ◌-◌, ◌*◌, ◌/◌, ◌%◌, ◌^◌, ◌≤◌, ◌<◌, ◌≡◌, ◌↔◌, Bool, true, false, refl, arith,
  sym, ◌∙◌, ◌==◌, ==→eq, Bool-cases, inl, inr, ltb, ltb→lt, ltb→le,
}
use koowaldah.Bitmap.{Bitmap, low_bits, whole_word, all_loop, bitmap_all_set, bitmap_all_unset}
use koowaldah.Bitmap.Access.{is_set}
use koowaldah.Bitmap.Seek.{is_set_at}
use koowaldah.Bitmap.Low.{low_bits_sound, low_bits_complete, whole_word_lem}

-- All entries are words of 32 bits.
abbrev pub AreWords : Bitmap → Type 0
AreWords dst = (i : ℕ) → dst i < 2 ^ 32

-- The bits of a word of the array.
all_in_word :
    (value : Bool) (dst : Bitmap) (word n j : ℕ)
    → low_bits value n (dst word) ≡ true
    → n ≤ 32
    → word * 32 ≤ j
    → j < word * 32 + n
    → is_set dst j ≡ value
all_in_word value dst word n j all le from to =
    is_set_at dst j (j - word * 32) word (omega arith) (omega arith)
    ∙ low_bits_sound value n (dst word) (j - word * 32) all (omega arith)

word_complete :
    (value : Bool) (dst : Bitmap) (word n : ℕ)
    → n ≤ 32
    → ((j : ℕ) → word * 32 ≤ j → j < word * 32 + n → is_set dst j ≡ value)
    → low_bits value n (dst word) ≡ true
word_complete value dst word n le all = low_bits_complete value n (dst word) (λ i lt.
    sym (is_set_at dst (word * 32 + i) i word (omega arith) (omega arith))
    ∙ all (word * 32 + i) (omega arith) (omega arith))

all_loop_sound :
    (value : Bool) (words rest word : ℕ) (dst : Bitmap) (j : ℕ)
    → AreWords dst
    → rest < 32
    → all_loop value words rest word dst ≡ true
    → word * 32 ≤ j
    → j < word * 32 + words * 32 + rest
    → is_set dst j ≡ value
unfolding all_loop
all_loop_sound value zero rest word dst j ws lt all from to = elim (Bool-cases (rest == 0)) [
  | inl none_left ↦ absurd (omega (arith, ==→eq rest 0 none_left))
  | inr some_left ↦
      all_in_word value dst word rest j (rw some_left at all) (omega arith) from (omega arith)
]
all_loop_sound value (suc words) rest word dst j ws lt all from to =
    elim (Bool-cases (whole_word value (dst word))) [
      | inl whole ↦ elim (Bool-cases (ltb j (word * 32 + 32))) [
        | inl here ↦
            all_in_word value dst word 32 j
              (sym (whole_word_lem value (dst word) (ws word)) ∙ whole) (omega arith) from
              (ltb→lt j (word * 32 + 32) here)
        | inr later ↦
            all_loop_sound value words rest (word + 1) dst j ws lt (rw whole at all)
              (omega (arith, ltb→le j (word * 32 + 32) later)) (omega arith)
      ]
      | inr broken ↦ cc (rw broken at all)
    ]

all_loop_complete :
    (value : Bool) (words rest word : ℕ) (dst : Bitmap)
    → AreWords dst
    → rest < 32
    → ((j : ℕ) → word * 32 ≤ j → j < word * 32 + words * 32 + rest → is_set dst j ≡ value)
    → all_loop value words rest word dst ≡ true
unfolding all_loop
all_loop_complete value zero rest word dst ws lt all = elim (Bool-cases (rest == 0)) [
  | inl none_left ↦ rw none_left refl
  | inr some_left ↦
      rw some_left
        (word_complete value dst word rest (omega arith) (λ j from to. all j from (omega arith)))
]
all_loop_complete value (suc words) rest word dst ws lt all =
    let whole : whole_word value (dst word) ≡ true =
      whole_word_lem value (dst word) (ws word)
      ∙ word_complete value dst word 32 (omega arith) (λ j from to. all j from (omega arith)) in
    rw whole (
      all_loop_complete value words rest (word + 1) dst ws lt
        (λ j from to. all j (omega arith) (omega arith)))

-- Over an array of words, bitmap_all_set holds exactly if every bit below the limit is set, and
-- bitmap_all_unset exactly if none is.
pub bitmap_all_lem :
    (dst : Bitmap) (limit : ℕ)
    → AreWords dst
    → ((bitmap_all_set dst limit ≡ true) ↔ ((j : ℕ) → j < limit → is_set dst j ≡ true))
      × ((bitmap_all_unset dst limit ≡ true) ↔ ((j : ℕ) → j < limit → is_set dst j ≡ false))
unfolding bitmap_all_set bitmap_all_unset
bitmap_all_lem dst limit ws = (every true, every false)
  where
    every :
        (value : Bool)
        → (all_loop value (limit / 32) (limit % 32) 0 dst ≡ true)
          ↔ ((j : ℕ) → j < limit → is_set dst j ≡ value)
    every value = (
      λ all j lt.
          all_loop_sound value (limit / 32) (limit % 32) 0 dst j ws (omega arith) all (omega arith)
            (omega arith),
      λ all.
          all_loop_complete value (limit / 32) (limit % 32) 0 dst ws (omega arith)
            (λ j from to. all j (omega arith)),
    )
