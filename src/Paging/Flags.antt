-- ===== src/Paging/Flags.antt =====
-- Flags of a page table entry: bits below 12 leave the address of the page alone.
use native.Mathlib.Nat.{div-div-eq-div-mul}
use koowaldah.Base.{
  ℕ, zero, suc, ◌+◌, ◌*◌, ◌/◌, ◌%◌, ◌^◌, ◌<◌, ◌≡◌, ◌≢◌, true, false, refl, sym, ap, ◌∙◌, arith,
  List, [], ◌∷◌, ==→ne, Bool-cases, inl, inr,
}
use koowaldah.Base.Pow.{pow2-suc}
use koowaldah.Bitmap.{test_bit, or_bit}
use koowaldah.Bitmap.Bits.{test_bit-zero, test_bit-suc, or_bit_lem}
use koowaldah.Paging.{with_flags, page_of, entry}

div-half : (w m : ℕ) → w / 2 ^ suc m ≡ w / 2 / 2 ^ m
div-half w m = ap (λ (d : ℕ). w / d) (pow2-suc m) ∙ sym (div-div-eq-div-mul w 2 (2 ^ m))

add_bit-div : (m i w : ℕ) → i < m → test_bit w i ≡ false → (w + 2 ^ i) / 2 ^ m ≡ w / 2 ^ m
add_bit-div zero i w lt clear = absurd (omega arith)
add_bit-div (suc m) zero w lt clear =
    let low = ==→ne (w % 2) 1 (sym (test_bit-zero w) ∙ clear) in
    let half : (w + 2 ^ 0) / 2 ≡ w / 2 = omega arith in
    div-half (w + 2 ^ 0) m ∙ ap (λ (v : ℕ). v / 2 ^ m) half ∙ sym (div-half w m)
add_bit-div (suc m) (suc i) w lt clear =
    let half : (w + 2 ^ suc i) / 2 ≡ w / 2 + 2 ^ i = omega (arith, pow2-suc i) in
    div-half (w + 2 ^ suc i) m
    ∙ ap (λ (v : ℕ). v / 2 ^ m) half
    ∙ add_bit-div m i (w / 2) (omega arith) (sym (test_bit-suc w i) ∙ clear)
    ∙ sym (div-half w m)

or_bit-div : (i w : ℕ) → i < 12 → or_bit w i / 2 ^ 12 ≡ w / 2 ^ 12
unfolding or_bit
or_bit-div i w lt = elim (Bool-cases (test_bit w i)) [
  | inl on ↦ rw on refl
  | inr off ↦ rw off (add_bit-div 12 i w lt off)
]

-- Flags that are bits below 12.
abbrev pub AreFlags : List ℕ → Type 0
AreFlags [] = Unit {0}
AreFlags (f ∷ fs) = (f < 12) × AreFlags fs

with_flags-div : (fs : List ℕ) (w : ℕ) → AreFlags fs → with_flags fs w / 2 ^ 12 ≡ w / 2 ^ 12
unfolding with_flags
with_flags-div [] w h = refl
with_flags-div (f ∷ fs) w (lt, h) = or_bit-div f (with_flags fs w) lt ∙ with_flags-div fs w h

page_of-div : (v w : ℕ) → v / 2 ^ 12 ≡ w / 2 ^ 12 → page_of v ≡ page_of w
unfolding page_of
page_of-div v w h = omega (arith, h)

-- Neither flags nor the presence bit change the address in an entry.
pub page_of-with_flags : (fs : List ℕ) (w : ℕ) → AreFlags fs → page_of (with_flags fs w) ≡ page_of w
page_of-with_flags fs w h = page_of-div (with_flags fs w) w (with_flags-div fs w h)

pub page_of-or_bit : (i w : ℕ) → i < 12 → page_of (or_bit w i) ≡ page_of w
page_of-or_bit i w lt = page_of-div (or_bit w i) w (or_bit-div i w lt)

pub page_of-aligned : (w : ℕ) → w % 2 ^ 12 ≡ 0 → page_of w ≡ w
unfolding page_of
page_of-aligned w h = omega (arith, h)

pub or_bit_self : (w i : ℕ) → test_bit (or_bit w i) i ≡ true
or_bit_self w i = or_bit_lem w i i ∙ ground arith

-- Page-aligned words.
abbrev pub IsAligned : ℕ → Type 0
IsAligned t = (t % 2 ^ 12 ≡ 0) × (t < 2 ^ 32)

pub page_of-IsAligned : (w : ℕ) → w < 2 ^ 32 → IsAligned (page_of w)
unfolding page_of
page_of-IsAligned w h = (omega arith, omega arith)

pub entry_lem : (t i : ℕ) → IsAligned t → i < 1024 → entry t i ≡ t + 4 * i
unfolding entry
entry_lem t i h lt = omega arith

-- Entries of different tables, or with different numbers, are different words.
pub entry_ne :
    (t s i j : ℕ) → IsAligned t → IsAligned s → i < 1024 → j < 1024 → t ≢ s → entry t i ≢ entry s j
entry_ne t s i j ht hs li lj ne e = ne (omega (arith, entry_lem t i ht li, entry_lem s j hs lj, e))

pub entry_injective :
    (t i j : ℕ) → IsAligned t → i < 1024 → j < 1024 → entry t i ≡ entry t j → i ≡ j
entry_injective t i j h li lj e = omega (arith, entry_lem t i h li, entry_lem t j h lj, e)
