-- ===== src/Slice/Shape.antt =====
-- kernel/slice.c: how the slices and the bitmap share a page.
use native.Mathlib.Nat.{mod-add-div, mod-lt}
use koowaldah.Base.{
  ℕ, ◌+◌, ◌-◌, ◌*◌, ◌/◌, ◌%◌, ◌≤◌, ◌<◌, ◌≡◌, ap, arith, ◌⊎◌, inl, inr, Bool-cases, ◌==◌, ==→eq, ltb,
  ltb→lt, ltb→le, if◌then◌else◌,
}
use koowaldah.Bitmap.{bitmap_size}
use koowaldah.PageAlloc.{page_size}
use koowaldah.Slice.{nobjs, consumed, usable}

-- At least two slices are left for use.
pub record IsSize (size : ℕ) : Type 0 where
  pub pos : 0 < size
  pub two : 2 ≤ usable size

-- The bitmap needs no bytes of slices, or it has whole words only. Otherwise bitmap_fill leaves the bits
-- of the slices that it covers without a defined value.
abbrev pub IsFirm : ℕ → Type 0
IsFirm size = (consumed size ≡ 0) ⊎ (nobjs size % 32 ≡ 0)

pub add_mul : (a b s : ℕ) → (a + b) * s ≡ a * s + b * s
add_mul a b s = grind arith

pub div-mul-le : (x s : ℕ) → 0 < s → (x / s * s ≤ x) × (x < x / s * s + s)
div-mul-le x s pos = let q = mod-add-div x s in let r = mod-lt x pos in (grind arith, grind arith)

-- The slices that cover some bytes.
cover : (bytes s : ℕ) → 0 < s → bytes ≤ (bytes / s + (if bytes % s == 0 then 0 else 1)) * s
cover bytes s pos = elim (Bool-cases (bytes % s == 0)) [
  | inl whole ↦
      rw whole
        (omega (arith, ==→eq (bytes % s) 0 whole, mod-add-div bytes s, add_mul (bytes / s) 0 s))
  | inr part ↦ rw part (omega (arith, (div-mul-le bytes s pos).1, add_mul (bytes / s) 1 s))
]

nobjs_fit : (size : ℕ) → 0 < size → nobjs size * size ≤ page_size
unfolding nobjs
nobjs_fit size pos = (div-mul-le page_size size pos).0

consumed_cover :
    (size : ℕ)
    → 0 < size
    → nobjs size * size + bitmap_size (nobjs size) ≤ page_size + consumed size * size
unfolding consumed
consumed_cover size pos =
    let n = nobjs size in
    let gap = page_size - n * size in
    elim (Bool-cases (ltb gap (bitmap_size n))) [
      | inl over ↦ rw over (
          omega (
            arith,
            ltb→lt gap (bitmap_size n) over,
            nobjs_fit size pos,
            cover (bitmap_size n - gap) size pos,
          ))
      | inr fits ↦ rw fits (omega (arith, ltb→le gap (bitmap_size n) fits, nobjs_fit size pos))
    ]

pub usable_lem : (size : ℕ) → IsSize size → usable size + consumed size ≡ nobjs size
unfolding usable
usable_lem size s = omega (arith, s.two)

-- The slices in use end before the bitmap begins.
pub usable_fit :
    (size : ℕ) → IsSize size → usable size * size + bitmap_size (nobjs size) ≤ page_size
usable_fit size s = omega (
  arith,
  consumed_cover size s.pos,
  add_mul (usable size) (consumed size) size,
  ap (λ (t : ℕ). t * size) (usable_lem size s),
)

pub mul-le : (a b s : ℕ) → a ≤ b → a * s ≤ b * s
mul-le a b s h = grind arith

pub slice_fit :
    (size k : ℕ)
    → IsSize size
    → k < usable size
    → k * size + size + bitmap_size (nobjs size) ≤ page_size
slice_fit size k s low =
    omega
      (arith, usable_fit size s, mul-le (k + 1) (usable size) size (omega arith), add_mul k 1 size)
