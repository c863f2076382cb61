-- ===== src/Slice/Search.antt =====
-- The searches of slice_free in kernel/slice.c through the lists of pages.
use koowaldah.Base.{
  ℕ, ◌<◌, ◌≡◌, Bool, false, ◌&&◌, ◌||◌, ◌⊎◌, refl, ap, ◌∙◌, arith, List, [], ◌∷◌, none, some, ◌==◌,
  ==→eq, ne→==, ==_self, Bool-cases, inl, inr, if◌then◌else◌,
}
use koowaldah.Bitmap.{bitmap_bit_clear}
use koowaldah.Bitmap.Access.{is_set, bit_clear_lem}
use koowaldah.Bitmap.Ranges.{bit_clear-AreWords}
use koowaldah.Slice.{SlicePage, nobjs, usable, find_page, clear_in}
use koowaldah.Slice.Pages.{IsPage, HasRoom, All, pages_at, taken_in, taken_in-none}

-- The page with the bit of the slice `k` cleared.
abbrev pub freed : ℕ → SlicePage → SlicePage
freed k pg = record pg { bmask = bitmap_bit_clear k pg.bmask }

pub freed-IsPage :
    (size k : ℕ) (pg : SlicePage) → k < usable size → IsPage size pg → IsPage size (freed k pg)
freed-IsPage size k pg low p = record {
  words = bit_clear-AreWords k pg.bmask p.words;
  aligned = p.aligned;
  reserved = λ j from to.
      bit_clear_lem pg.bmask k j ∙ rw (ne→== k j (λ e. omega (arith, e))) (p.reserved j from to);
}

pub freed-HasRoom : (size k : ℕ) (pg : SlicePage) → k < nobjs size → HasRoom size (freed k pg)
freed-HasRoom size k pg lt = (k, lt, bit_clear_lem pg.bmask k k ∙ rw (==_self k) refl)

-- What a search that succeeds gives: the page, and all others.
pub record Finds (P : SlicePage → Type 0) (b : ℕ) (pgs : List SlicePage) (pg : SlicePage)
    (rest : List SlicePage) : Type 0 where
  pub found_at : pg.base ≡ b
  pub count : (a : ℕ) → pages_at a pgs ≡ pages_at a (pg ∷ rest)
  pub same : (a j : ℕ) → taken_in pgs a j ≡ taken_in (pg ∷ rest) a j
  pub all : All P pgs → All P (pg ∷ rest)

or_swap : (a b c : Bool) → (a || (b || c)) ≡ (b || (a || c))
or_swap a b c = ground arith

pub freed-front :
    (pg : SlicePage) (pgs : List SlicePage) (b k a j : ℕ)
    → pg.base ≡ b
    → taken_in pgs b j ≡ false
    → taken_in (freed k pg ∷ pgs) a j
      ≡ (if (b == a) && (k == j) then false else taken_in (pg ∷ pgs) a j)
freed-front pg pgs b k a j place alone =
    rw (bit_clear_lem pg.bmask k j, place)
      (elim (Bool-cases (b == a)) [
        | inl here ↦ rw (← ==→eq b a here) (rw (==_self b, alone) (ground arith))
        | inr other ↦ rw other refl
      ])

pub find_page_cases :
    (P : SlicePage → Type 0) (b : ℕ) (pgs : List SlicePage)
    → ((find_page b pgs ≡ none) × (pages_at b pgs ≡ 0))
      ⊎ ((pg : SlicePage) × (rest : List SlicePage) × (find_page b pgs ≡ some (pg, rest))
          × Finds P b pgs pg rest)
unfolding find_page
find_page_cases P b [] = inl (refl, refl)
find_page_cases P b (pg ∷ pgs) = elim (Bool-cases (pg.base == b)) [
  | inl here ↦ inr (
    pg,
    pgs,
    rw here refl,
    record { found_at = ==→eq pg.base b here; count = λ a. refl; same = λ a j. refl; all = λ h. h },
  )
  | inr other ↦ elim (find_page_cases P b pgs) [
    | inl (missing, zero_at) ↦ inl (rw (other, missing) refl, rw other (omega (arith, zero_at)))
    | inr (x, rest, e, f) ↦ inr (
      x,
      pg ∷ rest,
      rw (other, e) refl,
      record {
        found_at = f.found_at;
        count = λ a. omega (arith, f.count a);
        same = λ a j.
            ap (λ t. ((pg.base == a) && is_set pg.bmask j) || t) (f.same a j)
            ∙ or_swap ((pg.base == a) && is_set pg.bmask j) ((x.base == a) && is_set x.bmask j)
                (taken_in rest a j);
        all = λ h. let (p, ps) = f.all h.1 in (p, (h.0, ps));
      },
    )
  ]
]

-- clear_in where the page is listed once.
pub record Clears (P : SlicePage → Type 0) (b k : ℕ) (pgs pgs' : List SlicePage) : Type 0 where
  pub count : (a : ℕ) → pages_at a pgs' ≡ pages_at a pgs
  pub marks :
      (a j : ℕ) → taken_in pgs' a j ≡ (if (b == a) && (k == j) then false else taken_in pgs a j)
  pub all : ((pg : SlicePage) → P pg → P (freed k pg)) → All P pgs → All P pgs'

abbrev pub Cleared : (SlicePage → Type 0) → ℕ → ℕ → List SlicePage → Type 0
Cleared P b k pgs = (pgs' : List SlicePage) × (clear_in b k pgs ≡ some pgs') × Clears P b k pgs pgs'

clear_in-later :
    (P : SlicePage → Type 0) (b k : ℕ) (pg : SlicePage) (pgs : List SlicePage)
    → (pg.base == b) ≡ false
    → Cleared P b k pgs
    → Cleared P b k (pg ∷ pgs)
unfolding clear_in
clear_in-later P b k pg pgs other (pgs', e, c) = (
  pg ∷ pgs',
  rw (other, e) refl,
  record {
    count = λ a. omega (arith, c.count a);
    marks = λ a j. rw (c.marks a j) (elim (Bool-cases (b == a)) [
      | inl here ↦ rw (here, ← ==→eq b a here, other) refl
      | inr elsewhere ↦ rw elsewhere refl
    ]);
    all = λ step ps. (ps.0, c.all step ps.1);
  },
)

pub clear_in_lem :
    (P : SlicePage → Type 0) (b k : ℕ) (pgs : List SlicePage)
    → pages_at b pgs ≡ 1
    → Cleared P b k pgs
unfolding clear_in
clear_in_lem P b k [] h = absurd (omega (arith, h))
clear_in_lem P b k (pg ∷ pgs) h = elim (Bool-cases (pg.base == b)) [
  | inl here ↦
      let place = ==→eq pg.base b here in
      let alone : pages_at b pgs ≡ 0 = omega (arith, rw here at h) in
      (
        freed k pg ∷ pgs,
        rw here refl,
        record {
          count = λ a. refl;
          marks = λ a j. freed-front pg pgs b k a j place (taken_in-none pgs b j alone);
          all = λ step ps. (step pg ps.0, ps.1);
        },
      )
  | inr other ↦
      clear_in-later P b k pg pgs other (clear_in_lem P b k pgs (omega (arith, rw other at h)))
]
