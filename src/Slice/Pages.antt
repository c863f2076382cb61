-- ===== src/Slice/Pages.antt =====
-- kernel/slice.c: what holds of the pages of a pool, and which slices are taken.
use koowaldah.Base.{
  ℕ, ◌+◌, ◌%◌, ◌/◌, ◌⊎◌, ◌≤◌, ◌<◌, ◌≡◌, ◌≢◌, Bool, true, false, ◌&&◌, ◌||◌, refl, arith, List, [],
  ◌∷◌, ◌==◌, ==→eq, Bool-cases, inl, inr, if◌then◌else◌,
}
use koowaldah.Bitmap.Access.{is_set}
use koowaldah.Bitmap.Every.{AreWords}
use koowaldah.PageAlloc.{page_size}
use koowaldah.Slice.{SlicePage, SlicePool, nobjs, usable}
use koowaldah.Slice.Shape.{IsSize}

-- The bits of the slices that the bitmap covers are set.
pub record IsPage (size : ℕ) (pg : SlicePage) : Type 0 where
  pub words : AreWords pg.bmask
  pub aligned : pg.base % page_size ≡ 0
  pub reserved : (j : ℕ) → usable size ≤ j → j < nobjs size → is_set pg.bmask j ≡ true

abbrev pub HasRoom : ℕ → SlicePage → Type 0
HasRoom size pg = (i : ℕ) × (i < nobjs size) × (is_set pg.bmask i ≡ false)

abbrev pub IsFull : ℕ → SlicePage → Type 0
IsFull size pg = (j : ℕ) → j < nobjs size → is_set pg.bmask j ≡ true

abbrev pub All : (SlicePage → Type 0) → List SlicePage → Type 0
All P [] = Unit {0}
All P (pg ∷ pgs) = P pg × All P pgs

-- How many pages of a list have the address.
abbrev pub pages_at : ℕ → List SlicePage → ℕ
pages_at b [] = 0
pages_at b (pg ∷ pgs) = (if pg.base == b then 1 else 0) + pages_at b pgs

-- Is the slice with the number `j` of the page at `b` taken, among these pages?
abbrev pub taken_in : List SlicePage → ℕ → ℕ → Bool
taken_in [] b j = false
taken_in (pg ∷ pgs) b j = ((pg.base == b) && is_set pg.bmask j) || taken_in pgs b j

abbrev pub taken : SlicePool → ℕ → ℕ → Bool
taken pool b j = taken_in pool.pages_active b j || taken_in pool.pages_inactive b j

-- The active pages have a slice to give, the inactive ones none, and no page is listed twice.
pub record IsPool (pool : SlicePool) : Type 0 where
  pub shape : IsSize pool.obj_size
  pub active : All (λ pg. IsPage pool.obj_size pg × HasRoom pool.obj_size pg) pool.pages_active
  pub inactive : All (λ pg. IsPage pool.obj_size pg × IsFull pool.obj_size pg) pool.pages_inactive
  pub once : (b : ℕ) → pages_at b pool.pages_active + pages_at b pool.pages_inactive ≤ 1

pub taken_in-none : (pgs : List SlicePage) (b j : ℕ) → pages_at b pgs ≡ 0 → taken_in pgs b j ≡ false
taken_in-none [] b j h = refl
taken_in-none (pg ∷ pgs) b j h = elim (Bool-cases (pg.base == b)) [
  | inl here ↦ absurd (omega (arith, rw here at h))
  | inr other ↦ rw other (taken_in-none pgs b j (omega (arith, rw other at h)))
]

-- The bit of a slice written in the page at the front.
pub taken-front :
    (pg : SlicePage) (pgs : List SlicePage) (k : ℕ) (value : Bool) (bmask : ℕ → ℕ) (b j : ℕ)
    → ((i : ℕ) → is_set bmask i ≡ (if k == i then value else is_set pg.bmask i))
    → (pg.base ≡ b → taken_in pgs b j ≡ false)
    → taken_in (record pg { bmask = bmask } ∷ pgs) b j
      ≡ (if (pg.base == b) && (k == j) then value else taken_in (pg ∷ pgs) b j)
taken-front pg pgs k value bmask b j bits alone = elim (Bool-cases (pg.base == b)) [
  | inl here ↦
      rw (here, bits j, alone (==→eq pg.base b here))
        (elim (Bool-cases (k == j)) [
          | inl same ↦ rw same (or_false value)
          | inr other ↦ rw other refl
        ])
  | inr other ↦ rw other refl
]
  where
    or_false : (v : Bool) → (v || false) ≡ v
    or_false true = refl
    or_false false = refl

-- The state after slice_alloc gave the slice `k` of the page at `base`: the slice was free and is taken
-- now, the other slices of a page that the pool had, and of all other pages, are as they were, and the
-- pool is in order. In a page that the pool did not have the slices are free whose bits stand in a word
-- of the bitmap that is in use as a whole, and as many as the last word has in use from the first one
-- on; whether the others are free is left open.
pub record Gives (pool : SlicePool) (base k : ℕ) (pool' : SlicePool) : Type 0 where
  pub low : k < usable pool.obj_size
  pub aligned : base % page_size ≡ 0
  pub was_free : taken pool base k ≡ false
  pub takes : taken pool' base k ≡ true
  pub page_kept :
      1 ≤ pages_at base pool.pages_active + pages_at base pool.pages_inactive
      → (j : ℕ) → taken pool' base j ≡ (if k == j then true else taken pool base j)
  pub page_new :
      pages_at base pool.pages_active + pages_at base pool.pages_inactive ≡ 0
      → (j : ℕ) → k ≢ j
      → (j / 32 < usable pool.obj_size / 32) ⊎ (j < usable pool.obj_size % 32)
      → taken pool' base j ≡ false
  pub elsewhere : (b j : ℕ) → base ≢ b → taken pool' b j ≡ taken pool b j
  pub kept : IsPool pool'
  pub same_size : pool'.obj_size ≡ pool.obj_size
