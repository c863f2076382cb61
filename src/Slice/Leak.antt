-- ===== src/Slice/Leak.antt =====
-- kernel/slice.c: a pool of small objects that can never be recycled.
use koowaldah.Base.{
  ℕ, ◌+◌, ◌-◌, ◌*◌, ◌/◌, ◌%◌, ◌^◌, ◌≤◌, ◌<◌, ◌≡◌, true, false, refl, ap₂, ◌∙◌, arith, [], ◌∷◌, none,
  some, ne→==, ==_self, Bool-cases, inl, inr,
}
use koowaldah.Bitmap.{Bitmap, bitmap_all_unset, bitmap_bit_clear}
use koowaldah.Bitmap.Access.{is_set, bit_clear_lem}
use koowaldah.Bitmap.Every.{AreWords, bitmap_all_lem}
use koowaldah.Bitmap.Ranges.{bit_clear-AreWords}
use koowaldah.PageAlloc.{page_size}
use koowaldah.Slice.{
  SlicePage, SlicePool, nobjs, usable, new_bmask, alloc_new, slice_alloc, slice_free, free_at,
  free_active, shrink_pages, slice_pool_shrink, slice_pool_recycle,
}
use koowaldah.Slice.Shape.{IsSize}
use koowaldah.Slice.Release.{slice_place}
use koowaldah.Slice.New.{new_bmask-AreWords}
use koowaldah.Slice.Shrink.{new_bmask-leak}

abbrev pub empty_pool : ℕ → ℕ → SlicePool
empty_pool home size = record {
  home = home;
  obj_size = size;
  pages_active = [];
  pages_inactive = [];
}

module _ (last : ℕ → ℕ) (pg : SlicePage) (home size : ℕ) where
  abbrev bmask : Bitmap
  bmask = bitmap_bit_clear (usable size - 1) (new_bmask last size pg.bmask)

  abbrev after_free : SlicePool
  after_free = record (empty_pool home size) { pages_active = record pg { bmask = bmask } ∷ [] }

  free_runs :
      free_at pg.base (usable size - 1) (alloc_new last (some pg) (empty_pool home size)).1
      ≡ some after_free
  unfolding free_at free_active alloc_new
  free_runs = rw (==_self pg.base) refl

  recycle-stuck :
      bitmap_all_unset bmask (usable size) ≡ false → slice_pool_recycle after_free ≡ none
  unfolding slice_pool_recycle slice_pool_shrink shrink_pages
  recycle-stuck e = rw e refl

  not_empty :
      AreWords bmask
      → 32 ≤ usable size
      → 2 ≤ usable size % 32
      → usable size / 32 < nobjs size / 32
      → bitmap_all_unset bmask (usable size) ≡ false
  not_empty ws many two whole =
      let u = usable size in
      let leaked =
        new_bmask-leak last size (u - 2) pg.bmask many (omega arith) (omega arith) whole in
      let still : is_set bmask (u - 2) ≡ true =
        bit_clear_lem (new_bmask last size pg.bmask) (u - 1) (u - 2)
        ∙ rw (ne→== (u - 1) (u - 2) (λ e. omega (arith, e))) leaked in
      elim (Bool-cases (bitmap_all_unset bmask u)) [
        | inl empty ↦ cc ((bitmap_all_lem bmask u ws).1.0 empty (u - 2) (omega arith), still)
        | inr used ↦ used
      ]

-- Where a page has 32 slices or more, at least two of them in the last word of its bitmap, and the bitmap
-- has that word whole: if a client of an empty pool allocates one slice, on a new page, and frees it,
-- slice_pool_recycle runs into its bug(), though no slice is in use.
pub recycle-leak :
    (last : ℕ → ℕ) (pg : SlicePage) (home size : ℕ) (shape : IsSize size)
    → AreWords pg.bmask
    → ((w : ℕ) → w < 2 ^ 32 → last w < 2 ^ 32)
    → pg.base % page_size ≡ 0
    → 32 ≤ usable size
    → 2 ≤ usable size % 32
    → usable size / 32 < nobjs size / 32
    → (a : ℕ) × (p : SlicePool) × (q : SlicePool) × (slice_alloc last
          (some pg)
          (empty_pool home size)
        ≡ some (some a, p))
      × (slice_free a p ≡ some q)
      × (slice_pool_recycle q ≡ none)
unfolding slice_alloc slice_free
recycle-leak last pg home size shape ws safe aligned many two whole =
    let u = usable size in
    let pool = empty_pool home size in
    let given = (alloc_new last (some pg) pool).1 in
    let place = slice_place size pg.base (u - 1) shape aligned (omega (arith, shape.two)) in
    let words =
      bit_clear-AreWords (u - 1) (new_bmask last size pg.bmask)
        (new_bmask-AreWords last size pg.bmask shape ws safe) in
    (
      pg.base + (u - 1) * size,
      given,
      after_free last pg home size,
      refl,
      ap₂ (λ b i. free_at b i given) place.0 place.1 ∙ free_runs last pg home size,
      recycle-stuck last pg home size (not_empty last pg home size words many two whole),
    )
