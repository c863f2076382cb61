-- ===== src/Slice/Shrink.antt =====
-- slice_pool_shrink and slice_pool_recycle of kernel/slice.c, and what bitmap_zero leaves behind.
use koowaldah.Base.{
  ℕ, ◌-◌, ◌/◌, ◌%◌, ◌≤◌, ◌<◌, ◌≡◌, Bool, true, false, ◌&&◌, ◌||◌, refl, ap, ◌∙◌, arith, List, [],
  ◌∷◌, ◌==◌, le→ltb, Bool-cases, inl, inr, if◌then◌else◌,
}
use koowaldah.Bitmap.{Bitmap, bitmap_all_unset, bitmap_zero, bitmap_fill}
use koowaldah.Bitmap.Access.{is_set, bit_set_lem}
use koowaldah.Bitmap.Every.{bitmap_all_lem}
use koowaldah.Bitmap.Ranges.{bitmap_zero_lem, bitmap_fill_lem}
use koowaldah.Slice.{
  SlicePage, SlicePool, nobjs, usable, new_bmask, shrink_pages, slice_pool_shrink,
}
use koowaldah.Slice.Pages.{IsPage, HasRoom, All, pages_at, taken_in, taken, IsPool}

-- Of the pages, those that stay have all the slices that are taken.
record Shrinks (size : ℕ) (pgs kept : List SlicePage) : Type 0 where
  count : (b : ℕ) → pages_at b kept ≤ pages_at b pgs
  same : (b j : ℕ) → j < usable size → taken_in kept b j ≡ taken_in pgs b j
  all :
      All (λ p. IsPage size p × HasRoom size p) pgs → All (λ p. IsPage size p × HasRoom size p) kept

shrink_pages_lem :
    (size : ℕ) (pgs : List SlicePage)
    → All (λ p. IsPage size p × HasRoom size p) pgs
    → Shrinks size pgs (shrink_pages (usable size) pgs).0
unfolding shrink_pages
shrink_pages_lem size [] h = record {
  count = λ b. omega arith;
  same = λ b j lt. refl;
  all = λ h. h;
}
shrink_pages_lem size (pg ∷ pgs) (h, hs) =
    let s = shrink_pages_lem size pgs hs in
    elim (Bool-cases (bitmap_all_unset pg.bmask (usable size))) [
      | inl empty ↦
          let clear = (bitmap_all_lem pg.bmask (usable size) h.0.words).1.0 empty in
          rw empty record {
            count = λ b. omega (arith, s.count b);
            same = λ b j lt.
                s.same b j lt ∙ rw (clear j lt) (and_false (pg.base == b) (taken_in pgs b j));
            all = λ ps. s.all ps.1;
          }
      | inr used ↦ rw used record {
        count = λ b. omega (arith, s.count b);
        same = λ b j lt. ap (λ t. ((pg.base == b) && is_set pg.bmask j) || t) (s.same b j lt);
        all = λ ps. (ps.0, s.all ps.1);
      }
    ]
  where
    and_false : (a t : Bool) → t ≡ ((a && false) || t)
    and_false true t = refl
    and_false false t = refl

-- slice_pool_shrink keeps the pool in order, and every slice in use.
pub slice_pool_shrink_lem :
    (pool : SlicePool)
    → IsPool pool
    → IsPool (slice_pool_shrink pool).0
      × ((b j : ℕ)
          → j < usable pool.obj_size
          → taken (slice_pool_shrink pool).0 b j ≡ taken pool b j)
unfolding slice_pool_shrink
slice_pool_shrink_lem pool valid =
    let s = shrink_pages_lem pool.obj_size pool.pages_active valid.active in
    (
      record {
        shape = valid.shape;
        active = s.all valid.active;
        inactive = valid.inactive;
        once = λ b. omega (arith, valid.once b, s.count b);
      },
      λ b j lt. ap (λ t. t || taken_in pool.pages_inactive b j) (s.same b j lt),
    )

-- Of a page of 64 slices or more, bitmap_zero leaves the bits of the last word set: the slices there,
-- which no one uses, are marked as taken from the start, and the page can never be found empty.
pub new_bmask-leak :
    (last : ℕ → ℕ) (size j : ℕ) (junk : Bitmap)
    → 32 ≤ usable size
    → j / 32 ≡ usable size / 32
    → j < usable size
    → usable size / 32 < nobjs size / 32
    → is_set (new_bmask last size junk) j ≡ true
unfolding new_bmask
new_bmask-leak last size j junk many same below whole =
    let u = usable size in
    bit_set_lem (bitmap_zero u (bitmap_fill last (nobjs size) junk)) (u - 1) j
    ∙ rw
        (
          bitmap_zero_lem u (bitmap_fill last (nobjs size) junk) j,
          le→ltb (j / 32) (u / 32) (omega (arith, same)),
          le→ltb j (u % 32) (omega (arith, same)),
          bitmap_fill_lem last (nobjs size) junk j (omega (arith, same)),
        )
        (both (u - 1 == j))
  where
    both : (b : Bool) → (if b then true else true) ≡ true
    both true = refl
    both false = refl
