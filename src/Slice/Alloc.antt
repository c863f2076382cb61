-- ===== src/Slice/Alloc.antt =====
-- slice_alloc of kernel/slice.c on a pool that has an active page.
use koowaldah.Base.{
  ℕ, ◌+◌, ◌*◌, ◌<◌, ◌≡◌, true, false, ◌&&◌, refl, ◌∙◌, arith, List, ◌∷◌, none, some, Option-cases,
  ◌==◌, ne→==, ==_self, ltb, ltb→lt, ltb→le, Bool-cases, inl, inr, if◌then◌else◌,
}
use koowaldah.Bitmap.{Bitmap, bitmap_bit_set, bitmap_seek_unset, bitmap_all_set}
use koowaldah.Bitmap.Access.{is_set, bit_set_lem}
use koowaldah.Bitmap.Every.{AreWords, bitmap_all_lem}
use koowaldah.Bitmap.Seek.{seek_unset_lem}
use koowaldah.Bitmap.Ranges.{bit_set-AreWords}
use koowaldah.Slice.{SlicePage, SlicePool, nobjs, usable, put_back, alloc_from}
use koowaldah.Slice.Pages.{IsPage, taken_in, taken, IsPool, Gives, taken_in-none}

-- A search that finds nothing means that all are set, and the converse.
seek-none :
    (bmask : Bitmap) (n : ℕ)
    → bitmap_seek_unset bmask n ≡ none
    → (j : ℕ) → j < n
    → is_set bmask j ≡ true
seek-none bmask n e j lt = (rw e at (seek_unset_lem bmask n)) j (omega arith) lt

pub room-found :
    (bmask : Bitmap) (n : ℕ)
    → AreWords bmask
    → bitmap_all_set bmask n ≡ false
    → (i : ℕ) × (i < n) × (is_set bmask i ≡ false)
room-found bmask n ws has_room = elim (Option-cases (bitmap_seek_unset bmask n)) [
  | inl e ↦ cc ((bitmap_all_lem bmask n ws).0.1 (seek-none bmask n e))
  | inr (i, e) ↦ let found = rw e at (seek_unset_lem bmask n) in (i, found.1, found.2)
]

set-IsPage :
    (size k : ℕ) (pg : SlicePage)
    → IsPage size pg
    → IsPage size (record pg { bmask = bitmap_bit_set k pg.bmask })
set-IsPage size k pg p = record {
  words = bit_set-AreWords k pg.bmask p.words;
  aligned = p.aligned;
  reserved = λ j from to. bit_set_lem pg.bmask k j ∙ ground (arith, p.reserved j from to);
}

put_back-size :
    (n : ℕ) (pg : SlicePage) (rest : List SlicePage) (pool : SlicePool)
    → (put_back n pg rest pool).obj_size ≡ pool.obj_size
unfolding put_back
put_back-size n pg rest pool = elim (Bool-cases (bitmap_all_set pg.bmask n)) [
  | inl e ↦ rw e refl
  | inr e ↦ rw e refl
]

module _ (home size : ℕ) (pg : SlicePage) (rest full : List SlicePage)
    (valid : IsPool (record {
      home = home;
      obj_size = size;
      pages_active = pg ∷ rest;
      pages_inactive = full;
    })) where
  abbrev pool : SlicePool
  pool = record { home = home; obj_size = size; pages_active = pg ∷ rest; pages_inactive = full }

  alone : (j : ℕ) → (taken_in rest pg.base j ≡ false) × (taken_in full pg.base j ≡ false)
  alone j =
      let once = rw (==_self pg.base) at (valid.once pg.base) in
      (
        taken_in-none rest pg.base j (omega (arith, once)),
        taken_in-none full pg.base j (omega (arith, once)),
      )

  abbrev page_with : ℕ → SlicePage
  page_with k = record pg { bmask = bitmap_bit_set k pg.bmask }

  put_back-IsPool : (k : ℕ) → IsPool (put_back (nobjs size) (page_with k) rest pool)
  unfolding put_back
  put_back-IsPool k =
      let page = set-IsPage size k pg valid.active.0.0 in
      elim (Bool-cases (bitmap_all_set (page_with k).bmask (nobjs size))) [
        | inl full_now ↦ rw full_now record {
          shape = valid.shape;
          active = valid.active.1;
          inactive = (
            (page, ((bitmap_all_lem (page_with k).bmask (nobjs size) page.words).0.0 full_now)),
            valid.inactive,
          );
          once = λ b. omega (arith, valid.once b);
        }
        | inr has_room ↦ rw has_room record {
          shape = valid.shape;
          active = (
            (page, room-found (page_with k).bmask (nobjs size) page.words has_room),
            valid.active.1,
          );
          inactive = valid.inactive;
          once = valid.once;
        }
      ]

  put_back-taken :
      (k b j : ℕ)
      → taken (put_back (nobjs size) (page_with k) rest pool) b j
        ≡ (if (pg.base == b) && (k == j) then true else taken pool b j)
  unfolding put_back
  put_back-taken k b j = elim (Bool-cases (bitmap_all_set (page_with k).bmask (nobjs size))) [
    | inl full_now ↦ rw (full_now, bit_set_lem pg.bmask k j) (ground arith)
    | inr has_room ↦ rw (has_room, bit_set_lem pg.bmask k j) (ground arith)
  ]

  -- The slice that the search finds is not one of the bitmap's.
  found-usable : (k : ℕ) → k < nobjs size → is_set pg.bmask k ≡ false → k < usable size
  found-usable k lt clear = elim (Bool-cases (ltb k (usable size))) [
    | inl below ↦ ltb→lt k (usable size) below
    | inr above ↦ cc (valid.active.0.0.reserved k (ltb→le k (usable size) above) lt)
  ]

  pub alloc_from_lem :
      (k : ℕ) × (pool' : SlicePool) × (alloc_from pg rest pool
        ≡ some (some (pg.base + k * size), pool'))
      × Gives pool pg.base k pool'
  unfolding alloc_from
  alloc_from_lem = elim (Option-cases (bitmap_seek_unset pg.bmask (nobjs size))) [
    | inl e ↦ let (i, lt, clear) = valid.active.0.1 in cc (seek-none pg.bmask (nobjs size) e i lt)
    | inr (k, e) ↦
        let found = rw e at (seek_unset_lem pg.bmask (nobjs size)) in
        (
          k,
          put_back (nobjs size) (page_with k) rest pool,
          rw e refl,
          record {
            low = found-usable k found.1 found.2;
            aligned = valid.active.0.0.aligned;
            was_free = rw (==_self pg.base, found.2, (alone k).0, (alone k).1) refl;
            takes = put_back-taken k pg.base k ∙ rw (==_self pg.base, ==_self k) refl;
            page_kept = λ _ j. put_back-taken k pg.base j ∙ rw (==_self pg.base) refl;
            page_new = λ unknown j ne low. absurd (omega (arith, rw (==_self pg.base) at unknown));
            elsewhere = λ b j ne. put_back-taken k b j ∙ rw (ne→== pg.base b ne) refl;
            kept = put_back-IsPool k;
            same_size = put_back-size (nobjs size) (page_with k) rest pool;
          },
        )
  ]
