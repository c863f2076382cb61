-- ===== src/Slice/New.antt =====
-- slice_alloc of kernel/slice.c on a pool without an active page, and on any pool.
use koowaldah.Base.{
  ℕ, ◌+◌, ◌-◌, ◌*◌, ◌/◌, ◌%◌, ◌^◌, ◌≤◌, ◌<◌, ◌≡◌, ◌≢◌, ◌⊎◌, inl, inr, Bool, true, false, refl, ap,
  ◌∙◌, arith, List, [], ◌∷◌, Option, none, some, ◌==◌, ==→eq, ne→==, ==_self, ltb, ltb→le, lt→ltb,
  le→ltb, Bool-cases, if◌then◌else◌,
}
use koowaldah.Bitmap.{bitmap_size, Bitmap, bitmap_zero, bitmap_fill}
use koowaldah.Bitmap.Access.{is_set, bit_set_lem}
use koowaldah.Bitmap.Every.{AreWords}
use koowaldah.Bitmap.Ranges.{
  bit_set-AreWords, bitmap_zero_lem, bitmap_fill_lem, zero-AreWords, fill-AreWords,
}
use koowaldah.PageAlloc.{page_size}
use koowaldah.Slice.{SlicePage, SlicePool, nobjs, usable, new_bmask, alloc_new, slice_alloc}
use koowaldah.Slice.Shape.{IsSize, IsFirm, usable_lem, slice_fit}
use koowaldah.Slice.Pages.{pages_at, IsPool, Gives, taken_in-none}
use koowaldah.Slice.Alloc.{alloc_from_lem}

-- What alloc_page gives: memory of words at the start of a page that the pool does not have yet.
abbrev pub IsFresh : (ℕ → ℕ) → SlicePool → Option SlicePage → Type 0
IsFresh last pool none = Unit {0}
IsFresh last pool (some pg) =
    AreWords pg.bmask
    × ((w : ℕ) → w < 2 ^ 32 → last w < 2 ^ 32)
    × (pg.base % page_size ≡ 0)
    × (pages_at pg.base pool.pages_active + pages_at pg.base pool.pages_inactive ≡ 0)

both : (b : Bool) → (if b then true else true) ≡ true
both true = refl
both false = refl

module _ (last : ℕ → ℕ) (size : ℕ) (junk : Bitmap) (shape : IsSize size) (ws : AreWords junk)
    (safe : (w : ℕ) → w < 2 ^ 32 → last w < 2 ^ 32) where
  pub new_bmask-AreWords : AreWords (new_bmask last size junk)
  unfolding new_bmask
  new_bmask-AreWords =
      bit_set-AreWords (usable size - 1) _
        (zero-AreWords (usable size) _ (fill-AreWords last (nobjs size) junk ws safe))

  -- The slices that the bitmap covers stay marked.
  new_bmask-reserved :
      IsFirm size
      → (j : ℕ) → usable size ≤ j
      → j < nobjs size
      → is_set (new_bmask last size junk) j ≡ true
  unfolding new_bmask
  new_bmask-reserved firm j from to =
      let u = usable size in
      let whole : j / 32 < nobjs size / 32 = elim firm [
        | inl none_used ↦ absurd (omega (arith, usable_lem size shape, none_used))
        | inr words ↦ omega (arith, words)
      ] in
      bit_set_lem (bitmap_zero u (bitmap_fill last (nobjs size) junk)) (u - 1) j
      ∙ rw
          (
            bitmap_zero_lem u (bitmap_fill last (nobjs size) junk) j,
            le→ltb (j / 32) (u / 32) (omega arith),
            le→ltb j (u % 32) (omega arith),
            bitmap_fill_lem last (nobjs size) junk j whole,
          )
          (both (u - 1 == j))

  new_bmask-free :
      (j : ℕ)
      → usable size - 1 ≢ j
      → (j / 32 < usable size / 32) ⊎ (j < usable size % 32)
      → is_set (new_bmask last size junk) j ≡ false
  unfolding new_bmask
  new_bmask-free j ne low =
      let u = usable size in
      let bits = bitmap_zero_lem u (bitmap_fill last (nobjs size) junk) j in
      bit_set_lem (bitmap_zero u (bitmap_fill last (nobjs size) junk)) (u - 1) j
      ∙ rw (ne→== (u - 1) j ne, bits)
          (elim (Bool-cases (ltb (j / 32) (u / 32))) [
            | inl words ↦ rw words refl
            | inr behind ↦
                rw
                  (behind, lt→ltb j (u % 32) (ground (arith, low, ltb→le (j / 32) (u / 32) behind)))
                  refl
          ])

  new_bmask-room : is_set (new_bmask last size junk) 0 ≡ false
  unfolding new_bmask
  new_bmask-room =
      let u = usable size in
      let other = ne→== (u - 1) 0 (λ e. omega (arith, shape.two, e)) in
      bit_set_lem (bitmap_zero u (bitmap_fill last (nobjs size) junk)) (u - 1) 0
      ∙ rw (other, bitmap_zero_lem u (bitmap_fill last (nobjs size) junk) 0)
          (elim (Bool-cases (ltb (0 / 32) (u / 32))) [
            | inl words ↦ rw words refl
            | inr short ↦
                let few = ltb→le (0 / 32) (u / 32) short in
                rw (short, lt→ltb 0 (u % 32) (omega (arith, shape.two, few))) refl
          ])

  new_bmask-last : is_set (new_bmask last size junk) (usable size - 1) ≡ true
  unfolding new_bmask
  new_bmask-last =
      bit_set_lem _ (usable size - 1) (usable size - 1) ∙ rw (==_self (usable size - 1)) refl

-- slice_alloc on a pool without active pages takes the last slice of the new page.
alloc_new_lem :
    (last : ℕ → ℕ) (pg : SlicePage) (home size : ℕ) (full : List SlicePage)
    → let pool : SlicePool = record {
      home = home;
      obj_size = size;
      pages_active = [];
      pages_inactive = full;
    } in
      IsPool pool
      → IsFirm size
      → IsFresh last pool (some pg)
      → Gives pool pg.base (usable size - 1) (alloc_new last (some pg) pool).1
unfolding alloc_new
alloc_new_lem last pg home size full valid firm (ws, safe, aligned, unknown) =
    let u = usable size in
    let bmask = new_bmask last size pg.bmask in
    let shape = valid.shape in
    record {
      low = omega (arith, shape.two);
      aligned = aligned;
      was_free = taken_in-none full pg.base (u - 1) (omega (arith, unknown));
      takes = rw (==_self pg.base, new_bmask-last last size pg.bmask shape ws safe) refl;
      page_kept = λ known. absurd (omega (arith, known, unknown));
      page_new = λ _ j ne low.
          rw
            (
              ==_self pg.base,
              new_bmask-free last size pg.bmask shape ws safe j ne low,
              taken_in-none full pg.base j (omega (arith, unknown)),
            )
            refl;
      elsewhere = λ b j ne. rw (ne→== pg.base b ne) refl;
      kept = record {
        shape = shape;
        active = (
          (
            record {
              words = new_bmask-AreWords last size pg.bmask shape ws safe;
              aligned = aligned;
              reserved = new_bmask-reserved last size pg.bmask shape ws safe firm;
            },
            (
              0,
              omega (arith, shape.two, usable_lem size shape),
              new_bmask-room last size pg.bmask shape ws safe,
            ),
          ),
          tt,
        );
        inactive = valid.inactive;
        once = λ b. elim (Bool-cases (pg.base == b)) [
          | inl here ↦
              rw here
                (omega (arith, unknown, ap (λ (a : ℕ). pages_at a full) (==→eq pg.base b here)))
          | inr other ↦ rw other (omega (arith, valid.once b))
        ];
      };
      same_size = refl;
    }

-- NULL where no page is active and none can be had; otherwise a slice that ends before the bitmap of its
-- page begins.
abbrev pub Outcome : (ℕ → ℕ) → Option SlicePage → SlicePool → Type 0
Outcome last fresh pool =
    ((slice_alloc last fresh pool ≡ some (none, pool)) × (fresh ≡ none) × (pool.pages_active ≡ []))
    ⊎ ((base : ℕ) × (k : ℕ) × (pool' : SlicePool) × (slice_alloc last fresh pool
          ≡ some (some (base + k * pool.obj_size), pool'))
        × (k * pool.obj_size + pool.obj_size + bitmap_size (nobjs pool.obj_size) ≤ page_size)
        × Gives pool base k pool')

by_parts :
    (last : ℕ → ℕ) (fresh : Option SlicePage) (home size : ℕ) (pages full : List SlicePage)
    → let pool : SlicePool = record {
      home = home;
      obj_size = size;
      pages_active = pages;
      pages_inactive = full;
    } in
      IsPool pool → IsFirm size → IsFresh last pool fresh → Outcome last fresh pool
unfolding slice_alloc alloc_new
by_parts last none home size [] full valid firm page = inl (refl, refl, refl)
by_parts last (some pg) home size [] full valid firm page =
    let gives = alloc_new_lem last pg home size full valid firm page in
    inr (
      pg.base,
      usable size - 1,
      (alloc_new last (some pg)
          (record { home = home; obj_size = size; pages_active = []; pages_inactive = full })).1,
      refl,
      slice_fit size (usable size - 1) valid.shape gives.low,
      gives,
    )
by_parts last fresh home size (pg ∷ rest) full valid firm page =
    let (k, pool', runs, gives) = alloc_from_lem home size pg rest full valid in
    inr (pg.base, k, pool', runs, slice_fit size k valid.shape gives.low, gives)

-- On a pool in order, for objects of a size for which IsFirm holds (not for those of 12 or 20 bytes that
-- galloc has too), and for a new page that the pool does not have yet, slice_alloc does not run into its
-- bug(). It returns NULL where no page is active and none can be had, and then changes nothing.
-- Otherwise it returns a slice that was free, which ends before the bitmap of its page begins. This slice
-- is taken then; those of the pages that the pool had and of all other pages are as they were; in a new
-- page every slice but this is free whose bit stands in a whole word of the usable ones' bits or has a
-- number below the remaining bits, and the others may be marked; and the pool is in order again.
pub slice_alloc_lem :
    (last : ℕ → ℕ) (fresh : Option SlicePage) (pool : SlicePool)
    → IsPool pool
    → IsFirm pool.obj_size
    → IsFresh last pool fresh
    → Outcome last fresh pool
slice_alloc_lem last fresh pool valid firm page =
    by_parts last fresh pool.home pool.obj_size pool.pages_active pool.pages_inactive valid firm
      page
