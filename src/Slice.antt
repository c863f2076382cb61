-- ===== src/Slice.antt =====
-- kernel/slice.c: objects of one size, cut from pages. The slices of a page that are handed out have
-- their bits set in a bitmap at the page's end. `none` stands for a bug() that is reached.
-- A list of pages is the klist0 list of its members, the one next to the head first.
pub mod Shape
pub mod Pages
pub mod Alloc
pub mod New
pub mod Search
pub mod Release
pub mod Clients
pub mod Disjoint
pub mod Shrink
pub mod Leak
use koowaldah.Base.{
  ℕ, ◌+◌, ◌-◌, ◌*◌, ◌/◌, ◌%◌, ◌≤◌, Bool, List, [], ◌∷◌, ◌++◌, Option, none, some, ◌==◌, ltb,
  if◌then◌else◌,
}
use koowaldah.Base.Checked.{◌>>=◌, ◌>>◌, bug_on}
use koowaldah.PageAlloc.{page_size}
use koowaldah.Bitmap.{
  Bitmap, bitmap_size, bitmap_zero, bitmap_fill, bitmap_seek_unset, bitmap_bit_set,
  bitmap_bit_clear, bitmap_all_set, bitmap_all_unset,
}

-- A page of a pool: the address of its memory, and the bitmap at the end of it.
pub record SlicePage : Type 0 where
  pub base : ℕ
  pub bmask : Bitmap

-- struct slice_pool, with the address of the page that holds it.
pub record SlicePool : Type 0 where
  pub home : ℕ
  pub obj_size : ℕ
  pub pages_active : List SlicePage
  pub pages_inactive : List SlicePage

-- slice_pool_create, for what get_page gives: `none` for NULL.
unfoldable pub slice_pool_create : ℕ → Option ℕ → Option (Option SlicePool)
slice_pool_create obj_size page =
    if ltb (page_size / 2 - 4) obj_size
    then none
    else some (elim page [
      | none ↦ none
      | some pg ↦
          some record { home = pg; obj_size = obj_size; pages_active = []; pages_inactive = [] }
    ])

-- The slices that fit a page without a bitmap.
unfoldable pub nobjs : ℕ → ℕ
nobjs size = page_size / size

-- The slices whose bytes the bitmap needs.
unfoldable pub consumed : ℕ → ℕ
unfolding nobjs bitmap_size
consumed size =
    let bytes = bitmap_size (nobjs size) - (page_size - nobjs size * size) in
    if ltb (page_size - nobjs size * size) (bitmap_size (nobjs size))
    then bytes / size + (if bytes % size == 0 then 0 else 1)
    else 0

-- The slices that are left.
unfoldable pub usable : ℕ → ℕ
unfolding consumed
usable size = nobjs size - consumed size

-- The bitmap of a new page, whose last slice is taken at once.
unfoldable pub new_bmask : (ℕ → ℕ) → ℕ → Bitmap → Bitmap
new_bmask last size junk =
    bitmap_bit_set (usable size - 1)
      (bitmap_zero (usable size) (bitmap_fill last (nobjs size) junk))

-- slice_alloc without an active page, for the page that alloc_page gives, with what its memory holds.
unfoldable pub alloc_new : (ℕ → ℕ) → Option SlicePage → SlicePool → Option ℕ × SlicePool
alloc_new last none pool = (none, pool)
alloc_new last (some pg) pool = (
  some (pg.base + (usable pool.obj_size - 1) * pool.obj_size),
  record pool {
    pages_active = record pg { bmask = new_bmask last pool.obj_size pg.bmask } ∷ pool.pages_active;
  },
)

-- The page back in its list, at the front of the list of full pages if it is full now.
unfoldable pub put_back : ℕ → SlicePage → List SlicePage → SlicePool → SlicePool
put_back n pg rest pool =
    if bitmap_all_set pg.bmask n
    then record pool { pages_active = rest; pages_inactive = pg ∷ pool.pages_inactive }
    else record pool { pages_active = pg ∷ rest }

-- slice_alloc with a first active page.
unfoldable pub alloc_from : SlicePage → List SlicePage → SlicePool → Option (Option ℕ × SlicePool)
unfolding nobjs put_back
alloc_from pg rest pool = do
  number ← bitmap_seek_unset pg.bmask (nobjs pool.obj_size)
  let pg' = record pg { bmask = bitmap_bit_set number pg.bmask }
  some (some (pg.base + number * pool.obj_size), put_back (nobjs pool.obj_size) pg' rest pool)

unfoldable pub slice_alloc : (ℕ → ℕ) → Option SlicePage → SlicePool → Option (Option ℕ × SlicePool)
unfolding alloc_new alloc_from
slice_alloc last fresh pool = elim pool.pages_active [
  | [] ↦ some (alloc_new last fresh pool)
  | pg ∷ rest ↦ alloc_from pg rest pool
]

-- The search of a list for the page with an address: the page, and the list without it.
unfoldable pub find_page : ℕ → List SlicePage → Option (SlicePage × List SlicePage)
find_page addr [] = none
find_page addr (pg ∷ pgs) =
    if pg.base == addr
    then some (pg, pgs)
    else (do found ← find_page addr pgs; some (found.0, pg ∷ found.1))

-- The page with the bit of the slice cleared, where it stands.
unfoldable pub clear_in : ℕ → ℕ → List SlicePage → Option (List SlicePage)
clear_in addr idx [] = none
clear_in addr idx (pg ∷ pgs) =
    if pg.base == addr
    then some (record pg { bmask = bitmap_bit_clear idx pg.bmask } ∷ pgs)
    else (do rest ← clear_in addr idx pgs; some (pg ∷ rest))

-- The second search of slice_free.
unfoldable pub free_active : ℕ → ℕ → SlicePool → Option SlicePool
unfolding clear_in
free_active addr idx pool = do
  pages ← clear_in addr idx pool.pages_active
  some record pool { pages_active = pages }

-- The two searches of slice_free.
unfoldable pub free_at : ℕ → ℕ → SlicePool → Option SlicePool
unfolding find_page free_active
free_at addr idx pool = elim (find_page addr pool.pages_inactive) [
  | none ↦ free_active addr idx pool
  | some (pg, rest) ↦ some record pool {
    pages_inactive = rest;
    pages_active = record pg { bmask = bitmap_bit_clear idx pg.bmask } ∷ pool.pages_active;
  }
]

-- slice_free; `slice & (~0UL << PAGE_SHIFT)` is the address less its place in the page.
unfoldable pub slice_free : ℕ → SlicePool → Option SlicePool
unfolding free_at
slice_free slice pool = free_at (slice - slice % page_size) (slice % page_size / pool.obj_size) pool

-- The loop of slice_pool_shrink: the pages that stay, and the addresses of those given to free_page.
unfoldable pub shrink_pages : ℕ → List SlicePage → List SlicePage × List ℕ
shrink_pages n [] = ([], [])
shrink_pages n (pg ∷ pgs) =
    let (kept, freed) = shrink_pages n pgs in
    if bitmap_all_unset pg.bmask n then (kept, pg.base ∷ freed) else (pg ∷ kept, freed)

unfoldable pub slice_pool_shrink : SlicePool → SlicePool × List ℕ
unfolding shrink_pages usable
slice_pool_shrink pool =
    let (kept, freed) = shrink_pages (usable pool.obj_size) pool.pages_active in
    (record pool { pages_active = kept }, freed)

-- Is a list of pages not empty?
abbrev pub has_pages : List SlicePage → Bool
has_pages [] = Bool.false
has_pages (pg ∷ pgs) = Bool.true

-- slice_pool_recycle: the addresses of all pages that are given back.
unfoldable pub slice_pool_recycle : SlicePool → Option (List ℕ)
unfolding slice_pool_shrink
slice_pool_recycle pool = do
  bug_on (has_pages pool.pages_inactive)
  let (pool', freed) = slice_pool_shrink pool
  bug_on (has_pages pool'.pages_active)
  some (freed ++ pool.home ∷ [])
