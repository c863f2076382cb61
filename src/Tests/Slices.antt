-- ===== src/Tests/Slices.antt =====
-- kernel/slice.c: a pool of objects of 200 bytes with a page whose first slice is taken, and one of 32.
use koowaldah.Base.{ℕ, ◌+◌, ◌*◌, ◌<◌, ◌≡◌, refl, arith, [], ◌∷◌, none, some, inl, update}
use koowaldah.Bitmap.{test_bit, or_bit, Bitmap, bitmap_bit_set, bitmap_seek_unset, bitmap_all_set}
use koowaldah.Bitmap.Access.{is_set}
use koowaldah.Slice.{
  SlicePage, SlicePool, consumed, usable, slice_alloc, slice_free, slice_pool_shrink,
  slice_pool_recycle,
}
use koowaldah.Slice.Shape.{IsSize}
use koowaldah.Slice.Pages.{taken, IsPool}
use koowaldah.Slice.New.{Outcome, slice_alloc_lem}
use koowaldah.Slice.Release.{Frees, slice_free_lem}
use koowaldah.Slice.Clients.{All, Reach, here, next, allocates}
use koowaldah.Slice.Disjoint.{AreDisjoint, IsOwned, clients_lem}
use koowaldah.Slice.Shrink.{slice_pool_shrink_lem}
use koowaldah.Slice.Leak.{empty_pool, recycle-leak}

abbrev bits : Bitmap
bits = update (λ _. 0) 0 1

abbrev page : SlicePage
page = record { base = 8192; bmask = bits }

abbrev pool : SlicePool
pool = record { home = 4096; obj_size = 200; pages_active = page ∷ []; pages_inactive = [] }

size200 : IsSize 200
unfolding usable
size200 = record { pos = omega arith; two = omega arith }

pool-IsPool : IsPool pool
unfolding usable is_set test_bit
pool-IsPool = record {
  shape = size200;
  active = (
    (
      record {
        words = λ i. ground arith;
        aligned = refl;
        reserved = λ j from to. absurd (omega (arith, from, to));
      },
      (1, omega arith, refl),
    ),
    tt,
  );
  inactive = tt;
  once = λ b. ground arith;
}

-- A pool that has no page yet, and a new page for it.
abbrev new_page : SlicePage
new_page = record { base = 16384; bmask = λ _. 0 }

empty-IsPool : IsPool (empty_pool 4096 200)
empty-IsPool = record { shape = size200; active = tt; inactive = tt; once = λ b. omega arith }

slice_alloc_lem_example : Outcome (λ w. w) (some new_page) (empty_pool 4096 200)
unfolding usable
slice_alloc_lem_example =
    slice_alloc_lem (λ w. w) (some new_page) (empty_pool 4096 200) empty-IsPool (inl refl)
      ((λ i. omega arith), (λ w h. h), refl, refl)

slice_free_lem_example :
    (pool' : SlicePool) × (slice_free (8192 + 0 * pool.obj_size) pool ≡ some pool')
    × Frees pool 8192 0 pool'
unfolding usable is_set test_bit
slice_free_lem_example = slice_free_lem pool 8192 0 pool-IsPool refl (omega arith) refl

slice_pool_shrink_lem_example :
    IsPool (slice_pool_shrink pool).0
    × ((b j : ℕ) → j < usable pool.obj_size → taken (slice_pool_shrink pool).0 b j ≡ taken pool b j)
slice_pool_shrink_lem_example = slice_pool_shrink_lem pool pool-IsPool

abbrev second : SlicePool
second = record pool { pages_active = record page { bmask = bitmap_bit_set 1 bits } ∷ [] }

used : Reach (pool, []) (second, 8392 ∷ [])
unfolding slice_alloc bitmap_seek_unset bitmap_all_set bitmap_bit_set or_bit test_bit
used = next here (allocates (λ w. w) none 8392 tt refl)

clients_lem_example :
    AreDisjoint second.obj_size (8392 ∷ []) × All (IsOwned second) (8392 ∷ []) × IsPool second
unfolding consumed
clients_lem_example = clients_lem pool pool-IsPool (inl refl) used

size32 : IsSize 32
unfolding usable
size32 = record { pos = omega arith; two = omega arith }

abbrev blank : SlicePage
blank = record { base = 8192; bmask = λ _. 0 }

recycle-leak_example :
    (a : ℕ) × (p : SlicePool) × (q : SlicePool) × (slice_alloc
        (λ w. w)
        (some blank)
        (empty_pool 4096 32)
      ≡ some (some a, p))
    × (slice_free a p ≡ some q)
    × (slice_pool_recycle q ≡ none)
unfolding usable
recycle-leak_example =
    recycle-leak (λ w. w) blank 4096 32 size32 (λ i. omega arith) (λ w h. h) refl (omega arith)
      (omega arith) (omega arith)
