-- ===== src/Tests/Chunks.antt =====
-- kernel/galloc.c over allocators that count upwards.
use koowaldah.Base.{ℕ, ◌+◌, ◌≤◌, ◌<◌, ◌≡◌, refl, none, some, arith, ◌⊎◌}
use koowaldah.Klib.{log2, roundup_l2}
use koowaldah.Galloc.{
  Backing, Galloc, chunk_at, outside, from_slice, with_info, finish_chunk, galloc,
  galloc_from_slice, rounded_size, pool_size, ci_size, npools,
}
use koowaldah.Galloc.Size.{pool_of, galloc-pool, galloc-outside}
use koowaldah.Galloc.Release.{FromSlice, FromPages, gfree-galloc}

abbrev counting : Backing ℕ
counting = record {
  slice_alloc = λ i s. (some s, s + 8);
  slice_free = λ ci i s. s;
  get_pages = λ i s. (some s, s + 4096);
  put_pages = λ ci s. s;
}

abbrev fresh : Galloc ℕ
fresh = record { chunk = λ _. none; below = 4096 }

galloc-pool_example :
    (galloc counting 100 fresh
      ≡ finish_chunk counting from_slice (pool_of 100) fresh (some 4096, 4104))
    × (pool_of 100 < npools)
    × (100 + ci_size ≤ pool_size (pool_of 100))
    × ((k : ℕ) → 100 + ci_size ≤ pool_size k → pool_of 100 ≤ k)
galloc-pool_example = galloc-pool counting 100 fresh 4096 4104 (omega arith) refl

galloc-outside_example : galloc counting 2000 fresh ≡ outside
galloc-outside_example = galloc-outside counting 2000 fresh (omega arith) (omega arith)

abbrev given : Galloc ℕ
given = with_info from_slice 5 4096 fresh 4104

taken : galloc counting 100 fresh ≡ chunk_at 4100 given
unfolding galloc galloc_from_slice rounded_size roundup_l2 log2
taken = refl

gfree-galloc_example : FromSlice counting 4100 fresh given ⊎ FromPages counting 4100 given
gfree-galloc_example = gfree-galloc counting 4100 100 fresh given taken
