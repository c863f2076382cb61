-- ===== src/Galloc.antt =====
-- kernel/galloc.c: chunks of any size, from slice pools of fixed sizes or from pages.
-- The slice pools and the page allocator come in as operations on a state of their own.
pub mod Size
pub mod Release
use mathlib.Core.Option
use koowaldah.Base.{
  ℕ, ◌+◌, ◌-◌, ◌*◌, ◌/◌, ◌^◌, Bool, Option, none, some, ◌==◌, ltb, if◌then◌else◌, update,
}
use koowaldah.Base.Checked.{◌>>=◌}
use koowaldah.Klib.{log2, roundup_l2}

-- What slice_alloc and slice_free do on the pool of a number, and get_pages and put_pages on an order;
-- an allocation that fails gives `none` for NULL.
pub record Backing (S : Type 0) : Type 0 where
  pub slice_alloc : ℕ → S → Option ℕ × S
  pub slice_free : ℕ → ℕ → S → S
  pub get_pages : ℕ → S → Option ℕ × S
  pub put_pages : ℕ → S → S

pub data Origin : Type 0 where
  from_slice : Origin
  from_pages : Origin

-- struct chunk_info; `nop` is padding.
pub record ChunkInfo : Type 0 where
  pub origin : Origin
  pub info : ℕ

-- The chunk infos by their addresses, and the state of the allocators below.
pub record Galloc (S : Type 0) : Type 0 where
  pub chunk : ℕ → Option ChunkInfo
  pub below : S

abbrev pub min_chunk : ℕ
min_chunk = 4

abbrev pub sizeof_chunk_info : ℕ
sizeof_chunk_info = 4

unfoldable pub ci_size : ℕ
unfolding roundup_l2
ci_size = roundup_l2 sizeof_chunk_info min_chunk

abbrev pub npools : ℕ
npools = 9

unfoldable pub pool_size : ℕ → ℕ
unfolding ci_size
pool_size pool = min_chunk * 2 ^ pool + ci_size

-- INPAGES.
unfoldable pub inpages : ℕ → ℕ
unfolding roundup_l2
inpages x = roundup_l2 x 4096 / 4096

-- The size that is looked for.
unfoldable pub rounded_size : ℕ → ℕ
unfolding roundup_l2
rounded_size size = roundup_l2 (if size == 0 then min_chunk else size) min_chunk

-- What an allocation ends with. NULL is an answer too; `outside` is a read behind the array of pools.
pub data Given (S : Type 0) : Type 0 where
  chunk_at : ℕ → Galloc S → Given S
  null : Galloc S → Given S
  outside : Given S

-- The info stored at the address of a chunk.
abbrev pub with_info : {S : Type 0} → Origin → ℕ → ℕ → Galloc S → S → Galloc S
with_info origin i ci g s = record {
  chunk = update g.chunk ci (some (record { origin = origin; info = i }));
  below = s;
}

module _ {S : Type 0} (b : Backing S) where
  -- The info in front of a new chunk, and the address behind it.
  abbrev pub finish_chunk : Origin → ℕ → Galloc S → Option ℕ × S → Given S
  finish_chunk origin i g (none, s) = null (record g { below = s })
  finish_chunk origin i g (some ci, s) =
      chunk_at (ci + sizeof_chunk_info) (with_info origin i ci g s)

  -- The source lets the pool number 9 pass, which the array does not have.
  unfoldable pub galloc_from_slice : ℕ → Galloc S → Given S
  unfolding log2
  galloc_from_slice size g =
      let i = log2 (size / min_chunk) in
      if ltb npools i
      then null g
      else if i == npools
      then outside
      else finish_chunk from_slice i g (b.slice_alloc i g.below)

  unfoldable pub galloc_from_pages : ℕ → Galloc S → Given S
  unfolding log2 inpages ci_size
  galloc_from_pages size g =
      let i = log2 (inpages (size + ci_size)) in finish_chunk from_pages i g (b.get_pages i g.below)

  -- First from the slices, then from the pages.
  unfoldable pub galloc : ℕ → Galloc S → Given S
  unfolding galloc_from_slice galloc_from_pages rounded_size
  galloc size g = elim (galloc_from_slice (rounded_size size) g) [
    | chunk_at p g' ↦ chunk_at p g'
    | null g' ↦ galloc_from_pages (rounded_size size) g'
    | outside ↦ outside
  ]

  abbrev pub release : Option ChunkInfo → ℕ → Galloc S → Option (Galloc S)
  release none ci g = none
  release (some c) ci g = elim c.origin [
    | from_slice ↦ some (record g { below = b.slice_free ci c.info g.below })
    | from_pages ↦ some (record g { below = b.put_pages ci g.below })
  ]

  -- `none` is the bug() on an address in front of which there is no chunk info.
  unfoldable pub gfree : ℕ → Galloc S → Option (Galloc S)
  gfree p g = let ci = p - sizeof_chunk_info in release (g.chunk ci) ci g
