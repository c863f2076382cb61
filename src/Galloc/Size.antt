-- ===== src/Galloc/Size.antt =====
-- Which pool or pile galloc of kernel/galloc.c takes a chunk from.
use koowaldah.Base.{
  ℕ, zero, suc, ◌+◌, ◌*◌, ◌/◌, ◌%◌, ◌^◌, ◌≤◌, ◌<◌, ◌≡◌, refl, some, arith, Bool-cases, inl, inr,
  ◌==◌, ltb, if◌then◌else◌, le→ltb, lt→ltb, ne→==, ltb→lt, ltb→le,
}
use koowaldah.Base.Pow.{pow2_mono, pow2_pos}
use koowaldah.Klib.{log2, roundup_l2}
use koowaldah.Klib.Log2.{log2_least, roundup_l2_lem}
use koowaldah.Galloc.{
  Backing, Galloc, outside, from_slice, from_pages, min_chunk, ci_size, npools, pool_size, inpages,
  rounded_size, finish_chunk, galloc_from_slice, galloc_from_pages, galloc,
}

ci_size_lem : ci_size ≡ 4
unfolding ci_size roundup_l2
ci_size_lem = refl

four : roundup_l2 4 4 ≡ 4
unfolding roundup_l2
four = refl

-- The size is rounded up to the next multiple of 4, and 0 to 4.
rounded :
    (size : ℕ)
    → size + 4 ≤ 2 ^ 32
    → (size ≤ rounded_size size)
      × (rounded_size size < size + 4 + (if size == 0 then 1 else 0))
      × (rounded_size size % 4 ≡ 0)
unfolding rounded_size
rounded zero h = rw four (omega arith, omega arith, refl)
rounded (suc n) h =
    let (low, high, multiple) = roundup_l2_lem (suc n) 4 (omega arith) (omega arith) in
    rw (ne→== (suc n) 0 (omega arith)) (low, omega (arith, high), multiple)

-- A pool whose chunks hold the size and its info has a number that log2 does not exceed.
needed :
    (size k : ℕ)
    → size + 4 ≤ min_chunk * 2 ^ k + 4
    → size ≤ rounded_size size
    → rounded_size size < size + 4 + (if size == 0 then 1 else 0)
    → rounded_size size % 4 ≡ 0
    → rounded_size size / 4 ≤ 2 ^ k
needed size k room low high multiple = ground (arith, pow2_pos k)

not_below : (k n : ℕ) → n ≤ 2 ^ k → 256 < n → k ≤ 9 → k ≡ 9
not_below k n le lt high = elim (Bool-cases (ltb k 9)) [
  | inl low ↦ absurd (omega (arith, pow2_mono k 8 (omega (arith, ltb→lt k 9 low))))
  | inr same ↦ omega (arith, ltb→le k 9 same)
]

above : (k n : ℕ) → n ≤ 2 ^ k → 512 < n → 9 < k
above k n le lt = elim (Bool-cases (ltb 9 k)) [
  | inl high ↦ ltb→lt 9 k high
  | inr low ↦ absurd (omega (arith, pow2_mono k 9 (ltb→le 9 k low)))
]

-- The pool number of a size is the least one whose chunks are large enough.
abbrev pub pool_of : ℕ → ℕ
pool_of size = log2 (rounded_size size / min_chunk)

pool_fits :
    (size : ℕ)
    → size + 4 ≤ 2 ^ 32
    → (size + ci_size ≤ pool_size (pool_of size))
      × ((k : ℕ) → size + ci_size ≤ pool_size k → pool_of size ≤ k)
unfolding pool_size
pool_fits size h = rw ci_size_lem (
    let (low, high, multiple) = rounded size h in
    let (fits, least) = log2_least (rounded_size size / 4) (ground arith) in
    (omega arith, λ k room. least k (needed size k room low high multiple)))

-- The pools are numbered below 9 for sizes up to 1024, and 9 up to 2048.
pool_small : (size : ℕ) → size ≤ 1024 → pool_of size < 9
pool_small size le =
    let (low, high, multiple) = rounded size (omega arith) in
    let (_, least) = log2_least (rounded_size size / 4) (ground arith) in
    omega (arith, least 8 (ground arith))

pool_nine : (size : ℕ) → 1024 < size → size ≤ 2048 → pool_of size ≡ 9
pool_nine size lt le =
    let (low, high, multiple) = rounded size (omega arith) in
    let (fits, least) = log2_least (rounded_size size / 4) (ground arith) in
    not_below (pool_of size) (rounded_size size / 4) fits (ground arith) (least 9 (ground arith))

pool_large : (size : ℕ) → size + 4 ≤ 2 ^ 32 → 2048 < size → 9 < pool_of size
pool_large size h lt =
    let (low, high, multiple) = rounded size h in
    let (fits, least) = log2_least (rounded_size size / 4) (ground arith) in
    above (pool_of size) (rounded_size size / 4) fits (ground arith)

-- The order of the pile that holds a size with its info.
abbrev pub order_of : ℕ → ℕ
order_of size = log2 (inpages (rounded_size size + ci_size))

order_fits : (size : ℕ) → size + 8192 ≤ 2 ^ 32 → size + ci_size ≤ 4096 * 2 ^ order_of size
unfolding inpages
order_fits size h = rw ci_size_lem (
    let (low, high, multiple) = rounded size (omega arith) in
    let n = rounded_size size + 4 in
    let (up, near, whole) = roundup_l2_lem n 4096 (omega arith) (ground arith) in
    let (fits, least) = log2_least (roundup_l2 n 4096 / 4096) (ground arith) in omega arith)

module _ {S : Type 0} (b : Backing S) (size : ℕ) (g : Galloc S) where
  -- A size up to 1024 is served from the least of the nine pools whose chunks hold it and the info,
  -- if that pool has a chunk: the info stands in front of the address that is returned.
  pub galloc-pool :
      (ci : ℕ) (s : S)
      → size ≤ 1024
      → b.slice_alloc (pool_of size) g.below ≡ (some ci, s)
      → (galloc b size g ≡ finish_chunk b from_slice (pool_of size) g (some ci, s))
        × (pool_of size < npools)
        × (size + ci_size ≤ pool_size (pool_of size))
        × ((k : ℕ) → size + ci_size ≤ pool_size k → pool_of size ≤ k)
  unfolding galloc galloc_from_slice
  galloc-pool ci s le given =
      let small = pool_small size le in
      let (fits, least) = pool_fits size (omega arith) in
      (
        rw
            (
              le→ltb 9 (pool_of size) (omega (arith, small)),
              ne→== (pool_of size) 9 (omega (arith, small)),
              given,
              galloc,
            )
            refl,
        small,
        fits,
        least,
      )

  -- For every size above 1024 and up to 2048 galloc reads behind the end of the array of pools.
  pub galloc-outside : 1024 < size → size ≤ 2048 → galloc b size g ≡ outside
  unfolding galloc galloc_from_slice
  galloc-outside lt le = rw (pool_nine size lt le, galloc) refl

  -- A size above 2048, up to two pages below the top of the address space, is served from a pile of
  -- pages that holds it and the info, if there is one.
  pub galloc-pages :
      (ci : ℕ) (s : S)
      → 2048 < size
      → size + 8192 ≤ 2 ^ 32
      → b.get_pages (order_of size) g.below ≡ (some ci, s)
      → (galloc b size g ≡ finish_chunk b from_pages (order_of size) g (some ci, s))
        × (size + ci_size ≤ 4096 * 2 ^ order_of size)
  unfolding galloc galloc_from_slice galloc_from_pages
  galloc-pages ci s lt h given = (
    rw (lt→ltb 9 (pool_of size) (pool_large size (omega arith) lt), given, galloc) refl,
    order_fits size h,
  )
