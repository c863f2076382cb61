-- ===== src/Galloc/Release.antt =====
-- gfree of kernel/galloc.c gives a chunk back to where galloc took it from.
use koowaldah.Base.{
  ℕ, ◌+◌, ◌-◌, ◌/◌, ◌≡◌, refl, ◌∙◌, Option, none, some, arith, Bool-cases, inl, inr, ◌⊎◌, ◌==◌,
  ==_self, ltb,
}
use koowaldah.Klib.{log2}
use koowaldah.Galloc.{
  Backing, Galloc, Given, chunk_at, null, outside, Origin, from_slice, from_pages, finish_chunk,
  galloc_from_slice, galloc_from_pages, galloc, gfree, release, rounded_size, with_info,
}

module _ {S : Type 0} (b : Backing S) where
  -- Where a chunk comes from, and where gfree puts it.
  abbrev pub FromSlice : ℕ → Galloc S → Galloc S → Type 0
  FromSlice p g g' =
      (ci i : ℕ) × (p ≡ ci + 4)
      × (b.slice_alloc i g.below ≡ (some ci, g'.below))
      × (gfree b p g' ≡ some (record g' { below = b.slice_free ci i g'.below }))

  abbrev pub FromPages : ℕ → Galloc S → Type 0
  FromPages p g' =
      (ci i : ℕ) × (s : S) × (p ≡ ci + 4)
      × (b.get_pages i s ≡ (some ci, g'.below))
      × (gfree b p g' ≡ some (record g' { below = b.put_pages ci g'.below }))

  -- The info that galloc stores is the one that gfree finds.
  gfree-finish_chunk :
      (origin : Origin) (i ci : ℕ) (g : Galloc S) (s : S)
      → gfree b (ci + 4) (with_info origin i ci g s)
        ≡ release b (some (record { origin = origin; info = i })) ci (with_info origin i ci g s)
  unfolding gfree
  gfree-finish_chunk origin i ci g s =
      let back : ci + 4 - 4 ≡ ci = omega arith in rw (back, ==_self ci) refl

  slice_part :
      (p i : ℕ) (g g' : Galloc S) (r : Option ℕ × S)
      → b.slice_alloc i g.below ≡ r
      → finish_chunk b from_slice i g r ≡ chunk_at p g'
      → FromSlice p g g'
  slice_part p i g g' (none, s) given e = cc
  slice_part p i g g' (some ci, s) given e =
      let at : ci + 4 ≡ p = cc in
      let state : with_info from_slice i ci g s ≡ g' = cc in
      rw (← at, ← state) (ci, i, refl, given, gfree-finish_chunk from_slice i ci g s)

  pages_part :
      (p i : ℕ) (g g' : Galloc S) (r : Option ℕ × S)
      → b.get_pages i g.below ≡ r
      → finish_chunk b from_pages i g r ≡ chunk_at p g'
      → FromPages p g'
  pages_part p i g g' (none, s) given e = cc
  pages_part p i g g' (some ci, s) given e =
      let at : ci + 4 ≡ p = cc in
      let state : with_info from_pages i ci g s ≡ g' = cc in
      rw (← at, ← state) (ci, i, g.below, refl, given, gfree-finish_chunk from_pages i ci g s)

  galloc_from_slice-FromSlice :
      (p size : ℕ) (g g' : Galloc S) → galloc_from_slice b size g ≡ chunk_at p g' → FromSlice p g g'
  unfolding galloc_from_slice
  galloc_from_slice-FromSlice p size g g' e = elim (Bool-cases (ltb 9 (log2 (size / 4)))) [
    | inl high ↦ cc (rw high at e)
    | inr low ↦ elim (Bool-cases (log2 (size / 4) == 9)) [
      | inl nine ↦ cc (rw (low, nine) at e)
      | inr other ↦
          slice_part p (log2 (size / 4)) g g' (b.slice_alloc (log2 (size / 4)) g.below) refl
            (rw (low, other) at e)
    ]
  ]

  galloc_from_pages-FromPages :
      (p size : ℕ) (g g' : Galloc S) → galloc_from_pages b size g ≡ chunk_at p g' → FromPages p g'
  unfolding galloc_from_pages
  galloc_from_pages-FromPages p size g g' e = pages_part p _ g g' (b.get_pages _ g.below) refl e

  galloc_parts :
      (p size : ℕ) (g g' : Galloc S) (r : Given S)
      → galloc_from_slice b (rounded_size size) g ≡ r
      → galloc b size g ≡ chunk_at p g'
      → FromSlice p g g' ⊎ FromPages p g'
  unfolding galloc
  galloc_parts p size g g' (chunk_at q h) first e =
      inl
        (galloc_from_slice-FromSlice p (rounded_size size) g g' (first ∙ (rw (first, galloc) at e)))
  galloc_parts p size g g' (null h) first e =
      inr (galloc_from_pages-FromPages p (rounded_size size) h g' (rw (first, galloc) at e))
  galloc_parts p size g g' outside first e = cc (rw (first, galloc) at e)

  -- Whatever chunk galloc returns, gfree at once hands the same block back to the same allocator: to
  -- the slice pool that it came from, or to the pages.
  pub gfree-galloc :
      (p size : ℕ) (g g' : Galloc S)
      → galloc b size g ≡ chunk_at p g'
      → FromSlice p g g' ⊎ FromPages p g'
  gfree-galloc p size g g' e =
      galloc_parts p size g g' (galloc_from_slice b (rounded_size size) g) refl e
