-- ===== src/Slice/Release.antt =====
-- slice_free of kernel/slice.c.
use native.Mathlib.Nat.{mul-div_cancel}
use koowaldah.Base.{
  ℕ, ◌+◌, ◌-◌, ◌*◌, ◌/◌, ◌%◌, ◌<◌, ◌≡◌, true, false, ◌&&◌, refl, ap, ap₂, ◌∙◌, arith, List, ◌∷◌,
  Option, none, some, ◌==◌, ==→eq, ==→ne, ==_self, Bool-cases, inl, inr, if◌then◌else◌,
}
use koowaldah.PageAlloc.{page_size}
use koowaldah.Slice.{SlicePage, SlicePool, usable, find_page, free_active, free_at, slice_free}
use koowaldah.Slice.Shape.{IsSize, usable_lem, slice_fit}
use koowaldah.Slice.Pages.{IsPage, HasRoom, IsFull, pages_at, taken, IsPool, taken_in-none}
use koowaldah.Slice.Search.{
  freed, freed-IsPage, freed-HasRoom, freed-front, Finds, find_page_cases, Clears, Cleared,
  clear_in_lem,
}

-- The page and the number of a slice from its address.
pub slice_place :
    (size base k : ℕ)
    → IsSize size
    → base % page_size ≡ 0
    → k < usable size
    → (base + k * size - (base + k * size) % page_size ≡ base)
      × ((base + k * size) % page_size / size ≡ k)
slice_place size base k s aligned low =
    let fit = slice_fit size k s low in
    let rest : (base + k * size) % page_size ≡ k * size = omega (arith, fit, s.pos) in
    (omega (arith, rest), ap (λ (t : ℕ). t / size) rest ∙ mul-div_cancel k s.pos)

-- The state after slice_free: the slice is free, no other slice changes, and the pool is in order.
pub record Frees (pool : SlicePool) (base k : ℕ) (pool' : SlicePool) : Type 0 where
  pub marks :
      (b j : ℕ) → taken pool' b j ≡ (if (base == b) && (k == j) then false else taken pool b j)
  pub kept : IsPool pool'
  pub same_size : pool'.obj_size ≡ pool.obj_size

pub listed :
    (pool : SlicePool) (base k : ℕ)
    → IsPool pool
    → taken pool base k ≡ true
    → pages_at base pool.pages_active + pages_at base pool.pages_inactive ≡ 1
listed pool base k valid is_taken =
    let m = pages_at base pool.pages_active in
    let n = pages_at base pool.pages_inactive in
    elim (Bool-cases (m + n == 0)) [
      | inl missing ↦
          let zero_at = ==→eq (m + n) 0 missing in
          let off_active = taken_in-none pool.pages_active base k (omega (arith, zero_at)) in
          let off_inactive = taken_in-none pool.pages_inactive base k (omega (arith, zero_at)) in
          cc (rw (off_active, off_inactive) at is_taken)
      | inr there ↦ omega (arith, ==→ne (m + n) 0 there, valid.once base)
    ]

module _ (home size base k : ℕ) (act full : List SlicePage) (low : k < usable size) where
  abbrev pool : SlicePool
  pool = record { home = home; obj_size = size; pages_active = act; pages_inactive = full }

  abbrev reopened : SlicePage → List SlicePage → SlicePool
  reopened pg rest = record pool { pages_inactive = rest; pages_active = freed k pg ∷ act }

  reopened-Frees :
      (pg : SlicePage) (rest : List SlicePage)
      → IsPool pool
      → pages_at base act + pages_at base full ≡ 1
      → Finds (λ p. IsPage size p × IsFull size p) base full pg rest
      → Frees pool base k (reopened pg rest)
  reopened-Frees pg rest valid one f =
      let self : (pg.base == base) ≡ true = rw f.found_at (==_self base) in
      let count = rw self at (f.count base) in
      let (page, others) = f.all valid.inactive in
      record {
        marks = λ b j.
            let front =
              freed-front pg act base k b j f.found_at
                (taken_in-none act base j (omega (arith, one, count))) in
            let alone = taken_in-none rest base j (omega (arith, one, count)) in
            rw (front, f.same b j)
              (elim (Bool-cases (base == b)) [
                | inl here ↦ rw (here, ← ==→eq base b here, self, alone) (ground arith)
                | inr other ↦ rw other (ground arith)
              ]);
        kept = record {
          shape = valid.shape;
          active = (
            (
              freed-IsPage size k pg low page.0,
              freed-HasRoom size k pg (omega (arith, low, usable_lem size valid.shape)),
            ),
            valid.active,
          );
          inactive = others;
          once = λ b. omega (arith, valid.once b, f.count b);
        };
        same_size = refl;
      }

  cleared-Frees :
      (act' : List SlicePage)
      → IsPool pool
      → pages_at base full ≡ 0
      → Clears (λ p. IsPage size p × HasRoom size p) base k act act'
      → Frees pool base k (record pool { pages_active = act' })
  cleared-Frees act' valid alone c = record {
    marks = λ b j. rw (c.marks b j) (elim (Bool-cases (base == b)) [
      | inl here ↦ rw (here, ← ==→eq base b here, taken_in-none full base j alone) (ground arith)
      | inr other ↦ rw other refl
    ]);
    kept = record {
      shape = valid.shape;
      active =
          c.all
            (λ p h. (
              freed-IsPage size k p low h.0,
              freed-HasRoom size k p (omega (arith, low, usable_lem size valid.shape)),
            ))
            valid.active;
      inactive = valid.inactive;
      once = λ b. omega (arith, valid.once b, c.count b);
    };
    same_size = refl;
  }

abbrev Freed : SlicePool → ℕ → ℕ → Option SlicePool → Type 0
Freed pool base k o = (pool' : SlicePool) × (o ≡ some pool') × Frees pool base k pool'

module _ (home size base k : ℕ) (act full : List SlicePage) (low : k < usable size)
    (valid : IsPool (pool home size base k act full low)) where
  free_inactive :
      pages_at base act + pages_at base full ≡ 1
      → (pg : SlicePage) (rest : List SlicePage) → find_page base full ≡ some (pg, rest)
      → Finds (λ p. IsPage size p × IsFull size p) base full pg rest
      → Freed
          (pool home size base k act full low)
          base
          k
          (free_at base k (pool home size base k act full low))
  unfolding free_at
  free_inactive one pg rest e f = (
    reopened home size base k act full low pg rest,
    rw e refl,
    reopened-Frees home size base k act full low pg rest valid one f,
  )

  free_in_active :
      pages_at base full ≡ 0
      → find_page base full ≡ none
      → Cleared (λ p. IsPage size p × HasRoom size p) base k act
      → Freed
          (pool home size base k act full low)
          base
          k
          (free_at base k (pool home size base k act full low))
  unfolding free_at free_active
  free_in_active alone missing (act', e, c) = (
    record (pool home size base k act full low) { pages_active = act' },
    rw (missing, e) refl,
    cleared-Frees home size base k act full low act' valid alone c,
  )

  free_at_lem :
      pages_at base act + pages_at base full ≡ 1
      → Freed
          (pool home size base k act full low)
          base
          k
          (free_at base k (pool home size base k act full low))
  free_at_lem one = elim (find_page_cases (λ p. IsPage size p × IsFull size p) base full) [
    | inl (missing, alone) ↦
        free_in_active alone missing (
          clear_in_lem (λ p. IsPage size p × HasRoom size p) base k act (omega (arith, one, alone)))
    | inr (pg, rest, e, f) ↦ free_inactive one pg rest e f
  ]

-- On a pool in order, slice_free of a slice that is taken finds its page, in either list, and does not
-- run into its bug(): the slice is free then, no other slice changes, and the pool is in order again.
pub slice_free_lem :
    (pool : SlicePool) (base k : ℕ)
    → IsPool pool
    → base % page_size ≡ 0
    → k < usable pool.obj_size
    → taken pool base k ≡ true
    → (pool' : SlicePool) × (slice_free (base + k * pool.obj_size) pool ≡ some pool')
      × Frees pool base k pool'
unfolding slice_free
slice_free_lem p base k valid aligned low is_taken =
    let (at_base, at_k) = slice_place p.obj_size base k valid.shape aligned low in
    let (p', e, frees) =
      free_at_lem p.home p.obj_size base k p.pages_active p.pages_inactive low valid
        (listed p base k valid is_taken) in
    (p', ap₂ (λ a i. free_at a i p) at_base at_k ∙ e, frees)
