-- ===== src/PageAlloc/Inv.antt =====
-- The invariant of a zone's levels, and a pile that belongs to none of them: the two states between
-- which allocation and release move pages.
use mathlib.Core.Path.{subst}
use koowaldah.Base.{
  ℕ, ◌+◌, ◌^◌, ◌≤◌, ◌<◌, ◌≡◌, ap, arith, ==_self, Bool-cases, inl, inr, ◌==◌, ==→eq, List, [], ◌∷◌,
  update,
}
use koowaldah.PageAlloc.{Zone, max_order, idx_order, set_order, set_level, push_pile}
use koowaldah.PageAlloc.Cover.{
  inside, cover_level, cover, inside_self, cover_below-update, cover_level-le,
}

-- A pile of order `k` that opens at `i`: aligned to its size, and within the pages `lo .. total`.
abbrev pub Fits : ℕ → ℕ → ℕ → ℕ → Type 0
Fits lo total k i = (k ≤ idx_order i) × (lo ≤ i) × (i + 2 ^ k ≤ total)

-- What print_alloc_info checks of a level: each pile fits it, and its opening page records it.
abbrev pub Entries : (ℕ → ℕ) → ℕ → ℕ → ℕ → List ℕ → Type 0
Entries order lo total k [] = Unit
Entries order lo total k (i ∷ piles) =
    (order i ≡ k) × Fits lo total k i × Entries order lo total k piles

-- Every pile stands at the level of its order, and no page is in two of them.
pub record IsValid (lo : ℕ) (z : Zone) : Type 0 where
  pub entries : (k : ℕ) → k < max_order → Entries z.order lo z.total_pages k (z.alloc_levels k)
  pub once : (p : ℕ) → cover z p ≤ 1

-- A pile none of whose pages is free.
pub record IsLoose (lo : ℕ) (z : Zone) (k i : ℕ) : Type 0 where
  pub in_range : k < max_order
  pub fits : Fits lo z.total_pages k i
  pub apart : (p : ℕ) → cover z p + inside k i p ≤ 1

pub Entries-set_order :
    (order : ℕ → ℕ) (lo total k : ℕ) (piles : List ℕ) (m v : ℕ)
    → cover_level k piles m ≡ 0
    → Entries order lo total k piles
    → Entries (update order m v) lo total k piles
unfolding cover_level
Entries-set_order order lo total k [] m v out e = tt
Entries-set_order order lo total k (i ∷ piles) m v out e = (
  elim (Bool-cases (m == i)) [
    | inl same ↦ absurd (omega (arith, ap (inside k i) (==→eq m i same), inside_self k i))
    | inr other ↦ rw other e.0
  ],
  e.1,
  Entries-set_order order lo total k piles m v (omega arith) e.2,
)

-- The opening page of a loose pile may be given any order.
pub IsValid-set_order :
    (lo : ℕ) (z : Zone) (k i v : ℕ) → IsValid lo z → IsLoose lo z k i → IsValid lo (set_order i v z)
IsValid-set_order lo z k i v valid loose = record {
  entries = λ j h.
      Entries-set_order z.order lo z.total_pages j (z.alloc_levels j) i v
        (omega
          (arith, loose.apart i, inside_self k i, cover_level-le max_order z.alloc_levels j i h))
        (valid.entries j h);
  once = valid.once;
}

pub Entries-update :
    (z : Zone) (lo k : ℕ) (piles : List ℕ)
    → ((j : ℕ) → j < max_order → Entries z.order lo z.total_pages j (z.alloc_levels j))
    → Entries z.order lo z.total_pages k piles
    → (j : ℕ) → j < max_order
    → Entries z.order lo z.total_pages j (update z.alloc_levels k piles j)
Entries-update z lo k piles all new j h = elim (Bool-cases (k == j)) [
  | inl same ↦
      subst (λ m. Entries z.order lo z.total_pages m (update z.alloc_levels k piles m))
        (==→eq k j same) (rw (==_self k) new)
  | inr other ↦ rw other (all j h)
]

module _ (lo : ℕ) (z : Zone) (k i : ℕ) where
  pub cover-push_pile :
      (p : ℕ) → k < max_order → cover (push_pile k i z) p ≡ cover z p + inside k i p
  unfolding cover_level
  cover-push_pile p h =
      omega (arith, cover_below-update max_order z.alloc_levels k (i ∷ z.alloc_levels k) p h)

  -- Linking a loose pile into its level.
  pub IsValid-push_pile :
      IsValid lo z → IsLoose lo z k i → z.order i ≡ k → IsValid lo (push_pile k i z)
  IsValid-push_pile valid loose e = record {
    entries =
        Entries-update z lo k (i ∷ z.alloc_levels k) valid.entries
          (e, loose.fits, valid.entries k loose.in_range);
    once = λ p. omega (arith, cover-push_pile p loose.in_range, loose.apart p);
  }

  module _ (rest : List ℕ)
      (part : (p : ℕ) → cover_level k (z.alloc_levels k) p ≡ inside k i p + cover_level k rest p)
      (h : k < max_order) where
    pub cover-set_level : (p : ℕ) → cover (set_level k rest z) p + inside k i p ≡ cover z p
    cover-set_level p =
        omega (arith, part p, cover_below-update max_order z.alloc_levels k rest p h)

    -- Taking a pile out of its level makes it loose.
    pub IsValid-set_level :
        IsValid lo z
        → Entries z.order lo z.total_pages k rest
        → Fits lo z.total_pages k i
        → IsValid lo (set_level k rest z) × IsLoose lo (set_level k rest z) k i
    IsValid-set_level valid others fits = (
      record {
        entries = Entries-update z lo k rest valid.entries others;
        once = λ p. omega (arith, cover-set_level p, valid.once p);
      },
      record {
        in_range = h;
        fits = fits;
        apart = λ p. omega (arith, cover-set_level p, valid.once p);
      },
    )
