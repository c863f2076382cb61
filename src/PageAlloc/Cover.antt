-- ===== src/PageAlloc/Cover.antt =====
-- The pages that a zone's free piles hold, counted: the view of the levels that forgets how the
-- pages are grouped into piles and in what order the piles are linked.
use koowaldah.Base.{
  ℕ, zero, suc, ◌+◌, ◌^◌, ◌≤◌, ◌<◌, ◌≡◌, refl, arith, Bool-cases, inl, inr, leb, ltb, if◌then◌else◌,
  ◌&&◌, List, [], ◌∷◌, ◌++◌, update,
}
use koowaldah.PageAlloc.{Zone, max_order}
use koowaldah.Base.Pow.{pow2-suc, pow2_pos}

-- 1 if the page `p` lies in the pile of order `k` that opens at `i`, else 0.
unfoldable pub inside : ℕ → ℕ → ℕ → ℕ
inside k i p = if leb i p && ltb p (i + 2 ^ k) then 1 else 0

-- In how many piles of a level of order `k` the page lies.
unfoldable pub cover_level : ℕ → List ℕ → ℕ → ℕ
cover_level k [] p = 0
cover_level k (i ∷ piles) p = inside k i p + cover_level k piles p

-- The same over the first `n` levels.
unfoldable pub cover_below : ℕ → (ℕ → List ℕ) → ℕ → ℕ
cover_below zero levels p = 0
cover_below (suc n) levels p = cover_below n levels p + cover_level n (levels n) p

-- In how many free piles of the zone the page lies.
abbrev pub cover : Zone → ℕ → ℕ
cover z p = cover_below max_order z.alloc_levels p

pub inside_split : (k i p : ℕ) → inside (suc k) i p ≡ inside k i p + inside k (i + 2 ^ k) p
unfolding inside
inside_split k i p = ground (arith, pow2-suc k)

pub inside_self : (k i : ℕ) → inside k i i ≡ 1
unfolding inside
inside_self k i = ground (arith, pow2_pos k)

pub inside_within : (k i p : ℕ) → 1 ≤ inside k i p → (i ≤ p) × (p < i + 2 ^ k)
unfolding inside
inside_within k i p h = ground arith

pub cover_level-append :
    (k : ℕ) (xs ys : List ℕ) (p : ℕ)
    → cover_level k (xs ++ ys) p ≡ cover_level k xs p + cover_level k ys p
unfolding cover_level
cover_level-append k [] ys p = omega arith
cover_level-append k (x ∷ xs) ys p = omega (arith, cover_level-append k xs ys p)

cover_below-update_of_le :
    (n : ℕ) (levels : ℕ → List ℕ) (k : ℕ) (piles : List ℕ) (p : ℕ)
    → n ≤ k
    → cover_below n (update levels k piles) p ≡ cover_below n levels p
unfolding cover_below
cover_below-update_of_le zero levels k piles p h = refl
cover_below-update_of_le (suc n) levels k piles p h =
    ground (arith, cover_below-update_of_le n levels k piles p)

-- Replacing one level changes the count by that level's.
pub cover_below-update :
    (n : ℕ) (levels : ℕ → List ℕ) (k : ℕ) (piles : List ℕ) (p : ℕ)
    → k < n
    → cover_below n (update levels k piles) p + cover_level k (levels k) p
      ≡ cover_below n levels p + cover_level k piles p
unfolding cover_below
cover_below-update zero levels k piles p h = absurd (omega arith)
cover_below-update (suc n) levels k piles p h = elim (Bool-cases (ltb k n)) [
  | inl below ↦ ground (arith, cover_below-update n levels k piles p)
  | inr last ↦ ground (arith, cover_below-update_of_le n levels k piles p)
]

-- A level's count is part of the whole.
pub cover_level-le :
    (n : ℕ) (levels : ℕ → List ℕ) (k p : ℕ)
    → k < n
    → cover_level k (levels k) p ≤ cover_below n levels p
unfolding cover_below
cover_level-le zero levels k p h = absurd (omega arith)
cover_level-le (suc n) levels k p h = elim (Bool-cases (ltb k n)) [
  | inl below ↦ ground (arith, cover_level-le n levels k p)
  | inr last ↦ let e : k ≡ n = ground arith in rw e (omega arith)
]

pub cover_below-empty : (n p : ℕ) → cover_below n (λ _. []) p ≡ 0
unfolding cover_below cover_level
cover_below-empty zero p = refl
cover_below-empty (suc n) p = omega (arith, cover_below-empty n p)
