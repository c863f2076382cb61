-- ===== src/PageAlloc/Init.antt =====
-- mem_zone_init: the levels that it builds from the pages that the array of pages leaves over.
use mathlib.Core.Path.{subst}
use koowaldah.Base.{
  ℕ, zero, suc, ◌+◌, ◌-◌, ◌^◌, ◌≤◌, ◌<◌, ◌≡◌, arith, Bool-cases, inl, inr, ◌&&◌, some, List, [],
  ◌∷◌, ◌++◌, ltb, leb, ltb→lt, ltb→le, if◌then◌else◌, ==_self,
}
use koowaldah.PageAlloc.{
  Zone, max_order, idx_order, set_order, set_level, fit_order, fill_levels, reset_pages,
  consumed_pages, init,
}
use koowaldah.Base.Pow.{pow2_pos}
use koowaldah.PageAlloc.Order.{idx_order-lt}
use koowaldah.PageAlloc.Cover.{
  inside, cover_level, cover, cover_level-append, cover_below-update, cover_below-empty,
}
use koowaldah.PageAlloc.Inv.{Fits, Entries, IsValid, IsLoose, IsValid-set_order, Entries-update}

-- 1 for the pages `lo .. hi`, else 0.
unfoldable pub range : ℕ → ℕ → ℕ → ℕ
range lo hi p = if leb lo p && ltb p hi then 1 else 0

fit_order-le : (o left : ℕ) → fit_order o left ≤ o
unfolding fit_order
fit_order-le zero left = omega arith
fit_order-le (suc o) left = ground (arith, fit_order-le o left)

fit_order-fits : (o left : ℕ) → 0 < left → 2 ^ fit_order o left ≤ left
unfolding fit_order
fit_order-fits zero left h = omega arith
fit_order-fits (suc o) left h = elim (Bool-cases (ltb left (2 ^ suc o))) [
  | inl small ↦ rw small (fit_order-fits o left h)
  | inr fits ↦ rw fits (ltb→le left (2 ^ suc o) fits)
]

Entries-append :
    (order : ℕ → ℕ) (lo total k : ℕ) (xs ys : List ℕ)
    → Entries order lo total k xs
    → Entries order lo total k ys
    → Entries order lo total k (xs ++ ys)
Entries-append order lo total k [] ys p q = q
Entries-append order lo total k (x ∷ xs) ys p q =
    (p.0, p.1, Entries-append order lo total k xs ys p.2 q)

range-le : (lo hi p : ℕ) → range lo hi p ≤ 1
unfolding range
range-le lo hi p = ground arith

range_step : (lo i k p : ℕ) → lo ≤ i → range lo i p + inside k i p ≡ range lo (i + 2 ^ k) p
unfolding range inside
range_step lo i k p h = ground arith

-- The levels hold the pages `lo .. i`.
record Filled (lo i : ℕ) (z : Zone) : Type 0 where
  valid : IsValid lo z
  pages : (p : ℕ) → cover z p ≡ range lo i p

-- One round: the pile that opens at `i`, as large as its alignment and the rest allow.
fill_step :
    (lo i : ℕ) (z : Zone)
    → lo ≤ i
    → i < z.total_pages
    → Filled lo i z
    → let k = fit_order (idx_order i) (z.total_pages - i) in
      let z' = set_level k (z.alloc_levels k ++ i ∷ []) (set_order i k z) in
      Filled lo (i + 2 ^ k) z' × (i + 2 ^ k ≤ z.total_pages)
unfolding cover_level
fill_step lo i z h lt filled =
    let k = fit_order (idx_order i) (z.total_pages - i) in
    let small = fit_order-le (idx_order i) (z.total_pages - i) in
    let room = fit_order-fits (idx_order i) (z.total_pages - i) (omega arith) in
    let fits : Fits lo z.total_pages k i = (small, h, omega arith) in
    let low : k < max_order = omega (arith, idx_order-lt i) in
    let loose : IsLoose lo z k i = record {
      in_range = low;
      fits = fits;
      apart = λ p. omega (arith, filled.pages p, range_step lo i k p h, range-le lo (i + 2 ^ k) p);
    } in
    let valid1 = IsValid-set_order lo z k i k filled.valid loose in
    let z1 = set_order i k z in
    let new = z.alloc_levels k ++ i ∷ [] in
    let pages' : (p : ℕ) → cover (set_level k new z1) p ≡ range lo (i + 2 ^ k) p = λ p. omega (
      arith,
      filled.pages p,
      range_step lo i k p h,
      cover_level-append k (z.alloc_levels k) (i ∷ []) p,
      cover_below-update max_order z.alloc_levels k new p low,
    ) in
    (
      record {
        valid = record {
          entries = Entries-update z1 lo k new valid1.entries (
              Entries-append z1.order lo z.total_pages k (z.alloc_levels k) (i ∷ [])
                (valid1.entries k low) (rw (==_self i), fits, tt));
          once = λ p. omega (arith, pages' p, range-le lo (i + 2 ^ k) p);
        };
        pages = pages';
      },
      omega arith,
    )

fill_levels-Filled :
    (fuel lo i : ℕ) (z : Zone)
    → lo ≤ i
    → i ≤ z.total_pages
    → z.total_pages < fuel + i
    → Filled lo i z
    → (z' : Zone) × (fill_levels fuel i z ≡ some z') × Filled lo z.total_pages z'
unfolding fill_levels
fill_levels-Filled zero lo i z h le enough filled = absurd (omega arith)
fill_levels-Filled (suc fuel) lo i z h le enough filled = elim (Bool-cases (ltb i z.total_pages)) [
  | inl more ↦
      let k = fit_order (idx_order i) (z.total_pages - i) in
      let (filled', le') = fill_step lo i z h (ltb→lt i z.total_pages more) filled in
      let z1 = set_level k (z.alloc_levels k ++ i ∷ []) (set_order i k z) in
      let (z', run, result) =
        fill_levels-Filled fuel lo (i + 2 ^ k) z1 (omega arith) le' (omega (arith, pow2_pos k))
          filled' in
      (z', rw more run, result)
  | inr done ↦
      let end : i ≡ z.total_pages = omega (arith, ltb→le i z.total_pages done) in
      (z, rw done, subst (λ m. Filled lo m z) end filled)
]

range-empty : (lo hi p : ℕ) → hi ≤ lo → range lo hi p ≡ 0
unfolding range
range-empty lo hi p h = ground arith

-- mem_zone_init ends. It leaves well-formed levels in which each page behind those that hold the
-- array of pages lies in exactly one free pile, and no other page in any.
pub init_lem :
    (z : Zone)
    → (z' : Zone) × (init z ≡ some z')
      × IsValid (consumed_pages z.total_pages) z'
      × ((p : ℕ) → cover z' p ≡ range (consumed_pages z.total_pages) z.total_pages p)
unfolding init
init_lem z =
    let lo = consumed_pages z.total_pages in
    let z0 = reset_pages z in
    let start : Filled lo lo z0 = record {
      valid = record {
        entries = λ k h. tt;
        once = λ p. omega (arith, cover_below-empty max_order p);
      };
      pages = λ p. omega (arith, cover_below-empty max_order p, range-empty lo lo p);
    } in
    elim (Bool-cases (ltb lo z.total_pages)) [
      | inl room ↦
          let small : lo ≤ z.total_pages = omega (arith, ltb→lt lo z.total_pages room) in
          let (z', run, filled) =
            fill_levels-Filled (suc z.total_pages) lo lo z0 (omega arith) small (omega arith)
              start in
          (z', run, filled.valid, filled.pages)
      | inr none_left ↦ (
        z0,
        rw none_left,
        start.valid,
        λ p. omega (
          arith,
          cover_below-empty max_order p,
          range-empty lo z.total_pages p,
          ltb→le lo z.total_pages none_left,
        ),
      )
    ]
