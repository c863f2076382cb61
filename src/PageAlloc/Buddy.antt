-- ===== src/PageAlloc/Buddy.antt =====
-- The search of free_pages for a neighbour of a pile.
use mathlib.Core.Path.{subst}
use mathlib.Core.Option
use koowaldah.Base.{
  Option, ℕ, suc, ◌+◌, ◌^◌, ◌<◌, ◌≡◌, ◌⊎◌, none, refl, ap, arith, Bool-cases, inl, inr, ◌&&◌, some,
  List, [], ◌∷◌, ◌==◌, ltb, map-eq_some,
}
use koowaldah.PageAlloc.{max_order, idx_order, find_buddy}
use koowaldah.Base.Pow.{pow2-suc}
use koowaldah.PageAlloc.Order.{Aligned, idx_order_iff}
use koowaldah.PageAlloc.Cover.{inside, cover_level, inside_split}
use koowaldah.PageAlloc.Inv.{Fits, Entries}

-- The pile `pg` of order `k` and the neighbour `nb`, taken out of `piles`, make the pile `pg'`.
pub record Buddy (order : ℕ → ℕ) (lo total k pg : ℕ) (piles : List ℕ) (pg' : ℕ) (rest : List ℕ)
    : Type 0 where
  pub nb : ℕ
  pub part : (p : ℕ) → cover_level k piles p ≡ inside k nb p + cover_level k rest p
  pub others : Entries order lo total k rest
  pub fits : Fits lo total k nb
  pub joined : (p : ℕ) → inside (suc k) pg' p ≡ inside k pg p + inside k nb p
  pub merged : (order pg' ≡ k) × Fits lo total (suc k) pg'

module _ (order : ℕ → ℕ) (lo total k pg : ℕ) (recorded : order pg ≡ k)
    (fits : Fits lo total k pg) where
  pub find_buddy-Buddy :
      (piles : List ℕ) (pg' : ℕ) (rest : List ℕ)
      → Entries order lo total k piles
      → find_buddy k pg piles ≡ some (pg', rest)
      → Buddy order lo total k pg piles pg' rest
  unfolding find_buddy cover_level
  find_buddy-Buddy [] pg' rest entries e = cc
  find_buddy-Buddy (nb ∷ piles) pg' rest entries e =
      elim (Bool-cases ((pg == nb + 2 ^ k) && ltb k (idx_order nb))) [
        | inl left ↦
            let q : ◌≡◌ {A = ℕ × List ℕ} (nb, piles) (pg', rest) = ground arith in
            let at : pg ≡ nb + 2 ^ k = ground arith in
            subst (λ r. Buddy order lo total k pg (nb ∷ piles) r.0 r.1) q
              (record {
                nb = nb;
                part = λ p. refl;
                others = entries.2;
                fits = entries.1;
                joined = λ p. omega (arith, inside_split k nb p, ap (λ i. inside k i p) at);
                merged = (entries.0, (ground arith, ground arith, ground (arith, pow2-suc k)));
              })
        | inr not_left ↦ elim (Bool-cases ((nb == pg + 2 ^ k) && ltb k (idx_order pg))) [
          | inl right ↦
              let q : ◌≡◌ {A = ℕ × List ℕ} (pg, piles) (pg', rest) = ground arith in
              let at : nb ≡ pg + 2 ^ k = ground arith in
              subst (λ r. Buddy order lo total k pg (nb ∷ piles) r.0 r.1) q
                (record {
                  nb = nb;
                  part = λ p. refl;
                  others = entries.2;
                  fits = entries.1;
                  joined = λ p. omega (arith, inside_split k pg p, ap (λ i. inside k i p) at);
                  merged = (recorded, (ground arith, ground arith, ground (arith, pow2-suc k)));
                })
          | inr not_right ↦
              let e' : Option.map {B = ℕ × List ℕ} (λ (p, r). (p, nb ∷ r)) (find_buddy k pg piles)
                  ≡ some (pg', rest) =
                ground arith in
              let ((p1, r1), found, same) = map-eq_some _ (find_buddy k pg piles) e' in
              let ih = find_buddy-Buddy piles p1 r1 entries.2 found in
              subst (λ r. Buddy order lo total k pg (nb ∷ piles) r.0 r.1) same
                (record {
                  nb = ih.nb;
                  part = λ p. omega (arith, ih.part p);
                  others = (entries.0, entries.1, ih.others);
                  fits = ih.fits;
                  joined = ih.joined;
                  merged = ih.merged;
                })
        ]
      ]

-- Two piles of order `k` that make one of the next order.
abbrev pub AreBuddies : ℕ → ℕ → ℕ → Type 0
AreBuddies k a b = ((a ≡ b + 2 ^ k) × Aligned (suc k) b) ⊎ ((b ≡ a + 2 ^ k) × Aligned (suc k) a)

abbrev pub HasNoBuddy : ℕ → ℕ → List ℕ → Type 0
HasNoBuddy k pg [] = Unit {0}
HasNoBuddy k pg (nb ∷ piles) = (¬ AreBuddies k pg nb) × HasNoBuddy k pg piles

map-none :
    (nb : ℕ) (o : Option (ℕ × List ℕ))
    → Option.map {B = ℕ × List ℕ} (λ (p, r). (p, nb ∷ r)) o ≡ none
    → o ≡ none
map-none nb none e = refl
map-none nb (some r) e = cc

-- Where the search finds no neighbour there is none.
pub find_buddy-none :
    (k pg : ℕ) (piles : List ℕ)
    → suc k < max_order
    → find_buddy k pg piles ≡ none
    → HasNoBuddy k pg piles
unfolding find_buddy
find_buddy-none k pg [] top e = tt
find_buddy-none k pg (nb ∷ piles) top e =
    let low = (idx_order_iff nb (suc k) top).1 in
    let high = (idx_order_iff pg (suc k) top).1 in
    elim (Bool-cases ((pg == nb + 2 ^ k) && ltb k (idx_order nb))) [
      | inl left ↦ cc (rw left at e)
      | inr not_left ↦ elim (Bool-cases ((nb == pg + 2 ^ k) && ltb k (idx_order pg))) [
        | inl right ↦ cc (rw (not_left, right) at e)
        | inr not_right ↦ (
          λ both. elim both [
            | inl (at, aligned) ↦ ground (arith, at, low aligned, not_left)
            | inr (at, aligned) ↦ ground (arith, at, high aligned, not_right)
          ],
          find_buddy-none k pg piles top
              (map-none nb (find_buddy k pg piles) (rw (not_left, not_right) at e)),
        )
      ]
    ]
