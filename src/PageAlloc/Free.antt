-- ===== src/PageAlloc/Free.antt =====
-- free_pages: the merging of piles, and what a release gives back.
use mathlib.Core.Path.{subst}
use koowaldah.Base.{
  ℕ, zero, suc, ◌+◌, ◌≤◌, ◌<◌, ◌≡◌, none, refl, sym, ap, arith, inl, inr, ◌&&◌, not, some, List,
  ◌∷◌, ◌==◌, ltb, Option-cases, ==_self, true,
}
use koowaldah.PageAlloc.{
  Zone, max_order, set_order, set_level, find_buddy, merge, insert_merged, free,
}
use koowaldah.PageAlloc.Order.{idx_order-lt}
use koowaldah.PageAlloc.Cover.{inside, cover}
use koowaldah.PageAlloc.Inv.{
  IsValid, IsLoose, IsValid-set_order, IsValid-push_pile, IsValid-set_level, cover-push_pile,
  cover-set_level,
}
use koowaldah.PageAlloc.Buddy.{Buddy, HasNoBuddy, find_buddy-Buddy, find_buddy-none}

-- What the rounds of the loop leave: the merged pile, still loose, recorded in its opening page.
record Merged (lo : ℕ) (z : Zone) (k pg pg' : ℕ) (z' : Zone) : Type 0 where
  valid : IsValid lo z'
  loose : IsLoose lo z' (z'.order pg') pg'
  pages : (p : ℕ) → cover z' p + inside (z'.order pg') pg' p ≡ cover z p + inside k pg p
  around : (p : ℕ) → inside k pg p ≤ inside (z'.order pg') pg' p
  alone : find_buddy (z'.order pg') pg' (z'.alloc_levels (z'.order pg')) ≡ none

-- One round that finds a neighbour.
merge_step :
    (lo : ℕ) (z : Zone) (k pg pg' : ℕ) (rest : List ℕ)
    → IsValid lo z
    → IsLoose lo z k pg
    → Buddy z.order lo z.total_pages k pg (z.alloc_levels k) pg' rest
    → let z' = set_order pg' (z.order pg' + 1) (set_level k rest z) in
      IsValid lo z'
      × IsLoose lo z' (suc k) pg'
      × (z'.order pg' ≡ suc k)
      × ((p : ℕ) → cover z' p + inside (suc k) pg' p ≡ cover z p + inside k pg p)
merge_step lo z k pg pg' rest valid loose b =
    let z1 = set_level k rest z in
    let pages1 = cover-set_level lo z k b.nb rest b.part loose.in_range in
    let (valid1, loose1) =
      IsValid-set_level lo z k b.nb rest b.part loose.in_range valid b.others b.fits in
    let whole : IsLoose lo z1 (suc k) pg' = record {
      in_range = omega (arith, b.merged, idx_order-lt pg');
      fits = b.merged.1;
      apart = λ p. omega (arith, pages1 p, b.joined p, loose.apart p);
    } in
    (
      IsValid-set_order lo z1 (suc k) pg' (z.order pg' + 1) valid1 whole,
      record { in_range = whole.in_range; fits = whole.fits; apart = whole.apart },
      rw (==_self pg') (omega (arith, b.merged.0)),
      λ p. omega (arith, pages1 p, b.joined p),
    )

merge-Merged :
    (lo fuel pg : ℕ) (z : Zone)
    → max_order ≤ fuel + z.order pg
    → IsValid lo z
    → IsLoose lo z (z.order pg) pg
    → (r : ℕ × Zone) × (merge fuel pg z ≡ some r) × Merged lo z (z.order pg) pg r.0 r.1
unfolding merge
merge-Merged lo zero pg z enough valid loose = absurd (omega (arith, loose.in_range))
merge-Merged lo (suc fuel) pg z enough valid loose =
    let k = z.order pg in
    elim (Option-cases (find_buddy k pg (z.alloc_levels k))) [
      | inl done ↦ (
        (pg, z),
        rw (done, merge),
        record {
          valid = valid;
          loose = loose;
          pages = λ p. refl;
          around = λ p. omega arith;
          alone = done;
        },
      )
      | inr ((pg', rest), found) ↦
          let b =
            find_buddy-Buddy z.order lo z.total_pages k pg refl loose.fits (z.alloc_levels k) pg'
              rest (valid.entries k loose.in_range) found in
          let z' = set_order pg' (z.order pg' + 1) (set_level k rest z) in
          let (valid', loose', next, pages') = merge_step lo z k pg pg' rest valid loose b in
          let more : (ltb (z'.order pg') max_order && not (k == z'.order pg')) ≡ true =
            ground (arith, next, loose'.in_range) in
          let (r, run, rest') =
            merge-Merged lo fuel pg' z' (omega (arith, next)) valid'
              (subst (λ m. IsLoose lo z' m pg') (sym next) loose') in
          (
            r,
            rw (found, merge) (rw more run),
            record {
              valid = rest'.valid;
              loose = rest'.loose;
              pages = λ p. omega (arith, rest'.pages p, pages' p, ap (λ m. inside m pg' p) next);
              around =
                  λ p. omega (arith, rest'.around p, b.joined p, ap (λ m. inside m pg' p) next);
              alone = rest'.alone;
            },
          )
    ]

-- The pages of a pile stand in the first free pile of a level, and no other pile of this level, where
-- it is not the last one, could be merged with it.
pub record IsMerged (k pg : ℕ) (z : Zone) : Type 0 where
  pub level : ℕ
  pub pile : ℕ
  pub others : List ℕ
  pub listed : z.alloc_levels level ≡ pile ∷ others
  pub around : (p : ℕ) → inside k pg p ≤ inside level pile p
  pub complete : suc level < max_order → HasNoBuddy level pile others

-- A release ends, keeps the levels well formed, and gives back the pages of its pile and no other:
-- each page is in as many free piles as before, and the released pages in one more. The released pages
-- stand in the first pile of a level, and no other pile of this level could be merged with that one
-- into a pile of the next level. The pile released is one that no free pile meets, of the order that its
-- opening page records.
pub free_lem :
    (lo pg : ℕ) (z : Zone)
    → IsValid lo z
    → IsLoose lo z (z.order pg) pg
    → (z' : Zone) × (free pg z ≡ some z')
      × IsValid lo z'
      × ((p : ℕ) → cover z' p ≡ cover z p + inside (z.order pg) pg p)
      × IsMerged (z.order pg) pg z'
unfolding free
free_lem lo pg z valid loose =
    let ((pg', z1), run, m) = merge-Merged lo max_order pg z (omega arith) valid loose in
    let v = IsValid-push_pile lo z1 (z1.order pg') pg' m.valid m.loose refl in
    (
      insert_merged pg' z1,
      rw run,
      record { entries = v.entries; once = v.once },
      λ p. omega (arith, m.pages p, cover-push_pile lo z1 (z1.order pg') pg' p m.loose.in_range),
      record {
        level = z1.order pg';
        pile = pg';
        others = z1.alloc_levels (z1.order pg');
        listed = rw (==_self (z1.order pg')) refl;
        around = m.around;
        complete =
            λ top. find_buddy-none (z1.order pg') pg' (z1.alloc_levels (z1.order pg')) top m.alone;
      },
    )
