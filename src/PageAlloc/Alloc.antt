-- ===== src/PageAlloc/Alloc.antt =====
-- __alloc_pages: what an allocation takes from the zone, and when it fails.
use native.Mathlib.Nat.{add-suc, add-zero}
use mathlib.Core.Path.{subst}
use koowaldah.Base.{
  ℕ, zero, suc, sym, ap, map-eq_some, Bool-cases, ◌==◌, ==→eq, inl, inr, ◌+◌, ◌-◌, ◌^◌, ◌≤◌, ◌<◌,
  ◌≡◌, refl, ==_self, arith, none, some, ◌↔◌, List, [], ◌∷◌,
}
use koowaldah.PageAlloc.{
  Zone, max_order, set_order, set_level, push_pile, find_level, split_pile, alloc,
}
use koowaldah.Base.Pow.{pow2-suc}
use koowaldah.PageAlloc.Order.{idx_order-halves}
use koowaldah.PageAlloc.Cover.{inside, cover_level, cover, inside_split}
use koowaldah.PageAlloc.Inv.{
  IsValid, IsLoose, Entries, IsValid-set_order, IsValid-push_pile, IsValid-set_level,
  cover-push_pile, cover-set_level,
}

-- What a run that started in `z` with the pile of order `k` at `i` in hand has reached.
record Took (lo : ℕ) (z : Zone) (k i order pg : ℕ) (z' : Zone) : Type 0 where
  valid : IsValid lo z'
  loose : IsLoose lo z' order pg
  pages : (p : ℕ) → cover z' p + inside order pg p ≡ cover z p + inside k i p
  same_size : z'.total_pages ≡ z.total_pages
  same_base : z'.base ≡ z.base

split_step :
    (lo k i : ℕ) (z : Zone)
    → IsValid lo z
    → IsLoose lo z (suc k) i
    → let z' = push_pile k i (set_order i k z) in IsValid lo z' × IsLoose lo z' k (i + 2 ^ k)
split_step lo k i z valid loose =
    let z1 = set_order i k z in
    let halves = idx_order-halves i k loose.in_range loose.fits.0 in
    let lower : IsLoose lo z1 k i = record {
      in_range = omega (arith, loose.in_range);
      fits = omega (arith, halves.0, loose.fits, pow2-suc k);
      apart = λ p. omega (arith, loose.apart p, inside_split k i p);
    } in
    (
      IsValid-push_pile lo z1 k i (IsValid-set_order lo z (suc k) i k valid loose) lower
          (rw (==_self i)),
      record {
        in_range = omega (arith, loose.in_range);
        fits = omega (arith, halves.1, loose.fits, pow2-suc k);
        apart = λ p.
            omega (
              arith,
              loose.apart p,
              inside_split k i p,
              cover-push_pile lo z1 k i p lower.in_range,
            );
      },
    )

split_pile-Took :
    (lo order n i : ℕ) (z : Zone)
    → IsValid lo z
    → IsLoose lo z (order + n) i
    → let (pg, z') = split_pile order n i z in Took lo z (order + n) i order pg z'
unfolding split_pile
split_pile-Took lo order zero i z valid loose =
    let e : order + 0 ≡ order = add-zero order in
    record {
      valid = valid;
      loose = subst (λ k. IsLoose lo z k i) e loose;
      pages = λ p. rw e refl;
      same_size = refl;
      same_base = refl;
    }
split_pile-Took lo order (suc n) i z valid loose =
    let k = order + n in
    let e : order + suc n ≡ suc k = add-suc order n in
    let loose' : IsLoose lo z (suc k) i = subst (λ m. IsLoose lo z m i) e loose in
    let (valid1, loose1) = split_step lo k i z valid loose' in
    let rest =
      split_pile-Took lo order n (i + 2 ^ k) (push_pile k i (set_order i k z)) valid1 loose1 in
    record {
      valid = rest.valid;
      loose = rest.loose;
      pages = λ p. rw e (
          omega (
            arith,
            rest.pages p,
            cover-push_pile lo (set_order i k z) k i p (omega (arith, loose'.in_range)),
            inside_split k i p,
          ));
      same_size = rest.same_size;
      same_base = rest.same_base;
    }

record Found (z : Zone) (i left j pile : ℕ) (others : List ℕ) : Type 0 where
  from : i ≤ j
  to : j < i + left
  level : z.alloc_levels j ≡ pile ∷ others

find_level-Found :
    (left i : ℕ) (z : Zone) (j pile : ℕ) (others : List ℕ)
    → find_level left i z ≡ some (j, pile, others)
    → Found z i left j pile others
unfolding find_level
find_level-Found zero i z j pile others e = cc
find_level-Found (suc left) i z j pile others e =
    ground (arith, find_level-Found left (i + 1) z j pile others)

-- What a successful allocation of order `order` leaves: the pile `pg` in the caller's hands.
pub record Allocated (lo : ℕ) (z : Zone) (order pg : ℕ) (z' : Zone) : Type 0 where
  pub valid : IsValid lo z'
  pub loose : IsLoose lo z' order pg
  pub recorded : z'.order pg ≡ order
  pub pages : (p : ℕ) → cover z' p + inside order pg p ≡ cover z p
  pub same_size : z'.total_pages ≡ z.total_pages
  pub same_base : z'.base ≡ z.base

take_first :
    (lo j i : ℕ) (others : List ℕ) (z : Zone)
    → IsValid lo z
    → j < max_order
    → z.alloc_levels j ≡ i ∷ others
    → let z1 = set_level j others z in
      IsValid lo z1 × IsLoose lo z1 j i × ((p : ℕ) → cover z1 p + inside j i p ≡ cover z p)
unfolding cover_level
take_first lo j i others z valid h e =
    let level : Entries z.order lo z.total_pages j (i ∷ others) =
      subst (Entries z.order lo z.total_pages j) e (valid.entries j h) in
    let part : (p : ℕ)
        → cover_level j (z.alloc_levels j) p ≡ inside j i p + cover_level j others p =
      λ p. rw e refl in
    let (valid1, loose1) = IsValid-set_level lo z j i others part h valid level.2 level.1 in
    (valid1, loose1, λ p. cover-set_level lo z j i others part h p)

alloc_from :
    (lo order j i : ℕ) (others : List ℕ) (z : Zone)
    → IsValid lo z
    → Found z order (max_order - order) j i others
    → let (pg, z') = split_pile order (j - order) i (set_level j others z) in
      Allocated lo z order pg (set_order pg order z')
alloc_from lo order j i others z valid found =
    let n = j - order in
    let e : order + n ≡ j = omega (arith, found.from) in
    let (valid1, loose1, pages1) =
      take_first lo j i others z valid (omega (arith, found.to)) found.level in
    let z1 = set_level j others z in
    let took =
      split_pile-Took lo order n i z1 valid1 (subst (λ k. IsLoose lo z1 k i) (sym e) loose1) in
    let (pg, z') = split_pile order n i z1 in
    record {
      valid = IsValid-set_order lo z' order pg order took.valid took.loose;
      loose = record {
        in_range = took.loose.in_range;
        fits = took.loose.fits;
        apart = took.loose.apart;
      };
      recorded = rw (==_self pg);
      pages = λ p. omega (arith, took.pages p, pages1 p, ap (λ k. inside k i p) e);
      same_size = took.same_size;
      same_base = took.same_base;
    }

-- A successful allocation hands out a pile of the order asked for: aligned to its size, inside the
-- zone, recorded in its opening page. Its pages were free and are no longer, all other pages are as
-- free as before, and the levels stay well formed.
pub alloc-Allocated :
    (lo order : ℕ) (z : Zone) (pg : ℕ) (z' : Zone)
    → IsValid lo z
    → alloc order z ≡ some (pg, z')
    → Allocated lo z order pg z'
unfolding alloc
alloc-Allocated lo order z pg z' valid e =
    let ((j, i, others), found, same) = map-eq_some _ (find_level (max_order - order) order z) e in
    subst (λ r. Allocated lo z order r.0 r.1) same
      (alloc_from lo order j i others z valid
        (find_level-Found (max_order - order) order z j i others found))

find_level-none :
    (left i k : ℕ) (z : Zone)
    → find_level left i z ≡ none
    → i ≤ k
    → k < i + left
    → z.alloc_levels k ≡ []
unfolding find_level
find_level-none zero i k z e h lt = absurd (omega arith)
find_level-none (suc left) i k z e h lt = elim (Bool-cases (i == k)) [
  | inl same ↦ rw (← ==→eq i k same) (ground arith)
  | inr other ↦ ground (arith, find_level-none left (i + 1) k z)
]

find_level-eq_none :
    (left i : ℕ) (z : Zone)
    → ((k : ℕ) → i ≤ k → k < i + left → z.alloc_levels k ≡ [])
    → find_level left i z ≡ none
unfolding find_level
find_level-eq_none zero i z all = refl
find_level-eq_none (suc left) i z all = ground (
  arith,
  all i (omega arith) (omega arith),
  find_level-eq_none left (i + 1) z (λ k h lt. all k (omega arith) (omega arith)),
)

-- An allocation fails exactly if every level from the order asked for up to the last is empty.
pub alloc-none_iff :
    (order : ℕ) (z : Zone)
    → (alloc order z ≡ none) ↔ ((k : ℕ) → order ≤ k → k < max_order → z.alloc_levels k ≡ [])
unfolding alloc
alloc-none_iff order z = (
  (λ e k h lt. find_level-none (max_order - order) order k z (ground arith) h (omega arith)),
  (λ all. rw (find_level-eq_none (max_order - order) order z (λ k h lt. all k h (omega arith)))),
)
