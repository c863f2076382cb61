-- ===== src/PageAlloc/Addr.antt =====
-- Page addresses: page_to_addr, addr_to_page, get_pages and put_pages of kernel/page_alloc.c.
use mathlib.Core.Path.{subst}
use mathlib.Core.Option
use koowaldah.Base.{
  ℕ, zero, suc, length, refl, Bool, ◌+◌, ◌-◌, ◌*◌, ◌/◌, ◌≤◌, ◌<◌, ◌≡◌, sym, ap, Option-cases, ◌∙◌,
  arith, ◌&&◌, ◌⊎◌, inl, inr, true, false, Option, none, some, List, [], ◌∷◌, ◌++◌, u32, ltb,
  lt→ltb, le→ltb, if◌then◌else◌, word,
}
use koowaldah.PageAlloc.{Zone, page_size, alloc, free}
use koowaldah.Base.Pow.{pow2_pos}
use koowaldah.PageAlloc.Cover.{cover, inside}
use koowaldah.PageAlloc.Inv.{IsValid, IsLoose}
use koowaldah.PageAlloc.Alloc.{alloc-Allocated, Allocated}
use koowaldah.PageAlloc.Free.{free_lem}

-- page_to_addr of the page with index `pg` of a zone
unfoldable pub page_to_addr : Zone → ℕ → ℕ
page_to_addr z pg = u32 (z.base + u32 (pg * page_size))

-- The end of a zone, as addr_to_page computes it.
abbrev pub zone_end : Zone → ℕ
zone_end z = u32 (z.base + u32 (z.total_pages * page_size))

-- addr_to_page over the zones of `global_mem_info.zone_list`: the number of the zone in the list and the
-- index of the page in it.
unfoldable pub addr_to_page : ℕ → List Zone → Option (ℕ × ℕ)
addr_to_page addr [] = none
addr_to_page addr (z ∷ zones) =
    if ltb z.base addr && ltb addr (zone_end z)
    then some (0, (addr - z.base) / page_size)
    else Option.map (λ (i, pg). (suc i, pg)) (addr_to_page addr zones)

-- get_pages. `none` is the fault of page_to_addr on the NULL of a failed allocation.
unfoldable pub get_pages : ℕ → Zone → Option (ℕ × Zone)
get_pages order z = elim (alloc order z) [
  | none ↦ none
  | some (pg, z') ↦ some (page_to_addr z' pg, z')
]

-- free_pages of a page of the zone with the number `i`.
unfoldable pub free_in : ℕ → ℕ → List Zone → Option (List Zone)
free_in i pg [] = none
free_in zero pg (z ∷ zones) = Option.map (λ z'. z' ∷ zones) (free pg z)
free_in (suc i) pg (z ∷ zones) = Option.map (λ zones'. z ∷ zones') (free_in i pg zones)

-- put_pages on the list of zones. `none` is a fault: the address is in no zone.
unfoldable pub put_pages : ℕ → List Zone → Option (List Zone)
unfolding free_in
put_pages addr zones = elim (addr_to_page addr zones) [
  | none ↦ none
  | some (i, pg) ↦ free_in i pg zones
]

-- The zone ends below the last word of the address space.
abbrev pub InSpace : Zone → Type 0
InSpace z = z.base + z.total_pages * page_size < word

-- The zone lies wholly above or wholly below the zones of a list.
abbrev pub ApartFrom : Zone → List Zone → Type 0
ApartFrom z [] = Unit
ApartFrom z (y ∷ zones) =
    InSpace y
    × ((y.base + y.total_pages * page_size ≤ z.base)
        ⊎ (z.base + z.total_pages * page_size ≤ y.base))
    × ApartFrom z zones

zone_end_lem : (z : Zone) → InSpace z → zone_end z ≡ z.base + z.total_pages * page_size
zone_end_lem z space = omega arith

page_to_addr_lem :
    (z : Zone) (pg : ℕ)
    → InSpace z
    → pg < z.total_pages
    → page_to_addr z pg ≡ z.base + pg * page_size
unfolding page_to_addr
page_to_addr_lem z pg space lt = omega arith

addr_in_zone :
    (z : Zone) (zones : List Zone) (addr pg off : ℕ)
    → InSpace z
    → 0 < pg
    → pg < z.total_pages
    → off < page_size
    → addr ≡ z.base + pg * page_size + off
    → addr_to_page addr (z ∷ zones) ≡ some (0, pg)
unfolding addr_to_page
addr_in_zone z zones addr pg off space pos lt small e =
    let low : ltb z.base addr ≡ true = lt→ltb z.base addr (omega arith) in
    let high : ltb addr (zone_end z) ≡ true = lt→ltb addr (zone_end z) (omega arith) in
    rw (low, high) (ap (λ (n : ℕ). some (0, n)) (omega arith))

apart_at :
    (z y : Zone) (pg off : ℕ)
    → (y.base + y.total_pages * page_size ≤ z.base) ⊎ (z.base + z.total_pages * page_size ≤ y.base)
    → page_to_addr z pg ≡ z.base + pg * page_size
    → pg < z.total_pages
    → off < page_size
    → let addr = page_to_addr z pg + off in
      (y.base + y.total_pages * page_size ≤ addr) ⊎ (addr ≤ y.base)
apart_at z y pg off (inl above) e lt small = inl (omega arith)
apart_at z y pg off (inr below) e lt small = inr (omega arith)

abbrev next_zone : ℕ × ℕ → ℕ × ℕ
next_zone (i, pg) = (suc i, pg)

addr_off_zone :
    (y : Zone) (zones : List Zone) (addr : ℕ)
    → InSpace y
    → (y.base + y.total_pages * page_size ≤ addr) ⊎ (addr ≤ y.base)
    → addr_to_page addr (y ∷ zones) ≡ Option.map next_zone (addr_to_page addr zones)
unfolding addr_to_page
addr_off_zone y zones addr space (inl above) =
    let high : ltb addr (zone_end y) ≡ false = le→ltb addr (zone_end y) (omega arith) in
    rw (high, either (ltb y.base addr)) refl
  where
    either : (b : Bool) → (b && false) ≡ false
    either true = refl
    either false = refl
addr_off_zone y zones addr space (inr below) = rw (le→ltb y.base addr below) refl

-- addr_to_page finds the page of every address in it, in a zone that ends below the last word of
-- the address space and does not overlap the zones listed before it. Page 0, which holds the array
-- of pages, is left out: its first address is taken for none of the zone's.
addr_to_page-page_to_addr :
    (before : List Zone) (z : Zone) (after : List Zone) (pg off : ℕ)
    → InSpace z
    → ApartFrom z before
    → 0 < pg
    → pg < z.total_pages
    → off < page_size
    → addr_to_page (page_to_addr z pg + off) (before ++ z ∷ after) ≡ some (length before, pg)
addr_to_page-page_to_addr [] z after pg off space apart pos lt small =
    addr_in_zone z after _ pg off space pos lt small (omega (arith, page_to_addr_lem z pg space lt))
addr_to_page-page_to_addr (y ∷ before) z after pg off space apart pos lt small =
    addr_off_zone y (before ++ z ∷ after) _ apart.0
      (apart_at z y pg off apart.1 (page_to_addr_lem z pg space lt) lt small)
    ∙ ap (Option.map next_zone)
        (addr_to_page-page_to_addr before z after pg off space apart.2 pos lt small)

free_in_lem :
    (before : List Zone) (z z' : Zone) (after : List Zone) (pg : ℕ)
    → free pg z ≡ some z'
    → free_in (length before) pg (before ++ z ∷ after) ≡ some (before ++ z' ∷ after)
unfolding free_in
free_in_lem [] z z' after pg e = rw e refl
free_in_lem (y ∷ before) z z' after pg e = rw (free_in_lem before z z' after pg e) refl

ApartFrom-same :
    (z z1 : Zone) (zones : List Zone)
    → z1.base ≡ z.base
    → z1.total_pages ≡ z.total_pages
    → ApartFrom z zones
    → ApartFrom z1 zones
ApartFrom-same z z1 [] base total apart = tt
ApartFrom-same z z1 (y ∷ zones) base total (space, side, apart) = (
  space,
  elim side [
    | inl above ↦ inl (omega (arith, base))
    | inr below ↦ inr (omega (arith, base, total))
  ],
  ApartFrom-same z z1 zones base total apart,
)

-- The list of zones with one in it that has all its pages back.
abbrev pub Restored : ℕ → Zone → List Zone → List Zone → Option (List Zone) → Type 0
Restored lo z before after zones =
    (z'' : Zone) × (zones ≡ some (before ++ z'' ∷ after))
    × IsValid lo z''
    × ((p : ℕ) → cover z'' p ≡ cover z p)

put_back :
    (lo order : ℕ) (z : Zone) (before after : List Zone) (pg : ℕ) (z1 : Zone)
    → 0 < lo
    → InSpace z
    → ApartFrom z before
    → Allocated lo z order pg z1
    → Restored lo z before after (put_pages (page_to_addr z1 pg) (before ++ z1 ∷ after))
unfolding put_pages
put_back lo order z before after pg z1 pos space apart a =
    let loose : IsLoose lo z1 (z1.order pg) pg =
      subst (λ k. IsLoose lo z1 k pg) (sym a.recorded) a.loose in
    let (z2, run, valid2, pages2, _) = free_lem lo pg z1 a.valid loose in
    let space1 : InSpace z1 = omega (arith, a.same_size, a.same_base) in
    let lt : pg < z1.total_pages = omega (arith, a.loose.fits, pow2_pos order) in
    let first : 0 < pg = omega (arith, a.loose.fits) in
    let start : page_to_addr z1 pg + 0 ≡ page_to_addr z1 pg = omega arith in
    let found =
      addr_to_page-page_to_addr before z1 after pg 0 space1
        (ApartFrom-same z z1 before a.same_base a.same_size apart) first lt (omega arith) in
    (
      z2,
      rw (rw start at found, put_pages) (free_in_lem before z1 z2 after pg run),
      valid2,
      λ p. omega (arith, pages2 p, a.pages p, ap (λ k. inside k pg p) a.recorded),
    )

-- put_pages undoes get_pages: where the zone that get_pages takes the pages from has well-formed levels,
-- of pages from 1 on, ends below the last word of the address space and does not overlap the zones that
-- are listed before it, what a successful get_pages returned can be put back, with the zone found again
-- in the list of all zones. Then each page lies in as many free piles of the zone as before the call,
-- its levels are well formed, and the other zones are as they were.
pub put_pages-get_pages :
    (lo order : ℕ) (z : Zone) (before after : List Zone) (addr : ℕ) (z' : Zone)
    → IsValid lo z
    → 0 < lo
    → InSpace z
    → ApartFrom z before
    → get_pages order z ≡ some (addr, z')
    → Restored lo z before after (put_pages addr (before ++ z' ∷ after))
unfolding get_pages
put_pages-get_pages lo order z before after addr z' valid pos space apart e =
    elim (Option-cases (alloc order z)) [
      | inl fail ↦ absurd (ground arith)
      | inr ((pg, z1), got) ↦
          let q : ◌≡◌ {A = ℕ × Zone} (page_to_addr z1 pg, z1) (addr, z') = ground arith in
          subst (λ r. Restored lo z before after (put_pages r.0 (before ++ r.1 ∷ after))) q
            (put_back lo order z before after pg z1 pos space apart
              (alloc-Allocated lo order z pg z1 valid got))
    ]
