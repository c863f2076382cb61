-- ===== src/PageAlloc.antt =====
-- kernel/page_alloc.c: the buddy allocator of one memory zone.
-- A page is named by its index in the zone's array of `struct page` (the array is built once, with
-- `p_pool[i].index = i`, so pointer differences are differences of indices). A level's klist0 list
-- is the list of the opening pages of its piles, first to last: by Klist.Laws `klist0_append` at the
-- head is `∷`, `klist0_prepend` at the head is `++ x ∷ []`, and `klist0_unlink` is removal.
pub mod Addr
pub mod Alloc
pub mod Cover
pub mod Buddy
pub mod Free
pub mod Init
pub mod Inv
pub mod Order
use koowaldah.Base.{
  ℕ, zero, suc, ◌+◌, ◌-◌, ◌*◌, ◌/◌, ◌%◌, ◌^◌, Bool, true, false, not, ◌&&◌, Option, none, some,
  List, [], ◌∷◌, ◌++◌, ◌==◌, ltb, if◌then◌else◌, update, u32, sub32,
}
use koowaldah.Klist
use koowaldah.Klist.{Links}
use mathlib.Core.Option

abbrev pub max_order : ℕ
max_order = 11

abbrev pub page_size : ℕ
page_size = 4096

-- NOPAGE_ADDR
abbrev pub nopage_addr : ℕ
nopage_addr = 0xffffffff

-- sizeof(struct page) on i386: two words, two klist0 nodes, the order and the zone.
abbrev pub sizeof_page : ℕ
sizeof_page = 32

-- `struct mem_zone` with the fields of its pages, by page index. `alloc_levels` is meant below
-- `max_order` only. `area` links the pages' `area_list` nodes.
pub record Zone : Type 0 where
  pub base : ℕ
  pub total_pages : ℕ
  pub free_count : ℕ
  pub alloc_levels : ℕ → List ℕ
  pub order : ℕ → ℕ
  pub virt : ℕ → ℕ
  pub area : Links

-- The loop of idx_order, with the rounds that are left before `i` is `MAX_ORDER - 1`.
idx_loop : ℕ → ℕ → ℕ → ℕ
idx_loop zero i index = i
idx_loop (suc left) i index =
    let more = idx_loop left (i + 1) (index / 2) in if index % 2 == 0 then more else i

unfoldable pub idx_order : ℕ → ℕ
unfolding idx_loop
idx_order index = idx_loop (max_order - 1) 0 index

-- `pg->private.order = o`
abbrev pub set_order : ℕ → ℕ → Zone → Zone
set_order pg o z = record z { order = update z.order pg o }

abbrev pub set_level : ℕ → List ℕ → Zone → Zone
set_level k piles z = record z { alloc_levels = update z.alloc_levels k piles }

-- klist0_append(&pg->list, &zone->alloc_levels[k])
abbrev pub push_pile : ℕ → ℕ → Zone → Zone
push_pile k pg z = set_level k (pg ∷ z.alloc_levels k) z

-- The search of __alloc_pages for a level with a pile, with the levels that are left to look at:
-- the level, its first pile, and the others.
find_level : ℕ → ℕ → Zone → Option (ℕ × ℕ × List ℕ)
find_level zero i z = none
find_level (suc left) i z = elim (z.alloc_levels i) [
  | [] ↦ find_level left (i + 1) z
  | pile ∷ others ↦ some (i, pile, others)
]

-- The loop that passes the unused halves of a pile of order `order + n` to the lower levels.
split_pile : ℕ → ℕ → ℕ → Zone → ℕ × Zone
split_pile order zero pile z = (pile, z)
split_pile order (suc n) pile z =
    split_pile order n (pile + 2 ^ (order + n))
      (push_pile (order + n) pile (set_order pile (order + n) z))

-- What __alloc_pages does with the level and the pile that it found.
take_pile : ℕ → ℕ × ℕ × List ℕ → Zone → ℕ × Zone
unfolding split_pile
take_pile order (i, pile, others) z =
    let (pg, z') = split_pile order (i - order) pile (set_level i others z) in
    (pg, set_order pg order z')

-- __alloc_pages
unfoldable pub alloc : ℕ → Zone → Option (ℕ × Zone)
unfolding find_level take_pile
alloc order z =
    Option.map (λ found. take_pile order found z) (find_level (max_order - order) order z)

-- One walk of free_pages over a level: the page that opens the merged pile, and the level without
-- the neighbour.
pub find_buddy : ℕ → ℕ → List ℕ → Option (ℕ × List ℕ)
find_buddy order pg [] = none
find_buddy order pg (neighbour ∷ piles) =
    if (pg == neighbour + 2 ^ order) && ltb order (idx_order neighbour)
    then some (neighbour, piles)
    else if (neighbour == pg + 2 ^ order) && ltb order (idx_order pg)
    then some (pg, piles)
    else Option.map (λ (p, rest). (p, neighbour ∷ rest)) (find_buddy order pg piles)

-- The do-while of free_pages. `none` when the fuel runs out.
merge : ℕ → ℕ → Zone → Option (ℕ × Zone)
merge zero pg z = none
merge (suc fuel) pg z = elim (find_buddy (z.order pg) pg (z.alloc_levels (z.order pg))) [
  | none ↦ some (pg, z)
  | some (pg', piles) ↦
      let z' = set_order pg' (z.order pg' + 1) (set_level (z.order pg) piles z) in
      let more = merge fuel pg' z' in
      if ltb (z'.order pg') max_order && not (z.order pg == z'.order pg')
      then more
      else some (pg', z')
]

-- What free_pages does with the merged pile.
abbrev insert_merged : ℕ → Zone → Zone
insert_merged pg z = record (push_pile (z.order pg) pg z) {
  area = if Klist.is_empty pg z.area then z.area else Klist.unlink pg z.area;
}

-- free_pages, with fuel for as many rounds as there are levels.
unfoldable pub free : ℕ → Zone → Option Zone
unfolding merge find_buddy
free pg z = Option.map (λ (pg', z'). insert_merged pg' z') (merge max_order pg z)

-- `while ((1 << order) > pages_left) order--;`
fit_order : ℕ → ℕ → ℕ
fit_order zero left = zero
fit_order (suc o) left =
    let lower = fit_order o left in if ltb left (2 ^ suc o) then lower else suc o

-- The loop of mem_zone_init that fills the levels. `none` when the fuel runs out.
fill_levels : ℕ → ℕ → Zone → Option Zone
fill_levels zero i z = none
fill_levels (suc fuel) i z =
    let o = fit_order (idx_order i) (z.total_pages - i) in
    let z' = set_level o (z.alloc_levels o ++ i ∷ []) (set_order i o z) in
    let more = fill_levels fuel (i + 2 ^ o) z' in if ltb i z.total_pages then more else some z

unfoldable pub consumed_pages : ℕ → ℕ
consumed_pages total = u32 (sizeof_page * total) / page_size + 1

-- The two loops of mem_zone_init that reset the pages and the levels, and the count of free pages.
abbrev pub reset_pages : Zone → Zone
reset_pages z = record z {
  free_count = sub32 z.total_pages (consumed_pages z.total_pages);
  alloc_levels = λ _. [];
  order = λ i. if ltb i z.total_pages then 0 else z.order i;
  virt = λ i. if ltb i z.total_pages then nopage_addr else z.virt i;
  area = record {
    prev = λ i. if ltb i z.total_pages then i else z.area.prev i;
    next = λ i. if ltb i z.total_pages then i else z.area.next i;
  };
}

-- mem_zone_init, less the list of zones.
unfoldable pub init : Zone → Option Zone
unfolding fill_levels fit_order
init z = fill_levels (suc z.total_pages) (consumed_pages z.total_pages) (reset_pages z)
