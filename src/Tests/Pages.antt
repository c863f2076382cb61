-- ===== src/Tests/Pages.antt =====
-- kernel/page_alloc.c at a zone of four pages, the first of which holds the array of pages.
use mathlib.Core.Option
use mathlib.Core.Path.{subst}
use koowaldah.Base.{
  inr, ℕ, zero, suc, sym, ◌+◌, ◌≤◌, ◌<◌, List, [], ◌∷◌, ◌≡◌, ◌↔◌, refl, some, none, arith,
}
use koowaldah.PageAlloc.{Zone, max_order, init, idx_order, consumed_pages, alloc, free}
use koowaldah.PageAlloc.Cover.{inside, cover_level, cover_below, cover}
use koowaldah.PageAlloc.Inv.{Entries, IsValid, IsLoose}
use koowaldah.PageAlloc.Alloc.{Allocated, alloc-Allocated, alloc-none_iff}
use koowaldah.PageAlloc.Free.{IsMerged, free_lem}
use koowaldah.PageAlloc.Init.{range, init_lem}
use koowaldah.PageAlloc.Addr.{page_to_addr, get_pages, put_pages, Restored, put_pages-get_pages}

abbrev levels : ℕ → List ℕ
levels zero = 1 ∷ []
levels (suc zero) = 2 ∷ []
levels _ = []

abbrev orders : ℕ → ℕ
orders zero = 0
orders (suc zero) = 0
orders (suc (suc zero)) = 1
orders _ = 0

-- The zone as mem_zone_init leaves it.
abbrev ready : Zone
ready = record {
  base = 0x100000;
  total_pages = 4;
  free_count = 3;
  alloc_levels = levels;
  order = orders;
  virt = λ _. 0;
  area = record { prev = λ i. i; next = λ i. i };
}

levels_of_init :
    Option.map (λ z. z.alloc_levels 0 ∷ z.alloc_levels 1 ∷ z.alloc_levels 2 ∷ []) (init ready)
    ≡ some ((1 ∷ []) ∷ (2 ∷ []) ∷ [] ∷ [])
unfolding init idx_order consumed_pages
levels_of_init = refl

ready-Entries :
    (k : ℕ) → k < max_order → Entries ready.order 1 ready.total_pages k (ready.alloc_levels k)
unfolding idx_order
ready-Entries zero h = omega arith
ready-Entries (suc zero) h = omega arith
ready-Entries (suc (suc k)) h = tt

ready_once : (p : ℕ) → cover ready p ≤ 1
unfolding cover_below cover_level inside
ready_once p = ground arith

ready-IsValid : IsValid 1 ready
ready-IsValid = record { entries = ready-Entries; once = ready_once }

-- What is left after the pile of two pages is handed out, with its opening page.
abbrev after : ℕ × Zone
unfolding alloc
after = Option.get_or (alloc 1 ready) (0, ready)

after_levels : (after.0 ≡ 2) × (after.1.alloc_levels 0 ≡ 1 ∷ []) × (after.1.alloc_levels 1 ≡ [])
unfolding alloc
after_levels = (refl, refl, refl)

alloc-Allocated_example : Allocated 1 ready 1 2 after.1
unfolding alloc
alloc-Allocated_example = alloc-Allocated 1 1 ready 2 after.1 ready-IsValid refl

alloc-none_iff_example :
    (alloc 2 ready ≡ none) ↔ ((k : ℕ) → 2 ≤ k → k < max_order → ready.alloc_levels k ≡ [])
alloc-none_iff_example = alloc-none_iff 2 ready

handed_out : Allocated 1 ready 1 2 after.1
unfolding alloc
handed_out = alloc-Allocated 1 1 ready 2 after.1 ready-IsValid refl

handed_out-IsLoose : IsLoose 1 after.1 (after.1.order 2) 2
handed_out-IsLoose = subst (λ k. IsLoose 1 after.1 k 2) (sym handed_out.recorded) handed_out.loose

free_lem_example :
    (z : Zone) × (free 2 after.1 ≡ some z)
    × IsValid 1 z
    × ((p : ℕ) → cover z p ≡ cover after.1 p + inside (after.1.order 2) 2 p)
    × IsMerged (after.1.order 2) 2 z
free_lem_example = free_lem 1 2 after.1 handed_out.valid handed_out-IsLoose

init_lem_example :
    (z : Zone) × (init ready ≡ some z) × IsValid 1 z × ((p : ℕ) → cover z p ≡ range 1 4 p)
unfolding consumed_pages
init_lem_example = init_lem ready

-- A zone above the one that is used.
abbrev high_zone : Zone
high_zone = record ready { base = 0x900000 }

put_pages-get_pages_example :
    Restored 1 ready (high_zone ∷ []) [] (put_pages 0x102000 (high_zone ∷ after.1 ∷ []))
unfolding get_pages alloc page_to_addr
put_pages-get_pages_example =
    put_pages-get_pages 1 1 ready (high_zone ∷ []) [] 0x102000 after.1 ready-IsValid (omega arith)
      (omega arith) (omega arith, inr (omega arith), tt) refl
