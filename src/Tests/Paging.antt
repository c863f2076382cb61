-- ===== src/Tests/Paging.antt =====
-- arch/i386/paging.c: a directory at 4096 whose only table, at 8192, is for the user's addresses from
-- 0x40000000 on.
use koowaldah.Base.{
  ℕ, ◌+◌, ◌*◌, ◌/◌, ◌%◌, ◌^◌, ◌≤◌, ◌<◌, ◌≡◌, refl, arith, [], ◌∷◌, none, some, update, ◌==◌, ltb,
  inl, if◌then◌else◌,
}
use koowaldah.Bitmap.{test_bit}
use koowaldah.Klib.{log2}
use koowaldah.Paging.{
  Memory, Mapping, pgd_idx, pgt_idx, page_of, entry, table_of, map_page, init_rootmap, clone_map,
  clone_order, tables_for,
}
use koowaldah.Paging.Translate.{translate, IsDirectory}
use koowaldah.Paging.Map.{by_table, map_page_lem}
use koowaldah.Paging.Root.{IsRoom, init_rootmap_lem}
use koowaldah.Paging.Clone.{IsOld, IsSpace}
use koowaldah.Paging.Cloned.{clone_map_lem, clone_map-overrun}

abbrev memory : Memory
memory = update (λ _. 0) 5120 8193

abbrev map : Mapping
map = record { m_pgdir = 4096; m_pgtable = 8192; m_nmma = 0 }

directory : (virt : ℕ) → virt / 2 ^ 22 ≡ 256 → virt < 2 ^ 32 → IsDirectory 4096 virt memory
unfolding table_of pgd_idx
directory virt e word = record {
  aligned = (omega arith, omega arith);
  word = word;
  word_entry = ground arith;
  outside = λ x. ground (arith, e);
}

abbrev user : ℕ
user = 1073745920

-- The same directory with its entry not present yet, and an entry in the table for the page behind.
abbrev reserved : Memory
reserved = update (update (λ _. 0) 5120 8192) 8200 24577

reserved-IsDirectory :
    (virt : ℕ) → virt / 2 ^ 22 ≡ 256 → virt < 2 ^ 32 → IsDirectory 4096 virt reserved
unfolding table_of pgd_idx
reserved-IsDirectory virt e word = record {
  aligned = (omega arith, omega arith);
  word = word;
  word_entry = ground arith;
  outside = λ x. ground (arith, e);
}

map_page_lem_example : translate 4096 (user + 4100) (map_page map user 20480 (1 ∷ []) reserved) ≡ (
    if user / 2 ^ 12 == (user + 4100) / 2 ^ 12
    then some (20480 + (user + 4100) % 2 ^ 12)
    else if pgd_idx user == pgd_idx (user + 4100)
    then by_table 4096 (user + 4100) reserved
    else translate 4096 (user + 4100) reserved)
unfolding pgd_idx
map_page_lem_example =
    map_page_lem map user 20480 (1 ∷ []) reserved (user + 4100)
      (reserved-IsDirectory user refl (omega arith))
      (reserved-IsDirectory (user + 4100) refl (omega arith)) (λ ne. absurd (ne refl)) refl
      (omega arith, tt)

-- The first mapping under an entry brings the rest of its table to light.
uncovered : by_table 4096 (user + 4100) reserved ≡ some 24580
unfolding table_of pgd_idx pgt_idx entry page_of test_bit
uncovered = refl

room : IsRoom 3 4096 8192
unfolding tables_for
room = record {
  directory = (omega arith, omega arith);
  tables = refl;
  room = omega arith;
  few = omega arith;
  apart = inl (omega arith);
}

init_rootmap_lem_example :
    translate 4096 5000 (init_rootmap 3 4096 8192 memory)
    ≡ (if ltb (5000 / 2 ^ 12) 3 then some 5000 else none)
init_rootmap_lem_example = init_rootmap_lem 3 4096 8192 memory 5000 room (omega arith)

old : (a : ℕ) → a < 16384 → IsOld 16384 65536 4096 memory a
unfolding entry
old a lt = record {
  no_link = λ e le x. omega (arith, x);
  no_entry = λ e j le lj x. omega (arith, x);
}

space : IsSpace 16384 65536 4096 memory
unfolding entry page_of test_bit
space = record {
  directory = (omega arith, omega arith);
  start = refl;
  room = omega arith;
  apart = λ e f j le lf lj x. omega (arith, x);
  old_link = λ d lt. old (entry 4096 d) (omega arith);
  old_entry = λ d j lt lj present. old (entry (page_of (memory (entry 4096 d))) j) (ground arith);
}

clone_map_lem_example :
    let (map', m') = clone_map 16384 65536 map memory in
    (translate map'.m_pgdir user m' ≡ translate 4096 user memory)
    × (translate 4096 user m' ≡ translate 4096 user memory)
clone_map_lem_example = clone_map_lem 16384 65536 map memory user space (omega arith)

clone_map-overrun_example :
    (a : ℕ) × (65536 + 4096 * 2 ^ clone_order 1024 ≤ a)
    × ((clone_map 16384 65536 map memory).1 a
        ≡ memory (entry (page_of (memory (entry 4096 256))) 7))
unfolding clone_order log2 entry test_bit
clone_map-overrun_example =
    clone_map-overrun 16384 65536 1024 256 7 map memory space (omega arith) (omega arith)
      (omega arith) refl
