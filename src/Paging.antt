-- ===== src/Paging.antt =====
-- arch/i386/paging.c and include/i386/pages.h: page directories and page tables, as words in memory.
-- A set of flags is the list of the numbers of its bits; `x & NOPAGE_MASK` is `page_of x`. What
-- get_pages gives for a directory and for its tables are arguments; the source does not test for NULL.
pub mod Flags
pub mod Translate
pub mod Map
pub mod Tables
pub mod Root
pub mod Copy
pub mod Clone
pub mod Cloned
use koowaldah.Base.{
  ℕ, zero, suc, ◌+◌, ◌-◌, ◌*◌, ◌/◌, ◌%◌, ◌^◌, List, [], ◌∷◌, ◌==◌, ltb, if◌then◌else◌, update, u32,
}
use koowaldah.Bitmap.{test_bit, or_bit}
use koowaldah.Klib.{log2}

-- The word at an address.
abbrev pub Memory : Type 0
Memory = ℕ → ℕ

-- struct mapping, without the memory areas.
pub record Mapping : Type 0 where
  pub m_pgdir : ℕ
  pub m_pgtable : ℕ
  pub m_nmma : ℕ

-- PTF_PRESENT, PTF_RW, PTF_USER and PTF_GLOBAL by the numbers of their bits.
abbrev pub ptf_present : ℕ
ptf_present = 0

abbrev pub ptf_rw : ℕ
ptf_rw = 1

abbrev pub ptf_user : ℕ
ptf_user = 2

abbrev pub ptf_global : ℕ
ptf_global = 8

abbrev pub pgt_entries : ℕ
pgt_entries = 1024

-- PGDIDX and PGTIDX.
unfoldable pub pgd_idx : ℕ → ℕ
pgd_idx addr = addr / 2 ^ 22

unfoldable pub pgt_idx : ℕ → ℕ
pgt_idx addr = addr % 2 ^ 22 / 2 ^ 12

-- PE_ADDR.
unfoldable pub page_of : ℕ → ℕ
page_of pe = pe - pe % 2 ^ 12

-- The address of a word of a table.
unfoldable pub entry : ℕ → ℕ → ℕ
entry table i = u32 (table + 4 * i)

-- A word with flags added by `|`.
unfoldable pub with_flags : List ℕ → ℕ → ℕ
with_flags [] w = w
with_flags (f ∷ fs) w = or_bit (with_flags fs w) f

-- PTE_DESC.
unfoldable pub pte_desc : ℕ → List ℕ → ℕ
unfolding with_flags
pte_desc addr attrs = with_flags attrs (u32 (addr * 2 ^ 12))

-- The table that a directory has for an address.
unfoldable pub table_of : ℕ → ℕ → Memory → ℕ
unfolding entry page_of pgd_idx
table_of pgdir virt m = page_of (m (entry pgdir (pgd_idx virt)))

-- __virt2physpg and __virt2phys, for the directory in %cr3.
unfoldable pub virt2physpg : ℕ → ℕ → Memory → ℕ
unfolding table_of pgt_idx
virt2physpg cr3 addr m = page_of (m (entry (table_of cr3 addr m) (pgt_idx addr)))

unfoldable pub virt2phys : ℕ → ℕ → Memory → ℕ
unfolding virt2physpg
virt2phys cr3 addr m = virt2physpg cr3 addr m + addr % 2 ^ 12

unfoldable pub map_page : Mapping → ℕ → ℕ → List ℕ → Memory → Memory
unfolding with_flags
map_page map virt phys flags m =
    let pgtable = table_of map.m_pgdir virt m in
    let dir = entry map.m_pgdir (pgd_idx virt) in
    update (update m dir (or_bit (m dir) ptf_present)) (entry pgtable (pgt_idx virt))
      (with_flags (ptf_present ∷ ptf_user ∷ flags) phys)

unfoldable pub unmap_page : Mapping → ℕ → Memory → Memory
unmap_page map virt m = update m (entry (table_of map.m_pgdir virt m) (pgt_idx virt)) 0

-- The loop of map_pages from page `i` on, with the pages that are left.
unfoldable pub map_pages_loop : ℕ → ℕ → Mapping → ℕ → ℕ → List ℕ → Memory → Memory
map_pages_loop zero i map virt phys flags m = m
map_pages_loop (suc left) i map virt phys flags m =
    map_pages_loop left (i + 1) map virt phys flags
      (map_page map (u32 (virt + 4096 * i)) (u32 (phys + 4096 * i)) flags m)

unfoldable pub map_pages : Mapping → ℕ → ℕ → ℕ → List ℕ → Memory → Memory
unfolding map_pages_loop
map_pages map virt phys n flags m = map_pages_loop n 0 map virt phys flags m

-- A loop that writes `value i` to the entries of a table from `i` on, as many as are left.
unfoldable pub write_entries : (ℕ → ℕ) → ℕ → ℕ → ℕ → Memory → Memory
write_entries value zero i table m = m
write_entries value (suc left) i table m =
    write_entries value left (i + 1) table (update m (entry table i) (value i))

-- The number of page tables for some pages.
unfoldable pub tables_for : ℕ → ℕ
tables_for pgs = pgs / pgt_entries + (if pgs % pgt_entries == 0 then 0 else 1)

-- The entries behind the last page, up to the end of its table.
unfoldable pub table_rest : ℕ → ℕ
unfolding tables_for
table_rest pgs = tables_for pgs * pgt_entries - pgs

-- init_rootmap, for the directory and the tables that get_pages gives.
unfoldable pub init_rootmap : ℕ → ℕ → ℕ → Memory → Memory
unfolding write_entries table_rest pte_desc
init_rootmap phys_pgs pgdir pgtable m =
    let tablesz = tables_for phys_pgs in
    let filled = write_entries (λ i. pte_desc i (ptf_present ∷ ptf_rw ∷ [])) phys_pgs 0 pgtable m in
    let cleared =
      write_entries (λ _. with_flags (ptf_user ∷ ptf_rw ∷ []) 0) (table_rest phys_pgs) phys_pgs
        pgtable filled in
    let tables =
      write_entries
        (λ i. with_flags (ptf_present ∷ ptf_rw ∷ ptf_global ∷ []) (entry pgtable (i * pgt_entries)))
        tablesz 0 pgdir cleared in
    write_entries (λ _. with_flags (ptf_user ∷ ptf_rw ∷ []) 0) (pgt_entries - tablesz) tablesz pgdir
      tables

-- The inner loop of clone_map: the entries of a table from `i` on.
unfoldable pub copy_entries : ℕ → ℕ → ℕ → ℕ → Memory → Memory
copy_entries zero i src dst m = m
copy_entries (suc left) i src dst m =
    copy_entries left (i + 1) src dst (update m (entry dst i) (m (entry src i)))

-- One round of clone_map: the entry `d` of the directory, and the table at `pgtable`. The new entry is
-- the flags of the old one and, by `|`, the address of the table, whose low bits are clear.
unfoldable pub clone_entry : ℕ → ℕ → ℕ → ℕ → Memory → Memory
clone_entry dst_dir src_dir d pgtable m =
    let old = m (entry src_dir d) in
    let m' = update m (entry dst_dir d) (old % 2 ^ 12 + pgtable) in
    let src = page_of (m' (entry src_dir d)) in
    if test_bit (m' (entry dst_dir d)) ptf_present
    then copy_entries pgt_entries 0 src pgtable m'
    else m'

unfoldable pub clone_loop : ℕ → ℕ → ℕ → ℕ → ℕ → Memory → Memory
clone_loop zero d dst_dir src_dir pgtable m = m
clone_loop (suc left) d dst_dir src_dir pgtable m =
    clone_loop left (d + 1) dst_dir src_dir (entry pgtable pgt_entries)
      (clone_entry dst_dir src_dir d pgtable m)

-- The order of the pages that clone_map asks for to hold the tables.
unfoldable pub clone_order : ℕ → ℕ
clone_order phys_pgs = log2 ((phys_pgs + pgt_entries - 1) / pgt_entries)

-- clone_map, for the directory and the tables that get_pages gives.
unfoldable pub clone_map : ℕ → ℕ → Mapping → Memory → Mapping × Memory
clone_map pgdir pgtable map m = (
  record { m_pgdir = pgdir; m_pgtable = pgtable; m_nmma = 0 },
  clone_loop pgt_entries 0 pgdir map.m_pgdir pgtable m,
)
