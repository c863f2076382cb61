-- ===== src/Paging/Cloned.antt =====
-- clone_map of arch/i386/paging.c by the translation of addresses.
use koowaldah.Base.{
  ℕ, ◌+◌, ◌*◌, ◌%◌, ◌^◌, ◌≤◌, ◌<◌, ◌≡◌, true, false, refl, sym, ap, ◌∙◌, arith, none, some,
  Bool-cases, inl, inr, if◌then◌else◌,
}
use koowaldah.Bitmap.{test_bit}
use koowaldah.Paging.{
  Memory, Mapping, pgd_idx, pgt_idx, page_of, entry, table_of, clone_loop, clone_order, clone_map,
}
use koowaldah.Paging.Flags.{entry_lem}
use koowaldah.Paging.Translate.{translate, translate-read, idx_bounds}
use koowaldah.Paging.Clone.{
  table, IsOld, IsSpace, new_link, table-IsAligned, loop-frame, loop-dir, loop-table, link_bit,
}

translate-absent :
    (cr3 virt : ℕ) (m : Memory)
    → test_bit (m (entry cr3 (pgd_idx virt))) 0 ≡ false
    → translate cr3 virt m ≡ none
unfolding translate
translate-absent cr3 virt m absent = rw absent refl

module _ (dir tables src virt : ℕ) (m : Memory) (s : IsSpace dir tables src m)
    (word : virt < 2 ^ 32) where
  abbrev copied : Memory
  copied = clone_loop 1024 0 dir src tables m

  first : tables ≡ table dir tables src m 0
  first = omega arith

  old-kept : (a : ℕ) → IsOld dir tables src m a → copied a ≡ m a
  old-kept a old =
      loop-frame dir tables src m s 1024 0 tables a m (omega arith) (λ _. first)
        (λ e _ lt. old.no_link e (omega arith)) (λ e j _ lt lj. old.no_entry e j (omega arith) lj)

  new-dir : copied (entry dir (pgd_idx virt)) ≡ new_link dir tables src m (pgd_idx virt)
  new-dir =
      let lt = (idx_bounds virt word).0 in
      loop-dir dir tables src m s 1024 0 tables (pgd_idx virt) m (omega arith) (λ _. first)
        (omega arith) (omega arith) (λ a old. refl)

  new-table : table_of dir virt copied ≡ table dir tables src m (pgd_idx virt)
  unfolding table_of page_of
  new-table = ap page_of new-dir ∙ omega (arith, s.start)

  new-entry :
      test_bit (m (entry src (pgd_idx virt))) 0 ≡ true
      → copied (entry (table_of dir virt copied) (pgt_idx virt))
        ≡ m (entry (table_of src virt m) (pgt_idx virt))
  unfolding table_of
  new-entry present =
      let lt = idx_bounds virt word in
      ap (λ (t : ℕ). copied (entry t (pgt_idx virt))) new-table
      ∙ loop-table dir tables src m s 1024 0 tables (pgd_idx virt) (pgt_idx virt) m (omega arith)
          (λ _. first) (omega arith) (omega arith) lt.1 (λ a old. refl) present

  copy-translate : translate dir virt copied ≡ translate src virt m
  copy-translate =
      let x = m (entry src (pgd_idx virt)) in
      let y = m (entry (table_of src virt m) (pgt_idx virt)) in
      let bit = link_bit dir tables src m s (pgd_idx virt) in
      elim (Bool-cases (test_bit x 0)) [
        | inl present ↦
            translate-read dir virt (new_link dir tables src m (pgd_idx virt)) y copied new-dir
              (new-entry present)
            ∙ ap
                (λ b.
                  if b
                  then (if test_bit y 0 then some (page_of y + virt % 2 ^ 12) else none)
                  else none)
                bit
            ∙ sym (translate-read src virt x y m refl refl)
        | inr absent ↦
            translate-absent dir virt copied (ap (λ (w : ℕ). test_bit w 0) new-dir ∙ bit ∙ absent)
            ∙ sym (translate-absent src virt m absent)
      ]

  src-dir : copied (entry src (pgd_idx virt)) ≡ m (entry src (pgd_idx virt))
  src-dir =
      let lt = (idx_bounds virt word).0 in
      old-kept (entry src (pgd_idx virt)) (s.old_link (pgd_idx virt) lt)

  src-entry :
      test_bit (m (entry src (pgd_idx virt))) 0 ≡ true
      → copied (entry (table_of src virt copied) (pgt_idx virt))
        ≡ m (entry (table_of src virt m) (pgt_idx virt))
  unfolding table_of
  src-entry present =
      let lt = idx_bounds virt word in
      ap (λ (w : ℕ). copied (entry (page_of w) (pgt_idx virt))) src-dir
      ∙ old-kept (entry (page_of (m (entry src (pgd_idx virt)))) (pgt_idx virt))
          (s.old_entry (pgd_idx virt) (pgt_idx virt) lt.0 lt.1 present)

  source-translate : translate src virt copied ≡ translate src virt m
  source-translate =
      let x = m (entry src (pgd_idx virt)) in
      let y = m (entry (table_of src virt m) (pgt_idx virt)) in
      elim (Bool-cases (test_bit x 0)) [
        | inl present ↦
            translate-read src virt x y copied src-dir (src-entry present)
            ∙ sym (translate-read src virt x y m refl refl)
        | inr absent ↦
            translate-absent src virt copied (ap (λ (w : ℕ). test_bit w 0) src-dir ∙ absent)
            ∙ sym (translate-absent src virt m absent)
      ]

-- With 1024 tables in pages of their own, the map that clone_map makes translates every address as the
-- map that is copied does, and this one translates as before.
pub clone_map_lem :
    (dir tables : ℕ) (map : Mapping) (m : Memory) (virt : ℕ)
    → IsSpace dir tables map.m_pgdir m
    → virt < 2 ^ 32
    → let (map', m') = clone_map dir tables map m in
      (translate map'.m_pgdir virt m' ≡ translate map.m_pgdir virt m)
      × (translate map.m_pgdir virt m' ≡ translate map.m_pgdir virt m)
unfolding clone_map
clone_map_lem dir tables map m virt s word = (
  copy-translate dir tables map.m_pgdir virt m s word,
  source-translate dir tables map.m_pgdir virt m s word,
)

-- The tables that clone_map asks get_pages for end at the order of the physical pages' tables. An entry
-- of the directory that is present and behind them has its table written all the same, to memory that
-- was not allocated.
pub clone_map-overrun :
    (dir tables phys_pgs e j : ℕ) (map : Mapping) (m : Memory)
    → IsSpace dir tables map.m_pgdir m
    → 2 ^ clone_order phys_pgs ≤ e
    → e < 1024
    → j < 1024
    → test_bit (m (entry map.m_pgdir e)) 0 ≡ true
    → (a : ℕ) × (tables + 4096 * 2 ^ clone_order phys_pgs ≤ a)
      × ((clone_map dir tables map m).1 a ≡ m (entry (page_of (m (entry map.m_pgdir e))) j))
unfolding clone_map
clone_map-overrun dir tables phys_pgs e j map m s behind le lj present =
    let src = map.m_pgdir in
    (
      entry (table dir tables src m e) j,
      omega (
        arith,
        entry_lem (table dir tables src m e) j (table-IsAligned dir tables src m s e le) lj,
        behind,
      ),
      loop-table dir tables src m s 1024 0 tables e j m (omega arith) (λ _. omega arith)
          (omega arith) (omega (arith, le)) lj (λ a old. refl) present,
    )
