-- ===== src/Paging/Root.antt =====
-- init_rootmap of arch/i386/paging.c: the map of the kernel.
use koowaldah.Base.{
  ℕ, ◌+◌, ◌-◌, ◌*◌, ◌/◌, ◌%◌, ◌^◌, ◌≤◌, ◌<◌, ◌≡◌, ◌⊎◌, true, false, refl, ap, ◌∙◌, arith, [], ◌∷◌,
  none, some, Bool-cases, inl, inr, ltb, ltb→lt, ltb→le, lt→ltb, le→ltb, if◌then◌else◌, u32,
}
use koowaldah.Bitmap.{test_bit, or_bit}
use koowaldah.Paging.{
  Memory, pgd_idx, pgt_idx, page_of, entry, with_flags, table_of, pte_desc, write_entries,
  tables_for, table_rest, init_rootmap,
}
use koowaldah.Paging.Flags.{page_of-with_flags, page_of-aligned, or_bit_self, IsAligned}
use koowaldah.Paging.Translate.{translate, translate-read}
use koowaldah.Paging.Tables.{
  write_entries_lem, write_entries-above, write_entries-hit, tables_for_lem, rest_lem,
}

-- The pages that get_pages gave for the directory and the tables, in memory of 32 bits.
pub record IsRoom (pgs pgdir pgtable : ℕ) : Type 0 where
  pub directory : IsAligned pgdir
  pub tables : pgtable % 2 ^ 12 ≡ 0
  pub room : pgtable + 4096 * tables_for pgs ≤ 2 ^ 32
  pub few : pgs ≤ 2 ^ 20
  pub apart : (pgdir + 4096 ≤ pgtable) ⊎ (pgtable + 4096 * tables_for pgs ≤ pgdir)

module _ (pgs pgdir pgtable : ℕ) (m : Memory) (r : IsRoom pgs pgdir pgtable) where
  abbrev root : Memory
  root = init_rootmap pgs pgdir pgtable m

  abbrev absent : ℕ
  absent = with_flags (2 ∷ 1 ∷ []) 0

  abbrev link : ℕ → ℕ
  link d = with_flags (0 ∷ 1 ∷ 8 ∷ []) (entry pgtable (d * 1024))

  root-dir :
      (d : ℕ)
      → d < 1024
      → root (pgdir + 4 * d) ≡ (if ltb d (tables_for pgs) then link d else absent)
  unfolding init_rootmap
  root-dir d lt =
      let t = tables_for pgs in
      let size = tables_for_lem pgs in
      elim (Bool-cases (ltb d t)) [
        | inl below ↦
            let h = ltb→lt d t below in
            rw below (
              write_entries_lem (λ _. absent) (1024 - t) t pgdir _ (pgdir + 4 * d) (omega arith)
                (omega arith)
              ∙ write_entries-hit link t 0 pgdir d _ (omega arith) (omega arith) (omega arith))
        | inr above ↦
            let h = ltb→le d t above in
            rw above (
              write_entries-hit (λ _. absent) (1024 - t) t pgdir d _ (omega arith) (omega arith)
                (omega arith))
      ]

  outside :
      (value : ℕ → ℕ) (left i k : ℕ) (n : Memory)
      → i + left ≤ 1024
      → k < tables_for pgs * 1024
      → write_entries value left i pgdir n (pgtable + 4 * k) ≡ n (pgtable + 4 * k)
  outside value left i k n fit lt = elim r.apart [
    | inl before ↦
        write_entries-above value left i pgdir n (pgtable + 4 * k) (omega (arith, r.room, before))
          (omega (arith, before))
    | inr behind ↦
        write_entries_lem value left i pgdir n (pgtable + 4 * k) (omega (arith, r.directory))
          (omega (arith, behind))
  ]

  root-table :
      (k : ℕ)
      → k < tables_for pgs * 1024
      → root (pgtable + 4 * k) ≡ (if ltb k pgs then pte_desc k (0 ∷ 1 ∷ []) else absent)
  unfolding init_rootmap
  root-table k lt =
      let t = tables_for pgs in
      let size = tables_for_lem pgs in
      let rest = rest_lem pgs in
      outside (λ _. absent) (1024 - t) t k _ (omega (arith, size, r.few)) lt
      ∙ outside link t 0 k _ (omega (arith, size, r.few)) lt
      ∙ elim (Bool-cases (ltb k pgs)) [
        | inl below ↦
            let h = ltb→lt k pgs below in
            rw below (
              write_entries_lem (λ _. absent) (table_rest pgs) pgs pgtable _ (pgtable + 4 * k)
                (omega (arith, rest, r.room)) (omega arith)
              ∙ write_entries-hit (λ i. pte_desc i (0 ∷ 1 ∷ [])) pgs 0 pgtable k m
                  (omega (arith, rest, r.room)) (omega arith) (omega arith))
        | inr above ↦
            let h = ltb→le k pgs above in
            rw above (
              write_entries-hit (λ _. absent) (table_rest pgs) pgs pgtable k _
                (omega (arith, rest, r.room)) (omega arith) (omega (arith, rest)))
      ]

  absent_bit : test_bit absent 0 ≡ false
  unfolding with_flags or_bit test_bit
  absent_bit = refl

  link_bit : (d : ℕ) → test_bit (link d) 0 ≡ true
  unfolding with_flags
  link_bit d = or_bit_self (with_flags (1 ∷ 8 ∷ []) (entry pgtable (d * 1024))) 0

  start : (d : ℕ) → d < tables_for pgs → entry pgtable (d * 1024) ≡ pgtable + 4096 * d
  unfolding entry
  start d lt = omega (arith, lt, r.room)

  link_page : (d : ℕ) → d < tables_for pgs → page_of (link d) ≡ pgtable + 4096 * d
  link_page d lt =
      page_of-with_flags (0 ∷ 1 ∷ 8 ∷ []) (entry pgtable (d * 1024))
        (omega arith, (omega arith, (omega arith, tt)))
      ∙ ap page_of (start d lt)
      ∙ page_of-aligned (pgtable + 4096 * d) (omega (arith, r.tables))

  desc_page : (k : ℕ) → k < pgs → page_of (pte_desc k (0 ∷ 1 ∷ [])) ≡ k * 4096
  unfolding pte_desc
  desc_page k lt =
      page_of-with_flags (0 ∷ 1 ∷ []) (u32 (k * 2 ^ 12)) (omega arith, (omega arith, tt))
      ∙ ap page_of small
      ∙ page_of-aligned (k * 4096) (omega arith)
    where
      small : u32 (k * 2 ^ 12) ≡ k * 4096
      small = omega (arith, lt, r.few)

  desc_bit : (k : ℕ) → test_bit (pte_desc k (0 ∷ 1 ∷ [])) 0 ≡ true
  unfolding pte_desc with_flags
  desc_bit k = or_bit_self (with_flags (1 ∷ []) (u32 (k * 2 ^ 12))) 0

  root-beyond :
      (virt : ℕ)
      → virt < 2 ^ 32
      → tables_for pgs ≤ pgd_idx virt
      → root (entry pgdir (pgd_idx virt)) ≡ absent
  unfolding pgd_idx entry
  root-beyond virt word le =
      let d = virt / 2 ^ 22 in
      let here : u32 (pgdir + 4 * d) ≡ pgdir + 4 * d = omega (arith, r.directory) in
      ap root here ∙ root-dir d (omega arith) ∙ rw (le→ltb d (tables_for pgs) le) refl

  -- The entry of an address in the table that the directory has for it.
  root-entry :
      (virt : ℕ)
      → virt < 2 ^ 32
      → pgd_idx virt < tables_for pgs
      → (root (entry pgdir (pgd_idx virt)) ≡ link (pgd_idx virt))
        × (root (entry (table_of pgdir virt root) (pgt_idx virt))
            ≡ (if ltb (virt / 2 ^ 12) pgs then pte_desc (virt / 2 ^ 12) (0 ∷ 1 ∷ []) else absent))
  unfolding pgd_idx pgt_idx table_of entry
  root-entry virt word lt =
      let d = virt / 2 ^ 22 in
      let here : u32 (pgdir + 4 * d) ≡ pgdir + 4 * d = omega (arith, r.directory) in
      let dir : root (u32 (pgdir + 4 * d)) ≡ link d =
        ap root here ∙ root-dir d (omega arith) ∙ rw (lt→ltb d (tables_for pgs) lt) refl in
      let table : page_of (root (u32 (pgdir + 4 * d))) ≡ pgtable + 4096 * d =
        ap page_of dir ∙ link_page d lt in
      let place : u32 (pgtable + 4096 * d + 4 * (virt % 2 ^ 22 / 2 ^ 12))
          ≡ pgtable + 4 * (virt / 2 ^ 12) =
        omega (arith, r.room, lt) in
      (
        dir,
        ap (λ (t : ℕ). root (u32 (t + 4 * (virt % 2 ^ 22 / 2 ^ 12)))) table
            ∙ ap root place
            ∙ root-table (virt / 2 ^ 12) (omega (arith, lt)),
      )

  root-inside :
      (virt : ℕ)
      → virt < 2 ^ 32
      → pgd_idx virt < tables_for pgs
      → translate pgdir virt root ≡ (if ltb (virt / 2 ^ 12) pgs then some virt else none)
  root-inside virt word lt =
      let (dir, pte) = root-entry virt word lt in
      let k = virt / 2 ^ 12 in
      let whole : k * 4096 + virt % 2 ^ 12 ≡ virt = omega arith in
      elim (Bool-cases (ltb k pgs)) [
        | inl below ↦
            translate-read pgdir virt (link (pgd_idx virt)) (pte_desc k (0 ∷ 1 ∷ [])) root dir
              (pte ∙ rw below refl)
            ∙ rw
                (
                  link_bit (pgd_idx virt),
                  desc_bit k,
                  desc_page k (ltb→lt k pgs below),
                  whole,
                  below,
                )
                refl
        | inr above ↦
            translate-read pgdir virt (link (pgd_idx virt)) absent root dir (pte ∙ rw above refl)
            ∙ rw (link_bit (pgd_idx virt), absent_bit, above) refl
      ]

  root-outside :
      (virt : ℕ)
      → virt < 2 ^ 32
      → tables_for pgs ≤ pgd_idx virt
      → translate pgdir virt root ≡ (if ltb (virt / 2 ^ 12) pgs then some virt else none)
  unfolding pgd_idx
  root-outside virt word le =
      let beyond : ltb (virt / 2 ^ 12) pgs ≡ false =
        le→ltb (virt / 2 ^ 12) pgs (omega (arith, le, (tables_for_lem pgs).0)) in
      translate-read pgdir virt absent _ root (root-beyond virt word le) refl
      ∙ rw (absent_bit, beyond) refl

-- With the directory and the tables in pages of their own, behind init_rootmap every address of the
-- physical memory, of `pgs` pages, is sent to itself, and no other address is mapped.
pub init_rootmap_lem :
    (pgs pgdir pgtable : ℕ) (m : Memory) (virt : ℕ)
    → IsRoom pgs pgdir pgtable
    → virt < 2 ^ 32
    → translate pgdir virt (init_rootmap pgs pgdir pgtable m)
      ≡ (if ltb (virt / 2 ^ 12) pgs then some virt else none)
init_rootmap_lem pgs pgdir pgtable m virt r word =
    elim (Bool-cases (ltb (pgd_idx virt) (tables_for pgs))) [
      | inl below ↦
          root-inside pgs pgdir pgtable m r virt word (ltb→lt (pgd_idx virt) (tables_for pgs) below)
      | inr above ↦
          root-outside pgs pgdir pgtable m r virt word
            (ltb→le (pgd_idx virt) (tables_for pgs) above)
    ]
