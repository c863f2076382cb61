-- ===== src/Paging/Map.antt =====
-- arch/i386/paging.c: map_page and unmap_page by the translation of addresses.
use koowaldah.Base.{
  ℕ, ◌+◌, ◌/◌, ◌%◌, ◌^◌, ◌<◌, ◌≡◌, ◌≢◌, Bool, true, false, refl, sym, ap, ◌∙◌, arith, List, ◌∷◌,
  Option, none, some, ◌==◌, ==→eq, ==→ne, Bool-cases, inl, inr, if◌then◌else◌, update,
}
use mathlib.Core.Path.{fun_ext}
use koowaldah.Bitmap.{test_bit, or_bit}
use koowaldah.Paging.{
  Memory, Mapping, pgd_idx, pgt_idx, page_of, entry, with_flags, table_of, virt2physpg, virt2phys,
  map_page, unmap_page,
}
use koowaldah.Paging.Flags.{
  AreFlags, page_of-with_flags, page_of-or_bit, page_of-aligned, or_bit_self,
}
use koowaldah.Paging.Translate.{
  translate, page_idx, IsDirectory, changed, dir_self, dir_other, table_kept, entry_self,
  entry_other, same_table,
}

-- The translation of an address, from the entries that the processor reads.
translate-entries :
    (pgdir virt t : ℕ) (m : Memory)
    → table_of pgdir virt m ≡ t
    → translate pgdir virt m ≡ (
        if test_bit (m (entry pgdir (pgd_idx virt))) 0
        then (if test_bit (m (entry t (pgt_idx virt))) 0
            then some (page_of (m (entry t (pgt_idx virt))) + virt % 2 ^ 12)
            else none)
        else none)
unfolding translate virt2phys virt2physpg
translate-entries pgdir virt t m e = rw e refl

-- What an address is sent to once the directory has an entry for its table: what this table says.
abbrev pub by_table : ℕ → ℕ → Memory → Option ℕ
by_table pgdir virt m =
    let pte = m (entry (table_of pgdir virt m) (pgt_idx virt)) in
    if test_bit pte 0 then some (page_of pte + virt % 2 ^ 12) else none

module _ (map : Mapping) (virt phys : ℕ) (flags : List ℕ) (m : Memory)
    (d : IsDirectory map.m_pgdir virt m) where
  abbrev pgdir : ℕ
  pgdir = map.m_pgdir

  abbrev pde : ℕ
  pde = or_bit (m (entry pgdir (pgd_idx virt))) 0

  abbrev pte : ℕ
  pte = with_flags (0 ∷ 2 ∷ flags) phys

  address : page_of pde ≡ page_of (m (entry pgdir (pgd_idx virt)))
  address = page_of-or_bit 0 (m (entry pgdir (pgd_idx virt))) (omega arith)

  pte_present : test_bit pte 0 ≡ true
  unfolding with_flags
  pte_present = or_bit_self (with_flags (2 ∷ flags) phys) 0

  -- map_page sends each address of its page to the same place of the physical page.
  map_page-hit :
      (other : ℕ)
      → other / 2 ^ 12 ≡ virt / 2 ^ 12
      → phys % 2 ^ 12 ≡ 0
      → AreFlags flags
      → other < 2 ^ 32
      → translate pgdir other (map_page map virt phys flags m) ≡ some (phys + other % 2 ^ 12)
  unfolding map_page
  map_page-hit other same aligned fs word =
      let (i, j) = page_idx other virt same in
      let table =
        table_kept pgdir virt m pde pte d address other word ∙ same_table pgdir other virt m i in
      let flagged =
        page_of-with_flags (0 ∷ 2 ∷ flags) phys (omega arith, (omega arith, fs))
        ∙ page_of-aligned phys aligned in
      translate-entries pgdir other (table_of pgdir virt m) (changed pgdir virt m pde pte d address)
        table
      ∙ rw
          (
            i,
            j,
            dir_self pgdir virt m pde pte d address,
            entry_self pgdir virt m pde pte d address,
            or_bit_self (m (entry pgdir (pgd_idx virt))) 0,
            pte_present,
            flagged,
          )
          refl

  map_page-miss :
      (other : ℕ)
      → IsDirectory pgdir other m
      → virt / 2 ^ 12 ≢ other / 2 ^ 12
      → (pgd_idx virt ≢ pgd_idx other → table_of pgdir virt m ≢ table_of pgdir other m)
      → translate pgdir other (map_page map virt phys flags m) ≡ (
          if pgd_idx virt == pgd_idx other then by_table pgdir other m else translate pgdir other m)
  unfolding map_page
  map_page-miss other o apart own =
      let there = changed pgdir virt m pde pte d address in
      let t = table_of pgdir other m in
      translate-entries pgdir other t there (table_kept pgdir virt m pde pte d address other o.word)
      ∙ rw (entry_other pgdir virt m pde pte d address other o apart own)
          (elim (Bool-cases (pgd_idx virt == pgd_idx other)) [
            | inl same ↦
                let i = ==→eq (pgd_idx virt) (pgd_idx other) same in
                let present : test_bit (there (entry pgdir (pgd_idx other))) 0 ≡ true =
                  ap (λ (k : ℕ). test_bit (there (entry pgdir k)) 0) (sym i)
                  ∙ ap (λ (w : ℕ). test_bit w 0) (dir_self pgdir virt m pde pte d address)
                  ∙ or_bit_self (m (entry pgdir (pgd_idx virt))) 0 in
                rw (same, present) refl
            | inr differ ↦
                rw
                  (
                    differ,
                    dir_other pgdir virt m pde pte d address other o.word
                        (==→ne (pgd_idx virt) (pgd_idx other) differ),
                  )
                  (sym (translate-entries pgdir other t m refl))
          ])

-- In a directory apart from its tables, where the table of the address serves no other entry, map_page of
-- an aligned page sends the addresses of this page to the same places of the physical page. The other
-- addresses that the same entry of the directory serves, present or not before, are sent where its table
-- says; the translation of every address of another entry is as it was.
pub map_page_lem :
    (map : Mapping) (virt phys : ℕ) (flags : List ℕ) (m : Memory) (other : ℕ)
    → IsDirectory map.m_pgdir virt m
    → IsDirectory map.m_pgdir other m
    → (pgd_idx virt ≢ pgd_idx other → table_of map.m_pgdir virt m ≢ table_of map.m_pgdir other m)
    → phys % 2 ^ 12 ≡ 0
    → AreFlags flags
    → translate map.m_pgdir other (map_page map virt phys flags m) ≡ (
        if virt / 2 ^ 12 == other / 2 ^ 12
        then some (phys + other % 2 ^ 12)
        else if pgd_idx virt == pgd_idx other
        then by_table map.m_pgdir other m
        else translate map.m_pgdir other m)
map_page_lem map virt phys flags m other d o own aligned fs =
    elim (Bool-cases (virt / 2 ^ 12 == other / 2 ^ 12)) [
      | inl same ↦
          let e = ==→eq (virt / 2 ^ 12) (other / 2 ^ 12) same in
          rw same (map_page-hit map virt phys flags m d other (sym e) aligned fs o.word)
      | inr apart ↦ rw apart (
          map_page-miss map virt phys flags m d other o
            (==→ne (virt / 2 ^ 12) (other / 2 ^ 12) apart) own)
    ]

update_same : (m : Memory) (a : ℕ) → update m a (m a) ≡ m
update_same m a = fun_ext λ (j : ℕ). elim (Bool-cases (a == j)) [
  | inl same ↦ rw same (ap m (==→eq a j same))
  | inr other ↦ rw other refl
]

nil_bit : test_bit 0 0 ≡ false
unfolding test_bit
nil_bit = refl

either_none : (b : Bool) → ◌≡◌ {A = Option ℕ} (if b then none else none) none
either_none true = refl
either_none false = refl

-- unmap_page takes the translation of its page away, and leaves that of every other address as it is.
pub unmap_page_lem :
    (map : Mapping) (virt : ℕ) (m : Memory) (other : ℕ)
    → IsDirectory map.m_pgdir virt m
    → IsDirectory map.m_pgdir other m
    → (pgd_idx virt ≢ pgd_idx other → table_of map.m_pgdir virt m ≢ table_of map.m_pgdir other m)
    → translate map.m_pgdir other (unmap_page map virt m)
      ≡ (if virt / 2 ^ 12 == other / 2 ^ 12 then none else translate map.m_pgdir other m)
unfolding unmap_page
unmap_page_lem map virt m other d o own =
    let pgdir = map.m_pgdir in
    let v = m (entry pgdir (pgd_idx virt)) in
    let there = changed pgdir virt m v 0 d refl in
    let t = table_of pgdir other m in
    let e : update m (entry (table_of pgdir virt m) (pgt_idx virt)) 0 ≡ there =
      ap (λ n. update n (entry (table_of pgdir virt m) (pgt_idx virt)) 0)
        (sym (update_same m (entry pgdir (pgd_idx virt)))) in
    ap (translate pgdir other) e
    ∙ translate-entries pgdir other t there (table_kept pgdir virt m v 0 d refl other o.word)
    ∙ elim (Bool-cases (virt / 2 ^ 12 == other / 2 ^ 12)) [
      | inl same ↦
          let (i, j) = page_idx virt other (==→eq (virt / 2 ^ 12) (other / 2 ^ 12) same) in
          let gone : test_bit (there (entry t (pgt_idx other))) 0 ≡ false =
            ap (λ (a : ℕ). test_bit (there (entry a (pgt_idx other))) 0)
              (sym (same_table pgdir virt other m i))
            ∙ ap (λ (k : ℕ). test_bit (there (entry (table_of pgdir virt m) k)) 0) (sym j)
            ∙ ap (λ (w : ℕ). test_bit w 0) (entry_self pgdir virt m v 0 d refl)
            ∙ nil_bit in
          rw (same, gone) (either_none (test_bit (there (entry pgdir (pgd_idx other))) 0))
      | inr apart ↦
          let ne = ==→ne (virt / 2 ^ 12) (other / 2 ^ 12) apart in
          let same_dir : there (entry pgdir (pgd_idx other)) ≡ m (entry pgdir (pgd_idx other)) =
            elim (Bool-cases (pgd_idx virt == pgd_idx other)) [
              | inl shared ↦
                  let k = ==→eq (pgd_idx virt) (pgd_idx other) shared in
                  ap (λ (i : ℕ). there (entry pgdir i)) (sym k)
                  ∙ dir_self pgdir virt m v 0 d refl
                  ∙ ap (λ (i : ℕ). m (entry pgdir i)) k
              | inr differ ↦
                  dir_other pgdir virt m v 0 d refl other o.word
                    (==→ne (pgd_idx virt) (pgd_idx other) differ)
            ] in
          rw (apart, same_dir, entry_other pgdir virt m v 0 d refl other o ne own)
            (sym (translate-entries pgdir other t m refl))
    ]
