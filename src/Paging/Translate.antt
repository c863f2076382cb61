-- ===== src/Paging/Translate.antt =====
-- arch/i386/paging.c: what map_page and unmap_page do to the translation of addresses.
use koowaldah.Base.{
  ℕ, ◌+◌, ◌/◌, ◌%◌, ◌^◌, ◌<◌, ◌≡◌, ◌≢◌, refl, sym, ap, ap₂, ◌∙◌, arith, Option, none, some, ◌==◌,
  ==→eq, ==→ne, ne→==, ==_self, Bool-cases, inl, inr, if◌then◌else◌, update,
}
use koowaldah.Bitmap.{test_bit}
use koowaldah.Paging.{Memory, pgd_idx, pgt_idx, page_of, entry, table_of, virt2physpg, virt2phys}
use koowaldah.Paging.Flags.{IsAligned, page_of-IsAligned, entry_ne, entry_injective}

-- What the processor makes of an address: the directory's entry and the table's entry must be present.
unfoldable pub translate : ℕ → ℕ → Memory → Option ℕ
unfolding virt2phys
translate cr3 virt m =
    if test_bit (m (entry cr3 (pgd_idx virt))) 0
    then (if test_bit (m (entry (table_of cr3 virt m) (pgt_idx virt))) 0
        then some (virt2phys cr3 virt m)
        else none)
    else none

pub idx_bounds : (virt : ℕ) → virt < 2 ^ 32 → (pgd_idx virt < 1024) × (pgt_idx virt < 1024)
unfolding pgd_idx pgt_idx
idx_bounds virt h = (omega arith, omega arith)

-- An address is given by its two indices and its place in the page.
idx_page :
    (virt other : ℕ)
    → pgd_idx virt ≡ pgd_idx other
    → pgt_idx virt ≡ pgt_idx other
    → virt / 2 ^ 12 ≡ other / 2 ^ 12
unfolding pgd_idx pgt_idx
idx_page virt other p q = omega (arith, p, q)

pub page_idx :
    (virt other : ℕ)
    → virt / 2 ^ 12 ≡ other / 2 ^ 12
    → (pgd_idx virt ≡ pgd_idx other) × (pgt_idx virt ≡ pgt_idx other)
unfolding pgd_idx pgt_idx
page_idx virt other h = (omega arith, omega arith)

-- A directory in which the table of an address is no part of the directory.
pub record IsDirectory (pgdir virt : ℕ) (m : Memory) : Type 0 where
  pub aligned : IsAligned pgdir
  pub word : virt < 2 ^ 32
  pub word_entry : m (entry pgdir (pgd_idx virt)) < 2 ^ 32
  pub outside : table_of pgdir virt m ≢ pgdir

pub table-IsAligned :
    (pgdir virt : ℕ) (m : Memory) → IsDirectory pgdir virt m → IsAligned (table_of pgdir virt m)
unfolding table_of
table-IsAligned pgdir virt m d = page_of-IsAligned (m (entry pgdir (pgd_idx virt))) d.word_entry

-- The entry of an address in its table is no word of the directory.
pub entry-outside :
    (pgdir virt i : ℕ) (m : Memory)
    → IsDirectory pgdir virt m
    → i < 1024
    → entry (table_of pgdir virt m) (pgt_idx virt) ≢ entry pgdir i
entry-outside pgdir virt i m d lt =
    entry_ne (table_of pgdir virt m) pgdir (pgt_idx virt) i (table-IsAligned pgdir virt m d)
      d.aligned (idx_bounds virt d.word).1 lt d.outside

pub same_table :
    (pgdir virt other : ℕ) (m : Memory)
    → pgd_idx virt ≡ pgd_idx other
    → table_of pgdir virt m ≡ table_of pgdir other m
unfolding table_of
same_table pgdir virt other m e = ap (λ (i : ℕ). page_of (m (entry pgdir i))) e

-- What map_page and unmap_page have in common: a directory entry `v` in which the address is as before,
-- and an entry `w` in the table.
module _ (pgdir virt : ℕ) (m : Memory) (v w : ℕ) (d : IsDirectory pgdir virt m)
    (same_address : page_of v ≡ page_of (m (entry pgdir (pgd_idx virt)))) where
  abbrev pub changed : Memory
  changed =
      update (update m (entry pgdir (pgd_idx virt)) v)
        (entry (table_of pgdir virt m) (pgt_idx virt)) w

  dir_read :
      (i : ℕ)
      → i < 1024
      → changed (entry pgdir i)
        ≡ (if entry pgdir (pgd_idx virt) == entry pgdir i then v else m (entry pgdir i))
  dir_read i lt =
      rw
        (ne→== (entry (table_of pgdir virt m) (pgt_idx virt)) (entry pgdir i)
          (entry-outside pgdir virt i m d lt))
        refl

  pub dir_self : changed (entry pgdir (pgd_idx virt)) ≡ v
  dir_self =
      dir_read (pgd_idx virt) (idx_bounds virt d.word).0
      ∙ rw (==_self (entry pgdir (pgd_idx virt))) refl

  pub dir_other :
      (other : ℕ)
      → other < 2 ^ 32
      → pgd_idx virt ≢ pgd_idx other
      → changed (entry pgdir (pgd_idx other)) ≡ m (entry pgdir (pgd_idx other))
  dir_other other word ne =
      dir_read (pgd_idx other) (idx_bounds other word).0
      ∙ rw
          (ne→== (entry pgdir (pgd_idx virt)) (entry pgdir (pgd_idx other)) (λ e. ne (
            entry_injective pgdir (pgd_idx virt) (pgd_idx other) d.aligned
              (idx_bounds virt d.word).0 (idx_bounds other word).0 e)))
          refl

  pub table_kept :
      (other : ℕ) → other < 2 ^ 32 → table_of pgdir other changed ≡ table_of pgdir other m
  unfolding table_of
  table_kept other word = elim (Bool-cases (pgd_idx virt == pgd_idx other)) [
    | inl same ↦
        let e = ==→eq (pgd_idx virt) (pgd_idx other) same in
        ap (λ (i : ℕ). page_of (changed (entry pgdir i))) (sym e)
        ∙ ap page_of dir_self
        ∙ same_address
        ∙ ap (λ (i : ℕ). page_of (m (entry pgdir i))) e
    | inr apart ↦ ap page_of (dir_other other word (==→ne (pgd_idx virt) (pgd_idx other) apart))
  ]

  pub entry_self : changed (entry (table_of pgdir virt m) (pgt_idx virt)) ≡ w
  entry_self = rw (==_self (entry (table_of pgdir virt m) (pgt_idx virt))) refl

  -- An address on another page whose table is not shared with a different directory entry.
  pub entry_other :
      (other : ℕ)
      → IsDirectory pgdir other m
      → virt / 2 ^ 12 ≢ other / 2 ^ 12
      → (pgd_idx virt ≢ pgd_idx other → table_of pgdir virt m ≢ table_of pgdir other m)
      → changed (entry (table_of pgdir other m) (pgt_idx other))
        ≡ m (entry (table_of pgdir other m) (pgt_idx other))
  entry_other other o apart own =
      rw
        (
          ne→== (entry (table_of pgdir virt m) (pgt_idx virt))
              (entry (table_of pgdir other m) (pgt_idx other)) entries,
          ne→== (entry pgdir (pgd_idx virt)) (entry (table_of pgdir other m) (pgt_idx other)) (λ e.
              entry-outside pgdir other (pgd_idx virt) m o (idx_bounds virt d.word).0 (sym e)),
        )
        refl
    where
      entries :
          entry (table_of pgdir virt m) (pgt_idx virt)
          ≢ entry (table_of pgdir other m) (pgt_idx other)
      entries e = elim (Bool-cases (pgd_idx virt == pgd_idx other)) [
        | inl same ↦
            let i = ==→eq (pgd_idx virt) (pgd_idx other) same in
            let there : entry (table_of pgdir virt m) (pgt_idx virt)
                ≡ entry (table_of pgdir virt m) (pgt_idx other) =
              e ∙ ap (λ (t : ℕ). entry t (pgt_idx other)) (sym (same_table pgdir virt other m i)) in
            apart (
              idx_page virt other i (
                entry_injective (table_of pgdir virt m) (pgt_idx virt) (pgt_idx other)
                  (table-IsAligned pgdir virt m d) (idx_bounds virt d.word).1
                  (idx_bounds other o.word).1 there))
        | inr differ ↦
            entry_ne (table_of pgdir virt m) (table_of pgdir other m) (pgt_idx virt) (pgt_idx other)
              (table-IsAligned pgdir virt m d) (table-IsAligned pgdir other m o)
              (idx_bounds virt d.word).1 (idx_bounds other o.word).1
              (own (==→ne (pgd_idx virt) (pgd_idx other) differ)) e
      ]

-- The translation of an address, by what the directory and its table have for it.
pub translate-read :
    (cr3 virt x y : ℕ) (m : Memory)
    → m (entry cr3 (pgd_idx virt)) ≡ x
    → m (entry (table_of cr3 virt m) (pgt_idx virt)) ≡ y
    → translate cr3 virt m ≡ (
        if test_bit x 0
        then (if test_bit y 0 then some (page_of y + virt % 2 ^ 12) else none)
        else none)
unfolding translate virt2phys virt2physpg
translate-read cr3 virt x y m p q =
    ap₂
      (λ (a b : ℕ).
        if test_bit a 0
        then (if test_bit b 0 then some (page_of b + virt % 2 ^ 12) else none)
        else none)
      p q
