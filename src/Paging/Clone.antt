-- ===== src/Paging/Clone.antt =====
-- clone_map of arch/i386/paging.c: a copy of a map translates as the map does.
use koowaldah.Base.{
  ℕ, zero, suc, ◌+◌, ◌*◌, ◌%◌, ◌^◌, ◌≤◌, ◌<◌, ◌≡◌, ◌≢◌, true, refl, sym, ap, ◌∙◌, arith, ◌==◌,
  ==→eq, ==→ne, ne→==, ==_self, Bool-cases, inl, inr, update,
}
use koowaldah.Bitmap.{test_bit}
use koowaldah.Bitmap.Bits.{test_bit-zero}
use koowaldah.Paging.{Memory, page_of, entry, clone_entry, clone_loop}
use koowaldah.Paging.Flags.{IsAligned, entry_injective, entry_ne}
use koowaldah.Paging.Copy.{copy_entries-frame, copy_entries-hit}

-- The pages of the new map: a directory, and 1024 tables in a row.
module _ (dir tables src : ℕ) (m : Memory) where
  abbrev pub table : ℕ → ℕ
  table e = tables + 4096 * e

  -- A word that is in none of the new pages.
  pub record IsOld (a : ℕ) : Type 0 where
    pub no_link : (e : ℕ) → e < 1024 → a ≢ entry dir e
    pub no_entry : (e j : ℕ) → e < 1024 → j < 1024 → a ≢ entry (table e) j

  abbrev pub src_table : ℕ → ℕ
  src_table d = page_of (m (entry src d))

  -- The new pages are in memory of 32 bits, apart from one another, from the directory that is copied and
  -- from its tables that are present.
  pub record IsSpace : Type 0 where
    pub directory : IsAligned dir
    pub start : tables % 2 ^ 12 ≡ 0
    pub room : tables + 4194304 ≤ 2 ^ 32
    pub apart : (e f j : ℕ) → e < 1024 → f < 1024 → j < 1024 → entry dir e ≢ entry (table f) j
    pub old_link : (d : ℕ) → d < 1024 → IsOld (entry src d)
    pub old_entry :
        (d j : ℕ)
        → d < 1024
        → j < 1024
        → test_bit (m (entry src d)) 0 ≡ true
        → IsOld (entry (src_table d) j)

  -- The link that clone_map makes for an entry of the directory.
  abbrev pub new_link : ℕ → ℕ
  new_link d = m (entry src d) % 2 ^ 12 + table d

  module _ (s : IsSpace) where
    pub table-IsAligned : (e : ℕ) → e < 1024 → IsAligned (table e)
    table-IsAligned e lt = (omega (arith, s.start), omega (arith, s.room))

    -- One round leaves a word alone that is not in its pages.
    round-frame :
        (d a : ℕ) (n : Memory)
        → a ≢ entry dir d
        → ((j : ℕ) → j < 1024 → a ≢ entry (table d) j)
        → clone_entry dir src d (table d) n a ≡ n a
    unfolding clone_entry
    round-frame d a n no_dir no_tab =
        let linked = update n (entry dir d) (n (entry src d) % 2 ^ 12 + table d) in
        let read : linked a ≡ n a = rw (ne→== (entry dir d) a (λ e. no_dir (sym e))) refl in
        elim (Bool-cases (test_bit (linked (entry dir d)) 0)) [
          | inl present ↦ rw present (
              copy_entries-frame 1024 0 _ (table d) a linked (λ k from to. no_tab k (omega arith))
              ∙ read)
          | inr absent ↦ rw absent read
        ]

    next_table : (d : ℕ) → d + 1 < 1024 → entry (table d) 1024 ≡ table (d + 1)
    unfolding entry
    next_table d lt = omega (arith, s.room)

    -- The rounds from `d` on leave a word alone that is not in their pages.
    pub loop-frame :
        (left d pt a : ℕ) (n : Memory)
        → d + left ≤ 1024
        → (0 < left → pt ≡ table d)
        → ((e : ℕ) → d ≤ e → e < d + left → a ≢ entry dir e)
        → ((e j : ℕ) → d ≤ e → e < d + left → j < 1024 → a ≢ entry (table e) j)
        → clone_loop left d dir src pt n a ≡ n a
    unfolding clone_loop
    loop-frame zero d pt a n fit at no_dir no_tab = refl
    loop-frame (suc left) d pt a n fit at no_dir no_tab =
        loop-frame left (d + 1) (entry pt 1024) a (clone_entry dir src d pt n) (omega arith)
          (λ more. ap (λ (t : ℕ). entry t 1024) (at (omega arith)) ∙ next_table d (omega arith))
          (λ e from to. no_dir e (omega arith) (omega arith))
          (λ e j from to. no_tab e j (omega arith) (omega arith))
        ∙ ap (λ (t : ℕ). clone_entry dir src d t n a) (at (omega arith))
        ∙ round-frame d a n (no_dir d (omega arith) (omega arith))
            (λ j. no_tab d j (omega arith) (omega arith))

    abbrev Agree : Memory → Type 0
    Agree n = (a : ℕ) → IsOld a → n a ≡ m a

    abbrev linked : ℕ → Memory → Memory
    linked d n = update n (entry dir d) (n (entry src d) % 2 ^ 12 + table d)

    linked-old : (d a : ℕ) (n : Memory) → d < 1024 → IsOld a → Agree n → linked d n a ≡ m a
    linked-old d a n lt old agree =
        rw (ne→== (entry dir d) a (λ e. old.no_link d lt (sym e))) (agree a old)

    linked-dir : (d : ℕ) (n : Memory) → d < 1024 → Agree n → linked d n (entry dir d) ≡ new_link d
    linked-dir d n lt agree =
        rw (==_self (entry dir d))
          (ap (λ (w : ℕ). w % 2 ^ 12 + table d) (agree (entry src d) (s.old_link d lt)))

    -- The new link is present exactly if the old one is.
    pub link_bit : (d : ℕ) → test_bit (new_link d) 0 ≡ test_bit (m (entry src d)) 0
    link_bit d =
        let low : new_link d % 2 ≡ m (entry src d) % 2 = omega (arith, s.start) in
        test_bit-zero (new_link d)
        ∙ ap (λ (v : ℕ). v == 1) low
        ∙ sym (test_bit-zero (m (entry src d)))

    pub round-Agree :
        (d : ℕ) (n : Memory) → d < 1024 → Agree n → Agree (clone_entry dir src d (table d) n)
    round-Agree d n lt agree a old =
        round-frame d a n (old.no_link d lt) (λ j. old.no_entry d j lt) ∙ agree a old

    round-dir :
        (d : ℕ) (n : Memory)
        → d < 1024
        → Agree n
        → clone_entry dir src d (table d) n (entry dir d) ≡ new_link d
    unfolding clone_entry
    round-dir d n lt agree = elim (Bool-cases (test_bit (linked d n (entry dir d)) 0)) [
      | inl present ↦ rw present (
          copy_entries-frame 1024 0 _ (table d) (entry dir d) (linked d n)
            (λ k from to. s.apart d d k lt lt (omega arith))
          ∙ linked-dir d n lt agree)
      | inr absent ↦ rw absent (linked-dir d n lt agree)
    ]

    round-table :
        (d j : ℕ) (n : Memory)
        → d < 1024
        → j < 1024
        → Agree n
        → test_bit (m (entry src d)) 0 ≡ true
        → clone_entry dir src d (table d) n (entry (table d) j) ≡ m (entry (src_table d) j)
    unfolding clone_entry
    round-table d j n lt small agree present =
        let bit : test_bit (linked d n (entry dir d)) 0 ≡ true =
          ap (λ (w : ℕ). test_bit w 0) (linked-dir d n lt agree) ∙ link_bit d ∙ present in
        let from = linked-old d (entry src d) n lt (s.old_link d lt) agree in
        rw (bit, from)
          (copy_entries-hit 1024 0 (src_table d) (table d) j (linked d n) (table-IsAligned d lt)
              (omega arith) (omega arith) (omega arith)
              (λ k l hk hl. (s.old_entry d k lt hk present).no_entry d l lt hl)
            ∙ linked-old d (entry (src_table d) j) n lt (s.old_entry d j lt small present) agree)

    -- What the rounds from `d` on write for the entry `e` of the directory.
    pub loop-dir :
        (left d pt e : ℕ) (n : Memory)
        → d + left ≤ 1024
        → (0 < left → pt ≡ table d)
        → d ≤ e
        → e < d + left
        → Agree n
        → clone_loop left d dir src pt n (entry dir e) ≡ new_link e
    unfolding clone_loop
    loop-dir zero d pt e n fit at from to agree = absurd (omega arith)
    loop-dir (suc left) d pt e n fit at from to agree =
        let lt : d < 1024 = omega arith in
        let next = λ (more : 0 < left).
          ap (λ (t : ℕ). entry t 1024) (at (omega arith)) ∙ next_table d (omega arith) in
        elim (Bool-cases (d == e)) [
          | inl same ↦
              let i = ==→eq d e same in
              loop-frame left (d + 1) (entry pt 1024) (entry dir e) (clone_entry dir src d pt n)
                (omega arith) next
                (λ f f1 f2 x.
                  omega
                    (arith, i, entry_injective dir e f s.directory (omega arith) (omega arith) x))
                (λ f j f1 f2 lj. s.apart e f j (omega arith) (omega arith) lj)
              ∙ ap (λ (t : ℕ). clone_entry dir src d t n (entry dir e)) (at (omega arith))
              ∙ ap (λ (k : ℕ). clone_entry dir src d (table d) n (entry dir k)) (sym i)
              ∙ round-dir d n lt agree
              ∙ ap new_link i
          | inr other ↦
              loop-dir left (d + 1) (entry pt 1024) e (clone_entry dir src d pt n) (omega arith)
                next (omega (arith, ==→ne d e other)) (omega arith)
                (λ a old.
                  ap (λ (t : ℕ). clone_entry dir src d t n a) (at (omega arith))
                  ∙ round-Agree d n lt agree a old)
        ]

    pub loop-table :
        (left d pt e j : ℕ) (n : Memory)
        → d + left ≤ 1024
        → (0 < left → pt ≡ table d)
        → d ≤ e
        → e < d + left
        → j < 1024
        → Agree n
        → test_bit (m (entry src e)) 0 ≡ true
        → clone_loop left d dir src pt n (entry (table e) j) ≡ m (entry (src_table e) j)
    unfolding clone_loop
    loop-table zero d pt e j n fit at from to lj agree present = absurd (omega arith)
    loop-table (suc left) d pt e j n fit at from to lj agree present =
        let lt : d < 1024 = omega arith in
        let next = λ (more : 0 < left).
          ap (λ (t : ℕ). entry t 1024) (at (omega arith)) ∙ next_table d (omega arith) in
        elim (Bool-cases (d == e)) [
          | inl same ↦
              let i = ==→eq d e same in
              loop-frame left (d + 1) (entry pt 1024) (entry (table e) j)
                (clone_entry dir src d pt n) (omega arith) next
                (λ f f1 f2 x. s.apart f e j (omega arith) (omega arith) lj (sym x))
                (λ f k f1 f2 lk.
                  entry_ne (table e) (table f) j k (table-IsAligned e (omega arith))
                    (table-IsAligned f (omega arith)) lj lk (λ x. omega (arith, i, x)))
              ∙ ap (λ (t : ℕ). clone_entry dir src d t n (entry (table e) j)) (at (omega arith))
              ∙ ap (λ (k : ℕ). clone_entry dir src k (table k) n (entry (table e) j)) i
              ∙ round-table e j n (omega arith) lj agree present
          | inr other ↦
              loop-table left (d + 1) (entry pt 1024) e j (clone_entry dir src d pt n) (omega arith)
                next (omega (arith, ==→ne d e other)) (omega arith) lj
                (λ a old.
                  ap (λ (t : ℕ). clone_entry dir src d t n a) (at (omega arith))
                  ∙ round-Agree d n lt agree a old)
                present
        ]
