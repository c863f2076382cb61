-- ===== src/Paging/Tables.antt =====
-- The runs of entries that init_rootmap of arch/i386/paging.c writes, and the number of its tables.
use koowaldah.Base.{
  ℕ, zero, suc, ◌+◌, ◌*◌, ◌%◌, ◌^◌, ◌≤◌, ◌<◌, ◌≡◌, refl, ap, ◌∙◌, arith, ◌==◌, ==→eq, ==→ne, ne→==,
  ==_self, Bool-cases, inl, inr, u32,
}
use koowaldah.Paging.{Memory, entry, write_entries, tables_for, table_rest}

-- A run of entries, at addresses that do not wrap round.
pub write_entries_lem :
    (value : ℕ → ℕ) (left i table : ℕ) (m : Memory) (a : ℕ)
    → table + 4 * (i + left) ≤ 2 ^ 32
    → a < table + 4 * i
    → write_entries value left i table m a ≡ m a
unfolding write_entries entry
write_entries_lem value zero i table m a room out = refl
write_entries_lem value (suc left) i table m a room out =
    write_entries_lem value left (i + 1) table _ a (omega arith) (omega arith)
    ∙ rw (ne→== (u32 (table + 4 * i)) a (λ e. omega (arith, e))) refl

pub write_entries-above :
    (value : ℕ → ℕ) (left i table : ℕ) (m : Memory) (a : ℕ)
    → table + 4 * (i + left) ≤ 2 ^ 32
    → table + 4 * (i + left) ≤ a
    → write_entries value left i table m a ≡ m a
unfolding write_entries entry
write_entries-above value zero i table m a room out = refl
write_entries-above value (suc left) i table m a room out =
    write_entries-above value left (i + 1) table _ a (omega arith) (omega arith)
    ∙ rw (ne→== (u32 (table + 4 * i)) a (λ e. omega (arith, e))) refl

pub write_entries-hit :
    (value : ℕ → ℕ) (left i table k : ℕ) (m : Memory)
    → table + 4 * (i + left) ≤ 2 ^ 32
    → i ≤ k
    → k < i + left
    → write_entries value left i table m (table + 4 * k) ≡ value k
unfolding write_entries entry
write_entries-hit value zero i table k m room from to = absurd (omega arith)
write_entries-hit value (suc left) i table k m room from to = elim (Bool-cases (i == k)) [
  | inl same ↦
      let e = ==→eq i k same in
      write_entries_lem value left (i + 1) table _ (table + 4 * k) (omega arith) (omega (arith, e))
      ∙ rw (ap (λ (t : ℕ). t == table + 4 * k) (place e))
          (rw (==_self (table + 4 * k)) (ap value e))
  | inr other ↦
      write_entries-hit value left (i + 1) table k _ (omega arith) (omega (arith, ==→ne i k other))
        (omega arith)
]
  where
    place : i ≡ k → u32 (table + 4 * i) ≡ table + 4 * k
    place e = omega (arith, e)

pub tables_for_lem :
    (pgs : ℕ) → (pgs ≤ tables_for pgs * 1024) × (tables_for pgs * 1024 < pgs + 1024)
unfolding tables_for
tables_for_lem pgs = elim (Bool-cases (pgs % 1024 == 0)) [
  | inl whole ↦ let e = ==→eq (pgs % 1024) 0 whole in rw whole (omega (arith, e), omega (arith, e))
  | inr part ↦ let e = ==→ne (pgs % 1024) 0 part in rw part (omega (arith, e), omega (arith, e))
]

pub rest_lem : (pgs : ℕ) → pgs + table_rest pgs ≡ tables_for pgs * 1024
unfolding table_rest
rest_lem pgs = omega (arith, (tables_for_lem pgs).0)
