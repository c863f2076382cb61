-- ===== src/Paging/Copy.antt =====
-- The inner loop of clone_map in arch/i386/paging.c.
use koowaldah.Base.{
  ℕ, zero, suc, ◌+◌, ◌≤◌, ◌<◌, ◌≡◌, ◌≢◌, refl, sym, ap, ◌∙◌, arith, ◌==◌, ==→eq, ==→ne, ne→==,
  ==_self, Bool-cases, inl, inr,
}
use koowaldah.Paging.{Memory, entry, copy_entries}
use koowaldah.Paging.Flags.{IsAligned, entry_lem}

pub copy_entries-frame :
    (left i src dst a : ℕ) (m : Memory)
    → ((k : ℕ) → i ≤ k → k < i + left → a ≢ entry dst k)
    → copy_entries left i src dst m a ≡ m a
unfolding copy_entries
copy_entries-frame zero i src dst a m out = refl
copy_entries-frame (suc left) i src dst a m out =
    copy_entries-frame left (i + 1) src dst a _ (λ k from to. out k (omega arith) (omega arith))
    ∙ rw (ne→== (entry dst i) a (λ e. out i (omega arith) (omega arith) (sym e))) refl

-- Apart from the source, the copy has the source's entries.
pub copy_entries-hit :
    (left i src dst k : ℕ) (m : Memory)
    → IsAligned dst
    → i + left ≤ 1024
    → i ≤ k
    → k < i + left
    → ((j l : ℕ) → j < 1024 → l < 1024 → entry src j ≢ entry dst l)
    → copy_entries left i src dst m (entry dst k) ≡ m (entry src k)
unfolding copy_entries
copy_entries-hit zero i src dst k m al room from to apart = absurd (omega arith)
copy_entries-hit (suc left) i src dst k m al room from to apart = elim (Bool-cases (i == k)) [
  | inl same ↦
      let e = ==→eq i k same in
      copy_entries-frame left (i + 1) src dst (entry dst k) _ (λ l f t x.
        omega (arith, e, x, entry_lem dst k al (omega arith), entry_lem dst l al (omega arith)))
      ∙ rw (ap (λ (l : ℕ). entry dst l == entry dst k) e)
          (rw (==_self (entry dst k)) (ap (λ (l : ℕ). m (entry src l)) e))
  | inr other ↦
      copy_entries-hit left (i + 1) src dst k _ al (omega arith) (omega (arith, ==→ne i k other))
        (omega arith) apart
      ∙ rw (ne→== (entry dst i) (entry src k) (λ e. apart k i (omega arith) (omega arith) (sym e)))
          refl
]
