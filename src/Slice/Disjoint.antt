-- ===== src/Slice/Disjoint.antt =====
-- kernel/slice.c: the slices that clients hold do not overlap.
use koowaldah.Base.{
  ℕ, ◌+◌, ◌%◌, ◌≤◌, ◌<◌, ◌≡◌, ◌≢◌, ◌⊎◌, inl, inr, ap, ◌∙◌, arith, List, [], ◌∷◌, some, ◌==◌, ==→eq,
  ==→ne, Bool-cases, ltb, ltb→lt, ltb→le,
}
use koowaldah.Bitmap.{bitmap_size}
use koowaldah.PageAlloc.{page_size}
use koowaldah.Slice.{SlicePool, nobjs, consumed, slice_free}
use koowaldah.Slice.Shape.{IsSize, slice_fit, mul-le, add_mul}
use koowaldah.Slice.Pages.{IsPool}
use koowaldah.Slice.Release.{slice_free_lem}
use koowaldah.Slice.Clients.{All, IsLive, Distinct, Reach, All-map, All-zip, Reach-Inv}

-- Two slices of a pool have no byte in common.
abbrev pub Disjoint : ℕ → ℕ → ℕ → Type 0
Disjoint size a b = (a + size ≤ b) ⊎ (b + size ≤ a)

abbrev pub AreDisjoint : ℕ → List ℕ → Type 0
AreDisjoint size [] = Unit {0}
AreDisjoint size (a ∷ live) = All (Disjoint size a) live × AreDisjoint size live

below-Disjoint :
    (pool : SlicePool) (a b : ℕ)
    → IsSize pool.obj_size
    → IsLive pool a
    → IsLive pool b
    → a < b
    → a + pool.obj_size ≤ b
below-Disjoint pool a b s l m lt =
    let size = pool.obj_size in
    let fit_a = slice_fit size l.number s l.low in
    let fit_b = slice_fit size m.number s m.low in
    elim (Bool-cases (l.base == m.base)) [
      | inl same ↦ elim (Bool-cases (ltb l.number m.number)) [
        | inl before ↦ omega (
          arith,
          ==→eq l.base m.base same,
          mul-le (l.number + 1) m.number size (omega (arith, ltb→lt l.number m.number before)),
          add_mul l.number 1 size,
        )
        | inr behind ↦ absurd (
            omega (
              arith,
              ==→eq l.base m.base same,
              mul-le m.number l.number size (ltb→le l.number m.number behind),
            ))
      ]
      | inr other ↦ omega (arith, ==→ne l.base m.base other, fit_a, fit_b, s.pos)
    ]

live-Disjoint :
    (pool : SlicePool) (a b : ℕ)
    → IsSize pool.obj_size
    → IsLive pool a
    → IsLive pool b
    → a ≢ b
    → Disjoint pool.obj_size a b
live-Disjoint pool a b s l m ne = elim (Bool-cases (ltb a b)) [
  | inl below ↦ inl (below-Disjoint pool a b s l m (ltb→lt a b below))
  | inr above ↦ let le = ltb→le a b above in inr (below-Disjoint pool b a s m l (omega (arith, ne)))
]

lives-Disjoint :
    (pool : SlicePool) (live : List ℕ)
    → IsSize pool.obj_size
    → All (IsLive pool) live
    → Distinct live
    → AreDisjoint pool.obj_size live
lives-Disjoint pool [] s ls ds = tt
lives-Disjoint pool (a ∷ live) s (l, ls) (nes, ds) = (
  All-zip (IsLive pool) (λ b. a ≢ b) (Disjoint pool.obj_size a) live
      (λ b m ne. live-Disjoint pool a b s l m ne) ls nes,
  lives-Disjoint pool live s ls ds,
)

-- A slice that is not free can be freed, and lies in one page, in front of its bitmap.
abbrev pub IsOwned : SlicePool → ℕ → Type 0
IsOwned pool a =
    ((pool' : SlicePool) × (slice_free a pool ≡ some pool'))
    × (a % page_size + pool.obj_size + bitmap_size (nobjs pool.obj_size) ≤ page_size)

live-IsOwned : (pool : SlicePool) (a : ℕ) → IsPool pool → IsLive pool a → IsOwned pool a
live-IsOwned pool a valid l =
    let (pool', e, f) = slice_free_lem pool l.base l.number valid l.aligned l.low l.marked in
    let fit = slice_fit pool.obj_size l.number valid.shape l.low in
    (
      (pool', ap (λ b. slice_free b pool) l.address ∙ e),
      omega (arith, fit, l.address, l.aligned, valid.shape.pos),
    )

-- From a pool in order that no client uses yet, for objects of a size whose pages have at least two
-- slices left for use and a bitmap that takes no bytes of slices or has whole words only (this leaves out
-- galloc's pools of 12 and 20 bytes), after any calls of slice_alloc and slice_free in which clients free
-- only slices in use: no two slices in use have a byte in common, each lies in one page in front of the
-- page's bitmap, and slice_free of each does not run into its bug().
pub clients_lem :
    {pool : SlicePool} {live : List ℕ} (start : SlicePool)
    → IsPool start
    → (consumed start.obj_size ≡ 0) ⊎ (nobjs start.obj_size % 32 ≡ 0)
    → Reach (start, []) (pool, live)
    → AreDisjoint pool.obj_size live × All (IsOwned pool) live × IsPool pool
clients_lem {pool} {live} start valid firm r =
    let (kept, lives, distinct, _) = Reach-Inv r (valid, tt, tt, firm) in
    (
      lives-Disjoint pool live kept.shape lives distinct,
      All-map (IsLive pool) (IsOwned pool) live (λ a l. live-IsOwned pool a kept l) lives,
      kept,
    )
