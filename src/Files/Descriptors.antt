-- ===== src/Files/Descriptors.antt =====
-- The set of descriptors in use, under alloc_fd and free_fd.
use koowaldah.Base.{
  ℕ, ◌+◌, ◌<◌, ◌≤◌, true, false, some, ◌≡◌, refl, ap, arith, sym, ◌∙◌, ◌==◌, ==→eq, ==→ne, ne→==,
  Bool-cases, Option-cases, inl, inr, if◌then◌else◌, lt→ltb,
}
use mathlib.Core.Path.{subst}
use mathlib.Core.Option.{some-injective, none-ne-some}
use koowaldah.Bitmap.{bitmap_seek_unset, bitmap_bit_set}
use koowaldah.Bitmap.Access.{is_set, bit_set_lem, bit_clear_lem}
use koowaldah.Bitmap.Seek.{IsFirst, seek_unset_lem}
use koowaldah.Files.{Thread, fs_max_fds, occupy, alloc_fd, free_fd}

-- No descriptor from `last_fd` on is in use.
abbrev pub IsTight : Thread → Type 0
IsTight t = (j : ℕ) → t.last_fd ≤ j → is_set t.fdset j ≡ false

-- alloc_fd with the descriptor known.
alloc_fd-found :
    (t : Thread) (fd : ℕ)
    → IsTight t
    → t.last_fd < fs_max_fds
    → fd < t.last_fd + 1
    → IsTight (occupy fd t)
unfolding occupy
alloc_fd-found t fd tight room lt = λ j from. elim (Bool-cases (fd == t.last_fd)) [
  | inl last ↦
      let above = rw (last, lt→ltb t.last_fd fs_max_fds room) at from in
      let same = ==→eq fd t.last_fd last in
      bit_set_lem t.fdset fd j ∙ rw (ne→== fd j (omega arith)) (tight j (omega arith))
  | inr inner ↦
      let above = rw inner at from in
      let other = ==→ne fd t.last_fd inner in
      bit_set_lem t.fdset fd j ∙ rw (ne→== fd j (omega arith)) (tight j (omega arith))
]

-- While no descriptor from `last_fd` on is in use, and `last_fd` is below the limit, alloc_fd succeeds:
-- it gives the least descriptor that is not in use, marks it and no other, and the descriptors from
-- the new `last_fd` on are not in use either.
pub alloc_fd_lem :
    (t : Thread)
    → IsTight t
    → t.last_fd < fs_max_fds
    → (fd : ℕ) × (t' : Thread) × (alloc_fd t ≡ some (fd, t'))
      × (fd ≤ t.last_fd)
      × (is_set t.fdset fd ≡ false)
      × ((j : ℕ) → j < fd → is_set t.fdset j ≡ true)
      × ((j : ℕ) → is_set t'.fdset j ≡ (if fd == j then true else is_set t.fdset j))
      × IsTight t'
unfolding alloc_fd occupy
alloc_fd_lem t tight room =
    let first = seek_unset_lem t.fdset (t.last_fd + 1) in
    elim (Option-cases (bitmap_seek_unset t.fdset (t.last_fd + 1))) [
      | inl full ↦
          let all = subst (IsFirst false t.fdset 0 (t.last_fd + 1)) full first in
          absurd (
            ground
              (arith, all t.last_fd (omega arith) (omega arith), tight t.last_fd (omega arith)))
      | inr (fd, found) ↦
          let (low, high, clear, below) =
            subst (IsFirst false t.fdset 0 (t.last_fd + 1)) found first in
          (
            fd,
            occupy fd t,
            rw (found, alloc_fd) refl,
            omega arith,
            clear,
            λ j lt. below j (omega arith) lt,
            λ j. bit_set_lem t.fdset fd j,
            alloc_fd-found t fd tight room high,
          )
    ]

clear-set :
    (t : Thread) (fd j : ℕ)
    → is_set t.fdset fd ≡ false
    → is_set (free_fd fd (occupy fd t)).fdset j ≡ is_set t.fdset j
unfolding free_fd occupy
clear-set t fd j unused = elim (Bool-cases (fd == j)) [
  | inl same ↦
      bit_clear_lem (bitmap_bit_set fd t.fdset) fd j
      ∙ rw same (sym unused ∙ ap (is_set t.fdset) (==→eq fd j same))
  | inr other ↦
      bit_clear_lem (bitmap_bit_set fd t.fdset) fd j
      ∙ rw other (bit_set_lem t.fdset fd j ∙ rw other refl)
]

-- free_fd of a descriptor that alloc_fd gave takes it back: the descriptors in use are those from
-- before the two calls.
pub free_fd-alloc_fd :
    (t t' : Thread) (fd : ℕ)
    → alloc_fd t ≡ some (fd, t')
    → (j : ℕ) → is_set (free_fd fd t').fdset j ≡ is_set t.fdset j
unfolding alloc_fd
free_fd-alloc_fd t t' fd e j =
    let first = seek_unset_lem t.fdset (t.last_fd + 1) in
    elim (Option-cases (bitmap_seek_unset t.fdset (t.last_fd + 1))) [
      | inl full ↦ absurd (none-ne-some (fd, t') (sym (rw (full, alloc_fd) refl) ∙ e))
      | inr (found_fd, found) ↦
          let (_, _, clear, _) = subst (IsFirst false t.fdset 0 (t.last_fd + 1)) found first in
          let q =
            some-injective (found_fd, occupy found_fd t) (fd, t') (rw (found, alloc_fd) at e) in
          subst (λ r. is_set (free_fd r.0 r.1).fdset j ≡ is_set t.fdset j) q
            (clear-set t found_fd j clear)
    ]
