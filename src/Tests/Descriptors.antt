-- ===== src/Tests/Descriptors.antt =====
-- kernel/fs/file.c: a thread as thread_create leaves it, and its first descriptors.
use native.Mathlib.Nat.{zero-div}
use koowaldah.Base.{
  ℕ, ◌≤◌, ◌<◌, ◌%◌, ◌^◌, true, false, some, [], ◌≡◌, ◌==◌, refl, arith, if◌then◌else◌, ap,
}
use koowaldah.Bitmap.{test_bit, or_bit, bitmap_seek_unset, bitmap_bit_set}
use koowaldah.Bitmap.Access.{is_set}
use koowaldah.Files.{Thread, occupy, alloc_fd}
use koowaldah.Files.Descriptors.{IsTight, alloc_fd_lem}

abbrev fresh : Thread
fresh = record { fdset = λ _. 0; last_fd = 0; files = [] }

fresh-IsTight : IsTight fresh
unfolding is_set test_bit
fresh-IsTight j from = ap (λ (v : ℕ). v % 2 == 1) (zero-div (2 ^ (j % 32)))

alloc_fd_lem_example :
    (fd : ℕ) × (t' : Thread) × (alloc_fd fresh ≡ some (fd, t'))
    × (fd ≤ 0)
    × (is_set fresh.fdset fd ≡ false)
    × ((j : ℕ) → j < fd → is_set fresh.fdset j ≡ true)
    × ((j : ℕ) → is_set t'.fdset j ≡ (if fd == j then true else is_set fresh.fdset j))
    × IsTight t'
alloc_fd_lem_example = alloc_fd_lem fresh fresh-IsTight (omega arith)

-- Two descriptors in a row are 0 and 1.
second_fd : alloc_fd (occupy 0 fresh) ≡ some (1, occupy 1 (occupy 0 fresh))
unfolding alloc_fd occupy bitmap_seek_unset bitmap_bit_set test_bit or_bit
second_fd = refl
