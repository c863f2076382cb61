-- ===== src/Files.antt =====
-- kernel/fs/file.c: the descriptors of a thread (include/thread.h: `fdset`, `last_fd`, `files`).
-- The klist0 list `files` is the list of its members, first to last, as Klist.Laws allows; a file is
-- given by its descriptor and the address of its object.
pub mod Descriptors
use koowaldah.Base.{ℕ, ◌+◌, Bool, ◌&&◌, Option, none, some, List, [], ◌∷◌, ◌==◌, ltb, if◌then◌else◌}
use koowaldah.Bitmap.{Bitmap, bitmap_seek_unset, bitmap_bit_set, bitmap_bit_clear}

-- FS_MAX_FDS
abbrev pub fs_max_fds : ℕ
fs_max_fds = 256

pub record File : Type 0 where
  pub f_fd : ℕ
  pub object : ℕ

pub record Thread : Type 0 where
  pub fdset : Bitmap
  pub last_fd : ℕ
  pub files : List File

-- What alloc_fd does with the descriptor that the search found.
unfoldable pub occupy : ℕ → Thread → Thread
occupy fd t = record t {
  last_fd = if (fd == t.last_fd) && ltb t.last_fd fs_max_fds then t.last_fd + 1 else t.last_fd;
  fdset = bitmap_bit_set fd t.fdset;
}

-- alloc_fd; `none` is -EBADF.
unfoldable pub alloc_fd : Thread → Option (ℕ × Thread)
alloc_fd t = elim (bitmap_seek_unset t.fdset (t.last_fd + 1)) [
  | none ↦ none
  | some fd ↦ some (fd, occupy fd t)
]

unfoldable pub free_fd : ℕ → Thread → Thread
free_fd fd t = record t { fdset = bitmap_bit_clear fd t.fdset }

-- The search of fd2file; `none` is NULL.
unfoldable pub find_file : ℕ → List File → Option File
find_file fd [] = none
find_file fd (f ∷ files) = if f.f_fd == fd then some f else find_file fd files

unfoldable pub fd2file : ℕ → Thread → Option File
fd2file fd t = if ltb t.last_fd fd then none else find_file fd t.files
