-- ===== src/Cpio.antt =====
-- kernel/fs/cpio.c: the reader of the archive that the root file system is filled from. Its calls of
-- fs_insert_entry are recorded, in order. The bytes of a number are joined by `|`, which is `+` here.
pub mod Layout
pub mod Fields
pub mod Archive
use koowaldah.Base.{
  ℕ, zero, suc, ◌+◌, ◌*◌, ◌/◌, ◌%◌, ◌^◌, Bool, true, false, not, ◌&&◌, ◌||◌, List, [], ◌∷◌, Option,
  none, some, ◌==◌, ltb, if◌then◌else◌,
}
use koowaldah.Base.Checked.{◌>>=◌}
use koowaldah.Klib.{Memory, kstrcmp, roundup_l2}

-- MAGIC, 070707.
abbrev pub magic : ℕ
magic = 29127

-- sizeof(HD_BCPIO).
abbrev pub header_size : ℕ
header_size = 26

-- cpio2u16: the two bytes of a field.
unfoldable pub cpio2u16 : Bool → ℕ → Memory → ℕ
cpio2u16 reverse f m = if reverse then m f * 2 ^ 8 + m (f + 1) else m (f + 1) * 2 ^ 8 + m f

-- ALIGN2.
unfoldable pub align2 : ℕ → ℕ
align2 x = roundup_l2 x 2

-- The arguments of a call of fs_insert_entry; `none` for a NULL buffer.
pub record CpioEntry : Type 0 where
  pub name : ℕ
  pub mode : ℕ
  pub dev : ℕ
  pub buf : Option ℕ
  pub len : ℕ

-- How the reader ends, with its calls so far.
pub data CpioResult : Type 0 where
  cpio_done : List CpioEntry → CpioResult
  cpio_eio : List CpioEntry → CpioResult

abbrev pub after_call : CpioEntry → CpioResult → CpioResult
after_call e (cpio_done es) = cpio_done (e ∷ es)
after_call e (cpio_eio es) = cpio_eio (e ∷ es)

-- S_ISCHR or S_ISDIR.
unfoldable pub is_special : ℕ → Bool
is_special mode = (mode / 2 ^ 12 % 2 ^ 4 == 2) || (mode / 2 ^ 12 % 2 ^ 4 == 4)

-- The search for the magic number from `t` on.
unfoldable pub find_magic : ℕ → Bool → ℕ → ℕ → Memory → Option ℕ
find_magic zero reverse end t m = none
find_magic (suc fuel) reverse end t m =
    let rest = find_magic fuel reverse end (t + 1) m in
    if ltb t end && not (cpio2u16 reverse t m == magic) then rest else some t

abbrev pub file_size : Bool → ℕ → Memory → ℕ
file_size reverse t m = cpio2u16 reverse (t + 22) m * 2 ^ 16 + cpio2u16 reverse (t + 24) m

-- The address behind the name of the entry at `t`.
abbrev pub body_at : Bool → ℕ → Memory → ℕ
body_at reverse t m = t + header_size + align2 (cpio2u16 reverse (t + 20) m)

-- The call for the entry at `t`, and the address of the next entry.
unfoldable pub entry_at : Bool → ℕ → Memory → CpioEntry × ℕ
entry_at reverse t m =
    let mode = cpio2u16 reverse (t + 6) m in
    if is_special mode
    then (
      record {
        name = t + header_size;
        mode = mode;
        dev = m (t + 15) * 2 ^ 16 + m (t + 14);
        buf = none;
        len = 0;
      },
      body_at reverse t m,
    )
    else (
      record {
        name = t + header_size;
        mode = mode;
        dev = 0;
        buf = some (body_at reverse t m);
        len = file_size reverse t m;
      },
      body_at reverse t m + align2 (file_size reverse t m),
    )

-- The loop over the entries; `trailer` is the address of the string TRAILER, and `strings` the fuel for
-- the search and for the comparison of names.
unfoldable pub cpio_loop : ℕ → ℕ → Bool → ℕ → ℕ → ℕ → Memory → Option CpioResult
cpio_loop zero strings reverse end trailer t m = none
cpio_loop (suc fuel) strings reverse end trailer t m = elim (ltb t end) [
  | false ↦ some (cpio_done [])
  | true ↦ (do
    r ← find_magic strings reverse end t m
    elim (cpio2u16 reverse r m == magic) [
      | false ↦ some (cpio_eio [])
      | true ↦ (do
        d ← kstrcmp strings (r + header_size) trailer m
        elim (d.0 == d.1) [
          | true ↦ some (cpio_done [])
          | false ↦ (do
            result ← cpio_loop fuel strings reverse end trailer (entry_at reverse r m).1 m
            some (after_call (entry_at reverse r m).0 result))
        ])
    ])
]

-- cpio_read, for the archive from `start` to `end`.
unfoldable pub cpio_read : ℕ → ℕ → ℕ → ℕ → ℕ → Memory → Option CpioResult
cpio_read fuel strings start end trailer m =
    cpio_loop fuel strings (cpio2u16 true start m == magic) end trailer start m
