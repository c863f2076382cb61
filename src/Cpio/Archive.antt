-- ===== src/Cpio/Archive.antt =====
-- cpio_read of kernel/fs/cpio.c on a well-formed archive.
use koowaldah.Base.{
  ℕ, zero, suc, ◌+◌, ◌*◌, ◌/◌, ◌%◌, ◌^◌, ◌<◌, ◌≡◌, refl, sym, ◌∙◌, arith, Bool, true, false,
  Bool-cases, inl, inr, ==_self, ne→==, lt→ltb, some, List, [], ◌∷◌, length,
}
use koowaldah.Base.Checked.{◌>>=◌}
use koowaldah.Klib.{Memory}
use koowaldah.Klib.Strings.{IsString, kstrcmp_lem}
use koowaldah.Cpio.{
  is_special, file_size, body_at, entry_at, CpioEntry, cpio_done, cpio_loop, cpio_read,
}
use koowaldah.Cpio.Layout.{
  CpioFile, file_name, IsField, trailer_name, IsFile, content_at, after_file, IsArchive,
  device_taken, Inserts, AllInserted,
}
use koowaldah.Cpio.Fields.{
  AreBytes, cpio2u16_lem, order_lem, align2_lem, is_special-IsNode, not_special, find_magic_lem,
}

file_size_lem :
    (order : Bool) (m : Memory) (r : ℕ) (f : CpioFile)
    → IsFile order m r f
    → file_size order r m ≡ length f.content
file_size_lem order m r f file =
    rw
      (
        cpio2u16_lem order m (r + 22) (length f.content / 65536) file.size_high,
        cpio2u16_lem order m (r + 24) (length f.content % 65536) file.size_low,
      )
      (omega arith)

body_at_lem :
    (order : Bool) (m : Memory) (r : ℕ) (f : CpioFile)
    → IsFile order m r f
    → body_at order r m ≡ content_at f r
body_at_lem order m r f file =
    let small = file.small_name in
    rw
      (
        cpio2u16_lem order m (r + 20) (length (file_name f) + 1) file.name_size,
        align2_lem (length (file_name f) + 1) (omega arith),
      )
      refl

-- The call for a file, and the place behind it.
abbrev IsEntry : Bool → Memory → ℕ → CpioFile → CpioEntry × ℕ → Type 0
IsEntry order m r f e = Inserts order m f e.0 × (e.1 ≡ after_file f r)

device_lem :
    (order : Bool) (m : Memory) (r : ℕ) (f : CpioFile)
    → IsFile order m r f
    → m (r + 15) * 2 ^ 16 + m (r + 14) ≡ device_taken order f
device_lem true m r f file =
    let (high, low) = file.device_field in
    let e : r + 14 + 1 ≡ r + 15 = omega arith in omega (arith, high, rw e at low, file.small_minor)
device_lem false m r f file =
    let (high, low) = file.device_field in
    let e : r + 14 + 1 ≡ r + 15 = omega arith in omega (arith, rw e at high, low, file.small_minor)

entry_at_lem :
    (order : Bool) (m : Memory) (r : ℕ) (f : CpioFile)
    → IsFile order m r f
    → IsEntry order m r f (entry_at order r m)
unfolding entry_at
entry_at_lem order m r f file =
    let mode = cpio2u16_lem order m (r + 6) f.mode file.mode_field in
    elim (Bool-cases (is_special f.mode)) [
      | inl special ↦
          let node = is_special-IsNode f.mode special in
          let none_left = file.node_empty node in
          let e : length f.content ≡ 0 = rw none_left refl in
          rw (mode, special)
            (
              record {
                name_arg = file.header.named;
                mode_arg = refl;
                len_arg = sym e;
                node_args = λ _. (refl, device_lem order m r f file);
                file_args = λ other. absurd (other node);
              },
              body_at_lem order m r f file ∙ omega (arith, e),
            )
      | inr plain ↦
          rw
            (
              mode,
              plain,
              body_at_lem order m r f file,
              file_size_lem order m r f file,
              align2_lem (length f.content) file.small,
            )
            (
              record {
                name_arg = file.header.named;
                mode_arg = refl;
                len_arg = refl;
                node_args = λ node. absurd (not_special f.mode plain node);
                file_args = λ _. (refl, content_at f r, refl, file.contents);
              },
              refl,
            )
    ]

-- Enough fuel for the bytes before a header and for its name.
abbrev AllFit : ℕ → List CpioFile → Type 0
AllFit strings [] = Unit {0}
AllFit strings (f ∷ fs) = (f.gap < strings) × (length (file_name f) < strings) × AllFit strings fs

abbrev trailer_rest : List ℕ
trailer_rest = 82 ∷ 65 ∷ 73 ∷ 76 ∷ 69 ∷ 82 ∷ 33 ∷ 33 ∷ 33 ∷ []

module _ (order : Bool) (m : Memory) (end trailer strings last : ℕ) (bytes : AreBytes m)
    (named : IsString m trailer trailer_name) (room : 10 < strings) (reach : last < strings) where
  cpio_loop_lem :
      (fuel t : ℕ) (files : List CpioFile)
      → IsArchive order m end last t files
      → AllFit strings files
      → length files < fuel
      → (es : List CpioEntry) × (cpio_loop fuel strings order end trailer t m ≡ some (cpio_done es))
        × AllInserted order m files es
  unfolding cpio_loop
  cpio_loop_lem zero t files archive fits enough = absurd (omega arith)
  cpio_loop_lem (suc fuel) t [] (gap, below, header) fits enough =
      let (d, compared, same, _) =
        kstrcmp_lem strings m (t + last + 26) trailer 84 84 trailer_rest trailer_rest header.named
          named (omega arith) (omega arith) in
      (
        [],
        rw
            (
              lt→ltb t end (omega arith),
              find_magic_lem strings last order end t m bytes gap below header.magic_field reach,
              cpio2u16_lem order m (t + last) 29127 header.magic_field,
              compared,
              same.1 refl,
              ==_self d.1,
              cpio_loop,
              ◌>>=◌,
            )
            refl,
        tt,
      )
  cpio_loop_lem (suc fuel) t (f ∷ fs) (gap, below, file, archive) (near, short, fits) enough =
      let (d, compared, same, _) =
        kstrcmp_lem strings m (t + f.gap + 26) trailer f.first 84 f.rest trailer_rest
          file.header.named named (omega arith) (omega arith) in
      let (inserts, next) = entry_at_lem order m (t + f.gap) f file in
      let (es, looped, inserted) =
        cpio_loop_lem fuel (after_file f (t + f.gap)) fs archive fits (omega arith) in
      (
        (entry_at order (t + f.gap) m).0 ∷ es,
        rw
            (
              lt→ltb t end (omega arith),
              find_magic_lem strings f.gap order end t m bytes gap below file.header.magic_field
                  near,
              cpio2u16_lem order m (t + f.gap) 29127 file.header.magic_field,
              compared,
              ne→== d.0 d.1 (λ e. file.no_trailer (same.0 e)),
              next,
              looped,
              cpio_loop,
              ◌>>=◌,
            )
            refl,
        (inserts, inserted),
      )

-- On an archive in either byte order, whose first header stands at the start and whose last one has the
-- trailer's name, with bytes below 256, the trailer's name also at the address that names are compared
-- with, and fuel for the files, the bytes between them and their names, cpio_read succeeds. It calls
-- fs_insert_entry once for each file, in the archive's order, with the name, the mode and the content
-- that the archive gives, or for a node the number of its device, in which major and minor have changed
-- places where the most significant byte comes first.
pub cpio_read_lem :
    (order : Bool) (m : Memory) (start end trailer fuel strings last : ℕ) (files : List CpioFile)
    → AreBytes m
    → IsString m trailer trailer_name
    → IsField order m start 29127
    → IsArchive order m end last start files
    → AllFit strings files
    → length files < fuel
    → 10 < strings
    → last < strings
    → (es : List CpioEntry) × (cpio_read fuel strings start end trailer m ≡ some (cpio_done es))
      × AllInserted order m files es
unfolding cpio_read
cpio_read_lem order m start end trailer fuel strings last files bytes named field archive fits
      enough room reach =
    rw (order_lem order m start field) (
      cpio_loop_lem order m end trailer strings last bytes named room reach fuel start files archive
        fits enough)
