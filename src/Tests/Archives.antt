-- ===== src/Tests/Archives.antt =====
-- kernel/fs/cpio.c: an archive of a file, a byte that belongs to none, a character device and the
-- trailer, with the less significant byte of a number first, and the string TRAILER behind it.
use koowaldah.Base.{ℕ, zero, suc, ◌%◌, ◌≡◌, refl, arith, false, List, [], ◌∷◌, some}
use koowaldah.Klib.{Memory}
use koowaldah.Klib.Strings.{IsString}
use koowaldah.Cpio.{CpioEntry, cpio_done, cpio_read}
use koowaldah.Cpio.Layout.{CpioFile, IsGap, IsFile, AllInserted, trailer_name}
use koowaldah.Cpio.Fields.{AreBytes}
use koowaldah.Cpio.Archive.{cpio_read_lem}
use native.Mathlib.Nat.{mod-lt}

abbrev byte_at : List ℕ → ℕ → ℕ
byte_at [] p = 0
byte_at (c ∷ cs) zero = c
byte_at (c ∷ cs) (suc p) = byte_at cs p

abbrev bytes : List ℕ
bytes =
    199 ∷ 113 ∷ 0 ∷ 0 ∷ 0 ∷ 0 ∷ 164 ∷ 129 ∷ 0 ∷ 0 ∷ 0 ∷ 0 ∷ 0 ∷ 0 ∷ 0 ∷ 0 ∷ 0 ∷ 0 ∷ 0 ∷ 0 ∷ 2 ∷ 0
    ∷ 0 ∷ 0 ∷ 3 ∷ 0 ∷ 97 ∷ 0 ∷ 104 ∷ 105 ∷ 33 ∷ 0 ∷ 7 ∷ 199 ∷ 113 ∷ 0 ∷ 0 ∷ 0 ∷ 0 ∷ 0 ∷ 32 ∷ 0 ∷ 0
    ∷ 0 ∷ 0 ∷ 0 ∷ 0 ∷ 5 ∷ 1 ∷ 0 ∷ 0 ∷ 0 ∷ 0 ∷ 2 ∷ 0 ∷ 0 ∷ 0 ∷ 0 ∷ 0 ∷ 99 ∷ 0 ∷ 199 ∷ 113 ∷ 0 ∷ 0 ∷ 0
    ∷ 0 ∷ 0 ∷ 0 ∷ 0 ∷ 0 ∷ 0 ∷ 0 ∷ 0 ∷ 0 ∷ 0 ∷ 0 ∷ 0 ∷ 0 ∷ 0 ∷ 0 ∷ 11 ∷ 0 ∷ 0 ∷ 0 ∷ 0 ∷ 0 ∷ 84 ∷ 82
    ∷ 65 ∷ 73 ∷ 76 ∷ 69 ∷ 82 ∷ 33 ∷ 33 ∷ 33 ∷ 0 ∷ 84 ∷ 82 ∷ 65 ∷ 73 ∷ 76 ∷ 69 ∷ 82 ∷ 33 ∷ 33 ∷ 33
    ∷ 0 ∷ []

abbrev archive : Memory
archive p = byte_at bytes p % 256

archive-AreBytes : AreBytes archive
archive-AreBytes p = mod-lt (byte_at bytes p) {m = 256} (omega arith)

abbrev text_file : CpioFile
text_file = record {
  gap = 0;
  first = 97;
  rest = [];
  mode = 33188;
  major = 0;
  minor = 0;
  content = 104 ∷ 105 ∷ 33 ∷ [];
}

abbrev device_file : CpioFile
device_file = record {
  gap = 1;
  first = 99;
  rest = [];
  mode = 8192;
  major = 1;
  minor = 5;
  content = [];
}

no-IsGap : (t : ℕ) → IsGap false archive t 0
no-IsGap t i lt = absurd (omega (arith, lt))

one-IsGap : IsGap false archive 32 1
one-IsGap zero lt = λ (high, low). absurd (omega (arith, high))
one-IsGap (suc i) lt = absurd (omega (arith, lt))

trailer_named : IsString archive 98 trailer_name
trailer_named = ground arith

text-IsFile : IsFile false archive 0 text_file
text-IsFile = record {
  header = record { magic_field = (refl, refl); named = ground arith };
  mode_field = (refl, refl);
  device_field = (refl, refl);
  small_minor = omega arith;
  name_size = (refl, refl);
  size_high = (refl, refl);
  size_low = (refl, refl);
  contents = ground arith;
  node_empty = ground arith;
  small_name = omega arith;
  small = omega arith;
  no_trailer = λ e. cc;
}

device-IsFile : IsFile false archive 33 device_file
device-IsFile = record {
  header = record { magic_field = (refl, refl); named = ground arith };
  mode_field = (refl, refl);
  device_field = (refl, refl);
  small_minor = omega arith;
  name_size = (refl, refl);
  size_high = (refl, refl);
  size_low = (refl, refl);
  contents = tt;
  node_empty = λ _. refl;
  small_name = omega arith;
  small = omega arith;
  no_trailer = λ e. cc;
}

cpio_read_lem_example :
    (es : List CpioEntry) × (cpio_read 3 11 0 98 98 archive ≡ some (cpio_done es))
    × AllInserted false archive (text_file ∷ device_file ∷ []) es
cpio_read_lem_example =
    cpio_read_lem false archive 0 98 98 3 11 0 (text_file ∷ device_file ∷ []) archive-AreBytes
      trailer_named (refl, refl)
      (
        no-IsGap 0,
        omega arith,
        text-IsFile,
        (
          one-IsGap,
          omega arith,
          device-IsFile,
          (no-IsGap 61, omega arith, record { magic_field = (refl, refl); named = ground arith }),
        ),
      )
      (omega arith, omega arith, (omega arith, omega arith, tt)) (omega arith) (omega arith)
      (omega arith)
