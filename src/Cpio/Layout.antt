-- ===== src/Cpio/Layout.antt =====
-- The layout of a cpio archive in memory, written without the code of kernel/fs/cpio.c.
use koowaldah.Base.{
  ℕ, ◌+◌, ◌*◌, ◌/◌, ◌%◌, ◌^◌, ◌<◌, ◌≡◌, ◌≢◌, ◌⊎◌, Bool, true, false, List, [], ◌∷◌, none, some,
  length,
}
use koowaldah.Klib.{Memory}
use koowaldah.Klib.Strings.{IsString}
use koowaldah.Cpio.{CpioEntry}

-- A file of an archive; `gap` is the number of bytes before its header that belong to no file.
pub record CpioFile : Type 0 where
  pub gap : ℕ
  pub first : ℕ
  pub rest : List ℕ
  pub mode : ℕ
  pub major : ℕ
  pub minor : ℕ
  pub content : List ℕ

abbrev pub file_name : CpioFile → List ℕ
file_name f = f.first ∷ f.rest

-- A number of 16 bits in either order of its bytes, the most significant one first for `true`.
abbrev pub IsField : Bool → Memory → ℕ → ℕ → Type 0
IsField true m p v = (m p ≡ v / 256) × (m (p + 1) ≡ v % 256)
IsField false m p v = (m (p + 1) ≡ v / 256) × (m p ≡ v % 256)

abbrev pub HasBytes : Memory → ℕ → List ℕ → Type 0
HasBytes m p [] = Unit {0}
HasBytes m p (c ∷ cs) = (m p ≡ c) × HasBytes m (p + 1) cs

-- The length with the byte that makes it even.
abbrev pub padded : ℕ → ℕ
padded n = n + n % 2

-- A character device or a directory, by the four bits of the mode that give the type.
abbrev pub IsNode : ℕ → Type 0
IsNode mode = (mode / 4096 % 16 ≡ 2) ⊎ (mode / 4096 % 16 ≡ 4)

-- `!` is 33.
abbrev pub trailer_name : List ℕ
trailer_name = 84 ∷ 82 ∷ 65 ∷ 73 ∷ 76 ∷ 69 ∷ 82 ∷ 33 ∷ 33 ∷ 33 ∷ []

-- A header at `r` that starts with the magic number 070707 and is followed by its name.
pub record IsHeader (order : Bool) (m : Memory) (r first : ℕ) (rest : List ℕ) : Type 0 where
  pub magic_field : IsField order m r 29127
  pub named : IsString m (r + 26) (first ∷ rest)

-- The bytes from `t` on that are no header.
abbrev pub IsGap : Bool → Memory → ℕ → ℕ → Type 0
IsGap order m t gap = (i : ℕ) → i < gap → ¬ IsField order m (t + i) 29127

abbrev pub content_at : CpioFile → ℕ → ℕ
content_at f r = r + 26 + padded (length (file_name f) + 1)

-- A file with its header at `r`: the sizes count the zero byte of the name, and a node has no content.
pub record IsFile (order : Bool) (m : Memory) (r : ℕ) (f : CpioFile) : Type 0 where
  pub header : IsHeader order m r f.first f.rest
  pub mode_field : IsField order m (r + 6) f.mode
  pub device_field : IsField order m (r + 14) (f.major * 256 + f.minor)
  pub small_minor : f.minor < 256
  pub name_size : IsField order m (r + 20) (length (file_name f) + 1)
  pub size_high : IsField order m (r + 22) (length f.content / 65536)
  pub size_low : IsField order m (r + 24) (length f.content % 65536)
  pub contents : HasBytes m (content_at f r) f.content
  pub node_empty : IsNode f.mode → f.content ≡ []
  pub small_name : length (file_name f) < 65535
  pub small : length f.content + 2 < 2 ^ 32
  pub no_trailer : file_name f ≢ trailer_name

abbrev pub after_file : CpioFile → ℕ → ℕ
after_file f r = content_at f r + padded (length f.content)

-- The files one behind the other from `t` on, and a last header with the trailer's name; every header
-- starts below `end`.
abbrev pub IsArchive : Bool → Memory → ℕ → ℕ → ℕ → List CpioFile → Type 0
IsArchive order m end last t [] =
    IsGap order m t last
    × (t + last < end)
    × IsHeader order m (t + last) 84 (82 ∷ 65 ∷ 73 ∷ 76 ∷ 69 ∷ 82 ∷ 33 ∷ 33 ∷ 33 ∷ [])
IsArchive order m end last t (f ∷ fs) =
    IsGap order m t f.gap
    × (t + f.gap < end)
    × IsFile order m (t + f.gap) f
    × IsArchive order m end last (after_file f (t + f.gap)) fs

-- The number of the device that the reader takes: major and minor change places where the most
-- significant byte comes first.
abbrev pub device_taken : Bool → CpioFile → ℕ
device_taken false f = f.major * 65536 + f.minor
device_taken true f = f.minor * 65536 + f.major

-- The call that inserts the file: its name, and either the number of the device or the content.
pub record Inserts (order : Bool) (m : Memory) (f : CpioFile) (e : CpioEntry) : Type 0 where
  pub name_arg : IsString m e.name (file_name f)
  pub mode_arg : e.mode ≡ f.mode
  pub len_arg : e.len ≡ length f.content
  pub node_args : IsNode f.mode → (e.buf ≡ none) × (e.dev ≡ device_taken order f)
  pub file_args :
      ¬ IsNode f.mode → (e.dev ≡ 0) × (p : ℕ) × (e.buf ≡ some p) × HasBytes m p f.content

-- One call for each file, in the order of the archive.
abbrev pub AllInserted : Bool → Memory → List CpioFile → List CpioEntry → Type 0
AllInserted order m [] [] = Unit {0}
AllInserted order m [] (e ∷ es) = ⊥
AllInserted order m (f ∷ fs) [] = ⊥
AllInserted order m (f ∷ fs) (e ∷ es) = Inserts order m f e × AllInserted order m fs es
