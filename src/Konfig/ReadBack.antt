-- ===== src/Konfig/ReadBack.antt =====
-- The whole KONFIG file: read_konfig behind writeback.
use koowaldah.Base.{
  Bool, none, if◌then◌else◌, Bool-cases, inl, inr, ◌==◌, ◌||◌, ℕ, ◌+◌, ◌≡◌, refl, sym, ap, ◌∙◌,
  List, [], ◌∷◌, ◌++◌, append_assoc, some, true, false,
}
use koowaldah.Konfig.{Result, ok, Value, Koption, put_value, setval_loop}
use koowaldah.Konfig.Text.{codes, str_eq, str_eq_self, split_at}
use koowaldah.Konfig.Out.{
  lf, Files, value_text, header_line, kopt2header, kopt2make, section_text, write_loop, writeback,
}
use koowaldah.Konfig.Input.{
  read_konfig, read_lines, get_lines, read_stale, ends_line, parse_line, skip_blanks,
}
use koowaldah.Konfig.Lines.{read_text, NoEquals}
use koowaldah.Konfig.RoundTrip.{
  IsPrintable, IsWritable, SameType, booleans, tristates, ints, strings, others, value_back,
  section_text-read, kopt2konfig-read,
}

-- No option of the list has the name.
abbrev pub Unused : List ℕ → List Koption → Type 0
Unused name [] = Unit
Unused name (o ∷ os) = (str_eq o.name name ≡ false) × Unused name os

-- No name of an option stands in `done`.
abbrev AllUnused : List Koption → List Koption → Type 0
AllUnused done [] = Unit
AllUnused done (o ∷ os) = Unused o.name done × AllUnused done os

-- No option has the name of one before it.
abbrev pub Distinct : List Koption → Type 0
Distinct [] = Unit
Distinct (o ∷ os) = AllUnused (o ∷ []) os × Distinct os

-- The same options, perhaps with other values.
abbrev pub Twins : List Koption → List Koption → Type 0
Twins [] [] = Unit
Twins [] (b ∷ bs) = ⊥
Twins (o ∷ os) [] = ⊥
Twins (o ∷ os) (b ∷ bs) = (o.name ≡ b.name) × SameType o.def b.def × Twins os bs

abbrev pub AllPrintable : List Koption → Type 0
AllPrintable [] = Unit
AllPrintable (o ∷ os) = IsPrintable o × AllPrintable os

-- The second options with the values of the first, each set once more.
abbrev pub adopt : List Koption → List Koption → List Koption
adopt [] bs = bs
adopt (o ∷ os) [] = []
adopt (o ∷ os) (b ∷ bs) = record b { def = o.def; user_set = b.user_set + 1 } ∷ adopt os bs

setval_loop-Unused :
    (name v : List ℕ) (done bs : List Koption) (b : Koption)
    → Unused name done
    → b.name ≡ name
    → setval_loop name v (done ++ b ∷ bs) ≡ some (done ++ put_value v b ∷ bs)
unfolding setval_loop
setval_loop-Unused name v [] bs b un e = rw (e, str_eq_self name) refl
setval_loop-Unused name v (d ∷ done) bs b (ne, un) e =
    rw (ne, setval_loop-Unused name v done bs b un e) refl

Unused-append :
    (name : List ℕ) (done : List Koption) (b : Koption)
    → Unused name done
    → str_eq b.name name ≡ false
    → Unused name (done ++ b ∷ [])
Unused-append name [] b un ne = (ne, tt)
Unused-append name (d ∷ done) b (first, un) ne = (first, Unused-append name done b un ne)

AllUnused-append :
    (done os : List Koption) (b : Koption)
    → AllUnused done os
    → AllUnused (b ∷ []) os
    → AllUnused (done ++ b ∷ []) os
AllUnused-append done [] b un ne = tt
AllUnused-append done (o ∷ os) b (un, all) ((ne, _), news) =
    (Unused-append o.name done b un ne, AllUnused-append done os b all news)

AllUnused-renamed :
    (o b : Koption) (os : List Koption)
    → o.name ≡ b.name
    → AllUnused (o ∷ []) os
    → AllUnused (b ∷ []) os
AllUnused-renamed o b [] e all = tt
AllUnused-renamed o b (p ∷ os) e ((ne, _), all) =
    ((ap (λ n. str_eq n p.name) (sym e) ∙ ne, tt), AllUnused-renamed o b os e all)

header_line_ok :
    {d e : Value} (name : List ℕ)
    → IsWritable d
    → SameType d e
    → (t : List ℕ) × (header_line name d ≡ ok t)
unfolding header_line
header_line_ok name ok_value (booleans v w) = (_, refl)
header_line_ok name ok_value (tristates v w) = (_, refl)
header_line_ok name ok_value (ints v w) = (_, refl)
header_line_ok name ok_value (strings s t) = (_, refl)
header_line_ok name ok_value (others t) = absurd ok_value

other_texts :
    (o : Koption) (v : List ℕ) {e : Value}
    → value_text o.def ≡ ok v
    → IsWritable o.def
    → SameType o.def e
    → (h m : List ℕ) × (kopt2header o ≡ ok h) × (kopt2make o ≡ ok m)
unfolding kopt2header kopt2make
other_texts o v val good same =
    let (line, is_line) = header_line_ok o.name good same in
    (
      codes "/* " ++ (o.desc ++ (codes " */" ++ (lf ++ line))),
      codes "# " ++ (o.desc ++ 10 ∷ (codes "MK_" ++ (o.name ++ (codes " := " ++ (v ++ lf))))),
      rw is_line refl,
      rw val refl,
    )

read_nothing : (opts : List Koption) → read_text [] opts ≡ ok opts
unfolding get_lines read_lines
read_nothing opts = refl

-- The one option that a round restores.
abbrev adopt_one : Koption → Koption → Koption
adopt_one o b = record b { def = o.def; user_set = b.user_set + 1 }

-- writeback writes the rest of the options, and reading it gives the rest of the values.
read_back :
    (ksec : ℕ) (opts done base : List Koption)
    → AllPrintable opts
    → Distinct opts
    → AllUnused done opts
    → Twins opts base
    → (files : Files) × (write_loop ksec opts ≡ ok files)
      × (read_text files.konfig (done ++ base) ≡ ok (done ++ adopt opts base))
unfolding write_loop
read_back ksec [] done [] pr di un tw =
    (record { konfig = []; header = []; make = [] }, refl, read_nothing (done ++ []))
read_back ksec [] done (b ∷ bs) pr di un tw = elim tw [ ]
read_back ksec (o ∷ os) done [] pr di un tw = elim tw [ ]
read_back ksec (o ∷ os) done (b ∷ bs) (p, pr) (new, di) (un, all) (same_name, same_type, tw) =
    let (v, val, pv, fits, back) = value_back p.5 same_type in
    let done' = done ++ adopt_one o b ∷ [] in
    let new' = AllUnused-renamed o (adopt_one o b) os same_name new in
    let unused = AllUnused-append done os (adopt_one o b) all new' in
    let (files, run, read) = read_back o.section.addr os done' bs pr di unused tw in
    let put = setval_loop-Unused o.name v done bs b un (sym same_name) in
    let (text, konfig, reads) =
      kopt2konfig-read o v files.konfig (done ++ b ∷ bs) (done ++ put_value v b ∷ bs) p val pv fits
        put in
    let (h, m, header, make) = other_texts o v val p.5 same_type in
    let before = section_text ksec o.section in
    (
      record {
        konfig = before.konfig ++ (text ++ files.konfig);
        header = before.header ++ (h ++ files.header);
        make = before.make ++ (m ++ files.make);
      },
      rw (konfig, header, make, run) refl,
      section_text-read ksec o.section (text ++ files.konfig) (done ++ b ∷ bs) p.1
          ∙ reads
          ∙ ap
              (λ d.
                read_text files.konfig
                  (done ++ record b { def = d; user_set = b.user_set + 1 } ∷ bs))
              back
          ∙ ap (read_text files.konfig) (sym (append_assoc done (adopt_one o b ∷ []) bs))
          ∙ read
          ∙ ap ok (append_assoc done (adopt_one o b ∷ []) (adopt os bs)),
    )

all_unused : (opts : List Koption) → AllUnused [] opts
all_unused [] = tt
all_unused (o ∷ os) = (tt, all_unused os)

skip_blanks-NoEquals : (s : List ℕ) → NoEquals s → NoEquals (skip_blanks s)
unfolding skip_blanks
skip_blanks-NoEquals [] no_eq = tt
skip_blanks-NoEquals (c ∷ s) (ne, no_eq) = elim (Bool-cases (c == b' ' || c == 9)) [
  | inl blank ↦ rw blank (skip_blanks-NoEquals s no_eq)
  | inr letter ↦ rw letter (ne, no_eq)
]

split_at-none : (s : List ℕ) → NoEquals s → split_at b'=' s ≡ none
unfolding split_at
split_at-none [] no_eq = refl
split_at-none (c ∷ s) (ne, no_eq) = rw (ne, split_at-none s no_eq) refl

parse_line-NoEquals : (s : List ℕ) (opts : List Koption) → NoEquals s → parse_line s opts ≡ ok opts
unfolding parse_line
parse_line-NoEquals [] opts no_eq = refl
parse_line-NoEquals (c ∷ s) opts no_eq = elim (Bool-cases (c == b'#')) [
  | inl comment ↦ rw comment refl
  | inr other ↦ rw (other, split_at-none (c ∷ s) no_eq) refl
]

same_branch :
    (ends : Bool) (r : Result (List Koption)) (opts : List Koption)
    → r ≡ ok opts
    → (if ends then r else ok opts) ≡ ok opts
same_branch true r opts e = e
same_branch false r opts e = refl

-- The last round leaves the options alone if the buffer of the failed getline holds no assignment.
read_konfig_text :
    (file stale : List ℕ) (opts opts' : List Koption)
    → NoEquals stale
    → read_text file opts ≡ ok opts'
    → read_konfig (some file) (some stale) opts ≡ ok opts'
unfolding read_konfig read_stale
read_konfig_text file stale opts opts' no_eq e = rw e (
    same_branch (ends_line file) (parse_line (skip_blanks stale) opts') opts'
      (parse_line-NoEquals (skip_blanks stale) opts' (skip_blanks-NoEquals stale no_eq)))

-- If the three files open, and the options are of distinct names and printable (no line feed in a text,
-- no '=' in a name, names of less than 28 bytes, values that a line can hold), writeback ends, and
-- read_konfig of the KONFIG that it wrote gives each option of another array, with the same names and
-- types in the same order, the value that was written, and counts it as set once more. Of the round
-- behind the last line, in which getline fails, it is assumed that the write in front of the buffer is
-- no fault and that the string in the buffer has no '='.
pub read_konfig-writeback :
    (opts base : List Koption) (stale : List ℕ)
    → AllPrintable opts
    → Distinct opts
    → Twins opts base
    → NoEquals stale
    → (files : Files) × (writeback true true true opts ≡ ok files)
      × (read_konfig (some files.konfig) (some stale) base ≡ ok (adopt opts base))
unfolding writeback
read_konfig-writeback opts base stale pr di tw no_eq =
    let (files, wrote, read) = read_back 0 opts [] base pr di (all_unused opts) tw in
    (files, wrote, read_konfig_text files.konfig stale base (adopt opts base) no_eq read)
