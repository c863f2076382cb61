-- ===== src/Konfig/Out.antt =====
-- The writers of konfig/kout.c: each function gives the text that it appends to its file.
use koowaldah.Base.{ℕ, List, [], ◌∷◌, ◌++◌, Bool, ◌||◌, ◌==◌, if◌then◌else◌}
use koowaldah.Konfig.{Result, ok, exit_failure, fault, ◌>>=◌, Value, Ksection, Koption}
use koowaldah.Konfig.Text.{codes, print_d}

-- Line feed.
abbrev pub lf : List ℕ
lf = 10 ∷ []

-- The value as KONFIG and the makefile have it. An option of an unknown type ends the program.
unfoldable pub value_text : Value → Result (List ℕ)
value_text (Value.boolean v) = ok (v ∷ [])
value_text (Value.tristate v) = ok (v ∷ [])
value_text (Value.int v) = ok (print_d v)
value_text (Value.string s) = ok s
value_text (Value.other t) = exit_failure

unfoldable pub kopt2konfig : Koption → Result (List ℕ)
unfolding value_text
kopt2konfig o = do
  v ← value_text o.def
  ok (codes "# " ++ (o.desc ++ 10 ∷ (codes "OPT_" ++ (o.name ++ b'=' ∷ (v ++ lf)))))

-- The line of a header for a flag.
abbrev pub flag_line : Bool → List ℕ → List ℕ
flag_line on name = (if on then codes "#define OPT_" else codes "#undef OPT_") ++ (name ++ lf)

unfoldable pub header_line : List ℕ → Value → Result (List ℕ)
header_line name (Value.boolean v) = ok (flag_line (v == b'Y') name)
header_line name (Value.tristate v) = ok (flag_line (v == b'Y' || v == b'M') name)
header_line name (Value.int v) = ok (codes "#define OPT_" ++ (name ++ b' ' ∷ (print_d v ++ lf)))
header_line name (Value.string s) =
    ok (codes "#define OPT_" ++ (name ++ codes " \"" ++ (s ++ (codes "\"" ++ lf))))
header_line name (Value.other t) = exit_failure

unfoldable pub kopt2header : Koption → Result (List ℕ)
unfolding header_line
kopt2header o = do
  line ← header_line o.name o.def
  ok (codes "/* " ++ (o.desc ++ (codes " */" ++ (lf ++ line))))

unfoldable pub kopt2make : Koption → Result (List ℕ)
unfolding value_text
kopt2make o = do
  v ← value_text o.def
  ok (codes "# " ++ (o.desc ++ 10 ∷ (codes "MK_" ++ (o.name ++ (codes " := " ++ (v ++ lf))))))

unfoldable pub ksec2konfig : Ksection → List ℕ
ksec2konfig sec =
    codes "# "
    ++ (sec.desc
        ++ 10
          ∷ (codes "# (" ++ (print_d sec.items ++ (codes " options)" ++ 10 ∷ b'#' ∷ 10 ∷ 10 ∷ []))))

unfoldable pub ksec2header : Ksection → List ℕ
ksec2header sec =
    codes "/*"
    ++ 10
      ∷ (codes " * "
          ++ (sec.desc
              ++ 10
                ∷ (codes " * ("
                    ++ (print_d sec.items
                        ++ (codes " options)" ++ 10 ∷ (codes " */" ++ 10 ∷ 10 ∷ []))))))

unfoldable pub ksec2make : Ksection → List ℕ
unfolding ksec2konfig
ksec2make sec = ksec2konfig sec

abbrev pub ws2konfig : List ℕ
ws2konfig = 10 ∷ 10 ∷ []

abbrev pub ws2header : List ℕ
ws2header = 10 ∷ 10 ∷ []

abbrev pub ws2make : List ℕ
ws2make = 10 ∷ 10 ∷ []

-- The three files.
pub record Files : Type 0 where
  pub konfig : List ℕ
  pub header : List ℕ
  pub make : List ℕ

-- What stands before an option, if the section before it is that at `ksec` (0 if there was none).
unfoldable pub section_text : ℕ → Ksection → Files
unfolding ksec2konfig ksec2header ksec2make
section_text ksec sec =
    if sec.addr == ksec
    then record { konfig = []; header = []; make = [] }
    else if ksec == 0
    then record { konfig = ksec2konfig sec; header = ksec2header sec; make = ksec2make sec }
    else record {
      konfig = ws2konfig ++ ksec2konfig sec;
      header = ws2header ++ ksec2header sec;
      make = ws2make ++ ksec2make sec;
    }

-- The loop of writeback: what it still writes.
unfoldable pub write_loop : ℕ → List Koption → Result Files
unfolding section_text kopt2konfig kopt2header kopt2make
write_loop ksec [] = ok (record { konfig = []; header = []; make = [] })
write_loop ksec (o ∷ os) = do
  let before = section_text ksec o.section
  konfig ← kopt2konfig o
  header ← kopt2header o
  make ← kopt2make o
  rest ← write_loop o.section.addr os
  ok (record {
    konfig = before.konfig ++ (konfig ++ rest.konfig);
    header = before.header ++ (header ++ rest.header);
    make = before.make ++ (make ++ rest.make);
  })

-- The three flags say which files fopen opened. The check of the third looks at the second again.
unfoldable pub writeback : Bool → Bool → Bool → List Koption → Result Files
unfolding write_loop
writeback konfig_file header_file make_file opts =
    if konfig_file
    then (if header_file then (if make_file then write_loop 0 opts else fault) else exit_failure)
    else exit_failure
