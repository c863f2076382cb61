-- ===== src/Konfig/Input.antt =====
-- read_konfig and main of konfig/konfigure.c.
use koowaldah.Base.{
  ℕ, List, [], ◌∷◌, length, Option, none, some, Bool, true, ◌&&◌, ◌||◌, ◌==◌, ltb, if◌then◌else◌,
}
use koowaldah.Konfig.{Result, ok, fault, ◌>>=◌, Koption, kopt_setval, process_konfig}
use koowaldah.Konfig.Text.{split_at}
use koowaldah.Konfig.Out.{Files, writeback}

abbrev pub optname_max : ℕ
optname_max = 32

abbrev pub value_max : ℕ
value_max = 256

abbrev pub cons_first : ℕ → List (List ℕ) → List (List ℕ)
cons_first c [] = (c ∷ []) ∷ []
cons_first c (l ∷ ls) = (c ∷ l) ∷ ls

-- The lines that successive calls of getline give, each with the line feed that ends it.
unfoldable pub get_lines : List ℕ → List (List ℕ)
get_lines [] = []
get_lines (c ∷ s) =
    let rest = get_lines s in if c == 10 then (10 ∷ []) ∷ rest else cons_first c rest

-- `line[line_len - 1] = 0`.
unfoldable pub kill_last : List ℕ → List ℕ
kill_last [] = []
kill_last (c ∷ []) = []
kill_last (c ∷ d ∷ s) = c ∷ kill_last (d ∷ s)

unfoldable pub skip_blanks : List ℕ → List ℕ
skip_blanks [] = []
skip_blanks (c ∷ s) = let rest = skip_blanks s in if c == b' ' || c == 9 then rest else c ∷ s

-- The two copies and the call of kopt_setval. An option or a value that its buffer cannot hold with
-- the zero behind it is undefined behaviour. A name that no option has leaves the options as they are.
unfoldable pub store_option : List ℕ → List ℕ → List Koption → Result (List Koption)
store_option opt val opts =
    if ltb (length opt) optname_max && ltb (length val) value_max
    then ok (elim (kopt_setval opt val opts) [ none ↦ opts | some opts' ↦ opts' ])
    else fault

-- A line behind its blanks.
unfoldable pub parse_line : List ℕ → List Koption → Result (List Koption)
unfolding store_option
parse_line [] opts = ok opts
parse_line (c ∷ s) opts = if c == b'#' then ok opts else (elim (split_at b'=' (c ∷ s)) [
  | none ↦ ok opts
  | some (opt, val) ↦ store_option opt val opts
])

-- One round of the loop of read_konfig.
unfoldable pub read_line : List ℕ → List Koption → Result (List Koption)
unfolding parse_line skip_blanks kill_last
read_line line opts = parse_line (skip_blanks (kill_last line)) opts

unfoldable pub read_lines : List (List ℕ) → List Koption → Result (List Koption)
unfolding read_line
read_lines [] opts = ok opts
read_lines (l ∷ ls) opts = do opts' ← read_line l opts; read_lines ls opts'

-- Does the file end behind a line feed, or is it empty? Then feof does not tell yet that it has ended.
unfoldable pub ends_line : List ℕ → Bool
ends_line [] = true
ends_line (c ∷ []) = c == 10
ends_line (c ∷ d ∷ s) = ends_line (d ∷ s)

-- The round in which getline fails. With the result -1 the byte two in front of the buffer is written,
-- and the buffer is parsed as it is. `stale` is the string that it holds, `none` if the write is a fault.
unfoldable pub read_stale : Option (List ℕ) → List Koption → Result (List Koption)
unfolding parse_line skip_blanks
read_stale none opts = fault
read_stale (some s) opts = parse_line (skip_blanks s) opts

-- `none` is a file that fopen does not open.
unfoldable pub read_konfig :
    Option (List ℕ) → Option (List ℕ) → List Koption → Result (List Koption)
unfolding read_lines get_lines read_stale ends_line
read_konfig none stale opts = ok opts
read_konfig (some file) stale opts = do
  opts' ← read_lines (get_lines file) opts
  if ends_line file then read_stale stale opts' else ok opts'

-- main, behind init: the flag `nointr` is set, so the user is never asked.
unfoldable pub main :
    Option (List ℕ) → Option (List ℕ) → Bool → Bool → Bool → List Koption → Result Files
unfolding read_konfig process_konfig writeback
main file stale konfig_file header_file make_file opts = do
  opts' ← read_konfig file stale opts
  writeback konfig_file header_file make_file (process_konfig opts')
