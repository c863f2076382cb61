-- ===== src/Tests/Options.antt =====
-- The configuration tool: two booleans that stand for each other's features, and a number.
use mathlib.Core.List.{map}
use koowaldah.Base.{
  inl, ℕ, List, [], ◌∷◌, ◌≡◌, refl, some, true, false, get_elem?, ◌++◌, none, arith,
}
use koowaldah.Konfig.{
  ok, Value, Ksection, Koption, bare_name, kopt_setval, process_konfig, is_on, head_of,
  process_loop, clear_conflicts, clear_conflict, kopt_isset, setval_loop, isset_loop, value_level,
  assign,
}
use koowaldah.Konfig.Text.{codes, str_eq, strip_prefix}
use koowaldah.Konfig.Conflict.{process_konfig_lem}
use koowaldah.Konfig.Settled.{Unopposed}
use koowaldah.Konfig.Out.{Files, writeback}
use koowaldah.Konfig.Input.{read_konfig, main}
use koowaldah.Konfig.RoundTrip.{booleans, ints}
use koowaldah.Konfig.ReadBack.{adopt, AllPrintable, Distinct, read_konfig-writeback}
use koowaldah.Konfig.Again.{main_again}
use koowaldah.Konfig.Ask.{again, take_line, bool_reply, ask_user}
use koowaldah.Konfig.Replies.{no, typed}
use koowaldah.Konfig.Answers.{Answered, none_left, passed, boolean_line, ask_user_lem}

abbrev section : Ksection
section = record { addr = 1; desc = codes "FS"; items = 3 }

abbrev flag : List ℕ → List (List ℕ) → ℕ → Koption
flag name conflicts v = record {
  name = name;
  desc = codes "flag";
  help = [];
  conflicts = conflicts;
  def = Value.boolean v;
  user_set = 0;
  section = section;
}

abbrev number : ℕ → Koption
number n = record (flag (codes "NUM") [] 0) { def = Value.int n }

abbrev options : List Koption
options = flag (codes "A") (codes "B" ∷ []) b'Y' ∷ flag (codes "B") [] b'Y' ∷ number 7 ∷ []

abbrev defaults : List Koption
defaults = flag (codes "A") (codes "B" ∷ []) b'N' ∷ flag (codes "B") [] b'N' ∷ number 0 ∷ []

printable : AllPrintable options
printable = ground arith

distinct : Distinct options
unfolding str_eq
distinct = ground arith

read_konfig-writeback_example :
    (files : Files) × (writeback true true true options ≡ ok files)
    × (read_konfig (some files.konfig) (some (codes "old")) defaults ≡ ok (adopt options defaults))
read_konfig-writeback_example =
    read_konfig-writeback options defaults (codes "old") printable distinct
      (refl, booleans b'Y' b'N', (refl, booleans b'Y' b'N', (refl, ints 7 0, tt))) (ground arith)

heads : get_elem? (map head_of (process_konfig options)) 0 ≡ some (codes "A", codes "B" ∷ [])
unfolding process_konfig process_loop clear_conflicts clear_conflict is_on kopt_isset kopt_setval
    bare_name strip_prefix setval_loop isset_loop value_level assign str_eq
heads = refl

unopposed : Unopposed (codes "NUM") (map head_of options) options
unfolding bare_name strip_prefix str_eq
unopposed = ((λ _. (refl, tt)), ((λ _. tt), ((λ _. tt), tt)))

both_on : is_on (codes "A") (process_konfig options) ≡ true
unfolding process_konfig process_loop clear_conflicts clear_conflict is_on kopt_isset kopt_setval
    bare_name strip_prefix setval_loop isset_loop value_level assign str_eq
both_on = refl

process_konfig_lem_example : is_on (codes "B") (process_konfig options) ≡ false
process_konfig_lem_example =
    process_konfig_lem options 0 0 (codes "A") (codes "B") (codes "B" ∷ []) heads refl both_on

abbrev cleared : List Koption
cleared =
    flag (codes "A") (codes "B" ∷ []) b'Y'
    ∷ record (flag (codes "B") [] b'N') { user_set = 1 }
    ∷ number 7
    ∷ []

-- The user answers "n" for a flag; the number is set already.
abbrev set_number : Koption
set_number = record (number 7) { user_set = 1 }

abbrev asked : List Koption
asked = flag (codes "A") [] b'Y' ∷ set_number ∷ []

abbrev answered : List Koption
answered = record (flag (codes "A") [] b'N') { user_set = 1 } ∷ set_number ∷ []

-- "what" is asked again, "no" is an answer.
answers : Answered asked (codes "what" ∷ codes "no" ∷ []) answered
answers =
    boolean_line (flag (codes "A") [] b'Y') b'Y' b'N' (codes "what" ∷ []) (codes "no") refl refl
      (ground arith) (ground arith) (no (inl refl)) (passed set_number refl none_left)

ask_user_lem_example :
    (last : List ℕ) × (ask_user 3 [] asked
        (record { answer = []; stdin = typed (codes "what" ∷ codes "no" ∷ []) })
      ≡ ok (answered, record { answer = last; stdin = [] }))
ask_user_lem_example = ask_user_lem 3 [] [] answers (omega arith)

-- "m", a number and then a boolean.
m_reply : bool_reply b'm' ≡ again
unfolding bool_reply
m_reply = refl

at_line_feed : (take_line (codes "" ++ 10 ∷ [])).0 ≡ []
unfolding take_line
at_line_feed = refl

-- Without a file the defaults are written, and read again.
no_file : read_konfig none none options ≡ ok options
unfolding read_konfig
no_file = refl

settled : process_konfig options ≡ cleared
unfolding process_konfig process_loop clear_conflicts clear_conflict is_on kopt_isset kopt_setval
    bare_name strip_prefix setval_loop isset_loop value_level assign str_eq
settled = refl

cleared_printable : AllPrintable cleared
cleared_printable = ground arith

cleared-Distinct : Distinct cleared
unfolding str_eq
cleared-Distinct = ground arith

main_again_example :
    (files : Files) × (main none none true true true options ≡ ok files)
    × (main (some files.konfig) (some []) true true true options ≡ ok files)
main_again_example =
    main_again none none [] options options no_file (rw settled cleared_printable)
      (rw settled cleared-Distinct) tt
