-- ===== src/Konfig.antt =====
-- The configuration tool of konfig/: its options (koption.h), their values by name (konfigure.c) and
-- the conflicts between them (ktree.c).
-- A C string is the list of its bytes, without the zero that ends it. The array KOPT is a list.
pub mod Text
pub mod Lookup
pub mod Conflict
pub mod Settled
pub mod Out
pub mod Input
pub mod Lines
pub mod RoundTrip
pub mod ReadBack
pub mod Ask
pub mod Replies
pub mod Answers
pub mod Init
pub mod Kin
pub mod Again
use mathlib.Core.Option
use mathlib.Core.List.{map}
use koowaldah.Base.{
  ℕ, ◌+◌, List, [], ◌∷◌, length, Option, none, some, Bool, true, false, ◌&&◌, ◌==◌, ltb,
  if◌then◌else◌,
}
use koowaldah.Konfig.Text.{codes, str_eq, strip_prefix, atoi}

-- What the tool's functions end with: a result, exit(EXIT_FAILURE), or undefined behaviour (a write
-- behind a buffer, a null FILE, a variable without a value). A loop that uses up its fuel is unfinished.
pub data Result {ℓ} (A : Type ℓ) : Type ℓ where
  ok : A → Result A
  exit_failure : Result A
  fault : Result A
  unfinished : Result A

infixl 5 ◌>>=◌
abbrev pub ◌>>=◌ {ℓ κ} : {A : Type ℓ} {B : Type κ} → Result A → (A → Result B) → Result B
ok a >>= f = f a
exit_failure >>= f = exit_failure
fault >>= f = fault
unfinished >>= f = unfinished

-- The type of an option with the member of the union `def` that goes with it. `other` is a type that
-- the enumeration does not have.
pub data Value : Type 0 where
  boolean : ℕ → Value
  tristate : ℕ → Value
  int : ℕ → Value
  string : List ℕ → Value
  other : ℕ → Value

-- `addr` tells the sections apart; no section is at 0.
pub record Ksection : Type 0 where
  pub addr : ℕ
  pub desc : List ℕ
  pub items : ℕ

pub record Koption : Type 0 where
  pub name : List ℕ
  pub desc : List ℕ
  pub help : List ℕ
  pub conflicts : List (List ℕ)
  pub def : Value
  pub user_set : ℕ
  pub section : Ksection

-- The prefix "OPT_" of a name is disregarded.
unfoldable pub bare_name : List ℕ → List ℕ
bare_name name = elim (strip_prefix (codes "OPT_") name) [ none ↦ name | some rest ↦ rest ]

-- The first byte of a C string, which is 0 if it is empty.
abbrev pub first_byte : List ℕ → ℕ
first_byte [] = 0
first_byte (c ∷ s) = c

unfoldable pub assign : List ℕ → Value → Value
assign val (boolean v) = boolean (first_byte val)
assign val (tristate v) = tristate (first_byte val)
assign val (int v) = int (atoi val)
assign val (string v) = string val
assign val (other t) = other t

-- The option found by kopt_setval, with its new value.
abbrev pub put_value : List ℕ → Koption → Koption
put_value val o = record o { def = assign val o.def; user_set = o.user_set + 1 }

unfoldable pub setval_loop : List ℕ → List ℕ → List Koption → Option (List Koption)
setval_loop name val [] = none
setval_loop name val (o ∷ os) =
    let rest = Option.map (λ r. o ∷ r) (setval_loop name val os) in
    if str_eq o.name name then some (put_value val o ∷ os) else rest

-- `none` is -1, and then the options are as they were.
unfoldable pub kopt_setval : List ℕ → List ℕ → List Koption → Option (List Koption)
unfolding bare_name setval_loop
kopt_setval name val opts = setval_loop (bare_name name) val opts

-- 1 for 'Y', 2 for 'M', 0 for any other byte.
abbrev pub level_of : ℕ → ℕ
level_of v = if v == b'M' then 2 else if v == b'Y' then 1 else 0

unfoldable pub value_level : Value → Option ℕ
value_level (boolean v) = some (level_of v)
value_level (tristate v) = some (level_of v)
value_level (int v) = none
value_level (string v) = none
value_level (other t) = none

unfoldable pub isset_loop : List ℕ → List Koption → Option ℕ
unfolding value_level
isset_loop name [] = none
isset_loop name (o ∷ os) =
    let rest = isset_loop name os in if str_eq o.name name then value_level o.def else rest

-- `none` is -1.
unfoldable pub kopt_isset : List ℕ → List Koption → Option ℕ
unfolding bare_name isset_loop
kopt_isset name opts = isset_loop (bare_name name) opts

-- The test `kopt_isset(name) > 0`.
unfoldable pub is_on : List ℕ → List Koption → Bool
is_on name opts = elim (kopt_isset name opts) [ none ↦ false | some v ↦ ltb 0 v ]

unfoldable pub clear_conflict : List ℕ → List Koption → List Koption
clear_conflict c opts =
    if is_on c opts
    then (elim (kopt_setval c (codes "N") opts) [ none ↦ opts | some opts' ↦ opts' ])
    else opts

unfoldable pub clear_conflicts : List (List ℕ) → List Koption → List Koption
clear_conflicts [] opts = opts
clear_conflicts (c ∷ cs) opts = clear_conflicts cs (clear_conflict c opts)

-- The members of an option that are constant.
abbrev pub head_of : Koption → List ℕ × List (List ℕ)
head_of o = (o.name, o.conflicts)

-- The outer loop of process_konfig over the names and the conflicts of the array, which no
-- assignment changes.
unfoldable pub process_loop : List (List ℕ × List (List ℕ)) → List Koption → List Koption
process_loop [] opts = opts
process_loop ((name, conflicts) ∷ heads) opts =
    process_loop heads
      (if is_on name opts && ltb 0 (length conflicts) then clear_conflicts conflicts opts else opts)

unfoldable pub process_konfig : List Koption → List Koption
process_konfig opts = process_loop (map head_of opts) opts
