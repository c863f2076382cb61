-- ===== src/Konfig/Conflict.antt =====
-- process_konfig of konfig/ktree.c.
use mathlib.Core.Option
use mathlib.Core.List.{map}
use koowaldah.Base.{
  ℕ, zero, suc, ◌≡◌, refl, sym, ◌∙◌, List, [], ◌∷◌, Option, none, some, Bool, true, false, arith,
  Bool-cases, Option-cases, inl, inr, if◌then◌else◌, ltb, lt→ltb, get_elem?, length, ◌&&◌,
}
use koowaldah.Konfig.{
  Value, Koption, Value.boolean, Value.tristate, Value.int, Value.string, Value.other, bare_name,
  assign, put_value, kopt_setval, value_level, kopt_isset, is_on, head_of, clear_conflict,
  clear_conflicts, process_loop, process_konfig,
}
use koowaldah.Konfig.Text.{codes, str_eq, str_eq→eq, str_eq_self}
use koowaldah.Konfig.Lookup.{find_option, isset_loop-find, kopt_setval_lem, kopt_setval-none_iff}

-- Is an option set to 'Y' or 'M'?
abbrev pub on_value : Option Koption → Bool
on_value none = false
on_value (some o) = elim (value_level o.def) [ none ↦ false | some v ↦ ltb 0 v ]

pub is_on-find :
    (q : List ℕ) (opts : List Koption) → is_on q opts ≡ on_value (find_option (bare_name q) opts)
unfolding is_on kopt_isset
is_on-find q opts = ground (arith, isset_loop-find (bare_name q) opts)

-- The value "N" puts an option off.
on_value-N : (o : Option Koption) → on_value (Option.map (put_value (codes "N")) o) ≡ false
unfolding value_level assign
on_value-N none = refl
on_value-N (some o) = off o.def
  where
    off :
        (d : Value)
        → (elim (value_level (assign (codes "N") d)) [ none ↦ false | some v ↦ ltb 0 v ]) ≡ false
    off (boolean v) = refl
    off (tristate v) = refl
    off (int v) = refl
    off (string v) = refl
    off (other t) = refl

pub set_off :
    (b : Bool) (o : Option Koption)
    → on_value (if b then Option.map (put_value (codes "N")) o else o)
      ≡ (if b then false else on_value o)
set_off true o = on_value-N o
set_off false o = refl

same_off :
    (c q : List ℕ) (opts : List Koption)
    → is_on c opts ≡ false
    → bare_name c ≡ bare_name q
    → is_on q opts ≡ false
same_off c q opts off same = is_on-find q opts ∙ rw (← same) (sym (is_on-find c opts) ∙ off)

-- Clearing a conflict puts it off, and leaves what has another name.
is_on-clear_conflict :
    (c q : List ℕ) (opts : List Koption)
    → is_on q (clear_conflict c opts)
      ≡ (if str_eq (bare_name c) (bare_name q) then false else is_on q opts)
unfolding clear_conflict
is_on-clear_conflict c q opts = elim (Bool-cases (is_on c opts)) [
  | inl on ↦ elim (Option-cases (kopt_setval c (codes "N") opts)) [
    | inl missing ↦
        let gone = (kopt_setval-none_iff c (codes "N") opts).0 missing in
        cc (rw (is_on-find c opts, gone) at on)
    | inr (opts', set) ↦
        let (found, _) = kopt_setval_lem c (codes "N") (bare_name q) opts opts' set in
        rw (on, set, is_on-find q opts', found)
          (set_off (str_eq (bare_name c) (bare_name q)) (find_option (bare_name q) opts)
            ∙ rw (← is_on-find q opts) refl)
  ]
  | inr off ↦ rw off (elim (Bool-cases (str_eq (bare_name c) (bare_name q))) [
    | inl same ↦ rw same (same_off c q opts off (str_eq→eq (bare_name c) (bare_name q) same))
    | inr differ ↦ rw differ refl
  ])
]

heads-clear_conflict :
    (c : List ℕ) (opts : List Koption) → map head_of (clear_conflict c opts) ≡ map head_of opts
unfolding clear_conflict
heads-clear_conflict c opts = elim (Option-cases (kopt_setval c (codes "N") opts)) [
  | inl missing ↦ rw missing (ground arith)
  | inr (opts', set) ↦
      let (_, heads) = kopt_setval_lem c (codes "N") [] opts opts' set in
      rw set (ground (arith, heads))
]

-- What is off stays off.
pub clear_conflict-off :
    (c q : List ℕ) (opts : List Koption)
    → is_on q opts ≡ false
    → is_on q (clear_conflict c opts) ≡ false
clear_conflict-off c q opts off = is_on-clear_conflict c q opts ∙ ground (arith, off)

clear_conflicts-off :
    (cs : List (List ℕ)) (q : List ℕ) (opts : List Koption)
    → is_on q opts ≡ false
    → is_on q (clear_conflicts cs opts) ≡ false
unfolding clear_conflicts
clear_conflicts-off [] q opts off = off
clear_conflicts-off (c ∷ cs) q opts off =
    clear_conflicts-off cs q (clear_conflict c opts) (clear_conflict-off c q opts off)

heads-clear_conflicts :
    (cs : List (List ℕ)) (opts : List Koption)
    → map head_of (clear_conflicts cs opts) ≡ map head_of opts
unfolding clear_conflicts
heads-clear_conflicts [] opts = refl
heads-clear_conflicts (c ∷ cs) opts =
    heads-clear_conflicts cs (clear_conflict c opts) ∙ heads-clear_conflict c opts

-- All conflicts of a list are off behind it.
clear_conflicts_lem :
    (cs : List (List ℕ)) (opts : List Koption) (k : ℕ) (c : List ℕ)
    → get_elem? cs k ≡ some c
    → is_on c (clear_conflicts cs opts) ≡ false
unfolding clear_conflicts
clear_conflicts_lem [] opts k c at = cc
clear_conflicts_lem (d ∷ cs) opts zero c at =
    clear_conflicts-off cs c (clear_conflict d opts)
      (is_on-clear_conflict d c opts ∙ ground (arith, at, str_eq_self (bare_name c)))
clear_conflicts_lem (d ∷ cs) opts (suc k) c at =
    clear_conflicts_lem cs (clear_conflict d opts) k c at

abbrev pub Head : Type 0
Head = List ℕ × List (List ℕ)

-- One round of the loop of process_konfig.
abbrev pub round : Head → List Koption → List Koption
round (name, cs) opts =
    if is_on name opts && ltb 0 (length cs) then clear_conflicts cs opts else opts

pub round-off :
    (h : Head) (q : List ℕ) (opts : List Koption)
    → is_on q opts ≡ false
    → is_on q (round h opts) ≡ false
round-off (name, cs) q opts off = ground (arith, clear_conflicts-off cs q opts off)

heads-round : (h : Head) (opts : List Koption) → map head_of (round h opts) ≡ map head_of opts
heads-round (name, cs) opts = ground (arith, heads-clear_conflicts cs opts)

process_loop-off :
    (hs : List Head) (q : List ℕ) (opts : List Koption)
    → is_on q opts ≡ false
    → is_on q (process_loop hs opts) ≡ false
unfolding process_loop
process_loop-off [] q opts off = off
process_loop-off ((name, cs) ∷ hs) q opts off =
    process_loop-off hs q (round (name, cs) opts) (round-off (name, cs) q opts off)

heads-process_loop :
    (hs : List Head) (opts : List Koption) → map head_of (process_loop hs opts) ≡ map head_of opts
unfolding process_loop
heads-process_loop [] opts = refl
heads-process_loop ((name, cs) ∷ hs) opts =
    heads-process_loop hs (round (name, cs) opts) ∙ heads-round (name, cs) opts

round_lem :
    (name : List ℕ) (cs : List (List ℕ)) (opts : List Koption) (k : ℕ) (c : List ℕ)
    → get_elem? cs k ≡ some c
    → is_on name opts ≡ true
    → is_on c (round (name, cs) opts) ≡ false
round_lem name [] opts k c at on = cc
round_lem name (d ∷ cs) opts k c at on =
    rw (on, lt→ltb 0 (suc (length cs)) (omega arith)) (clear_conflicts_lem (d ∷ cs) opts k c at)

process_loop_head :
    (hs : List Head) (opts : List Koption) (k : ℕ) (name c : List ℕ) (cs : List (List ℕ))
    → get_elem? cs k ≡ some c
    → is_on name (process_loop hs (round (name, cs) opts)) ≡ true
    → is_on c (process_loop hs (round (name, cs) opts)) ≡ false
process_loop_head hs opts k name c cs at on = elim (Bool-cases (is_on name opts)) [
  | inl set ↦ process_loop-off hs c (round (name, cs) opts) (round_lem name cs opts k c at set)
  | inr unset ↦
      cc (process_loop-off hs name (round (name, cs) opts) (round-off (name, cs) name opts unset))
]

process_loop_lem :
    (hs : List Head) (opts : List Koption) (i k : ℕ) (name c : List ℕ) (cs : List (List ℕ))
    → get_elem? hs i ≡ some (name, cs)
    → get_elem? cs k ≡ some c
    → is_on name (process_loop hs opts) ≡ true
    → is_on c (process_loop hs opts) ≡ false
unfolding process_loop
process_loop_lem [] opts i k name c cs here at on = cc
process_loop_lem ((n, ds) ∷ hs) opts zero k name c cs here at on =
    let same : n ≡ name = cc in
    let list : ds ≡ cs = cc in process_loop_head hs opts k n c ds (rw list at) (rw (← same) at on)
process_loop_lem ((n, ds) ∷ hs) opts (suc i) k name c cs here at on =
    process_loop_lem hs (round (n, ds) opts) i k name c cs here at on

-- Behind process_konfig no option that is set conflicts with another that is set: if the option at i
-- of the array is set, every name of its conflict list is not.
pub process_konfig_lem :
    (opts : List Koption) (i k : ℕ) (name c : List ℕ) (cs : List (List ℕ))
    → get_elem? (map head_of (process_konfig opts)) i ≡ some (name, cs)
    → get_elem? cs k ≡ some c
    → is_on name (process_konfig opts) ≡ true
    → is_on c (process_konfig opts) ≡ false
unfolding process_konfig
process_konfig_lem opts i k name c cs here at on =
    process_loop_lem (map head_of opts) opts i k name c cs
      (rw (heads-process_loop (map head_of opts) opts) at here) at on
