-- ===== src/Konfig/Lookup.antt =====
-- Options by name: what kopt_isset sees of kopt_setval, and what kopt_setval leaves alone.
use mathlib.Core.Option
use mathlib.Core.List.{map}
use koowaldah.Base.{
  ℕ, ◌≡◌, refl, sym, ap, ◌∙◌, List, [], ◌∷◌, Option, none, some, true, false, arith, Bool-cases,
  inl, inr, map-eq_some, if◌then◌else◌, ◌↔◌,
}
use koowaldah.Konfig.{
  Koption, bare_name, put_value, setval_loop, kopt_setval, value_level, isset_loop, head_of,
}
use koowaldah.Konfig.Text.{str_eq, str_eq→eq, str_eq_self}

-- The first option of a name.
unfoldable pub find_option : List ℕ → List Koption → Option Koption
find_option name [] = none
find_option name (o ∷ os) =
    let rest = find_option name os in if str_eq o.name name then some o else rest

same_name :
    (o : Koption) (name q : List ℕ) → str_eq o.name name ≡ true → str_eq o.name q ≡ str_eq name q
same_name o name q e = ap (λ n. str_eq n q) (str_eq→eq o.name name e)

other_name :
    (o : Koption) (name q : List ℕ)
    → str_eq o.name name ≡ false
    → str_eq o.name q ≡ true
    → str_eq name q ≡ false
other_name o name q ne e = elim (Bool-cases (str_eq name q)) [
  | inl same ↦
      let eq : name ≡ o.name = str_eq→eq name q same ∙ sym (str_eq→eq o.name q e) in
      cc (rw eq at ne, str_eq_self o.name)
  | inr other ↦ other
]

-- The option of the name gets the value, and every other name finds what it found.
pub setval_loop_lem :
    (name val q : List ℕ) (opts opts' : List Koption)
    → setval_loop name val opts ≡ some opts'
    → find_option q opts' ≡ (
        if str_eq name q
        then Option.map (put_value val) (find_option q opts)
        else find_option q opts)
unfolding setval_loop find_option
setval_loop_lem name val q [] opts' e = cc
setval_loop_lem name val q (o ∷ os) opts' e = elim (Bool-cases (str_eq o.name name)) [
  | inl here ↦
      let at : some (put_value val o ∷ os) ≡ some opts' = rw here at e in
      ground (arith, at, same_name o name q here)
  | inr later ↦
      let (r, found, eq) = map-eq_some (λ r. o ∷ r) (setval_loop name val os) (rw later at e) in
      rw (← eq) (elim (Bool-cases (str_eq o.name q)) [
        | inl mine ↦ rw (mine, other_name o name q later mine) refl
        | inr not_mine ↦ rw not_mine (setval_loop_lem name val q os r found)
      ])
]

map-none {ℓ κ} :
    {A : Type ℓ} {B : Type κ} (f : A → B) (o : Option A) → Option.map f o ≡ none → o ≡ none
map-none f none e = refl
map-none f (some a) e = cc

pub setval_loop-none :
    (name val : List ℕ) (opts : List Koption)
    → (setval_loop name val opts ≡ none) ↔ (find_option name opts ≡ none)
unfolding setval_loop find_option
setval_loop-none name val [] = (λ e. refl, λ e. refl)
setval_loop-none name val (o ∷ os) = elim (Bool-cases (str_eq o.name name)) [
  | inl here ↦ rw here (λ e. cc, λ e. cc)
  | inr later ↦
      let (to, from) = setval_loop-none name val os in
      rw later (
        λ e. to (map-none (λ r. o ∷ r) (setval_loop name val os) e),
        λ e. ap (Option.map (λ r. o ∷ r)) (from e),
      )
]

pub heads-setval_loop :
    (name val : List ℕ) (opts opts' : List Koption)
    → setval_loop name val opts ≡ some opts'
    → map head_of opts' ≡ map head_of opts
unfolding setval_loop
heads-setval_loop name val [] opts' e = cc
heads-setval_loop name val (o ∷ os) opts' e = elim (Bool-cases (str_eq o.name name)) [
  | inl here ↦
      let at : some (put_value val o ∷ os) ≡ some opts' = rw here at e in ground (arith, at)
  | inr later ↦
      let (r, found, eq) = map-eq_some (λ r. o ∷ r) (setval_loop name val os) (rw later at e) in
      rw (← eq) (ap (λ t. head_of o ∷ t) (heads-setval_loop name val os r found))
]

pub isset_loop-find :
    (q : List ℕ) (opts : List Koption)
    → isset_loop q opts ≡ (elim (find_option q opts) [ none ↦ none | some o ↦ value_level o.def ])
unfolding isset_loop find_option
isset_loop-find q [] = refl
isset_loop-find q (o ∷ os) = ground (arith, isset_loop-find q os)

-- kopt_setval, the prefix "OPT_" disregarded, fails exactly if no option has the name.
pub kopt_setval-none_iff :
    (name val : List ℕ) (opts : List Koption)
    → (kopt_setval name val opts ≡ none) ↔ (find_option (bare_name name) opts ≡ none)
unfolding kopt_setval
kopt_setval-none_iff name val = setval_loop-none (bare_name name) val

-- A kopt_setval that succeeds, the prefix "OPT_" of the name disregarded, gives the value to the
-- first option of the name and counts it as set once more; every other name finds the option that it
-- found, and no option's name or conflicts change.
pub kopt_setval_lem :
    (name val q : List ℕ) (opts opts' : List Koption)
    → kopt_setval name val opts ≡ some opts'
    → (find_option q opts' ≡ (
        if str_eq (bare_name name) q
        then Option.map (put_value val) (find_option q opts)
        else find_option q opts))
      × (map head_of opts' ≡ map head_of opts)
unfolding kopt_setval
kopt_setval_lem name val q opts opts' e = (
  setval_loop_lem (bare_name name) val q opts opts' e,
  heads-setval_loop (bare_name name) val opts opts' e,
)
