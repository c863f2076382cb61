-- ===== src/Konfig/Kin.antt =====
-- What reading and the treatment of conflicts never change of an option: all but its value and its
-- count.
use mathlib.Core.List.{map}
use koowaldah.Base.{
  Bool, true, false, if◌then◌else◌, ℕ, ◌+◌, ◌≡◌, refl, ap, List, [], ◌∷◌, Option, none, some,
  Bool-cases, Option-cases, inl, inr, map-eq_some, ltb, length, ◌&&◌, ◌==◌,
}
use koowaldah.Konfig.{
  Result, ok, exit_failure, fault, unfinished, ◌>>=◌, Value, Koption, assign, put_value,
  setval_loop, kopt_setval, bare_name, clear_conflict, clear_conflicts, process_loop,
  process_konfig, head_of, is_on,
}
use koowaldah.Konfig.Text.{codes, str_eq, split_at}
use koowaldah.Konfig.Input.{
  store_option, parse_line, read_line, read_lines, read_konfig, skip_blanks, kill_last, get_lines,
  read_stale, ends_line,
}
use koowaldah.Konfig.RoundTrip.{SameType, booleans, tristates, ints, strings, others}

-- The same options but for values of the same types and the counts.
abbrev pub Kin : List Koption → List Koption → Type 0
Kin [] [] = Unit
Kin [] (b ∷ bs) = ⊥
Kin (o ∷ os) [] = ⊥
Kin (o ∷ os) (b ∷ bs) =
    SameType o.def b.def × (o ≡ record b { def = o.def; user_set = o.user_set }) × Kin os bs

SameType-refl : (d : Value) → SameType d d
SameType-refl (Value.boolean v) = booleans v v
SameType-refl (Value.tristate v) = tristates v v
SameType-refl (Value.int v) = ints v v
SameType-refl (Value.string s) = strings s s
SameType-refl (Value.other t) = others t

pub Kin-refl : (bs : List Koption) → Kin bs bs
Kin-refl [] = tt
Kin-refl (b ∷ bs) = (SameType-refl b.def, refl, Kin-refl bs)

assign-SameType : {d e : Value} (v : List ℕ) → SameType d e → SameType (assign v d) e
unfolding assign
assign-SameType v (booleans x y) = booleans _ y
assign-SameType v (tristates x y) = tristates _ y
assign-SameType v (ints x y) = ints _ y
assign-SameType v (strings s t) = strings _ t
assign-SameType v (others t) = others t

setval_loop-Kin :
    (name v : List ℕ) (os bs os' : List Koption)
    → Kin os bs
    → setval_loop name v os ≡ some os'
    → Kin os' bs
unfolding setval_loop
setval_loop-Kin name v [] bs os' kin e = cc
setval_loop-Kin name v (o ∷ os) [] os' kin e = elim kin [ ]
setval_loop-Kin name v (o ∷ os) (b ∷ bs) os' (same, path, kin) e =
    elim (Bool-cases (str_eq o.name name)) [
      | inl here ↦
          let at : put_value v o ∷ os ≡ os' = cc (rw here at e) in
          rw (← at) (
            assign-SameType v same,
            ap {A = Koption} (λ x. record x { def = assign v o.def; user_set = o.user_set + 1 })
                path,
            kin,
          )
      | inr later ↦
          let (r, found, eq) = map-eq_some (λ r. o ∷ r) (setval_loop name v os) (rw later at e) in
          rw (← eq) (same, path, setval_loop-Kin name v os bs r kin found)
    ]

>>=-eq_ok :
    (r : Result (List Koption)) (f : List Koption → Result (List Koption)) {b : List Koption}
    → (r >>= f) ≡ ok b
    → (a : List Koption) × (r ≡ ok a) × (f a ≡ ok b)
>>=-eq_ok (ok a) f e = (a, refl, e)
>>=-eq_ok exit_failure f e = cc
>>=-eq_ok fault f e = cc
>>=-eq_ok unfinished f e = cc

module _ (bs : List Koption) where
  kopt_setval-Kin :
      (name v : List ℕ) (os os' : List Koption)
      → Kin os bs
      → kopt_setval name v os ≡ some os'
      → Kin os' bs
  unfolding kopt_setval
  kopt_setval-Kin name v os os' = setval_loop-Kin (bare_name name) v os bs os'

  clear_conflict-Kin : (c : List ℕ) (os : List Koption) → Kin os bs → Kin (clear_conflict c os) bs
  unfolding clear_conflict
  clear_conflict-Kin c os kin = elim (Bool-cases (is_on c os)) [
    | inl on ↦ elim (Option-cases (kopt_setval c (codes "N") os)) [
      | inl missing ↦ rw (on, missing) kin
      | inr (os', set) ↦ rw (on, set) (kopt_setval-Kin c (codes "N") os os' kin set)
    ]
    | inr off ↦ rw off kin
  ]

  clear_conflicts-Kin :
      (cs : List (List ℕ)) (os : List Koption) → Kin os bs → Kin (clear_conflicts cs os) bs
  unfolding clear_conflicts
  clear_conflicts-Kin [] os kin = kin
  clear_conflicts-Kin (c ∷ cs) os kin =
      clear_conflicts-Kin cs (clear_conflict c os) (clear_conflict-Kin c os kin)

  process_loop-Kin :
      (hs : List (List ℕ × List (List ℕ))) (os : List Koption)
      → Kin os bs
      → Kin (process_loop hs os) bs
  unfolding process_loop
  process_loop-Kin [] os kin = kin
  process_loop-Kin ((name, cs) ∷ hs) os kin =
      elim (Bool-cases (is_on name os && ltb 0 (length cs))) [
        | inl work ↦
            rw work (process_loop-Kin hs (clear_conflicts cs os) (clear_conflicts-Kin cs os kin))
        | inr rest ↦ rw rest (process_loop-Kin hs os kin)
      ]

  pub process_konfig-Kin : (os : List Koption) → Kin os bs → Kin (process_konfig os) bs
  unfolding process_konfig
  process_konfig-Kin os = process_loop-Kin (map head_of os) os

  ok-Kin : (os os' : List Koption) → ok os ≡ ok os' → Kin os bs → Kin os' bs
  ok-Kin os os' e kin = let same : os ≡ os' = cc in rw (← same) kin

  store_option-Kin :
      (opt val : List ℕ) (os os' : List Koption)
      → Kin os bs
      → store_option opt val os ≡ ok os'
      → Kin os' bs
  unfolding store_option
  store_option-Kin opt val os os' kin e =
      elim (Bool-cases (ltb (length opt) 32 && ltb (length val) 256)) [
        | inl fits ↦ elim (Option-cases (kopt_setval opt val os)) [
          | inl missing ↦ ok-Kin os os' (rw (fits, missing) at e) kin
          | inr (os'', set) ↦
              ok-Kin os'' os' (rw (fits, set) at e) (kopt_setval-Kin opt val os os'' kin set)
        ]
        | inr long ↦ cc (rw long at e)
      ]

  parse_line-Kin :
      (l : List ℕ) (os os' : List Koption) → Kin os bs → parse_line l os ≡ ok os' → Kin os' bs
  unfolding parse_line
  parse_line-Kin [] os os' kin e = ok-Kin os os' e kin
  parse_line-Kin (c ∷ s) os os' kin e = elim (Bool-cases (c == b'#')) [
    | inl comment ↦ ok-Kin os os' (rw comment at e) kin
    | inr line ↦ elim (Option-cases (split_at b'=' (c ∷ s))) [
      | inl no_sign ↦ ok-Kin os os' (rw (line, no_sign) at e) kin
      | inr ((opt, val), sign) ↦ store_option-Kin opt val os os' kin (rw (line, sign) at e)
    ]
  ]

  read_lines-Kin :
      (ls : List (List ℕ)) (os os' : List Koption)
      → Kin os bs
      → read_lines ls os ≡ ok os'
      → Kin os' bs
  unfolding read_lines read_line
  read_lines-Kin [] os os' kin e = ok-Kin os os' e kin
  read_lines-Kin (l ∷ ls) os os' kin e =
      let (os'', first, later) = >>=-eq_ok (read_line l os) (read_lines ls) e in
      read_lines-Kin ls os'' os' (parse_line-Kin (skip_blanks (kill_last l)) os os'' kin first)
        later

  read_stale-Kin :
      (stale : Option (List ℕ)) (os os' : List Koption)
      → Kin os bs
      → read_stale stale os ≡ ok os'
      → Kin os' bs
  unfolding read_stale
  read_stale-Kin none os os' kin e = cc
  read_stale-Kin (some s) os os' kin e = parse_line-Kin (skip_blanks s) os os' kin e

  last_round-Kin :
      (ends : Bool) (stale : Option (List ℕ)) (os os' : List Koption)
      → Kin os bs
      → (if ends then read_stale stale os else ok os) ≡ ok os'
      → Kin os' bs
  last_round-Kin true stale os os' kin e = read_stale-Kin stale os os' kin e
  last_round-Kin false stale os os' kin e = ok-Kin os os' e kin

  -- Reading changes nothing but values, their types kept, and counts.
  pub read_konfig-Kin :
      (file stale : Option (List ℕ)) (os os' : List Koption)
      → Kin os bs
      → read_konfig file stale os ≡ ok os'
      → Kin os' bs
  unfolding read_konfig
  read_konfig-Kin none stale os os' kin e = ok-Kin os os' e kin
  read_konfig-Kin (some text) stale os os' kin e =
      let (os'', first, later) =
        >>=-eq_ok (read_lines (get_lines text) os)
          (λ (r : List Koption). if ends_line text then read_stale stale r else ok r) e in
      last_round-Kin (ends_line text) stale os'' os'
        (read_lines-Kin (get_lines text) os os'' kin first) later
