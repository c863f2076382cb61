-- ===== src/Konfig/Settled.antt =====
-- What process_konfig of konfig/ktree.c leaves as it was.
use mathlib.Core.List.{map}
use koowaldah.Base.{
  ℕ, suc, ◌≡◌, refl, ap, ◌∙◌, List, [], ◌∷◌, some, true, false, arith, Bool-cases, Option-cases,
  inl, inr, get_elem?,
}
use koowaldah.Konfig.{
  Koption, bare_name, kopt_setval, is_on, head_of, clear_conflict, clear_conflicts, process_loop,
  process_konfig,
}
use koowaldah.Konfig.Text.{codes, str_eq}
use koowaldah.Konfig.Lookup.{find_option, kopt_setval_lem}
use koowaldah.Konfig.Conflict.{Head, round, round-off, process_konfig_lem}

-- No conflict of the list is `q`.
abbrev pub Unlisted : List ℕ → List (List ℕ) → Type 0
Unlisted q [] = Unit
Unlisted q (c ∷ cs) = (str_eq (bare_name c) (bare_name q) ≡ false) × Unlisted q cs

-- No option that is set lists `q`.
abbrev pub Unopposed : List ℕ → List Head → List Koption → Type 0
Unopposed q [] opts = Unit
Unopposed q ((name, cs) ∷ hs) opts = (is_on name opts ≡ true → Unlisted q cs) × Unopposed q hs opts

find-clear_conflict :
    (c q : List ℕ) (opts : List Koption)
    → str_eq (bare_name c) (bare_name q) ≡ false
    → find_option (bare_name q) (clear_conflict c opts) ≡ find_option (bare_name q) opts
unfolding clear_conflict
find-clear_conflict c q opts ne = elim (Option-cases (kopt_setval c (codes "N") opts)) [
  | inl missing ↦ rw missing (ground arith)
  | inr (opts', set) ↦
      let (found, _) = kopt_setval_lem c (codes "N") (bare_name q) opts opts' set in
      rw set (ground (arith, rw ne at found))
]

find-clear_conflicts :
    (cs : List (List ℕ)) (q : List ℕ) (opts : List Koption)
    → Unlisted q cs
    → find_option (bare_name q) (clear_conflicts cs opts) ≡ find_option (bare_name q) opts
unfolding clear_conflicts
find-clear_conflicts [] q opts un = refl
find-clear_conflicts (c ∷ cs) q opts (ne, un) =
    find-clear_conflicts cs q (clear_conflict c opts) un ∙ find-clear_conflict c q opts ne

Unopposed-round :
    (h : Head) (q : List ℕ) (hs : List Head) (opts : List Koption)
    → Unopposed q hs opts
    → Unopposed q hs (round h opts)
Unopposed-round h q [] opts un = tt
Unopposed-round h q ((name, cs) ∷ hs) opts (head, un) = (
  λ on. elim (Bool-cases (is_on name opts)) [
    | inl set ↦ head set
    | inr unset ↦ cc (round-off h name opts unset)
  ],
  Unopposed-round h q hs opts un,
)

find-round :
    (name : List ℕ) (cs : List (List ℕ)) (q : List ℕ) (opts : List Koption)
    → (is_on name opts ≡ true → Unlisted q cs)
    → find_option (bare_name q) (round (name, cs) opts) ≡ find_option (bare_name q) opts
find-round name cs q opts head = elim (Bool-cases (is_on name opts)) [
  | inl set ↦ rw set (ground (arith, find-clear_conflicts cs q opts (head set)))
  | inr unset ↦ rw unset refl
]

find-process_loop :
    (hs : List Head) (q : List ℕ) (opts : List Koption)
    → Unopposed q hs opts
    → find_option (bare_name q) (process_loop hs opts) ≡ find_option (bare_name q) opts
unfolding process_loop
find-process_loop [] q opts un = refl
find-process_loop ((name, cs) ∷ hs) q opts (head, un) =
    find-process_loop hs q (round (name, cs) opts) (Unopposed-round (name, cs) q hs opts un)
    ∙ find-round name cs q opts head

-- An option that no option set at the start lists among its conflicts is left
-- as it was, its value and its count included.
pub find-process_konfig :
    (q : List ℕ) (opts : List Koption)
    → Unopposed q (map head_of opts) opts
    → find_option (bare_name q) (process_konfig opts) ≡ find_option (bare_name q) opts
unfolding process_konfig
find-process_konfig q opts un = find-process_loop (map head_of opts) q opts un

clear_conflicts_id :
    (cs : List (List ℕ)) (opts : List Koption)
    → ((k : ℕ) (c : List ℕ) → get_elem? cs k ≡ some c → is_on c opts ≡ false)
    → clear_conflicts cs opts ≡ opts
unfolding clear_conflicts clear_conflict
clear_conflicts_id [] opts off = refl
clear_conflicts_id (c ∷ cs) opts off =
    rw (off 0 c refl) (clear_conflicts_id cs opts (λ k. off (suc k)))

pub process_loop_id :
    (hs : List Head) (opts : List Koption)
    → ((i k : ℕ) (name c : List ℕ) (cs : List (List ℕ))
        → get_elem? hs i ≡ some (name, cs)
        → get_elem? cs k ≡ some c
        → is_on name opts ≡ true
        → is_on c opts ≡ false)
    → process_loop hs opts ≡ opts
unfolding process_loop
process_loop_id [] opts settled = refl
process_loop_id ((name, cs) ∷ hs) opts settled =
    ap (process_loop hs) (elim (Bool-cases (is_on name opts)) [
      | inl set ↦
          rw set (
            ground
              (arith, clear_conflicts_id cs opts (λ k c at. settled 0 k name c cs refl at set)))
      | inr unset ↦ rw unset refl
    ])
    ∙ process_loop_id hs opts (λ i. settled (suc i))

pub process_konfig_def :
    (opts : List Koption) → process_konfig opts ≡ process_loop (map head_of opts) opts
unfolding process_konfig
process_konfig_def opts = refl

-- A second process_konfig changes nothing.
pub process_konfig_idem :
    (opts : List Koption) → process_konfig (process_konfig opts) ≡ process_konfig opts
process_konfig_idem opts =
    process_konfig_def (process_konfig opts)
    ∙ process_loop_id (map head_of (process_konfig opts)) (process_konfig opts)
        (λ i k name c cs. process_konfig_lem opts i k name c cs)
