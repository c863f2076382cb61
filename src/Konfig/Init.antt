-- ===== src/Konfig/Init.antt =====
-- init of konfig/konfigure.c, which gathers the options of all sections in one array.
use koowaldah.Base.{
  ℕ, zero, suc, ◌+◌, ◌≡◌, ◌∙◌, ap, List, [], ◌∷◌, ◌++◌, append_assoc, append-nil, length, Bool,
  true, arith, if◌then◌else◌,
}
use koowaldah.Konfig.{Result, ok, exit_failure, fault, ◌>>=◌, Ksection, Koption}

-- The `n` options of a section behind those gathered. `room` says which sizes realloc can give.
unfoldable pub copy_options :
    (ℕ → Bool) → Ksection → ℕ → List Koption → List Koption → Result (List Koption)
copy_options room ksec zero kopts done = ok done
copy_options room ksec (suc n) [] done = fault
copy_options room ksec (suc n) (kopt ∷ kopts) done =
    let rest = copy_options room ksec n kopts (done ++ record kopt { section = ksec } ∷ []) in
    if room (length done + 1) then rest else exit_failure

-- The pairs of pointers from __start_KPTR to __stop_KPTR: the options of a section, and the section.
unfoldable pub init_loop :
    (ℕ → Bool) → List (List Koption × Ksection) → List Koption → Result (List Koption)
unfolding copy_options
init_loop room [] done = ok done
init_loop room ((kopts, ksec) ∷ ps) done = do
  done' ← copy_options room ksec ksec.items kopts done
  init_loop room ps done'

unfoldable pub init : (ℕ → Bool) → List (List Koption × Ksection) → Result (List Koption)
unfolding init_loop
init room ps = init_loop room ps []

-- The options of a section, each with its section.
abbrev pub marked : Ksection → List Koption → List Koption
marked ksec [] = []
marked ksec (o ∷ os) = record o { section = ksec } ∷ marked ksec os

abbrev pub gathered : List (List Koption × Ksection) → List Koption
gathered [] = []
gathered ((kopts, ksec) ∷ ps) = marked ksec kopts ++ gathered ps

-- Each section says how many options it has.
abbrev pub Counted : List (List Koption × Ksection) → Type 0
Counted [] = Unit
Counted ((kopts, ksec) ∷ ps) = (ksec.items ≡ length kopts) × Counted ps

copy_options_lem :
    (room : ℕ → Bool) (ksec : Ksection) (n : ℕ) (kopts done : List Koption)
    → ((size : ℕ) → room size ≡ true)
    → n ≡ length kopts
    → copy_options room ksec n kopts done ≡ ok (done ++ marked ksec kopts)
unfolding copy_options
copy_options_lem room ksec zero [] done all count = ap ok (simp append-nil)
copy_options_lem room ksec zero (o ∷ os) done all count = absurd (omega arith)
copy_options_lem room ksec (suc n) [] done all count = absurd (omega arith)
copy_options_lem room ksec (suc n) (o ∷ os) done all count = rw (all (length done + 1)) (
    copy_options_lem room ksec n os (done ++ record o { section = ksec } ∷ []) all (omega arith)
    ∙ ap ok (append_assoc done (record o { section = ksec } ∷ []) (marked ksec os)))

init_loop_lem :
    (room : ℕ → Bool) (ps : List (List Koption × Ksection)) (done : List Koption)
    → ((n : ℕ) → room n ≡ true)
    → Counted ps
    → init_loop room ps done ≡ ok (done ++ gathered ps)
unfolding init_loop
init_loop_lem room [] done all counted = ap ok (simp append-nil)
init_loop_lem room ((kopts, ksec) ∷ ps) done all (count, counted) =
    rw (copy_options_lem room ksec ksec.items kopts done all count) (
      init_loop_lem room ps (done ++ marked ksec kopts) all counted
      ∙ ap ok (append_assoc done (marked ksec kopts) (gathered ps)))

-- Where realloc never fails and each section's count is the length of its array, init gives the
-- options of all sections in their order, each with its section.
pub init-gathered :
    (room : ℕ → Bool) (ps : List (List Koption × Ksection))
    → ((n : ℕ) → room n ≡ true)
    → Counted ps
    → init room ps ≡ ok (gathered ps)
unfolding init
init-gathered room ps = init_loop_lem room ps []
