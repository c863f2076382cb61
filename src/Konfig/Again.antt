-- ===== src/Konfig/Again.antt =====
-- main of konfig/konfigure.c: reading, conflicts and writing together, run a second time.
use mathlib.Core.List.{map}
use koowaldah.Base.{
  ℕ, ◌+◌, ◌≡◌, refl, sym, ap, ap₂, ◌∙◌, List, [], ◌∷◌, Option, some, true, if◌then◌else◌, get_elem?,
}
use koowaldah.Konfig.{
  ok, Koption, isset_loop, kopt_isset, is_on, bare_name, head_of, process_konfig, value_level,
}
use koowaldah.Konfig.Text.{str_eq}
use koowaldah.Konfig.Out.{Files, kopt2konfig, kopt2header, kopt2make, write_loop, writeback}
use koowaldah.Konfig.Input.{read_konfig, main}
use koowaldah.Konfig.Conflict.{process_konfig_lem}
use koowaldah.Konfig.Settled.{process_loop_id, process_konfig_def}
use koowaldah.Konfig.ReadBack.{AllPrintable, Distinct, Twins, adopt, read_konfig-writeback}
use koowaldah.Konfig.Lines.{NoEquals}
use koowaldah.Konfig.Kin.{Kin, Kin-refl, process_konfig-Kin, read_konfig-Kin}

Kin-Twins : (os bs : List Koption) → Kin os bs → Twins os bs
Kin-Twins [] [] kin = tt
Kin-Twins [] (b ∷ bs) kin = elim kin [ ]
Kin-Twins (o ∷ os) [] kin = elim kin [ ]
Kin-Twins (o ∷ os) (b ∷ bs) (same, path, kin) =
    (ap (λ (x : Koption). x.name) path, same, Kin-Twins os bs kin)

-- The same options but for their counts.
abbrev Alike : List Koption → List Koption → Type 0
Alike [] [] = Unit
Alike [] (p ∷ ps) = ⊥
Alike (a ∷ xs) [] = ⊥
Alike (a ∷ xs) (p ∷ ps) = (a ≡ record p { user_set = a.user_set }) × Alike xs ps

adopt-Alike : (os bs : List Koption) → Kin os bs → Alike (adopt os bs) os
adopt-Alike [] [] kin = tt
adopt-Alike [] (b ∷ bs) kin = elim kin [ ]
adopt-Alike (o ∷ os) [] kin = elim kin [ ]
adopt-Alike (o ∷ os) (b ∷ bs) (same, path, kin) = (
  sym (ap {A = Koption} (λ x. record x { user_set = b.user_set + 1 }) path),
  adopt-Alike os bs kin,
)

-- The counts are neither looked up nor written.
isset_loop-Alike :
    (q : List ℕ) (xs ps : List Koption) → Alike xs ps → isset_loop q xs ≡ isset_loop q ps
unfolding isset_loop
isset_loop-Alike q [] [] alike = refl
isset_loop-Alike q [] (p ∷ ps) alike = elim alike [ ]
isset_loop-Alike q (a ∷ xs) [] alike = elim alike [ ]
isset_loop-Alike q (a ∷ xs) (p ∷ ps) (path, alike) =
    ap {A = Koption} (λ x. isset_loop q (x ∷ xs)) path
    ∙ ap (λ r. if str_eq p.name q then value_level p.def else r) (isset_loop-Alike q xs ps alike)

is_on-Alike : (q : List ℕ) (xs ps : List Koption) → Alike xs ps → is_on q xs ≡ is_on q ps
unfolding is_on kopt_isset
is_on-Alike q xs ps alike = rw (isset_loop-Alike (bare_name q) xs ps alike, is_on) refl

heads-Alike : (xs ps : List Koption) → Alike xs ps → map head_of xs ≡ map head_of ps
heads-Alike [] [] alike = refl
heads-Alike [] (p ∷ ps) alike = elim alike [ ]
heads-Alike (a ∷ xs) [] alike = elim alike [ ]
heads-Alike (a ∷ xs) (p ∷ ps) (path, alike) =
    ap₂ (λ h t. h ∷ t) (ap head_of path) (heads-Alike xs ps alike)

write_loop-Alike :
    (ksec : ℕ) (xs ps : List Koption) → Alike xs ps → write_loop ksec xs ≡ write_loop ksec ps
unfolding write_loop kopt2konfig kopt2header kopt2make
write_loop-Alike ksec [] [] alike = refl
write_loop-Alike ksec [] (p ∷ ps) alike = elim alike [ ]
write_loop-Alike ksec (a ∷ xs) [] alike = elim alike [ ]
write_loop-Alike ksec (a ∷ xs) (p ∷ ps) (path, alike) =
    ap {A = Koption} (λ x. write_loop ksec (x ∷ xs)) path
    ∙ rw (write_loop-Alike p.section.addr xs ps alike) refl

-- Options like those that process_konfig left have no conflict either.
process_konfig-Alike :
    (opts xs : List Koption) → Alike xs (process_konfig opts) → process_konfig xs ≡ xs
process_konfig-Alike opts xs alike =
    process_konfig_def xs
    ∙ process_loop_id (map head_of xs) xs (λ i k name c cs here at on.
      is_on-Alike c xs (process_konfig opts) alike
      ∙ process_konfig_lem opts i k name c cs
          (ap (λ hs. get_elem? hs i) (sym (heads-Alike xs (process_konfig opts) alike)) ∙ here) at
          (sym (is_on-Alike name xs (process_konfig opts) alike) ∙ on))

main_run :
    (file stale : Option (List ℕ)) (base opts : List Koption)
    → read_konfig file stale base ≡ ok opts
    → main file stale true true true base ≡ writeback true true true (process_konfig opts)
unfolding main
main_run file stale base opts e = rw e refl

writeback-Alike :
    (xs ps : List Koption) → Alike xs ps → writeback true true true xs ≡ writeback true true true ps
unfolding writeback
writeback-Alike xs ps alike = write_loop-Alike 0 xs ps alike

-- Where all three files open and KONFIG can be read, main writes its three files if the options that
-- it arrives at are printable and of distinct names; and a second run, on the KONFIG that the first
-- one wrote, writes the same three files. Of the round of the second run in which getline fails it is
-- assumed that the write in front of the buffer is no fault and that the string in the buffer has no
-- '='; what that round does in the first run is part of its reading.
pub main_again :
    (file stale : Option (List ℕ)) (again : List ℕ) (base opts : List Koption)
    → read_konfig file stale base ≡ ok opts
    → AllPrintable (process_konfig opts)
    → Distinct (process_konfig opts)
    → NoEquals again
    → (files : Files) × (main file stale true true true base ≡ ok files)
      × (main (some files.konfig) (some again) true true true base ≡ ok files)
main_again file stale again base opts e printable distinct no_eq =
    let kin =
      process_konfig-Kin base opts (read_konfig-Kin base file stale base opts (Kin-refl base) e) in
    let (files, wrote, reads) =
      read_konfig-writeback (process_konfig opts) base again printable distinct
        (Kin-Twins (process_konfig opts) base kin) no_eq in
    let alike = adopt-Alike (process_konfig opts) base kin in
    (
      files,
      main_run file stale base opts e ∙ wrote,
      main_run (some files.konfig) (some again) base (adopt (process_konfig opts) base) reads
          ∙ ap (writeback true true true)
              (process_konfig-Alike opts (adopt (process_konfig opts) base) alike)
          ∙ writeback-Alike (adopt (process_konfig opts) base) (process_konfig opts) alike
          ∙ wrote,
    )
