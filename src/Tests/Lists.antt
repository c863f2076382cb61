-- ===== src/Tests/Lists.antt =====
-- include/klist0.h at three nodes: 10 is the head, 1, 2 and 3 are members.
use koowaldah.Base.{[], ◌∷◌, ◌≡◌, refl, some}
use koowaldah.Klist.{Links, init, prepend, append, for_each}

abbrev blank : Links
blank = record { prev = λ i. i; next = λ i. i }

-- klist0_append puts a node first, klist0_prepend last.
three_in_order :
    for_each 5
      ((prepend 3 10 (append 1 10 (append 2 10 (init 10 blank)))).next 10)
      10
      (prepend 3 10 (append 1 10 (append 2 10 (init 10 blank))))
    ≡ some (1 ∷ 2 ∷ 3 ∷ [])
unfolding init append prepend for_each
three_in_order = refl
