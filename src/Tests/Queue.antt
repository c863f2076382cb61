-- ===== src/Tests/Queue.antt =====
-- kernel/lib/kqueue.c: a queue with one page, and one whose front page has room for two bytes.
use koowaldah.Base.{
  ℕ, zero, suc, List, [], ◌∷◌, ◌++◌, ◌≡◌, refl, ap, some, length, length-append, take, drop, arith,
  inl,
}
use koowaldah.Kqueue.{KqueuePage, Kqueue, kqueue_push, kqueue_pull_tail, pushed_all}
use koowaldah.Kqueue.Contents.{contents, IsCounted, kqueue_pull_tail_lem}
use koowaldah.Kqueue.Push.{kqueue_push_lem, kqueue_push-spill}

abbrev page : List ℕ → KqueuePage
page held = record { offset = 0; held = held }

abbrev queue : Kqueue
queue = record { pages = page (3 ∷ 4 ∷ []) ∷ page (1 ∷ 2 ∷ []) ∷ []; count = 4; free_pages = 1 }

kqueue_push_lem_example :
    (q' : Kqueue) × (kqueue_push (5 ∷ []) 1 queue ≡ some (pushed_all q'))
    × (contents q' ≡ contents queue ++ 5 ∷ [])
    × IsCounted q'
kqueue_push_lem_example = kqueue_push_lem (5 ∷ []) queue refl (inl (omega arith, omega arith))

kqueue_pull_tail_lem_example :
    let (bytes, result, q') = kqueue_pull_tail 3 queue in
    (bytes ≡ take 3 (contents queue)) × (contents q' ≡ drop 3 (contents queue)) × IsCounted q'
kqueue_pull_tail_lem_example = kqueue_pull_tail_lem 3 queue refl

-- The third byte comes back with the second pull, whose result leaves out the byte before it.
second_pull : (kqueue_pull_tail 3 queue).1 ≡ 1
unfolding kqueue_pull_tail
second_pull = refl

zeros : ℕ → List ℕ
zeros zero = []
zeros (suc n) = 0 ∷ zeros n

length-zeros : (n : ℕ) → length (zeros n) ≡ n
unfolding zeros
length-zeros zero = refl
length-zeros (suc n) = ap suc (length-zeros n)

abbrev full : KqueuePage
full = page (zeros 4078)

abbrev almost_full : Kqueue
almost_full = record { pages = full ∷ []; count = 4078; free_pages = 1 }

almost_full-IsCounted : IsCounted almost_full
almost_full-IsCounted = omega (arith, length-append (zeros 4078) [], length-zeros 4078)

kqueue_push-spill_example :
    (q' : Kqueue) × (kqueue_push (7 ∷ 8 ∷ 9 ∷ []) 3 almost_full ≡ some (pushed_all q'))
    × (contents q' ≡ contents almost_full ++ (take 2 (7 ∷ 8 ∷ 9 ∷ []) ++ take 1 (7 ∷ 8 ∷ 9 ∷ [])))
kqueue_push-spill_example =
    kqueue_push-spill (7 ∷ 8 ∷ 9 ∷ []) full [] almost_full 2 (omega (arith, length-zeros 4078)) refl
      almost_full-IsCounted refl (omega (arith, length-zeros 4078)) (omega arith) (omega arith)
      (omega arith)
