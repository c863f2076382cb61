-- ===== src/Kqueue/Contents.antt =====
-- The bytes in a queue of kernel/lib/kqueue.c: pushes add at the end, pulls take from the front.
use mathlib.Core.List.{reverse, reverse-reverse, reverse-cons}
use koowaldah.Base.{
  ℕ, zero, suc, ◌+◌, ◌-◌, ◌≤◌, ◌≡◌, refl, sym, ap, ◌∙◌, List, [], ◌∷◌, ◌++◌, append_assoc,
  append-nil, length, length-append, take, drop, take-append_short, drop-append_short,
  take-append_long, drop-append_long, false, arith, Bool-cases, inl, inr, ltb, ltb→lt, ltb→le,
  le→ltb,
}
use koowaldah.Kqueue.{KqueuePage, Kqueue, pull_loop, kqueue_pull_tail}

-- The bytes of pages, the oldest page first.
abbrev pub flat : List KqueuePage → List ℕ
flat [] = []
flat (p ∷ ps) = p.held ++ flat ps

abbrev pub contents : Kqueue → List ℕ
contents q = flat (reverse q.pages)

flat-append : (ps qs : List KqueuePage) → flat (ps ++ qs) ≡ flat ps ++ flat qs
flat-append [] qs = refl
flat-append (p ∷ ps) qs =
    ap (λ t. p.held ++ t) (flat-append ps qs) ∙ sym (append_assoc p.held (flat ps) (flat qs))

-- The loop takes the bytes from the front of the contents, as many as there are.
pull_loop_lem :
    (len pulled : ℕ) (ps : List KqueuePage)
    → ((pull_loop len pulled ps).bytes ≡ take len (flat ps))
      × (flat (pull_loop len pulled ps).left ≡ drop len (flat ps))
unfolding pull_loop
pull_loop_lem zero pulled [] = (refl, refl)
pull_loop_lem (suc n) pulled [] = (refl, refl)
pull_loop_lem len pulled (p ∷ ps) = elim (Bool-cases (ltb len (length p.held))) [
  | inl part ↦
      let below : len ≤ length p.held = omega (arith, ltb→lt len (length p.held) part) in
      rw part (
        sym (take-append_short len p.held (flat ps) below),
        sym (drop-append_short len p.held (flat ps) below),
      )
  | inr whole ↦
      let above = ltb→le len (length p.held) whole in
      let (bytes, left) = pull_loop_lem (len - length p.held) (pulled + length p.held) ps in
      rw whole (
        ap (λ t. p.held ++ t) bytes ∙ sym (take-append_long len p.held (flat ps) above),
        left ∙ sym (drop-append_long len p.held (flat ps) above),
      )
]

pull_loop_result :
    (len pulled : ℕ) (ps : List KqueuePage)
    → length (flat ps) ≤ len
    → (pull_loop len pulled ps).result ≡ pulled + length (flat ps)
unfolding pull_loop
pull_loop_result len pulled [] h = omega arith
pull_loop_result len pulled (p ∷ ps) h =
    let size = length-append p.held (flat ps) in
    let whole : ltb len (length p.held) ≡ false =
      le→ltb len (length p.held) (omega (arith, size)) in
    rw whole (
      pull_loop_result (len - length p.held) (pulled + length p.held) ps (omega (arith, size))
      ∙ omega (arith, size))

-- The counter agrees with the bytes.
abbrev pub IsCounted : Kqueue → Type 0
IsCounted q = q.count ≡ length (contents q)

length-take-drop : (n : ℕ) (xs : List ℕ) → length (take n xs) + length (drop n xs) ≡ length xs
length-take-drop zero xs = omega arith
length-take-drop (suc n) [] = refl
length-take-drop (suc n) (x ∷ xs) = omega (arith, length-take-drop n xs)

-- With the counter right, kqueue_pull_tail copies out the oldest bytes, `len` of them or all that there
-- are, leaves the others in their order, and keeps the counter right.
pub kqueue_pull_tail_lem :
    (len : ℕ) (q : Kqueue)
    → IsCounted q
    → let (bytes, result, q') = kqueue_pull_tail len q in
      (bytes ≡ take len (contents q)) × (contents q' ≡ drop len (contents q)) × IsCounted q'
unfolding kqueue_pull_tail
kqueue_pull_tail_lem len q counted =
    let r = pull_loop len 0 (reverse q.pages) in
    let (bytes, left) = pull_loop_lem len 0 (reverse q.pages) in
    let rest : flat (reverse (reverse r.left)) ≡ drop len (contents q) =
      ap flat (reverse-reverse r.left) ∙ left in
    (
      bytes,
      rest,
      omega (arith, counted, ap length bytes, ap length rest, length-take-drop len (contents q)),
    )

-- Where the queue holds no more than asked for, the result is its size.
pub kqueue_pull_tail_result :
    (len : ℕ) (q : Kqueue)
    → length (contents q) ≤ len
    → (kqueue_pull_tail len q).1 ≡ length (contents q)
unfolding kqueue_pull_tail
kqueue_pull_tail_result len q h = pull_loop_result len 0 (reverse q.pages) h ∙ omega arith

pub contents-cons :
    (p : KqueuePage) (ps : List KqueuePage) → flat (reverse (p ∷ ps)) ≡ flat (reverse ps) ++ p.held
contents-cons p ps =
    ap flat (reverse-cons p ps)
    ∙ flat-append (reverse ps) (p ∷ [])
    ∙ ap (λ t. flat (reverse ps) ++ t) (append-nil p.held)
