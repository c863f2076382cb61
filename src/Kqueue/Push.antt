-- ===== src/Kqueue/Push.antt =====
-- kqueue_push of kernel/lib/kqueue.c as an operation on the bytes of a queue.
use mathlib.Core.List.{reverse}
use koowaldah.Base.{
  ℕ, suc, ◌+◌, ◌-◌, ◌≤◌, ◌<◌, ◌≡◌, refl, sym, ap, ap₂, ◌∙◌, List, [], ◌∷◌, ◌++◌, append_assoc,
  length, length-append, take, length-take, take_all, Option, some, false, arith, le→leb, ◌⊎◌,
  ne→==, inl, inr, leb, le→ltb, lt→ltb,
}
use koowaldah.Kqueue.{
  KqueuePage, Kqueue, max_count, store_bytes, Pushed, pushed_all, add_page, chunk_size, push_pages,
  push_front, kqueue_push, grow_front,
}
use koowaldah.Kqueue.Contents.{flat, contents, contents-cons, IsCounted}

-- The last page that a push adds, for `len` bytes.
push_page :
    (fuel len : ℕ) (bytes : List ℕ) (pushed : ℕ) (q : Kqueue)
    → IsCounted q
    → len ≤ length bytes
    → len ≤ max_count
    → 0 < q.free_pages
    → (q' : Kqueue) × (push_pages (suc fuel) bytes len pushed q ≡ some (pushed_all q'))
      × (contents q' ≡ contents q ++ take len bytes)
      × IsCounted q'
unfolding push_pages
push_page fuel len bytes pushed q counted enough fits free =
    let one : chunk_size len ≡ len = ground arith in
    let done : len - len ≡ 0 = omega arith in
    let all : contents (add_page len bytes q) ≡ contents q ++ take len bytes =
      contents-cons (record { offset = 0; held = take len bytes }) q.pages in
    (
      add_page len bytes q,
      rw (one, done, ne→== q.free_pages 0 (omega (arith, free))) refl,
      all,
      omega (
        arith,
        counted,
        ap length all,
        length-append (contents q) (take len bytes),
        length-take len bytes enough,
      ),
    )

push_new :
    (bytes : List ℕ) (q : Kqueue)
    → IsCounted q
    → length bytes ≤ max_count
    → 0 < q.free_pages
    → (q' : Kqueue) × (push_pages (suc (length bytes)) bytes (length bytes) 0 q
        ≡ some (pushed_all q'))
      × (contents q' ≡ contents q ++ bytes)
      × IsCounted q'
push_new bytes q counted fits free =
    let (q', run, all, still) =
      push_page (length bytes) (length bytes) bytes 0 q counted (omega arith) fits free in
    (q', run, all ∙ ap (λ t. contents q ++ t) (take_all (length bytes) bytes (omega arith)), still)

-- A chunk of `n` bytes goes to the front page, which has room behind its bytes, or, where the front
-- page is full or missing, to one new page.
abbrev pub HasRoom : ℕ → List KqueuePage → ℕ → Type 0
HasRoom n [] free = (n ≤ max_count) × (0 < free)
HasRoom n (p ∷ ps) free =
    ((length p.held < max_count) × (p.offset + length p.held + n ≤ max_count))
    ⊎ ((max_count ≤ length p.held) × (n ≤ max_count) × (0 < free))

push_front_lem :
    (bytes : List ℕ) (pages : List KqueuePage) (q : Kqueue)
    → pages ≡ q.pages
    → IsCounted q
    → HasRoom (length bytes) pages q.free_pages
    → (q' : Kqueue) × (push_front bytes (length bytes) pages q ≡ some (pushed_all q'))
      × (contents q' ≡ contents q ++ bytes)
      × IsCounted q'
unfolding store_bytes
push_front_lem bytes [] q same counted (fits, free) = push_new bytes q counted fits free
push_front_lem bytes (p ∷ ps) q same counted (inr (full, fits, free)) =
    rw (le→ltb (length p.held) max_count full) (push_new bytes q counted fits free)
push_front_lem bytes (p ∷ ps) q same counted (inl (open_page, fits)) =
    let p' = record p { held = p.held ++ take (length bytes) bytes } in
    let all : contents (grow_front (length bytes) p' ps q) ≡ contents q ++ bytes =
      contents-cons p' ps
      ∙ sym (append_assoc (flat (reverse ps)) p.held (take (length bytes) bytes))
      ∙ ap₂ (λ u v. u ++ v) (sym (contents-cons p ps) ∙ ap (λ l. flat (reverse l)) same)
          (take_all (length bytes) bytes (omega arith)) in
    rw
      (
        lt→ltb (length p.held) max_count open_page,
        le→leb (length bytes) (max_count - length p.held) (omega (arith, fits)),
        le→leb (p.offset + length p.held + length bytes) max_count fits,
      )
      (
        grow_front (length bytes) p' ps q,
        refl,
        all,
        omega (arith, counted, ap length all, length-append (contents q) bytes),
      )

-- With the counter right, kqueue_push of a chunk that there is room for, in the front page or in one
-- new page, ends without an error, appends the chunk to the bytes of the queue and keeps the counter
-- right.
pub kqueue_push_lem :
    (bytes : List ℕ) (q : Kqueue)
    → IsCounted q
    → HasRoom (length bytes) q.pages q.free_pages
    → (q' : Kqueue) × (kqueue_push bytes (length bytes) q ≡ some (pushed_all q'))
      × (contents q' ≡ contents q ++ bytes)
      × IsCounted q'
unfolding kqueue_push
kqueue_push_lem bytes q counted room = push_front_lem bytes q.pages q refl counted room

module _ (bytes : List ℕ) (p : KqueuePage) (ps : List KqueuePage) (q : Kqueue) (room : ℕ)
    (is_room : room ≡ max_count - length p.held) where
  spill_front : KqueuePage
  spill_front = record p { held = p.held ++ take room bytes }

  front_contents :
      q.pages ≡ p ∷ ps → contents (grow_front room spill_front ps q) ≡ contents q ++ take room bytes
  unfolding spill_front
  front_contents is_front =
      contents-cons spill_front ps
      ∙ sym (append_assoc (flat (reverse ps)) p.held (take room bytes))
      ∙ ap (λ t. t ++ take room bytes)
          (sym (contents-cons p ps) ∙ ap (λ l. flat (reverse l)) (sym is_front))

  spill_run :
      {r : Option Pushed}
      → p.offset ≡ 0
      → length p.held < max_count
      → room < length bytes
      → push_pages
          (suc (length bytes))
          bytes
          (length bytes - room)
          room
          (grow_front room spill_front ps q)
        ≡ r
      → push_front bytes (length bytes) (p ∷ ps) q ≡ r
  unfolding store_bytes spill_front
  spill_run base open_page more run =
      let large : leb (length bytes) room ≡ false = ground arith in
      rw
        (
          lt→ltb (length p.held) max_count open_page,
          ← is_room,
          large,
          le→leb (p.offset + length p.held + room) max_count (omega (arith, is_room)),
        )
        run

  -- With the counter right, a page to be had, and a front page that has room for a part of a chunk and
  -- whose base has not moved, a chunk whose rest fits one page spills over into a new page; this gets
  -- the first bytes of the chunk once more instead of the rest of it.
  pub kqueue_push-spill :
      q.pages ≡ p ∷ ps
      → IsCounted q
      → p.offset ≡ 0
      → length p.held < max_count
      → room < length bytes
      → length bytes ≤ room + max_count
      → 0 < q.free_pages
      → (q' : Kqueue) × (kqueue_push bytes (length bytes) q ≡ some (pushed_all q'))
        × (contents q' ≡ contents q ++ (take room bytes ++ take (length bytes - room) bytes))
  unfolding kqueue_push store_bytes spill_front
  kqueue_push-spill is_front counted base open_page more fits free =
      let q1 = grow_front room spill_front ps q in
      let front = front_contents is_front in
      let counted1 : IsCounted q1 = omega (
        arith,
        counted,
        ap length front,
        length-append (contents q) (take room bytes),
        length-take room bytes (omega arith),
      ) in
      let (q', run, all, _) =
        push_page (length bytes) (length bytes - room) bytes room q1 counted1 (omega arith)
          (omega arith) free in
      (
        q',
        ap (λ l. push_front bytes (length bytes) l q) is_front ∙ spill_run base open_page more run,
        all
            ∙ ap (λ t. t ++ take (length bytes - room) bytes) front
            ∙ append_assoc (contents q) (take room bytes) (take (length bytes - room) bytes),
      )
