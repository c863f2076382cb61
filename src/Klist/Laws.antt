-- ===== src/Klist/Laws.antt =====
-- The operations of include/klist0.h on well-formed lists: each is the list operation that its
-- comment promises, and keeps the list well formed.
use koowaldah.Base.{
  ℕ, suc, zero, ◌<◌, List, [], ◌∷◌, ◌++◌, append-nil, append_assoc, ◌≡◌, ◌≢◌, Bool, true, false,
  some, arith, length, ==_self, ne→==, sym,
}
use mathlib.Core.Path.{subst}
use koowaldah.Klist.{
  Links, set_next, set_prev, init, prepend, append, unlink, is_empty, reparent, for_each,
}
use koowaldah.Klist.Ring.{
  NotIn, Ring, Chain, Chain-set_next, Chain-set_prev, Chain-ext, Chain-join, Chain-retarget,
  NotIn-swap, Distinct-swap, Ring-rotate, prev-ne,
}

-- KLIST0_INIT makes an empty list.
pub Ring-init : (h : Links) (l : ℕ) → Ring (init l h) l []
unfolding init
Ring-init h l = ground arith

append-stores :
    (h : Links) (l n x : ℕ)
    → n ≢ l
    → h.next l ≡ x
    → append n l h ≡ set_next (set_prev (set_prev (set_next h n x) n l) x n) l n
unfolding append
append-stores h l n x ne e = rw (ne→== n l ne, e)

pub append_head :
    (h : Links) (l n : ℕ) (xs : List ℕ)
    → Ring h l xs
    → NotIn n (l ∷ xs)
    → Ring (append n l h) l (n ∷ xs)
append_head h l n [] r out = rw (append-stores h l n l out.0 r.0.0) (ground arith)
append_head h l n (x ∷ xs) r out =
    let c1 = Chain-set_next h x l xs n x out.1 r.0.2 in
    let c2 = Chain-set_prev _ x l xs n l out.1.1 out.0 c1 in
    let c3 = Chain-set_prev _ x l xs x n r.1.1.0 (λ e. r.1.0.0 (sym e)) c2 in
    let c4 = Chain-set_next _ x l xs l n r.1.0 c3 in
    subst (λ g. Ring g l (n ∷ x ∷ xs)) (sym (append-stores h l n x out.0 r.0.0))
      (
        (ground arith, ground arith, (ground arith, ground arith, c4)),
        (((λ e. out.0 (sym e)), r.1.0), (out.1, r.1.1)),
      )

pub prepend_head :
    (h : Links) (l n : ℕ) (xs : List ℕ)
    → Ring h l xs
    → NotIn n (l ∷ xs)
    → Ring (prepend n l h) l (xs ++ n ∷ [])
unfolding prepend
prepend_head h l n xs r out =
    let w = h.prev l in
    let apart : w ≢ n = prev-ne h l l n xs r.0 out in
    let c1 = Chain-retarget h l l n xs r.0 r.1 out.1 in
    let c2 = Chain-set_prev _ l n xs l n r.1.0 (λ e. out.0 (sym e)) c1 in
    let c3 = Chain-set_next _ l n xs n l out c2 in
    let c4 = Chain-ext _ (prepend n l h) l n xs (λ i. ground arith) (λ i. ground arith) c3 in
    (
      Chain-join (prepend n l h) l n l xs [] c4 (ground arith, ground arith),
      Distinct-swap (n ∷ []) (l ∷ xs) (out, r.1),
    )

unlink_next :
    (h : Links) (a z : ℕ) (zs : List ℕ)
    → Ring h a (z ∷ zs)
    → Ring (unlink a h) z zs × Ring (unlink a h) a []
unfolding unlink
unlink_next h a z zs r =
    let w = h.prev a in
    let apart : w ≢ a = prev-ne h z a a zs r.0.2 r.1.0 in
    let c1 = Chain-retarget h z a z zs r.0.2 r.1.1 r.1.1.0 in
    let c2 = Chain-set_next _ z z zs a a r.1.0 c1 in
    let c3 = Chain-set_prev _ z z zs a a r.1.0.1 r.1.0.0 c2 in
    let c4 =
      Chain-ext _ (unlink a h) z z zs (λ i. ground (arith, r.0.0)) (λ i. ground (arith, r.0.0))
        c3 in
    ((c4, r.1.1), ((ground arith, ground arith), (tt, tt)))

module _ (h : Links) (l n a : ℕ) (xs ys : List ℕ) where
  -- On a well-formed list klist0_append puts a new node right behind the given one, be it the head
  -- or a member.
  pub append_lem :
      Ring h l (xs ++ a ∷ ys)
      → NotIn n (l ∷ xs ++ a ∷ ys)
      → Ring (append n a h) l (xs ++ a ∷ n ∷ ys)
  append_lem r out = Ring-rotate (append n a h) a l (n ∷ ys) xs (
      append_head h a n (ys ++ l ∷ xs) (Ring-rotate h l a xs ys r)
        (NotIn-swap n (l ∷ xs) (a ∷ ys) out))

  -- On a well-formed list klist0_prepend puts a new node right before the given member.
  pub prepend_lem :
      Ring h l (xs ++ a ∷ ys)
      → NotIn n (l ∷ xs ++ a ∷ ys)
      → Ring (prepend n a h) l (xs ++ n ∷ a ∷ ys)
  prepend_lem r out =
      let around : Ring (prepend n a h) a (ys ++ l ∷ (xs ++ n ∷ [])) =
        subst (Ring (prepend n a h) a) (append_assoc ys (l ∷ xs) (n ∷ [])) (
          prepend_head h a n (ys ++ l ∷ xs) (Ring-rotate h l a xs ys r)
            (NotIn-swap n (l ∷ xs) (a ∷ ys) out)) in
      subst (Ring (prepend n a h) l) (append_assoc xs (n ∷ []) (a ∷ ys))
        (Ring-rotate (prepend n a h) a l ys (xs ++ n ∷ []) around)

-- klist0_unlink takes a member out of a well-formed list, and leaves it as an empty list of its
-- own.
pub unlink_lem :
    (h : Links) (l a : ℕ) (xs ys : List ℕ)
    → Ring h l (xs ++ a ∷ ys)
    → Ring (unlink a h) l (xs ++ ys) × Ring (unlink a h) a []
unlink_lem h l a xs [] r = rw (append-nil xs) (unlink_next h a l xs (Ring-rotate h l a xs [] r))
unlink_lem h l a xs (y ∷ ys) r =
    let (rest, alone) = unlink_next h a y (ys ++ l ∷ xs) (Ring-rotate h l a xs (y ∷ ys) r) in
    (Ring-rotate (unlink a h) y l ys xs rest, alone)

abbrev pub is_nil : List ℕ → Bool
is_nil [] = true
is_nil (x ∷ xs) = false

-- klist0_empty tells the empty list.
pub is_empty_lem : (h : Links) (l : ℕ) (xs : List ℕ) → Ring h l xs → is_empty l h ≡ is_nil xs
unfolding is_empty
is_empty_lem h l [] r = rw r.0.0 (==_self l)
is_empty_lem h l (x ∷ xs) r = rw r.0.0 (ne→== x l (λ e. r.1.0.0 (sym e)))

for_each-Chain :
    (fuel : ℕ) (h : Links) (a l : ℕ) (xs : List ℕ)
    → Chain h a xs l
    → NotIn l xs
    → length xs < fuel
    → for_each fuel (h.next a) l h ≡ some xs
unfolding for_each
for_each-Chain zero h a l xs c out lt = absurd (omega arith)
for_each-Chain (suc fuel) h a l [] c out lt = rw (c.0, ==_self l)
for_each-Chain (suc fuel) h a l (x ∷ xs) c out lt =
    rw (c.0, ne→== x l (λ e. out.0 (sym e)), for_each-Chain fuel h x l xs c.2 out.1 (omega arith))

-- With more fuel than the list is long, klist0_for_each visits the nodes of a well-formed list, in
-- order, and ends.
pub for_each_lem :
    (fuel : ℕ) (h : Links) (l : ℕ) (xs : List ℕ)
    → Ring h l xs
    → length xs < fuel
    → for_each fuel (h.next l) l h ≡ some xs
for_each_lem fuel h l xs r lt = for_each-Chain fuel h l l xs r.0 r.1.0 lt

-- klist0_reparent hands a well-formed list that is not empty to a head that is not part of it, and
-- empties the old head's.
pub reparent_lem :
    (h : Links) (f t x : ℕ) (xs : List ℕ)
    → Ring h f (x ∷ xs)
    → NotIn t (f ∷ x ∷ xs)
    → Ring (reparent f t h) t (x ∷ xs) × Ring (reparent f t h) f []
unfolding reparent
reparent_lem h f t x xs r out =
    let w = h.prev f in
    let apart : w ≢ f = prev-ne h x f f xs r.0.2 r.1.0 in
    let apart' : w ≢ t = prev-ne h x f t xs r.0.2 out.1 in
    let c1 = Chain-retarget h x f t xs r.0.2 r.1.1 out.1.1 in
    let c2 = Chain-set_next _ x t xs t x out.1 c1 in
    let c3 = Chain-set_prev _ x t xs x t r.1.1.0 (λ e. out.1.0 (sym e)) c2 in
    let c4 = Chain-set_next _ x t xs f f r.1.0 c3 in
    let c5 = Chain-set_prev _ x t xs f f r.1.0.1 (λ e. out.0 (sym e)) c4 in
    let c6 =
      Chain-ext _ (reparent f t h) x t xs (λ i. ground (arith, r.0.0)) (λ i. ground (arith, r.0.0))
        c5 in
    (
      ((ground (arith, r.0.0), ground (arith, r.0.0), c6), (out.1, r.1.1)),
      ((ground (arith, r.0.0), ground (arith, r.0.0)), (tt, tt)),
    )
