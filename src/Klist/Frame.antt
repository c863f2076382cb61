-- ===== src/Klist/Frame.antt =====
-- What the operations of include/klist0.h leave alone: every list that shares no node with the one
-- they are called on.
use koowaldah.Base.{ℕ, List, [], ◌∷◌, ◌++◌, ◌≡◌, ◌≢◌, sym, arith}
use koowaldah.Klist.{Links, set_next, set_prev, init, prepend, append, unlink}
use koowaldah.Klist.Ring.{NotIn, Ring, Chain, Chain-set_next, Chain-set_prev, Chain-split}
use mathlib.Core.Path.{subst}

-- No node of the first list is one of the second.
abbrev pub Apart : List ℕ → List ℕ → Type 0
Apart [] zs = Unit
Apart (x ∷ xs) zs = NotIn x zs × Apart xs zs

pub Apart-cons : (x : ℕ) (xs ys : List ℕ) → NotIn x ys → Apart ys xs → Apart ys (x ∷ xs)
Apart-cons x xs [] out p = tt
Apart-cons x xs (y ∷ ys) out p = (((λ e. out.0 (sym e)), p.0), Apart-cons x xs ys out.1 p.1)

pub Apart-second :
    (a x : ℕ) (xs ys : List ℕ) → NotIn x ys → Apart ys (a ∷ xs) → Apart ys (a ∷ x ∷ xs)
Apart-second a x xs [] out p = tt
Apart-second a x xs (y ∷ ys) out p =
    ((p.0.0, ((λ e. out.0 (sym e)), p.0.1)), Apart-second a x xs ys out.1 p.1)

Apart-nil : (ys : List ℕ) → Apart ys []
Apart-nil [] = tt
Apart-nil (y ∷ ys) = (tt, Apart-nil ys)

pub Apart-sym : (xs ys : List ℕ) → Apart xs ys → Apart ys xs
Apart-sym [] ys p = Apart-nil ys
Apart-sym (x ∷ xs) ys p = Apart-cons x xs ys p.0 (Apart-sym xs ys p.1)

pub Apart-append : (xs ys zs : List ℕ) → Apart xs zs → Apart ys zs → Apart (xs ++ ys) zs
Apart-append [] ys zs p q = q
Apart-append (x ∷ xs) ys zs p q = (p.0, Apart-append xs ys zs p.1 q)

pub Apart-append_left : (xs ys zs : List ℕ) → Apart (xs ++ ys) zs → Apart xs zs
Apart-append_left [] ys zs p = tt
Apart-append_left (x ∷ xs) ys zs p = (p.0, Apart-append_left xs ys zs p.1)

pub Apart-append_right : (xs ys zs : List ℕ) → Apart (xs ++ ys) zs → Apart ys zs
Apart-append_right [] ys zs p = p
Apart-append_right (x ∷ xs) ys zs p = Apart-append_right xs ys zs p.1

Ring-set_next :
    (h : Links) (k : ℕ) (zs : List ℕ) (p q : ℕ)
    → NotIn p (k ∷ zs)
    → Ring h k zs
    → Ring (set_next h p q) k zs
Ring-set_next h k zs p q out r = (Chain-set_next h k k zs p q out r.0, r.1)

Ring-set_prev :
    (h : Links) (k : ℕ) (zs : List ℕ) (p q : ℕ)
    → NotIn p (k ∷ zs)
    → Ring h k zs
    → Ring (set_prev h p q) k zs
Ring-set_prev h k zs p q out r = (Chain-set_prev h k k zs p q out.1 out.0 r.0, r.1)

next-NotIn :
    (h : Links) (a b : ℕ) (xs zs : List ℕ)
    → Chain h a xs b
    → NotIn b zs
    → Apart xs zs
    → NotIn (h.next a) zs
next-NotIn h a b [] zs c out p = rw c.0 out
next-NotIn h a b (x ∷ xs) zs c out p = rw c.0 p.0

prev-NotIn :
    (h : Links) (a b : ℕ) (xs zs : List ℕ)
    → Chain h a xs b
    → NotIn a zs
    → Apart xs zs
    → NotIn (h.prev b) zs
prev-NotIn h a b [] zs c out p = rw c.1 out
prev-NotIn h a b (x ∷ xs) zs c out p = prev-NotIn h x b xs zs c.2 p.0 p.1

module _ (h : Links) (l n k : ℕ) (xs zs : List ℕ) where
  -- klist0_append to the head of a list leaves the lists alone that are apart from it and the node.
  pub append_frame :
      Ring h l xs
      → n ≢ l
      → NotIn n (k ∷ zs)
      → Apart (l ∷ xs) (k ∷ zs)
      → Ring h k zs
      → Ring (append n l h) k zs
  unfolding append
  append_frame r ne out p other =
      let same : (set_next h n (h.next l)).next l ≡ h.next l = ground arith in
      let next_out =
        subst (λ v. NotIn v (k ∷ zs)) (sym same) (next-NotIn h l l xs (k ∷ zs) r.0 p.0 p.1) in
      Ring-set_next _ k zs l n p.0 (
        Ring-set_prev _ k zs _ n next_out
          (Ring-set_prev _ k zs n l out (Ring-set_next h k zs n (h.next l) out other)))

  -- The same for klist0_prepend.
  pub prepend_frame :
      Ring h l xs
      → n ≢ l
      → NotIn n (k ∷ zs)
      → Apart (l ∷ xs) (k ∷ zs)
      → Ring h k zs
      → Ring (prepend n l h) k zs
  unfolding prepend
  prepend_frame r ne out p other =
      let same : (set_prev (set_next h n l) n (h.prev l)).prev l ≡ h.prev l = ground arith in
      let prev_out =
        subst (λ v. NotIn v (k ∷ zs)) (sym same) (prev-NotIn h l l xs (k ∷ zs) r.0 p.0 p.1) in
      Ring-set_prev _ k zs l n p.0 (
        Ring-set_next _ k zs _ n prev_out
          (Ring-set_prev _ k zs n (h.prev l) out (Ring-set_next h k zs n l out other)))

-- The same for klist0_unlink.
pub unlink_frame :
    (h : Links) (l a k : ℕ) (xs ys zs : List ℕ)
    → Ring h l (xs ++ a ∷ ys)
    → Apart (l ∷ xs ++ a ∷ ys) (k ∷ zs)
    → Ring h k zs
    → Ring (unlink a h) k zs
unfolding unlink
unlink_frame h l a k xs ys zs r p other =
    let (front, back) = Chain-split h l a l xs ys r.0 in
    let at_xs = Apart-append_left xs (a ∷ ys) (k ∷ zs) p.1 in
    let at_a = Apart-append_right xs (a ∷ ys) (k ∷ zs) p.1 in
    let prev_out = prev-NotIn h l a xs (k ∷ zs) front p.0 at_xs in
    let same : (set_next h (h.prev a) (h.next a)).next a ≡ h.next a = ground arith in
    let next_out =
      subst (λ v. NotIn v (k ∷ zs)) (sym same) (next-NotIn h a l ys (k ∷ zs) back p.0 at_a.1) in
    Ring-set_prev _ k zs a a at_a.0 (
      Ring-set_next _ k zs a a at_a.0
        (Ring-set_prev _ k zs _ _ next_out (Ring-set_next h k zs _ _ prev_out other)))

-- KLIST0_INIT of a node leaves the lists alone that it is not part of.
pub init_frame :
    (h : Links) (l k : ℕ) (zs : List ℕ) → NotIn l (k ∷ zs) → Ring h k zs → Ring (init l h) k zs
unfolding init
init_frame h l k zs out other = Ring-set_next _ k zs l l out (Ring-set_prev h k zs l l out other)
