-- ===== src/Klist/Ring.antt =====
-- What a well-formed klist0 list is: a chain of nodes, linked both ways and closed at its head,
-- that meets no node twice. Lemmas on chains under single stores.
use koowaldah.Base.{ℕ, List, [], ◌∷◌, ◌++◌, append-nil, ◌≡◌, ◌≢◌, sym, ◌∙◌, arith}
use koowaldah.Klist.{Links, set_next, set_prev}

abbrev pub NotIn : ℕ → List ℕ → Type 0
NotIn a [] = Unit
NotIn a (x ∷ xs) = (a ≢ x) × NotIn a xs

abbrev pub Distinct : List ℕ → Type 0
Distinct [] = Unit
Distinct (x ∷ xs) = NotIn x xs × Distinct xs

-- From `a` the links lead through `xs` to `b`, and back.
abbrev pub Chain : Links → ℕ → List ℕ → ℕ → Type 0
Chain h a [] b = (h.next a ≡ b) × (h.prev b ≡ a)
Chain h a (x ∷ xs) b = (h.next a ≡ x) × (h.prev x ≡ a) × Chain h x xs b

-- The list with head `l` holds the nodes `xs`, first to last.
abbrev pub Ring : Links → ℕ → List ℕ → Type 0
Ring h l xs = Chain h l xs l × Distinct (l ∷ xs)

pub NotIn-append : (a : ℕ) (xs ys : List ℕ) → NotIn a xs → NotIn a ys → NotIn a (xs ++ ys)
NotIn-append a [] ys p q = q
NotIn-append a (x ∷ xs) ys p q = (p.0, NotIn-append a xs ys p.1 q)

pub NotIn-append_left : (a : ℕ) (xs ys : List ℕ) → NotIn a (xs ++ ys) → NotIn a xs
NotIn-append_left a [] ys p = tt
NotIn-append_left a (x ∷ xs) ys p = (p.0, NotIn-append_left a xs ys p.1)

pub NotIn-append_right : (a : ℕ) (xs ys : List ℕ) → NotIn a (xs ++ ys) → NotIn a ys
NotIn-append_right a [] ys p = p
NotIn-append_right a (x ∷ xs) ys p = NotIn-append_right a xs ys p.1

pub NotIn-swap : (a : ℕ) (xs ys : List ℕ) → NotIn a (xs ++ ys) → NotIn a (ys ++ xs)
NotIn-swap a xs ys p =
    NotIn-append a ys xs (NotIn-append_right a xs ys p) (NotIn-append_left a xs ys p)

-- A new node may stand anywhere.
pub Distinct-insert :
    (x : ℕ) (ys xs : List ℕ) → NotIn x (ys ++ xs) → Distinct (ys ++ xs) → Distinct (ys ++ x ∷ xs)
Distinct-insert x [] xs p d = (p, d)
Distinct-insert x (y ∷ ys) xs p d = (
  NotIn-append y ys (x ∷ xs) (NotIn-append_left y ys xs d.0)
      ((λ e. p.0 (sym e)), NotIn-append_right y ys xs d.0),
  Distinct-insert x ys xs p.1 d.1,
)

-- The two parts of a list without repetition may change places.
pub Distinct-swap : (xs ys : List ℕ) → Distinct (xs ++ ys) → Distinct (ys ++ xs)
Distinct-swap [] ys d = rw (append-nil ys) d
Distinct-swap (x ∷ xs) ys d =
    Distinct-insert x ys xs (NotIn-swap x xs ys d.0) (Distinct-swap xs ys d.1)

pub Distinct-delete :
    (x : ℕ) (xs ys : List ℕ) → Distinct (xs ++ x ∷ ys) → Distinct (xs ++ ys) × NotIn x (xs ++ ys)
Distinct-delete x [] ys d = (d.1, d.0)
Distinct-delete x (z ∷ xs) ys d =
    let (rest, out) = Distinct-delete x xs ys d.1 in
    let at_x = NotIn-append_right z xs (x ∷ ys) d.0 in
    (
      (NotIn-append z xs ys (NotIn-append_left z xs (x ∷ ys) d.0) at_x.1, rest),
      ((λ e. at_x.0 (sym e)), out),
    )

-- A store to a node off the chain is not seen by it.
pub Chain-set_next :
    (h : Links) (a b : ℕ) (xs : List ℕ) (p q : ℕ)
    → NotIn p (a ∷ xs)
    → Chain h a xs b
    → Chain (set_next h p q) a xs b
Chain-set_next h a b [] p q out c = ground arith
Chain-set_next h a b (x ∷ xs) p q out c = (ground arith, c.1, Chain-set_next h x b xs p q out.1 c.2)

pub Chain-set_prev :
    (h : Links) (a b : ℕ) (xs : List ℕ) (p q : ℕ)
    → NotIn p xs
    → p ≢ b
    → Chain h a xs b
    → Chain (set_prev h p q) a xs b
Chain-set_prev h a b [] p q out ne c = ground arith
Chain-set_prev h a b (x ∷ xs) p q out ne c =
    (c.0, ground arith, Chain-set_prev h x b xs p q out.1 ne c.2)

-- A chain only depends on what the two fields hold.
pub Chain-ext :
    (h g : Links) (a b : ℕ) (xs : List ℕ)
    → ((i : ℕ) → g.next i ≡ h.next i)
    → ((i : ℕ) → g.prev i ≡ h.prev i)
    → Chain h a xs b
    → Chain g a xs b
Chain-ext h g a b [] n p c = (n a ∙ c.0, p b ∙ c.1)
Chain-ext h g a b (x ∷ xs) n p c = (n a ∙ c.0, p x ∙ c.1, Chain-ext h g x b xs n p c.2)

-- Two chains that meet make one.
pub Chain-join :
    (h : Links) (a m b : ℕ) (xs ys : List ℕ)
    → Chain h a xs m
    → Chain h m ys b
    → Chain h a (xs ++ m ∷ ys) b
Chain-join h a m b [] ys c d = (c.0, c.1, d)
Chain-join h a m b (x ∷ xs) ys c d = (c.0, c.1, Chain-join h x m b xs ys c.2 d)

pub Chain-split :
    (h : Links) (a m b : ℕ) (xs ys : List ℕ)
    → Chain h a (xs ++ m ∷ ys) b
    → Chain h a xs m × Chain h m ys b
Chain-split h a m b [] ys c = ((c.0, c.1), c.2)
Chain-split h a m b (x ∷ xs) ys c =
    let (front, back) = Chain-split h x m b xs ys c.2 in ((c.0, c.1, front), back)

-- The node before the end is one of the chain's.
pub prev-ne :
    (h : Links) (a b z : ℕ) (xs : List ℕ) → Chain h a xs b → NotIn z (a ∷ xs) → h.prev b ≢ z
prev-ne h a b z [] c out = λ e. out.0 (sym e ∙ c.1)
prev-ne h a b z (x ∷ xs) c out = prev-ne h x b z xs c.2 out.1

-- Bending the end of a chain from `b` to `m`, the two stores of a removal or an insertion.
pub Chain-retarget :
    (h : Links) (a b m : ℕ) (xs : List ℕ)
    → Chain h a xs b
    → Distinct (a ∷ xs)
    → NotIn m xs
    → Chain (set_prev (set_next h (h.prev b) m) m (h.prev b)) a xs m
Chain-retarget h a b m [] c d out = ground arith
Chain-retarget h a b m (x ∷ xs) c d out = (
  ground (arith, prev-ne h x b a xs c.2 d.0),
  ground arith,
  Chain-retarget h x b m xs c.2 d.1 out.1,
)

-- A ring may be read from any of its nodes.
pub Ring-rotate :
    (h : Links) (l a : ℕ) (xs ys : List ℕ) → Ring h l (xs ++ a ∷ ys) → Ring h a (ys ++ l ∷ xs)
Ring-rotate h l a xs ys r =
    let (front, back) = Chain-split h l a l xs ys r.0 in
    (Chain-join h a l a ys xs back front, Distinct-swap (l ∷ xs) (a ∷ ys) r.1)
