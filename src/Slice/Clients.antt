-- ===== src/Slice/Clients.antt =====
-- kernel/slice.c and its clients: slice_alloc and slice_free called in any order, where a client frees
-- only what it has got and not freed yet.
use koowaldah.Base.{
  ℕ, ◌+◌, ◌-◌, ◌*◌, ◌/◌, ◌%◌, ◌<◌, ◌≡◌, ◌≢◌, inl, inr, Bool, true, false, ◌&&◌, refl, sym, ap, ◌∙◌,
  arith, List, [], ◌∷◌, ◌++◌, Option, some, ◌==◌, ==→eq, ==→ne, Bool-cases, if◌then◌else◌,
}
use mathlib.Core.Path.{subst}
use koowaldah.PageAlloc.{page_size}
use koowaldah.Slice.{SlicePage, SlicePool, usable, slice_alloc, slice_free}
use koowaldah.Slice.Shape.{IsSize, IsFirm}
use koowaldah.Slice.Pages.{taken, IsPool, Gives}
use koowaldah.Slice.New.{IsFresh, slice_alloc_lem}
use koowaldah.Slice.Release.{Frees, slice_place, slice_free_lem, listed}

abbrev pub All : (ℕ → Type 0) → List ℕ → Type 0
All P [] = Unit {0}
All P (a ∷ as') = P a × All P as'

-- The address of a slice that is marked as taken.
pub record IsLive (pool : SlicePool) (a : ℕ) : Type 0 where
  pub base : ℕ
  pub number : ℕ
  pub address : a ≡ base + number * pool.obj_size
  pub aligned : base % page_size ≡ 0
  pub low : number < usable pool.obj_size
  pub marked : taken pool base number ≡ true

-- A pool, and the addresses that its clients use.
pub data Step : SlicePool × List ℕ → SlicePool × List ℕ → Type 0 where
  allocates :
      {pool pool' : SlicePool} {live : List ℕ} (last : ℕ → ℕ) (fresh : Option SlicePage) (a : ℕ)
      → IsFresh last pool fresh
      → slice_alloc last fresh pool ≡ some (some a, pool')
      → Step (pool, live) (pool', a ∷ live)
  frees :
      {pool pool' : SlicePool} {live : List ℕ} (before after : List ℕ) (a : ℕ)
      → live ≡ before ++ a ∷ after
      → slice_free a pool ≡ some pool'
      → Step (pool, live) (pool', before ++ after)

pub data Reach (s : SlicePool × List ℕ) : SlicePool × List ℕ → Type 0 where
  here : Reach s s
  next : {t u : SlicePool × List ℕ} → Reach s t → Step t u → Reach s u

abbrev pub Distinct : List ℕ → Type 0
Distinct [] = Unit {0}
Distinct (a ∷ as') = All (λ b. a ≢ b) as' × Distinct as'

abbrev pub Inv : SlicePool × List ℕ → Type 0
Inv (pool, live) = IsPool pool × All (IsLive pool) live × Distinct live × IsFirm pool.obj_size

-- Equal addresses are those of the same slice.
same_slice :
    (pool : SlicePool) (base k : ℕ) (a : ℕ)
    → IsSize pool.obj_size
    → base % page_size ≡ 0
    → k < usable pool.obj_size
    → (l : IsLive pool a) → base + k * pool.obj_size ≡ a
    → (base ≡ l.base) × (k ≡ l.number)
same_slice pool base k a s aligned low l e =
    let size = pool.obj_size in
    let mine = slice_place size base k s aligned low in
    let its = slice_place size l.base l.number s l.aligned l.low in
    let same = e ∙ l.address in
    (
      sym mine.0 ∙ ap (λ (t : ℕ). t - t % page_size) same ∙ its.0,
      sym mine.1 ∙ ap (λ (t : ℕ). t % page_size / size) same ∙ its.1,
    )

-- What was taken stays taken when another slice is given.
Gives-keeps :
    (pool pool' : SlicePool) (base k b j : ℕ)
    → IsPool pool
    → Gives pool base k pool'
    → taken pool b j ≡ true
    → taken pool' b j ≡ true
Gives-keeps pool pool' base k b j valid g marked = elim (Bool-cases (base == b)) [
  | inl same ↦
      let e = ==→eq base b same in
      let marked_here : taken pool base j ≡ true = ap (λ (c : ℕ). taken pool c j) e ∙ marked in
      let known = listed pool base j valid marked_here in
      let kept = g.page_kept (omega (arith, known)) j in
      ap (λ (c : ℕ). taken pool' c j) (sym e) ∙ kept ∙ rw marked_here (both (k == j))
  | inr other ↦ g.elsewhere b j (==→ne base b other) ∙ marked
]
  where
    both : (b : Bool) → (if b then true else true) ≡ true
    both true = refl
    both false = refl

Gives-IsLive :
    (pool pool' : SlicePool) (base k a : ℕ)
    → IsPool pool
    → Gives pool base k pool'
    → IsLive pool a
    → IsLive pool' a
Gives-IsLive pool pool' base k a valid g l = record {
  base = l.base;
  number = l.number;
  address = l.address ∙ ap (λ (s : ℕ). l.base + l.number * s) (sym g.same_size);
  aligned = l.aligned;
  low = subst (λ (s : ℕ). l.number < usable s) (sym g.same_size) l.low;
  marked = Gives-keeps pool pool' base k l.base l.number valid g l.marked;
}

Frees-IsLive :
    (pool pool' : SlicePool) (a b : ℕ) (gone : IsLive pool a)
    → Frees pool gone.base gone.number pool'
    → a ≢ b
    → IsLive pool b
    → IsLive pool' b
Frees-IsLive pool pool' a b gone f ne l = record {
  base = l.base;
  number = l.number;
  address = l.address ∙ ap (λ (s : ℕ). l.base + l.number * s) (sym f.same_size);
  aligned = l.aligned;
  low = subst (λ (s : ℕ). l.number < usable s) (sym f.same_size) l.low;
  marked = f.marks l.base l.number ∙ rw other l.marked;
}
  where
    other : ((gone.base == l.base) && (gone.number == l.number)) ≡ false
    other = elim (Bool-cases (gone.base == l.base)) [
      | inl same ↦ elim (Bool-cases (gone.number == l.number)) [
        | inl too ↦ absurd (
            ne (
              gone.address
              ∙ ap (λ (c : ℕ). c + gone.number * pool.obj_size) (==→eq gone.base l.base same)
              ∙ ap (λ (c : ℕ). l.base + c * pool.obj_size) (==→eq gone.number l.number too)
              ∙ sym l.address))
        | inr apart ↦ rw (same, apart) refl
      ]
      | inr elsewhere ↦ rw elsewhere refl
    ]

pub All-map : (P Q : ℕ → Type 0) (live : List ℕ) → ((b : ℕ) → P b → Q b) → All P live → All Q live
All-map P Q [] f ps = tt
All-map P Q (b ∷ live) f (p, ps) = (f b p, All-map P Q live f ps)

pub All-zip :
    (P Q R : ℕ → Type 0) (live : List ℕ)
    → ((b : ℕ) → P b → Q b → R b)
    → All P live
    → All Q live
    → All R live
All-zip P Q R [] f ps qs = tt
All-zip P Q R (b ∷ live) f (p, ps) (q, qs) = (f b p q, All-zip P Q R live f ps qs)

All-without :
    (P : ℕ → Type 0) (before after : List ℕ) (a : ℕ)
    → All P (before ++ a ∷ after)
    → P a × All P (before ++ after)
All-without P [] after a ps = ps
All-without P (b ∷ before) after a (p, ps) =
    let (pa, rest) = All-without P before after a ps in (pa, (p, rest))

Distinct-without :
    (before after : List ℕ) (a : ℕ)
    → Distinct (before ++ a ∷ after)
    → All (λ b. a ≢ b) (before ++ after) × Distinct (before ++ after)
Distinct-without [] after a ds = ds
Distinct-without (b ∷ before) after a (d, ds) =
    let (ne, rest) = All-without (λ c. b ≢ c) before after a d in
    let (nes, distinct) = Distinct-without before after a ds in
    (((λ e. ne (sym e)), nes), (rest, distinct))

alloc-Inv :
    (pool pool' : SlicePool) (live : List ℕ) (base k : ℕ)
    → Inv (pool, live)
    → Gives pool base k pool'
    → Inv (pool', (base + k * pool.obj_size) ∷ live)
alloc-Inv pool pool' live base k (valid, lives, distinct, firm) g = (
  g.kept,
  (
    record {
      base = base;
      number = k;
      address = ap (λ (s : ℕ). base + k * s) (sym g.same_size);
      aligned = g.aligned;
      low = subst (λ (s : ℕ). k < usable s) (sym g.same_size) g.low;
      marked = g.takes;
    },
    All-map (IsLive pool) (IsLive pool') live (λ b. Gives-IsLive pool pool' base k b valid g) lives,
  ),
  (
    All-map (IsLive pool) (λ b. base + k * pool.obj_size ≢ b) live
        (λ b l e.
          let (eb, ek) = same_slice pool base k b valid.shape g.aligned g.low l e in
          let marked : taken pool base k ≡ true =
            ap (λ (c : ℕ). taken pool c k) eb ∙ ap (taken pool l.base) ek ∙ l.marked in
          cc (marked, g.was_free))
        lives,
    distinct,
  ),
  subst IsFirm (sym g.same_size) firm,
)

free-Inv :
    (pool pool' : SlicePool) (before after : List ℕ) (a : ℕ)
    → Inv (pool, before ++ a ∷ after)
    → slice_free a pool ≡ some pool'
    → Inv (pool', before ++ after)
free-Inv pool pool' before after a (valid, lives, distinct, firm) run =
    let (gone, others) = All-without (IsLive pool) before after a lives in
    let (nes, apart) = Distinct-without before after a distinct in
    let (p, e, f) =
      slice_free_lem pool gone.base gone.number valid gone.aligned gone.low gone.marked in
    let there = sym (ap (λ b. slice_free b pool) gone.address ∙ e) ∙ run in
    let same : p ≡ pool' = cc (there) in
    subst (λ q. Inv (q, before ++ after)) same
      (
        f.kept,
        All-zip (λ b. a ≢ b) (IsLive pool) (IsLive p) (before ++ after)
            (λ b ne l. Frees-IsLive pool p a b gone f ne l) nes others,
        apart,
        subst IsFirm (sym f.same_size) firm,
      )

step-Inv : {s t : SlicePool × List ℕ} → Step s t → Inv s → Inv t
step-Inv (allocates {pool} {pool'} {live} last fresh a new e) inv =
    elim (slice_alloc_lem last fresh pool inv.0 inv.3 new) [
      | inl (null, _, _) ↦ cc (null, e)
      | inr (base, k, p, runs, fit, g) ↦
          let there = sym runs ∙ e in
          let same : p ≡ pool' = cc (there) in
          let address : base + k * pool.obj_size ≡ a = cc (there) in
          subst (λ q. Inv (q, a ∷ live)) same
            (subst (λ b. Inv (p, b ∷ live)) address (alloc-Inv pool p live base k inv g))
    ]
step-Inv (frees {pool} {pool'} {live} before after a e run) inv =
    free-Inv pool pool' before after a (subst (λ l. Inv (pool, l)) e inv) run

pub Reach-Inv : {s t : SlicePool × List ℕ} → Reach s t → Inv s → Inv t
Reach-Inv here inv = inv
Reach-Inv (next r step) inv = step-Inv step (Reach-Inv r inv)
