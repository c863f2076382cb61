-- ===== src/Klib/Strings.antt =====
-- The C string functions of include/lib.h.
use mathlib.Core.Option
use koowaldah.Base.{
  ℕ, zero, suc, ◌+◌, ◌-◌, ◌<◌, ◌≡◌, ◌≢◌, ◌↔◌, refl, sym, ap, ap₂, ◌∙◌, map-eq_some, arith,
  Bool-cases, inl, inr, ◌==◌, ==→eq, ==→ne, ne→==, ==_self, Option, none, some, List, [], ◌∷◌,
  length, if◌then◌else◌,
}
use koowaldah.Klib.{Memory, kstrchr, strlen_loop, kstrlen, kstrncmp, k__strcmp, kstrcmp}

-- The bytes from `p` on are those of `s`, and a zero byte ends them.
abbrev pub IsString : Memory → ℕ → List ℕ → Type 0
IsString m p [] = m p ≡ 0
IsString m p (c ∷ s) = (m p ≡ c) × (c ≢ 0) × IsString m (p + 1) s

strlen_loop_lem :
    (fuel : ℕ) (m : Memory) (p : ℕ) (s : List ℕ)
    → IsString m (p + 1) s
    → length s < fuel
    → strlen_loop fuel p m ≡ some (p + length s + 1)
unfolding strlen_loop
strlen_loop_lem zero m p s str lt = absurd (omega arith)
strlen_loop_lem (suc fuel) m p [] str lt = ground arith
strlen_loop_lem (suc fuel) m p (c ∷ s) str lt = ground (arith, strlen_loop_lem fuel m (p + 1) s)

-- kstrlen gives the length of a string that is not empty.
pub kstrlen_lem :
    (fuel : ℕ) (m : Memory) (p c : ℕ) (s : List ℕ)
    → IsString m p (c ∷ s)
    → length s < fuel
    → kstrlen fuel p m ≡ some (length (c ∷ s))
unfolding kstrlen
kstrlen_lem fuel m p c s str lt = rw (strlen_loop_lem fuel m p s str.2 lt) (ap some (omega arith))

strlen_loop-past : (fuel : ℕ) (m : Memory) (p q : ℕ) → strlen_loop fuel p m ≡ some q → p < q
unfolding strlen_loop
strlen_loop-past zero m p q e = cc
strlen_loop-past (suc fuel) m p q e = ground (arith, strlen_loop-past fuel m (p + 1) q)

-- The walk of kstrlen starts behind the first byte, so it never finds a string empty.
pub kstrlen-ne-zero : (fuel : ℕ) (m : Memory) (p : ℕ) → kstrlen fuel p m ≢ some 0
unfolding kstrlen
kstrlen-ne-zero fuel m p e =
    let (q, found, zero_diff) = map-eq_some (λ (q : ℕ). q - p) (strlen_loop fuel p m) e in
    omega (arith, strlen_loop-past fuel m p q found)

-- The position of the first `c`.
unfoldable pub find_first : ℕ → List ℕ → Option ℕ
find_first c [] = none
find_first c (x ∷ s) = if c == x then some 0 else Option.map suc (find_first c s)

map-shift :
    (p : ℕ) (o : Option ℕ)
    → Option.map (λ i. p + 1 + i) o ≡ Option.map (λ i. p + i) (Option.map suc o)
map-shift p none = refl
map-shift p (some i) = ap some (omega arith)

-- kstrchr gives the address of the first `c` of the string, and NULL if there is none.
pub kstrchr_lem :
    (fuel : ℕ) (m : Memory) (p c : ℕ) (s : List ℕ)
    → IsString m p s
    → length s < fuel
    → kstrchr fuel p c m ≡ some (Option.map (λ i. p + i) (find_first c s))
unfolding kstrchr find_first
kstrchr_lem zero m p c s str lt = absurd (omega arith)
kstrchr_lem (suc fuel) m p c [] str lt = rw str refl
kstrchr_lem (suc fuel) m p c (x ∷ s) (at, ne, str) lt =
    rw (at, ne→== x 0 ne)
      (elim (Bool-cases (c == x)) [
        | inl here ↦ rw here (ap (λ (q : ℕ). some (some q)) (omega arith))
        | inr other ↦ rw other (
            kstrchr_lem fuel m (p + 1) c s str (omega arith)
            ∙ ap some (map-shift p (find_first c s)))
      ])

-- What a comparison of two strings finds: their bytes at the first place where they differ, the zero
-- byte at an end counted.
unfoldable pub difference : List ℕ → List ℕ → ℕ × ℕ
difference [] [] = (0, 0)
difference [] (y ∷ t) = (0, y)
difference (x ∷ s) [] = (x, 0)
difference (x ∷ s) (y ∷ t) = let rest = difference s t in if x == y then rest else (x, y)

kstrncmp_lem :
    (m : Memory) (a b : ℕ) (s t : List ℕ)
    → IsString m a s
    → IsString m b t
    → length s ≡ length t
    → kstrncmp a b (length s) m ≡ difference s t
unfolding kstrncmp difference
kstrncmp_lem m a b [] [] l r e = rw (l, r) refl
kstrncmp_lem m a b [] (y ∷ t) l r e = absurd (omega arith)
kstrncmp_lem m a b (x ∷ s) [] l r e = absurd (omega arith)
kstrncmp_lem m a b (x ∷ s) (y ∷ t) (at_a, _, l) (at_b, _, r) e =
    rw (at_a, at_b, kstrncmp_lem m (a + 1) (b + 1) s t l r (omega arith)) refl

k__strcmp_lem :
    (fuel : ℕ) (m : Memory) (a b : ℕ) (s t : List ℕ)
    → IsString m a s
    → IsString m b t
    → length s < fuel
    → k__strcmp fuel a b m ≡ some (difference s t)
unfolding k__strcmp difference
k__strcmp_lem zero m a b s t l r lt = absurd (omega arith)
k__strcmp_lem (suc fuel) m a b [] [] l r lt = rw (l, r) refl
k__strcmp_lem (suc fuel) m a b [] (y ∷ t) l (r, _, _) lt = rw (l, r) refl
k__strcmp_lem (suc fuel) m a b (x ∷ s) [] (l, ne, _) r lt = rw (l, r, ne→== x 0 ne) refl
k__strcmp_lem (suc fuel) m a b (x ∷ s) (y ∷ t) (at_a, ne_a, l) (at_b, ne_b, r) lt =
    rw
      (
        at_a,
        at_b,
        ne→== x 0 ne_a,
        ne→== y 0 ne_b,
        k__strcmp_lem fuel m (a + 1) (b + 1) s t l r (omega arith),
      )
      (elim (Bool-cases (x == y)) [ inl same ↦ rw same refl | inr other ↦ rw other refl ])

difference_self : (s : List ℕ) → (difference s s).0 ≡ (difference s s).1
unfolding difference
difference_self [] = refl
difference_self (x ∷ s) = rw (==_self x) (difference_self s)

same_difference : (s t : List ℕ) → s ≡ t → (difference s t).0 ≡ (difference s t).1
same_difference s t e = rw (sym e) (difference_self s)

difference_eq :
    (m : Memory) (a b : ℕ) (s t : List ℕ)
    → IsString m a s
    → IsString m b t
    → (difference s t).0 ≡ (difference s t).1
    → s ≡ t
unfolding difference
difference_eq m a b [] [] l r e = refl
difference_eq m a b [] (y ∷ t) l (_, ne, _) e = absurd (ne (sym e))
difference_eq m a b (x ∷ s) [] (_, ne, _) r e = absurd (ne e)
difference_eq m a b (x ∷ s) (y ∷ t) (_, _, l) (_, _, r) e = elim (Bool-cases (x == y)) [
  | inl same ↦
      let tails = difference_eq m (a + 1) (b + 1) s t l r (rw same at e) in
      ap₂ (λ u v. u ∷ v) (==→eq x y same) tails
  | inr other ↦ absurd (==→ne x y other (rw other at e))
]

-- With fuel for both strings, kstrcmp of two strings that are not empty gives the two bytes at the
-- first place where they differ, whose difference is 0 exactly when the strings are equal.
pub kstrcmp_lem :
    (fuel : ℕ) (m : Memory) (a b x y : ℕ) (s t : List ℕ)
    → IsString m a (x ∷ s)
    → IsString m b (y ∷ t)
    → length s + 1 < fuel
    → length t + 1 < fuel
    → (d : ℕ × ℕ) × (kstrcmp fuel a b m ≡ some d)
      × ((d.0 ≡ d.1) ↔ (x ∷ s ≡ y ∷ t))
      × (d ≡ difference (x ∷ s) (y ∷ t))
unfolding kstrcmp
kstrcmp_lem fuel m a b x y s t l r lt_a lt_b =
    let found : kstrcmp fuel a b m ≡ some (difference (x ∷ s) (y ∷ t)) =
      rw
        (
          kstrlen_lem fuel m a x s l (omega arith),
          kstrlen_lem fuel m b y t r (omega arith),
          kstrcmp,
        )
        (elim (Bool-cases (length (x ∷ s) == length (y ∷ t))) [
          | inl same ↦ rw same (
              ap some (
                kstrncmp_lem m a b (x ∷ s) (y ∷ t) l r
                  (==→eq (length (x ∷ s)) (length (y ∷ t)) same)))
          | inr other ↦ rw other (k__strcmp_lem fuel m a b (x ∷ s) (y ∷ t) l r (omega arith))
        ]) in
    (
      difference (x ∷ s) (y ∷ t),
      found,
      (difference_eq m a b (x ∷ s) (y ∷ t) l r, λ e. same_difference (x ∷ s) (y ∷ t) e),
      refl,
    )
