-- ===== src/Bitmap/Seek.antt =====
-- The searches of kernel/lib/bitmap.c.
use koowaldah.Base.{
  ℕ, zero, suc, ◌+◌, ◌*◌, ◌/◌, ◌%◌, ◌<◌, ◌≤◌, ◌≡◌, Bool, true, false, not, Option, none, some, refl,
  ap, arith, sym, ◌∙◌, ◌==◌, ==→eq, ==→ne, Bool-cases, inl, inr, if◌then◌else◌,
}
use mathlib.Core.Path.{subst}
use koowaldah.Bitmap.{
  Bitmap, test_bit, seek_set_loop, seek_unset_loop, bitmap_seek_set, bitmap_seek_unset,
}
use koowaldah.Bitmap.Access.{is_set}

-- The result of a search from `bit` to `limit` for the first bit with the value `value`.
abbrev pub IsFirst : Bool → Bitmap → ℕ → ℕ → Option ℕ → Type 0
IsFirst value dst bit limit none = (j : ℕ) → bit ≤ j → j < limit → is_set dst j ≡ not value
IsFirst value dst bit limit (some i) =
    (bit ≤ i)
    × (i < limit)
    × (is_set dst i ≡ value)
    × ((j : ℕ) → bit ≤ j → j < i → is_set dst j ≡ not value)

-- One more bit that is not the one.
IsFirst-suc :
    (value : Bool) (dst : Bitmap) (bit limit : ℕ) (o : Option ℕ)
    → is_set dst bit ≡ not value
    → IsFirst value dst (bit + 1) limit o
    → IsFirst value dst bit limit o
IsFirst-suc value dst bit limit none miss rest = λ j from to. elim (Bool-cases (bit == j)) [
  | inl same ↦ ap (is_set dst) (sym (==→eq bit j same)) ∙ miss
  | inr other ↦ rest j (omega (arith, ==→ne bit j other)) to
]
IsFirst-suc value dst bit limit (some i) miss (low, high, hit, before) = (
  omega arith,
  high,
  hit,
  λ j from to. elim (Bool-cases (bit == j)) [
    | inl same ↦ ap (is_set dst) (sym (==→eq bit j same)) ∙ miss
    | inr other ↦ before j (omega (arith, ==→ne bit j other)) to
  ],
)

IsFirst-here :
    (value : Bool) (dst : Bitmap) (bit limit : ℕ)
    → bit < limit
    → is_set dst bit ≡ value
    → IsFirst value dst bit limit (some bit)
IsFirst-here value dst bit limit lt hit = (omega arith, lt, hit, λ j from to. absurd (omega arith))

IsFirst-step :
    (value : Bool) (dst : Bitmap) (bit limit : ℕ) (rest : Option ℕ) (hit : Bool)
    → bit < limit
    → (hit ≡ true → is_set dst bit ≡ value)
    → (hit ≡ false → is_set dst bit ≡ not value)
    → IsFirst value dst (bit + 1) limit rest
    → IsFirst value dst bit limit (if hit then some bit else rest)
IsFirst-step value dst bit limit rest true lt met missed later =
    IsFirst-here value dst bit limit lt (met refl)
IsFirst-step value dst bit limit rest false lt met missed later =
    IsFirst-suc value dst bit limit rest (missed refl) later

pub is_set_at :
    (dst : Bitmap) (bit tmp word : ℕ)
    → word * 32 + tmp ≡ bit
    → tmp < 32
    → is_set dst bit ≡ test_bit (dst word) tmp
unfolding is_set
is_set_at dst bit tmp word e lt =
    let quotient : bit / 32 ≡ word = omega arith in
    let remainder : bit % 32 ≡ tmp = omega arith in rw (quotient, remainder) refl

not-true : (b : Bool) → not b ≡ true → b ≡ false
not-true true h = sym h
not-true false h = refl

not-false : (b : Bool) → not b ≡ false → b ≡ true
not-false true h = refl
not-false false h = sym h

seek_set_loop_lem :
    (left bit tmp word : ℕ) (dst : Bitmap)
    → word * 32 + tmp ≡ bit
    → tmp ≤ 32
    → IsFirst true dst bit (bit + left) (seek_set_loop left bit tmp word dst)
unfolding seek_set_loop
seek_set_loop_lem zero bit tmp word dst e le = λ j from to. absurd (omega arith)
seek_set_loop_lem (suc left) bit tmp word dst e le =
    let limit : bit + 1 + left ≡ bit + suc left = omega arith in
    elim (Bool-cases (tmp == 32)) [
      | inl full ↦
          let tmp_full = ==→eq tmp 32 full in
          let at = is_set_at dst bit 0 (word + 1) (omega arith) (omega arith) in
          let rest =
            seek_set_loop_lem left (bit + 1) 1 (word + 1) dst (omega arith) (omega arith) in
          rw full (
            IsFirst-step true dst bit (bit + suc left) _ (test_bit (dst (word + 1)) 0) (omega arith)
              (λ h. at ∙ h) (λ h. at ∙ h)
              (subst
                (λ l. IsFirst true dst (bit + 1) l (seek_set_loop left (bit + 1) 1 (word + 1) dst))
                limit rest))
      | inr room ↦
          let tmp_room = ==→ne tmp 32 room in
          let at = is_set_at dst bit tmp word (omega arith) (omega arith) in
          let rest =
            seek_set_loop_lem left (bit + 1) (tmp + 1) word dst (omega arith) (omega arith) in
          rw room (
            IsFirst-step true dst bit (bit + suc left) _ (test_bit (dst word) tmp) (omega arith)
              (λ h. at ∙ h) (λ h. at ∙ h)
              (subst
                (λ l.
                  IsFirst true dst (bit + 1) l (seek_set_loop left (bit + 1) (tmp + 1) word dst))
                limit rest))
    ]

seek_unset_loop_lem :
    (left bit tmp word : ℕ) (dst : Bitmap)
    → word * 32 + tmp ≡ bit
    → tmp ≤ 32
    → IsFirst false dst bit (bit + left) (seek_unset_loop left bit tmp word dst)
unfolding seek_unset_loop
seek_unset_loop_lem zero bit tmp word dst e le = λ j from to. absurd (omega arith)
seek_unset_loop_lem (suc left) bit tmp word dst e le =
    let limit : bit + 1 + left ≡ bit + suc left = omega arith in
    elim (Bool-cases (tmp == 32)) [
      | inl full ↦
          let tmp_full = ==→eq tmp 32 full in
          let at = is_set_at dst bit 0 (word + 1) (omega arith) (omega arith) in
          let rest =
            seek_unset_loop_lem left (bit + 1) 1 (word + 1) dst (omega arith) (omega arith) in
          rw full (
            IsFirst-step false dst bit (bit + suc left) _ (not (test_bit (dst (word + 1)) 0))
              (omega arith) (λ h. at ∙ not-true (test_bit (dst (word + 1)) 0) h)
              (λ h. at ∙ not-false (test_bit (dst (word + 1)) 0) h)
              (subst
                (λ l.
                  IsFirst false dst (bit + 1) l (seek_unset_loop left (bit + 1) 1 (word + 1) dst))
                limit rest))
      | inr room ↦
          let tmp_room = ==→ne tmp 32 room in
          let at = is_set_at dst bit tmp word (omega arith) (omega arith) in
          let rest =
            seek_unset_loop_lem left (bit + 1) (tmp + 1) word dst (omega arith) (omega arith) in
          rw room (
            IsFirst-step false dst bit (bit + suc left) _ (not (test_bit (dst word) tmp))
              (omega arith) (λ h. at ∙ not-true (test_bit (dst word) tmp) h)
              (λ h. at ∙ not-false (test_bit (dst word) tmp) h)
              (subst
                (λ l.
                  IsFirst false dst (bit + 1) l (seek_unset_loop left (bit + 1) (tmp + 1) word dst))
                limit rest))
    ]

-- bitmap_seek_set finds the first bit below the limit that is set, or -1 if none is.
pub seek_set_lem : (dst : Bitmap) (limit : ℕ) → IsFirst true dst 0 limit (bitmap_seek_set dst limit)
unfolding bitmap_seek_set
seek_set_lem dst limit =
    let e : 0 + limit ≡ limit = omega arith in
    rw e at (seek_set_loop_lem limit 0 0 0 dst refl (omega arith))

-- bitmap_seek_unset finds the first bit below the limit that is not set, or -1 if all are.
pub seek_unset_lem :
    (dst : Bitmap) (limit : ℕ) → IsFirst false dst 0 limit (bitmap_seek_unset dst limit)
unfolding bitmap_seek_unset
seek_unset_lem dst limit =
    let e : 0 + limit ≡ limit = omega arith in
    rw e at (seek_unset_loop_lem limit 0 0 0 dst refl (omega arith))
