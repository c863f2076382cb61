-- ===== src/Keyboard/Segment.antt =====
-- Parts of the buffer of drivers/keyboard/pc-kbd.c.
use koowaldah.Base.{
  ℕ, zero, suc, ◌+◌, ◌<◌, ◌≤◌, ◌≡◌, ◌⊎◌, inl, inr, refl, ap, ap₂, arith, [], ◌∷◌, ◌++◌, length,
  update,
}
use koowaldah.Keyboard.Queue.{segment}

pub length-segment : (buf : ℕ → ℕ) (a n : ℕ) → length (segment buf a n) ≡ n
unfolding segment
length-segment buf a zero = refl
length-segment buf a (suc n) = ap suc (length-segment buf (suc a) n)

pub segment-update :
    (buf : ℕ → ℕ) (i v a n : ℕ)
    → (i < a) ⊎ (a + n ≤ i)
    → segment (update buf i v) a n ≡ segment buf a n
unfolding segment
segment-update buf i v a zero out = refl
segment-update buf i v a (suc n) out =
    ap₂ (λ x xs. x ∷ xs) (ground (arith, out))
      (segment-update buf i v (suc a) n
        (elim out [ inl lt ↦ inl (omega arith) | inr le ↦ inr (omega arith) ]))

pub segment_end :
    (buf : ℕ → ℕ) (i v a n : ℕ)
    → i ≡ a + n
    → segment (update buf i v) a (suc n) ≡ segment buf a n ++ v ∷ []
unfolding segment
segment_end buf i v a zero e = ap (λ x. x ∷ []) (ground (arith, e))
segment_end buf i v a (suc n) e =
    ap₂ (λ x xs. x ∷ xs) (ground (arith, e)) (segment_end buf i v (suc a) n (omega arith))
