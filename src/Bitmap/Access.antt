-- ===== src/Bitmap/Access.antt =====
-- Reading one bit of an array after a change of another, or the same.
use koowaldah.Base.{
  ℕ, ◌/◌, ◌%◌, ◌^◌, ◌≡◌, ◌≢◌, Bool, true, false, refl, ap, arith, ◌==◌, ==→eq, ==→ne, ne→==,
  ==_self, Bool-cases, inl, inr, if◌then◌else◌, update,
}
use koowaldah.Base.Pow.{pow2_pos}
use koowaldah.Bitmap.{
  Bitmap, bits_per_long, test_bit, or_bit, clear_bit, bitmap_bit_set, bitmap_bit_clear,
  bitmap_bit_get,
}
use koowaldah.Bitmap.Bits.{or_bit_lem, clear_bit_lem}

-- Is the bit set?
unfoldable pub is_set : Bitmap → ℕ → Bool
is_set dst bit = test_bit (dst (bit / bits_per_long)) (bit % bits_per_long)

eq→== : (a b : ℕ) → a ≡ b → (a == b) ≡ true
eq→== a b e = rw e (==_self b)

same_place : (a b : ℕ) → a ≢ b → a / 32 ≡ b / 32 → a % 32 ≢ b % 32
same_place a b ne q r = ne (omega arith)

-- An array with one bit changed, for a change of one bit of a word.
module _ (change : ℕ → ℕ → ℕ) (value : Bool)
    (law : (w i j : ℕ) → test_bit (change w i) j ≡ (if i == j then value else test_bit w j))
    (dst : Bitmap) (bit other : ℕ) where
  abbrev changed : Bitmap
  changed =
      update dst (bit / bits_per_long) (change (dst (bit / bits_per_long)) (bit % bits_per_long))

  changed_lem : is_set changed other ≡ (if bit == other then value else is_set dst other)
  unfolding is_set
  changed_lem = elim (Bool-cases (bit == other)) [
    | inl same ↦
        let e = ==→eq bit other same in
        rw
          (
            same,
            eq→== (bit / 32) (other / 32) (ap (λ v. v / 32) e),
            law (dst (bit / 32)) (bit % 32) (other % 32),
            eq→== (bit % 32) (other % 32) (ap (λ v. v % 32) e),
          )
          refl
    | inr apart ↦ elim (Bool-cases (bit / 32 == other / 32)) [
      | inl word ↦
          let e = ==→eq (bit / 32) (other / 32) word in
          rw
            (
              apart,
              word,
              law (dst (bit / 32)) (bit % 32) (other % 32),
              ne→== (bit % 32) (other % 32) (same_place bit other (==→ne bit other apart) e),
            )
            (ap (λ v. test_bit (dst v) (other % 32)) e)
      | inr words ↦ rw (apart, words) refl
    ]
  ]

-- bitmap_bit_set sets its bit, and changes no other bit of the array.
pub bit_set_lem :
    (dst : Bitmap) (bit other : ℕ)
    → is_set (bitmap_bit_set bit dst) other ≡ (if bit == other then true else is_set dst other)
unfolding bitmap_bit_set
bit_set_lem dst bit other = changed_lem or_bit true or_bit_lem dst bit other

-- bitmap_bit_clear clears its bit, and changes no other bit of the array.
pub bit_clear_lem :
    (dst : Bitmap) (bit other : ℕ)
    → is_set (bitmap_bit_clear bit dst) other ≡ (if bit == other then false else is_set dst other)
unfolding bitmap_bit_clear
bit_clear_lem dst bit other = changed_lem clear_bit false clear_bit_lem dst bit other

-- bitmap_bit_get is not zero exactly for the bits that are set.
pub bit_get_lem :
    (dst : Bitmap) (bit : ℕ)
    → (bitmap_bit_get bit dst == 0) ≡ (if is_set dst bit then false else true)
unfolding is_set bitmap_bit_get
bit_get_lem dst bit = elim (Bool-cases (test_bit (dst (bit / 32)) (bit % 32))) [
  | inl on ↦ rw on (ne→== (2 ^ (bit % 32)) 0 (omega (arith, pow2_pos (bit % 32))))
  | inr off ↦ rw off refl
]
