-- ===== src/Cpio/Fields.antt =====
-- What the reader of kernel/fs/cpio.c finds in the fields of a header.
use native.Mathlib.Nat.{div-add-mod}
use koowaldah.Base.{
  ℕ, zero, suc, ◌+◌, ◌/◌, ◌%◌, ◌^◌, ◌<◌, ◌≡◌, sym, ap, arith, Bool, true, false, ◌==◌, ==→eq, ==→ne,
  ne→==, ==_self, lt→ltb, some,
}
use koowaldah.Klib.{Memory}
use koowaldah.Klib.Log2.{roundup_l2_lem}
use koowaldah.Cpio.{magic, cpio2u16, align2, is_special, find_magic}
use koowaldah.Cpio.Layout.{IsField, IsNode, IsGap, padded}

eq→== : (a b : ℕ) → a ≡ b → (a == b) ≡ true
eq→== a b e = rw e (==_self b)

abbrev pub AreBytes : Memory → Type 0
AreBytes m = (p : ℕ) → m p < 256

pub cpio2u16_lem :
    (order : Bool) (m : Memory) (p v : ℕ) → IsField order m p v → cpio2u16 order p m ≡ v
unfolding cpio2u16
cpio2u16_lem true m p v (high, low) = rw (high, low) (omega (arith, div-add-mod v 256))
cpio2u16_lem false m p v (high, low) = rw (high, low) (omega (arith, div-add-mod v 256))

cpio2u16-IsField :
    (order : Bool) (m : Memory) (p : ℕ)
    → AreBytes m
    → cpio2u16 order p m ≡ magic
    → IsField order m p 29127
unfolding cpio2u16
cpio2u16-IsField true m p bytes e =
    (omega (arith, bytes p, bytes (p + 1)), omega (arith, bytes p, bytes (p + 1)))
cpio2u16-IsField false m p bytes e =
    (omega (arith, bytes p, bytes (p + 1)), omega (arith, bytes p, bytes (p + 1)))

-- The test on the first two bytes finds the order that the magic number is written in.
pub order_lem :
    (order : Bool) (m : Memory) (p : ℕ)
    → IsField order m p 29127
    → (cpio2u16 true p m == magic) ≡ order
unfolding cpio2u16
order_lem true m p field = eq→== (cpio2u16 true p m) magic (cpio2u16_lem true m p 29127 field)
order_lem false m p (high, low) = ne→== (cpio2u16 true p m) magic (λ e. omega (arith, high, low, e))

pub align2_lem : (n : ℕ) → n + 2 < 2 ^ 32 → align2 n ≡ padded n
unfolding align2
align2_lem n small =
    let (low, up, even) = roundup_l2_lem n 2 (omega arith) (omega arith) in
    omega (arith, low, up, even)

pub is_special-IsNode : (mode : ℕ) → is_special mode ≡ true → IsNode mode
unfolding is_special
is_special-IsNode mode e =
    ground (arith, ==→eq (mode / 2 ^ 12 % 2 ^ 4) 2, ==→eq (mode / 2 ^ 12 % 2 ^ 4) 4)

pub not_special : (mode : ℕ) → is_special mode ≡ false → ¬ IsNode mode
unfolding is_special
not_special mode e node =
    ground (arith, ==→ne (mode / 2 ^ 12 % 2 ^ 4) 2, ==→ne (mode / 2 ^ 12 % 2 ^ 4) 4)

-- The search ends at the first header, with fuel for the bytes before it.
pub find_magic_lem :
    (fuel gap : ℕ) (order : Bool) (end t : ℕ) (m : Memory)
    → AreBytes m
    → IsGap order m t gap
    → t + gap < end
    → IsField order m (t + gap) 29127
    → gap < fuel
    → find_magic fuel order end t m ≡ some (t + gap)
unfolding find_magic
find_magic_lem zero gap order end t m bytes empty below field enough = absurd (omega arith)
find_magic_lem (suc fuel) zero order end t m bytes empty below field enough =
    let e : t + 0 ≡ t = omega arith in
    rw
      (
        lt→ltb t end (omega arith),
        eq→== (cpio2u16 order t m) magic (cpio2u16_lem order m t 29127 (rw e at field)),
      )
      (ap some (sym e))
find_magic_lem (suc fuel) (suc gap) order end t m bytes empty below field enough =
    let e : t + 0 ≡ t = omega arith in
    let next : t + 1 + gap ≡ t + suc gap = omega arith in
    rw
      (
        lt→ltb t end (omega arith),
        ne→== (cpio2u16 order t m) magic
            (λ found. empty 0 (omega arith) (rw e (cpio2u16-IsField order m t bytes found))),
        find_magic_lem fuel gap order end (t + 1) m bytes
            (λ i lt.
              let s : t + 1 + i ≡ t + suc i = omega arith in rw s (empty (suc i) (omega arith)))
            (omega arith) (rw next field) (omega arith),
      )
      (ap some next)
