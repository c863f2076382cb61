-- ===== src/Klib/Memory.antt =====
-- memory_set and memory_copy of kernel/lib/klib.c.
use koowaldah.Base.{
  ℕ, zero, suc, ◌+◌, ◌-◌, ◌%◌, ◌<◌, ◌≡◌, arith, Bool, ◌&&◌, ltb, leb, if◌then◌else◌, update,
}
use koowaldah.Klib.{Memory, memory_set, copy_up, copy_down, memory_copy}

-- Does the address lie in the `n` bytes from `s` on?
abbrev pub in_block : ℕ → ℕ → ℕ → Bool
in_block s n a = leb s a && ltb a (s + n)

-- memory_set fills exactly the block.
pub memory_set_lem :
    (s c n : ℕ) (m : Memory) (a : ℕ)
    → memory_set s c n m a ≡ (if in_block s n a then c % 256 else m a)
unfolding memory_set
memory_set_lem s c zero m a = ground arith
memory_set_lem s c (suc n) m a = ground (arith, memory_set_lem s c n (update m (s + n) (c % 256)) a)

copy_up_lem :
    (dest src left i : ℕ) (m : Memory) (a : ℕ)
    → dest < src
    → copy_up dest src left i m a
      ≡ (if in_block (dest + i) left a then m (src + (a - dest)) else m a)
unfolding copy_up
copy_up_lem dest src zero i m a h = ground arith
copy_up_lem dest src (suc left) i m a h =
    ground (arith, copy_up_lem dest src left (i + 1) (update m (dest + i) (m (src + i))) a)

copy_down_lem :
    (dest src n : ℕ) (m : Memory) (a : ℕ)
    → src < dest
    → copy_down dest src n m a ≡ (if in_block dest n a then m (src + (a - dest)) else m a)
unfolding copy_down
copy_down_lem dest src zero m a h = ground arith
copy_down_lem dest src (suc n) m a h =
    ground (arith, copy_down_lem dest src n (update m (dest + n) (m (src + n))) a)

-- memory_copy moves the block as it was before the call, also where the two blocks overlap, and
-- changes nothing else.
pub memory_copy_lem :
    (dest src n : ℕ) (m : Memory) (a : ℕ)
    → let (done, m') = memory_copy dest src n m in
      (done ≡ n) × (m' a ≡ (if in_block dest n a then m (src + (a - dest)) else m a))
unfolding memory_copy
memory_copy_lem dest src n m a =
    ground (arith, copy_up_lem dest src n 0 m a, copy_down_lem dest src n m a)
