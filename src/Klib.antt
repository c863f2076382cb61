-- ===== src/Klib.antt =====
-- kernel/lib/klib.c and include/lib.h: memory, C strings and small arithmetic.
-- Memory is a function from addresses to bytes. Addresses do not wrap round: the objects that the
-- functions are called on end below the top of the address space. A loop over a string runs on fuel,
-- and gives `none` where it runs out: a string that is not terminated has no other meaning.
pub mod Memory
pub mod Strings
pub mod Strtoul
pub mod Log2
pub mod Print
use koowaldah.Base.{
  ℕ, zero, suc, ◌+◌, ◌-◌, ◌/◌, ◌%◌, ◌^◌, Bool, ◌&&◌, not, Option, none, some, ◌==◌, ltb,
  if◌then◌else◌, update, sub32,
}
use mathlib.Core.Option

abbrev pub Memory : Type 0
Memory = ℕ → ℕ

-- The loop of memory_set, with `t` bytes still to do.
unfoldable pub memory_set : ℕ → ℕ → ℕ → Memory → Memory
memory_set s c zero m = m
memory_set s c (suc t) m = memory_set s c t (update m (s + t) (c % 256))

-- The two loops of memory_copy: `i` counts up while `left` bytes are to do, or counts down.
copy_up : ℕ → ℕ → ℕ → ℕ → Memory → Memory
copy_up dest src zero i m = m
copy_up dest src (suc left) i m = copy_up dest src left (i + 1) (update m (dest + i) (m (src + i)))

copy_down : ℕ → ℕ → ℕ → Memory → Memory
copy_down dest src zero m = m
copy_down dest src (suc i) m = copy_down dest src i (update m (dest + i) (m (src + i)))

unfoldable pub memory_copy : ℕ → ℕ → ℕ → Memory → ℕ × Memory
unfolding copy_up copy_down
memory_copy dest src n m =
    if dest == src
    then (n, m)
    else if ltb dest src
    then (n, copy_up dest src n 0 m)
    else (n, copy_down dest src n m)

-- log2: the loop over `l`, which stops at 32, and the rounding.
log2_loop : ℕ → ℕ → ℕ → ℕ
log2_loop zero l n = l
log2_loop (suc left) l n = let more = log2_loop left (l + 1) n in if n / 2 ^ l == 0 then l else more

unfoldable pub log2 : ℕ → ℕ
unfolding log2_loop
log2 n = let l = log2_loop 31 1 n in if n % 2 ^ (l - 1) == 0 then l - 1 else l

-- roundup_l2 on words: `~(base - 1)` clears the bits below the power of two `base`.
unfoldable pub roundup_l2 : ℕ → ℕ → ℕ
roundup_l2 x base = let y = (x + (base - 1)) % 2 ^ 32 in y - y % base

-- kstrchr from `p`: the address of the character, or `some none` for NULL.
unfoldable pub kstrchr : ℕ → ℕ → ℕ → Memory → Option (Option ℕ)
kstrchr zero p c m = none
kstrchr (suc fuel) p c m =
    let rest = kstrchr fuel (p + 1) c m in
    if not (m p == 0) && not (c == m p) then rest else if m p == 0 then some none else some (some p)

-- `while ('\0' != *(++p));`
strlen_loop : ℕ → ℕ → Memory → Option ℕ
strlen_loop zero p m = none
strlen_loop (suc fuel) p m =
    let rest = strlen_loop fuel (p + 1) m in if m (p + 1) == 0 then some (p + 1) else rest

unfoldable pub kstrlen : ℕ → ℕ → Memory → Option ℕ
unfolding strlen_loop
kstrlen fuel str m = Option.map (λ p. p - str) (strlen_loop fuel str m)

-- The walk of kstrrchr from `str + left` down to `str`.
strrchr_loop : ℕ → ℕ → ℕ → Memory → ℕ
strrchr_loop str zero c m = str
strrchr_loop str (suc left) c m =
    let rest = strrchr_loop str left c m in if c == m (str + suc left) then str + suc left else rest

unfoldable pub kstrrchr : ℕ → ℕ → ℕ → Memory → Option (Option ℕ)
unfolding strrchr_loop
kstrrchr fuel str c m = elim (kstrlen fuel str m) [
  | none ↦ none
  | some n ↦ let p = strrchr_loop str n c m in if c == m p then some (some p) else some none
]

-- kstrncmp. The difference `*a - *b` is given by its two operands.
unfoldable pub kstrncmp : ℕ → ℕ → ℕ → Memory → ℕ × ℕ
kstrncmp a b zero m = (m a, m b)
kstrncmp a b (suc n) m =
    let rest = kstrncmp (a + 1) (b + 1) n m in if m a == m b then rest else (m a, m b)

unfoldable pub k__strcmp : ℕ → ℕ → ℕ → Memory → Option (ℕ × ℕ)
k__strcmp zero a b m = none
k__strcmp (suc fuel) a b m =
    let rest = k__strcmp fuel (a + 1) (b + 1) m in
    if not (m a == 0) && not (m b == 0) && (m a == m b) then rest else some (m a, m b)

unfoldable pub kstrcmp : ℕ → ℕ → ℕ → Memory → Option (ℕ × ℕ)
kstrcmp fuel a b m = elim (kstrlen fuel a m) [
  | none ↦ none
  | some len_a ↦ elim (kstrlen fuel b m) [
    | none ↦ none
    | some len_b ↦ if len_a == len_b then some (kstrncmp a b len_a m) else k__strcmp fuel a b m
  ]
]
