-- ===== src/Klib/Print/Plain.antt =====
-- vsnprintf of kernel/lib/vsnprintf.c on formats that hold no '%'.
use mathlib.Core.Option
use koowaldah.Base.{
  ℕ, zero, suc, ◌+◌, ◌-◌, ◌^◌, ◌<◌, ◌≡◌, ap, ◌∙◌, List, ◌∷◌, length, none, some, arith,
  if◌then◌else◌, sub32,
}
use koowaldah.Klib.{Memory, kstrchr, memory_copy}
use koowaldah.Klib.Memory.{in_block, memory_copy_lem}
use koowaldah.Klib.Strings.{IsString, find_first, kstrchr_lem, kstrlen_lem}
use koowaldah.Klib.Print.Format.{emit, format_loop, vsnprintf}

-- With more fuel than the format is long, a format that is not empty, holds no '%' and ends below the
-- top of the address space is copied with the zero byte behind it, nothing else changes, and the
-- result counts that byte too.
pub vsnprintf-plain :
    (fuel sbuf null_text buf format c : ℕ) (s args : List ℕ) (m : Memory)
    → IsString m format (c ∷ s)
    → find_first b'%' (c ∷ s) ≡ none
    → length (c ∷ s) < fuel
    → format + length (c ∷ s) + 1 < 2 ^ 32
    → (m' : Memory) × (vsnprintf fuel sbuf null_text buf format args m
        ≡ some (length (c ∷ s) + 1, m'))
      × ((a : ℕ)
          → m' a ≡ (if in_block buf (length (c ∷ s) + 1) a then m (format + (a - buf)) else m a))
unfolding vsnprintf format_loop emit
vsnprintf-plain zero sbuf null_text buf format c s args m str no_sign fuel top =
    absurd (omega arith)
vsnprintf-plain (suc fuel) sbuf null_text buf format c s args m str no_sign lt top =
    let n = length (c ∷ s) + 1 in
    let m' = (memory_copy buf format n m).1 in
    let found : kstrchr (suc fuel) format b'%' m ≡ some none =
      kstrchr_lem (suc fuel) m format b'%' (c ∷ s) str lt
      ∙ ap (λ o. some (Option.map (λ i. format + i) o)) no_sign in
    let size : sub32 (format + n) format ≡ n = omega arith in
    let done : buf + (memory_copy buf format n m).0 - buf ≡ n =
      omega (arith, (memory_copy_lem buf format n m 0).0) in
    (
      m',
      rw (kstrlen_lem (suc fuel) m format c s str (omega arith), found, size)
          (ap (λ (k : ℕ). some (k, m')) done),
      λ a. (memory_copy_lem buf format n m a).1,
    )
