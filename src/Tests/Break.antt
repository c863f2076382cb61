-- ===== src/Tests/Break.antt =====
-- kernel/brk.c: the heap of the i386 build, empty.
use koowaldah.Base.{◌+◌, ◌-◌, ◌*◌, ◌^◌, ◌≡◌, refl, arith}
use koowaldah.Heap.{MemArea, sbrk, brk}
use koowaldah.Heap.Break.{repeat_brk, repeat_brk_lem}

abbrev heap : MemArea
heap = record { m_start = 2147483648; m_sizelim = 0 }

repeat_brk_lem_example :
    (brk 2147487744 (repeat_brk 2 2147487744 heap)).0
    ≡ 2147487744 + heap.m_sizelim + 2 * (2147487744 - heap.m_start)
repeat_brk_lem_example =
    repeat_brk_lem 2 2147487744 heap (omega arith) (omega arith) (omega arith) (omega arith)

-- The third brk to 0x80001000 answers 0x80003000.
third_brk : (brk 2147487744 (repeat_brk 2 2147487744 heap)).0 ≡ 2147495936
unfolding brk sbrk
third_brk = refl

-- A size that is to shrink wraps round and shrinks.
shrunk : (sbrk (2 ^ 32 - 4096) (brk 2147487744 heap).1).0 ≡ 2147483648
unfolding brk sbrk
shrunk = refl
