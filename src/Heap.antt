-- ===== src/Heap.antt =====
-- kernel/brk.c: the end of the heap of a process. The heap is the memory area with number 3 of the
-- mapping of the running thread; of struct mem_area only the fields that brk.c uses stand here.
pub mod Break
use koowaldah.Base.{ℕ, ◌+◌, ◌-◌, ◌^◌, ◌==◌, leb, if◌then◌else◌, u32, sub32}

pub record MemArea : Type 0 where
  pub m_start : ℕ
  pub m_sizelim : ℕ

-- USERMEM_HEAPLIM, the same for both architectures.
abbrev pub heap_limit : ℕ
heap_limit = 524288

-- The result, (void *)-1 where the heap would become too large, and the area.
unfoldable pub sbrk : ℕ → MemArea → ℕ × MemArea
sbrk inc mma =
    let size = u32 (mma.m_sizelim + inc) in
    if leb size heap_limit
    then (u32 (mma.m_start + size), record mma { m_sizelim = size })
    else (2 ^ 32 - 1, mma)

unfoldable pub brk : ℕ → MemArea → ℕ × MemArea
unfolding sbrk
brk end mma = if end == 0 then (mma.m_start, mma) else sbrk (sub32 end mma.m_start) mma
