-- ===== src/Heap/Break.antt =====
-- kernel/brk.c: what calls of sbrk and brk do to a heap, one by one and in a row.
use koowaldah.Base.{
  ℕ, zero, suc, ◌+◌, ◌-◌, ◌*◌, ◌^◌, ◌≤◌, ◌<◌, ◌≡◌, refl, ap, ◌∙◌, ◌⊎◌, inl, inr, List, [], ◌∷◌,
  false, Bool-cases, ◌==◌, ne→==, leb, le→leb, leb→le, u32, sub32, arith,
}
use koowaldah.Heap.{MemArea, heap_limit, sbrk, brk}

-- An area that ends below the last address even at its largest, and is not larger.
abbrev pub IsHeap : MemArea → Type 0
IsHeap mma = (mma.m_sizelim ≤ heap_limit) × (mma.m_start + heap_limit < 2 ^ 32 - 1)

pub data Request : Type 0 where
  grow : ℕ → Request
  move_to : ℕ → Request

abbrev pub answer : Request → MemArea → ℕ × MemArea
answer (grow inc) mma = sbrk inc mma
answer (move_to end) mma = brk end mma

abbrev pub serve : List Request → MemArea → MemArea
serve [] mma = mma
serve (r ∷ rs) mma = serve rs (answer r mma).1

-- A refusal changes nothing; otherwise the area keeps its start and its bound, and the answer is an
-- address from the start on.
abbrev pub IsAnswer : MemArea → ℕ × MemArea → Type 0
IsAnswer mma (r, mma') =
    ((r ≡ 2 ^ 32 - 1) × (mma' ≡ mma))
    ⊎ (IsHeap mma'
        × (mma'.m_start ≡ mma.m_start)
        × (mma.m_start ≤ r)
        × (r ≤ mma.m_start + heap_limit))

sbrk-IsAnswer : (inc : ℕ) (mma : MemArea) → IsHeap mma → IsAnswer mma (sbrk inc mma)
unfolding sbrk
sbrk-IsAnswer inc mma (small, low) =
    elim (Bool-cases (leb (u32 (mma.m_sizelim + inc)) heap_limit)) [
      | inl fits ↦
          let bound = leb→le (u32 (mma.m_sizelim + inc)) heap_limit fits in
          rw fits (inr ((bound, low), refl, omega arith, omega arith))
      | inr large ↦ rw large (inl (refl, refl))
    ]

answer-IsAnswer : (r : Request) (mma : MemArea) → IsHeap mma → IsAnswer mma (answer r mma)
unfolding brk
answer-IsAnswer (grow inc) mma heap = sbrk-IsAnswer inc mma heap
answer-IsAnswer (move_to end) mma heap = elim (Bool-cases (end == 0)) [
  | inl nil ↦ rw nil (inr (heap, refl, omega arith, omega arith))
  | inr set ↦ rw set (sbrk-IsAnswer (sub32 end mma.m_start) mma heap)
]

answer-IsHeap :
    (mma : MemArea) (a : ℕ × MemArea)
    → IsHeap mma
    → IsAnswer mma a
    → IsHeap a.1 × (a.1.m_start ≡ mma.m_start)
answer-IsHeap mma (r, mma') heap (inl (_, same)) = rw same (heap, refl)
answer-IsHeap mma (r, mma') heap (inr (heap', start, _, _)) = (heap', start)

-- Whatever sbrk and brk are asked in a row, the heap stays within its limit and does not move, and the
-- next answer is a refusal that changes nothing, or an address within the heap.
pub serve_lem :
    (rs : List Request) (r : Request) (mma : MemArea)
    → IsHeap mma
    → IsHeap (serve rs mma)
      × ((serve rs mma).m_start ≡ mma.m_start)
      × IsAnswer (serve rs mma) (answer r (serve rs mma))
serve_lem [] r mma heap = (heap, refl, answer-IsAnswer r mma heap)
serve_lem (q ∷ rs) r mma heap =
    let (heap', start) = answer-IsHeap mma (answer q mma) heap (answer-IsAnswer q mma heap) in
    let (kept, same, next) = serve_lem rs r (answer q mma).1 heap' in (kept, same ∙ start, next)

-- A brk above the start that fits: the distance to the start is added to the size.
brk_lem :
    (end : ℕ) (mma : MemArea)
    → 0 < mma.m_start
    → mma.m_start ≤ end
    → mma.m_sizelim + (end - mma.m_start) ≤ heap_limit
    → mma.m_start + heap_limit < 2 ^ 32
    → brk end mma
      ≡ (end + mma.m_sizelim, record mma { m_sizelim = mma.m_sizelim + (end - mma.m_start) })
unfolding brk sbrk
brk_lem end mma pos above fits low =
    let nonzero : (end == 0) ≡ false = ne→== end 0 (λ z. omega (arith, z)) in
    let size : u32 (mma.m_sizelim + sub32 end mma.m_start) ≡ mma.m_sizelim + (end - mma.m_start) =
      omega arith in
    let room = le→leb (mma.m_sizelim + (end - mma.m_start)) heap_limit fits in
    let address : u32 (mma.m_start + (mma.m_sizelim + (end - mma.m_start))) ≡ end + mma.m_sizelim =
      omega arith in
    rw (nonzero, size, room, address) refl

-- The heap after `n` calls of brk with the same end.
abbrev pub repeat_brk : ℕ → ℕ → MemArea → MemArea
repeat_brk zero end mma = mma
repeat_brk (suc n) end mma = repeat_brk n end (brk end mma).1

-- Each further brk with the same end, which is at or above a start that is not 0, moves the end of the
-- heap on by the distance of that end from the start, as long as the limit allows: after `n` of them one
-- more answers with the end asked for, the size at first, and `n` times the distance.
pub repeat_brk_lem :
    (n end : ℕ) (mma : MemArea)
    → 0 < mma.m_start
    → mma.m_start ≤ end
    → mma.m_start + heap_limit < 2 ^ 32
    → mma.m_sizelim + suc n * (end - mma.m_start) ≤ heap_limit
    → (brk end (repeat_brk n end mma)).0 ≡ end + mma.m_sizelim + n * (end - mma.m_start)
repeat_brk_lem zero end mma pos above low fits =
    ap (λ a. a.0) (brk_lem end mma pos above (omega arith) low) ∙ omega arith
repeat_brk_lem (suc n) end mma pos above low fits =
    let d = end - mma.m_start in
    let step = brk_lem end mma pos above (omega arith) low in
    let after : MemArea = record mma { m_sizelim = mma.m_sizelim + d } in
    ap (λ a. (brk end (repeat_brk n end a.1)).0) step
    ∙ repeat_brk_lem n end after pos above low (omega arith)
    ∙ omega arith
