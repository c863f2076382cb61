-- ===== src/Sched.antt =====
-- kernel/sched0.c: the round-robin scheduler, on the thread queues of ThreadQueue.
-- `rq` is the address of the run queue. `current` is the thread that CURRENT() finds from the stack;
-- thread_switch_context makes another thread current, and its saved registers are not modelled.
-- `none` stands for a `bug_on` that fires. Every function runs with interrupts off.
pub mod Rotate
pub mod Move
pub mod Turn
use koowaldah.Base.{
  ℕ, zero, suc, ◌+◌, ◌-◌, Bool, true, false, not, Option, none, some, List, [], ◌∷◌, ◌==◌,
  if◌then◌else◌, update, sub32,
}
use koowaldah.Base.Checked.{◌>>=◌, ◌>>◌, bug_on}
use koowaldah.ThreadQueue
use koowaldah.ThreadQueue.{
  Queues, is_null, spin_lock, spin_unlock, insert_head_held, insert_tail_held, remove_thread_held,
  remove_head_held, remove_head, insert_head, insert_tail,
}

-- SCHED_MAX_QUANTUM
abbrev pub max_quantum : ℕ
max_quantum = 100

pub record Sched : Type 0 where
  pub queues : Queues
  pub rq : ℕ
  pub quantum : ℕ → ℕ
  pub last_tick : ℕ → ℕ
  pub current : ℕ
  pub jiffies : ℕ
  pub need_reschedule : Bool
  pub next_thread : Option ℕ

abbrev pub set_queues : Queues → Sched → Sched
set_queues qs s = record s { queues = qs }

abbrev pub set_quantum : ℕ → ℕ → Sched → Sched
set_quantum t n s = record s { quantum = update s.quantum t n }

abbrev pub set_last_tick : ℕ → ℕ → Sched → Sched
set_last_tick t n s = record s { last_tick = update s.last_tick t n }

-- `krunq_head != q`
abbrev pub is_other : Option ℕ → ℕ → Bool
is_other none q = true
is_other (some p) q = not (p == q)

-- `bug_on(!t)`, where `t` is used afterwards
abbrev pub expect : Option ℕ → Option ℕ
expect t = t

-- What sched0_enqueue does with the thread that it took off the other queue.
abbrev pub wake : Option ℕ → Sched → Option (Bool × Sched)
wake none s = some (false, s)
wake (some t) s = do
  qs ← insert_head t s.rq s.queues
  some (true, set_queues qs (set_quantum t max_quantum s))

-- sched0_enqueue: the calls on each of the queues are those of tq_remove_head and tq_insert_head.
unfoldable pub enqueue : ℕ → Sched → Option (Bool × Sched)
enqueue from_q s = do removed ← remove_head from_q s.queues; wake removed.0 (set_queues removed.1 s)

-- The calls with the lock of `q` held that move the first thread to the end.
unfoldable pub rotate_held : ℕ → Queues → Option (ℕ × Queues)
rotate_held q s = do
  removed ← remove_head_held q s
  next ← expect removed.0
  s' ← insert_tail_held next q removed.1
  some (next, s')

unfoldable pub rotate : ℕ → Queues → Option (ℕ × Queues)
rotate q s = do
  s1 ← spin_lock q s
  rotated ← rotate_held q s1
  s2 ← spin_unlock q rotated.1
  some (rotated.0, s2)

-- sched0_dequeue; the calls on `to_q` are those of tq_insert_tail.
unfoldable pub dequeue : ℕ → Sched → Option Sched
dequeue to_q s = do
  bug_on (is_other (s.queues.krunq_head s.current) s.rq)
  s1 ← spin_lock s.rq s.queues
  s2 ← remove_thread_held s.current s1
  rotated ← rotate_held s.rq s2
  s3 ← spin_unlock s.rq rotated.1
  s4 ← insert_tail s.current to_q s3
  some (set_queues s4 (set_last_tick s.current s.jiffies (set_quantum s.current max_quantum s)))

-- What sched0_tick does after the rotation of the run queue to `qs`.
unfoldable pub choose : ℕ → Queues → Sched → Sched
choose next qs s =
    if not (s.current == next)
    then record s { queues = qs; need_reschedule = true; next_thread = some next }
    else set_queues qs s

-- What sched0_tick does when the quantum is used up.
unfoldable pub expire : Sched → Option Sched
expire s = do
  rotated ← rotate s.rq s.queues
  some (choose rotated.0 rotated.1 (set_quantum s.current max_quantum s))

-- sched0_tick
unfoldable pub tick : Sched → Option Sched
tick s = do
  bug_on (ThreadQueue.is_empty s.rq s.queues)
  let counted = set_quantum s.current (sub32 (s.quantum s.current) 1) s
  ticked ← (if counted.quantum s.current == 0 then expire counted else some counted)
  some (set_last_tick s.current s.jiffies ticked)

-- sched0_yield after the rotation of the run queue to `qs`: the context switch.
unfoldable pub switch_to : ℕ → Queues → Sched → Sched
switch_to next qs s = record s {
  queues = qs;
  quantum = update s.quantum s.current max_quantum;
  last_tick = update s.last_tick s.current s.jiffies;
  current = next;
}

-- sched0_yield
unfoldable pub yield : Sched → Option Sched
yield s = do rotated ← rotate s.rq s.queues; some (switch_to rotated.0 rotated.1 s)

-- `n` threads in turn yield: those that run next, in order.
unfoldable pub yields : ℕ → Sched → Option (List ℕ × Sched)
yields zero s = some ([], s)
yields (suc n) s = do s' ← yield s; rest ← yields n s'; some (s'.current ∷ rest.0, rest.1)

-- sched0_init
unfoldable pub init : Sched → Sched
init s = set_queues (ThreadQueue.init s.rq s.queues) s
