-- ===== src/Timer.antt =====
-- kernel/timecore.c: sleeping threads in a list of intervals, each counted from the one before.
-- An interval is named by the address of its `wake_list`. The klist0 list `future` is the list of its
-- members, first to last, as Klist.Laws allows. `lock` is the counter of `future_lock`. What
-- slice_alloc returns is an argument: the `wake_list` of the new interval, or none for NULL. Freeing
-- an interval has no effect here. The registered scheduler is sched0.
pub mod Place
pub mod Fire
pub mod Sleep
use koowaldah.Base.{
  ℕ, zero, suc, ◌+◌, ◌-◌, Bool, true, false, not, Option, none, some, List, [], ◌∷◌, ◌==◌, ltb,
  if◌then◌else◌,
}
use koowaldah.Base.Checked.{◌>>=◌, ◌>>◌, bug_on}
use koowaldah.ThreadQueue
use koowaldah.Sched.{Sched, set_queues, enqueue, dequeue, yield}

pub record Interval : Type 0 where
  pub wake_list : ℕ
  pub ticks_left : ℕ

abbrev pub set_ticks : ℕ → Interval → Interval
set_ticks n i = record i { ticks_left = n }

pub record Timers : Type 0 where
  pub sched : Sched
  pub future : List Interval
  pub lock : ℕ

-- The queue that the loop of tsleep finds for the thread: a new interval's, or one that is there.
pub data Found : Type 0 where
  no_memory : Found
  made : ℕ → Found
  joined : ℕ → Found

-- A new interval in front of `is`, if there is memory for it.
abbrev pub insert_new : Option ℕ → ℕ → List Interval → Found × List Interval
insert_new none delay is = (no_memory, is)
insert_new (some w) delay is = (made w, record { wake_list = w; ticks_left = delay } ∷ is)

-- The search of tsleep through the list.
unfoldable pub place : Option ℕ → ℕ → List Interval → Found × List Interval
place fresh delay [] = insert_new fresh delay []
place fresh delay (i ∷ is) =
    let rest = place fresh (delay - i.ticks_left) is in
    if ltb delay i.ticks_left
    then insert_new fresh delay (set_ticks (i.ticks_left - delay) i ∷ is)
    else if delay == i.ticks_left
    then (joined i.wake_list, i ∷ is)
    else (rest.0, i ∷ rest.1)

-- How a call of tsleep ends: with an error, or in the switch to another thread.
pub data Outcome : Type 0 where
  enomem : Outcome
  asleep : Outcome

-- The calls of the scheduler at the end of tsleep.
unfoldable pub sleep_on : ℕ → List Interval → Timers → Option (Outcome × Timers)
sleep_on w future s = do
  waiting ← dequeue w s.sched
  running ← yield waiting
  some (asleep, record { sched = running; future = future; lock = 0 })

-- tsleep, once the place is found; tq_init prepares the queue of a new interval.
unfoldable pub finish : Found → List Interval → Timers → Option (Outcome × Timers)
finish no_memory future s = some (enomem, record s { future = future; lock = 1 })
finish (made w) future s =
    sleep_on w future (record s { sched = set_queues (ThreadQueue.init w s.sched.queues) s.sched })
finish (joined w) future s = sleep_on w future s

unfoldable pub tsleep : Option ℕ → ℕ → Timers → Option (Outcome × Timers)
tsleep fresh delay s = do
  bug_on (not (s.lock == 0))
  let found = place fresh delay s.future
  finish found.0 found.1 s

-- `while (scheduler_enqueue(&interval->wake_list));`, `none` when the fuel runs out.
unfoldable pub drain : ℕ → ℕ → Sched → Option Sched
drain zero w s = none
drain (suc fuel) w s = do
  woken ← enqueue w s
  elim woken.0 [ true ↦ drain fuel w woken.1 | false ↦ some woken.1 ]

-- update_timers, called at every tick of the clock.
unfoldable pub update_first : ℕ → List Interval → Timers → Option Timers
update_first fuel [] s = some s
update_first fuel (i ∷ is) s =
    let awake = drain fuel i.wake_list s.sched in
    if i.ticks_left == 0
    then (do sched ← awake; some (record s { sched = sched; future = is }))
    else some (record s { future = set_ticks (i.ticks_left - 1) i ∷ is })

unfoldable pub update_timers : ℕ → Timers → Option Timers
update_timers fuel s = do bug_on (not (s.lock == 0)); update_first fuel s.future s

-- `n` ticks of the clock.
unfoldable pub ticks : ℕ → ℕ → Timers → Option Timers
ticks fuel zero s = some s
ticks fuel (suc n) s = do s' ← update_timers fuel s; ticks fuel n s'
