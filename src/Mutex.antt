-- ===== src/Mutex.antt =====
-- include/mutex.h: sleeping locks on the scheduler.
-- The lock word is 1 while the mutex is free. `atomic_test_and_set_u32` exchanges the word and gives
-- the old one, `atomic_set_u32` sets bits of it (include/i386/atomic.h). One pass of the loop of
-- mutex_lock is a step: a thread that finds the mutex taken goes to sleep in it, and runs the next pass
-- when it is scheduled again. The registered scheduler is sched0.
pub mod Exclusion
pub mod Queueing
use koowaldah.Base.{ℕ, ◌+◌, ◌%◌, Bool, true, false, not, Option, none, some, ◌==◌, if◌then◌else◌}
use koowaldah.Base.Checked.{◌>>=◌, ◌>>◌, bug_on}
use koowaldah.ThreadQueue
use koowaldah.Sched.{Sched, set_queues, enqueue, dequeue, yield}

-- A mutex, with the scheduler that its threads run on. `sleepers` is the address of its queue.
pub record Mutex : Type 0 where
  pub lock : ℕ
  pub sleepers : ℕ
  pub sched : Sched

abbrev pub set_lock : ℕ → Mutex → Mutex
set_lock v m = record m { lock = v }

abbrev pub set_sched : Sched → Mutex → Mutex
set_sched s m = record m { sched = s }

-- atomic_test_and_set_u32: the old word.
abbrev pub test_and_set : ℕ → Mutex → ℕ × Mutex
test_and_set v m = (m.lock, set_lock v m)

-- atomic_set_u32 for the value 1, an `or`.
abbrev pub set_bit : Mutex → Mutex
set_bit m = if m.lock % 2 == 0 then set_lock (m.lock + 1) m else m

-- mutex_init
unfoldable pub init : Mutex → Mutex
init m =
    let m1 = (test_and_set 1 m).1 in
    set_sched (set_queues (ThreadQueue.init m1.sleepers m1.sched.queues) m1.sched) m1

-- mutex_trylock: was the mutex taken?
unfoldable pub trylock : Mutex → Bool × Mutex
trylock m = let tried = test_and_set 0 m in (tried.0 == 0, tried.1)

-- What mutex_lock does when the mutex is taken.
unfoldable pub sleep : Mutex → Option Mutex
sleep m = do
  waiting ← dequeue m.sleepers m.sched
  running ← yield waiting
  some (set_sched running m)

-- One pass of mutex_lock: does it return, with the mutex acquired?
unfoldable pub lock_pass : Mutex → Option (Bool × Mutex)
lock_pass m =
    let tried = trylock m in
    if tried.0 then (do m' ← sleep tried.1; some (false, m')) else some (true, tried.1)

-- mutex_unlock
unfoldable pub unlock : Mutex → Option Mutex
unlock m = do
  let tried = trylock m
  bug_on (not tried.0)
  woken ← enqueue tried.1.sleepers tried.1.sched
  some (set_bit (set_sched woken.1 tried.1))
