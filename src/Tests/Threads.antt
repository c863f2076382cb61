-- ===== src/Tests/Threads.antt =====
-- The scheduler and the timers on a small machine: the run queue 20 holds the threads 3 and 4, and 4
-- runs; the queue 10 holds 1 and 2; thread 5 is idle, and the queue 30 is empty.
use koowaldah.Base.{none, some, true, false, [], ◌∷◌, ◌≡◌, ◌≤◌, ◌+◌, refl, arith, update}
use koowaldah.Klist
use koowaldah.Klist.{Links}
use koowaldah.Klist.Frame.{Apart}
use koowaldah.ThreadQueue.{Queues, transfer_head_to_tail}
use koowaldah.ThreadQueue.Holds.{Holds, Idle, Keeps}
use koowaldah.ThreadQueue.Transfer.{transfer_head_to_tail_lem}
use koowaldah.Sched.{Sched, max_quantum, yields, enqueue, dequeue}
use koowaldah.Sched.Turn.{Ready, yields_lem}
use koowaldah.Sched.Move.{enqueue_lem, dequeue_lem}
use koowaldah.Mutex
use koowaldah.Mutex.{Mutex, set_lock, lock_pass, unlock}
use koowaldah.Mutex.Exclusion.{Reach, here, next, acquire, exclusion}
use koowaldah.Mutex.Queueing.{lock_pass-free}
use koowaldah.Timer.{joined, Timers, place, ticks, tsleep, update_timers, made, enomem, finish}
use koowaldah.Timer.Place.{sums, Added, place_lem, tsleep-enomem}
use koowaldah.Timer.Fire.{interval, fire_lem}

abbrev links : Links
unfolding Klist.append
links =
    let blank : Links = record { prev = λ i. i; next = λ i. i } in
    Klist.append 3 20 (Klist.append 4 20 (Klist.append 1 10 (Klist.append 2 10 blank)))

abbrev queues : Queues
queues = record {
  links = links;
  krunq_head =
      update (update (update (update (λ _. none) 1 (some 10)) 2 (some 10)) 3 (some 20)) 4 (some 20);
  counter = λ _. 0;
}

waiting : Holds 10 0 (1 ∷ 2 ∷ []) queues
unfolding Klist.append
waiting = record { ring = ground arith; owned = (refl, (refl, tt)); lock = refl }

running : Holds 20 0 (3 ∷ 4 ∷ []) queues
unfolding Klist.append
running = record { ring = ground arith; owned = (refl, (refl, tt)); lock = refl }

nobody : Holds 30 0 [] queues
unfolding Klist.append
nobody = record { ring = ground arith; owned = tt; lock = refl }

idle : Idle 5 queues
unfolding Klist.append
idle = record { alone = ground arith; unowned = refl }

transfer_head_to_tail_lem_example :
    (s' : Queues) × (transfer_head_to_tail 10 20 queues ≡ some (true, s'))
    × Holds 10 0 (2 ∷ []) s'
    × Holds 20 0 (3 ∷ 4 ∷ 1 ∷ []) s'
    × Keeps (10 ∷ 1 ∷ 2 ∷ 1 ∷ 20 ∷ 3 ∷ 4 ∷ []) queues s'
transfer_head_to_tail_lem_example =
    transfer_head_to_tail_lem 10 20 1 (2 ∷ []) (3 ∷ 4 ∷ []) queues waiting running (ground arith)

abbrev sched : Sched
sched = record {
  queues = queues;
  rq = 20;
  quantum = λ _. 1;
  last_tick = λ _. 0;
  current = 4;
  jiffies = 7;
  need_reschedule = false;
  next_thread = none;
}

yields_lem_example : (s' : Sched) × (yields 2 sched ≡ some (3 ∷ 4 ∷ [], s')) × Ready (3 ∷ 4 ∷ []) s'
yields_lem_example = yields_lem (3 ∷ 4 ∷ []) [] sched running

enqueue_lem_example :
    (s' : Sched) × (enqueue 10 sched ≡ some (true, s'))
    × Holds 10 0 (2 ∷ []) s'.queues
    × Ready (1 ∷ 3 ∷ 4 ∷ []) s'
    × (s'.quantum 1 ≡ max_quantum)
    × (s'.rq ≡ 20)
enqueue_lem_example = enqueue_lem 10 1 (2 ∷ []) (3 ∷ 4 ∷ []) sched waiting running (ground arith)

dequeue_lem_example :
    (s' : Sched) × (dequeue 10 sched ≡ some s')
    × Ready (3 ∷ []) s'
    × Holds 10 0 (1 ∷ 2 ∷ 4 ∷ []) s'.queues
    × (s'.quantum 4 ≡ max_quantum)
    × (s'.rq ≡ 20)
    × Apart (20 ∷ 3 ∷ []) (10 ∷ 1 ∷ 2 ∷ 4 ∷ [])
dequeue_lem_example =
    dequeue_lem 10 3 (3 ∷ []) [] [] (1 ∷ 2 ∷ []) sched running refl waiting (ground arith)

abbrev lone : Sched
unfolding Klist.append
lone = record sched {
  queues = record queues { links = Klist.append 4 20 (record { prev = λ i. i; next = λ i. i }) };
}

lone-Ready : Ready (4 ∷ []) lone
unfolding Klist.append
lone-Ready = record { ring = ground arith; owned = (refl, tt); lock = refl }

abbrev timers : Timers
timers = record { sched = sched; future = interval 10 3 ∷ interval 30 0 ∷ []; lock = 0 }

place_lem_example : Added 2 (made 40) ((10, 3) ∷ (30, 3) ∷ []) ((40, 2) ∷ (10, 3) ∷ (30, 3) ∷ [])
unfolding place sums
place_lem_example = place_lem 40 0 2 (interval 10 3 ∷ interval 30 0 ∷ [])

fire_lem_example :
    (s' : Timers) × (ticks 5 4 timers ≡ some s')
    × (s'.future ≡ interval 30 0 ∷ [])
    × (s'.lock ≡ 0)
    × Ready (2 ∷ 1 ∷ 3 ∷ 4 ∷ []) s'.sched
fire_lem_example =
    fire_lem 5 3 10 (interval 30 0 ∷ []) (1 ∷ 2 ∷ []) (3 ∷ 4 ∷ []) timers refl refl waiting running
      (ground arith) (omega arith)

abbrev stuck : Timers
stuck = record timers { future = interval 10 1 ∷ interval 30 0 ∷ []; lock = 1 }

tsleep_fails : tsleep none 2 timers ≡ some (enomem, stuck)
unfolding tsleep place finish
tsleep_fails = refl

tsleep-enomem_example : update_timers 5 stuck ≡ none
tsleep-enomem_example = tsleep-enomem none 2 5 timers stuck tsleep_fails

abbrev taken : Mutex
taken = record { lock = 0; sleepers = 10; sched = sched }

acquired : Reach taken 1 (set_lock 0 (Mutex.init taken))
unfolding Mutex.init
acquired = next here (acquire (lock_pass-free (Mutex.init taken) (omega arith)))

exclusion_example : (1 ≤ 1) × ((set_lock 0 (Mutex.init taken)).lock + 1 ≡ 1)
exclusion_example = exclusion taken 1 (set_lock 0 (Mutex.init taken)) acquired

joins : (place none 3 timers.future).0 ≡ joined 10
unfolding place
joins = refl

makes : (place (some 40) 2 timers.future).0 ≡ made 40
unfolding place
makes = refl
