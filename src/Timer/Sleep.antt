-- ===== src/Timer/Sleep.antt =====
-- tsleep up to the switch to another thread.
use koowaldah.Base.{ℕ, Option, some, List, [], ◌∷◌, ◌++◌, ◌≡◌, ◌∙◌, ap, refl, sym, arith}
use mathlib.Core.Path.{subst}
use koowaldah.Klist.Frame.{Apart, Apart-sym, init_frame}
use koowaldah.Klist.Laws.{Ring-init}
use koowaldah.Klist.Ring.{NotIn}
use koowaldah.ThreadQueue
use koowaldah.ThreadQueue.{Queues, set_counter, set_links}
use koowaldah.ThreadQueue.Holds.{Holds}
use koowaldah.Sched.{set_queues}
use koowaldah.Sched.Turn.{Ready, yield_lem}
use koowaldah.Sched.Move.{dequeue_lem}
use koowaldah.Timer.{Timers, Interval, made, joined, place, asleep, sleep_on, finish, tsleep}

-- tq_init makes an empty queue with a free lock, and changes no other queue.
init-Holds : (q : ℕ) (s : Queues) → Holds q 0 [] (ThreadQueue.init q s)
unfolding ThreadQueue.init
init-Holds q s = record { ring = Ring-init s.links q; owned = tt; lock = ground arith }

init-other :
    (q r m : ℕ) (us : List ℕ) (s : Queues)
    → NotIn q (r ∷ us)
    → Holds r m us s
    → Holds r m us (ThreadQueue.init q s)
unfolding ThreadQueue.init
init-other q r m us s out holds = record {
  ring = init_frame s.links q r us out holds.ring;
  owned = holds.owned;
  lock = ground (arith, out.0, holds.lock);
}

module _ (w x y : ℕ) (xs ys rest us zs : List ℕ) (s : Timers) where
  -- The scheduler as tsleep leaves it: the thread sleeps in the queue `w`, and `y` runs.
  abbrev pub Asleep : Timers → Type 0
  Asleep s' =
      (s'.lock ≡ 0)
      × (s'.sched.current ≡ y)
      × Ready (us ++ y ∷ []) s'.sched
      × Holds w 0 (zs ++ s.sched.current ∷ []) s'.sched.queues

  sleep_on_lem :
      (future : List Interval)
      → Ready (xs ++ s.sched.current ∷ ys) s.sched
      → xs ++ ys ≡ x ∷ rest
      → rest ++ x ∷ [] ≡ y ∷ us
      → Holds w 0 zs s.sched.queues
      → Apart (s.sched.rq ∷ xs ++ s.sched.current ∷ ys) (w ∷ zs)
      → (s' : Timers) × (sleep_on w future s ≡ some (asleep, s')) × (s'.future ≡ future) × Asleep s'
  unfolding sleep_on
  sleep_on_lem future ready others turn waiting p =
      let (s1, run1, ready1, sleeping, _, same, apart) =
        dequeue_lem w x xs ys rest zs s.sched ready others waiting p in
      let first = subst (λ ts. Ready ts s1) turn ready1 in
      let (s2, run2, chosen, ready2, _, _, keeps) = yield_lem y us s1 first in
      let apart1 =
        subst (λ q. Apart (q ∷ rest ++ x ∷ []) (w ∷ zs ++ s.sched.current ∷ [])) (sym same) apart in
      let apart2 = subst (λ ts. Apart (s1.rq ∷ ts) (w ∷ zs ++ s.sched.current ∷ [])) turn apart1 in
      (
        record { sched = s2; future = future; lock = 0 },
        rw (run1, run2) refl,
        refl,
        (refl, chosen, ready2, keeps.queues w 0 (zs ++ s.sched.current ∷ []) apart2 sleeping),
      )

tsleep-unlocked :
    (fresh : Option ℕ) (delay : ℕ) (s : Timers)
    → s.lock ≡ 0
    → let found = place fresh delay s.future in tsleep fresh delay s ≡ finish found.0 found.1 s
unfolding tsleep
tsleep-unlocked fresh delay s unlocked = rw unlocked refl

-- With the run queue and the interval's queue in order, a tsleep that joins an interval puts the
-- current thread at the end of that interval's queue, and runs the first thread of the run queue, as
-- sched0_dequeue left it. The intervals are those that the search gave, and the lock is free.
tsleep-joined :
    (fresh : Option ℕ) (delay w x y : ℕ) (xs ys rest us zs : List ℕ) (s : Timers)
    → s.lock ≡ 0
    → (place fresh delay s.future).0 ≡ joined w
    → Ready (xs ++ s.sched.current ∷ ys) s.sched
    → xs ++ ys ≡ x ∷ rest
    → rest ++ x ∷ [] ≡ y ∷ us
    → Holds w 0 zs s.sched.queues
    → Apart (s.sched.rq ∷ xs ++ s.sched.current ∷ ys) (w ∷ zs)
    → (s' : Timers) × (tsleep fresh delay s ≡ some (asleep, s'))
      × (s'.future ≡ (place fresh delay s.future).1)
      × Asleep w x y xs ys rest us zs s s'
unfolding finish
tsleep-joined fresh delay w x y xs ys rest us zs s unlocked found ready others turn waiting p =
    let (s', run, kept, done) =
      sleep_on_lem w x y xs ys rest us zs s (place fresh delay s.future).1 ready others turn waiting
        p in
    (
      s',
      tsleep-unlocked fresh delay s unlocked
          ∙ ap (λ f. finish f (place fresh delay s.future).1 s) found
          ∙ run,
      kept,
      done,
    )

-- With the run queue in order, a tsleep that makes a new interval puts the current thread alone into
-- that interval's queue, and runs the first thread of the run queue, as sched0_dequeue left it. The
-- intervals are those that the search gave, and the lock is free.
pub tsleep-made :
    (fresh : Option ℕ) (delay w x y : ℕ) (xs ys rest us : List ℕ) (s : Timers)
    → s.lock ≡ 0
    → (place fresh delay s.future).0 ≡ made w
    → Ready (xs ++ s.sched.current ∷ ys) s.sched
    → xs ++ ys ≡ x ∷ rest
    → rest ++ x ∷ [] ≡ y ∷ us
    → Apart (s.sched.rq ∷ xs ++ s.sched.current ∷ ys) (w ∷ [])
    → (s' : Timers) × (tsleep fresh delay s ≡ some (asleep, s'))
      × (s'.future ≡ (place fresh delay s.future).1)
      × Asleep w x y xs ys rest us [] s s'
unfolding finish
tsleep-made fresh delay w x y xs ys rest us s unlocked found ready others turn p =
    let s0 : Timers = record s { sched = set_queues (ThreadQueue.init w s.sched.queues) s.sched } in
    let out = (Apart-sym (s.sched.rq ∷ xs ++ s.sched.current ∷ ys) (w ∷ []) p).0 in
    let ready0 = init-other w s.sched.rq 0 (xs ++ s.sched.current ∷ ys) s.sched.queues out ready in
    let (s', run, kept, done) =
      sleep_on_lem w x y xs ys rest us [] s0 (place fresh delay s.future).1 ready0 others turn
        (init-Holds w s.sched.queues) p in
    (
      s',
      tsleep-unlocked fresh delay s unlocked
          ∙ ap (λ f. finish f (place fresh delay s.future).1 s) found
          ∙ run,
      kept,
      done,
    )
