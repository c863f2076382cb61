-- ===== src/Timer/Fire.antt =====
-- The clock: when an interval of kernel/timecore.c ends, and who is woken then.
use koowaldah.Base.{
  ℕ, zero, suc, ◌+◌, ◌-◌, ◌<◌, some, List, [], ◌∷◌, ◌≡◌, refl, arith, length, sym, ne→==,
}
use mathlib.Core.Path.{subst}
use koowaldah.Klist.Frame.{Apart, Apart-second}
use koowaldah.ThreadQueue.Holds.{Holds}
use koowaldah.Sched.{Sched}
use koowaldah.Sched.Turn.{Ready}
use koowaldah.Sched.Move.{enqueue_lem, enqueue-nil}
use koowaldah.Timer.{Interval, Timers, drain, update_first, update_timers, ticks}

-- `xs` in reverse, in front of `ys`.
abbrev pub reverse_onto : List ℕ → List ℕ → List ℕ
reverse_onto [] ys = ys
reverse_onto (x ∷ xs) ys = reverse_onto xs (x ∷ ys)

-- The loop of update_timers ends, and moves all threads of the queue to the front of the run queue,
-- the last of them first.
pub drain_lem :
    (fuel w : ℕ) (xs ys : List ℕ) (s : Sched)
    → Holds w 0 xs s.queues
    → Ready ys s
    → Apart (w ∷ xs) (s.rq ∷ ys)
    → length xs < fuel
    → (s' : Sched) × (drain fuel w s ≡ some s')
      × Holds w 0 [] s'.queues
      × Ready (reverse_onto xs ys) s'
unfolding drain
drain_lem zero w xs ys s from ready p lt = absurd (omega arith)
drain_lem (suc fuel) w [] ys s from ready p lt =
    let (s', run, left, ready') = enqueue-nil w ys s from ready p in (s', rw run refl, left, ready')
drain_lem (suc fuel) w (x ∷ xs) ys s from ready p lt =
    let (s1, run1, left, ready1, _, same) = enqueue_lem w x xs ys s from ready p in
    let apart : Apart (w ∷ xs) (s1.rq ∷ x ∷ ys) =
      subst (λ q. Apart (w ∷ xs) (q ∷ x ∷ ys)) (sym same)
        ((p.0.0, (from.ring.1.0.0, p.0.1)), Apart-second s.rq x ys xs from.ring.1.1.0 p.1.1) in
    let (s2, run2, left2, ready2) =
      drain_lem fuel w xs (x ∷ ys) s1 left ready1 apart (omega arith) in
    (s2, rw (run1, run2) refl, left2, ready2)

abbrev pub interval : ℕ → ℕ → Interval
interval w n = record { wake_list = w; ticks_left = n }

update-quiet :
    (fuel n w : ℕ) (is : List Interval) (s : Timers)
    → s.lock ≡ 0
    → s.future ≡ interval w (suc n) ∷ is
    → update_timers fuel s ≡ some (record s { future = interval w n ∷ is })
unfolding update_timers update_first
update-quiet fuel n w is s unlocked first =
    let less : suc n - 1 ≡ n = omega arith in
    rw (unlocked, first, ne→== (suc n) 0 (omega arith), less) refl

-- With the lock free and `k + m` ticks left to the first interval, `k` ticks of the clock leave it
-- `m`, and nothing else changes.
pub ticks_quiet :
    (fuel k m w : ℕ) (is : List Interval) (s : Timers)
    → s.lock ≡ 0
    → s.future ≡ interval w (k + m) ∷ is
    → (s' : Timers) × (ticks fuel k s ≡ some s')
      × (s'.future ≡ interval w m ∷ is)
      × (s'.sched ≡ s.sched)
      × (s'.lock ≡ 0)
unfolding ticks
ticks_quiet fuel zero m w is s unlocked first =
    let none_gone : 0 + m ≡ m = omega arith in (s, refl, rw none_gone at first, refl, unlocked)
ticks_quiet fuel (suc k) m w is s unlocked first =
    let s1 : Timers = record s { future = interval w (k + m) ∷ is } in
    let (s', run, a, b, c) = ticks_quiet fuel k m w is s1 unlocked refl in
    let more : suc k + m ≡ suc (k + m) = omega arith in
    (s', rw (update-quiet fuel (k + m) w is s unlocked (rw more at first), run) refl, a, b, c)

-- With the lock free, the run queue and the first interval's sleepers in order and apart, and fuel
-- for as many rounds as there are sleepers and one more at each tick, an interval with `n` ticks
-- left ends at the tick after these: all its sleepers are then at the front of the run queue, the
-- last of them first, and the next interval is first in the list.
pub fire_lem :
    (fuel n w : ℕ) (is : List Interval) (xs ys : List ℕ) (s : Timers)
    → s.lock ≡ 0
    → s.future ≡ interval w n ∷ is
    → Holds w 0 xs s.sched.queues
    → Ready ys s.sched
    → Apart (w ∷ xs) (s.sched.rq ∷ ys)
    → length xs < fuel
    → (s' : Timers) × (ticks fuel (suc n) s ≡ some s')
      × (s'.future ≡ is)
      × (s'.lock ≡ 0)
      × Ready (reverse_onto xs ys) s'.sched
unfolding ticks update_timers update_first
fire_lem fuel zero w is xs ys s unlocked first from ready p lt =
    let (sched, run, _, awake) = drain_lem fuel w xs ys s.sched from ready p lt in
    (record s { sched = sched; future = is }, rw (unlocked, first, run) refl, refl, unlocked, awake)
fire_lem fuel (suc n) w is xs ys s unlocked first from ready p lt =
    let s1 : Timers = record s { future = interval w n ∷ is } in
    let (s', run, a, b, c) = fire_lem fuel n w is xs ys s1 unlocked refl from ready p lt in
    (s', rw (update-quiet fuel n w is s unlocked first) run, a, b, c)
